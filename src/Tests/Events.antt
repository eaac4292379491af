-- ===== src/Tests/Events.antt =====
-- The theorems on values and events (alsa_midi/event.py, alsa_midi/address.py) at concrete inputs.
use python_alsa_midi.Prelude.{
  ℕ, ◌<◌, ◌≡◌, ◌≢◌, ◌↔◌, refl, true, none, some, ℤ, pos, negsuc, ◌+ℤ◌, arith,
}
use python_alsa_midi.Exceptions.{ok, err, alsa_error}
use python_alsa_midi.RealTime.{RealTime, int, normalise, init, less}
use python_alsa_midi.RealTime.Normal.{IsNormal, total}
use python_alsa_midi.RealTime.Order.{less_iff}
use python_alsa_midi.Address.{Arg, new}
use python_alsa_midi.Address.Laws.{Refuses, new-eq-err_iff}
use python_alsa_midi.EventType.{EventType, unknown}
use python_alsa_midi.Event.Class.{Base}
use python_alsa_midi.Event.Header.{Header, Args, default_args}
use python_alsa_midi.Event.Header as HeaderModule
use python_alsa_midi.Event.Notes.{note_init}
use python_alsa_midi.Event.Constructed.{note_init-ok_iff, init-one_time}
use python_alsa_midi.Event.RoundTrip.Encode.{NotBoth, Given}
use python_alsa_midi.Event.Payload.{Payload}
use python_alsa_midi.Event.Codec.{Event}
use python_alsa_midi.Event.RoundTrip.Fields.{Is4bit, Is7bit}
use python_alsa_midi.Tests.Setup.{numbers, parse_address, platform, synth, half_past}

abbrev noon : RealTime
noon = record { seconds = pos 2; nanoseconds = pos 0 }

half_past-IsNormal : IsNormal half_past
half_past-IsNormal = ground arith

noon-IsNormal : IsNormal noon
noon-IsNormal = ground arith

carries : init numbers (int (pos 0)) (pos 1_500_000_000) ≡ ok half_past
unfolding init normalise ◌+ℤ◌
carries = refl

normalises : normalise (pos 0) (pos 1_500_000_000) ≡ ok half_past
unfolding normalise ◌+ℤ◌
normalises = refl

nobody : new parse_address (Arg.text "Nobody") (pos 0) ≡ err (alsa_error (negsuc 1))
unfolding new
nobody = refl

less_iff_example : (less half_past noon ≡ true) ↔ (total half_past < total noon)
less_iff_example = less_iff half_past noon half_past-IsNormal noon-IsNormal

new-eq-err_iff_example :
    (new parse_address (Arg.text "Nobody") (pos 0) ≡ err (alsa_error (negsuc 1)))
    ↔ Refuses parse_address (Arg.text "Nobody") (alsa_error (negsuc 1))
new-eq-err_iff_example =
    new-eq-err_iff parse_address (Arg.text "Nobody") (pos 0) (alsa_error (negsuc 1))

noteon-known : (n : ℕ) → EventType.noteon ≢ unknown n
noteon-known n h = cc

-- A note on channel 3, at a real time on queue 1, to the synth.
abbrev note_event : Event
note_event = record {
  class = record { type = some EventType.noteon; base = Base.note };
  header = record {
    type = some EventType.noteon;
    flags = some 0;
    tag = pos 7;
    queue_id = some (pos 1);
    time = some half_past;
    tick = none;
    source = none;
    dest = some synth;
    relative = some true;
    raw_data = none;
  };
  payload = Payload.note (pos 60) (pos 3) (pos 100);
}

note_init-ok_iff_example :
    (note_init (pos 60) (pos 16) (pos 100) ≡ ok (Payload.note (pos 60) (pos 16) (pos 100)))
    ↔ (Is7bit (pos 60) × Is4bit (pos 16) × Is7bit (pos 100))
note_init-ok_iff_example = note_init-ok_iff (pos 60) (pos 16) (pos 100)

abbrev timed_args : Args ℤ
timed_args = record default_args { time = some (int (pos 3)) }

abbrev timed_header : Header
timed_header = record {
  type = some EventType.noteon;
  flags = some 0;
  tag = pos 0;
  queue_id = none;
  time = some (record { seconds = pos 3; nanoseconds = pos 0 });
  tick = none;
  source = none;
  dest = none;
  relative = none;
  raw_data = none;
}

timed : HeaderModule.init platform (some EventType.noteon) timed_args ≡ ok timed_header
unfolding HeaderModule.init init normalise
timed = refl

init-one_time_example :
    NotBoth timed_header.time timed_header.tick × Given IsNormal timed_header.time
init-one_time_example = init-one_time platform (some EventType.noteon) timed_args timed_header timed
