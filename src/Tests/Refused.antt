-- ===== src/Tests/Refused.antt =====
-- The theorem on refused pieces (alsa_midi/client.py) at two notes in one event.
use python_alsa_midi.Prelude.{
  ℕ, ◌≡◌, refl, true, none, some, List, [], ◌∷◌, pos, length, min, leb, arith, if◌then◌else◌,
}
use python_alsa_midi.Exceptions.{ok}
use python_alsa_midi.Event.ToAlsa.{
  Alsa, no_overrides, put_type, queue_of, put_time, put_tick, put_source, put_dest, put_flags,
  stamp_flags, put_raw_data,
}
use python_alsa_midi.Event.ToAlsa
use python_alsa_midi.Event.Payload.{Payload}
use python_alsa_midi.Event.Class.{midi_bytes_class}
use python_alsa_midi.Event.Codec.{Event, to_alsa, payload_to_alsa, length_flags}
use python_alsa_midi.Event.RoundTrip.Events.{fresh}
use python_alsa_midi.Client.Session.{Library, Client}
use python_alsa_midi.Client.Output.{midi_bytes_of}
use python_alsa_midi.Client.Waiting.{eagain}
use python_alsa_midi.Client.Waiting.Blocking.{event_output}
use python_alsa_midi.Client.Waiting.Refused.{after_both, event_output-refused}
use python_alsa_midi.Tests.Setup.{platform}

-- The encoder takes three bytes at a time; the first output is refused.
abbrev busy_once : Library (Alsa platform)
busy_once = record {
  Parser = Unit;
  new_parser = tt;
  encode = λ parser bs a. record {
    processed = pos (min 3 (length bs));
    parser = tt;
    event = record a { type = pos 6 };
  };
  decode = λ parser room a. record { count = pos 0; bytes = []; parser = tt };
  answer = λ calls. if leb (length calls) 2 then eagain else pos 28;
  event = λ calls. fresh platform;
  zeros = fresh platform;
}

abbrev started : Client platform busy_once
started = record { event_parser = some tt; calls = [] }

abbrev two_notes : List ℕ
two_notes = 0x90 ∷ 60 ∷ 100 ∷ 0x90 ∷ 64 ∷ 100 ∷ []

abbrev chord : Event
chord = record {
  class = midi_bytes_class;
  header = record {
    type = none;
    flags = some 0;
    tag = pos 0;
    queue_id = none;
    time = none;
    tick = none;
    source = none;
    dest = none;
    relative = none;
    raw_data = none;
  };
  payload = Payload.midi_bytes two_notes;
}

abbrev stored_chord : Alsa platform
stored_chord = record (fresh platform) { queue = pos 253; dest_client = pos 254 }

chord_stored : to_alsa platform chord no_overrides (fresh platform) ≡ ok stored_chord
unfolding to_alsa ToAlsa.to_alsa put_type queue_of put_time put_tick put_source put_dest put_flags
    stamp_flags payload_to_alsa put_raw_data length_flags
chord_stored = refl

chord_bytes : midi_bytes_of chord.payload ≡ some two_notes
unfolding midi_bytes_of
chord_bytes = refl

event_output-refused_example :
    event_output platform busy_once (λ calls. pos (length calls)) true 2 chord no_overrides started
    ≡ some (
      ok (some (pos 28)),
      after_both platform busy_once
          (λ calls. pos (length calls))
          tt
          two_notes
          3
          stored_chord
          started,
    )
event_output-refused_example =
    event_output-refused platform busy_once (λ calls. pos (length calls)) 0 3 28 chord no_overrides
      two_notes tt stored_chord started chord_bytes chord_stored refl refl (omega arith) refl refl
      refl refl refl
