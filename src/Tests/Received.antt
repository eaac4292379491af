-- ===== src/Tests/Received.antt =====
-- The theorems on received events (alsa_midi/event.py) at a note in real time.
use python_alsa_midi.Prelude.{◌≡◌, refl, none, some, [], ◌∷◌, pos, false, ◌+ℤ◌, arith}
use python_alsa_midi.Exceptions.{ok}
use python_alsa_midi.EventType.{EventType, value}
use python_alsa_midi.RealTime.{init, normalise}
use python_alsa_midi.Struct.{fits, ctype, size, offset}
use python_alsa_midi.Struct.Bytes.{bytes_union}
use python_alsa_midi.Event.ToAlsa.{Alsa}
use python_alsa_midi.Event.Payload.{Payload}
use python_alsa_midi.Event.Class.{Base, class_for}
use python_alsa_midi.Event.Codec.{Event, from_alsa, payload_from_alsa}
use python_alsa_midi.Event.FromAlsa
use python_alsa_midi.Event.Notes.{note_from_alsa}
use python_alsa_midi.Event.RoundTrip.Events.{IsEvent, fresh}
use python_alsa_midi.Event.Received.{IsReceived, IsInside}
use python_alsa_midi.Event.Received.Types.{from_alsa-IsEvent}
use python_alsa_midi.Client.Session.{IoCall, Library, Client}
use python_alsa_midi.Tests.Setup.{platform, synth, half_past}

-- Middle C on the third channel
abbrev note_bytes : platform.memory.Data
note_bytes =
    platform.memory.put_raw (2 ∷ 60 ∷ 100 ∷ 0 ∷ 0 ∷ 0 ∷ 0 ∷ 0 ∷ 0 ∷ 0 ∷ 0 ∷ 0 ∷ [])
      platform.memory.zeroed

abbrev note_on : Alsa platform
note_on = record {
  type = pos 6;
  flags = 1;
  tag = pos 3;
  queue = pos 253;
  tick_or_sec = pos 1;
  nsec = pos 500_000_000;
  source_client = pos 20;
  source_port = pos 1;
  dest_client = pos 128;
  dest_port = pos 0;
  union = note_bytes;
}

abbrev note_event : Event
note_event = record {
  class = record { type = some EventType.noteon; base = Base.note };
  header = record {
    type = some EventType.noteon;
    flags = some 1;
    tag = pos 3;
    queue_id = some (pos 253);
    time = some half_past;
    tick = none;
    source = some synth;
    dest = some (record { client_id = pos 128; port_id = pos 0 });
    relative = some false;
    raw_data = some (2 ∷ 60 ∷ 100 ∷ 0 ∷ 0 ∷ 0 ∷ 0 ∷ 0 ∷ 0 ∷ 0 ∷ 0 ∷ 0 ∷ []);
  };
  payload = Payload.note (pos 60) (pos 2) (pos 100);
}

note_on-IsReceived : IsReceived platform note_on
unfolding fits
note_on-IsReceived = record {
  type = refl;
  flags = omega arith;
  tag = refl;
  queue = refl;
  tick_or_sec = refl;
  time = λ _. ground arith;
  source_client = refl;
  source_port = refl;
  dest_client = refl;
  dest_port = refl;
}

is_inside : IsInside platform (class_for 6).base note_bytes
unfolding class_for
is_inside = tt

note_read : from_alsa platform (class_for 6) note_on ≡ ok note_event
unfolding from_alsa class_for bytes_union FromAlsa.from_alsa normalise init ◌+ℤ◌ payload_from_alsa
    note_from_alsa ctype size offset
note_read = refl

from_alsa-IsEvent_example : (t : EventType) × (value t ≡ 6) × IsEvent platform note_event t 1
from_alsa-IsEvent_example =
    from_alsa-IsEvent platform note_on note_on-IsReceived is_inside note_read

-- A library that always has the note, and takes what it is given.
abbrev through : Library (Alsa platform)
through = record {
  Parser = Unit;
  new_parser = tt;
  encode = λ parser bs a. record { processed = pos 0; parser = tt; event = a };
  decode = λ parser room a. record { count = pos 0; bytes = []; parser = tt };
  answer = λ calls. pos 28;
  event = λ calls. note_on;
  zeros = fresh platform;
}

abbrev client : Client platform through
client = record { event_parser = none; calls = [] }

abbrev received_client : Client platform through
received_client = record {
  event_parser = none;
  calls = IoCall.free_event note_on ∷ IoCall.input ∷ [];
}
