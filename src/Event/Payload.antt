-- ===== src/Event/Payload.antt =====
-- The structured data of the subclasses of `Event` (alsa_midi/event.py): a constructor for each set
-- of attributes.
use python_alsa_midi.Prelude.{ℕ, Option, List, ℤ}
use python_alsa_midi.RealTime.{RealTime}
use python_alsa_midi.Address.{Address}

pub data Payload : Type 0 where
  plain : Payload
  -- event, result
  result : ℤ → ℤ → Payload
  -- note, channel, velocity; and duration, off_velocity
  note : ℤ → ℤ → ℤ → Payload
  full_note : ℤ → ℤ → ℤ → ℤ → ℤ → Payload
  -- channel, param, value
  control : ℤ → ℤ → ℤ → Payload
  -- channel, value
  param : ℤ → ℤ → Payload
  -- control_queue, and what follows it
  queue_control : Option ℤ → Payload
  position_tick : Option ℤ → ℤ → Payload
  position_time : Option ℤ → RealTime → Payload
  tempo : Option ℤ → ℤ → Payload
  skew : Option ℤ → ℤ → ℤ → Payload
  sync_position : Option ℤ → ℤ → Payload
  address : Address → Payload
  connect : Address → Address → Payload
  external : List ℕ → Payload
  midi_bytes : List ℕ → Payload
