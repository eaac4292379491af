-- ===== src/Platform.antt =====
-- What alsa_midi/event.py takes from elsewhere, in one record: Python's numbers, the parser of
-- addresses of the ALSA library, the memory of an event, and the external data behind a pointer.
use python_alsa_midi.Prelude.{ℕ, List, String, ℤ}
use python_alsa_midi.RealTime.{Numbers}
use python_alsa_midi.Address.{Parsed}
use python_alsa_midi.Struct.{Union}

pub record Platform : Type 1 where
  pub numbers : Numbers
  pub parse_address : String → Parsed
  pub memory : Union
  -- `ffi.from_buffer(bytes)`: a pointer to the bytes
  pub from_buffer : List ℕ → ℤ
  -- `bytes(ffi.buffer(pointer, length))`
  pub buffer : ℤ → ℤ → List ℕ
