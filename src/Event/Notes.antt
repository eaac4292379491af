-- ===== src/Event/Notes.antt =====
-- The note events of alsa_midi/event.py: `NoteEventBase` and `NoteEvent`.
use python_alsa_midi.Prelude.{ℤ}
use python_alsa_midi.Exceptions.{Result, ok, ◌>>=◌, ensure_4bit, ensure_7bit}
use python_alsa_midi.Struct.{Field, Union, assign}
use python_alsa_midi.Event.Payload.{Payload}

unfoldable pub note_init : ℤ → ℤ → ℤ → Result Payload
unfolding ensure_4bit ensure_7bit
note_init note channel velocity = do
  c ← ensure_4bit channel
  n ← ensure_7bit note
  v ← ensure_7bit velocity
  ok (Payload.note n c v)

-- `NoteEvent.__init__`
unfoldable pub full_note_init : ℤ → ℤ → ℤ → ℤ → ℤ → Result Payload
unfolding ensure_4bit ensure_7bit
full_note_init note channel velocity duration off_velocity = do
  c ← ensure_4bit channel
  n ← ensure_7bit note
  v ← ensure_7bit velocity
  o ← ensure_7bit off_velocity
  ok (Payload.full_note n c v duration o)

module _ (u : Union) where
  open u use {Data, get}

  unfoldable pub note_from_alsa : Data → Result Payload
  unfolding note_init
  note_from_alsa d =
      note_init (get Field.note_note d) (get Field.note_channel d) (get Field.note_velocity d)

  unfoldable pub note_to_alsa : ℤ → ℤ → ℤ → Data → Result Data
  unfolding assign
  note_to_alsa note channel velocity d = do
    d₁ ← assign u Field.note_note note d
    d₂ ← assign u Field.note_channel channel d₁
    assign u Field.note_velocity velocity d₂

  unfoldable pub full_note_from_alsa : Data → Result Payload
  unfolding full_note_init
  full_note_from_alsa d =
      full_note_init (get Field.note_note d) (get Field.note_channel d) (get Field.note_velocity d)
        (get Field.note_duration d) (get Field.note_off_velocity d)

  unfoldable pub full_note_to_alsa : ℤ → ℤ → ℤ → ℤ → ℤ → Data → Result Data
  unfolding assign note_to_alsa
  full_note_to_alsa note channel velocity duration off_velocity d = do
    d₁ ← note_to_alsa note channel velocity d
    d₂ ← assign u Field.note_off_velocity off_velocity d₁
    assign u Field.note_duration duration d₂
