-- ===== src/Event/Construct.antt =====
-- The constructors of the event classes of alsa_midi/event.py: the arguments that each class adds, and the
-- order in which they are checked.
use python_alsa_midi.Prelude.{ℕ, not, Option, List, [], ◌∷◌, ℤ, pos, pos_part}
use python_alsa_midi.Exceptions.{
  Result, ok, value_error, type_error, assertion_error, ◌>>=◌, ◌>>◌, raise_if,
}
use python_alsa_midi.RealTime.{Seconds}
use python_alsa_midi.RealTime as RT
use python_alsa_midi.Address.{Arg}
use python_alsa_midi.Struct.{u8, fits}
use python_alsa_midi.Platform.{Platform}
use python_alsa_midi.Event.Header.{Header, Args, init, is_some}
use python_alsa_midi.Event.ToAlsa.{QueueArg}
use python_alsa_midi.Event.Payload.{Payload}
use python_alsa_midi.Event.Notes.{note_init, full_note_init}
use python_alsa_midi.Event.QueueControls.{control_queue_of, tempo_of}
use python_alsa_midi.Event.Addresses.{address_init, connect_init}
use python_alsa_midi.Event.Class.{EventClass}
use python_alsa_midi.Event.Codec.{Event}

-- The arguments that a constructor takes beside those of `Event`, as they are given; a control queue is last.
pub data Own (F : Type 0) : Type 0 where
  plain : Own F
  result : ℤ → ℤ → Own F
  note : ℤ → ℤ → ℤ → Own F
  full_note : ℤ → ℤ → ℤ → ℤ → ℤ → Own F
  control : ℤ → ℤ → ℤ → Own F
  param : ℤ → ℤ → Own F
  queue_control : Option QueueArg → Own F
  position_tick : ℤ → Option QueueArg → Own F
  position_time : Seconds F → Option QueueArg → Own F
  -- `midi_tempo` and `bpm`
  tempo : Option ℤ → Option F → Option QueueArg → Own F
  skew : ℤ → ℤ → Option QueueArg → Own F
  sync_position : ℤ → Option QueueArg → Own F
  address : Arg → Own F
  connect : Arg → Arg → Own F
  external : List ℕ → Own F
  midi_bytes : List ℤ → Own F

-- `bytes(…)` of a sequence of ints
unfoldable pub bytes_of : List ℤ → Result (List ℕ)
bytes_of [] = ok []
bytes_of (v ∷ vs) = do
  raise_if (not (fits u8 v)) value_error
  bs ← bytes_of vs
  ok (pos_part v ∷ bs)

module _ (p : Platform) where
  open p use {numbers, parse_address}
  open numbers use {Float}

  -- `assert self.type is not None`, then `super().__init__(self.type, **kwargs)`, which refuses a second
  -- `type`
  unfoldable pub super_init : EventClass → Args Float → Result Header
  unfolding init
  super_init c args = do
    raise_if (not (is_some c.type)) assertion_error
    raise_if (is_some args.type) type_error
    init p c.type (record args { type = c.type })

  abbrev pub with_payload : EventClass → Result Header → Result Payload → Result Event
  with_payload c header payload = do
    h ← header
    x ← payload
    ok (record { class = c; header = h; payload = x })

  -- The attributes of a class whose constructor calls that of its base first.
  unfoldable pub own_payload : Own Float → Result Payload
  unfolding note_init full_note_init control_queue_of tempo_of address_init connect_init bytes_of
  own_payload plain = ok Payload.plain
  own_payload (result e r) = ok (Payload.result e r)
  own_payload (note n c v) = note_init n c v
  own_payload (full_note n c v t o) = full_note_init n c v t o
  own_payload (control c n v) = ok (Payload.control c n v)
  own_payload (param c v) = ok (Payload.param c v)
  own_payload (queue_control q) = ok (Payload.queue_control (control_queue_of q))
  own_payload (position_tick t q) = ok (Payload.position_tick (control_queue_of q) t)
  own_payload (position_time t q) =
      RT.init numbers t (pos 0) >>= λ r. ok (Payload.position_time (control_queue_of q) r)
  own_payload (tempo t b q) =
      tempo_of numbers t b >>= λ v. ok (Payload.tempo (control_queue_of q) v)
  own_payload (skew v b q) = ok (Payload.skew (control_queue_of q) v b)
  own_payload (sync_position n q) = ok (Payload.sync_position (control_queue_of q) n)
  own_payload (address a) = address_init parse_address a
  own_payload (connect s t) = connect_init parse_address s t
  own_payload (external bs) = ok (Payload.external bs)
  own_payload (midi_bytes vs) = bytes_of vs >>= λ bs. ok (Payload.midi_bytes bs)

  -- `cls(…)`: `Event` and the classes without a constructor of their own; `MidiBytesEvent`, which passes its
  -- arguments on; `SetQueueTempoEvent`, which checks the tempo first; and the others.
  unfoldable pub construct : EventClass → Own Float → Args Float → Result Event
  unfolding super_init own_payload
  construct c plain args = with_payload c (init p c.type args) (ok Payload.plain)
  construct c (midi_bytes vs) args =
      with_payload c (init p c.type args) (own_payload (midi_bytes vs))
  construct c (tempo t b q) args = do
    x ← own_payload (tempo t b q)
    with_payload c (super_init c args) (ok x)
  construct c own args = with_payload c (super_init c args) (own_payload own)
