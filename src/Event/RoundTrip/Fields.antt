-- ===== src/Event/RoundTrip/Fields.antt =====
-- The fields of the C structure that the structured data of an event of alsa_midi/event.py fills.
use python_alsa_midi.Prelude.{◌≡◌, true, Option, none, some, [], ◌∷◌, ◌++◌, ℤ, pos, length, arith}
use python_alsa_midi.RealTime.Normal.{IsNormal}
use python_alsa_midi.Address.{Address}
use python_alsa_midi.Struct.{Field, u8, u32, i32, ptr, ctype, fits, offset, size, in_range}
use python_alsa_midi.Struct.Writes.{Writes, AllFit, AreApart}
use python_alsa_midi.Platform.{Platform}
use python_alsa_midi.Event.Payload.{Payload}

abbrev pub Fits : ℤ → ℤ → ℤ → Type 0
Fits lo hi v = in_range lo hi v ≡ true

abbrev pub Is4bit : ℤ → Type 0
Is4bit = Fits (pos 0) (pos 0x0f)

abbrev pub Is7bit : ℤ → Type 0
Is7bit = Fits (pos 0) (pos 0x7f)

abbrev pub IsByte : ℤ → Type 0
IsByte v = fits u8 v ≡ true

abbrev pub IsUint : ℤ → Type 0
IsUint v = fits u32 v ≡ true

abbrev pub IsInt : ℤ → Type 0
IsInt v = fits i32 v ≡ true

-- A control queue that is given.
abbrev pub IsQueue : Option ℤ → Type 0
IsQueue none = ⊥
IsQueue (some q) = IsByte q

abbrev pub IsAddress : Address → Type 0
IsAddress a = IsByte a.client_id × IsByte a.port_id

unfoldable pub queue_write : Option ℤ → Writes
queue_write none = []
queue_write (some q) = (Field.queue_queue, q) ∷ []

-- The fields that a payload fills, in the order of the code.
unfoldable pub fields : Platform → Payload → Writes
fields p Payload.plain = []
fields p (Payload.result e r) = (Field.result_event, e) ∷ (Field.result_result, r) ∷ []
fields p (Payload.note n c v) =
    (Field.note_note, n) ∷ (Field.note_channel, c) ∷ (Field.note_velocity, v) ∷ []
fields p (Payload.full_note n c v t o) =
    (Field.note_note, n)
    ∷ (Field.note_channel, c)
    ∷ (Field.note_velocity, v)
    ∷ (Field.note_off_velocity, o)
    ∷ (Field.note_duration, t)
    ∷ []
fields p (Payload.control c n v) =
    (Field.control_channel, c) ∷ (Field.control_param, n) ∷ (Field.control_value, v) ∷ []
fields p (Payload.param c v) = (Field.control_channel, c) ∷ (Field.control_value, v) ∷ []
fields p (Payload.queue_control q) = queue_write q
fields p (Payload.position_tick q t) = queue_write q ++ (Field.queue_tick, t) ∷ []
fields p (Payload.position_time q t) =
    queue_write q ++ (Field.queue_tv_sec, t.seconds) ∷ (Field.queue_tv_nsec, t.nanoseconds) ∷ []
fields p (Payload.tempo q t) = queue_write q ++ (Field.queue_value, t) ∷ []
fields p (Payload.skew q v b) = queue_write q ++ (Field.skew_value, v) ∷ (Field.skew_base, b) ∷ []
fields p (Payload.sync_position q n) = queue_write q ++ (Field.queue_position, n) ∷ []
fields p (Payload.address a) = (Field.addr_client, a.client_id) ∷ (Field.addr_port, a.port_id) ∷ []
fields p (Payload.connect s t) =
    (Field.sender_client, s.client_id)
    ∷ (Field.sender_port, s.port_id)
    ∷ (Field.dest_client, t.client_id)
    ∷ (Field.dest_port, t.port_id)
    ∷ []
fields p (Payload.external bs) =
    (Field.ext_len, pos (length bs)) ∷ (Field.ext_ptr, p.from_buffer bs) ∷ []
fields p (Payload.midi_bytes bs) = []

module _ (p : Platform) where
  -- The values that the C fields can hold, and that the constructors accept.
  abbrev pub IsEncodable : Payload → Type 0
  IsEncodable Payload.plain = Unit
  IsEncodable (Payload.result e r) = IsInt e × IsInt r
  IsEncodable (Payload.note n c v) = Is7bit n × Is4bit c × Is7bit v
  IsEncodable (Payload.full_note n c v t o) = Is7bit n × Is4bit c × Is7bit v × IsUint t × Is7bit o
  IsEncodable (Payload.control c n v) = IsByte c × IsUint n × IsInt v
  IsEncodable (Payload.param c v) = IsByte c × IsInt v
  IsEncodable (Payload.queue_control q) = IsQueue q
  IsEncodable (Payload.position_tick q t) = IsQueue q × IsUint t
  IsEncodable (Payload.position_time q t) = IsQueue q × IsNormal t × IsUint t.seconds
  IsEncodable (Payload.tempo q t) = IsQueue q × IsInt t
  IsEncodable (Payload.skew q v b) = IsQueue q × IsUint v × IsUint b
  IsEncodable (Payload.sync_position q n) = IsQueue q × IsUint n
  IsEncodable (Payload.address a) = IsAddress a
  IsEncodable (Payload.connect s t) = IsAddress s × IsAddress t
  -- the bytes are still there, behind the pointer
  IsEncodable (Payload.external bs) =
      IsUint (pos (length bs))
      × (fits ptr (p.from_buffer bs) ≡ true)
      × (p.buffer (p.from_buffer bs) (pos (length bs)) ≡ bs)
  -- encoded by the ALSA library
  IsEncodable (Payload.midi_bytes bs) = ⊥

  pub fields-fit : (x : Payload) → IsEncodable x → AllFit (fields p x)
  unfolding fields queue_write fits ctype
  fields-fit Payload.plain h = tt
  fields-fit (Payload.result e r) h = ground arith
  fields-fit (Payload.note n c v) h = ground arith
  fields-fit (Payload.full_note n c v t o) h = ground arith
  fields-fit (Payload.control c n v) h = ground arith
  fields-fit (Payload.param c v) h = ground arith
  fields-fit (Payload.queue_control (some q)) h = ground arith
  fields-fit (Payload.position_tick (some q) t) h = ground arith
  fields-fit (Payload.position_time (some q) t) h = ground arith
  fields-fit (Payload.tempo (some q) t) h = ground arith
  fields-fit (Payload.skew (some q) v b) h = ground arith
  fields-fit (Payload.sync_position (some q) n) h = ground arith
  fields-fit (Payload.address a) h = ground arith
  fields-fit (Payload.connect s t) h = ground arith
  fields-fit (Payload.external bs) h = ground arith
  fields-fit (Payload.queue_control none) h = absurd h
  fields-fit (Payload.position_tick none t) h = absurd h.0
  fields-fit (Payload.position_time none t) h = absurd h.0
  fields-fit (Payload.tempo none t) h = absurd h.0
  fields-fit (Payload.skew none v b) h = absurd h.0
  fields-fit (Payload.sync_position none n) h = absurd h.0
  fields-fit (Payload.midi_bytes bs) h = absurd h

  pub fields-apart : (x : Payload) → IsEncodable x → AreApart (fields p x)
  unfolding fields queue_write ctype offset size
  fields-apart Payload.plain h = tt
  fields-apart (Payload.result e r) h = omega arith
  fields-apart (Payload.note n c v) h = omega arith
  fields-apart (Payload.full_note n c v t o) h = omega arith
  fields-apart (Payload.control c n v) h = omega arith
  fields-apart (Payload.param c v) h = omega arith
  fields-apart (Payload.queue_control (some q)) h = omega arith
  fields-apart (Payload.position_tick (some q) t) h = omega arith
  fields-apart (Payload.position_time (some q) t) h = omega arith
  fields-apart (Payload.tempo (some q) t) h = omega arith
  fields-apart (Payload.skew (some q) v b) h = omega arith
  fields-apart (Payload.sync_position (some q) n) h = omega arith
  fields-apart (Payload.address a) h = omega arith
  fields-apart (Payload.connect s t) h = omega arith
  fields-apart (Payload.external bs) h = omega arith
  fields-apart (Payload.queue_control none) h = absurd h
  fields-apart (Payload.position_tick none t) h = absurd h.0
  fields-apart (Payload.position_time none t) h = absurd h.0
  fields-apart (Payload.tempo none t) h = absurd h.0
  fields-apart (Payload.skew none v b) h = absurd h.0
  fields-apart (Payload.sync_position none n) h = absurd h.0
  fields-apart (Payload.midi_bytes bs) h = absurd h
