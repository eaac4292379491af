-- ===== src/Event/Codec.antt =====
-- A whole event of alsa_midi/event.py: `_to_alsa` and `_from_alsa` of its class, which call those of
-- the base class first.
use python_alsa_midi.Prelude.{ℕ, none, List, bit_or}
use python_alsa_midi.Exceptions.{Result, ok, err, type_error, ◌>>=◌}
use python_alsa_midi.EventFlags
use python_alsa_midi.Platform.{Platform}
use python_alsa_midi.Event.Header.{Header}
use python_alsa_midi.Event.ToAlsa.{Overrides, Alsa}
use python_alsa_midi.Event.ToAlsa
use python_alsa_midi.Event.FromAlsa
use python_alsa_midi.Event.Payload.{Payload}
use python_alsa_midi.Event.Notes.{
  note_from_alsa, note_to_alsa, full_note_from_alsa, full_note_to_alsa,
}
use python_alsa_midi.Event.Controls.{
  result_from_alsa, result_to_alsa, control_from_alsa, control_to_alsa, param_from_alsa,
  param_to_alsa,
}
use python_alsa_midi.Event.QueueControls.{
  control_queue_from_alsa, control_queue_to_alsa, position_tick_from_alsa, position_tick_to_alsa,
  position_time_from_alsa, position_time_to_alsa, tempo_from_alsa, tempo_to_alsa, skew_from_alsa,
  skew_to_alsa, sync_position_from_alsa, sync_position_to_alsa,
}
use python_alsa_midi.Event.Addresses.{
  address_from_alsa, address_to_alsa, connect_from_alsa, connect_to_alsa, external_from_alsa,
  external_to_alsa,
}
use python_alsa_midi.Event.Class.{Base, EventClass, midi_bytes_class}

pub record Event : Type 0 where
  pub class : EventClass
  pub header : Header
  pub payload : Payload

-- `EXTERNAL` data marks the event as one of variable length.
unfoldable pub length_flags : Payload → ℕ → ℕ
length_flags (Payload.external _) f = bit_or f EventFlags.event_length_variable
length_flags _ f = f

module _ (p : Platform) where
  -- The structured data into the union. The bytes of a `MidiBytesEvent` are encoded elsewhere.
  unfoldable pub payload_to_alsa : Payload → p.memory.Data → Result p.memory.Data
  payload_to_alsa Payload.plain d = ok d
  payload_to_alsa (Payload.result e r) d = result_to_alsa p.memory e r d
  payload_to_alsa (Payload.note n c v) d = note_to_alsa p.memory n c v d
  payload_to_alsa (Payload.full_note n c v t o) d = full_note_to_alsa p.memory n c v t o d
  payload_to_alsa (Payload.control c n v) d = control_to_alsa p.memory c n v d
  payload_to_alsa (Payload.param c v) d = param_to_alsa p.memory c v d
  payload_to_alsa (Payload.queue_control q) d = control_queue_to_alsa p.memory q d
  payload_to_alsa (Payload.position_tick q t) d = position_tick_to_alsa p.memory q t d
  payload_to_alsa (Payload.position_time q t) d = position_time_to_alsa p.memory q t d
  payload_to_alsa (Payload.tempo q t) d = tempo_to_alsa p.memory q t d
  payload_to_alsa (Payload.skew q v b) d = skew_to_alsa p.memory q v b d
  payload_to_alsa (Payload.sync_position q n) d = sync_position_to_alsa p.memory q n d
  payload_to_alsa (Payload.address a) d = address_to_alsa p a d
  payload_to_alsa (Payload.connect s t) d = connect_to_alsa p s t d
  payload_to_alsa (Payload.external bs) d = external_to_alsa p bs d
  payload_to_alsa (Payload.midi_bytes bs) d = ok d

  unfoldable pub payload_from_alsa : Base → p.memory.Data → Result Payload
  payload_from_alsa Base.plain d = ok Payload.plain
  payload_from_alsa Base.result d = result_from_alsa p.memory d
  payload_from_alsa Base.note d = note_from_alsa p.memory d
  payload_from_alsa Base.full_note d = full_note_from_alsa p.memory d
  payload_from_alsa Base.control d = control_from_alsa p.memory d
  payload_from_alsa Base.param d = param_from_alsa p.memory d
  payload_from_alsa Base.queue_control d =
      ok (Payload.queue_control (control_queue_from_alsa p.memory d))
  payload_from_alsa Base.position_tick d = position_tick_from_alsa p.memory d
  payload_from_alsa Base.position_time d = position_time_from_alsa p.memory d
  payload_from_alsa Base.tempo d = tempo_from_alsa p.memory d
  payload_from_alsa Base.skew d = skew_from_alsa p.memory d
  payload_from_alsa Base.sync_position d = sync_position_from_alsa p.memory d
  payload_from_alsa Base.address d = address_from_alsa p d
  payload_from_alsa Base.connect d = connect_from_alsa p d
  payload_from_alsa Base.external d = external_from_alsa p d
  payload_from_alsa Base.midi_bytes d = err type_error

  -- `event._to_alsa(a_event, queue=…, port=…, dest=…)`
  unfoldable pub to_alsa : Event → Overrides → Alsa p → Result (Alsa p)
  to_alsa e o a₀ = do
    a ← ToAlsa.to_alsa p e.header o a₀
    d ← payload_to_alsa e.payload a.union
    ok (record a { union = d; flags = length_flags e.payload a.flags })

  -- `cls._from_alsa(a_event)`; `MidiBytesEvent` wants its bytes besides.
  unfoldable pub from_alsa : EventClass → Alsa p → Result Event
  from_alsa c a = do
    h ← FromAlsa.from_alsa p c.type a
    x ← payload_from_alsa c.base a.union
    ok (record { class = c; header = h; payload = x })

  -- `MidiBytesEvent._from_alsa(a_event, midi_bytes=…)`
  unfoldable pub midi_bytes_from_alsa : List ℕ → Alsa p → Result Event
  midi_bytes_from_alsa bs a = FromAlsa.from_alsa p none a >>= λ h.
      ok (record { class = midi_bytes_class; header = h; payload = Payload.midi_bytes bs })
