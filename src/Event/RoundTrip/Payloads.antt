-- ===== src/Event/RoundTrip/Payloads.antt =====
-- The structured data of an event of alsa_midi/event.py: what `_to_alsa` writes, `_from_alsa` reads.
use python_alsa_midi.Prelude.{◌≡◌, refl, none, some, ◌∙◌, arith}
use python_alsa_midi.Exceptions.{ok}
use python_alsa_midi.RealTime.{normalise}
use python_alsa_midi.Address.{new}
use python_alsa_midi.Struct.{fits, assign}
use python_alsa_midi.Struct.Writes.{assign_all, Holds, assign_all-Holds}
use python_alsa_midi.Platform.{Platform}
use python_alsa_midi.Event.Payload.{Payload}
use python_alsa_midi.Event.Notes.{
  note_from_alsa, note_to_alsa, full_note_from_alsa, full_note_to_alsa,
}
use python_alsa_midi.Event.Controls.{
  result_from_alsa, result_to_alsa, control_from_alsa, control_to_alsa, param_from_alsa,
  param_to_alsa,
}
use python_alsa_midi.Event.QueueControls.{
  control_queue_from_alsa, control_queue_to_alsa, position_tick_from_alsa, position_tick_to_alsa,
  position_time_from_alsa, position_time_to_alsa, tempo_from_alsa, tempo_to_alsa, skew_from_alsa,
  skew_to_alsa, sync_position_from_alsa, sync_position_to_alsa,
}
use python_alsa_midi.Event.Addresses.{
  address_from_alsa, address_to_alsa, connect_from_alsa, connect_to_alsa, external_from_alsa,
  external_to_alsa,
}
use python_alsa_midi.Event.Class.{Base}
use python_alsa_midi.Event.Codec.{payload_to_alsa, payload_from_alsa}
use python_alsa_midi.Event.RoundTrip.Fields.{
  fields, queue_write, IsEncodable, fields-fit, fields-apart,
}

-- The class that decodes a payload.
unfoldable pub base_of : Payload → Base
base_of Payload.plain = Base.plain
base_of (Payload.result _ _) = Base.result
base_of (Payload.note _ _ _) = Base.note
base_of (Payload.full_note _ _ _ _ _) = Base.full_note
base_of (Payload.control _ _ _) = Base.control
base_of (Payload.param _ _) = Base.param
base_of (Payload.queue_control _) = Base.queue_control
base_of (Payload.position_tick _ _) = Base.position_tick
base_of (Payload.position_time _ _) = Base.position_time
base_of (Payload.tempo _ _) = Base.tempo
base_of (Payload.skew _ _ _) = Base.skew
base_of (Payload.sync_position _ _) = Base.sync_position
base_of (Payload.address _) = Base.address
base_of (Payload.connect _ _) = Base.connect
base_of (Payload.external _) = Base.external
base_of (Payload.midi_bytes _) = Base.midi_bytes

encoders : Unit {0}
unfolding payload_to_alsa assign note_to_alsa full_note_to_alsa result_to_alsa control_to_alsa
    param_to_alsa control_queue_to_alsa position_tick_to_alsa position_time_to_alsa tempo_to_alsa
    skew_to_alsa sync_position_to_alsa address_to_alsa connect_to_alsa external_to_alsa
encoders = tt

decoders : Unit {0}
unfolding payload_from_alsa note_from_alsa full_note_from_alsa result_from_alsa control_from_alsa
    param_from_alsa control_queue_from_alsa position_tick_from_alsa position_time_from_alsa
    tempo_from_alsa skew_from_alsa sync_position_from_alsa address_from_alsa connect_from_alsa
    external_from_alsa normalise new
decoders = tt

module _ (p : Platform) where
  payload_to_alsa-eq-assign_all :
      (x : Payload) (d : p.memory.Data)
      → IsEncodable p x
      → payload_to_alsa p x d ≡ assign_all p.memory (fields p x) d
  unfolding fields queue_write encoders assign_all
  payload_to_alsa-eq-assign_all Payload.plain d h = refl
  payload_to_alsa-eq-assign_all (Payload.result e r) d h = ground arith
  payload_to_alsa-eq-assign_all (Payload.note n c v) d h = ground arith
  payload_to_alsa-eq-assign_all (Payload.full_note n c v t o) d h = ground arith
  payload_to_alsa-eq-assign_all (Payload.control c n v) d h = ground arith
  payload_to_alsa-eq-assign_all (Payload.param c v) d h = ground arith
  payload_to_alsa-eq-assign_all (Payload.queue_control (some q)) d h = ground arith
  payload_to_alsa-eq-assign_all (Payload.position_tick (some q) t) d h = ground arith
  payload_to_alsa-eq-assign_all (Payload.position_time (some q) t) d h = ground arith
  payload_to_alsa-eq-assign_all (Payload.tempo (some q) t) d h = ground arith
  payload_to_alsa-eq-assign_all (Payload.skew (some q) v b) d h = ground arith
  payload_to_alsa-eq-assign_all (Payload.sync_position (some q) n) d h = ground arith
  payload_to_alsa-eq-assign_all (Payload.address a) d h = ground arith
  payload_to_alsa-eq-assign_all (Payload.connect s t) d h = ground arith
  payload_to_alsa-eq-assign_all (Payload.external bs) d h = ground arith
  payload_to_alsa-eq-assign_all (Payload.queue_control none) d h = absurd h
  payload_to_alsa-eq-assign_all (Payload.position_tick none t) d h = absurd h.0
  payload_to_alsa-eq-assign_all (Payload.position_time none t) d h = absurd h.0
  payload_to_alsa-eq-assign_all (Payload.tempo none t) d h = absurd h.0
  payload_to_alsa-eq-assign_all (Payload.skew none v b) d h = absurd h.0
  payload_to_alsa-eq-assign_all (Payload.sync_position none n) d h = absurd h.0
  payload_to_alsa-eq-assign_all (Payload.midi_bytes bs) d h = absurd h

  -- A memory that holds the fields of a payload is decoded to it.
  payload_from_alsa_lem :
      (x : Payload) (d : p.memory.Data)
      → IsEncodable p x
      → Holds p.memory (fields p x) d
      → payload_from_alsa p (base_of x) d ≡ ok x
  unfolding fields queue_write decoders base_of fits
  payload_from_alsa_lem Payload.plain d h held = refl
  payload_from_alsa_lem (Payload.result e r) d h held = ground arith
  payload_from_alsa_lem (Payload.note n c v) d h held = ground arith
  payload_from_alsa_lem (Payload.full_note n c v t o) d h held = ground arith
  payload_from_alsa_lem (Payload.control c n v) d h held = ground arith
  payload_from_alsa_lem (Payload.param c v) d h held = ground arith
  payload_from_alsa_lem (Payload.queue_control (some q)) d h held = ground arith
  payload_from_alsa_lem (Payload.position_tick (some q) t) d h held = ground arith
  payload_from_alsa_lem (Payload.position_time (some q) t) d h held = ground arith
  payload_from_alsa_lem (Payload.tempo (some q) t) d h held = ground arith
  payload_from_alsa_lem (Payload.skew (some q) v b) d h held = ground arith
  payload_from_alsa_lem (Payload.sync_position (some q) n) d h held = ground arith
  payload_from_alsa_lem (Payload.address a) d h held = ground arith
  payload_from_alsa_lem (Payload.connect s t) d h held = ground arith
  payload_from_alsa_lem (Payload.external bs) d h held = ground arith
  payload_from_alsa_lem (Payload.queue_control none) d h held = absurd h
  payload_from_alsa_lem (Payload.position_tick none t) d h held = absurd h.0
  payload_from_alsa_lem (Payload.position_time none t) d h held = absurd h.0
  payload_from_alsa_lem (Payload.tempo none t) d h held = absurd h.0
  payload_from_alsa_lem (Payload.skew none v b) d h held = absurd h.0
  payload_from_alsa_lem (Payload.sync_position none n) d h held = absurd h.0
  payload_from_alsa_lem (Payload.midi_bytes bs) d h held = absurd h

  pub payload_round_trip :
      (x : Payload) (d : p.memory.Data)
      → IsEncodable p x
      → (d' : p.memory.Data) × (payload_to_alsa p x d ≡ ok d')
        × (payload_from_alsa p (base_of x) d' ≡ ok x)
  payload_round_trip x d h =
      let (d', e, held, _) =
        assign_all-Holds p.memory (fields p x) d (fields-fit p x h) (fields-apart p x h) in
      (d', payload_to_alsa-eq-assign_all x d h ∙ e, payload_from_alsa_lem x d' h held)
