-- ===== src/Event/RoundTrip/Events.antt =====
-- Whole events of alsa_midi/event.py: `_to_alsa` into a fresh `snd_seq_event_t`, then `_from_alsa`.
use python_alsa_midi.Prelude.{
  ℕ, ◌⊎◌, ◌≡◌, Bool, ◌&&◌, none, some, List, pos, bit_and, bit_or, ◌==◌, if◌then◌else◌,
}
use python_alsa_midi.RealTime.{RealTime}
use python_alsa_midi.EventType.{EventType, value, of_value}
use python_alsa_midi.Platform.{Platform}
use python_alsa_midi.Event.Header.{Header, is_some}
use python_alsa_midi.Event.ToAlsa.{Alsa, queue_direct, address_subscribers, stamp_flags}
use python_alsa_midi.Event.Payload.{Payload}
use python_alsa_midi.Event.Codec.{Event, length_flags}
use python_alsa_midi.Event.RoundTrip.Flags.{is_real, is_relative}
use python_alsa_midi.Event.RoundTrip.Fields.{IsEncodable}
use python_alsa_midi.Event.RoundTrip.Payloads.{base_of}
use python_alsa_midi.Event.RoundTrip.Encode.{IsStorable, or_else, encoded}

-- The event that `ffi.new("snd_seq_event_t *")` gives: all zero.
abbrev pub fresh : (p : Platform) → Alsa p
fresh p = record {
  type = pos 0;
  flags = 0;
  tag = pos 0;
  queue = pos 0;
  tick_or_sec = pos 0;
  nsec = pos 0;
  source_client = pos 0;
  source_port = pos 0;
  dest_client = pos 0;
  dest_port = pos 0;
  union = p.memory.zeroed;
}

abbrev zero_time : RealTime
zero_time = record { seconds = pos 0; nanoseconds = pos 0 }

-- The header that comes back, for the type `t`, the flags `f` that were given, the flags `g` and the
-- bytes that were stored: what was set is kept, and what was not set has its default.
abbrev pub reread : Header → EventType → ℕ → ℕ → List ℕ → Header
reread h t f g raw = record {
  type = some t;
  flags = some g;
  tag = h.tag;
  queue_id = some (or_else h.queue_id (λ q. q) queue_direct);
  time =
      if is_real (is_some h.time) (is_some h.tick) f
      then some (or_else h.time (λ t. t) zero_time)
      else none;
  tick =
      if is_real (is_some h.time) (is_some h.tick) f
      then none
      else some (or_else h.tick (λ t. t) (pos 0));
  source = some (or_else h.source (λ s. s) (record { client_id = pos 0; port_id = pos 0 }));
  dest =
      some (or_else h.dest (λ s. s) (record { client_id = address_subscribers; port_id = pos 0 }));
  relative = some (is_relative h.relative f);
  raw_data = some raw;
}

-- The length bit leaves the stamp bits.
abbrev keeps_stamp : ℕ → Bool
keeps_stamp g = bit_and (bit_or g 4) 1 == bit_and g 1 && bit_and (bit_or g 4) 2 == bit_and g 2

-- An event of alsa_midi/event.py that can be stored: its class decodes its data and fits its type.
pub record IsEvent (p : Platform) (e : Event) (t : EventType) (f : ℕ) : Type 0 where
  pub storable : IsStorable e.header f
  pub encodable : IsEncodable p e.payload
  pub base : e.class.base ≡ base_of e.payload
  pub type : e.header.type ≡ some t
  pub class_type : (e.class.type ≡ some t) ⊎ ((e.class.type ≡ none) × (of_value (value t) ≡ t))

module _ (p : Platform) (e : Event) (t : EventType) (f : ℕ) where
  -- The event in the C struct, with `d` in the union.
  abbrev pub stored : p.memory.Data → Alsa p
  stored d = record (encoded p e.header f (fresh p)) {
    flags = length_flags e.payload (stamp_flags e.header.time e.header.tick e.header.relative f);
    union = d;
  }
