-- ===== src/Event/Received.antt =====
-- The events of alsa_midi/event.py that are read from an `snd_seq_event_t` which alsa_midi/client.py received.
-- Payloads: the structured data; Types: every attribute fits its C field again; Resend: the event is sent on.
pub mod Payloads
pub mod Types
pub mod Resend
use python_alsa_midi.Prelude.{ℕ, ◌<◌, ◌≡◌, true, ℤ, pos_part}
use python_alsa_midi.RealTime.{billion}
use python_alsa_midi.RealTime.Normal.{IsNormal}
use python_alsa_midi.Struct.{Field}
use python_alsa_midi.Platform.{Platform}
use python_alsa_midi.Event.ToAlsa.{Alsa}
use python_alsa_midi.Event.FromAlsa.{masked_is}
use python_alsa_midi.Event.Class.{Base}
use python_alsa_midi.Event.RoundTrip.Fields.{IsByte, IsUint}
use python_alsa_midi.Event.RoundTrip.Decode.{stored_time}

module _ (p : Platform) where
  -- What the C declaration says of the fields outside the union; a real time is normal.
  pub record IsReceived (a : Alsa p) : Type 0 where
    pub type : IsByte a.type
    pub flags : a.flags < 256
    pub tag : IsByte a.tag
    pub queue : IsByte a.queue
    pub tick_or_sec : IsUint a.tick_or_sec
    pub time : masked_is 1 1 a.flags ≡ true → IsNormal (stored_time a)
    pub source_client : IsByte a.source_client
    pub source_port : IsByte a.source_port
    pub dest_client : IsByte a.dest_client
    pub dest_port : IsByte a.dest_port

  -- Data that is in the union itself, not behind a pointer; the position of a queue in real time is normal.
  abbrev pub IsInside : Base → p.memory.Data → Type 0
  IsInside Base.external d = ⊥
  IsInside Base.position_time d = pos_part (p.memory.get Field.queue_tv_nsec d) < billion
  IsInside _ d = Unit
