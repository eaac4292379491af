-- ===== src/Event/RoundTrip/Decode.antt =====
-- `Event._from_alsa` on the header of a stored event (alsa_midi/event.py).
use python_alsa_midi.Prelude.{
  ℕ, ◌≡◌, true, false, Bool-cases, inl, inr, Option, none, some, arith, if◌then◌else◌,
}
use python_alsa_midi.Exceptions.{ok}
use python_alsa_midi.RealTime.{RealTime}
use python_alsa_midi.RealTime.Normal.{IsNormal, init-real, normalise-ok}
use python_alsa_midi.EventType.{EventType}
use python_alsa_midi.Struct.{AlsaEvent}
use python_alsa_midi.Platform.{Platform}
use python_alsa_midi.Event.Header.{Header, chosen_type}
use python_alsa_midi.Event.ToAlsa.{Alsa}
use python_alsa_midi.Event.FromAlsa.{masked_is, type_arg, from_alsa}

abbrev pub stored_time : {D : Type 0} → AlsaEvent D → RealTime
stored_time a = record { seconds = a.tick_or_sec; nanoseconds = a.nsec }

pub not_ticks : (f : ℕ) → masked_is 1 1 f ≡ true → masked_is 1 0 f ≡ false
not_ticks f h = ground arith

module _ (p : Platform) where
  -- The header that is read, attribute by attribute.
  abbrev pub decoded : Option EventType → Alsa p → Header
  decoded class_type a = record {
    type = chosen_type class_type (type_arg class_type a.type);
    flags = some a.flags;
    tag = a.tag;
    queue_id = some a.queue;
    time = if masked_is 1 1 a.flags then some (stored_time a) else none;
    tick = if masked_is 1 0 a.flags then some a.tick_or_sec else none;
    source = some (record { client_id = a.source_client; port_id = a.source_port });
    dest = some (record { client_id = a.dest_client; port_id = a.dest_port });
    relative = some (masked_is 2 2 a.flags);
    raw_data = some (p.memory.raw a.union);
  }

  -- With the real time bit set, the words hold a normal time.
  pub from_alsa-ok_real :
      (class_type : Option EventType) (a : Alsa p)
      → (masked_is 1 1 a.flags ≡ true → IsNormal (stored_time a))
      → from_alsa p class_type a ≡ ok (decoded class_type a)
  unfolding from_alsa
  from_alsa-ok_real class_type a normal = elim (Bool-cases (masked_is 1 1 a.flags)) [
    | inl real ↦ simp (
      real,
      not_ticks a.flags real,
      normalise-ok (stored_time a) (normal real),
      init-real p.numbers (stored_time a) (normal real),
    )
    | inr other ↦ elim (Bool-cases (masked_is 1 0 a.flags)) [
      | inl ticks ↦ simp (other, ticks)
      | inr neither ↦ simp (other, neither)
    ]
  ]

  pub from_alsa-ok :
      (class_type : Option EventType) (a : Alsa p)
      → IsNormal (stored_time a)
      → from_alsa p class_type a ≡ ok (decoded class_type a)
  from_alsa-ok class_type a n = from_alsa-ok_real class_type a (λ _. n)
