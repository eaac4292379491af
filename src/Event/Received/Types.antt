-- ===== src/Event/Received/Types.antt =====
-- The types of the attributes of an event that alsa_midi/event.py has read from a received one.
use python_alsa_midi.Prelude.{
  ◌<◌, ◌≡◌, refl, subst, ap, sym, ◌⊎◌, inl, inr, Bool-cases, none, some, ℤ, pos, pos_part, arith,
}
use python_alsa_midi.Exceptions.{ok, >>=-eq-ok}
use python_alsa_midi.EventType.{EventType, value, of_value}
use python_alsa_midi.EventType.Laws.{value-of_value}
use python_alsa_midi.Struct.{fits}
use python_alsa_midi.Platform.{Platform}
use python_alsa_midi.Event.Header.{chosen_type}
use python_alsa_midi.Event.ToAlsa.{Alsa}
use python_alsa_midi.Event.FromAlsa.{type_arg, masked_is}
use python_alsa_midi.Event.Payload.{Payload}
use python_alsa_midi.Event.Class.{EventClass, event_class, class_for}
use python_alsa_midi.Event.Dispatch.{class_for-type}
use python_alsa_midi.Event.Codec.{Event, from_alsa, payload_from_alsa}
use python_alsa_midi.Event.RoundTrip.Fields.{IsByte}
use python_alsa_midi.Event.RoundTrip.Encode.{IsStorable}
use python_alsa_midi.Event.RoundTrip.Decode.{decoded, from_alsa-ok_real, not_ticks}
use python_alsa_midi.Event.RoundTrip.Events.{IsEvent}
use python_alsa_midi.Event.Received.{IsReceived, IsInside}
use python_alsa_midi.Event.Received.Payloads.{payload_from_alsa-IsRead}

pub byte-pos_part : (v : ℤ) → IsByte v → (v ≡ pos (pos_part v)) × (pos_part v < 256)
unfolding fits
byte-pos_part v h = ground arith

-- The type of an event that is read by the class for its number.
abbrev pub IsTypeOf : EventClass → ℤ → EventType → Type 0
IsTypeOf c n t =
    (chosen_type c.type (type_arg c.type n) ≡ some t)
    × (value t ≡ pos_part n)
    × ((c.type ≡ some t) ⊎ ((c.type ≡ none) × (of_value (value t) ≡ t)))

typed :
    (c : EventClass) (n : ℤ)
    → (c ≡ event_class) ⊎ ((t : EventType) × (c.type ≡ some t) × (value t ≡ pos_part n))
    → (t : EventType) × IsTypeOf c n t
unfolding chosen_type type_arg
typed c n (inl e) =
    let v = value-of_value (pos_part n) in
    (of_value (pos_part n), (rw e refl, v, inr (ap (λ (c : EventClass). c.type) e, ap of_value v)))
typed c n (inr (t, e, v)) = (t, (rw e refl, v, inl e))

module _ (p : Platform) where
  decoded-IsStorable :
      (c : EventClass) (a : Alsa p) (t : EventType)
      → IsReceived p a
      → IsTypeOf c a.type t
      → IsStorable (decoded p c.type a) a.flags
  decoded-IsStorable c a t r typ = record {
    flags = refl;
    flags_lt = r.flags;
    type =
        let lt : value t < 256 = omega (arith, typ.1, (byte-pos_part a.type r.type).1) in
        rw typ.0 lt;
    tag = r.tag;
    queue_id = r.queue;
    time = elim (Bool-cases (masked_is 1 1 a.flags)) [
      | inl real ↦ rw real (r.time real, r.tick_or_sec)
      | inr other ↦ rw other tt
    ];
    tick = elim (Bool-cases (masked_is 1 0 a.flags)) [
      | inl ticks ↦ rw ticks r.tick_or_sec
      | inr other ↦ rw other tt
    ];
    one_time = elim (Bool-cases (masked_is 1 1 a.flags)) [
      | inl real ↦ rw (real, not_ticks a.flags real) tt
      | inr other ↦ rw other tt
    ];
    source = (r.source_client, r.source_port);
    dest = (r.dest_client, r.dest_port);
  }

  -- The event that is read.
  pub from_alsa-read :
      (c : EventClass) (a : Alsa p) {e : Event}
      → IsReceived p a
      → from_alsa p c a ≡ ok e
      → (x : Payload) × (payload_from_alsa p c.base a.union ≡ ok x)
        × (record { class = c; header = decoded p c.type a; payload = x } ≡ e)
  unfolding from_alsa
  from_alsa-read c a {e = e} r h =
      let (x, made, same) =
        >>=-eq-ok (payload_from_alsa p c.base a.union)
          (λ x. ok (record { class = c; header = decoded p c.type a; payload = x }))
          (rw (from_alsa-ok_real p c.type a r.time) at h) in
      (x, made, cc)

  -- An event of alsa_midi/event.py that was read from a received one with data in the union, by the class for
  -- its number, has attributes of the right types: each fits the C field that it came from, the data is what
  -- its class writes, the type is that of the class or has the number received, and a tick and a time do not
  -- occur together.
  pub from_alsa-IsEvent :
      (a : Alsa p) {e : Event}
      → IsReceived p a
      → IsInside p (class_for (pos_part a.type)).base a.union
      → from_alsa p (class_for (pos_part a.type)) a ≡ ok e
      → (t : EventType) × (value t ≡ pos_part a.type) × IsEvent p e t a.flags
  from_alsa-IsEvent a r i h =
      let c = class_for (pos_part a.type) in
      let (x, made, same) = from_alsa-read c a r h in
      let (fit, base) = payload_from_alsa-IsRead p c.base a.union i made in
      let (t, typ) = typed c a.type (class_for-type (pos_part a.type)) in
      (
        t,
        typ.1,
        subst (λ e. IsEvent p e t a.flags) same
            (record {
              storable = decoded-IsStorable c a t r typ;
              encodable = fit;
              base = sym base;
              type = typ.0;
              class_type = typ.2;
            }),
      )
