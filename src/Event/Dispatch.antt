-- ===== src/Event/Dispatch.antt =====
-- The class that alsa_midi/client.py decodes a received event with: `Event._specialized`.
use python_alsa_midi.Prelude.{
  ℕ, ◌≡◌, refl, none, some, List, [], ◌∷◌, ◌==◌, ==_iff, Bool-cases, inl, inr, arith, ◌⊎◌,
}
use python_alsa_midi.Prelude.Sort.{All}
use python_alsa_midi.EventType.{EventType, value}
use python_alsa_midi.Event.Class.{
  Base, EventClass, Registry, event_class, register, lookup_class, decorated, register_all,
  specialized, class_for,
}

abbrev pub IsRegistered : EventType × Base → Type 0
IsRegistered d = class_for (value d.0) ≡ record { type = some d.0; base = d.1 }

-- Every decorated class is the one that is found for the number of its event type: none of the
-- decorators overwrites the entry of another.
pub decorated-IsRegistered : All IsRegistered decorated
unfolding class_for decorated specialized lookup_class value register_all
decorated-IsRegistered = ground arith

abbrev HasKey : ℕ × EventClass → Type 0
HasKey e = (t : EventType) × (e.1.type ≡ some t) × (value t ≡ e.0)

lookup_class-HasKey :
    (k : ℕ) (r : Registry)
    → All HasKey r
    → (lookup_class k r ≡ none) ⊎ ((c : EventClass) × (lookup_class k r ≡ some c) × HasKey (k, c))
unfolding lookup_class
lookup_class-HasKey k [] h = inl refl
lookup_class-HasKey k ((j, c) ∷ r) h = elim (Bool-cases (k == j)) [
  | inl same ↦ inr (c, rw same refl, (h.0.0, h.0.1, omega (arith, h.0.2, (==_iff k j).0 same)))
  | inr other ↦ rw other (lookup_class-HasKey k r h.1)
]

register-HasKey :
    (t : EventType) (b : Base) (r : Registry)
    → All HasKey r
    → All HasKey (register (value t) (record { type = some t; base = b }) r)
unfolding register
register-HasKey t b [] h = ((t, refl, refl), tt)
register-HasKey t b ((j, c) ∷ r) h = elim (Bool-cases (value t == j)) [
  | inl same ↦ rw same ((t, refl, refl), h.1)
  | inr other ↦ rw other (h.0, register-HasKey t b r h.1)
]

register_all-HasKey :
    (ds : List (EventType × Base)) (r : Registry) → All HasKey r → All HasKey (register_all ds r)
unfolding register_all
register_all-HasKey [] r h = h
register_all-HasKey ((t, b) ∷ ds) r h = register_all-HasKey ds _ (register-HasKey t b r h)

specialized-HasKey : All HasKey specialized
unfolding specialized
specialized-HasKey = register_all-HasKey decorated [] tt

-- The class found for a number has that number as its event type, or is `Event`, which has none.
pub class_for-type :
    (k : ℕ)
    → (class_for k ≡ event_class)
      ⊎ ((t : EventType) × ((class_for k).type ≡ some t) × (value t ≡ k))
unfolding class_for
class_for-type k = elim (lookup_class-HasKey k specialized specialized-HasKey) [
  | inl e ↦ inl (rw (class_for, e) refl)
  | inr (c, e, h) ↦ inr (rw (class_for, e) h)
]
