-- ===== src/Port/SortKey/Order.antt =====
-- The keys of `get_port_info_sort_key` (alsa_midi/port.py) are ordered.
use python_alsa_midi.Prelude.{
  ℕ, zero, suc, ◌+◌, ◌<◌, ◌≡◌, refl, ◌⊎◌, inl, inr, Bool-cases, true, false, some, List, [], ◌∷◌, ℤ,
  has_all, length, get_elem?, arith,
}
use python_alsa_midi.Port.SortKey.{Key, less_key, preference_from, preference}

pub less_key_asym : (a b : Key) → less_key a b ≡ true → less_key b a ≡ false
unfolding less_key
less_key_asym a b h = ground arith

abbrev pub HasPort : Key → Type 0
HasPort k = (n : ℤ) × (k.port_id ≡ some n)

-- Of three keys of ports with ids: if b does not come before a, and c does not come before b, then c does
-- not come before a.
pub less_key_trans :
    (a b c : Key)
    → HasPort a
    → HasPort b
    → HasPort c
    → less_key b a ≡ false
    → less_key c b ≡ false
    → less_key c a ≡ false
unfolding less_key
less_key_trans a b c ha hb hc h k = ground arith

preference_from-first :
    (type d i : ℕ) (ts : List ℕ) (j m : ℕ)
    → i + j < preference_from type d i ts
    → get_elem? ts j ≡ some m
    → has_all type m ≡ false
unfolding preference_from
preference_from-first type d i [] j m lt e = cc
preference_from-first type d i (t ∷ ts) zero m lt e = ground arith
preference_from-first type d i (t ∷ ts) (suc j) m lt e =
    ground (arith, preference_from-first type d (suc i) ts j m)

preference_from-match :
    (type d i : ℕ) (ts : List ℕ)
    → (preference_from type d i ts ≡ d)
      ⊎ ((j : ℕ) × (m : ℕ) × (preference_from type d i ts ≡ i + j)
          × (get_elem? ts j ≡ some m)
          × (has_all type m ≡ true))
unfolding preference_from
preference_from-match type d i [] = inl refl
preference_from-match type d i (t ∷ ts) = elim (Bool-cases (has_all type t)) [
  | inl fits ↦ inr (0, t, rw fits (omega arith), refl, fits)
  | inr not ↦ elim (preference_from-match type d (suc i) ts) [
    | inl e ↦ inl (rw not e)
    | inr (j, m, e, g, f) ↦ inr (suc j, m, rw not (omega (arith, e)), g, f)
  ]
]

-- The preference of a port is the position of a preferred type whose flags are all set in the port's
-- type, or the length of the list.
pub preference-match :
    (preferred : List ℕ) (type : ℕ)
    → (preference preferred type ≡ length preferred)
      ⊎ ((m : ℕ) × (get_elem? preferred (preference preferred type) ≡ some m)
          × (has_all type m ≡ true))
unfolding preference
preference-match preferred type = elim (preference_from-match type (length preferred) 0 preferred) [
  | inl e ↦ inl e
  | inr (j, m, e, g, f) ↦
      let e' : preference_from type (length preferred) 0 preferred ≡ j = omega (arith, e) in
      inr (m, rw e' g, f)
]

-- No preferred type before the position that is a port's preference has all its flags set in the
-- port's type.
pub preference-least :
    (preferred : List ℕ) (type j m : ℕ)
    → j < preference preferred type
    → get_elem? preferred j ≡ some m
    → has_all type m ≡ false
unfolding preference
preference-least preferred type j m lt e =
    preference_from-first type (length preferred) 0 preferred j m (omega (arith, lt)) e
