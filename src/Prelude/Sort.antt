-- ===== src/Prelude/Sort.antt =====
-- Python's `list.sort(key=…)`: a stable sort, by a comparison of keys. As an insertion sort it gives
-- the same list, and its laws are those that the callers need.
use mathlib.Core.Path.{◌≡◌}
use mathlib.Core.Bool.{Bool, true, false}
use mathlib.Core.Logic.{inl, inr}
use mathlib.Core.List.{List, [], ◌∷◌, Perm}
use mathlib.Core.List.Perm
use python_alsa_midi.Prelude.Tests.{if◌then◌else◌, Bool-cases}

abbrev pub All {ℓ} : {A : Type ℓ} → (A → Type 0) → List A → Type 0
All P [] = Unit
All P (x ∷ xs) = P x × All P xs

module _ {ℓ} {A : Type ℓ} (less : A → A → Bool) where
  -- Before the first element that is not smaller.
  unfoldable pub insert_sorted : A → List A → List A
  insert_sorted x [] = x ∷ []
  insert_sorted x (y ∷ ys) = if less y x then y ∷ insert_sorted x ys else x ∷ y ∷ ys

  unfoldable pub sort : List A → List A
  unfolding insert_sorted
  sort [] = []
  sort (x ∷ xs) = insert_sorted x (sort xs)

  -- No later element is smaller than an earlier one.
  abbrev pub IsSorted : List A → Type 0
  IsSorted [] = Unit
  IsSorted (x ∷ xs) = All (λ y. less y x ≡ false) xs × IsSorted xs

  insert_sorted-perm : (x : A) (xs : List A) → Perm (insert_sorted x xs) (x ∷ xs)
  unfolding insert_sorted
  insert_sorted-perm x [] = Perm.refl _
  insert_sorted-perm x (y ∷ ys) = elim (Bool-cases (less y x)) [
    | inl lt ↦ rw lt (Perm.trans (Perm.cons y (insert_sorted-perm x ys)) (Perm.swap _ _ _))
    | inr ge ↦ rw ge (Perm.refl _)
  ]

  -- Sorting permutes.
  pub sort-perm : (xs : List A) → Perm (sort xs) xs
  unfolding sort
  sort-perm [] = Perm.refl _
  sort-perm (x ∷ xs) = Perm.trans (insert_sorted-perm x (sort xs)) (Perm.cons x (sort-perm xs))

  All-insert_sorted :
      (P : A → Type 0) (x : A) (xs : List A) → P x → All P xs → All P (insert_sorted x xs)
  unfolding insert_sorted
  All-insert_sorted P x [] p h = (p, tt)
  All-insert_sorted P x (y ∷ ys) p h = elim (Bool-cases (less y x)) [
    | inl lt ↦ rw lt (h.0, All-insert_sorted P x ys p h.1)
    | inr ge ↦ rw ge (p, h)
  ]

  pub All-sort : (P : A → Type 0) (xs : List A) → All P xs → All P (sort xs)
  unfolding sort
  All-sort P [] h = tt
  All-sort P (x ∷ xs) h = All-insert_sorted P x (sort xs) h.0 (All-sort P xs h.1)

  -- The comparison orders the elements that satisfy `P`.
  module _ (P : A → Type 0) (asym : (a b : A) → less a b ≡ true → less b a ≡ false)
      (trans : (a b c : A)
        → P a
        → P b
        → P c
        → less b a ≡ false
        → less c b ≡ false
        → less c a ≡ false) where
    All-not_less :
        (x y : A) (ys : List A)
        → P x
        → P y
        → All P ys
        → less y x ≡ false
        → All (λ z. less z y ≡ false) ys
        → All (λ z. less z x ≡ false) ys
    All-not_less x y [] px py ps h a = tt
    All-not_less x y (z ∷ zs) px py ps h a =
        (trans x y z px py ps.0 h a.0, All-not_less x y zs px py ps.1 h a.1)

    insert_sorted-IsSorted :
        (x : A) (xs : List A) → P x → All P xs → IsSorted xs → IsSorted (insert_sorted x xs)
    unfolding insert_sorted
    insert_sorted-IsSorted x [] px ps h = (tt, tt)
    insert_sorted-IsSorted x (y ∷ ys) px ps h = elim (Bool-cases (less y x)) [
      | inl lt ↦ rw lt (
        All-insert_sorted (λ z. less z y ≡ false) x ys (asym y x lt) h.0,
        insert_sorted-IsSorted x ys px ps.1 h.1,
      )
      | inr ge ↦ rw ge ((ge, All-not_less x y ys px ps.0 ps.1 ge h.0), h)
    ]

    pub sort-IsSorted : (xs : List A) → All P xs → IsSorted (sort xs)
    unfolding sort
    sort-IsSorted [] ps = tt
    sort-IsSorted (x ∷ xs) ps =
        insert_sorted-IsSorted x (sort xs) ps.0 (All-sort P xs ps.1) (sort-IsSorted xs ps.1)
