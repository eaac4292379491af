-- ===== src/Client/Enumerate.antt =====
-- The query loops of alsa_midi/client.py: `snd_seq_query_next_…` is asked with the previous id until
-- it answers `-ENOENT`; any other negative code is raised. What a round finds is appended.
use python_alsa_midi.Prelude.{
  ℕ, zero, suc, ◌+◌, ◌≤◌, ◌<◌, ◌≡◌, Option, none, some, List, [], ◌∷◌, ◌++◌, ℤ, negsuc, neg_part,
  pos_part, eqb_ℤ, length, arith, if◌then◌else◌,
}
use python_alsa_midi.Exceptions.{Result, ok, err, check_alsa_error}

-- `-errno.ENOENT`
abbrev pub enoent : ℤ
enoent = negsuc 1

-- A loop on fuel: `none` says that the fuel ran out.
abbrev pub Run {ℓ} : Type ℓ → Type ℓ
Run A = Option (Result A)

module _ {B : Type 0} where
  -- The items that one round found, before those of the rounds that follow.
  abbrev pub then_rest : Run (List B) → Run (List B) → Run (List B)
  then_rest none r = none
  then_rest (some (err e)) r = some (err e)
  then_rest (some (ok xs)) none = none
  then_rest (some (ok xs)) (some (err e)) = some (err e)
  then_rest (some (ok xs)) (some (ok ys)) = some (ok (xs ++ ys))

  -- After a successful check of the code, the body and the next round.
  abbrev pub checked_round : Result (Unit {0}) → Run (List B) → Run (List B) → Run (List B)
  checked_round (err e) found rest = some (err e)
  checked_round (ok _) found rest = then_rest found rest

-- Entries `X` that are answered as `key x`, and have the id `id (key x)`.
module _ {A X : Type 0} (key : X → A) (id : A → ℤ) where
  -- The sequencer serves the entries: asked with the previous id it answers the first one, asked with
  -- the id of an entry the next one, and after the last one it answers `-ENOENT`.
  abbrev pub Serves : (ℤ → ℤ × A) → ℤ → List X → Type 0
  Serves next prev [] = (next prev).0 ≡ enoent
  Serves next prev (x ∷ xs) =
      (neg_part (next prev).0 ≡ 0) × ((next prev).1 ≡ key x) × Serves next (id (key x)) xs

  -- The ids rise from `low` on, and lie below `bound`.
  abbrev pub Rises : ℕ → ℕ → List X → Type 0
  Rises low bound [] = Unit
  Rises low bound (x ∷ xs) =
      (low ≤ pos_part (id (key x)))
      × (pos_part (id (key x)) < bound)
      × Rises (suc (pos_part (id (key x)))) bound xs

  length-Rises :
      (low bound : ℕ) (xs : List X) → low ≤ bound → Rises low bound xs → low + length xs ≤ bound
  length-Rises low bound [] h r = omega arith
  length-Rises low bound (x ∷ xs) h r =
      omega (arith, length-Rises (suc (pos_part (id (key x)))) bound xs (omega arith) r.2)

  -- There are no more entries than ids.
  pub length-le_of_Rises : (bound : ℕ) (xs : List X) → Rises 0 bound xs → length xs ≤ bound
  length-le_of_Rises bound xs r = omega (arith, length-Rises 0 bound xs (omega arith) r)

-- The concatenation of what is found at each entry.
unfoldable pub collect {ℓ} : {X : Type ℓ} {B : Type 0} → (X → List B) → List X → List B
collect f [] = []
collect f (x ∷ xs) = f x ++ collect f xs

module _ {A B : Type 0} where
  unfoldable pub scan : (ℤ → ℤ × A) → (A → ℤ) → (A → Run (List B)) → ℕ → ℤ → Run (List B)
  scan next id body zero prev = none
  scan next id body (suc fuel) prev =
      let answer = next prev in
      let rest = scan next id body fuel (id answer.1) in
      let found = body answer.1 in
      if eqb_ℤ answer.0 enoent
      then some (ok [])
      else checked_round (check_alsa_error answer.0) found rest

module _ {A B X : Type 0} (key : X → A) (id : A → ℤ) (body : A → Run (List B))
    (found : X → List B) where
  -- The body finds `found x` at each entry.
  abbrev pub Finds : List X → Type 0
  Finds [] = Unit
  Finds (x ∷ xs) = (body (key x) ≡ some (ok (found x))) × Finds xs

  -- A loop over the entries that are served collects what the body finds, if its fuel exceeds their
  -- number.
  pub scan-Serves :
      (next : ℤ → ℤ × A) (prev : ℤ) (xs : List X) (fuel : ℕ)
      → Serves key id next prev xs
      → Finds xs
      → length xs < fuel
      → scan next id body fuel prev ≡ some (ok (collect found xs))
  unfolding scan collect check_alsa_error
  scan-Serves next prev xs zero s h lt = absurd (omega arith)
  scan-Serves next prev [] (suc fuel) s h lt = rw s
  scan-Serves next prev (x ∷ xs) (suc fuel) s h lt =
      let ih = scan-Serves next (id (key x)) xs fuel s.2 h.1 (omega arith) in ground (arith, ih)
