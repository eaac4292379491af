-- ===== src/Client/Waiting/Loop/Counts.antt =====
-- What the waiting loop of alsa_midi/client.py keeps until its timeout.
use python_alsa_midi.Prelude.{
  ℕ, zero, suc, ◌≡◌, ◌∙◌, refl, false, Bool-cases, inl, inr, Option, none, some, ℤ, arith,
}
use python_alsa_midi.Exceptions.{Result, ok, err}
use python_alsa_midi.Stateful.{Act}
use python_alsa_midi.Client.Waiting.{is_final, Tried}
use python_alsa_midi.Client.Waiting.Loop.{
  expired, Outcome, after_try, wait, wait_for, checked_value-some,
}

-- A number that the polls and the attempts which are not final leave as it is.
module _ {C R V : Type 0} (attempt : Option R → Act C (Tried R V)) (clock : C → ℤ) (poll : C → C)
    (count : C → ℕ)
    (same : (rem : Option R) (c c' : C) (t : Tried R V)
      → attempt rem c ≡ (ok t, c')
      → is_final t.code t.remainder ≡ false
      → count c' ≡ count c)
    (polled : (c : C) → count (poll c) ≡ count c) where
  after_try-count :
      (until : Option ℤ) (rem : Option R) (c : C) (m : Result (Tried R V) × C)
      (again : Option R → C → Outcome attempt clock poll) (c' : C)
      → attempt rem c ≡ m
      → ((rem : Option R) (d : C) → again rem d ≡ some (ok none, c') → count c' ≡ count d)
      → after_try attempt clock poll until m again ≡ some (ok none, c')
      → count c' ≡ count c
  after_try-count until rem c (err e, d) again c' a k h = cc
  after_try-count until rem c (ok t, d) again c' a k h =
      elim (Bool-cases (is_final t.code t.remainder)) [
        | inl f ↦ absurd (checked_value-some attempt clock poll t (ground (arith, h, f)))
        | inr n ↦ elim (Bool-cases (expired attempt clock poll until d)) [
          | inl x ↦
              let e : d ≡ c' = ground (arith, h, n, x) in
              let s : count d ≡ count c = same rem c d t a n in cc
          | inr x ↦ k t.remainder (poll d) (ground (arith, h, n, x)) ∙ polled d ∙ same rem c d t a n
        ]
      ]

  wait-count :
      (until : Option ℤ) (fuel : ℕ) (rem : Option R) (c c' : C)
      → wait attempt clock poll until fuel rem c ≡ some (ok none, c')
      → count c' ≡ count c
  unfolding wait
  wait-count until zero rem c c' h = cc
  wait-count until (suc fuel) rem c c' h =
      after_try-count until rem c (attempt rem c)
        (λ rem' d. wait attempt clock poll until fuel rem' d) c' refl
        (λ rem' d. wait-count until fuel rem' d c') h

  -- A timeout of the waiting loop leaves the number as it was.
  pub wait_for-count :
      (timeout : Option ℤ) (fuel : ℕ) (c c' : C)
      → wait_for attempt clock poll timeout fuel c ≡ some (ok none, c')
      → count c' ≡ count c
  unfolding wait_for
  wait_for-count timeout fuel c c' h = wait-count _ fuel none c c' h
