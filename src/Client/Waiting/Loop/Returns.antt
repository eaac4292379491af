-- ===== src/Client/Waiting/Loop/Returns.antt =====
-- That the waiting loop of `SequencerClient` (alsa_midi/client.py) ends by its timeout, and with what.
use python_alsa_midi.Prelude.{
  ℕ, zero, suc, ◌<◌, ◌≡◌, ◌≢◌, ◌∙◌, ◌⊎◌, refl, ap, true, false, Bool-cases, inl, inr, Option, none,
  some, ℤ, pos, leb_ℤ, ◌+ℤ◌, +ℤ_parts, arith,
}
use python_alsa_midi.Exceptions.{Error, Result, ok, err, alsa_error, check_alsa_error}
use python_alsa_midi.Stateful.{Act}
use python_alsa_midi.Client.Waiting.{eagain, is_final, Tried, checked_value}
use python_alsa_midi.Client.Waiting.Loop.{Outcome, after_try, wait, until_of, wait_for}

later-within :
    (until a b c : ℤ) (n : ℕ)
    → leb_ℤ until (a +ℤ pos (suc n)) ≡ true
    → leb_ℤ a b ≡ true
    → leb_ℤ (b +ℤ pos 1) c ≡ true
    → leb_ℤ until (c +ℤ pos n) ≡ true
later-within until a b c n h k j =
    ground (arith, h, k, j, +ℤ_parts a (pos (suc n)), +ℤ_parts b (pos 1), +ℤ_parts c (pos n))

now-within :
    (until a b : ℤ) → leb_ℤ until (a +ℤ pos 0) ≡ true → leb_ℤ a b ≡ true → leb_ℤ until b ≡ true
now-within until a b h k = ground (arith, h, k, +ℤ_parts a (pos 0))

until-within : (a : ℤ) (n : ℕ) → leb_ℤ (a +ℤ pos n) (a +ℤ pos n) ≡ true
until-within a n = ground arith

module _ {C R V : Type 0} (attempt : Option R → Act C (Tried R V)) (clock : C → ℤ)
    (poll : C → C) where
  -- What an attempt that is not tried again gives: its value, or the error of its code.
  abbrev pub Answer : Tried R V → Result (Option V) → Type 0
  Answer t r =
      ((leb_ℤ (pos 0) t.code ≡ true) × (r ≡ ok (some t.value)))
      ⊎ ((leb_ℤ (pos 0) t.code ≡ false) × (r ≡ err (alsa_error t.code)))

  -- How the loop ends: the deadline has passed, an attempt raised, or an attempt gave neither `-EAGAIN` nor
  -- a remainder.
  abbrev pub Ending : Option ℤ → Result (Option V) → C → Type 0
  Ending until r c =
      ((u : ℤ) × (until ≡ some u) × (leb_ℤ u (clock c) ≡ true) × (r ≡ ok none))
      ⊎ (((rem : Option R) × (d : C) × (e : Error) × (attempt rem d ≡ (err e, c)) × (r ≡ err e))
          ⊎ ((rem : Option R) × (d : C) × (t : Tried R V) × (attempt rem d ≡ (ok t, c))
              × (t.code ≢ eagain)
              × (t.remainder ≡ none)
              × Answer t r))

  abbrev Ends : Option ℤ → Outcome attempt clock poll → Type 0
  Ends until out = (r : Result (Option V)) × (c : C) × (out ≡ some (r, c)) × Ending until r c

  final-parts :
      (t : Tried R V)
      → is_final t.code t.remainder ≡ true
      → (t.code ≢ eagain) × (t.remainder ≡ none)
  final-parts t f = (λ e. ground (arith, f, e), ground (arith, f))

  checked_value-Answer : (t : Tried R V) → Answer t (checked_value t)
  unfolding check_alsa_error
  checked_value-Answer t = elim (Bool-cases (leb_ℤ (pos 0) t.code)) [
    | inl h ↦ inl (h, ground (arith, h))
    | inr h ↦ inr (h, ground (arith, h))
  ]

  module _ (u : ℤ) (t : Tried R V) (c : C) (again : Option R → C → Outcome attempt clock poll) where
    after_try-final :
        is_final t.code t.remainder ≡ true
        → after_try attempt clock poll (some u) (ok t, c) again ≡ some (checked_value t, c)
    after_try-final f = ground (arith, f)

    after_try-late :
        is_final t.code t.remainder ≡ false
        → leb_ℤ u (clock c) ≡ true
        → after_try attempt clock poll (some u) (ok t, c) again ≡ some (ok none, c)
    after_try-late f x = ground (arith, f, x)

    after_try-again :
        is_final t.code t.remainder ≡ false
        → leb_ℤ u (clock c) ≡ false
        → after_try attempt clock poll (some u) (ok t, c) again ≡ again t.remainder (poll c)
    after_try-again f x = ground (arith, f, x)

  after_try-Ends :
      (u : ℤ) (rem : Option R) (c : C) (m : Result (Tried R V) × C)
      (again : Option R → C → Outcome attempt clock poll)
      → attempt rem c ≡ m
      → (leb_ℤ u (clock m.1) ≡ false → (rem : Option R) → Ends (some u) (again rem (poll m.1)))
      → Ends (some u) (after_try attempt clock poll (some u) m again)
  after_try-Ends u rem c (err e, d) again a k = (err e, d, refl, inr (inl (rem, c, e, a, refl)))
  after_try-Ends u rem c (ok t, d) again a k = elim (Bool-cases (is_final t.code t.remainder)) [
    | inl f ↦
        let (code, over) = final-parts t f in
        (
          checked_value t,
          d,
          after_try-final u t d again f,
          inr (inr (rem, c, t, a, code, over, checked_value-Answer t)),
        )
    | inr n ↦ elim (Bool-cases (leb_ℤ u (clock d))) [
      | inl late ↦ (ok none, d, after_try-late u t d again n late, inl (u, refl, late, refl))
      | inr early ↦
          let (r, c', e, ending) = k early t.remainder in
          (r, c', after_try-again u t d again n early ∙ e, ending)
    ]
  ]

  until_of-positive :
      (n : ℕ) (c : C)
      → until_of attempt clock poll (some (pos (suc n))) c ≡ some (clock c +ℤ pos (suc n))
  unfolding until_of
  until_of-positive n c = ground arith

  -- The clock never goes back, and each poll takes at least one unit of its time.
  module _ (monotonic : (rem : Option R) (c : C) → leb_ℤ (clock c) (clock (attempt rem c).1) ≡ true)
      (ticks : (c : C) → leb_ℤ (clock c +ℤ pos 1) (clock (poll c)) ≡ true) where
    wait-Ends :
        (n fuel : ℕ) (u : ℤ) (rem : Option R) (c : C)
        → leb_ℤ u (clock c +ℤ pos n) ≡ true
        → n < fuel
        → Ends (some u) (wait attempt clock poll (some u) fuel rem c)
    unfolding wait
    wait-Ends n zero u rem c h lt = absurd (omega arith)
    wait-Ends zero (suc fuel) u rem c h lt =
        after_try-Ends u rem c (attempt rem c) _ refl (λ early _.
          absurd (
            let late = now-within u (clock c) _ h (monotonic rem c) in ground (arith, late, early)))
    wait-Ends (suc n) (suc fuel) u rem c h lt =
        after_try-Ends u rem c (attempt rem c) _ refl (λ _ rem'.
          wait-Ends n fuel u rem' (poll (attempt rem c).1)
            (later-within u (clock c) _ _ n h (monotonic rem c) (ticks (attempt rem c).1))
            (omega arith))

    -- If the clock never goes back and each poll takes at least one unit of its time, a timeout other than
    -- zero ends the waiting loop, whatever the attempts give, with any fuel above the timeout: it returns
    -- `None` once the deadline has passed, or raises what an attempt raised, or else an attempt gave neither
    -- `-EAGAIN` nor a remainder, and its value is returned, or the error for its code raised if that is
    -- negative.
    pub wait_for-Ending :
        (timeout fuel : ℕ) (c : C)
        → 0 < timeout
        → timeout < fuel
        → (r : Result (Option V)) × (c' : C) × (wait_for attempt clock poll
              (some (pos timeout))
              fuel
              c
            ≡ some (r, c'))
          × Ending (some (clock c +ℤ pos timeout)) r c'
    unfolding wait_for until_of
    wait_for-Ending zero fuel c positive lt = absurd (omega arith)
    wait_for-Ending (suc n) fuel c positive lt =
        let (r, c', e, ending) =
          wait-Ends (suc n) fuel (clock c +ℤ pos (suc n)) none c (until-within (clock c) (suc n))
            lt in
        (
          r,
          c',
          ap (λ until. wait attempt clock poll until fuel none c) (until_of-positive n c) ∙ e,
          ending,
        )
