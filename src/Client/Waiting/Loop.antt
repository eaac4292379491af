-- ===== src/Client/Waiting/Loop.antt =====
-- The waiting loop of `SequencerClient` (alsa_midi/client.py): `event_input` and
-- `_event_output_wait` poll after an attempt that is not final, until the timeout, if there is one.
-- The clock counts whole units of time, in which the timeout is given too.
pub mod Counts
pub mod Returns
use python_alsa_midi.Prelude.{
  ℕ, zero, suc, ◌<◌, ◌≡◌, ◌≢◌, ◌∙◌, refl, Bool, true, false, Bool-cases, inl, inr, Option, none,
  some, ℤ, pos, eqb_ℤ, leb_ℤ, ◌+ℤ◌, arith, if◌then◌else◌,
}
use python_alsa_midi.Exceptions.{Result, ok, err, check_alsa_error}
use python_alsa_midi.Stateful.{Act}
use python_alsa_midi.Client.Waiting.{is_final, Tried, checked_value}

module _ {C R V : Type 0} (attempt : Option R → Act C (Tried R V)) (clock : C → ℤ)
    (poll : C → C) where
  -- `until is not None` and nothing remains
  abbrev pub expired : Option ℤ → C → Bool
  expired none c = false
  expired (some until) c = leb_ℤ until (clock c)

  -- The result, `none` for a timeout, or the end of the fuel.
  abbrev pub Outcome : Type 0
  Outcome = Option (Result (Option V) × C)

  abbrev pub after_try : Option ℤ → Result (Tried R V) × C → (Option R → C → Outcome) → Outcome
  after_try until (err e, c) again = some (err e, c)
  after_try until (ok t, c) again = elim (is_final t.code t.remainder) [
    | true ↦ some (checked_value t, c)
    | false ↦ elim (expired until c) [
      | true ↦ some (ok none, c)
      | false ↦ again t.remainder (poll c)
    ]
  ]

  unfoldable pub wait : Option ℤ → ℕ → Option R → C → Outcome
  unfolding check_alsa_error
  wait until zero rem c = none
  wait until (suc fuel) rem c = after_try until (attempt rem c) (λ rem' c'. wait until fuel rem' c')

  -- `if timeout: until = time.monotonic() + timeout`
  unfoldable pub until_of : Option ℤ → C → Option ℤ
  until_of none c = none
  until_of (some timeout) c = if eqb_ℤ timeout (pos 0) then none else some (clock c +ℤ timeout)

  -- The method: the deadline, then the loop.
  unfoldable pub wait_for : Option ℤ → ℕ → C → Outcome
  unfolding until_of wait
  wait_for timeout fuel c = wait (until_of timeout c) fuel none c

  pub checked_value-some : (t : Tried R V) → checked_value t ≢ ok none
  unfolding check_alsa_error
  checked_value-some t h = ground arith

  after_try-none :
      (until : Option ℤ) (m : Result (Tried R V) × C) (again : Option R → C → Outcome) (c' : C)
      → ((rem : Option R) (c : C) → again rem c ≡ some (ok none, c') → expired until c' ≡ true)
      → after_try until m again ≡ some (ok none, c')
      → expired until c' ≡ true
  after_try-none until (err e, c) again c' k h = cc
  after_try-none until (ok t, c) again c' k h = elim (Bool-cases (is_final t.code t.remainder)) [
    | inl f ↦ absurd (checked_value-some t (ground (arith, h, f)))
    | inr n ↦ elim (Bool-cases (expired until c)) [
      | inl x ↦ ground (arith, h, n, x)
      | inr x ↦ k t.remainder (poll c) (ground (arith, h, n, x))
    ]
  ]

  wait-none :
      (until : Option ℤ) (fuel : ℕ) (rem : Option R) (c c' : C)
      → wait until fuel rem c ≡ some (ok none, c')
      → expired until c' ≡ true
  unfolding wait
  wait-none until zero rem c c' h = cc
  wait-none until (suc fuel) rem c c' h =
      after_try-none until (attempt rem c) (λ rem' c'. wait until fuel rem' c') c'
        (λ rem' d. wait-none until fuel rem' d c') h

  -- The waiting loop gives up only after its deadline: if it returns `None`, a timeout other than zero
  -- was given, and the clock has passed the start by that much.
  pub wait_for-none :
      (timeout : Option ℤ) (fuel : ℕ) (c c' : C)
      → wait_for timeout fuel c ≡ some (ok none, c')
      → (t : ℤ) × (timeout ≡ some t) × (t ≢ pos 0) × (leb_ℤ (clock c +ℤ t) (clock c') ≡ true)
  unfolding wait_for until_of
  wait_for-none none fuel c c' h = let late : false ≡ true = wait-none none fuel none c c' h in cc
  wait_for-none (some t) fuel c c' h = elim (Bool-cases (eqb_ℤ t (pos 0))) [
    | inl z ↦ let late : false ≡ true = wait-none none fuel none c c' (rw z at h) in cc
    | inr n ↦ (
      t,
      refl,
      (λ e. ground (arith, n, e)),
      wait-none (some (clock c +ℤ t)) fuel none c c' (rw n at h),
    )
  ]
