-- ===== src/RealTime/Normal.antt =====
-- What the constructor of `RealTime` (alsa_midi/event.py) accepts, and what it builds.
use python_alsa_midi.Prelude.{
  ℕ, ◌+◌, ◌*◌, ◌/◌, ◌<◌, ◌≡◌, ◌⊎◌, inl, inr, ◌↔◌, String, Bool-cases, ℤ, pos, pos_part, neg_part,
  ◌≤ℤ◌, ◌+ℤ◌, arith,
}
use python_alsa_midi.Exceptions.{ok, err, value_error, >>=-eq-ok}
use python_alsa_midi.RealTime.{
  RealTime, Numbers, Seconds, int, float, text, real, has_dot, billion, normalise, from_float, init,
}

-- What every constructed time satisfies.
pub record IsNormal (r : RealTime) : Type 0 where
  pub seconds_nonneg : pos 0 ≤ℤ r.seconds
  pub nanoseconds_nonneg : pos 0 ≤ℤ r.nanoseconds
  pub nanoseconds_lt : pos_part r.nanoseconds < billion

-- The time in nanoseconds, of a normal time.
abbrev pub total : RealTime → ℕ
total r = pos_part r.seconds * billion + pos_part r.nanoseconds

pub normalise-IsNormal : (s n : ℤ) {r : RealTime} → normalise s n ≡ ok r → IsNormal r
unfolding normalise ◌+ℤ◌
normalise-IsNormal s n h = ground arith

-- A constructed time has the same length in nanoseconds as the seconds and nanoseconds it is built from.
pub total-normalise :
    (s n : ℤ) {r : RealTime}
    → normalise s n ≡ ok r
    → total r + neg_part s * billion ≡ pos_part s * billion + pos_part n
unfolding normalise ◌+ℤ◌
total-normalise s n h = ground arith

-- Exactly the negative arguments are refused: a negative count of nanoseconds, or seconds that are
-- negative after the carry.
pub normalise-eq-err_iff :
    (s n : ℤ)
    → (normalise s n ≡ err value_error)
      ↔ ((0 < neg_part n) ⊎ (pos_part s + pos_part n / billion < neg_part s))
unfolding normalise ◌+ℤ◌
normalise-eq-err_iff s n = ground arith

-- A normal time is built from its two parts.
pub normalise-ok : (r : RealTime) → IsNormal r → normalise r.seconds r.nanoseconds ≡ ok r
unfolding normalise
normalise-ok r h = ground arith

module _ (py : Numbers) where
  open py use {Float, parse_int, parse_float}

  from_float-IsNormal : (f : Float) (n : ℤ) {r : RealTime} → from_float py f n ≡ ok r → IsNormal r
  unfolding from_float
  from_float-IsNormal f n h = normalise-IsNormal _ _ h

  text-IsNormal : (t : String) (n : ℤ) {r : RealTime} → init py (text t) n ≡ ok r → IsNormal r
  unfolding init
  text-IsNormal t n h = elim (Bool-cases (has_dot t)) [
    | inl dot ↦
        let (f, _, e) = >>=-eq-ok (parse_float t) (λ f. from_float py f n) (rw dot at h) in
        from_float-IsNormal f n e
    | inr plain ↦
        let (s, _, e) = >>=-eq-ok (parse_int t) (λ s. normalise s n) (rw plain at h) in
        normalise-IsNormal s n e
  ]

  -- Every time that the constructor returns is normal, whatever it is built from: an int, a float,
  -- a text or another time.
  pub init-IsNormal :
      (arg : Seconds Float) (n : ℤ) {r : RealTime} → init py arg n ≡ ok r → IsNormal r
  unfolding init
  init-IsNormal (int s) n h = normalise-IsNormal s n h
  init-IsNormal (float f) n h = from_float-IsNormal f n h
  init-IsNormal (text t) n h = text-IsNormal t n h
  init-IsNormal (real r) n h = normalise-IsNormal _ _ h

  -- A normal time is copied unchanged.
  pub init-real : (r : RealTime) → IsNormal r → init py (real r) (pos 0) ≡ ok r
  unfolding init normalise ◌+ℤ◌
  init-real r h = ground arith
