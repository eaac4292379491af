-- ===== src/Prelude/Bits.antt =====
-- Python's `&`, `|` and `& ~m` on flag words, and a table check over the values of a byte.
use Prim.Native.Nat.{ℕ, zero, suc, ◌-◌, ◌/◌, ◌<◌, min, bit_and, digits, bit_and-bitwise}
use mathlib.Core.Path.{◌≡◌, refl, ◌∙◌}
use mathlib.Core.Bool.{Bool, true, ◌&&◌, not}
use native.Mathlib.Omega.{arith}
use python_alsa_midi.Prelude.Tests.{◌==◌}

-- `x & ~m`
abbrev pub bit_clear : ℕ → ℕ → ℕ
bit_clear x m = x - bit_and x m

-- the truth of `x & m`
abbrev pub has_any : ℕ → ℕ → Bool
has_any x m = not (bit_and x m == 0)

-- `x & m == m`
abbrev pub has_all : ℕ → ℕ → Bool
has_all x m = bit_and x m == m

-- Does a test hold of every number below a bound?
unfoldable pub holds_below : (ℕ → Bool) → ℕ → Bool
holds_below test zero = true
holds_below test (suc bound) = holds_below test bound && test bound

pub test_below :
    (test : ℕ → Bool) (bound k : ℕ) → k < bound → holds_below test bound ≡ true → test k ≡ true
unfolding holds_below
test_below test zero k lt held = absurd (omega arith)
test_below test (suc bound) k lt held = ground (arith, test_below test bound k)

-- No digit of 0 is set.
digits-min-zero : (n a : ℕ) → digits (λ _. zero) min n a 0 ≡ 0
digits-min-zero zero a = refl
digits-min-zero (suc n) zero = refl
digits-min-zero (suc n) (suc a) = omega (arith, digits-min-zero n (suc a / 2))

pub bit_and-zero : (a : ℕ) → bit_and a 0 ≡ 0
bit_and-zero a = bit_and-bitwise a 0 ∙ digits-min-zero a a
