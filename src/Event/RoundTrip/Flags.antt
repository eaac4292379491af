-- ===== src/Event/RoundTrip/Flags.antt =====
-- The flag bits of an event of alsa_midi/event.py: what `stamp_flags` leaves in a byte.
use python_alsa_midi.Prelude.{
  ℕ, ◌≤◌, ◌<◌, ◌≡◌, refl, Bool, true, false, not, ◌&&◌, Option, none, some, ℤ, ◌==◌, ==_iff, leb,
  leb→le, holds_below, test_below, bit_clear, arith, if◌then◌else◌,
}
use python_alsa_midi.RealTime.{RealTime}
use python_alsa_midi.Event.Header.{is_some}
use python_alsa_midi.Event.ToAlsa.{stamp_flags, with_bits}
use python_alsa_midi.Event.FromAlsa.{masked_is}

-- `stamp_flags` sees only which of the two times is there.
stamp : Bool → Bool → Option Bool → ℕ → ℕ
stamp time tick relative f =
    let f₁ = if time then with_bits 1 1 f else f in
    let f₂ = if tick then with_bits 1 0 f₁ else f₁ in
    elim relative [ none ↦ f₂ | some true ↦ with_bits 2 2 f₂ | some false ↦ with_bits 2 0 f₂ ]

stamp_flags-eq-stamp :
    (time : Option RealTime) (tick : Option ℤ) (relative : Option Bool) (f : ℕ)
    → stamp_flags time tick relative f ≡ stamp (is_some time) (is_some tick) relative f
unfolding stamp_flags stamp
stamp_flags-eq-stamp time tick relative f = ground arith

eqb : Bool → Bool → Bool
eqb true b = b
eqb false b = not b

-- Is the stamp real time, and is it relative?
unfoldable pub is_real : Bool → Bool → ℕ → Bool
is_real time tick f = if tick then false else if time then true else masked_is 1 1 f

unfoldable pub is_relative : Option Bool → ℕ → Bool
is_relative none f = masked_is 2 2 f
is_relative (some b) f = b

abbrev good : Bool → Bool → Option Bool → ℕ → Bool
good time tick relative f =
    let g = stamp time tick relative f in
    leb g 0xff
    && eqb (masked_is 1 1 g) (is_real time tick f)
    && eqb (masked_is 1 0 g) (not (is_real time tick f))
    && eqb (masked_is 2 2 g) (is_relative relative f)
    && bit_clear g 3 == bit_clear f 3

stamp-good :
    (time tick : Bool) (relative : Option Bool) → holds_below (good time tick relative) 256 ≡ true
unfolding stamp eqb is_real is_relative holds_below
stamp-good true true none = refl
stamp-good true true (some true) = refl
stamp-good true true (some false) = refl
stamp-good true false none = refl
stamp-good true false (some true) = refl
stamp-good true false (some false) = refl
stamp-good false true none = refl
stamp-good false true (some true) = refl
stamp-good false true (some false) = refl
stamp-good false false none = refl
stamp-good false false (some true) = refl
stamp-good false false (some false) = refl

-- What a stamped flag byte says.
pub record Stamped (time tick : Bool) (relative : Option Bool) (f g : ℕ) : Type 0 where
  pub is_byte : g ≤ 0xff
  pub real : masked_is 1 1 g ≡ is_real time tick f
  pub ticks : masked_is 1 0 g ≡ not (is_real time tick f)
  pub relative_bit : masked_is 2 2 g ≡ is_relative relative f
  pub others : bit_clear g 3 ≡ bit_clear f 3

all_true :
    (a b c d e : Bool)
    → (a && b && c && d && e) ≡ true
    → (a ≡ true) × (b ≡ true) × (c ≡ true) × (d ≡ true) × (e ≡ true)
all_true a b c d e h = ground arith

eqb-true : (a b : Bool) → eqb a b ≡ true → a ≡ b
unfolding eqb
eqb-true a b h = ground arith

-- Of a byte of flags, the stamp bits follow `time`, `tick` and `relative` where they are set and
-- stay where they are not, and all other bits stay.
pub stamp_flags-Stamped :
    (time : Option RealTime) (tick : Option ℤ) (relative : Option Bool) (f : ℕ)
    → f < 256
    → Stamped (is_some time) (is_some tick) relative f (stamp_flags time tick relative f)
stamp_flags-Stamped time tick relative f h =
    let t = is_some time in
    let k = is_some tick in
    let all = test_below (good t k relative) 256 f h (stamp-good t k relative) in
    let (byte, real, ticks, rel, others) = all_true _ _ _ _ _ all in
    rw (stamp_flags-eq-stamp time tick relative f) (record {
      is_byte = leb→le _ _ byte;
      real = eqb-true _ _ real;
      ticks = eqb-true _ _ ticks;
      relative_bit = eqb-true _ _ rel;
      others = (==_iff _ _).0 others;
    })

is_some-if {ℓ} : {A : Type ℓ} (b : Bool) (a : A) → is_some (if b then some a else none) ≡ b
is_some-if true a = refl
is_some-if false a = refl

abbrev same_again : ℕ → Bool
same_again f = stamp (masked_is 1 1 f) (masked_is 1 0 f) (some (masked_is 2 2 f)) f == f

stamp-same_again : holds_below same_again 256 ≡ true
unfolding stamp holds_below
stamp-same_again = refl

-- The flags that a time, a tick and `relative` were read from are left as they are.
pub stamp_flags-same :
    (t : RealTime) (k : ℤ) (f : ℕ)
    → f < 256
    → stamp_flags
        (if masked_is 1 1 f then some t else none)
        (if masked_is 1 0 f then some k else none)
        (some (masked_is 2 2 f))
        f
      ≡ f
stamp_flags-same t k f h =
    rw (stamp_flags-eq-stamp, is_some-if (masked_is 1 1 f) t, is_some-if (masked_is 1 0 f) k)
      ((==_iff _ f).0 (test_below same_again 256 f h stamp-same_again))
