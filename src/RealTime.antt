-- ===== src/RealTime.antt =====
-- `RealTime` of alsa_midi/event.py: seconds and nanoseconds.
-- Floats and Python's number parsers are not implemented there: they are the record `Numbers`.
pub mod Normal
pub mod Order
use Prim.Native.Char.{code}
use python_alsa_midi.Prelude.{
  ℕ, ◌+◌, ◌*◌, ◌/◌, ◌%◌, Bool, false, ◌&&◌, ◌||◌, String, ℤ, pos, pos_part, ◌+ℤ◌, ltb_ℤ, leb_ℤ,
  eqb_ℤ, ◌==◌, if◌then◌else◌,
}
use python_alsa_midi.Exceptions.{Result, ok, err, value_error, ◌>>=◌}

pub record RealTime : Type 0 where
  pub seconds : ℤ
  pub nanoseconds : ℤ

-- Python's floats, and `int(s)` and `float(s)` of a text.
pub record Numbers : Type 1 where
  pub Float : Type 0
  pub of_int : ℤ → Float
  pub add_float : Float → Float → Float
  pub sub_float : Float → Float → Float
  pub mul_float : Float → Float → Float
  -- `x / y` and `x // y`, which may raise
  pub div_float : Float → Float → Result Float
  pub floor_div : Float → Float → Result Float
  -- `round(x)`
  pub round : Float → ℤ
  -- `int(x)`
  pub trunc : Float → ℤ
  pub parse_int : String → Result ℤ
  pub parse_float : String → Result Float

-- The argument `seconds` of the constructor.
pub data Seconds (F : Type 0) : Type 0 where
  int : ℤ → Seconds F
  float : F → Seconds F
  text : String → Seconds F
  real : RealTime → Seconds F

-- `"." in s`
unfoldable pub has_dot : String → Bool
has_dot String.[] = false
has_dot (String.◌∷◌ c s) = code c == b'.' || has_dot s

abbrev pub billion : ℕ
billion = 1_000_000_000

-- The carry of whole seconds, and the check of the signs.
unfoldable pub normalise : ℤ → ℤ → Result RealTime
normalise s n =
    let carry = leb_ℤ (pos billion) n in
    let s' = if carry then s +ℤ pos (pos_part n / billion) else s in
    let n' = if carry then pos (pos_part n % billion) else n in
    if ltb_ℤ s' (pos 0) || ltb_ℤ n' (pos 0)
    then err value_error
    else ok (record { seconds = s'; nanoseconds = n' })

module _ (py : Numbers) where
  open py use {Float, of_int, add_float, sub_float, mul_float, trunc, parse_int, parse_float}

  -- The branch for a float.
  unfoldable pub from_float : Float → ℤ → Result RealTime
  from_float f n =
      let s = trunc f in
      let part = sub_float f (of_int s) in
      normalise s (trunc (add_float (of_int n) (mul_float (of_int (pos billion)) part)))

  -- `RealTime(seconds, nanoseconds)`
  unfoldable pub init : Seconds Float → ℤ → Result RealTime
  unfolding from_float
  init (int s) n = normalise s n
  init (float f) n = from_float f n
  init (text t) n =
      if has_dot t
      then parse_float t >>= (λ f. from_float f n)
      else parse_int t >>= (λ s. normalise s n)
  init (real r) n = normalise r.seconds (r.nanoseconds +ℤ n)

-- `__eq__` and `__lt__` between two `RealTime`s: Python compares the pairs.
unfoldable pub equal : RealTime → RealTime → Bool
equal a b = eqb_ℤ a.seconds b.seconds && eqb_ℤ a.nanoseconds b.nanoseconds

unfoldable pub less : RealTime → RealTime → Bool
less a b =
    if eqb_ℤ a.seconds b.seconds
    then ltb_ℤ a.nanoseconds b.nanoseconds
    else ltb_ℤ a.seconds b.seconds

-- `total_ordering` derives `<=` from `__lt__` and `__eq__`.
unfoldable pub less_equal : RealTime → RealTime → Bool
unfolding less equal
less_equal a b = less a b || equal a b
