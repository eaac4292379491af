-- ===== src/RealTime/Order.antt =====
-- The comparisons of `RealTime` (alsa_midi/event.py) against the times in nanoseconds.
use python_alsa_midi.Prelude.{◌≤◌, ◌<◌, ◌≡◌, ◌↔◌, true, arith}
use python_alsa_midi.RealTime.{RealTime, equal, less, less_equal}
use python_alsa_midi.RealTime.Normal.{IsNormal, total}

module _ (a b : RealTime) (na : IsNormal a) (nb : IsNormal b) where
  -- `<` of two normal times compares their lengths in nanoseconds.
  pub less_iff : (less a b ≡ true) ↔ (total a < total b)
  unfolding less
  less_iff = ground arith

  pub equal_iff : (equal a b ≡ true) ↔ (a ≡ b)
  unfolding equal
  equal_iff = ground arith

  -- `<=` of two normal times compares their lengths in nanoseconds.
  pub less_equal_iff : (less_equal a b ≡ true) ↔ (total a ≤ total b)
  unfolding less_equal
  less_equal_iff = ground arith
