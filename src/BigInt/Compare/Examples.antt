-- ===== src/BigInt/Compare/Examples.antt =====
-- Concrete numbers for the theorem about the comparisons (StateDatabase/bigint.h).
use state_db.Base.{[], ◌∷◌, arith}
use state_db.BigInt.{BigInt, plus, minus}
use state_db.BigInt.Order.{IsCanonical}
use state_db.BigInt.Compare.{Compares, equal-Compares}

abbrev above : BigInt
above = record { a = 4 ∷ 1 ∷ []; sign = plus }

abbrev below : BigInt
below = record { a = 9 ∷ []; sign = minus }

above-IsCanonical : IsCanonical above
above-IsCanonical = record {
  limbs = (omega arith, (omega arith, tt));
  trimmed = omega arith;
  short = omega arith;
  zero_plus = λ h. absurd (omega (arith, h));
}

below-IsCanonical : IsCanonical below
below-IsCanonical = record {
  limbs = (omega arith, tt);
  trimmed = omega arith;
  short = omega arith;
  zero_plus = λ h. absurd (omega (arith, h));
}

equal-Compares_example : Compares above below
equal-Compares_example = equal-Compares above below above-IsCanonical below-IsCanonical
