-- ===== src/BigInt/Lcm/Examples.antt =====
-- Concrete numbers for the theorem about `lcm` (StateDatabase/bigint.h).
use state_db.Base.{◌≡◌, some, [], ◌∷◌, arith}
use state_db.BigInt.{BigInt, plus, minus}
use state_db.BigInt.Value.{value}
use state_db.BigInt.Order.{IsCanonical}
use state_db.BigInt.Lcm.{lcm, IsLcm, lcm-IsLcm}

abbrev left_number : BigInt
left_number = record { a = 12 ∷ 3 ∷ []; sign = minus }

abbrev right_number : BigInt
right_number = record { a = 18 ∷ []; sign = plus }

left_number-IsCanonical : IsCanonical left_number
left_number-IsCanonical = record {
  limbs = (omega arith, (omega arith, tt));
  trimmed = omega arith;
  short = omega arith;
  zero_plus = λ h. absurd (omega (arith, h));
}

right_number-IsCanonical : IsCanonical right_number
right_number-IsCanonical = record {
  limbs = (omega arith, tt);
  trimmed = omega arith;
  short = omega arith;
  zero_plus = λ h. absurd (omega (arith, h));
}

lcm-IsLcm_example :
    (l : BigInt) × (lcm 19 left_number right_number ≡ some l)
    × IsLcm (value left_number.a) (value right_number.a) (value l.a)
lcm-IsLcm_example =
    lcm-IsLcm 19 left_number right_number left_number-IsCanonical right_number-IsCanonical
      (omega arith) (omega arith) (omega arith) (omega arith)
