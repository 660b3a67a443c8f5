-- ===== src/BigInt/Measure/Examples.antt =====
-- Concrete numbers for the theorems about `size` (StateDatabase/bigint.h).
use state_db.Base.{◌≡◌, ◌^◌, refl, some, none, ltb, if◌then◌else◌, [], ◌∷◌, length, arith}
use state_db.Base.Int.{pos, ◌+ℤ◌}
use state_db.BigInt.{BigInt, minus, abs}
use state_db.BigInt.Value.{value}
use state_db.BigInt.Order.{IsCanonical, to_ℤ}
use state_db.BigInt.Text.{to_string}
use state_db.BigInt.Measure.{size, sumof, long_value, IsSize, size-IsSize, long_value-to_ℤ}

abbrev measured : BigInt
measured = record { a = 12 ∷ 305 ∷ []; sign = minus }

measured-IsCanonical : IsCanonical measured
measured-IsCanonical = record {
  limbs = (omega arith, (omega arith, tt));
  trimmed = omega arith;
  short = omega arith;
  zero_plus = λ h. absurd (omega (arith, h));
}

size-IsSize_example :
    (size measured ≡ (
      if ltb (length (to_string (abs measured))) (2 ^ 31)
      then some (length (to_string (abs measured)))
      else none))
    × IsSize (value measured.a) (length (to_string (abs measured)))
size-IsSize_example = size-IsSize measured measured-IsCanonical (omega arith)

-- The sign counts as minus three: the digits of -12 sum up to 0.
sumof_signed : sumof (record { a = 12 ∷ []; sign = minus }) ≡ pos 0
unfolding sumof ◌+ℤ◌
sumof_signed = refl

-- 305000000012 fits.
long_value-to_ℤ_example :
    long_value measured ≡ (if ltb (value measured.a) (2 ^ 63) then some (to_ℤ measured) else none)
long_value-to_ℤ_example = long_value-to_ℤ measured
