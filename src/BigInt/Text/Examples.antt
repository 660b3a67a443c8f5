-- ===== src/BigInt/Text/Examples.antt =====
-- Concrete inputs for the theorems about the texts of `bigint`.
use state_db.Base.{◌≡◌, refl, some, [], ◌∷◌, length, arith}
use state_db.BigInt.{BigInt, minus}
use state_db.BigInt.Order.{IsCanonical}
use state_db.BigInt.Text.{read, to_string}
use state_db.BigInt.Text.RoundTrip.{read-to_string}

abbrev two_limbs : BigInt
two_limbs = record { a = 7 ∷ 12 ∷ []; sign = minus }

two_limbs-IsCanonical : IsCanonical two_limbs
two_limbs-IsCanonical = record {
  limbs = ground arith;
  trimmed = ground arith;
  short = omega arith;
  zero_plus = ground arith;
}

-- The text "-12000000007".
two_limbs_text : length (to_string two_limbs) ≡ 12
unfolding to_string
two_limbs_text = refl

read-to_string_example : read (to_string two_limbs) ≡ some two_limbs
read-to_string_example =
    read-to_string two_limbs two_limbs-IsCanonical (rw two_limbs_text (omega arith))

-- The text "-12".
read_text : read (45 ∷ 49 ∷ 50 ∷ []) ≡ some (record { a = 12 ∷ []; sign = minus })
unfolding read
read_text = refl
