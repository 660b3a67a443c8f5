-- ===== src/BigInt/Division/Examples.antt =====
-- Concrete numbers for the theorems about division (StateDatabase/bigint.h).
use state_db.Base.{◌≡◌, refl, some, [], ◌∷◌, arith}
use state_db.BigInt.{BigInt, plus, minus}
use state_db.BigInt.Value.{value}
use state_db.BigInt.Order.{IsCanonical}
use state_db.BigInt.Division.{divmod, gcd}
use state_db.BigInt.Division.Quotient.{IsQuotient, divmod-IsQuotient}
use state_db.BigInt.Division.Gcd.{IsGcd, gcd-IsGcd}

abbrev dividend : BigInt
dividend = record { a = 5 ∷ 7 ∷ 3 ∷ []; sign = minus }

abbrev divisor : BigInt
divisor = record { a = 9 ∷ 2 ∷ []; sign = plus }

dividend-IsCanonical : IsCanonical dividend
dividend-IsCanonical = record {
  limbs = (omega arith, (omega arith, (omega arith, tt)));
  trimmed = omega arith;
  short = omega arith;
  zero_plus = λ h. absurd (omega (arith, h));
}

divisor-IsCanonical : IsCanonical divisor
divisor-IsCanonical = record {
  limbs = (omega arith, (omega arith, tt));
  trimmed = omega arith;
  short = omega arith;
  zero_plus = λ h. refl;
}

divmod-IsQuotient_example :
    (q : BigInt) × (r : BigInt) × (divmod dividend divisor ≡ some (q, r))
    × IsQuotient dividend divisor q r
divmod-IsQuotient_example =
    divmod-IsQuotient dividend divisor dividend-IsCanonical divisor-IsCanonical (omega arith)
      (omega arith) (omega arith)

gcd-IsGcd_example :
    (g : BigInt) × (gcd 3000000000 dividend divisor ≡ some g)
    × IsCanonical g
    × IsGcd (value dividend.a) (value divisor.a) (value g.a)
gcd-IsGcd_example =
    gcd-IsGcd 3000000000 dividend divisor dividend-IsCanonical divisor-IsCanonical (omega arith)
      (omega arith) (omega arith)
