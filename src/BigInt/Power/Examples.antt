-- ===== src/BigInt/Power/Examples.antt =====
-- Concrete numbers for the theorem about `operator^` (StateDatabase/bigint.h).
use state_db.Base.{◌≡◌, some, [], ◌∷◌, ◌^◌, ◌%◌, ◌==◌, if◌then◌else◌, arith}
use state_db.BigInt.{BigInt, plus, minus}
use state_db.BigInt.Value.{value}
use state_db.BigInt.Order.{IsCanonical, signed, to_ℤ}
use state_db.BigInt.Power.{power}
use state_db.BigInt.Power.Loop.{to_ℤ-power}

abbrev root : BigInt
root = record { a = 7 ∷ 2 ∷ []; sign = minus }

abbrev exponent : BigInt
exponent = record { a = 5 ∷ []; sign = plus }

root-IsCanonical : IsCanonical root
root-IsCanonical = record {
  limbs = (omega arith, (omega arith, tt));
  trimmed = omega arith;
  short = omega arith;
  zero_plus = λ h. absurd (omega (arith, h));
}

exponent-IsCanonical : IsCanonical exponent
exponent-IsCanonical = record {
  limbs = (omega arith, tt);
  trimmed = omega arith;
  short = omega arith;
  zero_plus = λ h. absurd (omega (arith, h));
}

to_ℤ-power_example :
    (r : BigInt) × (power 6 root exponent ≡ some r)
    × (to_ℤ r
        ≡ signed
            (if value exponent.a % 2 == 0 then plus else root.sign)
            (value root.a ^ value exponent.a))
to_ℤ-power_example =
    to_ℤ-power 6 root exponent root-IsCanonical exponent-IsCanonical (omega arith) (omega arith)
