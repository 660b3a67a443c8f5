-- ===== src/BigInt/Product/Examples.antt =====
-- Concrete inputs for the theorems about the product.
use state_db.Base.{ℕ, ◌+◌, ◌*◌, ◌^◌, ◌≡◌, some, List, [], ◌∷◌, if◌then◌else◌, length, arith}
use state_db.BigInt.{BigInt, plus, minus, same_sign}
use state_db.BigInt.Order.{signed, to_ℤ}
use state_db.BigInt.Text.Read.{IsRead}
use state_db.BigInt.Value.{value}
use state_db.BigInt.Product.{school, karatsuba_multiply, carry_loop, times}
use state_db.BigInt.Product.Carry.{carry_loop-AreAtMost}
use state_db.BigInt.Product.Digits.{eval, AreBelow}
use state_db.BigInt.Product.Karatsuba.{karatsuba_multiply-school}
use state_db.BigInt.Product.Times.{to_ℤ-times}

abbrev two_limbs : BigInt
two_limbs = record { a = 999_999_999 ∷ 7 ∷ []; sign = minus }

abbrev one_limb : BigInt
one_limb = record { a = 12 ∷ []; sign = plus }

to_ℤ-times_example :
    (r : BigInt) × (times two_limbs one_limb ≡ some r)
    × (to_ℤ r
        ≡ signed
            (if same_sign two_limbs.sign one_limb.sign then plus else minus)
            (value two_limbs.a * value one_limb.a))
    × IsRead r
to_ℤ-times_example =
    to_ℤ-times two_limbs one_limb (omega arith, (omega arith, tt)) (omega arith, tt) (omega arith)
      (omega arith)

abbrev left : List ℕ
left = 1 ∷ 2 ∷ 3 ∷ 4 ∷ []

abbrev right : List ℕ
right = 5 ∷ 0 ∷ 7 ∷ 8 ∷ []

karatsuba_multiply-school_example :
    (karatsuba_multiply 3 left right ≡ some (school left right))
    × (length (school left right) ≡ 2 * length left)
karatsuba_multiply-school_example =
    karatsuba_multiply-school 2 3 left right (omega arith) (omega arith) (ground arith)
      (ground arith) (omega arith) (omega arith)

carry_loop-AreAtMost_example :
    (out : List ℕ) × (rest : ℕ) × (carry_loop (2_047_995_000_000_000 ∷ 9 ∷ []) 5 ≡ some out)
    × (eval 1_000_000 out + 1_000_000 ^ 2 * rest
        ≡ eval 1_000_000 (2_047_995_000_000_000 ∷ 9 ∷ []) + 5)
    × AreBelow 1_000_000 out
    × (length out ≡ 2)
carry_loop-AreAtMost_example =
    carry_loop-AreAtMost (2_047_995_000_000_000 ∷ 9 ∷ []) 5 (omega arith, (omega arith, tt))
      (omega arith)
