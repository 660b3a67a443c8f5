-- ===== src/BigInt/Scale.antt =====
-- `bigint` times, over and modulo an `int` (StateDatabase/bigint.h).
use state_db.Base.{ℕ, ◌+◌, ◌*◌, ◌^◌, ◌<◌, ◌≡◌, refl, List, [], ◌∷◌, arith, ap, ◌∙◌}
use state_db.BigInt.{
  BigInt, Sign, turned, trim, mul_loop, mul_int, div_loop, div_int, mod_loop, mod_int,
}
use state_db.BigInt.Value.{value, IsLimbs, value-mul_loop, value-div_loop, value-trim_limbs}
use state_db.BigInt.Order.{signed, to_ℤ}
use state_db.BigInt.Arith.{to_ℤ-trim}

-- `operator*=(int)` computes the product: the magnitude is multiplied, and a negative factor turns
-- the sign. The limbs are below the base and the factor's magnitude is below 2^31.
pub to_ℤ-mul_int :
    (n : BigInt) (v : ℕ) (s : Sign)
    → v < 2 ^ 31
    → IsLimbs n.a
    → to_ℤ (mul_int n v s) ≡ signed (turned s n.sign) (value n.a * v)
unfolding mul_int
to_ℤ-mul_int n v s h l =
    let (e, k) = value-mul_loop n.a v 0 h (omega arith) l in
    to_ℤ-trim (record { a = mul_loop n.a v 0; sign = turned s n.sign })
    ∙ ap (signed (turned s n.sign)) (omega (arith, e))

mod_loop-div_loop : (xs : List ℕ) (v : ℕ) → mod_loop xs v ≡ (div_loop xs v).1
unfolding mod_loop div_loop
mod_loop-div_loop [] v = refl
mod_loop-div_loop (x ∷ xs) v = rw (mod_loop-div_loop xs v) refl

-- `operator/=(int)` and `operator%(int)` are division with remainder: on any number and a divisor
-- that is not zero, the magnitude is the divisor times the quotient's magnitude plus the remainder,
-- which is below the divisor. The remainder has the sign of the number.
pub div_int-mod_int :
    (n : BigInt) (v : ℕ) (s : Sign)
    → 0 < v
    → (value n.a ≡ v * value (div_int n v s).a + (mod_int n v).1)
      × ((mod_int n v).1 < v)
      × ((mod_int n v).0 ≡ n.sign)
      × (to_ℤ (div_int n v s) ≡ signed (turned s n.sign) (value (div_int n v s).a))
unfolding div_int mod_int trim
div_int-mod_int n v s h =
    let (e, less) = value-div_loop n.a v h in
    let t = value-trim_limbs (div_loop n.a v).0 in
    (
      rw (mod_loop-div_loop n.a v, t) (omega (arith, e)),
      rw (mod_loop-div_loop n.a v) less,
      refl,
      to_ℤ-trim (record { a = (div_loop n.a v).0; sign = turned s n.sign })
          ∙ ap (signed (turned s n.sign)) (omega (arith, t)),
    )
