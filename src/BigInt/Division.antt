-- ===== src/BigInt/Division.antt =====
-- `divmod`, `operator/` and `operator%` of two `bigint`s (StateDatabase/bigint.h). `none` is the
-- `back()` of an empty vector, or a digit that an `int` does not hold. The loop over the limbs indexes
-- them with an `int`, so the numbers have fewer than 2^30 limbs, as in BigInt.
use state_db.Base.{
  ℕ, zero, suc, ◌+◌, ◌-◌, ◌*◌, ◌/◌, ◌^◌, Bool, true, false, Option, none, some, List, [], ◌∷◌, ltb,
  if◌then◌else◌, length, get_or,
}
use state_db.BigInt.{
  BigInt, Sign, plus, minus, base, abs, trim, same_sign, less, plus_op, minus_op, mul_int, div_int,
  of_int, is_zero,
}
pub mod Estimate
pub mod Digit
pub mod Natural
pub mod Limb
pub mod Long
pub mod Quotient
pub mod Gcd
mod Examples

abbrev pub then_some {ℓ κ} : {A : Type ℓ} {B : Type κ} → Option A → (A → Option B) → Option B
then_some none f = none
then_some (some a) f = f a

-- `a.back()`.
unfoldable pub last : List ℕ → Option ℕ
last [] = none
last (x ∷ []) = some x
last (x ∷ y ∷ ys) = last (y ∷ ys)

-- The `long long` that becomes an `int`.
unfoldable pub as_int : ℕ → Option ℕ
as_int v = if ltb v (2 ^ 31) then some v else none

-- The digit that the two highest limbs of the remainder suggest; `count` is the count of the limbs of
-- the divisor and `top` the highest of them.
unfoldable pub estimate : List ℕ → ℕ → ℕ → ℕ
estimate r count top = (base * get_or r count 0 + get_or r (count - 1) 0) / top

-- One test of the `while` loop: the sum with the divisor, and the rest of the loop.
abbrev pub lower_step :
    ℕ → BigInt → Bool → Option BigInt → (BigInt → Option (ℕ × BigInt)) → Option (ℕ × BigInt)
lower_step d r false sum rest = some (suc d, r)
lower_step d r true sum rest = then_some sum rest

-- The `while` loop, in which the divisor is added and the digit lowered. A digit that would be lowered
-- below zero is `none`.
unfoldable pub lower : ℕ → BigInt → BigInt → Option (ℕ × BigInt)
unfolding less plus_op of_int
lower zero r b = if less r (of_int 0 plus) then none else some (0, r)
lower (suc d) r b = lower_step d r (less r (of_int 0 plus)) (plus_op r b) (λ r'. lower d r' b)

-- The body of the loop of `divmod` for the limb `x`: the digit and the remainder.
unfoldable pub divide_limb : ℕ → BigInt → BigInt → ℕ → Option (ℕ × BigInt)
unfolding plus_op minus_op mul_int of_int as_int estimate lower
divide_limb x r b top = then_some (plus_op (mul_int r base plus) (of_int x plus)) (λ r1.
    then_some (as_int (estimate r1.a (length b.a) top))
      (λ d. then_some (minus_op r1 (mul_int b d plus)) (λ r2. lower d r2 b)))

-- The loop, from the highest limb down.
unfoldable pub divide_loop : List ℕ → BigInt → ℕ → Option (List ℕ × BigInt)
unfolding divide_limb
divide_loop [] b top = some ([], record { a = []; sign = plus })
divide_loop (x ∷ xs) b top =
    then_some (divide_loop xs b top)
      (λ (qs, r). then_some (divide_limb x r b top) (λ (d, r'). some (d ∷ qs, r')))

unfoldable pub divmod : BigInt → BigInt → Option (BigInt × BigInt)
unfolding last abs trim mul_int div_int divide_loop
divmod m n = then_some (last n.a) (λ t.
    let norm = base / (t + 1) in
    let b = mul_int (abs n) norm plus in
    then_some (last b.a) (λ top.
      then_some (divide_loop (mul_int (abs m) norm plus).a b top) (λ (qs, r). some (
        trim (record { a = qs; sign = if same_sign m.sign n.sign then plus else minus }),
        div_int (trim (record r { sign = m.sign })) norm plus,
      ))))

-- `operator/` and `operator%` of two `bigint`s.
unfoldable pub divide : BigInt → BigInt → Option BigInt
unfolding divmod
divide m n = then_some (divmod m n) (λ (q, r). some q)

unfoldable pub modulo : BigInt → BigInt → Option BigInt
unfolding divmod
modulo m n = then_some (divmod m n) (λ (q, r). some r)

-- `gcd`, with fuel for its calls of itself, which are handed over as `rest`.
abbrev pub gcd_step : BigInt → Bool → Option BigInt → (BigInt → Option BigInt) → Option BigInt
gcd_step m true r rest = some m
gcd_step m false r rest = then_some r rest

unfoldable pub gcd : ℕ → BigInt → BigInt → Option BigInt
unfolding is_zero modulo
gcd zero m n = none
gcd (suc fuel) m n = gcd_step m (is_zero n) (modulo m n) (λ r. gcd fuel n r)
