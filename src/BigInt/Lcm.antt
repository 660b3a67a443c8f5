-- ===== src/BigInt/Lcm.antt =====
-- `lcm` of two `bigint`s (StateDatabase/bigint.h). `none` is the `back()` of an empty vector, which the
-- division of zero by zero asks for, or fuel that is used up in `gcd`.
use native.Mathlib.Nat.{mul-div_cancel_left}
use state_db.Base.{
  ℕ, zero, suc, ◌+◌, ◌*◌, ◌/◌, ◌^◌, ◌≤◌, ◌<◌, ◌≡◌, refl, Option, some, List, [], ◌∷◌, length, arith,
  ap, ◌∙◌, sym,
}
use state_db.BigInt.{BigInt, base}
use state_db.BigInt.Value.{value}
use state_db.BigInt.Order.{IsCanonical}
use state_db.BigInt.Division.{then_some, gcd, divide, divmod}
use state_db.BigInt.Division.Digit.{length_of_value}
use state_db.BigInt.Division.Limb.{then_some-some}
use state_db.BigInt.Division.Quotient.{divmod-IsQuotient}
use state_db.BigInt.Division.Gcd.{IsDivisorOf, IsGcd, gcd-IsGcd, divides_rest}
use state_db.BigInt.Product.{times}
use state_db.BigInt.Product.Signed.{IsSigned, own-IsSigned, product_sign, times-IsSigned}
mod Examples

-- The fuel is for `gcd`.
unfoldable pub lcm : ℕ → BigInt → BigInt → Option BigInt
unfolding gcd divide times
lcm fuel m n = then_some (gcd fuel m n) (λ g. then_some (divide m g) (λ q. times q n))

-- `l` is a multiple of both, and divides every number that is.
pub record IsLcm (a b l : ℕ) : Type 0 where
  pub left : IsDivisorOf a l
  pub right : IsDivisorOf b l
  pub least : (k : ℕ) → IsDivisorOf a k → IsDivisorOf b k → IsDivisorOf l k

cancel : (g x y : ℕ) → 0 < g → g * x ≡ g * y → x ≡ y
cancel g x y h e = sym (mul-div_cancel_left x h) ∙ ap (λ (t : ℕ). t / g) e ∙ mul-div_cancel_left y h

quotient-IsLcm : (a b g q : ℕ) → 0 < g → IsGcd a b g → a ≡ q * g → IsLcm a b (q * b)
quotient-IsLcm a b g q pos h e =
    let (t, te) = h.right in
    record {
      left = (t, rw e (omega (arith, ap (λ (z : ℕ). q * z) te)));
      right = (q, refl);
      least = λ k (x, xe) (y, ye).
          let (z, ze) =
            h.scaled k (a * b) (y, omega (arith, ap (λ (w : ℕ). a * w) ye))
              (x, omega (arith, ap (λ (w : ℕ). b * w) xe)) in
          (z, cancel g (z * (q * b)) k pos (omega (arith, ze, ap (λ (w : ℕ). z * (w * b)) e)));
    }

-- What is divided by the divisor leaves no rest.
exact : (a g q r : ℕ) → a ≡ q * g + r → r < g → IsDivisorOf g a → a ≡ q * g
exact a g q r e low d = go (divides_rest g q a g r e d (1, omega arith))
  where
    go : IsDivisorOf g r → a ≡ q * g
    go (zero, f) = omega (arith, e, f)
    go (suc k, f) = absurd (omega (arith, low, f))

divisor_pos : (a b g : ℕ) → 0 < a + b → IsDivisorOf g a → IsDivisorOf g b → 0 < g
divisor_pos a b zero h (k, e) (l, f) = absurd (omega (arith, h, e, f))
divisor_pos a b (suc g) h d d' = omega arith

divisor_below :
    (a b g limit : ℕ)
    → 0 < a + b
    → a < limit
    → b < limit
    → IsDivisorOf g a
    → IsDivisorOf g b
    → g < limit
divisor_below a b g limit h ha hb (suc k, e) d = omega (arith, e, ha)
divisor_below a b g limit h ha hb (zero, e) (suc l, f) = omega (arith, f, hb)
divisor_below a b g limit h ha hb (zero, e) (zero, f) = absurd (omega (arith, h, e, f))

quotient_below : (a q g limit : ℕ) → 0 < g → a ≡ q * g → a < limit → q < limit
quotient_below a q zero limit h e below = absurd (omega (arith, h))
quotient_below a q (suc g) limit h e below = omega (arith, e, below)

length_pos : (xs : List ℕ) → 0 < value xs → 0 < length xs
length_pos [] h = absurd (omega (arith, h))
length_pos (x ∷ xs) h = omega arith

below_length : (n : BigInt) → IsCanonical n → value n.a < base ^ 1365 → length n.a < 2 ^ 27
below_length n c h = omega (arith, length_of_value n.a 1365 c.limbs c.trimmed h)

-- For canonical numbers of magnitudes below `base ^ 1365`, not both of them zero, and more fuel than
-- the magnitude of the second, `lcm` ends. The magnitude of the result is a multiple of both
-- magnitudes, and divides every number that is.
pub lcm-IsLcm :
    (fuel : ℕ) (m n : BigInt)
    → IsCanonical m
    → IsCanonical n
    → value m.a < base ^ 1365
    → value n.a < base ^ 1365
    → 0 < value m.a + value n.a
    → value n.a < fuel
    → (l : BigInt) × (lcm fuel m n ≡ some l) × IsLcm (value m.a) (value n.a) (value l.a)
unfolding lcm divide
lcm-IsLcm fuel m n cm cn hm hn some_left h =
    let short = below_length m cm hm in
    let (g, run, cg, is) = gcd-IsGcd fuel m n cm cn short (below_length n cn hn) h in
    let pos = divisor_pos (value m.a) (value n.a) (value g.a) some_left is.left is.right in
    let room =
      divisor_below (value m.a) (value n.a) (value g.a) (base ^ 1365) some_left hm hn is.left
        is.right in
    let (q, r, run', d) =
      divmod-IsQuotient m g cm cg short (below_length g cg room) (length_pos g.a pos) in
    let whole = exact (value m.a) (value g.a) (value q.a) (value r.a) d.whole d.below is.left in
    let (l, run'', i) =
      times-IsSigned q n q.sign n.sign (value q.a) (value n.a) (own-IsSigned q d.quotient)
        (own-IsSigned n cn)
        (quotient_below (value m.a) (value q.a) (value g.a) (base ^ 1365) pos whole hm) hn in
    (
      l,
      then_some-some (gcd fuel m n) _ g _ run (
          then_some-some (divide m g) _ q _ (then_some-some (divmod m g) _ (q, r) _ run' refl)
            run''),
      rw i.valued (quotient-IsLcm (value m.a) (value n.a) (value g.a) (value q.a) pos is whole),
    )
