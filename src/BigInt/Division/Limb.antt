-- ===== src/BigInt/Division/Limb.antt =====
-- The body of the loop of `divmod` (StateDatabase/bigint.h): one limb is taken down, and divided.
use state_db.Base.{
  ℕ, suc, ◌+◌, ◌-◌, ◌*◌, ◌^◌, ◌≤◌, ◌<◌, ◌≡◌, refl, true, Option, some, length, arith, ap, ◌∙◌, ltb,
}
use state_db.Base.Int.{pos, pos_part, neg_part, ◌-ℤ◌}
use native.Mathlib.Nat.{mul-le-mul_left}
use state_db.BigInt.{BigInt, base, plus, of_int, mul_int}
use state_db.BigInt.Value.{value, base_pow}
use state_db.BigInt.Order.{IsCanonical, to_ℤ}
use state_db.BigInt.Arith.{to_ℤ-minus_op}
use state_db.BigInt.Sums.{minus_op-IsCanonical}
use state_db.BigInt.Division.{then_some, divide_limb, estimate, as_int, last}
use state_db.BigInt.Division.Estimate.{top_two, Leads, top_two-Leads, last-Leads, estimate_lem}
use state_db.BigInt.Division.Digit.{
  IsBetween, IsDigit, IsDivisor, lower_lem, length_of_value, value_below,
}
use state_db.BigInt.Division.Natural.{
  IsNatural, mul_int-IsNatural, of_int-IsNatural, plus_op-IsNatural, natural_short, divisor_powers,
}

pub then_some-some {ℓ κ} :
    {A : Type ℓ} {B : Type κ} (x : Option A) (f : A → Option B) (a : A) (y : Option B)
    → x ≡ some a
    → f a ≡ y
    → then_some x f ≡ y
then_some-some {A = A} x f a y e e' = ap (λ (t : Option A). then_some t f) e ∙ e'

subtracted_parts :
    (x y v : ℕ)
    → 0 < v
    → x < y + v
    → (pos_part (pos x -ℤ pos y) < v)
      × (pos_part (pos x -ℤ pos y) + y ≡ x + neg_part (pos x -ℤ pos y))
unfolding ◌-ℤ◌
subtracted_parts x y v h h' = (ground arith, ground arith)

-- The digit that is tried first, for a remainder `r` with a limb taken down.
tried :
    (r b : BigInt) (j top v : ℕ)
    → IsDivisor b
    → length b.a ≡ suc j
    → last b.a ≡ some top
    → 0 < top
    → IsNatural r v
    → v < value b.a * base
    → (v < value b.a * (estimate r.a (length b.a) top + 1))
      × (estimate r.a (length b.a) top < 2 * base)
      × (length r.a ≤ length b.a + 1)
unfolding estimate
tried r b j top v d len e above_zero i small =
    let limit : value b.a < base ^ length b.a = value_below b.a d.canonical.limbs in
    let one_more : base ^ suc (length b.a) ≡ base * base ^ length b.a = base_pow (length b.a) in
    let short : length r.a ≤ suc (length b.a) =
      length_of_value r.a (suc (length b.a)) i.canonical.limbs i.canonical.trimmed
        (rw one_more (omega (arith, i.valued, small, limit))) in
    let lead : Leads (top_two j r.a) (base ^ j) v =
      rw (← i.valued) (top_two-Leads j r.a (omega (arith, short, len)) i.canonical.limbs) in
    let less_one : suc j - 1 ≡ j = omega arith in
    let (above, held) =
      estimate_lem v (value b.a) top (top_two j r.a) (base ^ j) above_zero
        (last-Leads j b.a top len d.canonical.limbs e) lead small in
    rw (len, less_one) (above, held, omega (arith, short, len))

digit_le : (t : ℕ) → t < 2 * base → t + 1 ≤ 2 * base
digit_le t h = omega (arith, h)

as_int_lem : (t : ℕ) → t < 2 * base → as_int t ≡ some t
unfolding as_int
as_int_lem t h = let fits : ltb t (2 ^ 31) ≡ true = ground arith in rw fits refl

-- After the first subtraction.
between :
    (t : ℕ) (r1 r2 p b : BigInt) (total : ℕ)
    → 0 < value b.a
    → IsNatural r1 total
    → IsNatural p (value b.a * t)
    → total < value b.a * (t + 1)
    → IsCanonical r2
    → to_ℤ r2 ≡ to_ℤ r1 -ℤ to_ℤ p
    → IsBetween t r2 b total
between t r1 r2 p b total above_zero n1 np above c diff =
    let a1 : to_ℤ r1 ≡ pos total = rw (n1.positive, n1.valued) refl in
    let a2 : to_ℤ p ≡ pos (value b.a * t) = rw (np.positive, np.valued) refl in
    let eq : to_ℤ r2 ≡ pos total -ℤ pos (value b.a * t) = rw (diff, a1, a2) refl in
    let (below, splits) =
      subtracted_parts total (value b.a * t) (value b.a) above_zero (omega (arith, above)) in
    record { canonical = c; below = rw eq below; splits = rw eq (omega (arith, splits)) }

-- For a remainder below the divisor and one more limb, the body ends with the digit and the new
-- remainder.
pub divide_limb_lem :
    (x : ℕ) (r b : BigInt) (j top v : ℕ)
    → x < base
    → IsDivisor b
    → length b.a ≡ suc j
    → last b.a ≡ some top
    → 0 < top
    → IsNatural r v
    → v < value b.a
    → (q : ℕ) × (r' : BigInt) × (divide_limb x r b top ≡ some (q, r'))
      × IsDigit (v * base + x) q r' b
unfolding divide_limb
divide_limb_lem x r b j top v h d len e above_zero i small =
    let short0 = natural_short r v (length b.a) i ((divisor_powers b v d).0 small) in
    let n0 = mul_int-IsNatural r base v (omega arith) (omega (arith, short0, d.room)) i in
    let nx = of_int-IsNatural x h in
    let short1 =
      natural_short (mul_int r base plus) (v * base) (length b.a + 1) n0
        ((divisor_powers b (v * base) d).1 (omega (arith, small))) in
    let short2 = natural_short (of_int x plus) x 1 nx (omega (arith, h)) in
    let (r1, run1, n1) =
      plus_op-IsNatural (mul_int r base plus) (of_int x plus) (v * base) x n0 nx
        (omega (arith, short1, short2, d.room)) in
    let (above, held, short) =
      tried r1 b j top (v * base + x) d len e above_zero n1 (omega (arith, small, h)) in
    let t = estimate r1.a (length b.a) top in
    let fits : as_int t ≡ some t = as_int_lem t held in
    let product =
      mul_int-IsNatural b t (value b.a) (omega (arith, held)) (omega (arith, d.room))
        (record { canonical = d.canonical; positive = d.positive; valued = refl }) in
    let times : value b.a * t < value b.a * (2 * base) =
      omega (arith, small, mul-le-mul_left (value b.a) (digit_le t held)) in
    let short3 =
      natural_short (mul_int b t plus) (value b.a * t) (length b.a + 2) product
        ((divisor_powers b (value b.a * t) d).2 times) in
    let (r2, run2, diff) = to_ℤ-minus_op r1 (mul_int b t plus) n1.canonical product.canonical in
    let c2 =
      minus_op-IsCanonical r1 (mul_int b t plus) r2 n1.canonical product.canonical
        (omega (arith, short, short3, d.room)) run2 in
    let (q, r', run, end) = lower_lem t r2 b (v * base + x) d held (
      between t r1 r2 (mul_int b t plus) b (v * base + x) (omega (arith, small)) n1 product above c2
        diff) in
    (
      q,
      r',
      then_some-some _ _ r1 _ run1 (then_some-some _ _ t _ fits (then_some-some _ _ r2 _ run2 run)),
      end,
    )
