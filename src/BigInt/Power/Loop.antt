-- ===== src/BigInt/Power/Loop.antt =====
-- `operator^` of two `bigint`s (StateDatabase/bigint.h) ends with the power.
use native.Mathlib.Nat.{pow-zero, pow-succ', one-le-pow}
use state_db.Base.{
  ℕ, zero, suc, ◌+◌, ◌*◌, ◌%◌, ◌^◌, ◌≤◌, ◌<◌, ◌≡◌, refl, some, arith, ap, ◌∙◌, sym, ◌==◌,
  if◌then◌else◌, Bool-cases, inl, inr,
}
use state_db.BigInt.{BigInt, Sign, plus, minus, base, is_zero, mod_int, div_int, of_int}
use state_db.BigInt.Value.{value}
use state_db.BigInt.Order.{IsCanonical, signed, to_ℤ}
use state_db.BigInt.Scale.{div_int-mod_int}
use state_db.BigInt.Division.Limb.{then_some-some}
use state_db.BigInt.Division.Long.{div_int-IsCanonical}
use state_db.BigInt.Division.Natural.{of_int-IsNatural}
use state_db.BigInt.Division.Gcd.{is_zero-value, nonzero_length}
use state_db.BigInt.Division.Quotient.{positive_length}
use state_db.BigInt.Product.{times}
use state_db.BigInt.Product.Digits.{pow_add}
use state_db.BigInt.Product.Signed.{
  IsSigned, own-IsSigned, moved-IsSigned, product_sign, times-IsSigned, to_ℤ-IsSigned,
}
use state_db.BigInt.Power.{take_bit, power_loop, power}

-- The exponent in halves: a rest of 0 or 1, and the power of the square.
pow_square : (v k : ℕ) → (v * v) ^ k ≡ v ^ k * v ^ k
pow_square v zero = rw (pow-zero (v * v), pow-zero v) refl
pow_square v (suc k) = rw (pow-succ' (v * v) k, pow-succ' v k, pow_square v k) (omega arith)

pow_halves : (v q r : ℕ) → v ^ (2 * q + r) ≡ (v * v) ^ q * v ^ r
pow_halves v q r =
    let twice : 2 * q + r ≡ q + q + r = omega arith in
    rw (twice, pow_add v (q + q) r, pow_add v q q, pow_square v q) refl

grows : (p r : ℕ) → 1 ≤ r → p ≤ p * r
grows p zero h = absurd (omega (arith, h))
grows p (suc r) h = omega arith

pow_one : (v : ℕ) → v ^ 1 ≡ v
pow_one v = pow-succ' v 0 ∙ rw (pow-zero v) (omega arith)

square_pos : (v : ℕ) → 0 < v → 0 < v * v
square_pos zero h = absurd (omega (arith, h))
square_pos (suc v) h = omega arith

-- What the loop has under the limit after a step.
square_below : (v q r limit : ℕ) → 1 < limit → v ^ (2 * q + r) < limit → (v * v) ^ q < limit
square_below zero zero r limit one h = omega (arith, one, pow-zero 0)
square_below zero (suc q) r limit one h = omega (arith, one, pow-succ' 0 q)
square_below (suc v) q r limit one h =
    let more = grows ((suc v * suc v) ^ q) (suc v ^ r) (one-le-pow r (suc v) (omega arith)) in
    omega (arith, h, pow_halves (suc v) q r, more)

product_below : (u v p limit : ℕ) → 1 < limit → (0 < v → 0 < p) → u * v * p < limit → u * v < limit
product_below u zero p limit one h k = omega (arith, one)
product_below u (suc v) zero limit one h k = absurd (omega (arith, h (omega arith)))
product_below u (suc v) (suc p) limit one h k = omega (arith, k)

base_below : (v e limit : ℕ) → 1 < limit → 0 < e → v ^ e < limit → v < limit
base_below zero e limit one pos h = omega (arith, one)
base_below (suc v) zero limit one pos h = absurd (omega (arith, pos))
base_below (suc v) (suc e) limit one pos h =
    let more = grows (suc v) (suc v ^ e) (one-le-pow e (suc v) (omega arith)) in
    omega (arith, h, pow-succ' (suc v) e, more)

-- An even power of a number is not negative.
abbrev pub power_sign : Sign → ℕ → Sign
power_sign s e = if e % 2 == 0 then plus else s

product_plus : (s : Sign) → product_sign s plus ≡ s
product_plus plus = refl
product_plus minus = refl

plus_product : (s : Sign) → product_sign plus s ≡ s
plus_product plus = refl
plus_product minus = refl

square_sign : (s : Sign) → product_sign s s ≡ plus
square_sign plus = refl
square_sign minus = refl

power_plus : (e : ℕ) → power_sign plus e ≡ plus
power_plus e = ground arith

-- A number that the conditional product leaves, of sign `t` and magnitude `u`, times the rest of the
-- power is the whole.
abbrev IsTaken : Sign → ℕ → Sign → ℕ → ℕ → ℕ → BigInt → Type 0
IsTaken t u s v q e ans' =
    (t' : Sign) × (u' : ℕ) × IsSigned ans' t' u'
    × (u' * (v * v) ^ q ≡ u * v ^ e)
    × (t' ≡ product_sign t (power_sign s e))
    × (u' < base ^ 1365)

one_below : 1 < base ^ 1365
one_below = omega arith

take_bit_even :
    (ans a b : BigInt) (t s : Sign) (u v q e : ℕ)
    → IsSigned ans t u
    → u < base ^ 1365
    → e ≡ 2 * q + (mod_int b 2).1
    → (mod_int b 2).1 ≡ 0
    → (ans' : BigInt) × (take_bit ans a b ≡ some ans') × IsTaken t u s v q e ans'
unfolding take_bit
take_bit_even ans a b t s u v q e i hu split z =
    let whole : e ≡ 2 * q + 0 = split ∙ ap (λ (r : ℕ). 2 * q + r) z in
    let even : e % 2 ≡ 0 = omega (arith, whole) in
    let value_ : u * (v * v) ^ q ≡ u * v ^ e =
      rw (whole, pow_halves v q 0, pow-zero v) (omega arith) in
    (ans, rw z refl, (t, u, i, value_, rw even (sym (product_plus t)), hu))

take_bit_odd :
    (ans a b : BigInt) (t s : Sign) (u v q e : ℕ)
    → IsSigned ans t u
    → IsSigned a s v
    → u < base ^ 1365
    → v < base ^ 1365
    → u * v ^ e < base ^ 1365
    → e ≡ 2 * q + (mod_int b 2).1
    → (mod_int b 2).1 ≡ 1
    → (ans' : BigInt) × (take_bit ans a b ≡ some ans') × IsTaken t u s v q e ans'
unfolding take_bit
take_bit_odd ans a b t s u v q e i j hu hv below split z =
    let (r, run, k) = times-IsSigned ans a t s u v i j hu hv in
    let whole : e ≡ 2 * q + 1 = split ∙ ap (λ (r : ℕ). 2 * q + r) z in
    let odd : e % 2 ≡ 1 = omega (arith, whole) in
    let power : v ^ e ≡ (v * v) ^ q * v =
      ap (λ (n : ℕ). v ^ n) whole
      ∙ pow_halves v q 1
      ∙ ap (λ (n : ℕ). (v * v) ^ q * n) (pow_one v) in
    let value_ : u * v * (v * v) ^ q ≡ u * v ^ e = omega (arith, ap (λ (n : ℕ). u * n) power) in
    let room =
      product_below u v ((v * v) ^ q) (base ^ 1365) one_below
        (λ h. one-le-pow q (v * v) (square_pos v h)) (rw value_ below) in
    (r, rw z run, (product_sign t s, u * v, k, value_, rw odd refl, room))

take_bit_lem :
    (ans a b : BigInt) (t s : Sign) (u v q e : ℕ)
    → IsSigned ans t u
    → IsSigned a s v
    → u < base ^ 1365
    → v < base ^ 1365
    → u * v ^ e < base ^ 1365
    → e ≡ 2 * q + (mod_int b 2).1
    → (mod_int b 2).1 < 2
    → (ans' : BigInt) × (take_bit ans a b ≡ some ans') × IsTaken t u s v q e ans'
take_bit_lem ans a b t s u v q e i j hu hv below split low =
    elim (Bool-cases ((mod_int b 2).1 == 0)) [
      | inl z ↦ take_bit_even ans a b t s u v q e i hu split (ground (arith, z))
      | inr z ↦ take_bit_odd ans a b t s u v q e i j hu hv below split (ground (arith, z, low))
    ]

power_loop_lem :
    (fuel : ℕ) (ans a b : BigInt) (t s : Sign) (u v e : ℕ)
    → IsSigned ans t u
    → IsSigned a s v
    → IsCanonical b
    → value b.a ≡ e
    → e < fuel
    → u < base ^ 1365
    → v ^ e < base ^ 1365
    → u * v ^ e < base ^ 1365
    → (r : BigInt) × (power_loop fuel ans a b ≡ some r)
      × IsSigned r (product_sign t (power_sign s e)) (u * v ^ e)
unfolding power_loop
power_loop_lem zero ans a b t s u v e i j c same h hu hv below = absurd (omega (arith, h))
power_loop_lem (suc fuel) ans a b t s u v e i j c same h hu hv below =
    elim (Bool-cases (is_zero b)) [
      | inl z ↦
          let none_left : e ≡ 0 = sym same ∙ is_zero-value b c z in
          (
            ans,
            rw z refl,
            rw (none_left, pow-zero v, product_plus t)
                (moved-IsSigned ans t t u (u * 1) i refl (omega arith)),
          )
      | inr z ↦
          let b' = div_int b 2 plus in
          let (split, low, _, _) = div_int-mod_int b 2 plus (omega arith) in
          let halves : e ≡ 2 * value b'.a + (mod_int b 2).1 = sym same ∙ split in
          let some_left : 0 < e = rw (← same) (positive_length b c (nonzero_length b z)) in
          let room = base_below v e (base ^ 1365) one_below some_left hv in
          let (ans', run, (t', u', i', whole, sign, hu')) =
            take_bit_lem ans a b t s u v (value b'.a) e i j hu room below halves low in
          let (a', run', square) = times-IsSigned a a s s v v j j room room in
          let j' =
            moved-IsSigned a' (product_sign s s) plus (v * v) (v * v) square (square_sign s) refl in
          let (r, run'', k) =
            power_loop_lem fuel ans' a' b' t' plus u' (v * v) (value b'.a) i' j'
              (div_int-IsCanonical b 2 plus (omega arith) c) refl
              (omega (arith, halves, some_left, h)) hu'
              (square_below v (value b'.a) (mod_int b 2).1 (base ^ 1365) one_below
                (rw (← halves) hv))
              (rw whole below) in
          (
            r,
            rw z (
                then_some-some (take_bit ans a b) _ ans' _ run
                  (then_some-some (times a a) _ a' _ run' run'')),
            moved-IsSigned r (product_sign t' (power_sign plus (value b'.a)))
                (product_sign t (power_sign s e)) (u' * (v * v) ^ value b'.a) (u * v ^ e) k
                (ap (product_sign t') (power_plus (value b'.a)) ∙ product_plus t' ∙ sign) whole,
          )
    ]

one-IsSigned : IsSigned (of_int 1 plus) plus 1
one-IsSigned =
    let i = of_int-IsNatural 1 (omega arith) in
    moved-IsSigned (of_int 1 plus) (of_int 1 plus).sign plus (value (of_int 1 plus).a) 1
      (own-IsSigned (of_int 1 plus) i.canonical) i.positive i.valued

-- `operator^` on canonical numbers, whose power has a magnitude below `base ^ 1365`, ends on fuel
-- above the magnitude of the exponent. The result is the power by the magnitude of the exponent,
-- whatever its sign: it is negative where the base is negative and the exponent is odd.
pub to_ℤ-power :
    (fuel : ℕ) (m n : BigInt)
    → IsCanonical m
    → IsCanonical n
    → value n.a < fuel
    → value m.a ^ value n.a < base ^ 1365
    → (r : BigInt) × (power fuel m n ≡ some r)
      × (to_ℤ r ≡ signed (if value n.a % 2 == 0 then plus else m.sign) (value m.a ^ value n.a))
unfolding power
to_ℤ-power fuel m n cm cn h below =
    let (r, run, i) =
      power_loop_lem fuel (of_int 1 plus) m n plus m.sign 1 (value m.a) (value n.a) one-IsSigned
        (own-IsSigned m cm) cn refl h one_below below (omega (arith, below)) in
    let s = power_sign m.sign (value n.a) in
    let v = value m.a ^ value n.a in
    (
      r,
      run,
      to_ℤ-IsSigned r s v
          (moved-IsSigned r (product_sign plus s) s (1 * v) v i (plus_product s) (omega arith)),
    )
