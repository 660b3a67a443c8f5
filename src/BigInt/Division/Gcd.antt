-- ===== src/BigInt/Division/Gcd.antt =====
-- `gcd` of `bigint` (StateDatabase/bigint.h) ends, and returns the greatest common divisor.
use state_db.Base.{
  ℕ, zero, suc, ◌+◌, ◌-◌, ◌*◌, ◌^◌, ◌≤◌, ◌<◌, ◌≡◌, refl, Bool, true, false, some, List, [], ◌∷◌,
  length, arith, ap, ◌∙◌, Bool-cases, inl, inr, ltb, ltb→lt,
}
use native.Mathlib.Nat.{mul-le-mul_left}
use state_db.BigInt.{BigInt, is_zero}
use state_db.BigInt.Value.{value}
use state_db.BigInt.Order.{IsCanonical}
use state_db.BigInt.Division.{modulo, gcd, gcd_step}
use state_db.BigInt.Division.Digit.{length_of_value, value_below}
use state_db.BigInt.Division.Limb.{then_some-some}
use state_db.BigInt.Division.Quotient.{divmod-IsQuotient}

-- `d` divides `v`.
abbrev pub IsDivisorOf : ℕ → ℕ → Type 0
IsDivisorOf d v = (k : ℕ) × (k * d ≡ v)

-- `g` divides both, and whatever divides both divides `g`, also where all three are multiplied by the
-- same number.
pub record IsGcd (a b g : ℕ) : Type 0 where
  pub left : IsDivisorOf g a
  pub right : IsDivisorOf g b
  pub greatest : (d : ℕ) → IsDivisorOf d a → IsDivisorOf d b → IsDivisorOf d g
  pub scaled : (c d : ℕ) → IsDivisorOf d (a * c) → IsDivisorOf d (b * c) → IsDivisorOf d (g * c)

divides_sum : (d q b r : ℕ) → IsDivisorOf d b → IsDivisorOf d r → IsDivisorOf d (q * b + r)
divides_sum d q b r (k, e) (l, f) = (q * k + l, omega (arith, f, ap (λ (t : ℕ). q * t) e))

pub divides_rest :
    (d q a b r : ℕ) → a ≡ q * b + r → IsDivisorOf d a → IsDivisorOf d b → IsDivisorOf d r
divides_rest d q a b r e (k, f) (l, g) =
    let part : q * (l * d) ≡ q * b = ap (λ (t : ℕ). q * t) g in
    elim (Bool-cases (ltb k (q * l))) [
      | inr ge ↦
          let rest : q * l + (k - q * l) ≡ k = ground arith in
          let scaled : (q * l + (k - q * l)) * d ≡ k * d = ap (λ (t : ℕ). t * d) rest in
          (k - q * l, omega (arith, scaled, part, e, f))
      | inl lt ↦
          let more : d * suc k ≤ d * (q * l) = mul-le-mul_left d (ltb→lt k (q * l) lt) in
          (0, omega (arith, more, part, e, f))
    ]

times_step : (a b q r c : ℕ) → a ≡ q * b + r → a * c ≡ q * (b * c) + r * c
times_step a b q r c e = rw e (omega arith)

-- One step of Euclid's algorithm.
step-IsGcd : (a b q r g : ℕ) → a ≡ q * b + r → IsGcd b r g → IsGcd a b g
step-IsGcd a b q r g e h = record {
  left = rw e (divides_sum g q b r h.left h.right);
  right = h.left;
  greatest = λ d x y. h.greatest d y (divides_rest d q a b r e x y);
  scaled = λ c d x y.
      h.scaled c d y (divides_rest d q (a * c) (b * c) (r * c) (times_step a b q r c e) x y);
}

pub is_zero-value : (n : BigInt) → IsCanonical n → is_zero n ≡ true → value n.a ≡ 0
unfolding is_zero
is_zero-value n c e = go n.a e
  where
    go : (xs : List ℕ) → is_zero (record n { a = xs }) ≡ true → value xs ≡ 0
    go [] e = refl
    go (x ∷ []) e = ground (arith, e)
    go (x ∷ y ∷ ys) e = ground (arith, e)

pub nonzero_length : (n : BigInt) → is_zero n ≡ false → 0 < length n.a
unfolding is_zero
nonzero_length n e = go n.a e
  where
    go : (xs : List ℕ) → is_zero (record n { a = xs }) ≡ false → 0 < length xs
    go [] e = cc
    go (x ∷ xs) e = omega arith

-- The remainder is no longer than the divisor.
remainder_short :
    (n r : BigInt) → IsCanonical n → IsCanonical r → value r.a < value n.a → length r.a ≤ length n.a
remainder_short n r cn cr h =
    length_of_value r.a (length n.a) cr.limbs cr.trimmed
      (omega (arith, h, value_below n.a cn.limbs))

zero-IsGcd : (a : ℕ) → IsGcd a 0 a
zero-IsGcd a = record {
  left = (1, omega arith);
  right = (0, omega arith);
  greatest = λ d x y. x;
  scaled = λ c d x y. x;
}

-- For canonical numbers of fewer than 2^27 limbs, and more fuel than the magnitude of the
-- second, `gcd` ends, and returns a canonical number whose magnitude divides both magnitudes and is
-- divided by every number that divides both. What divides a multiple of the one and the same
-- multiple of the other divides that multiple of the result.
pub gcd-IsGcd :
    (fuel : ℕ) (m n : BigInt)
    → IsCanonical m
    → IsCanonical n
    → length m.a < 2 ^ 27
    → length n.a < 2 ^ 27
    → value n.a < fuel
    → (g : BigInt) × (gcd fuel m n ≡ some g)
      × IsCanonical g
      × IsGcd (value m.a) (value n.a) (value g.a)
unfolding gcd modulo
gcd-IsGcd zero m n cm cn hm hn h = absurd (omega (arith, h))
gcd-IsGcd (suc fuel) m n cm cn hm hn h = elim (Bool-cases (is_zero n)) [
  | inl z ↦ (
    m,
    ap (λ (t : Bool). gcd_step m t (modulo m n) (gcd fuel n)) z,
    cm,
    rw (is_zero-value n cn z) (zero-IsGcd (value m.a)),
  )
  | inr z ↦
      let (q, r, run, d) = divmod-IsQuotient m n cm cn hm hn (nonzero_length n z) in
      let short = remainder_short n r cn d.remainder d.below in
      let (g, run', cg, is) =
        gcd-IsGcd fuel n r cn d.remainder hn (omega (arith, short, hn))
          (omega (arith, h, d.below)) in
      (
        g,
        ap (λ (t : Bool). gcd_step m t (modulo m n) (gcd fuel n)) z
            ∙ then_some-some _ _ r _ (then_some-some _ _ (q, r) _ run refl) run',
        cg,
        step-IsGcd (value m.a) (value n.a) (value q.a) (value r.a) (value g.a) d.whole is,
      )
]
