-- ===== src/BigInt/Product/Karatsuba.antt =====
-- Karatsuba's method gives the product by rows (StateDatabase/bigint.h).
use state_db.Base.{
  ℕ, zero, suc, ◌+◌, ◌*◌, ◌/◌, ◌^◌, ◌≤◌, ◌<◌, ◌≡◌, refl, true, false, Option, some, List, leb,
  length, take, drop, arith, ap, ◌∙◌, Bool-cases, inl, inr,
}
use native.Mathlib.Nat.{pow-suc}
use state_db.BigInt.Product.{add_all, school, karatsuba_multiply, karatsuba_body}
use state_db.BigInt.Product.Digits.{pow_zero, AreBelow}
use state_db.BigInt.Product.Power.{IsPower}
use state_db.BigInt.Product.School.{eval-school, eval-add_all}
use state_db.BigInt.Product.Level.{half, rest, combine-school}

-- A power of two above 32 is twice another one.
halves :
    (j n : ℕ)
    → n ≡ 2 ^ j
    → leb n 32 ≡ false
    → (i : ℕ) × (j ≡ suc i) × (n / 2 ≡ 2 ^ i) × (n ≡ n / 2 + n / 2)
halves zero n e h = absurd (ground (arith, e, pow_zero 2))
halves (suc i) n e h =
    let double = pow-suc 2 i in
    let twice : n ≡ 2 * 2 ^ i = omega (arith, e, double) in
    (i, refl, omega (arith, twice), omega (arith, twice))

-- The product of two vectors of one length, a power of two, is the one by rows.
Multiplies : (List ℕ → List ℕ → Option (List ℕ)) → ℕ → Type 0
Multiplies product fuel =
    (i : ℕ) (x y : List ℕ)
    → i < fuel
    → length x ≡ 2 ^ i
    → length y ≡ 2 ^ i
    → product x y ≡ some (school x y)

sum_size : (k : ℕ) (xs ys : List ℕ) → length xs ≡ k → length ys ≡ k → length (add_all xs ys) ≡ k
sum_size k xs ys p q = omega (arith, p, (eval-add_all 1 xs ys (omega (arith, p, q))).1)

karatsuba_step :
    (product : List ℕ → List ℕ → Option (List ℕ)) (fuel i k : ℕ) (a b : List ℕ)
    → Multiplies product fuel
    → i < fuel
    → k ≡ 2 ^ i
    → length a / 2 ≡ k
    → length a ≡ k + k
    → length b ≡ k + k
    → karatsuba_body product a b false ≡ some (school a b)
unfolding Multiplies
karatsuba_step product fuel i k a b ih less p e la lb =
    let low = ih i (take k a) (take k b) less (half k a la ∙ p) (half k b lb ∙ p) in
    let high = ih i (drop k a) (drop k b) less (rest k a la ∙ p) (rest k b lb ∙ p) in
    let mixed =
      ih i (add_all (drop k a) (take k a)) (add_all (drop k b) (take k b)) less
        (sum_size k (drop k a) (take k a) (rest k a la) (half k a la) ∙ p)
        (sum_size k (drop k b) (take k b) (rest k b lb) (half k b lb) ∙ p) in
    rw (e, low, high, mixed, la) (ap (λ (l : List ℕ). some l) (combine-school k a b la lb))

karatsuba_cases :
    (product : List ℕ → List ℕ → Option (List ℕ)) (fuel j : ℕ) (a b : List ℕ)
    → Multiplies product fuel
    → j ≤ fuel
    → length a ≡ 2 ^ j
    → length b ≡ 2 ^ j
    → karatsuba_body product a b (leb (length a) 32) ≡ some (school a b)
karatsuba_cases product fuel j a b ih h la lb = elim (Bool-cases (leb (length a) 32)) [
  | inl small ↦ ap (karatsuba_body product a b) small
  | inr big ↦
      let (i, s, e, d) = halves j (length a) la big in
      ap (karatsuba_body product a b) big
      ∙ karatsuba_step product fuel i (length a / 2) a b ih (omega (arith, h, s)) e refl d
          (omega (arith, la, lb, d))
]

karatsuba_multiply-Multiplies : (fuel : ℕ) → Multiplies (karatsuba_multiply fuel) fuel
unfolding Multiplies karatsuba_multiply
karatsuba_multiply-Multiplies zero i x y h lx ly = absurd (omega arith)
karatsuba_multiply-Multiplies (suc fuel) i x y h lx ly =
    karatsuba_cases (karatsuba_multiply fuel) fuel i x y (karatsuba_multiply-Multiplies fuel)
      (omega arith) lx ly

-- The same over unbounded coefficients.
karatsuba_multiply_lem :
    (j fuel : ℕ) (a b : List ℕ)
    → j < fuel
    → length a ≡ 2 ^ j
    → length b ≡ 2 ^ j
    → (karatsuba_multiply fuel a b ≡ some (school a b)) × (length (school a b) ≡ 2 * length a)
unfolding Multiplies
karatsuba_multiply_lem j fuel a b h la lb = (
  karatsuba_multiply-Multiplies fuel j a b h la lb,
  omega (arith, (eval-school 1 a b (omega (arith, la, lb))).1),
)

-- On two vectors of limbs below a million, whose length is one power of two of at most 4096, with fuel
-- for the halvings, `karatsubaMultiply` gives exactly the coefficients of the product by rows, which
-- are twice as many.
pub karatsuba_multiply-school :
    (j fuel : ℕ) (a b : List ℕ)
    → j ≤ 12
    → j < fuel
    → AreBelow 1_000_000 a
    → AreBelow 1_000_000 b
    → length a ≡ 2 ^ j
    → length b ≡ 2 ^ j
    → (karatsuba_multiply fuel a b ≡ some (school a b)) × (length (school a b) ≡ 2 * length a)
karatsuba_multiply-school j fuel a b fits h da db la lb = karatsuba_multiply_lem j fuel a b h la lb

low_exponent : (j : ℕ) → j < 2 ^ j
low_exponent zero = omega (arith, pow_zero 2)
low_exponent (suc j) = omega (arith, low_exponent j, pow-suc 2 j)

no_limbs :
    (fuel : ℕ) (a b : List ℕ) → length a ≡ 0 → karatsuba_multiply (suc fuel) a b ≡ some (school a b)
unfolding karatsuba_multiply
no_limbs fuel a b e =
    let small : leb (length a) 32 ≡ true = ground (arith, e) in
    ap (karatsuba_body (karatsuba_multiply fuel) a b) small

-- The fuel that `operator*` gives is enough.
pub karatsuba_multiply-IsPower :
    (a b : List ℕ)
    → length b ≡ length a
    → IsPower (length a)
    → karatsuba_multiply (suc (length a)) a b ≡ some (school a b)
karatsuba_multiply-IsPower a b l (inl e) = no_limbs (length a) a b e
karatsuba_multiply-IsPower a b l (inr (j, e)) =
    (karatsuba_multiply_lem j (suc (length a)) a b (omega (arith, e, low_exponent j)) e (l ∙ e)).0
