-- ===== src/BigInt/Division/Estimate.antt =====
-- The two highest limbs give a digit that is never too small, and that an `int` holds
-- (StateDatabase/bigint.h).
use state_db.Base.{
  ℕ, zero, suc, ◌+◌, ◌*◌, ◌/◌, ◌^◌, ◌≤◌, ◌<◌, ◌≡◌, refl, some, List, [], ◌∷◌, length, get_or, arith,
  Bool-cases, inl, inr, ltb, ltb→lt,
}
use native.Mathlib.Nat.{div-add-mod, mod-lt, mul-le-mul_left, lt_of_mul-lt-mul_left}
use state_db.BigInt.{base}
use state_db.BigInt.Value.{value, IsLimbs, base_pow}
use state_db.BigInt.Order.{IsTrimmed}
use state_db.BigInt.Division.{last}

pub base_pow_pos : (n : ℕ) → 0 < base ^ n
base_pow_pos zero = omega arith
base_pow_pos (suc n) = omega (arith, base_pow n, base_pow_pos n)

-- The limbs `j` and `j + 1`, as a number.
abbrev pub top_two : ℕ → List ℕ → ℕ
top_two j xs = base * get_or xs (suc j) 0 + get_or xs j 0

-- The limbs below `j` count for less than one at `j`.
abbrev pub Leads : ℕ → ℕ → ℕ → Type 0
Leads t p v = (t * p ≤ v) × (v < (t + 1) * p)

Leads-step : (t p v x : ℕ) → x < base → Leads t p v → Leads t (base * p) (x + base * v)
Leads-step t p v x h l = (omega (arith, l.0), omega (arith, l.1))

pub top_two-Leads :
    (j : ℕ) (xs : List ℕ)
    → length xs ≤ j + 2
    → IsLimbs xs
    → Leads (top_two j xs) (base ^ j) (value xs)
top_two-Leads zero [] h l = (omega arith, omega arith)
top_two-Leads zero (x ∷ []) h l = (omega arith, omega arith)
top_two-Leads zero (x ∷ y ∷ []) h l = (omega arith, omega arith)
top_two-Leads zero (x ∷ y ∷ z ∷ zs) h l = absurd (omega arith)
top_two-Leads (suc j) [] h l = (omega arith, omega (arith, base_pow_pos (suc j)))
top_two-Leads (suc j) (x ∷ xs) h l =
    rw (base_pow j)
      (Leads-step (top_two j xs) (base ^ j) (value xs) x l.0 (top_two-Leads j xs (omega arith) l.1))

pub last-Leads :
    (j : ℕ) (xs : List ℕ) (t : ℕ)
    → length xs ≡ suc j
    → IsLimbs xs
    → last xs ≡ some t
    → Leads t (base ^ j) (value xs)
unfolding last
last-Leads j [] t h l e = absurd (omega (arith, h))
last-Leads zero (x ∷ []) t h l e =
    let same : x ≡ t = ground (arith, e) in (omega (arith, same), omega (arith, same))
last-Leads (suc j) (x ∷ []) t h l e = absurd (omega (arith, h))
last-Leads zero (x ∷ y ∷ ys) t h l e = absurd (omega (arith, h))
last-Leads (suc j) (x ∷ y ∷ ys) t h l e = rw (base_pow j) (
    Leads-step t (base ^ j) (value (y ∷ ys)) x l.0
      (last-Leads j (y ∷ ys) t (omega (arith, h)) l.1 e))

-- The last limb of a number that is not empty; it is not zero where the number is trimmed.
pub last_lem :
    (x : ℕ) (xs : List ℕ) → IsTrimmed (x ∷ xs) → (t : ℕ) × (last (x ∷ xs) ≡ some t) × (0 < t)
unfolding last
last_lem x [] h = (x, refl, h)
last_lem x (y ∷ ys) h = last_lem y ys h

-- A quotient of the highest limbs is never below the digit, and below twice the base.
pub estimate_lem :
    (r b t s p : ℕ)
    → 0 < t
    → Leads t p b
    → Leads s p r
    → r < b * base
    → (r < b * (s / t + 1)) × (s / t < 2 * base)
estimate_lem r b t s p pos lb lr small =
    let above : s + 1 ≤ t * (s / t + 1) = omega (arith, div-add-mod s t, mod-lt s pos) in
    let scaled : p * (s + 1) ≤ p * (t * (s / t + 1)) = mul-le-mul_left p above in
    let whole : (s / t + 1) * (t * p) ≤ (s / t + 1) * b = mul-le-mul_left (s / t + 1) lb.0 in
    let under : p * s < p * ((t + 1) * base) = omega (arith, lr.0, small, lb.1) in
    let below : s < (t + 1) * base = lt_of_mul-lt-mul_left p under in
    (
      omega (arith, lr.1, scaled, whole),
      elim (Bool-cases (ltb (s / t) (2 * base))) [
        | inl lt ↦ ltb→lt (s / t) (2 * base) lt
        | inr ge ↦
            let le : 2 * base ≤ s / t = ground arith in
            let many : t * (2 * base) ≤ t * (s / t) = mul-le-mul_left t le in
            absurd (omega (arith, div-add-mod s t, many, below))
      ],
    )
