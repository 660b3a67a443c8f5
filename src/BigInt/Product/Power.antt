-- ===== src/BigInt/Product/Power.antt =====
-- The lengths at which the loop of `operator*` stops to push zeros: powers of two
-- (StateDatabase/bigint.h).
use Prim.Native.Nat.{min, bit_and, digits, bit_and-bitwise}
use native.Mathlib.Nat.{pow-suc}
use state_db.Base.{
  ℕ, zero, suc, ◌+◌, ◌-◌, ◌*◌, ◌/◌, ◌%◌, ◌^◌, ◌≤◌, ◌<◌, ◌≡◌, ◌≢◌, ◌⊎◌, refl, true, false, some,
  List, [], ◌∷◌, ◌++◌, ◌==◌, length, replicate, arith, ap, ◌∙◌, sym, Bool-cases, inl, inr,
  length-append, leb, append-nil,
}
use state_db.BigInt.Product.{pad_to_power}
use state_db.BigInt.Product.Digits.{pow_pos, pow_zero}

-- The common binary digits of two numbers, of which the first has at most `n` digits.
abbrev common : ℕ → ℕ → ℕ → ℕ
common n a b = digits (λ b. zero) min n a b

common-zero : (n b : ℕ) → common n 0 b ≡ 0
common-zero zero b = refl
common-zero (suc n) b = refl

common_self : (n a : ℕ) → a ≤ n → common n a a ≡ a
common_self zero zero h = refl
common_self zero (suc a) h = absurd (omega arith)
common_self (suc n) zero h = refl
common_self (suc n) (suc a) h = omega (arith, common_self n (suc a / 2) (omega arith))

-- A number above zero that has no digit in common with the one before it is a power of two.
common_power : (n m : ℕ) → m ≤ n → common n m (m - 1) ≡ 0 → (m ≡ 0) ⊎ ((j : ℕ) × (m ≡ 2 ^ j))
common_power n zero h e = inl refl
common_power zero (suc a) h e = absurd (omega arith)
common_power (suc n) (suc a) h e = elim (Bool-cases (suc a % 2 == 0)) [
  | inl even ↦
      let q = suc a / 2 in
      let before : (suc a - 1) / 2 ≡ q - 1 = ground arith in
      let low : common n q ((suc a - 1) / 2) ≡ 0 = omega (arith, e) in
      elim (common_power n q (omega arith) (ap (common n q) (sym before) ∙ low)) [
        | inl z ↦ absurd (ground (arith, z))
        | inr (j, p) ↦ inr (suc j, ground (arith, p, pow-suc 2 j))
      ]
  | inr odd ↦
      let q = suc a / 2 in
      let before : (suc a - 1) / 2 ≡ q = ground arith in
      let low : common n q ((suc a - 1) / 2) ≡ 0 = omega (arith, e) in
      let none : q ≡ 0 = sym (common_self n q (omega arith)) ∙ ap (common n q) (sym before) ∙ low in
      inr (0, ground (arith, none, pow_zero 2))
]

power_common : (n m j : ℕ) → m ≤ n → m ≡ 2 ^ j → common n m (m - 1) ≡ 0
power_common n zero j h e = absurd (omega (arith, pow_pos 2 j (omega arith)))
power_common zero (suc a) j h e = absurd (omega arith)
power_common (suc n) (suc a) zero h e =
    let one : suc a / 2 ≡ 0 = omega (arith, e, pow_zero 2) in
    omega (
      arith,
      e,
      pow_zero 2,
      ap (λ (t : ℕ). common n t ((suc a - 1) / 2)) one,
      common-zero n ((suc a - 1) / 2),
    )
power_common (suc n) (suc a) (suc j) h e =
    let double = pow-suc 2 j in
    let before : (suc a - 1) / 2 ≡ suc a / 2 - 1 = omega (arith, e, double) in
    let deeper = power_common n (suc a / 2) j (omega arith) (omega (arith, e, double)) in
    omega (arith, e, double, ap (common n (suc a / 2)) before, deeper)

-- Where the loop stops.
abbrev pub IsPower : ℕ → Type 0
IsPower n = (n ≡ 0) ⊎ ((j : ℕ) × (n ≡ 2 ^ j))

stops_at : (n : ℕ) → (bit_and n (n - 1) == 0) ≡ true → IsPower n
stops_at n h =
    let none : bit_and n (n - 1) ≡ 0 = ground arith in
    common_power n n (omega arith) (sym (bit_and-bitwise n (n - 1)) ∙ none)

goes_on : (n j : ℕ) → (bit_and n (n - 1) == 0) ≡ false → n ≢ 2 ^ j
goes_on n j h e =
    let none : bit_and n (n - 1) ≡ 0 =
      bit_and-bitwise n (n - 1) ∙ power_common n n j (omega arith) e in
    ground (arith, none)

push_zero : (xs : List ℕ) (k : ℕ) → (xs ++ 0 ∷ []) ++ replicate k 0 ≡ xs ++ replicate (suc k) 0
push_zero [] k = refl
push_zero (x ∷ xs) k = ap (◌∷◌ x) (push_zero xs k)

pub pad_to_power-IsPower :
    (j fuel : ℕ) (a b : List ℕ)
    → length a ≤ 2 ^ j
    → 2 ^ j < length a + fuel
    → (k : ℕ) × (pad_to_power fuel a b ≡ some (a ++ replicate k 0, b ++ replicate k 0))
      × (length a + k ≤ 2 ^ j)
      × IsPower (length a + k)
unfolding pad_to_power
pad_to_power-IsPower j zero a b le h = absurd (omega arith)
pad_to_power-IsPower j (suc fuel) a b le h =
    let size = length-append {0} a (0 ∷ []) in
    let next = pad_to_power-IsPower j fuel (a ++ 0 ∷ []) (b ++ 0 ∷ []) in
    elim (Bool-cases (bit_and (length a) (length a - 1) == 0)) [
      | inl stop ↦
          let none : length a + 0 ≡ length a = omega arith in
          (
            0,
            rw (stop, append-nil a, append-nil b) refl,
            omega arith,
            rw none (stops_at (length a) stop),
          )
      | inr go ↦
          let other = goes_on (length a) j go in
          let (k, run, small, power) = next (omega (arith, size, other)) (omega (arith, size)) in
          let count : length (a ++ 0 ∷ []) + k ≡ length a + suc k = omega (arith, size) in
          (
            suc k,
            rw (go, run, push_zero a k, push_zero b k) refl,
            omega (arith, count, small),
            rw (← count) power,
          )
    ]

lowest_power : (i n : ℕ) → n ≤ 2 ^ i → (j : ℕ) × (n ≤ 2 ^ j) × (2 ^ j ≤ 2 ^ i) × (2 ^ j ≤ 2 * n + 1)
lowest_power zero n le = (0, le, omega arith, omega (arith, pow_zero 2))
lowest_power (suc i) n le = elim (Bool-cases (leb n (2 ^ i))) [
  | inl b ↦
      let (j, above, small, near) = lowest_power i n (ground arith) in
      (j, above, omega (arith, small, pow-suc 2 i), near)
  | inr b ↦ (suc i, le, omega arith, ground (arith, pow-suc 2 i))
]

-- The lowest power of two that is not below a number up to 2^11.
pub power_above : (n : ℕ) → n ≤ 2048 → (j : ℕ) × (n ≤ 2 ^ j) × (2 ^ j ≤ 2048) × (2 ^ j ≤ 2 * n + 1)
power_above n h = lowest_power 11 n (omega arith)
