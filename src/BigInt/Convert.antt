-- ===== src/BigInt/Convert.antt =====
-- `bigint` from a `long long` (StateDatabase/bigint.h).
use state_db.Base.{
  ℕ, zero, suc, ◌*◌, ◌/◌, ◌%◌, ◌^◌, ◌≤◌, ◌<◌, ◌≡◌, ◌==◌, refl, List, [], ◌∷◌, length, arith, ap,
  Bool-cases, inl, inr,
}
use state_db.BigInt.{Sign, plus, minus, base, push_carry, of_int}
use state_db.BigInt.Value.{value, value-push_carry, base_pow}
use state_db.BigInt.Order.{IsTrimmed, IsCanonical, signed, to_ℤ}

pub length-push_carry : (fuel c : ℕ) → length (push_carry fuel c) ≤ fuel
unfolding push_carry
length-push_carry zero c = omega arith
length-push_carry (suc fuel) c = ground (arith, length-push_carry fuel (c / base))

pub IsTrimmed-cons :
    (x : ℕ) (xs : List ℕ) → IsTrimmed xs → (length xs ≡ 0 → 0 < x) → IsTrimmed (x ∷ xs)
IsTrimmed-cons x [] t h = h refl
IsTrimmed-cons x (y ∷ ys) t h = t

pub empty_value : (xs : List ℕ) → length xs ≡ 0 → value xs ≡ 0
empty_value [] h = refl
empty_value (x ∷ xs) h = absurd (omega arith)

push_carry-IsTrimmed : (fuel c : ℕ) → c < base ^ fuel → IsTrimmed (push_carry fuel c)
unfolding push_carry
push_carry-IsTrimmed zero c h = tt
push_carry-IsTrimmed (suc fuel) c h = elim (Bool-cases (c == 0)) [
  | inl e ↦ rw e tt
  | inr e ↦
      let below : c < base * base ^ fuel = rw (← base_pow fuel) h in
      let small : c / base < base ^ fuel = omega arith in
      let (v, l) = value-push_carry fuel (c / base) small in
      rw e (
        IsTrimmed-cons (c % base) (push_carry fuel (c / base))
          (push_carry-IsTrimmed fuel (c / base) small)
          (λ n.
            let z : c / base ≡ 0 = rw (← v) (empty_value (push_carry fuel (c / base)) n) in
            ground arith))
]

-- The number made from a `long long` of magnitude below 2^63, where only one that is not zero is
-- negative, is canonical and stands for it.
pub of_int-IsCanonical :
    (v : ℕ) (s : Sign)
    → v < 2 ^ 63
    → (s ≡ minus → 0 < v)
    → IsCanonical (of_int v s) × (to_ℤ (of_int v s) ≡ signed s v)
unfolding of_int
of_int-IsCanonical v s h pos =
    let (e, l) = value-push_carry 3 v (omega arith) in
    (
      record {
        limbs = l;
        trimmed = push_carry-IsTrimmed 3 v (omega arith);
        short = omega (arith, length-push_carry 3 v);
        zero_plus =
            λ n. sign_of_zero s (λ m. omega (arith, pos m, e, empty_value (push_carry 3 v) n));
      },
      ap (signed s) e,
    )
  where
    sign_of_zero : (t : Sign) → ¬ (t ≡ minus) → t ≡ plus
    sign_of_zero plus f = refl
    sign_of_zero minus f = absurd (f refl)
