-- ===== src/BigInt/Closed.antt =====
-- The operations of `bigint` (StateDatabase/bigint.h) give canonical numbers.
use state_db.Base.{ℕ, suc, ◌+◌, ◌^◌, ◌≤◌, ◌<◌, ◌≡◌, refl, List, [], ◌∷◌, length, arith}
use state_db.BigInt.{
  BigInt, Sign, base, plus, trim, trim_limbs, drop_zero, sign_of_limbs, add_loop, carry_limb,
  carry_out,
}
use state_db.BigInt.Value.{IsLimbs}
use state_db.BigInt.Convert.{IsTrimmed-cons}
use state_db.BigInt.Order.{IsCanonical, IsTrimmed}

pub IsTrimmed-tail : (x : ℕ) (xs : List ℕ) → IsTrimmed (x ∷ xs) → IsTrimmed xs
IsTrimmed-tail x [] t = tt
IsTrimmed-tail x (y ∷ ys) t = t

pub IsTrimmed-head : (x : ℕ) (xs : List ℕ) → IsTrimmed (x ∷ xs) → length xs ≡ 0 → 0 < x
IsTrimmed-head x [] t h = t
IsTrimmed-head x (y ∷ ys) t h = absurd (omega (arith, h))

pub add_loop_empty :
    (xs rs : List ℕ) (c : ℕ)
    → length (add_loop xs rs c) ≡ 0
    → (length xs ≡ 0) × (length rs ≡ 0) × (c ≡ 0)
unfolding add_loop
add_loop_empty [] [] c h = ground (arith, h)
add_loop_empty [] (r ∷ rs) c h = absurd (omega (arith, h))
add_loop_empty (x ∷ xs) [] c h = absurd (omega (arith, h))
add_loop_empty (x ∷ xs) (r ∷ rs) c h = absurd (omega (arith, h))

pub add_loop-IsTrimmed :
    (xs rs : List ℕ) (c : ℕ) → IsTrimmed xs → IsTrimmed rs → c ≤ 1 → IsTrimmed (add_loop xs rs c)
unfolding add_loop
add_loop-IsTrimmed [] [] c tx tr h = ground arith
add_loop-IsTrimmed [] (r ∷ rs) c tx tr h =
    IsTrimmed-cons (carry_limb (r + c)) (add_loop [] rs (carry_out (r + c)))
      (add_loop-IsTrimmed [] rs (carry_out (r + c)) tt (IsTrimmed-tail r rs tr) (ground arith))
      (λ e.
        let (a, b, z) = add_loop_empty [] rs (carry_out (r + c)) e in
        ground (arith, IsTrimmed-head r rs tr b, z))
add_loop-IsTrimmed (x ∷ xs) [] c tx tr h =
    IsTrimmed-cons (carry_limb (c + x)) (add_loop xs [] (carry_out (c + x)))
      (add_loop-IsTrimmed xs [] (carry_out (c + x)) (IsTrimmed-tail x xs tx) tt (ground arith))
      (λ e.
        let (a, b, z) = add_loop_empty xs [] (carry_out (c + x)) e in
        ground (arith, IsTrimmed-head x xs tx a, z))
add_loop-IsTrimmed (x ∷ xs) (r ∷ rs) c tx tr h =
    IsTrimmed-cons (carry_limb (r + (c + x))) (add_loop xs rs (carry_out (r + (c + x))))
      (add_loop-IsTrimmed xs rs (carry_out (r + (c + x))) (IsTrimmed-tail x xs tx)
        (IsTrimmed-tail r rs tr) (ground arith))
      (λ e.
        let (a, b, z) = add_loop_empty xs rs (carry_out (r + (c + x))) e in
        ground (arith, IsTrimmed-head x xs tx a, z))

pub length-add_loop :
    (xs rs : List ℕ) (c : ℕ) → length (add_loop xs rs c) ≤ suc (length xs + length rs)
unfolding add_loop
length-add_loop [] [] c = ground arith
length-add_loop [] (r ∷ rs) c = omega (arith, length-add_loop [] rs (carry_out (r + c)))
length-add_loop (x ∷ xs) [] c = omega (arith, length-add_loop xs [] (carry_out (c + x)))
length-add_loop (x ∷ xs) (r ∷ rs) c = omega (arith, length-add_loop xs rs (carry_out (r + (c + x))))

drop_zero-IsTrimmed : (x : ℕ) (xs : List ℕ) → IsTrimmed xs → IsTrimmed (drop_zero x xs)
drop_zero-IsTrimmed x [] t = ground arith
drop_zero-IsTrimmed x (y ∷ ys) t = t

pub trim_limbs-IsTrimmed : (xs : List ℕ) → IsTrimmed (trim_limbs xs)
unfolding trim_limbs
trim_limbs-IsTrimmed [] = tt
trim_limbs-IsTrimmed (x ∷ xs) = drop_zero-IsTrimmed x (trim_limbs xs) (trim_limbs-IsTrimmed xs)

drop_zero-IsLimbs : (x : ℕ) (xs : List ℕ) → x < base → IsLimbs xs → IsLimbs (drop_zero x xs)
drop_zero-IsLimbs x [] h l = ground arith
drop_zero-IsLimbs x (y ∷ ys) h l = (h, l)

pub trim_limbs-IsLimbs : (xs : List ℕ) → IsLimbs xs → IsLimbs (trim_limbs xs)
unfolding trim_limbs
trim_limbs-IsLimbs [] l = tt
trim_limbs-IsLimbs (x ∷ xs) l = drop_zero-IsLimbs x (trim_limbs xs) l.0 (trim_limbs-IsLimbs xs l.1)

length-drop_zero : (x : ℕ) (xs : List ℕ) → length (drop_zero x xs) ≤ suc (length xs)
length-drop_zero x [] = ground arith
length-drop_zero x (y ∷ ys) = omega arith

pub length-trim_limbs : (xs : List ℕ) → length (trim_limbs xs) ≤ length xs
unfolding trim_limbs
length-trim_limbs [] = omega arith
length-trim_limbs (x ∷ xs) = omega (arith, length-drop_zero x (trim_limbs xs), length-trim_limbs xs)

sign_of_empty : (xs : List ℕ) (s : Sign) → length xs ≡ 0 → sign_of_limbs xs s ≡ plus
sign_of_empty [] s h = refl
sign_of_empty (x ∷ xs) s h = absurd (omega (arith, h))

-- `trim` of limbs in their range.
pub trim-IsCanonical : (n : BigInt) → IsLimbs n.a → length n.a < 2 ^ 30 → IsCanonical (trim n)
unfolding trim
trim-IsCanonical n l h = record {
  limbs = trim_limbs-IsLimbs n.a l;
  trimmed = trim_limbs-IsTrimmed n.a;
  short = omega (arith, length-trim_limbs n.a);
  zero_plus = sign_of_empty (trim_limbs n.a) n.sign;
}
