-- ===== src/BigInt/Value.antt =====
-- What the limbs of a `bigint` (StateDatabase/bigint.h) stand for, and its loops on magnitudes.
use state_db.Base.{
  ℕ, zero, suc, ◌+◌, ◌-◌, ◌*◌, ◌/◌, ◌^◌, ◌≤◌, ◌<◌, ◌≡◌, refl, some, List, [], ◌∷◌, ◌==◌, length,
  arith, ap, ◌∙◌, Bool-cases, inl, inr,
}
use native.Mathlib.Nat.{div-add-mod, mod-lt, pow-suc}
use state_db.BigInt.{
  base, add_loop, sub_loop, trim_limbs, drop_zero, push_carry, mul_loop, div_loop, carry_out,
  borrow_limb, borrow_out,
}

abbrev pub value : List ℕ → ℕ
value [] = 0
value (x ∷ xs) = x + base * value xs

-- Every limb is below the base.
abbrev pub IsLimbs : List ℕ → Type 0
IsLimbs [] = Unit {0}
IsLimbs (x ∷ xs) = (x < base) × IsLimbs xs

pub value-add_loop :
    (xs rs : List ℕ) (c : ℕ)
    → IsLimbs xs
    → IsLimbs rs
    → c ≤ 1
    → (value (add_loop xs rs c) ≡ value xs + value rs + c) × IsLimbs (add_loop xs rs c)
unfolding add_loop
value-add_loop [] [] c hx hr hc = ground arith
value-add_loop [] (r ∷ rs) c hx hr hc =
    ground (arith, value-add_loop [] rs (carry_out (r + c)) tt hr.1)
value-add_loop (x ∷ xs) [] c hx hr hc =
    ground (arith, value-add_loop xs [] (carry_out (c + x)) hx.1 tt)
value-add_loop (x ∷ xs) (r ∷ rs) c hx hr hc =
    ground (arith, value-add_loop xs rs (carry_out (r + (c + x))) hx.1 hr.1)

value-drop_zero : (x : ℕ) (ys : List ℕ) → value (drop_zero x ys) ≡ x + base * value ys
value-drop_zero x [] = ground arith
value-drop_zero x (y ∷ ys) = refl

pub value-trim_limbs : (xs : List ℕ) → value (trim_limbs xs) ≡ value xs
unfolding trim_limbs
value-trim_limbs [] = refl
value-trim_limbs (x ∷ xs) =
    value-drop_zero x (trim_limbs xs) ∙ ap (λ (t : ℕ). x + base * t) (value-trim_limbs xs)

pub value-div_loop :
    (xs : List ℕ) (v : ℕ)
    → 0 < v
    → (v * value (div_loop xs v).0 + (div_loop xs v).1 ≡ value xs) × ((div_loop xs v).1 < v)
unfolding div_loop
value-div_loop [] v h = omega arith
value-div_loop (x ∷ xs) v h =
    let (e, less) = value-div_loop xs v h in
    let (qs, rem) = div_loop xs v in
    (
      omega (arith, div-add-mod (x + rem * base) v, ap (λ (t : ℕ). base * t) e),
      mod-lt (x + rem * base) h,
    )

pub value-sub_loop :
    (rs ys : List ℕ) (c : ℕ)
    → IsLimbs rs
    → IsLimbs ys
    → c ≤ 1
    → length ys ≤ length rs
    → value ys + c ≤ value rs
    → (zs : List ℕ) × (sub_loop rs ys c ≡ some zs)
      × (value zs + (value ys + c) ≡ value rs)
      × IsLimbs zs
unfolding sub_loop
value-sub_loop [] [] c hr hy hc len h = ([], ground arith, omega arith, tt)
value-sub_loop [] (y ∷ ys) c hr hy hc len h = absurd (omega arith)
value-sub_loop (r ∷ rs) [] c hr hy hc len h =
    let rest = value-sub_loop rs [] (borrow_out r c) hr.1 tt in
    elim (Bool-cases (c == 0)) [
      | inl stop ↦ (r ∷ rs, rw stop, ground arith, hr)
      | inr go ↦
          let (zs, e, v, l) = rest (ground arith) (omega arith) (ground arith) in
          (borrow_limb r c ∷ zs, rw (go, e), ground (arith, v), (ground arith, l))
    ]
value-sub_loop (r ∷ rs) (y ∷ ys) c hr hy hc len h =
    let (zs, e, v, l) =
      value-sub_loop rs ys (borrow_out r (c + y)) hr.1 hy.1 (ground arith) (omega arith)
        (ground arith) in
    (borrow_limb r (c + y) ∷ zs, rw e, ground (arith, v), (ground arith, l))

pub base_pow : (n : ℕ) → base ^ suc n ≡ base * base ^ n
base_pow n = grind (arith, pow-suc)

pub value-push_carry :
    (fuel c : ℕ) → c < base ^ fuel → (value (push_carry fuel c) ≡ c) × IsLimbs (push_carry fuel c)
unfolding push_carry
value-push_carry zero c h = omega arith
value-push_carry (suc fuel) c h =
    let small : c < base * base ^ fuel = rw (← base_pow fuel) h in
    ground (arith, value-push_carry fuel (c / base) (omega arith))

pub value-mul_loop :
    (xs : List ℕ) (v c : ℕ)
    → v < 2 ^ 31
    → c ≤ v
    → IsLimbs xs
    → (value (mul_loop xs v c) ≡ value xs * v + c) × IsLimbs (mul_loop xs v c)
unfolding mul_loop
value-mul_loop [] v c h hc hx =
    let (e, l) = value-push_carry 3 c (omega arith) in (omega (arith, e), l)
value-mul_loop (x ∷ xs) v c h hc hx =
    let most : x * v ≤ (base - 1) * v = grind arith in
    let (e, l) = value-mul_loop xs v ((x * v + c) / base) h (omega arith) hx.1 in
    (omega (arith, ap (λ (t : ℕ). base * t) e), (omega arith, l))
