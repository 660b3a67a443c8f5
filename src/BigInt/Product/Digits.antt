-- ===== src/BigInt/Product/Digits.antt =====
-- What `convert_base` of `bigint` keeps (StateDatabase/bigint.h): the number that the limbs stand for.
use native.Mathlib.Nat.{
  div-add-mod, mod-lt, pow-suc, pow-zero, lt_of_mul-lt-mul_left, mul-le-mul_left,
}
use state_db.Base.{
  ℕ, zero, suc, ◌+◌, ◌-◌, ◌*◌, ◌/◌, ◌^◌, ◌≤◌, ◌<◌, ◌≡◌, refl, List, [], ◌∷◌, ◌++◌, leb, length,
  arith, ap, ◌∙◌, Bool-cases, inl, inr, length-append,
}
use state_db.BigInt.{trim_limbs, drop_zero}
use state_db.BigInt.Product.{emit, convert_from, convert_base}

-- The number that limbs in a base stand for, lowest first.
abbrev pub eval : ℕ → List ℕ → ℕ
eval b [] = 0
eval b (x ∷ xs) = x + b * eval b xs

abbrev pub AreBelow : ℕ → List ℕ → Type 0
AreBelow b [] = Unit {0}
AreBelow b (x ∷ xs) = (x < b) × AreBelow b xs

pub AreBelow-append :
    (b : ℕ) (xs ys : List ℕ) → AreBelow b xs → AreBelow b ys → AreBelow b (xs ++ ys)
AreBelow-append b [] ys h k = k
AreBelow-append b (x ∷ xs) ys (h, hs) k = (h, AreBelow-append b xs ys hs k)

pub pow_zero : (b : ℕ) → b ^ 0 ≡ 1
pow_zero b = pow-zero b

pow_split : (b n d : ℕ) → n ≤ d → b ^ d ≡ b ^ n * b ^ (d - n)
pow_split b zero d h = rw (less_none d, pow_zero b) (omega arith)
  where
    less_none : (d : ℕ) → d - 0 ≡ d
    less_none d = omega arith
pow_split b (suc n) zero h = absurd (omega arith)
pow_split b (suc n) (suc d) h =
    rw (pow-suc b d, pow-suc b n, less_suc d n, pow_split b n d (omega arith)) (omega arith)
  where
    less_suc : (d n : ℕ) → suc d - suc n ≡ d - n
    less_suc d n = omega arith

pub pow_add : (b m n : ℕ) → b ^ (m + n) ≡ b ^ m * b ^ n
pow_add b m n = pow_split b m (m + n) (omega arith) ∙ ap (λ (t : ℕ). b ^ m * b ^ t) (back m n)
  where
    back : (m n : ℕ) → m + n - m ≡ n
    back m n = omega arith

pub pow_pos : (b n : ℕ) → 0 < b → 0 < b ^ n
pow_pos b zero h = omega (arith, pow_zero b)
pow_pos b (suc n) h = grind (arith, pow-suc, pow_pos b n h)

-- A base and the part above it.
div_below : (x p q : ℕ) → 0 < p → x < p * q → x / p < q
div_below x p q h k = lt_of_mul-lt-mul_left p (omega (arith, div-add-mod x p))

-- What the inner loop leaves: fewer digits than a limb has, and the number that was there.
emit_lem :
    (fuel new cur d : ℕ)
    → 0 < new
    → d ≤ fuel
    → cur < 10 ^ d
    → (AreBelow (10 ^ new) (emit fuel new cur d).0)
      × ((emit fuel new cur d).2 < new)
      × ((emit fuel new cur d).1 < 10 ^ (emit fuel new cur d).2)
      × (length (emit fuel new cur d).0 * new + (emit fuel new cur d).2 ≡ d)
      × ((zs : List ℕ) (v : ℕ)
          → eval (10 ^ new) zs ≡ (emit fuel new cur d).1 + 10 ^ (emit fuel new cur d).2 * v
          → eval (10 ^ new) ((emit fuel new cur d).0 ++ zs) ≡ cur + 10 ^ d * v)
unfolding emit
emit_lem zero new cur d h le c = (tt, omega arith, c, omega arith, λ zs v e. e)
emit_lem (suc fuel) new cur d h le c = elim (Bool-cases (leb new d)) [
  | inl b ↦
      let split = pow_split 10 new d (ground arith) in
      let pos = pow_pos 10 new (omega arith) in
      let (below, small, less, count, keeps) =
        emit_lem fuel new (cur / 10 ^ new) (d - new) h (omega arith)
          (div_below cur (10 ^ new) (10 ^ (d - new)) pos (omega (arith, split))) in
      let (out, cur', e') = emit fuel new (cur / 10 ^ new) (d - new) in
      rw b (
        (mod-lt cur pos, below),
        small,
        less,
        ground (arith, count),
        λ zs v e. omega (
          arith,
          keeps zs v e,
          ap (λ (t : ℕ). t * v) split,
          div-add-mod cur (10 ^ new),
          ap (λ (t : ℕ). 10 ^ new * t) (keeps zs v e),
        ),
      )
  | inr b ↦ rw b (tt, ground arith, c, omega arith, λ zs v e. e)
]

pub convert_from_lem :
    (old new : ℕ) (xs : List ℕ) (cur d : ℕ)
    → 0 < new
    → d < new
    → cur < 10 ^ d
    → AreBelow (10 ^ old) xs
    → (eval (10 ^ new) (convert_from old new xs cur d) ≡ cur + 10 ^ d * eval (10 ^ old) xs)
      × AreBelow (10 ^ new) (convert_from old new xs cur d)
      × (length (convert_from old new xs cur d) * new ≤ d + old * length xs + new)
unfolding convert_from
convert_from_lem old new [] cur d h small less below =
    let split = pow_split 10 d new (omega arith) in
    let rest = pow_pos 10 (new - d) (omega arith) in
    let most = mul-le-mul_left (10 ^ d) rest in
    (omega arith, (omega (arith, split, less, most), tt), omega arith)
convert_from_lem old new (x ∷ xs) cur d h small less (here, below) =
    let join = pow_add 10 d old in
    let room = mul-le-mul_left (10 ^ d) here in
    let fits : cur + x * 10 ^ d < 10 ^ (d + old) = omega (arith, join, room, less) in
    let (limbs, small', less', count, keeps) =
      emit_lem (d + old) new (cur + x * 10 ^ d) (d + old) h (omega arith) fits in
    let (out, c, e) = emit (d + old) new (cur + x * 10 ^ d) (d + old) in
    let (value, below', size) = convert_from_lem old new xs c e h small' less' below in
    (
      omega (
        arith,
        keeps (convert_from old new xs c e) (eval (10 ^ old) xs) value,
        join,
        ap (λ (t : ℕ). t * eval (10 ^ old) xs) join,
      ),
      AreBelow-append (10 ^ new) out (convert_from old new xs c e) limbs below',
      omega (
        arith,
        size,
        count,
        ap (λ (t : ℕ). t * new) (length-append {0} out (convert_from old new xs c e)),
      ),
    )

eval-trim_limbs : (b : ℕ) (xs : List ℕ) → eval b (trim_limbs xs) ≡ eval b xs
unfolding trim_limbs
eval-trim_limbs b [] = refl
eval-trim_limbs b (x ∷ xs) =
    eval-drop_zero x (trim_limbs xs) ∙ ap (λ (t : ℕ). x + b * t) (eval-trim_limbs b xs)
  where
    eval-drop_zero : (x : ℕ) (ys : List ℕ) → eval b (drop_zero x ys) ≡ x + b * eval b ys
    eval-drop_zero x [] = ground arith
    eval-drop_zero x (y ∷ ys) = refl

AreBelow-trim_limbs : (b : ℕ) (xs : List ℕ) → AreBelow b xs → AreBelow b (trim_limbs xs)
unfolding trim_limbs
AreBelow-trim_limbs b [] h = tt
AreBelow-trim_limbs b (x ∷ xs) (h, hs) = go (trim_limbs xs) (AreBelow-trim_limbs b xs hs)
  where
    go : (ys : List ℕ) → AreBelow b ys → AreBelow b (drop_zero x ys)
    go [] k = ground arith
    go (y ∷ ys) k = (h, k)

length-trim_limbs : (xs : List ℕ) → length (trim_limbs xs) ≤ length xs
unfolding trim_limbs
length-trim_limbs [] = omega arith
length-trim_limbs (x ∷ xs) = go (trim_limbs xs) (length-trim_limbs xs)
  where
    go : (ys : List ℕ) → length ys ≤ length xs → length (drop_zero x ys) ≤ suc (length xs)
    go [] k = ground arith
    go (y ∷ ys) k = omega arith

-- On limbs of `old` digits, and where a new limb has a digit at all, `convert_base` gives limbs of
-- `new` digits that stand for the same number, and no more of them than its digits fill, and one.
pub convert_base_lem :
    (a : List ℕ) (old new : ℕ)
    → 0 < new
    → AreBelow (10 ^ old) a
    → (eval (10 ^ new) (convert_base a old new) ≡ eval (10 ^ old) a)
      × AreBelow (10 ^ new) (convert_base a old new)
      × (length (convert_base a old new) * new ≤ old * length a + new)
unfolding convert_base
convert_base_lem a old new h below =
    let (value, limbs, size) =
      convert_from_lem old new a 0 0 h h (pow_pos 10 0 (omega arith)) below in
    let cs = convert_from old new a 0 0 in
    (
      eval-trim_limbs (10 ^ new) cs
          ∙ omega (arith, value, ap (λ (t : ℕ). t * eval (10 ^ old) a) (pow_zero 10)),
      AreBelow-trim_limbs (10 ^ new) cs limbs,
      omega (arith, size, mul-le-mul_left new (length-trim_limbs cs)),
    )
