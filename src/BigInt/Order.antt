-- ===== src/BigInt/Order.antt =====
-- `operator<` of `bigint` (StateDatabase/bigint.h).
use state_db.Base.{
  ℕ, ◌^◌, ◌<◌, ◌≡◌, refl, Option, none, some, List, [], ◌∷◌, ltb, ◌==◌, length, arith, ◌∙◌, ◌⊎◌,
  inl, inr, Bool-cases,
}
use state_db.Base.Int.{ℤ, pos, sub_ℕ, ltb_ℤ}
use state_db.BigInt.{BigInt, Sign, plus, minus, less, top_difference, limb_less}
use state_db.BigInt.Value.{value, IsLimbs}

-- The highest limb is not zero.
abbrev pub IsTrimmed : List ℕ → Type 0
IsTrimmed [] = Unit {0}
IsTrimmed (x ∷ []) = 0 < x
IsTrimmed (x ∷ y ∷ ys) = IsTrimmed (y ∷ ys)

-- A number as the operations leave it, with fewer limbs than the `int`s that index them can count.
pub record IsCanonical (n : BigInt) : Type 0 where
  pub limbs : IsLimbs n.a
  pub trimmed : IsTrimmed n.a
  pub short : length n.a < 2 ^ 30
  pub zero_plus : length n.a ≡ 0 → n.sign ≡ plus

abbrev pub signed : Sign → ℕ → ℤ
signed plus v = pos v
signed minus v = sub_ℕ 0 v

-- The integer that a number stands for.
abbrev pub to_ℤ : BigInt → ℤ
to_ℤ n = signed n.sign (value n.a)

pub value_pos : (x : ℕ) (xs : List ℕ) → IsTrimmed (x ∷ xs) → 0 < value (x ∷ xs)
value_pos x [] t = omega arith
value_pos x (y ∷ ys) t = omega (arith, value_pos y ys t)

-- A longer number without leading zeros is the larger one.
pub value_longer :
    (xs ys : List ℕ) → IsLimbs xs → IsTrimmed ys → length xs < length ys → value xs < value ys
value_longer xs [] l t h = absurd (omega arith)
value_longer [] (y ∷ ys) l t h = value_pos y ys t
value_longer (x ∷ xs) (y ∷ []) l t h = absurd (omega arith)
value_longer (x ∷ xs) (y ∷ z ∷ zs) l t h =
    omega (arith, l.0, value_longer xs (z ∷ zs) l.1 t (omega arith))

nonempty : (n : BigInt) → IsCanonical n → n.sign ≡ minus → 0 < length n.a
nonempty n c e = ground (arith, c.zero_plus)

-- What the highest difference says of the values.
abbrev Differs : List ℕ → List ℕ → Option (ℕ × ℕ) → Type 0
Differs xs ys none = value xs ≡ value ys
Differs xs ys (some (x, y)) = ((x < y) × (value xs < value ys)) ⊎ ((y < x) × (value ys < value xs))

top_difference-Differs :
    (xs ys : List ℕ)
    → IsLimbs xs
    → IsLimbs ys
    → length xs ≡ length ys
    → Differs xs ys (top_difference xs ys)
unfolding top_difference
top_difference-Differs [] [] lx ly h = refl
top_difference-Differs [] (y ∷ ys) lx ly h = absurd (omega arith)
top_difference-Differs (x ∷ xs) [] lx ly h = absurd (omega arith)
top_difference-Differs (x ∷ xs) (y ∷ ys) lx ly h =
    ground (arith, top_difference-Differs xs ys lx.1 ly.1)

less_cases :
    (s : Sign) (xs ys : List ℕ) (d : Option (ℕ × ℕ))
    → Differs xs ys d
    → (limb_less plus d ≡ ltb (value xs) (value ys))
      × (limb_less minus d ≡ ltb (value ys) (value xs))
less_cases s xs ys d h = ground arith

-- On canonical numbers of one sign `<` compares the magnitudes, the other way round below zero.
pub less_same :
    (m n : BigInt)
    → IsCanonical m
    → IsCanonical n
    → (m.sign ≡ plus → n.sign ≡ plus → less m n ≡ ltb (value m.a) (value n.a))
      × (m.sign ≡ minus → n.sign ≡ minus → less m n ≡ ltb (value n.a) (value m.a))
unfolding less
less_same m n cm cn =
    let d = top_difference-Differs m.a n.a cm.limbs cn.limbs in
    let low = value_longer m.a n.a cm.limbs cn.trimmed in
    let high = value_longer n.a m.a cn.limbs cm.trimmed in
    elim (Bool-cases (length m.a == length n.a)) [
      | inl e ↦
          let k = less_cases m.sign m.a n.a (top_difference m.a n.a) (d (ground arith)) in
          (λ p q. rw (p, q, e) k.0, λ p q. rw (p, q, e) k.1)
      | inr ne ↦ (
        λ p q. rw (p, q, ne) (ground (arith, low, high)),
        λ p q.
            let fm = nonempty m cm p in
            let fn = nonempty n cn q in
            rw (p, q, ne) (ground (arith, low, high, fm, fn, cm.short, cn.short)),
      )
    ]

positive : (n : BigInt) → IsCanonical n → n.sign ≡ minus → 0 < value n.a
positive n c e = go n.a (nonempty n c e) c.trimmed
  where
    go : (l : List ℕ) → 0 < length l → IsTrimmed l → 0 < value l
    go [] h t = absurd (omega arith)
    go (x ∷ xs) h t = value_pos x xs t

less_signs :
    (m n : BigInt) (s t : Sign)
    → IsCanonical m
    → IsCanonical n
    → m.sign ≡ s
    → n.sign ≡ t
    → less m n ≡ ltb_ℤ (signed s (value m.a)) (signed t (value n.a))
unfolding less
less_signs m n plus plus cm cn e f = (less_same m n cm cn).0 e f ∙ ground arith
less_signs m n plus minus cm cn e f = rw (e, f) (ground (arith, positive n cn f))
less_signs m n minus plus cm cn e f = rw (e, f) (ground (arith, positive m cm e))
less_signs m n minus minus cm cn e f =
    (less_same m n cm cn).1 e f ∙ ground (arith, positive m cm e, positive n cn f)

-- On canonical numbers `operator<` is the order of the integers, over all signs.
pub less-ltb_ℤ : (m n : BigInt) → IsCanonical m → IsCanonical n → less m n ≡ ltb_ℤ (to_ℤ m) (to_ℤ n)
less-ltb_ℤ m n cm cn = less_signs m n m.sign n.sign cm cn refl refl
