-- ===== src/BigInt/Product/School.antt =====
-- The product by rows, and sums of limbs at an offset, as polynomials (StateDatabase/bigint.h).
use native.Mathlib.Nat.{pow-suc, mul-le-mul_left}
use state_db.Base.{
  ℕ, zero, suc, ◌+◌, ◌-◌, ◌*◌, ◌^◌, ◌≤◌, ◌<◌, ◌≡◌, refl, List, [], ◌∷◌, length, take, drop,
  replicate, arith, ap, ◌∙◌, sym, ltb, Bool-cases, inl, inr, length-replicate,
}
use state_db.BigInt.Product.{add_row, add_rows, add_all, sub_all, add_at, school, keep_first}
use state_db.BigInt.Product.Digits.{eval, pow_zero}

pub eval-add_row :
    (z x : ℕ) (bs res : List ℕ)
    → length bs ≤ length res
    → (eval z (add_row x bs res) ≡ eval z res + x * eval z bs)
      × (length (add_row x bs res) ≡ length res)
unfolding add_row
eval-add_row z x [] res h = (omega arith, refl)
eval-add_row z x (b ∷ bs) [] h = absurd (omega arith)
eval-add_row z x (b ∷ bs) (r ∷ rs) h =
    let (e, l) = eval-add_row z x bs rs (omega arith) in
    (omega (arith, ap (λ (t : ℕ). z * t) e), omega (arith, l))

eval-keep_first :
    (z x : ℕ) (f : List ℕ → List ℕ) (res : List ℕ)
    → 0 < length res
    → ((rs : List ℕ)
        → suc (length rs) ≡ length res
        → (eval z (f rs) ≡ eval z rs + x) × (length (f rs) ≡ length rs))
    → (eval z (keep_first f res) ≡ eval z res + z * x) × (length (keep_first f res) ≡ length res)
eval-keep_first z x f [] h g = absurd (omega arith)
eval-keep_first z x f (r ∷ rs) h g =
    let (e, l) = g rs refl in (omega (arith, ap (λ (t : ℕ). z * t) e), omega (arith, l))

pub eval-add_rows :
    (z : ℕ) (xs bs res : List ℕ)
    → length xs + length bs ≤ length res
    → (eval z (add_rows xs bs res) ≡ eval z res + eval z xs * eval z bs)
      × (length (add_rows xs bs res) ≡ length res)
unfolding add_rows
eval-add_rows z [] bs res h = (omega arith, refl)
eval-add_rows z (x ∷ xs) bs res h =
    let (e, l) = eval-add_row z x bs res (omega arith) in
    let (e', l') =
      eval-keep_first z (eval z xs * eval z bs) (add_rows xs bs) (add_row x bs res)
        (omega (arith, l)) (λ rs s. eval-add_rows z xs bs rs (omega (arith, s, l))) in
    (omega (arith, e, e'), omega (arith, l, l'))

pub eval-replicate : (z n : ℕ) → eval z (replicate n 0) ≡ 0
eval-replicate z zero = refl
eval-replicate z (suc n) = omega (arith, ap (λ (t : ℕ). z * t) (eval-replicate z n))

pub eval-school :
    (z : ℕ) (a b : List ℕ)
    → length b ≡ length a
    → (eval z (school a b) ≡ eval z a * eval z b) × (length (school a b) ≡ length a + length a)
unfolding school
eval-school z a b h =
    let n = length a + length a in
    let size = length-replicate {A = ℕ} n 0 in
    let (e, l) = eval-add_rows z a b (replicate n 0) (omega (arith, size)) in
    (omega (arith, e, eval-replicate z n), omega (arith, l, size))

pub eval-add_all :
    (z : ℕ) (rs xs : List ℕ)
    → length xs ≤ length rs
    → (eval z (add_all rs xs) ≡ eval z rs + eval z xs) × (length (add_all rs xs) ≡ length rs)
unfolding add_all
eval-add_all z rs [] h = (ground arith, ground arith)
eval-add_all z [] (x ∷ xs) h = absurd (omega arith)
eval-add_all z (r ∷ rs) (x ∷ xs) h =
    let (e, l) = eval-add_all z rs xs (omega arith) in
    (omega (arith, ap (λ (t : ℕ). z * t) e), omega (arith, l))

pub eval-add_at :
    (z k : ℕ) (rs res : List ℕ)
    → k + length rs ≤ length res
    → (eval z (add_at k rs res) ≡ eval z res + z ^ k * eval z rs)
      × (length (add_at k rs res) ≡ length res)
unfolding add_at
eval-add_at z zero rs res h =
    let (e, l) = eval-add_all z res rs (omega arith) in
    (omega (arith, e, ap (λ (t : ℕ). t * eval z rs) (pow_zero z)), l)
eval-add_at z (suc k) rs [] h = absurd (omega arith)
eval-add_at z (suc k) rs (x ∷ res) h =
    let (e, l) = eval-add_at z k rs res (omega arith) in
    (
      omega (arith, ap (λ (t : ℕ). z * t) e, ap (λ (t : ℕ). t * eval z rs) (pow-suc z k)),
      omega (arith, l),
    )

pub sub_all-add_all : (rs xs : List ℕ) → length xs ≤ length rs → sub_all (add_all rs xs) xs ≡ rs
unfolding sub_all add_all
sub_all-add_all [] [] h = refl
sub_all-add_all (r ∷ rs) [] h = refl
sub_all-add_all [] (x ∷ xs) h = absurd (omega arith)
sub_all-add_all (r ∷ rs) (x ∷ xs) h =
    rw (sub_all-add_all rs xs (omega arith)) (ap (λ (t : ℕ). t ∷ rs) (back r x))
  where
    back : (r x : ℕ) → r + x - x ≡ r
    back r x = omega arith

pub eval_split :
    (z k : ℕ) (xs : List ℕ)
    → k ≤ length xs
    → eval z xs ≡ eval z (take k xs) + z ^ k * eval z (drop k xs)
eval_split z zero xs h = omega (arith, ap (λ (t : ℕ). t * eval z xs) (pow_zero z))
eval_split z (suc k) [] h = absurd (omega arith)
eval_split z (suc k) (x ∷ xs) h = omega (
  arith,
  ap (λ (t : ℕ). z * t) (eval_split z k xs (omega arith)),
  ap (λ (t : ℕ). t * eval z (drop k xs)) (pow-suc z k),
)

not_above : (z a b e f : ℕ) → a < z → a + z * e ≡ b + z * f → f ≤ e
not_above z a b e f la h = elim (Bool-cases (ltb e f)) [
  | inl l ↦ let less : suc e ≤ f = ground arith in absurd (omega (arith, mul-le-mul_left z less))
  | inr l ↦ ground arith
]

-- A number below `z` and a multiple of `z` can be told apart in their sum.
parts : (z a b e f : ℕ) → a < z → b < z → a + z * e ≡ b + z * f → (a ≡ b) × (e ≡ f)
parts z a b e f la lb h =
    let up = not_above z a b e f la h in
    let down = not_above z b a f e lb (sym h) in
    let same : e ≡ f = omega arith in (omega (arith, ap (λ (t : ℕ). z * t) same), same)

-- Limbs of one length that give one number in every base are the same.
pub eval-injective :
    (xs ys : List ℕ) → length xs ≡ length ys → ((z : ℕ) → 0 < z → eval z xs ≡ eval z ys) → xs ≡ ys
eval-injective [] [] l h = refl
eval-injective [] (y ∷ ys) l h = absurd (omega arith)
eval-injective (x ∷ xs) [] l h = absurd (omega arith)
eval-injective (x ∷ xs) (y ∷ ys) l h =
    let z = suc (x + y) in
    let (same, high) =
      parts z x y (eval z xs) (eval z ys) (omega arith) (omega arith) (h z (omega arith)) in
    let rest =
      eval-injective xs ys (omega arith)
        (λ z pos. (parts z 0 0 (eval z xs) (eval z ys) pos pos (omega (arith, h z pos, same))).1) in
    ap (λ (t : ℕ). t ∷ xs) same ∙ ap (◌∷◌ y) rest
