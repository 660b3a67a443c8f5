-- ===== src/BigInt/Product/Carry.antt =====
-- The carries of `operator*` (StateDatabase/bigint.h): the coefficients of the product, how large
-- they are, and the limbs that the loop makes of them.
use native.Mathlib.Nat.{pow-suc, mul-le-mul, mul-le-mul_left}
use state_db.Base.{
  ℕ, zero, suc, ◌+◌, ◌*◌, ◌/◌, ◌%◌, ◌^◌, ◌≤◌, ◌<◌, ◌≡◌, refl, true, some, List, [], ◌∷◌, length,
  replicate, arith, ap, ltb,
}
use state_db.BigInt.Product.{add_row, add_rows, keep_first, school, carry_loop}
use state_db.BigInt.Product.Digits.{eval, AreBelow, pow_zero}

-- Two limbs of six digits have a product of at most `most`.
abbrev pub most : ℕ
most = 999_999 * 999_999

abbrev pub AreAtMost : ℕ → List ℕ → Type 0
AreAtMost b [] = Unit {0}
AreAtMost b (x ∷ xs) = (x ≤ b) × AreAtMost b xs

pub more_room : (b c : ℕ) (xs : List ℕ) → b ≤ c → AreAtMost b xs → AreAtMost c xs
more_room b c [] h k = tt
more_room b c (x ∷ xs) h (k, ks) = (omega arith, more_room b c xs h ks)

add_row-AreAtMost :
    (b x : ℕ) (bs res : List ℕ)
    → x < 1_000_000
    → AreBelow 1_000_000 bs
    → AreAtMost b res
    → AreAtMost (b + most) (add_row x bs res)
unfolding add_row
add_row-AreAtMost b x [] res h k r = more_room b (b + most) res (omega arith) r
add_row-AreAtMost b x (y ∷ bs) [] h k r = tt
add_row-AreAtMost b x (y ∷ bs) (r ∷ rs) h (k, ks) (l, ls) =
    let x_most : x ≤ 999_999 = omega arith in
    let y_most : y ≤ 999_999 = omega arith in
    (omega (arith, mul-le-mul x_most y_most), add_row-AreAtMost b x bs rs h ks ls)

keep_first-AreAtMost :
    (b c : ℕ) (f : List ℕ → List ℕ) (res : List ℕ)
    → b ≤ c
    → AreAtMost b res
    → ((rs : List ℕ) → AreAtMost b rs → AreAtMost c (f rs))
    → AreAtMost c (keep_first f res)
keep_first-AreAtMost b c f [] h r g = tt
keep_first-AreAtMost b c f (r ∷ rs) h (l, ls) g = (omega arith, g rs ls)

add_rows-AreAtMost :
    (b : ℕ) (xs bs res : List ℕ)
    → AreBelow 1_000_000 xs
    → AreBelow 1_000_000 bs
    → AreAtMost b res
    → AreAtMost (b + length xs * most) (add_rows xs bs res)
unfolding add_rows
add_rows-AreAtMost b [] bs res h k r = more_room b (b + 0 * most) res (omega arith) r
add_rows-AreAtMost b (x ∷ xs) bs res (h, hs) k r =
    keep_first-AreAtMost (b + most) (b + length (x ∷ xs) * most) (add_rows xs bs) (add_row x bs res)
      (omega arith) (add_row-AreAtMost b x bs res h k r)
      (λ rs l.
        more_room (b + most + length xs * most) (b + length (x ∷ xs) * most) (add_rows xs bs rs)
          (omega arith) (add_rows-AreAtMost (b + most) xs bs rs hs k l))

zeros-AreAtMost : (n : ℕ) → AreAtMost 0 (replicate n 0)
zeros-AreAtMost zero = tt
zeros-AreAtMost (suc n) = (omega arith, zeros-AreAtMost n)

-- On limbs of six digits, no coefficient of the product is above the count of the limbs times the
-- largest product of two.
pub school-AreAtMost :
    (a b : List ℕ)
    → AreBelow 1_000_000 a
    → AreBelow 1_000_000 b
    → AreAtMost (length a * most) (school a b)
unfolding school
school-AreAtMost a b h k =
    more_room (0 + length a * most) (length a * most)
      (add_rows a b (replicate (length a + length a) 0)) (omega arith)
      (add_rows-AreAtMost 0 a b (replicate (length a + length a) 0) h k
        (zeros-AreAtMost (length a + length a)))

-- Where each coefficient is at most 2048 times the square of 999999 and the first carry is an `int`,
-- no carry leaves the `int`s: the loop ends with limbs of six digits, as many as there are
-- coefficients, that give together with the carry that is left the number that the coefficients and
-- the first carry give.
pub carry_loop-AreAtMost :
    (cs : List ℕ) (carry : ℕ)
    → AreAtMost (2048 * most) cs
    → carry < 2 ^ 31
    → (out : List ℕ) × (left : ℕ) × (carry_loop cs carry ≡ some out)
      × (eval 1_000_000 out + 1_000_000 ^ length cs * left ≡ eval 1_000_000 cs + carry)
      × AreBelow 1_000_000 out
      × (length out ≡ length cs)
unfolding carry_loop
carry_loop-AreAtMost [] carry h k =
    ([], carry, refl, omega (arith, ap (λ (t : ℕ). t * carry) (pow_zero 1_000_000)), tt, refl)
carry_loop-AreAtMost (c ∷ cs) carry (h, hs) k =
    let small : (c + carry) / 1_000_000 < 2 ^ 31 = omega arith in
    let (out, left, run, value, below, size) =
      carry_loop-AreAtMost cs ((c + carry) / 1_000_000) hs small in
    let fits : ltb ((c + carry) / 1_000_000) (2 ^ 31) ≡ true = ground (arith, small) in
    (
      (c + carry) % 1_000_000 ∷ out,
      left,
      rw (fits, run) refl,
      omega (arith, value, ap (λ (t : ℕ). t * left) (pow-suc 1_000_000 (length cs))),
      (omega arith, below),
      omega (arith, size),
    )

-- Limbs give a number below the power of the base for their count.
pub eval-lt : (b : ℕ) (xs : List ℕ) → 0 < b → AreBelow b xs → eval b xs < b ^ length xs
eval-lt b [] h k = omega (arith, pow_zero b)
eval-lt b (x ∷ xs) h (k, ks) =
    let room : suc (eval b xs) ≤ b ^ length xs = eval-lt b xs h ks in
    omega (arith, mul-le-mul_left b room, pow-suc b (length xs))
