-- ===== src/BigInt/Text/Digits.antt =====
-- The digits that `read` and `operator<<` of `bigint` work with (StateDatabase/bigint.h).
use mathlib.Core.List.{reverse, reverse-append, reverse-reverse, reverse-cons}
use native.Mathlib.Nat.{pow-suc}
use state_db.Base.{
  ℕ, zero, suc, ◌+◌, ◌-◌, ◌*◌, ◌/◌, ◌^◌, ◌≤◌, ◌<◌, ◌≡◌, refl, List, [], ◌∷◌, ◌++◌, length, take,
  drop, replicate, arith, ap, ◌∙◌, length-append, length-replicate,
}
use state_db.BigInt.{base}
use state_db.BigInt.Text.{digits, padded, print_limbs, limb_from, read_limbs}

-- The number that digits stand for, lowest first.
abbrev pub number : List ℕ → ℕ
number [] = 0
number (c ∷ cs) = (c - 48) + 10 * number cs

abbrev pub AreDigits : List ℕ → Type 0
AreDigits [] = Unit {0}
AreDigits (c ∷ cs) = (48 ≤ c) × (c ≤ 57) × AreDigits cs

pub ten_pow : (n : ℕ) → 10 ^ suc n ≡ 10 * 10 ^ n
ten_pow n = grind (arith, pow-suc)

pub number-digits : (fuel x : ℕ) → x < 10 ^ fuel → number (digits fuel x) ≡ x
unfolding digits
number-digits zero x h = omega arith
number-digits (suc fuel) x h =
    let below : x < 10 * 10 ^ fuel = rw (← ten_pow fuel) h in
    let less : x / 10 < 10 ^ fuel = omega arith in ground (arith, number-digits fuel (x / 10) less)

pub digits-AreDigits : (fuel x : ℕ) → AreDigits (digits fuel x)
unfolding digits
digits-AreDigits zero x = tt
digits-AreDigits (suc fuel) x = ground (arith, digits-AreDigits fuel (x / 10))

pub digits_nonempty : (fuel x : ℕ) → 0 < length (digits (suc fuel) x)
unfolding digits
digits_nonempty fuel x = ground arith

digits_short : (fuel k x : ℕ) → x < 10 ^ suc k → length (digits fuel x) ≤ suc k
unfolding digits
digits_short zero k x h = omega arith
digits_short (suc fuel) zero x h = ground arith
digits_short (suc fuel) (suc k) x h =
    let below : x < 10 * 10 ^ suc k = rw (← ten_pow (suc k)) h in
    let less : x / 10 < 10 ^ suc k = omega arith in
    ground (arith, digits_short fuel k (x / 10) less)

limb_from-append : (x : ℕ) (cs ds : List ℕ) → limb_from x (cs ++ ds) ≡ limb_from (limb_from x cs) ds
unfolding limb_from
limb_from-append x [] ds = refl
limb_from-append x (c ∷ cs) ds = limb_from-append (x * 10 + c - 48) cs ds

pub limb_from-reverse : (cs : List ℕ) → AreDigits cs → limb_from 0 (reverse cs) ≡ number cs
unfolding limb_from
limb_from-reverse [] h = refl
limb_from-reverse (c ∷ cs) h =
    rw (reverse-cons c cs, limb_from-append 0 (reverse cs) (c ∷ []), limb_from-reverse cs h.2)
      (omega arith)

pub number-zeros : (cs : List ℕ) (n : ℕ) → number (cs ++ replicate n 48) ≡ number cs
number-zeros [] zero = refl
number-zeros [] (suc n) = omega (arith, number-zeros [] n)
number-zeros (c ∷ cs) n = omega (arith, number-zeros cs n)

pub AreDigits-append : (cs ds : List ℕ) → AreDigits cs → AreDigits ds → AreDigits (cs ++ ds)
AreDigits-append [] ds h k = k
AreDigits-append (c ∷ cs) ds h k = (h.0, h.1, AreDigits-append cs ds h.2 k)

pub replicate-AreDigits : (n : ℕ) → AreDigits (replicate n 48)
replicate-AreDigits zero = tt
replicate-AreDigits (suc n) = (omega arith, omega arith, replicate-AreDigits n)

pub padded-AreDigits : (x : ℕ) → AreDigits (padded x)
unfolding padded
padded-AreDigits x =
    AreDigits-append (digits 10 x) (replicate (9 - length (digits 10 x)) 48) (digits-AreDigits 10 x)
      (replicate-AreDigits (9 - length (digits 10 x)))

pub length-padded : (x : ℕ) → x < base → length (padded x) ≡ 9
unfolding padded
length-padded x h = omega (
  arith,
  length-append {0} (digits 10 x) (replicate (9 - length (digits 10 x)) 48),
  length-replicate {A = ℕ} (9 - length (digits 10 x)) 48,
  digits_short 10 8 x h,
)

pub number-padded : (x : ℕ) → x < base → number (padded x) ≡ x
unfolding padded
number-padded x h =
    number-zeros (digits 10 x) (9 - length (digits 10 x)) ∙ number-digits 10 x (omega arith)

-- The digits of a number from the last one on.
unfoldable pub printed : List ℕ → List ℕ
printed [] = digits 10 0
printed (x ∷ []) = digits 10 x
printed (x ∷ y ∷ ys) = padded x ++ printed (y ∷ ys)

pub reverse-print_limbs : (xs : List ℕ) → reverse (print_limbs xs) ≡ printed xs
unfolding print_limbs printed
reverse-print_limbs [] = reverse-reverse (digits 10 0)
reverse-print_limbs (x ∷ []) = reverse-reverse (digits 10 x)
reverse-print_limbs (x ∷ y ∷ ys) =
    reverse-append (print_limbs (y ∷ ys)) (reverse (padded x))
    ∙ rw (reverse-reverse (padded x), reverse-print_limbs (y ∷ ys))

pub printed-AreDigits : (xs : List ℕ) → AreDigits (printed xs)
unfolding printed
printed-AreDigits [] = digits-AreDigits 10 0
printed-AreDigits (x ∷ []) = digits-AreDigits 10 x
printed-AreDigits (x ∷ y ∷ ys) =
    AreDigits-append (padded x) (printed (y ∷ ys)) (padded-AreDigits x) (printed-AreDigits (y ∷ ys))

pub take_exact : (n : ℕ) (xs ys : List ℕ) → length xs ≡ n → take n (xs ++ ys) ≡ xs
take_exact zero [] ys h = refl
take_exact zero (x ∷ xs) ys h = absurd (omega arith)
take_exact (suc n) [] ys h = absurd (omega arith)
take_exact (suc n) (x ∷ xs) ys h = ap (◌∷◌ x) (take_exact n xs ys (omega arith))

pub drop_exact : (n : ℕ) (xs ys : List ℕ) → length xs ≡ n → drop n (xs ++ ys) ≡ ys
drop_exact zero [] ys h = refl
drop_exact zero (x ∷ xs) ys h = absurd (omega arith)
drop_exact (suc n) [] ys h = absurd (omega arith)
drop_exact (suc n) (x ∷ xs) ys h = drop_exact n xs ys (omega arith)

take_short : (n : ℕ) (xs : List ℕ) → length xs ≤ n → take n xs ≡ xs
take_short zero [] h = refl
take_short zero (x ∷ xs) h = absurd (omega arith)
take_short (suc n) [] h = refl
take_short (suc n) (x ∷ xs) h = ap (◌∷◌ x) (take_short n xs (omega arith))

drop_short : (n : ℕ) (xs : List ℕ) → length xs ≤ n → drop n xs ≡ []
drop_short zero [] h = refl
drop_short zero (x ∷ xs) h = absurd (omega arith)
drop_short (suc n) [] h = refl
drop_short (suc n) (x ∷ xs) h = drop_short n xs (omega arith)

pub read_limbs_step :
    (fuel : ℕ) (cs : List ℕ)
    → 0 < length cs
    → read_limbs (suc fuel) cs ≡ limb_from 0 (reverse (take 9 cs)) ∷ read_limbs fuel (drop 9 cs)
unfolding read_limbs
read_limbs_step fuel [] h = absurd (omega arith)
read_limbs_step fuel (c ∷ cs) h = refl

pub read_limbs-nil : (fuel : ℕ) → read_limbs fuel [] ≡ []
unfolding read_limbs
read_limbs-nil zero = refl
read_limbs-nil (suc fuel) = refl

-- The digits of the highest limb.
pub read_limbs-digits : (fuel x : ℕ) → x < base → read_limbs (suc fuel) (digits 10 x) ≡ x ∷ []
read_limbs-digits fuel x h =
    let d = digits 10 x in
    read_limbs_step fuel d (digits_nonempty 9 x)
    ∙ rw (
      take_short 9 d (digits_short 10 8 x h),
      drop_short 9 d (digits_short 10 8 x h),
      read_limbs-nil fuel,
      limb_from-reverse d (digits-AreDigits 10 x),
      number-digits 10 x (omega arith),
    )
