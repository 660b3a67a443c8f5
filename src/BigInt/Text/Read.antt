-- ===== src/BigInt/Text/Read.antt =====
-- What `read` of `bigint` gives (StateDatabase/bigint.h).
use mathlib.Core.List.{reverse}
use state_db.Base.{
  ℕ, zero, suc, ◌^◌, ◌≤◌, ◌<◌, ◌≡◌, refl, true, some, Option, List, [], ◌∷◌, length, take, drop,
  arith, Bool-cases, inl, inr, length-take,
}
use state_db.BigInt.{BigInt, Sign, plus, minus, trim, trim_limbs, drop_zero, sign_of_limbs}
use state_db.BigInt.Value.{IsLimbs}
use state_db.BigInt.Order.{IsTrimmed}
use state_db.BigInt.Text.{
  to_string, read_sign, read_limbs, all_digits, read_digits, read, print_limbs,
}
use state_db.BigInt.Text.Digits.{AreDigits, number, limb_from-reverse, ten_pow}
use state_db.BigInt.Text.RoundTrip.{reverse-AreDigits, read_lem, print_limbs-AreDigits}

-- A number as `read` leaves it.
pub record IsRead (n : BigInt) : Type 0 where
  pub limbs : IsLimbs n.a
  pub trimmed : IsTrimmed n.a
  pub zero_plus : length n.a ≡ 0 → n.sign ≡ plus

all_digits-AreDigits : (cs : List ℕ) → all_digits cs ≡ true → AreDigits cs
unfolding all_digits
all_digits-AreDigits [] h = tt
all_digits-AreDigits (c ∷ cs) h = ground (arith, all_digits-AreDigits cs)

take-AreDigits : (n : ℕ) (cs : List ℕ) → AreDigits cs → AreDigits (take n cs)
take-AreDigits zero cs h = tt
take-AreDigits (suc n) [] h = tt
take-AreDigits (suc n) (c ∷ cs) h = (h.0, h.1, take-AreDigits n cs h.2)

drop-AreDigits : (n : ℕ) (cs : List ℕ) → AreDigits cs → AreDigits (drop n cs)
drop-AreDigits zero cs h = h
drop-AreDigits (suc n) [] h = tt
drop-AreDigits (suc n) (c ∷ cs) h = drop-AreDigits n cs h.2

number-lt : (n : ℕ) (cs : List ℕ) → AreDigits cs → length cs ≤ n → number cs < 10 ^ n
number-lt zero [] h l = omega arith
number-lt zero (c ∷ cs) h l = absurd (omega arith)
number-lt (suc n) [] h l = omega (arith, number-lt n [] tt (omega arith), ten_pow n)
number-lt (suc n) (c ∷ cs) h l = omega (arith, number-lt n cs h.2 (omega arith), ten_pow n)

read_limbs-IsLimbs : (fuel : ℕ) (cs : List ℕ) → AreDigits cs → IsLimbs (read_limbs fuel cs)
unfolding read_limbs
read_limbs-IsLimbs zero cs h = tt
read_limbs-IsLimbs (suc fuel) [] h = tt
read_limbs-IsLimbs (suc fuel) (c ∷ cs) h =
    let d = take 9 (c ∷ cs) in
    let k = take-AreDigits 9 (c ∷ cs) h in
    (
      omega (
        arith,
        limb_from-reverse d k,
        number-lt 9 d k (omega (arith, length-take {0} 9 (c ∷ cs))),
      ),
      read_limbs-IsLimbs fuel (drop 9 (c ∷ cs)) (drop-AreDigits 9 (c ∷ cs) h),
    )

trim_limbs-IsLimbs : (xs : List ℕ) → IsLimbs xs → IsLimbs (trim_limbs xs)
unfolding trim_limbs
trim_limbs-IsLimbs [] h = tt
trim_limbs-IsLimbs (x ∷ xs) h = go (trim_limbs xs) (trim_limbs-IsLimbs xs h.1)
  where
    go : (ys : List ℕ) → IsLimbs ys → IsLimbs (drop_zero x ys)
    go [] k = ground arith
    go (y ∷ ys) k = (h.0, k)

trimmed : (xs : List ℕ) → IsTrimmed (trim_limbs xs)
unfolding trim_limbs
trimmed [] = tt
trimmed (x ∷ xs) = go (trim_limbs xs) (trimmed xs)
  where
    go : (ys : List ℕ) → IsTrimmed ys → IsTrimmed (drop_zero x ys)
    go [] k = ground arith
    go (y ∷ ys) k = k

pub trim-IsRead : (n : BigInt) → IsLimbs n.a → IsRead (trim n)
unfolding trim
trim-IsRead n h = record {
  limbs = trim_limbs-IsLimbs n.a h;
  trimmed = trimmed n.a;
  zero_plus = go (trim_limbs n.a);
}
  where
    go : (l : List ℕ) → length l ≡ 0 → sign_of_limbs l n.sign ≡ plus
    go [] e = refl
    go (x ∷ xs) e = absurd (omega arith)

inject : (b c : BigInt) → ◌≡◌ {A = Option BigInt} (some b) (some c) → b ≡ c
inject b c e = cc

read_digits-IsRead : (s : Sign) (cs : List ℕ) (b : BigInt) → read_digits s cs ≡ some b → IsRead b
unfolding read_digits
read_digits-IsRead s cs b e = elim (Bool-cases (all_digits cs)) [
  | inl h ↦
      let n : BigInt = record { a = read_limbs (length cs) (reverse cs); sign = s } in
      rw (← inject (trim n) b (rw h at e)) (
        trim-IsRead n (
          read_limbs-IsLimbs (length cs) (reverse cs)
            (reverse-AreDigits cs (all_digits-AreDigits cs h))))
  | inr h ↦ cc
]

-- Whatever text `read` accepts, the number has limbs below the base, no leading zero, and the sign
-- of zero is positive.
pub read-IsRead : (cs : List ℕ) (b : BigInt) → read cs ≡ some b → IsRead b
unfolding read
read-IsRead cs b e = read_digits-IsRead (read_sign plus cs).0 (read_sign plus cs).1 b e

pub read_again : (cs : List ℕ) (b : BigInt) → read cs ≡ some b → read (to_string b) ≡ some b
read_again cs b e = let r = read-IsRead cs b e in read_lem b.sign b.a r.limbs r.trimmed r.zero_plus

abbrev pub AreNonzero : List ℕ → Type 0
AreNonzero [] = Unit {0}
AreNonzero (c ∷ cs) = (0 < c) × AreNonzero cs

digits-AreNonzero : (cs : List ℕ) → AreDigits cs → AreNonzero cs
digits-AreNonzero [] h = tt
digits-AreNonzero (c ∷ cs) h = (omega arith, digits-AreNonzero cs h.2)

-- The text of a number holds no zero byte.
pub to_string-AreNonzero : (b : BigInt) → AreNonzero (to_string b)
unfolding to_string
to_string-AreNonzero b = go b.sign
  where
    text : AreNonzero (print_limbs b.a)
    text = digits-AreNonzero (print_limbs b.a) (print_limbs-AreDigits b.a)

    go : (s : Sign) → AreNonzero (elim s [ plus ↦ print_limbs b.a | minus ↦ 45 ∷ print_limbs b.a ])
    go plus = text
    go minus = (omega arith, text)
