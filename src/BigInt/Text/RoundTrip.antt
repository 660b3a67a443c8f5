-- ===== src/BigInt/Text/RoundTrip.antt =====
-- A `bigint` is read back from its text (StateDatabase/bigint.h).
use mathlib.Core.List.{reverse, reverse-reverse, reverse-cons}
use state_db.Base.{
  ℕ, zero, suc, ◌^◌, ◌≤◌, ◌<◌, ◌≡◌, refl, true, some, List, [], ◌∷◌, ◌++◌, length, arith, ap, ◌∙◌,
  sym, length-append,
}
use state_db.BigInt.{BigInt, Sign, plus, minus, trim, trim_limbs}
use state_db.BigInt.Value.{IsLimbs}
use state_db.BigInt.Order.{IsTrimmed, IsCanonical}
use state_db.BigInt.Text.{
  digits, padded, print_limbs, to_string, read_sign, limb_from, read_limbs, all_digits, read_digits,
  read,
}
use state_db.BigInt.Text.Digits.{
  AreDigits, printed, reverse-print_limbs, printed-AreDigits, AreDigits-append, take_exact,
  drop_exact, read_limbs_step, read_limbs-digits, number-padded, padded-AreDigits, length-padded,
  limb_from-reverse, digits_nonempty,
}

read_limbs-printed :
    (fuel x : ℕ) (xs : List ℕ)
    → IsLimbs (x ∷ xs)
    → length (printed (x ∷ xs)) ≤ fuel
    → read_limbs fuel (printed (x ∷ xs)) ≡ x ∷ xs
unfolding printed
read_limbs-printed zero x [] l h = absurd (omega (arith, digits_nonempty 9 x))
read_limbs-printed (suc fuel) x [] l h = read_limbs-digits fuel x l.0
read_limbs-printed zero x (y ∷ ys) l h =
    absurd (omega (arith, length-append {0} (padded x) (printed (y ∷ ys)), length-padded x l.0))
read_limbs-printed (suc fuel) x (y ∷ ys) l h =
    let rest = printed (y ∷ ys) in
    let size = length-padded x l.0 in
    let total = length-append {0} (padded x) rest in
    read_limbs_step fuel (padded x ++ rest) (omega (arith, size, total))
    ∙ rw
        (
          take_exact 9 (padded x) rest size,
          drop_exact 9 (padded x) rest size,
          limb_from-reverse (padded x) (padded-AreDigits x),
          number-padded x l.0,
        )
        (ap (◌∷◌ x) (read_limbs-printed fuel y ys l.1 (omega (arith, size, total))))

pub length-reverse : (cs : List ℕ) → length (reverse cs) ≡ length cs
length-reverse [] = refl
length-reverse (c ∷ cs) =
    rw (reverse-cons c cs)
      (omega (arith, length-append {0} (reverse cs) (c ∷ []), length-reverse cs))

pub reverse-AreDigits : (cs : List ℕ) → AreDigits cs → AreDigits (reverse cs)
reverse-AreDigits [] h = tt
reverse-AreDigits (c ∷ cs) h =
    rw (reverse-cons c cs)
      (AreDigits-append (reverse cs) (c ∷ []) (reverse-AreDigits cs h.2) (h.0, h.1, tt))

all_digits-true : (cs : List ℕ) → AreDigits cs → all_digits cs ≡ true
unfolding all_digits
all_digits-true [] h = refl
all_digits-true (c ∷ cs) h = ground (arith, all_digits-true cs h.2)

read_sign-digits : (s : Sign) (cs : List ℕ) → AreDigits cs → read_sign s cs ≡ (s, cs)
unfolding read_sign
read_sign-digits s [] h = refl
read_sign-digits s (c ∷ cs) h = ground arith

pub print_limbs-AreDigits : (xs : List ℕ) → AreDigits (print_limbs xs)
print_limbs-AreDigits xs =
    rw (← reverse-reverse (print_limbs xs), reverse-print_limbs xs)
      (reverse-AreDigits (printed xs) (printed-AreDigits xs))

trim_limbs-IsTrimmed : (xs : List ℕ) → IsTrimmed xs → trim_limbs xs ≡ xs
unfolding trim_limbs
trim_limbs-IsTrimmed [] t = refl
trim_limbs-IsTrimmed (x ∷ []) t = ground arith
trim_limbs-IsTrimmed (x ∷ y ∷ ys) t = rw (trim_limbs-IsTrimmed (y ∷ ys) t)

zero_text : (s : Sign) → read_digits s (print_limbs []) ≡ some (record { a = []; sign = plus })
unfolding read_digits print_limbs digits all_digits read_limbs limb_from trim trim_limbs
zero_text s = refl

read_digits-print_limbs :
    (s : Sign) (xs : List ℕ)
    → IsLimbs xs
    → IsTrimmed xs
    → (length xs ≡ 0 → s ≡ plus)
    → read_digits s (print_limbs xs) ≡ some (record { a = xs; sign = s })
unfolding read_digits trim
read_digits-print_limbs s [] l t z =
    zero_text s ∙ ap (λ (p : Sign). some (record { a = []; sign = p })) (sym (z refl))
read_digits-print_limbs s (x ∷ xs) l t z =
    let cs = print_limbs (x ∷ xs) in
    let size = length-reverse cs in
    rw (
      all_digits-true cs (print_limbs-AreDigits (x ∷ xs)),
      reverse-print_limbs (x ∷ xs),
      read_limbs-printed (length cs) x xs l
          (omega (arith, size, ap length (reverse-print_limbs (x ∷ xs)))),
      trim_limbs-IsTrimmed (x ∷ xs) t,
    )

-- The same without a bound on the count of limbs.
pub read_lem :
    (s : Sign) (xs : List ℕ)
    → IsLimbs xs
    → IsTrimmed xs
    → (length xs ≡ 0 → s ≡ plus)
    → read (to_string (record { a = xs; sign = s })) ≡ some (record { a = xs; sign = s })
unfolding read to_string read_sign
read_lem plus xs l t z =
    rw (read_sign-digits plus (print_limbs xs) (print_limbs-AreDigits xs))
      (read_digits-print_limbs plus xs l t z)
read_lem minus xs l t z =
    rw (read_sign-digits minus (print_limbs xs) (print_limbs-AreDigits xs))
      (read_digits-print_limbs minus xs l t z)

-- A canonical number whose text has fewer than 2^31 characters, which `read` indexes with an `int`,
-- is read back from its text.
pub read-to_string :
    (n : BigInt) → IsCanonical n → length (to_string n) < 2 ^ 31 → read (to_string n) ≡ some n
read-to_string n c h = read_lem n.sign n.a c.limbs c.trimmed c.zero_plus

print_limbs_nonempty : (xs : List ℕ) → 0 < length (print_limbs xs)
unfolding print_limbs
print_limbs_nonempty [] = omega (arith, length-reverse (digits 10 0), digits_nonempty 9 0)
print_limbs_nonempty (x ∷ []) = omega (arith, length-reverse (digits 10 x), digits_nonempty 9 x)
print_limbs_nonempty (x ∷ y ∷ ys) = omega (
  arith,
  length-append {0} (print_limbs (y ∷ ys)) (reverse (padded x)),
  print_limbs_nonempty (y ∷ ys),
)

sign_and_limbs : (s : Sign) (xs : List ℕ) → 0 < length (to_string (record { a = xs; sign = s }))
unfolding to_string
sign_and_limbs plus xs = print_limbs_nonempty xs
sign_and_limbs minus xs = omega arith

-- No number has an empty text.
pub to_string_nonempty : (n : BigInt) → 0 < length (to_string n)
to_string_nonempty n = sign_and_limbs n.sign n.a
