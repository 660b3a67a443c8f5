-- ===== src/BigInt/Measure.antt =====
-- `size`, `sumof` and `longValue` of `bigint` (StateDatabase/bigint.h). `none` is a count that an
-- `int` or a sum that a `long long` does not hold. A vector has fewer than 2^30 limbs, as in BigInt.
use mathlib.Core.List.{reverse}
use state_db.Base.{
  ℕ, zero, suc, ◌+◌, ◌-◌, ◌*◌, ◌/◌, ◌^◌, ◌≤◌, ◌<◌, ◌≡◌, refl, Bool, true, false, Option, none, some,
  List, [], ◌∷◌, ◌++◌, ◌==◌, ltb, ltb→lt, lt→ltb, le→ltb, Bool-cases, inl, inr, if◌then◌else◌,
  length, arith, ap, ◌∙◌, sym, length-append,
}
use state_db.Base.Int.{ℤ, pos, sub_ℕ, ◌+ℤ◌}
use state_db.BigInt.{BigInt, Sign, plus, minus, base, abs}
use state_db.BigInt.Value.{value, IsLimbs}
use state_db.BigInt.Order.{IsCanonical, IsTrimmed, signed, to_ℤ}
use state_db.BigInt.Division.{then_some, as_int}
use state_db.BigInt.Text.{base_digits, digits, padded, print_limbs, to_string}
use state_db.BigInt.Text.Digits.{length-padded, ten_pow}
use state_db.BigInt.Product.Digits.{pow_add}
use state_db.BigInt.Text.RoundTrip.{length-reverse}
mod Examples

-- `while (ca) ans++, ca /= 10`; ten rounds are enough for an `int`.
unfoldable pub count_digits : ℕ → ℕ → ℕ
count_digits zero ca = 0
count_digits (suc fuel) ca =
    let more = count_digits fuel (ca / 10) in if ca == 0 then 0 else suc more

unfoldable pub top_size : List ℕ → ℕ
unfolding count_digits
top_size [] = 0
top_size (x ∷ []) = count_digits 10 x
top_size (x ∷ y ∷ ys) = top_size (y ∷ ys)

unfoldable pub size : BigInt → Option ℕ
unfolding top_size
size n = elim n.a [ [] ↦ some 0 | x ∷ xs ↦ as_int (length xs * base_digits + top_size (x ∷ xs)) ]

-- The sum over the characters, each less the character of zero.
unfoldable pub char_sum : List ℕ → ℤ
char_sum [] = pos 0
char_sum (c ∷ cs) = char_sum cs +ℤ sub_ℕ c 48

unfoldable pub sumof : BigInt → ℤ
unfolding to_string char_sum
sumof n = char_sum (to_string n)

-- The loop of `longValue`, from the highest limb down, with an `int` for the index.
unfoldable pub long_loop : List ℕ → Option ℕ
long_loop [] = some 0
long_loop (x ∷ xs) =
    then_some (long_loop xs)
      (λ res. if ltb (res * base + x) (2 ^ 63) then some (res * base + x) else none)

unfoldable pub long_value : BigInt → Option ℤ
unfolding long_loop
long_value n = then_some (long_loop n.a) (λ res. some (signed n.sign res))

long_loop_fits : (xs : List ℕ) → value xs < 2 ^ 63 → long_loop xs ≡ some (value xs)
unfolding long_loop
long_loop_fits [] h = refl
long_loop_fits (x ∷ xs) h =
    let shape : value xs * base + x ≡ x + base * value xs = omega arith in
    rw (long_loop_fits xs (omega (arith, h)), shape, lt→ltb (x + base * value xs) (2 ^ 63) h) refl

long_loop_over : (xs : List ℕ) → 2 ^ 63 ≤ value xs → long_loop xs ≡ none
unfolding long_loop
long_loop_over [] h = absurd (omega (arith, h))
long_loop_over (x ∷ xs) h = elim (Bool-cases (ltb (value xs) (2 ^ 63))) [
  | inl t ↦
      let shape : value xs * base + x ≡ x + base * value xs = omega arith in
      rw
        (
          long_loop_fits xs (ltb→lt (value xs) (2 ^ 63) t),
          shape,
          le→ltb (x + base * value xs) (2 ^ 63) h,
        )
        refl
  | inr f ↦ rw (long_loop_over xs (ground (arith, f))) refl
]

-- `longValue` gives the integer where the magnitude is below 2^63, and overflows at every other
-- number.
pub long_value-to_ℤ :
    (n : BigInt) → long_value n ≡ (if ltb (value n.a) (2 ^ 63) then some (to_ℤ n) else none)
unfolding long_value
long_value-to_ℤ n = elim (Bool-cases (ltb (value n.a) (2 ^ 63))) [
  | inl t ↦ rw (long_loop_fits n.a (ltb→lt (value n.a) (2 ^ 63) t), t) refl
  | inr f ↦ rw (long_loop_over n.a (ground (arith, f)), f) refl
]

count_digits_none : (fuel : ℕ) → count_digits fuel 0 ≡ 0
unfolding count_digits
count_digits_none zero = refl
count_digits_none (suc fuel) = refl

some_digit : (x : ℕ) → 0 < x → (x == 0) ≡ false
some_digit x h = ground arith

length-digits-count_digits :
    (fuel x : ℕ) → 0 < x → x < 10 ^ fuel → length (digits fuel x) ≡ count_digits fuel x
unfolding digits count_digits
length-digits-count_digits zero x p h = absurd (omega (arith, p, h))
length-digits-count_digits (suc fuel) x p h = elim (Bool-cases (ltb x 10)) [
  | inl t ↦
      let last : x / 10 ≡ 0 = omega (arith, ltb→lt x 10 t) in
      rw (t, some_digit x p, last, count_digits_none fuel) refl
  | inr f ↦
      let more : 10 ≤ x = ground (arith, f) in
      rw (f, some_digit x p)
        (ap (λ (k : ℕ). suc k)
          (length-digits-count_digits fuel (x / 10) (omega (arith, more))
            (omega (arith, h, ten_pow fuel))))
]

-- A number of as many decimal digits.
pub record IsSize (v k : ℕ) : Type 0 where
  pub least : 10 ^ k ≤ 10 * v
  pub below : v < 10 ^ k

count_digits-IsSize : (fuel x : ℕ) → 0 < x → x < 10 ^ fuel → IsSize x (count_digits fuel x)
unfolding count_digits
count_digits-IsSize zero x p h = absurd (omega (arith, p, h))
count_digits-IsSize (suc fuel) x p h = elim (Bool-cases (ltb x 10)) [
  | inl t ↦
      let last : x / 10 ≡ 0 = omega (arith, ltb→lt x 10 t) in
      rw (some_digit x p, last, count_digits_none fuel)
        (record { least = omega (arith, p); below = omega (arith, ltb→lt x 10 t) })
  | inr f ↦
      let more : 10 ≤ x = ground (arith, f) in
      let rest =
        count_digits-IsSize fuel (x / 10) (omega (arith, more)) (omega (arith, h, ten_pow fuel)) in
      let next = ten_pow (count_digits fuel (x / 10)) in
      rw (some_digit x p) (record {
        least = omega (arith, rest.least, next);
        below = omega (arith, rest.below, next);
      })
]

-- The count of the digits of the limbs.
abbrev limbs_size : List ℕ → ℕ
limbs_size [] = 0
limbs_size (x ∷ xs) = length xs * base_digits + top_size (x ∷ xs)

size_more : (y x : ℕ) (xs : List ℕ) → limbs_size (y ∷ x ∷ xs) ≡ limbs_size (x ∷ xs) + 9
unfolding top_size
size_more y x xs = omega arith

size_one : (x : ℕ) → limbs_size (x ∷ []) ≡ count_digits 10 x
unfolding top_size
size_one x = omega arith

limbs_size-IsSize :
    (x : ℕ) (xs : List ℕ)
    → IsLimbs (x ∷ xs)
    → IsTrimmed (x ∷ xs)
    → IsSize (value (x ∷ xs)) (limbs_size (x ∷ xs))
unfolding top_size
limbs_size-IsSize x [] l t =
    let one = count_digits-IsSize 10 x t (omega (arith, l.0)) in
    rw (size_one x) (record { least = omega (arith, one.least); below = omega (arith, one.below) })
limbs_size-IsSize x (y ∷ ys) l t =
    let rest = limbs_size-IsSize y ys l.1 t in
    let k = limbs_size (y ∷ ys) in
    let more : 10 ^ (k + 9) ≡ 1_000_000_000 * 10 ^ k = omega (arith, pow_add 10 k 9) in
    rw (size_more x y ys) (record {
      least = omega (arith, more, rest.least);
      below = omega (arith, more, rest.below, l.0);
    })

length-print_limbs :
    (x : ℕ) (xs : List ℕ)
    → IsLimbs (x ∷ xs)
    → IsTrimmed (x ∷ xs)
    → length (print_limbs (x ∷ xs)) ≡ limbs_size (x ∷ xs)
unfolding print_limbs top_size
length-print_limbs x [] l t =
    length-reverse (digits 10 x)
    ∙ length-digits-count_digits 10 x t (omega (arith, l.0))
    ∙ sym (size_one x)
length-print_limbs x (y ∷ ys) l t = omega (
  arith,
  length-append {0} (print_limbs (y ∷ ys)) (reverse (padded x)),
  length-print_limbs y ys l.1 t,
  length-reverse (padded x),
  length-padded x l.0,
  size_more x y ys,
)

limbs_text :
    (s : Sign) (xs : List ℕ)
    → IsLimbs xs
    → IsTrimmed xs
    → 0 < value xs
    → (size (record { a = xs; sign = s }) ≡ as_int (length (print_limbs xs)))
      × IsSize (value xs) (length (print_limbs xs))
unfolding size
limbs_text s [] l t h = absurd (omega (arith, h))
limbs_text s (x ∷ xs) l t h =
    let same = length-print_limbs x xs l t in rw same (refl, limbs_size-IsSize x xs l t)

-- The text of the absolute value of a canonical number other than zero has as many characters as
-- its magnitude has decimal digits. `size` is their count where that is below 2^31, and does not fit
-- an `int` otherwise.
pub size-IsSize :
    (n : BigInt)
    → IsCanonical n
    → 0 < value n.a
    → (size n ≡ (
        if ltb (length (to_string (abs n))) (2 ^ 31)
        then some (length (to_string (abs n)))
        else none))
      × IsSize (value n.a) (length (to_string (abs n)))
unfolding to_string abs as_int
size-IsSize n c h = limbs_text n.sign n.a c.limbs c.trimmed h
