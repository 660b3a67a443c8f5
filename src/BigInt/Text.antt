-- ===== src/BigInt/Text.antt =====
-- `read` and `operator<<` of `bigint` (StateDatabase/bigint.h), on texts as sequences of characters.
-- The loops that go from the end of a text downwards go along the reversed text. They index with an
-- `int`, so a text has fewer than 2^31 characters.
use mathlib.Core.List.{reverse}
use state_db.Base.{
  ℕ, zero, suc, ◌+◌, ◌-◌, ◌*◌, ◌/◌, ◌%◌, Bool, true, false, Option, none, some, List, [], ◌∷◌, ◌++◌,
  ◌&&◌, ltb, leb, ◌==◌, if◌then◌else◌, length, take, drop, replicate,
}
use state_db.BigInt.{BigInt, Sign, plus, minus, flip, trim}
pub mod Digits
pub mod RoundTrip
pub mod Read
mod Examples

-- base_digits
abbrev pub base_digits : ℕ
base_digits = 9

-- The decimal digits that the stream writes for an `int`, lowest first; ten are enough for any.
unfoldable pub digits : ℕ → ℕ → List ℕ
digits zero x = []
digits (suc fuel) x =
    let more = digits fuel (x / 10) in if ltb x 10 then (48 + x) ∷ [] else (48 + x % 10) ∷ more

-- The same at a width of nine, filled with zeros.
unfoldable pub padded : ℕ → List ℕ
unfolding digits
padded x = let d = digits 10 x in d ++ replicate (base_digits - length d) 48

-- What `operator<<` writes of the limbs: the highest plain, the others padded.
unfoldable pub print_limbs : List ℕ → List ℕ
unfolding digits padded
print_limbs [] = reverse (digits 10 0)
print_limbs (x ∷ []) = reverse (digits 10 x)
print_limbs (x ∷ y ∷ ys) = print_limbs (y ∷ ys) ++ reverse (padded x)

-- `operator<<`, and `to_string`, which reads the one word back from a stream.
unfoldable pub to_string : BigInt → List ℕ
unfolding print_limbs
to_string n = elim n.sign [ plus ↦ print_limbs n.a | minus ↦ 45 ∷ print_limbs n.a ]

-- The signs before the digits.
unfoldable pub read_sign : Sign → List ℕ → Sign × List ℕ
read_sign s [] = (s, [])
read_sign s (c ∷ cs) =
    let back = read_sign (flip s) cs in
    let on = read_sign s cs in if c == 45 then back else if c == 43 then on else (s, c ∷ cs)

-- The inner loop of `read`, on the digits of one limb.
unfoldable pub limb_from : ℕ → List ℕ → ℕ
limb_from x [] = x
limb_from x (c ∷ cs) = limb_from (x * 10 + c - 48) cs

-- The outer loop of `read`, on the digits from the last one on; `fuel` bounds their number. Its index
-- is an `int`, which holds those of a text of fewer than 2^31 characters.
unfoldable pub read_limbs : ℕ → List ℕ → List ℕ
unfolding limb_from
read_limbs zero cs = []
read_limbs (suc fuel) [] = []
read_limbs (suc fuel) (c ∷ cs) =
    limb_from 0 (reverse (take base_digits (c ∷ cs))) ∷ read_limbs fuel (drop base_digits (c ∷ cs))

abbrev pub is_digit : ℕ → Bool
is_digit c = leb 48 c && leb c 57

unfoldable pub all_digits : List ℕ → Bool
all_digits [] = true
all_digits (c ∷ cs) = is_digit c && all_digits cs

unfoldable pub read_digits : Sign → List ℕ → Option BigInt
unfolding read_limbs all_digits trim
read_digits s cs =
    if all_digits cs
    then some (trim (record { a = read_limbs (length cs) (reverse cs); sign = s }))
    else none

-- `read`. A character that is no digit gives the code a limb outside of `[0, base)`, where an `int`
-- may overflow; the model gives `none` there.
unfoldable pub read : List ℕ → Option BigInt
unfolding read_sign read_digits
read cs = let (s, rest) = read_sign plus cs in read_digits s rest
