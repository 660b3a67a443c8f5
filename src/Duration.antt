-- ===== src/Duration.antt =====
-- The text of a duration (StateDatabase/format_utils.cpp), which may be negative.
use mathlib.Core.List.{reverse}
use state_db.Base.{
  ℕ, suc, ◌-◌, ◌/◌, ◌%◌, List, [], ◌∷◌, ◌++◌, ◌==◌, if◌then◌else◌, length, replicate,
}
use state_db.Base.Int.{ℤ, pos, negsuc}
use state_db.BigInt.{Sign, plus, minus}
use state_db.BigInt.Text.{digits}
pub mod RoundTrip
mod Examples

-- The characters of a number, the last one first; twenty digits are enough for 64 bits.
abbrev pub int_text : Sign → ℕ → List ℕ
int_text plus x = digits 20 x
int_text minus x = if x == 0 then digits 20 x else digits 20 x ++ 45 ∷ []

-- A number at a width. The zeros that fill it stand before the sign.
unfoldable pub filled : ℕ → Sign → ℕ → List ℕ
unfolding digits
filled width s x = let d = int_text s x in reverse (d ++ replicate (width - length d) 48)

abbrev pub colon : ℕ
colon = 58

abbrev pub before_colon : List ℕ → List ℕ → List ℕ
before_colon text rest = text ++ colon ∷ rest

-- The fields of `c` milliseconds with a sign: the divisions of the code cut off towards zero, and its
-- remainders have the sign of `c`, so they are those of the magnitude, with the sign.
unfoldable pub duration_text : Sign → ℕ → List ℕ
unfolding filled
duration_text s c = before_colon (filled 0 s (c / 3_600_000 / 24)) (
    before_colon (filled 2 s (c / 3_600_000 % 24)) (
      before_colon (filled 2 s (c / 60_000 % 60))
        (before_colon (filled 2 s (c / 1_000 % 60)) (filled 3 s (c % 1_000)))))

-- On the count of milliseconds, a `long long`.
unfoldable pub format_duration : ℤ → List ℕ
unfolding duration_text
format_duration (pos c) = duration_text plus c
format_duration (negsuc n) = duration_text minus (suc n)
