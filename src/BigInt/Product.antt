-- ===== src/BigInt/Product.antt =====
-- The product of two `bigint`s (StateDatabase/bigint.h): both are converted to limbs of six digits,
-- multiplied by Karatsuba's method, and the result is converted back. The coefficients are `long
-- long`s, of which none is negative.
use Prim.Native.Nat.{bit_and}
use mathlib.Core.Option.{map as map_option}
use state_db.Base.{
  ℕ, zero, suc, ◌+◌, ◌-◌, ◌*◌, ◌/◌, ◌%◌, ◌^◌, Bool, true, false, Option, none, some, List, [], ◌∷◌,
  ◌++◌, leb, ltb, ◌==◌, if◌then◌else◌, length, take, drop, replicate,
}
use state_db.BigInt.{BigInt, plus, minus, same_sign, trim, trim_limbs}
pub mod Digits
pub mod School
pub mod Level
pub mod Karatsuba
pub mod Power
pub mod Carry
pub mod Times
pub mod Signed
mod Examples

-- The inner loop of `convert_base`: the limbs that are pushed, and `cur` and `cur_digits` afterwards.
unfoldable pub emit : ℕ → ℕ → ℕ → ℕ → List ℕ × ℕ × ℕ
emit zero new cur d = ([], cur, d)
emit (suc fuel) new cur d =
    let (out, c, e) = emit fuel new (cur / 10 ^ new) (d - new) in
    if leb new d then (cur % 10 ^ new ∷ out, c, e) else ([], cur, d)

-- The outer loop, and the last limb.
unfoldable pub convert_from : ℕ → ℕ → List ℕ → ℕ → ℕ → List ℕ
unfolding emit
convert_from old new [] cur d = cur ∷ []
convert_from old new (x ∷ xs) cur d =
    let (out, c, e) = emit (d + old) new (cur + x * 10 ^ d) (d + old) in
    out ++ convert_from old new xs c e

unfoldable pub convert_base : List ℕ → ℕ → ℕ → List ℕ
unfolding convert_from trim_limbs
convert_base a old new = trim_limbs (convert_from old new a 0 0)

-- One pass of the inner loop for `n <= 32`, on `res` from the index `i` on. A write behind the end is
-- not met.
unfoldable pub add_row : ℕ → List ℕ → List ℕ → List ℕ
add_row x [] res = res
add_row x (b ∷ bs) [] = []
add_row x (b ∷ bs) (r ∷ rs) = (r + x * b) ∷ add_row x bs rs

abbrev pub keep_first : (List ℕ → List ℕ) → List ℕ → List ℕ
keep_first f [] = []
keep_first f (r ∷ rs) = r ∷ f rs

unfoldable pub add_rows : List ℕ → List ℕ → List ℕ → List ℕ
unfolding add_row
add_rows [] bs res = res
add_rows (a ∷ more) bs res = keep_first (add_rows more bs) (add_row a bs res)

-- `a2[i] += a1[i]` and `r[i] -= a1b1[i]`, over the second vector.
unfoldable pub add_all : List ℕ → List ℕ → List ℕ
add_all rs [] = rs
add_all [] (x ∷ xs) = []
add_all (r ∷ rs) (x ∷ xs) = (r + x) ∷ add_all rs xs

unfoldable pub sub_all : List ℕ → List ℕ → List ℕ
sub_all rs [] = rs
sub_all [] (x ∷ xs) = []
sub_all (r ∷ rs) (x ∷ xs) = (r - x) ∷ sub_all rs xs

-- `res[i + k] += r[i]`.
unfoldable pub add_at : ℕ → List ℕ → List ℕ → List ℕ
unfolding add_all
add_at zero rs res = add_all res rs
add_at (suc k) rs [] = []
add_at (suc k) rs (x ∷ res) = x ∷ add_at k rs res

-- The three products, put together at `k` and `n`.
unfoldable pub combine : ℕ → ℕ → List ℕ → List ℕ → List ℕ → List ℕ
unfolding add_at sub_all
combine k n a1b1 a2b2 r =
    let mid = sub_all (sub_all r a1b1) a2b2 in
    add_at n a2b2 (add_at zero a1b1 (add_at k mid (replicate (n + n) 0)))

-- The product for `n <= 32`.
unfoldable pub school : List ℕ → List ℕ → List ℕ
unfolding add_rows
school a b = add_rows a b (replicate (length a + length a) 0)

-- `karatsubaMultiply`; fuel bounds the depth, and `none` is fuel that is used up. The coefficients
-- are those that a `long long` holds, and the sizes an `int`: a length of at most 4096 and limbs below
-- a million, whose sums at the depth of seven are below 128 million, keep every one below 2^63.
abbrev pub both : {A B C : Type 0} → Option A → Option B → (A → B → Option C) → Option C
both none y f = none
both (some x) none f = none
both (some x) (some y) f = f x y

-- The body, where `product` is the call of itself and the flag says that `n <= 32`.
abbrev pub karatsuba_body :
    (List ℕ → List ℕ → Option (List ℕ)) → List ℕ → List ℕ → Bool → Option (List ℕ)
karatsuba_body product a b true = some (school a b)
karatsuba_body product a b false =
    let k = length a / 2 in
    both (product (take k a) (take k b)) (product (drop k a) (drop k b)) (λ a1b1 a2b2.
      map_option (combine k (length a) a1b1 a2b2)
        (product (add_all (drop k a) (take k a)) (add_all (drop k b) (take k b))))

unfoldable pub karatsuba_multiply : ℕ → List ℕ → List ℕ → Option (List ℕ)
unfolding school combine add_all
karatsuba_multiply zero a b = none
karatsuba_multiply (suc fuel) a b = karatsuba_body (karatsuba_multiply fuel) a b (leb (length a) 32)

-- The loop that pushes zeros until the length is a power of two, or none; at most `fuel` times.
unfoldable pub pad_to_power : ℕ → List ℕ → List ℕ → Option (List ℕ × List ℕ)
pad_to_power zero a b = none
pad_to_power (suc fuel) a b =
    let more = pad_to_power fuel (a ++ 0 ∷ []) (b ++ 0 ∷ []) in
    if bit_and (length a) (length a - 1) == 0 then some (a, b) else more

-- The loop of the carries. A quotient that is no `int` is cut off in a way that depends on the
-- machine: `none`. The carry behind the last coefficient is dropped.
unfoldable pub carry_loop : List ℕ → ℕ → Option (List ℕ)
carry_loop [] carry = some []
carry_loop (c ∷ cs) carry =
    let cur = c + carry in
    let more = carry_loop cs (cur / 1_000_000) in
    if ltb (cur / 1_000_000) (2 ^ 31) then map_option (◌∷◌ (cur % 1_000_000)) more else none

abbrev pub pad : ℕ → List ℕ → List ℕ
pad n a = a ++ replicate (n - length a) 0

abbrev pub and_then : {A B : Type 0} → Option A → (A → Option B) → Option B
and_then none f = none
and_then (some x) f = f x

-- `operator*`, on the limbs of six digits.
unfoldable pub times_limbs : List ℕ → List ℕ → Option (List ℕ)
unfolding pad_to_power karatsuba_multiply carry_loop
times_limbs a b =
    let n = length (pad (length b) a) in
    and_then (pad_to_power (n + 2) (pad (length b) a) (pad n b))
      (λ (a', b'). and_then (karatsuba_multiply (suc (length a')) a' b') (λ c. carry_loop c 0))

unfoldable pub times : BigInt → BigInt → Option BigInt
unfolding convert_base times_limbs trim
times m n =
    map_option
      (λ c.
        trim (record {
          a = convert_base c 6 9;
          sign = if same_sign m.sign n.sign then plus else minus;
        }))
      (times_limbs (convert_base m.a 9 6) (convert_base n.a 9 6))
