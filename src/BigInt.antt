-- ===== src/BigInt.antt =====
-- `bigint` of StateDatabase/bigint.h: a sign and base-10^9 limbs, lowest first. The `int`s of the
-- vector are limbs in `[0, base)`; a subtraction that would make one negative borrows at once.
--
-- The loops index the limbs with an `int`, and cast or assign `a.size()` to it. The definitions are
-- of vectors of fewer than 2^30 limbs, where the `int` holds every index, also of a limb that is added.
use state_db.Base.{
  ℕ, zero, suc, ◌+◌, ◌-◌, ◌*◌, ◌/◌, ◌%◌, ◌^◌, Bool, true, false, Option, none, some, List, [], ◌∷◌,
  ◌&&◌, not, ltb, leb, ◌==◌, if◌then◌else◌, length,
}
pub mod Value
pub mod Order
pub mod Arith
pub mod Scale
pub mod Convert
pub mod Closed
pub mod Sums
pub mod Division
pub mod Text
pub mod Product
pub mod Power
pub mod Lcm
pub mod Compare
pub mod Measure

abbrev pub base : ℕ
base = 1_000_000_000

pub data Sign : Type 0 where
  plus minus : Sign

pub record BigInt : Type 0 where
  pub a : List ℕ
  pub sign : Sign

abbrev pub flip : Sign → Sign
flip plus = minus
flip minus = plus

abbrev pub same_sign : Sign → Sign → Bool
same_sign plus plus = true
same_sign minus minus = true
same_sign _ _ = false

-- One limb of `operator+`: the limb that is stored, and the carry.
abbrev pub carry_limb : ℕ → ℕ
carry_limb s = if leb base s then s - base else s

abbrev pub carry_out : ℕ → ℕ
carry_out s = if leb base s then 1 else 0

-- The loop of `operator+` from some index on: the limbs of `*this`, those of `res`, the carry. The
-- sizes are cast to `int`, which holds those of fewer than 2^30 limbs.
unfoldable pub add_loop : List ℕ → List ℕ → ℕ → List ℕ
add_loop [] [] carry = if carry == 0 then [] else carry_limb carry ∷ []
add_loop [] (r ∷ rs) carry = carry_limb (r + carry) ∷ add_loop [] rs (carry_out (r + carry))
add_loop (x ∷ xs) [] carry = carry_limb (carry + x) ∷ add_loop xs [] (carry_out (carry + x))
add_loop (x ∷ xs) (r ∷ rs) carry =
    carry_limb (r + (carry + x)) ∷ add_loop xs rs (carry_out (r + (carry + x)))

-- One limb of `operator-`, where `d` is the limb with the carry to take away.
abbrev pub borrow_limb : ℕ → ℕ → ℕ
borrow_limb r d = if ltb r d then r + base - d else r - d

abbrev pub borrow_out : ℕ → ℕ → ℕ
borrow_out r d = if ltb r d then 1 else 0

-- The loop of `operator-` on the limbs of `res` and of `v`, fewer than 2^30 of each, as their count
-- is cast to `int`; `none` is an index out of range.
unfoldable pub sub_loop : List ℕ → List ℕ → ℕ → Option (List ℕ)
sub_loop [] [] carry = if carry == 0 then some [] else none
sub_loop [] (y ∷ ys) carry = none
sub_loop (r ∷ rs) [] carry =
    let rest = sub_loop rs [] (borrow_out r carry) in
    if carry == 0
    then some (r ∷ rs)
    else elim rest [ none ↦ none | some more ↦ some (borrow_limb r carry ∷ more) ]
sub_loop (r ∷ rs) (y ∷ ys) carry = elim (sub_loop rs ys (borrow_out r (carry + y))) [
  | none ↦ none
  | some more ↦ some (borrow_limb r (carry + y) ∷ more)
]

abbrev pub drop_zero : ℕ → List ℕ → List ℕ
drop_zero x [] = if x == 0 then [] else x ∷ []
drop_zero x (y ∷ ys) = x ∷ y ∷ ys

-- `trim`: zeros are taken off the back, and an empty number is positive.
unfoldable pub trim_limbs : List ℕ → List ℕ
trim_limbs [] = []
trim_limbs (x ∷ xs) = drop_zero x (trim_limbs xs)

abbrev pub sign_of_limbs : List ℕ → Sign → Sign
sign_of_limbs [] s = plus
sign_of_limbs (x ∷ xs) s = s

unfoldable pub trim : BigInt → BigInt
unfolding trim_limbs
trim n = let limbs = trim_limbs n.a in record { a = limbs; sign = sign_of_limbs limbs n.sign }

unfoldable pub negate : BigInt → BigInt
negate n = record n { sign = flip n.sign }

unfoldable pub abs : BigInt → BigInt
abs n = record n { sign = plus }

-- The pair of limbs at the highest index where two vectors of one size differ. The index starts as
-- an `int` at the size less one, so the vectors have fewer than 2^30 limbs.
unfoldable pub top_difference : List ℕ → List ℕ → Option (ℕ × ℕ)
top_difference [] ys = none
top_difference (x ∷ xs) [] = none
top_difference (x ∷ xs) (y ∷ ys) = elim (top_difference xs ys) [
  | some d ↦ some d
  | none ↦ if x == y then none else some (x, y)
]

abbrev pub size_mod : ℕ
size_mod = 2 ^ 64

-- `a.size() * sign`, a `size_t`.
abbrev pub signed_size : ℕ → Sign → ℕ
signed_size n plus = n
signed_size n minus = (size_mod - n) % size_mod

abbrev pub limb_less : Sign → Option (ℕ × ℕ) → Bool
limb_less s none = false
limb_less plus (some (x, y)) = ltb x y
limb_less minus (some (x, y)) = ltb y x

abbrev pub sign_less : Sign → Sign → Bool
sign_less minus plus = true
sign_less _ _ = false

-- `operator<`.
unfoldable pub less : BigInt → BigInt → Bool
unfolding top_difference
less m n =
    if same_sign m.sign n.sign
    then (if length m.a == length n.a
        then limb_less m.sign (top_difference m.a n.a)
        else ltb (signed_size (length m.a) m.sign) (signed_size (length n.a) n.sign))
    else sign_less m.sign n.sign

-- `operator-` at equal signs where the magnitude of `*this` is not the lesser one.
unfoldable pub sub_ge : BigInt → BigInt → Option BigInt
unfolding sub_loop trim
sub_ge m n = elim (sub_loop m.a n.a 0) [
  | none ↦ none
  | some limbs ↦ some (trim (record m { a = limbs }))
]

abbrev pub negate_result : Option BigInt → Option BigInt
negate_result none = none
negate_result (some n) = some (record n { sign = flip n.sign })

-- `operator-` at equal signs. Its call of itself with the operands swapped takes the first branch,
-- as the order is total, and is unrolled here.
unfoldable pub sub_same : BigInt → BigInt → Option BigInt
unfolding sub_ge less abs
sub_same m n = if not (less (abs m) (abs n)) then sub_ge m n else negate_result (sub_ge n m)

-- `operator+` and `operator-`: each calls the other on the negated operand at unequal signs.
unfoldable pub plus_op : BigInt → BigInt → Option BigInt
unfolding sub_same add_loop negate
plus_op m n =
    if same_sign m.sign n.sign
    then some (record n { a = add_loop m.a n.a 0 })
    else sub_same m (negate n)

unfoldable pub minus_op : BigInt → BigInt → Option BigInt
unfolding sub_same add_loop negate
minus_op m n =
    if same_sign m.sign n.sign
    then sub_same m n
    else some (record (negate n) { a = add_loop m.a n.a 0 })

-- `isZero`.
unfoldable pub is_zero : BigInt → Bool
is_zero n = elim n.a [ [] ↦ true | x ∷ xs ↦ (length xs == 0) && (x == 0) ]

-- The carry that is left behind the limbs in `operator*=(int)`; three limbs hold any `int`.
unfoldable pub push_carry : ℕ → ℕ → List ℕ
push_carry zero c = []
push_carry (suc fuel) c =
    let rest = push_carry fuel (c / base) in if c == 0 then [] else c % base ∷ rest

unfoldable pub mul_loop : List ℕ → ℕ → ℕ → List ℕ
unfolding push_carry
mul_loop [] v carry = push_carry 3 carry
mul_loop (x ∷ xs) v carry = (x * v + carry) % base ∷ mul_loop xs v ((x * v + carry) / base)

-- `if (v < 0) sign = -sign`.
abbrev pub turned : Sign → Sign → Sign
turned plus s = s
turned minus s = flip s

-- `operator*=(int)` by a magnitude with its sign.
unfoldable pub mul_int : BigInt → ℕ → Sign → BigInt
unfolding mul_loop trim
mul_int n v s = trim (record { a = mul_loop n.a v 0; sign = turned s n.sign })

-- The loop of `operator/=(int)`, from the highest limb down: the quotient limbs and the remainder.
unfoldable pub div_loop : List ℕ → ℕ → List ℕ × ℕ
div_loop [] v = ([], 0)
div_loop (x ∷ xs) v =
    let (qs, rem) = div_loop xs v in ((x + rem * base) / v ∷ qs, (x + rem * base) % v)

unfoldable pub div_int : BigInt → ℕ → Sign → BigInt
unfolding div_loop trim
div_int n v s = trim (record { a = (div_loop n.a v).0; sign = turned s n.sign })

-- The loop of `operator%(int)`.
unfoldable pub mod_loop : List ℕ → ℕ → ℕ
mod_loop [] v = 0
mod_loop (x ∷ xs) v = (x + mod_loop xs v * base) % v

-- `operator%(int)`, which drops the sign of its argument.
unfoldable pub mod_int : BigInt → ℕ → Sign × ℕ
unfolding mod_loop
mod_int n v = (n.sign, mod_loop n.a v)

-- `operator=(long long)` of a magnitude with its sign; three limbs hold any `long long`.
unfoldable pub of_int : ℕ → Sign → BigInt
unfolding push_carry
of_int v s = record { a = push_carry 3 v; sign = s }
