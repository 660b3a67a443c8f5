-- ===== src/BigInt/Division/Digit.antt =====
-- One limb of the long division of `divmod` (StateDatabase/bigint.h).
use state_db.Base.{
  ℕ, zero, suc, ◌+◌, ◌*◌, ◌^◌, ◌≤◌, ◌<◌, ◌≡◌, refl, Bool, false, Option, some, List, [], ◌∷◌,
  length, arith, ap, ◌∙◌, Bool-cases, inl, inr, ltb, ltb→lt,
}
use state_db.Base.Int.{ℤ, pos, negsuc, pos_part, neg_part, ◌+ℤ◌, ltb_ℤ}
use native.Mathlib.Nat.{mul-le-mul_left}
use state_db.BigInt.{BigInt, Sign, base, plus, minus, less, plus_op, of_int}
use state_db.BigInt.Value.{value, IsLimbs, base_pow}
use state_db.BigInt.Order.{IsCanonical, IsTrimmed, signed, to_ℤ, less-ltb_ℤ, value_pos}
use state_db.BigInt.Arith.{to_ℤ-plus_op}
use state_db.BigInt.Convert.{of_int-IsCanonical}
use state_db.BigInt.Sums.{plus_op-IsCanonical}
use state_db.BigInt.Division.{lower, lower_step, then_some}

-- A number of a value below a power of the base has no more limbs than the power says.
pub length_of_value :
    (xs : List ℕ) (n : ℕ) → IsLimbs xs → IsTrimmed xs → value xs < base ^ n → length xs ≤ n
length_of_value [] n l t h = omega arith
length_of_value (x ∷ []) zero l t h = absurd (omega (arith, h, t))
length_of_value (x ∷ []) (suc n) l t h = omega arith
length_of_value (x ∷ y ∷ ys) zero l t h = absurd (omega (arith, h, value_pos x (y ∷ ys) t))
length_of_value (x ∷ y ∷ ys) (suc n) l t h =
    let below : value (y ∷ ys) < base ^ n = omega (arith, h, base_pow n) in
    omega (arith, length_of_value (y ∷ ys) n l.1 t below)

pub value_below : (xs : List ℕ) → IsLimbs xs → value xs < base ^ length xs
value_below [] l = omega arith
value_below (x ∷ xs) l = omega (arith, l.0, value_below xs l.1, base_pow (length xs))

pub two_more : (n : ℕ) → base ^ (n + 2) ≡ base * (base * base ^ n)
two_more n =
    let split : n + 2 ≡ suc (suc n) = omega arith in
    rw split (base_pow (suc n) ∙ ap (λ (t : ℕ). base * t) (base_pow n))

pub magnitude_parts : (s : Sign) (v : ℕ) → pos_part (signed s v) + neg_part (signed s v) ≡ v
magnitude_parts plus v = omega arith
magnitude_parts minus v = ground arith

-- Between the estimate and the digit: `r` is the remainder less than the divisor, `total` what is divided.
pub record IsBetween (d : ℕ) (r b : BigInt) (total : ℕ) : Type 0 where
  pub canonical : IsCanonical r
  pub below : pos_part (to_ℤ r) < value b.a
  pub splits : pos_part (to_ℤ r) + d * value b.a ≡ total + neg_part (to_ℤ r)

-- What the loop leaves: the digit and the remainder.
pub record IsDigit (total d : ℕ) (r b : BigInt) : Type 0 where
  pub canonical : IsCanonical r
  pub positive : r.sign ≡ plus
  pub below : value r.a < value b.a
  pub splits : value r.a + d * value b.a ≡ total

disjoint : (z : ℤ) → 0 < neg_part z → pos_part z ≡ 0
disjoint (pos v) h = absurd (omega (arith, h))
disjoint (negsuc v) h = refl

zero_int : IsCanonical (of_int 0 plus) × (to_ℤ (of_int 0 plus) ≡ pos 0)
zero_int = of_int-IsCanonical 0 plus (omega arith) (λ e. absurd (cc))

less-zero : (r : BigInt) → IsCanonical r → less r (of_int 0 plus) ≡ ltb 0 (neg_part (to_ℤ r))
less-zero r c = less-ltb_ℤ r (of_int 0 plus) c zero_int.0 ∙ rw zero_int.1 (go (to_ℤ r))
  where
    go : (z : ℤ) → ltb_ℤ z (pos 0) ≡ ltb 0 (neg_part z)
    go (pos v) = ground arith
    go (negsuc v) = ground arith

sign_of_parts : (s : Sign) (v : ℕ) → (s ≡ minus → 0 < v) → neg_part (signed s v) ≡ 0 → s ≡ plus
sign_of_parts plus v h e = refl
sign_of_parts minus v h e = absurd (omega (arith, h refl, e, magnitude_parts minus v, minus_pos v))
  where
    minus_pos : (v : ℕ) → pos_part (signed minus v) ≡ 0
    minus_pos v = ground arith

negative_pos : (r : BigInt) → IsCanonical r → r.sign ≡ minus → 0 < value r.a
negative_pos r c m = go r.a c.trimmed c.zero_plus
  where
    go : (xs : List ℕ) → IsTrimmed xs → (length xs ≡ 0 → r.sign ≡ plus) → 0 < value xs
    go [] t z = absurd (cc (z refl))
    go (x ∷ xs) t z = value_pos x xs t

-- A number in the loop that is not negative is the remainder.
ended :
    (d : ℕ) (r b : BigInt) (total : ℕ)
    → IsBetween d r b total
    → less r (of_int 0 plus) ≡ false
    → IsDigit total d r b
ended d r b total i e =
    let none_left : neg_part (to_ℤ r) ≡ 0 = ground (arith, less-zero r i.canonical) in
    let parts = magnitude_parts r.sign (value r.a) in
    record {
      canonical = i.canonical;
      positive = sign_of_parts r.sign (value r.a) (negative_pos r i.canonical) none_left;
      below = omega (arith, i.below, parts, none_left);
      splits = omega (arith, i.splits, parts, none_left);
    }

-- The divisor: canonical, positive, and with room for more limbs that an `int` indexes.
pub record IsDivisor (b : BigInt) : Type 0 where
  pub canonical : IsCanonical b
  pub positive : b.sign ≡ plus
  pub room : length b.a < 2 ^ 28

added_parts :
    (z : ℤ) (v : ℕ)
    → 0 < neg_part z
    → 0 < v
    → (pos_part (z +ℤ pos v) < v) × (pos_part (z +ℤ pos v) + neg_part z ≡ neg_part (z +ℤ pos v) + v)
unfolding ◌+ℤ◌
added_parts (pos w) v h h' = absurd (omega (arith, h))
added_parts (negsuc w) v h h' = (ground arith, ground arith)

-- Adding the divisor to a number below zero.
added :
    (d : ℕ) (r r' b : BigInt) (total : ℕ)
    → IsDivisor b
    → IsBetween (suc d) r b total
    → 0 < neg_part (to_ℤ r)
    → IsCanonical r'
    → to_ℤ r' ≡ to_ℤ r +ℤ to_ℤ b
    → IsBetween d r' b total
added d r r' b total v i low c e =
    let none_above = disjoint (to_ℤ r) low in
    let divisor : to_ℤ b ≡ pos (value b.a) = rw v.positive refl in
    let sum : to_ℤ r' ≡ to_ℤ r +ℤ pos (value b.a) = e ∙ ap (λ (z : ℤ). to_ℤ r +ℤ z) divisor in
    let (below, parts) = added_parts (to_ℤ r) (value b.a) low (omega (arith, i.below)) in
    record {
      canonical = c;
      below = rw sum below;
      splits = rw sum (omega (arith, i.splits, none_above, parts));
    }

short_of_parts :
    (d : ℕ) (r b : BigInt) (total : ℕ)
    → IsDivisor b
    → IsBetween d r b total
    → d < 2 * base
    → length r.a ≤ length b.a + 2
short_of_parts d r b total v i h =
    let parts = magnitude_parts r.sign (value r.a) in
    let most : value r.a ≤ value b.a + d * value b.a =
      elim (Bool-cases (ltb 0 (neg_part (to_ℤ r)))) [
        | inl low ↦
            omega (
              arith,
              parts,
              i.splits,
              i.below,
              disjoint (to_ℤ r) (ltb→lt 0 (neg_part (to_ℤ r)) low),
            )
        | inr high ↦
            let none_left : neg_part (to_ℤ r) ≡ 0 = ground (arith, high) in
            omega (arith, parts, i.below, none_left)
      ] in
    let times : value b.a * (d + 1) ≤ value b.a * (2 * base) =
      mul-le-mul_left (value b.a) (omega (arith, h)) in
    length_of_value r.a (length b.a + 2) i.canonical.limbs i.canonical.trimmed
      (rw (two_more (length b.a)) (omega (arith, most, times, value_below b.a v.canonical.limbs)))

pub lower_lem :
    (d : ℕ) (r b : BigInt) (total : ℕ)
    → IsDivisor b
    → d < 2 * base
    → IsBetween d r b total
    → (q : ℕ) × (r' : BigInt) × (lower d r b ≡ some (q, r')) × IsDigit total q r' b
unfolding lower
lower_lem zero r b total v h i = elim (Bool-cases (less r (of_int 0 plus))) [
  | inr stop ↦ (0, r, rw stop refl, ended 0 r b total i stop)
  | inl go ↦
      let low : 0 < neg_part (to_ℤ r) = ground (arith, less-zero r i.canonical) in
      absurd (omega (arith, i.splits, disjoint (to_ℤ r) low, low))
]
lower_lem (suc d) r b total v h i = elim (Bool-cases (less r (of_int 0 plus))) [
  | inr stop ↦ (
    suc d,
    r,
    ap (λ (t : Bool). lower_step d r t (plus_op r b) (λ (x : BigInt). lower d x b)) stop,
    ended (suc d) r b total i stop,
  )
  | inl go ↦
      let low : 0 < neg_part (to_ℤ r) = ground (arith, less-zero r i.canonical) in
      let (r', e, sum) = to_ℤ-plus_op r b i.canonical v.canonical in
      let short = short_of_parts (suc d) r b total v i h in
      let c = plus_op-IsCanonical r b r' i.canonical v.canonical (omega (arith, short, v.room)) e in
      let (q, r'', run, end) =
        lower_lem d r' b total v (omega (arith, h)) (added d r r' b total v i low c sum) in
      let rest = λ (x : BigInt). lower d x b in
      (
        q,
        r'',
        ap (λ (t : Bool). lower_step d r t (plus_op r b) rest) go
            ∙ ap (λ (x : Option BigInt). then_some x rest) e
            ∙ run,
        end,
      )
]
