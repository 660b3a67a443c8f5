-- ===== src/BigInt/Division/Quotient.antt =====
-- `divmod` of `bigint` (StateDatabase/bigint.h) divides with remainder.
use state_db.Base.{
  ℕ, zero, suc, ◌+◌, ◌*◌, ◌/◌, ◌^◌, ◌≤◌, ◌<◌, ◌≡◌, refl, some, List, [], ◌∷◌, length, arith, ap,
  sym, ◌∙◌, if◌then◌else◌,
}
use native.Mathlib.Nat.{mul-le-mul_left, lt_of_mul-lt-mul_left, div-add-mod, mod-lt}
use state_db.BigInt.{
  BigInt, Sign, base, plus, minus, same_sign, abs, trim, trim_limbs, sign_of_limbs, mul_int,
  div_int, mod_int,
}
use state_db.BigInt.Value.{value, IsLimbs, value-trim_limbs}
use state_db.BigInt.Order.{IsCanonical, IsTrimmed, value_pos, signed, to_ℤ}
use state_db.BigInt.Arith.{to_ℤ-trim, canonical-Magnitude}
use state_db.BigInt.Scale.{div_int-mod_int}
use state_db.BigInt.Closed.{trim-IsCanonical}
use state_db.BigInt.Division.{last, divmod}
use state_db.BigInt.Division.Digit.{IsDivisor}
use state_db.BigInt.Division.Natural.{IsNatural, length-mul_int, mul_int-IsNatural}
use state_db.BigInt.Division.Limb.{then_some-some}
use state_db.BigInt.Division.Long.{Divides, divide_loop_lem, highest, div_int-IsCanonical}

abs-IsNatural : (n : BigInt) → IsCanonical n → IsNatural (abs n) (value n.a)
unfolding abs
abs-IsNatural n c = record { canonical = canonical-Magnitude n c; positive = refl; valued = refl }

-- The factor that is taken out of the remainder at the end.
unscaled :
    (f m n q r r' rem : ℕ)
    → 0 < f
    → r + q * (n * f) ≡ m * f
    → r < n * f
    → r ≡ f * r' + rem
    → rem < f
    → (m ≡ q * n + r') × (r' < n)
unscaled f m n q r r' rem pos whole below split low =
    let up : f * m < f * (q * n + r' + 1) = omega (arith, whole, split, low) in
    let down : f * (q * n + r') < f * (m + 1) = omega (arith, whole, split, pos) in
    let rest : f * r' < f * n = omega (arith, split, below) in
    (
      omega (arith, lt_of_mul-lt-mul_left f up, lt_of_mul-lt-mul_left f down),
      lt_of_mul-lt-mul_left f rest,
    )

zero_sign : (s : Sign) → signed plus 0 ≡ signed s 0
zero_sign plus = refl
zero_sign minus = ground arith

-- The sign of an empty vector does not count.
sign_of_scaled :
    (l : List ℕ) (s : Sign) (f w rem : ℕ)
    → 0 < f
    → value l ≡ f * w + rem
    → signed (sign_of_limbs l s) w ≡ signed s w
sign_of_scaled (x ∷ xs) s f w rem h e = refl
sign_of_scaled [] s f zero rem h e = zero_sign s
sign_of_scaled [] s f (suc w) rem h e = absurd (omega (arith, e, h))

-- The two numbers that are returned, from the limbs of the quotient and the scaled remainder.
pub record IsQuotient (m n q r : BigInt) : Type 0 where
  pub quotient : IsCanonical q
  pub remainder : IsCanonical r
  pub whole : value m.a ≡ value q.a * value n.a + value r.a
  pub below : value r.a < value n.a
  pub quotient_sign : to_ℤ q ≡ signed (if same_sign m.sign n.sign then plus else minus) (value q.a)
  pub remainder_sign : to_ℤ r ≡ signed m.sign (value r.a)

finished_lem :
    (m n b r : BigInt) (qs : List ℕ) (f : ℕ)
    → 0 < f
    → length qs < 2 ^ 30
    → value b.a ≡ value n.a * f
    → Divides (value m.a * f) b qs r
    → IsQuotient m n
        (trim (record { a = qs; sign = if same_sign m.sign n.sign then plus else minus }))
        (div_int (trim (record r { sign = m.sign })) f plus)
unfolding trim
finished_lem m n b r qs f pos room scale v =
    let s = if same_sign m.sign n.sign then plus else minus in
    let c : BigInt = trim (record r { sign = m.sign }) in
    let cc_ : IsCanonical c =
      trim-IsCanonical (record r { sign = m.sign }) v.remainder.canonical.limbs
        v.remainder.canonical.short in
    let (split, low, _, sign) = div_int-mod_int c f plus pos in
    let same = value-trim_limbs r.a in
    let (whole, below) =
      unscaled f (value m.a) (value n.a) (value qs) (value r.a) (value (div_int c f plus).a)
        (mod_int c f).1 pos (rw (← scale) v.splits) (rw (← scale) v.below) (sym same ∙ split) low in
    record {
      quotient = trim-IsCanonical (record { a = qs; sign = s }) v.limbs room;
      remainder = div_int-IsCanonical c f plus pos cc_;
      whole = rw (value-trim_limbs qs) whole;
      below = below;
      quotient_sign =
          to_ℤ-trim (record { a = qs; sign = s }) ∙ ap (signed s) (sym (value-trim_limbs qs));
      remainder_sign =
          sign
          ∙ sign_of_scaled (trim_limbs r.a) m.sign f (value (div_int c f plus).a) (mod_int c f).1
              pos split;
    }

pub positive_length : (n : BigInt) → IsCanonical n → 0 < length n.a → 0 < value n.a
positive_length n c h = go n.a c.trimmed h
  where
    go : (xs : List ℕ) → IsTrimmed xs → 0 < length xs → 0 < value xs
    go [] t h = absurd (omega (arith, h))
    go (x ∷ xs) t h = value_pos x xs t

last_limb : (xs : List ℕ) (t : ℕ) → IsLimbs xs → last xs ≡ some t → t < base
unfolding last
last_limb [] t l e = cc
last_limb (x ∷ []) t l e = let same : x ≡ t = ground (arith, e) in omega (arith, l.0, same)
last_limb (x ∷ y ∷ ys) t l e = last_limb (y ∷ ys) t l.1 e

over : (t : ℕ) → 1 ≤ t + 1
over t = omega arith

factor : (t : ℕ) → t < base → (0 < base / (t + 1)) × (base / (t + 1) < 2 ^ 31)
factor t h =
    let f = base / (t + 1) in
    let some_left : (t + 1) * 0 < (t + 1) * f =
      omega (arith, div-add-mod base (t + 1), mod-lt base (over t), h) in
    let whole : f * 1 ≤ f * (t + 1) = mul-le-mul_left f (over t) in
    (lt_of_mul-lt-mul_left (t + 1) some_left, omega (arith, whole, div-add-mod base (t + 1)))

-- Where both numbers are canonical, with fewer than 2^27 limbs, and the divisor is not zero,
-- `divmod` ends with digits that an `int` holds. The quotient and the remainder are canonical, the
-- magnitude is the quotient's times the divisor's plus the remainder's, which is below the
-- divisor's; the quotient is negative where the signs differ, and the remainder has the sign of the
-- dividend.
pub divmod-IsQuotient :
    (m n : BigInt)
    → IsCanonical m
    → IsCanonical n
    → length m.a < 2 ^ 27
    → length n.a < 2 ^ 27
    → 0 < length n.a
    → (q : BigInt) × (r : BigInt) × (divmod m n ≡ some (q, r)) × IsQuotient m n q r
unfolding divmod
divmod-IsQuotient m n cm cn hm hn h =
    let (j, t, len, e, p) = highest n cn (positive_length n cn h) in
    let f = base / (t + 1) in
    let (f_pos, f_int) = factor t (last_limb n.a t cn.limbs e) in
    let scaled =
      mul_int-IsNatural (abs m) f (value m.a) f_int (omega (arith, hm)) (abs-IsNatural m cm) in
    let divisor =
      mul_int-IsNatural (abs n) f (value n.a) f_int (omega (arith, hn)) (abs-IsNatural n cn) in
    let b : BigInt = mul_int (abs n) f plus in
    let above : 0 < value b.a =
      omega (arith, divisor.valued, mul-le-mul_left (value n.a) f_pos, positive_length n cn h) in
    let (k, top, len', e', p') = highest b divisor.canonical above in
    let d : IsDivisor b = record {
      canonical = divisor.canonical;
      positive = divisor.positive;
      room = omega (arith, hn, length-mul_int (abs n) f plus);
    } in
    let (qs, r, run, size, v) =
      divide_loop_lem (mul_int (abs m) f plus).a b k top scaled.canonical.limbs d len' e' p'
        above in
    (
      _,
      _,
      then_some-some _ _ t _ e
          (then_some-some _ _ top _ e' (then_some-some _ _ (qs, r) _ run refl)),
      finished_lem m n b r qs f f_pos (omega (arith, size, scaled.canonical.short)) divisor.valued
          (rw scaled.valued at v),
    )
