-- ===== src/BigInt/Product/Signed.antt =====
-- The sign and the magnitude of a product of two `bigint`s (StateDatabase/bigint.h).
use state_db.Base.{
  ℕ, zero, suc, ◌+◌, ◌*◌, ◌^◌, ◌<◌, ◌≡◌, refl, some, arith, ap, ◌∙◌, sym, if◌then◌else◌,
}
use state_db.Base.Int.{pos_part, neg_part}
use state_db.BigInt.{BigInt, Sign, plus, minus, base, same_sign}
use state_db.BigInt.Value.{value}
use state_db.BigInt.Order.{IsCanonical, signed, to_ℤ}
use state_db.BigInt.Division.Digit.{magnitude_parts, length_of_value}
use state_db.BigInt.Text.Read.{IsRead}
use state_db.BigInt.Product.{times}
use state_db.BigInt.Product.Times.{to_ℤ-times}

abbrev pub product_sign : Sign → Sign → Sign
product_sign s t = if same_sign s t then plus else minus

-- A number without leading zeros, of a magnitude and of a sign, which does not count at zero.
pub record IsSigned (n : BigInt) (s : Sign) (v : ℕ) : Type 0 where
  pub form : IsRead n
  pub valued : value n.a ≡ v
  pub side : 0 < v → n.sign ≡ s

pub own-IsSigned : (n : BigInt) → IsCanonical n → IsSigned n n.sign (value n.a)
own-IsSigned n c = record {
  form = record { limbs = c.limbs; trimmed = c.trimmed; zero_plus = c.zero_plus };
  valued = refl;
  side = λ h. refl;
}

pub moved-IsSigned :
    (n : BigInt) (s t : Sign) (v w : ℕ) → IsSigned n s v → s ≡ t → v ≡ w → IsSigned n t w
moved-IsSigned n s t v w i e f = rw (← e, ← f) i

pub to_ℤ-IsSigned : (n : BigInt) (s : Sign) (v : ℕ) → IsSigned n s v → to_ℤ n ≡ signed s v
to_ℤ-IsSigned n s v i = ap (signed n.sign) i.valued ∙ go n.sign s v i.side
  where
    go : (s t : Sign) (v : ℕ) → (0 < v → s ≡ t) → signed s v ≡ signed t v
    go plus plus v h = refl
    go minus minus v h = refl
    go plus minus zero h = refl
    go minus plus zero h = refl
    go plus minus (suc v) h = ground (arith, h (omega arith))
    go minus plus (suc v) h = ground (arith, h (omega arith))

pub same_magnitude : (s t : Sign) (v w : ℕ) → signed s v ≡ signed t w → v ≡ w
same_magnitude s t v w e =
    sym (magnitude_parts s v) ∙ ap (λ (z : _). pos_part z + neg_part z) e ∙ magnitude_parts t w

pub same_side : (s t : Sign) (v w : ℕ) → signed s v ≡ signed t w → 0 < w → s ≡ t
same_side plus plus v w e h = refl
same_side minus minus v w e h = refl
same_side plus minus v w e h = ground (arith, e, h)
same_side minus plus v w e h = ground (arith, e, h)

pub read-IsSigned :
    (n : BigInt) (s : Sign) (v : ℕ) → IsRead n → to_ℤ n ≡ signed s v → IsSigned n s v
read-IsSigned n s v f e = record {
  form = f;
  valued = same_magnitude n.sign s (value n.a) v e;
  side = same_side n.sign s (value n.a) v e;
}

same_product :
    (s t s' t' : Sign) (v w : ℕ)
    → (0 < v → s ≡ s')
    → (0 < w → t ≡ t')
    → 0 < v * w
    → product_sign s t ≡ product_sign s' t'
same_product s t s' t' zero w e f h = absurd (omega (arith, h))
same_product s t s' t' v zero e f h = absurd (omega (arith, h))
same_product s t s' t' (suc v) (suc w) e f h = rw (e (omega arith), f (omega arith)) refl

-- The magnitudes are below `base ^ 1365`.
pub times-IsSigned :
    (m n : BigInt) (s t : Sign) (v w : ℕ)
    → IsSigned m s v
    → IsSigned n t w
    → v < base ^ 1365
    → w < base ^ 1365
    → (r : BigInt) × (times m n ≡ some r) × IsSigned r (product_sign s t) (v * w)
times-IsSigned m n s t v w i j hv hw =
    let short = λ (l : BigInt) (u : Sign) (x : ℕ) (k : IsSigned l u x) (h : x < base ^ 1365).
      length_of_value l.a 1365 k.form.limbs k.form.trimmed (rw k.valued h) in
    let (r, run, e, f) =
      to_ℤ-times m n i.form.limbs j.form.limbs (short m s v i hv) (short n t w j hw) in
    let k = read-IsSigned r (product_sign m.sign n.sign) (value m.a * value n.a) f e in
    let same : value m.a * value n.a ≡ v * w = rw (i.valued, j.valued) refl in
    (
      r,
      run,
      record {
        form = f;
        valued = k.valued ∙ same;
        side = λ h. k.side (rw same h) ∙ same_product m.sign n.sign s t v w i.side j.side h;
      },
    )
