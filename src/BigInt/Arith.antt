-- ===== src/BigInt/Arith.antt =====
-- The signed operations of `bigint` (StateDatabase/bigint.h) compute the integers they name.
use state_db.Base.{
  ℕ, ◌+◌, ◌-◌, ◌≤◌, ◌≡◌, refl, true, false, some, List, [], ◌∷◌, ltb, length, arith, ap, ◌∙◌, inl,
  inr, Bool-cases, ltb→lt,
}
use state_db.Base.Int.{ℤ, ◌+ℤ◌, ◌-ℤ◌}
use state_db.BigInt.{
  BigInt, Sign, plus, minus, flip, less, abs, negate, trim, trim_limbs, sign_of_limbs, sub_ge,
  sub_same, plus_op, minus_op, same_sign, add_loop,
}
use state_db.BigInt.Value.{value, value-add_loop, value-sub_loop, value-trim_limbs}
use state_db.BigInt.Order.{IsCanonical, signed, to_ℤ, less_same, value_longer}

-- `trim` does not change the integer.
pub to_ℤ-trim : (n : BigInt) → to_ℤ (trim n) ≡ to_ℤ n
unfolding trim
to_ℤ-trim n = go (trim_limbs n.a) (value-trim_limbs n.a)
  where
    go :
        (l : List ℕ)
        → value l ≡ value n.a
        → signed (sign_of_limbs l n.sign) (value l) ≡ signed n.sign (value n.a)
    go [] e = ground arith
    go (x ∷ xs) e = rw e

-- A canonical number, its sign left out.
abbrev pub Magnitude : BigInt → Type 0
Magnitude n = IsCanonical (record n { sign = plus })

pub canonical-Magnitude : (n : BigInt) → IsCanonical n → Magnitude n
canonical-Magnitude n c = record {
  limbs = c.limbs;
  trimmed = c.trimmed;
  short = c.short;
  zero_plus = λ h. refl;
}

pub length-le_of_value :
    (m n : BigInt) → Magnitude m → Magnitude n → value n.a ≤ value m.a → length n.a ≤ length m.a
length-le_of_value m n cm cn h = elim (Bool-cases (ltb (length m.a) (length n.a))) [
  | inl lt ↦ absurd (omega (arith, value_longer m.a n.a cm.limbs cn.trimmed (ltb→lt _ _ lt)))
  | inr ge ↦ ground arith
]

-- `operator-` at equal signs where the magnitude of the first operand is not the lesser one.
sub_ge_lem :
    (m n : BigInt)
    → Magnitude m
    → Magnitude n
    → value n.a ≤ value m.a
    → (r : BigInt) × (sub_ge m n ≡ some r) × (to_ℤ r ≡ signed m.sign (value m.a - value n.a))
unfolding sub_ge
sub_ge_lem m n cm cn h =
    let (zs, e, v, l) =
      value-sub_loop m.a n.a 0 cm.limbs cn.limbs (omega arith) (length-le_of_value m n cm cn h)
        (omega arith) in
    (
      trim (record m { a = zs }),
      rw (e, sub_ge),
      to_ℤ-trim (record m { a = zs }) ∙ ap (signed m.sign) (omega arith),
    )

pub less-abs :
    (m n : BigInt) → Magnitude m → Magnitude n → less (abs m) (abs n) ≡ ltb (value m.a) (value n.a)
unfolding abs
less-abs m n cm cn = (less_same (abs m) (abs n) cm cn).0 refl refl

signed_sub : (s t : Sign) (a b : ℕ) → s ≡ t → b ≤ a → signed s (a - b) ≡ signed s a -ℤ signed t b
unfolding ◌-ℤ◌
signed_sub plus plus a b e h = ground arith
signed_sub plus minus a b e h = ground arith
signed_sub minus plus a b e h = ground arith
signed_sub minus minus a b e h = ground arith

sub_flipped :
    (s t : Sign) (a b : ℕ) → s ≡ t → a ≤ b → signed (flip t) (b - a) ≡ signed s a -ℤ signed t b
unfolding ◌-ℤ◌
sub_flipped plus plus a b e h = ground arith
sub_flipped plus minus a b e h = ground arith
sub_flipped minus plus a b e h = ground arith
sub_flipped minus minus a b e h = ground arith

negate_value :
    (s t : Sign) (v w : ℕ) → signed s v ≡ signed t w → signed (flip s) v ≡ signed (flip t) w
negate_value plus plus v w e = ground arith
negate_value plus minus v w e = ground arith
negate_value minus plus v w e = ground arith
negate_value minus minus v w e = ground arith

sub_same_lem :
    (m n : BigInt)
    → Magnitude m
    → Magnitude n
    → m.sign ≡ n.sign
    → (r : BigInt) × (sub_same m n ≡ some r) × (to_ℤ r ≡ to_ℤ m -ℤ to_ℤ n)
unfolding sub_same
sub_same_lem m n cm cn same = elim (Bool-cases (ltb (value m.a) (value n.a))) [
  | inr ge ↦
      let le : value n.a ≤ value m.a = ground arith in
      let (r, e, v) = sub_ge_lem m n cm cn le in
      (
        r,
        rw (less-abs m n cm cn, ge) e,
        v ∙ signed_sub m.sign n.sign (value m.a) (value n.a) same le,
      )
  | inl lt ↦
      let le : value m.a ≤ value n.a = ground arith in
      let (r, e, v) = sub_ge_lem n m cn cm le in
      (
        record r { sign = flip r.sign },
        rw (less-abs m n cm cn, lt, e),
        negate_value r.sign n.sign (value r.a) (value n.a - value m.a) v
            ∙ sub_flipped m.sign n.sign (value m.a) (value n.a) same le,
      )
]

signed_add :
    (s t : Sign) (a b v : ℕ) → s ≡ t → v ≡ a + b + 0 → signed t v ≡ signed s a +ℤ signed t b
unfolding ◌+ℤ◌
signed_add plus plus a b v e h = ground arith
signed_add plus minus a b v e h = ground arith
signed_add minus plus a b v e h = ground arith
signed_add minus minus a b v e h = ground arith

add_of_flip :
    (s t : Sign) (a b v : ℕ)
    → s ≡ flip t
    → v ≡ a + b + 0
    → signed (flip t) v ≡ signed s a -ℤ signed t b
unfolding ◌-ℤ◌
add_of_flip plus plus a b v e h = ground arith
add_of_flip plus minus a b v e h = ground arith
add_of_flip minus plus a b v e h = ground arith
add_of_flip minus minus a b v e h = ground arith

sub_of_flip : (s : Sign) (x : ℤ) (b : ℕ) → x -ℤ signed (flip s) b ≡ x +ℤ signed s b
unfolding ◌-ℤ◌ ◌+ℤ◌
sub_of_flip plus x b = ground arith
sub_of_flip minus x b = ground arith

pub same_sign-eq : (s t : Sign) → same_sign s t ≡ true → s ≡ t
same_sign-eq s t h = ground arith

pub same_sign-flip : (s t : Sign) → same_sign s t ≡ false → s ≡ flip t
same_sign-flip s t h = ground arith

-- `operator+` on canonical numbers returns, without an index out of range, the sum of the integers.
pub to_ℤ-plus_op :
    (m n : BigInt)
    → IsCanonical m
    → IsCanonical n
    → (r : BigInt) × (plus_op m n ≡ some r) × (to_ℤ r ≡ to_ℤ m +ℤ to_ℤ n)
unfolding plus_op
to_ℤ-plus_op m n cm cn = elim (Bool-cases (same_sign m.sign n.sign)) [
  | inl e ↦ (
    record n { a = add_loop m.a n.a 0 },
    rw e,
    signed_add m.sign n.sign (value m.a) (value n.a) (value (add_loop m.a n.a 0))
        (same_sign-eq m.sign n.sign e) (value-add_loop m.a n.a 0 cm.limbs cn.limbs (omega arith)).0,
  )
  | inr e ↦
      let (r, p, v) =
        sub_same_lem m (negate n) (canonical-Magnitude m cm) (canonical-Magnitude n cn)
          (same_sign-flip m.sign n.sign e) in
      (r, rw e p, v ∙ sub_of_flip n.sign (to_ℤ m) (value n.a))
]

-- `operator-` on canonical numbers returns, without an index out of range, the difference of the
-- integers.
pub to_ℤ-minus_op :
    (m n : BigInt)
    → IsCanonical m
    → IsCanonical n
    → (r : BigInt) × (minus_op m n ≡ some r) × (to_ℤ r ≡ to_ℤ m -ℤ to_ℤ n)
unfolding minus_op
to_ℤ-minus_op m n cm cn = elim (Bool-cases (same_sign m.sign n.sign)) [
  | inl e ↦
      let (r, p, v) =
        sub_same_lem m n (canonical-Magnitude m cm) (canonical-Magnitude n cn)
          (same_sign-eq m.sign n.sign e) in
      (r, rw e p, v)
  | inr e ↦ (
    record (negate n) { a = add_loop m.a n.a 0 },
    rw e,
    add_of_flip m.sign n.sign (value m.a) (value n.a) (value (add_loop m.a n.a 0))
        (same_sign-flip m.sign n.sign e)
        (value-add_loop m.a n.a 0 cm.limbs cn.limbs (omega arith)).0,
  )
]
