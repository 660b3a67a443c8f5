-- ===== src/BigInt/Sums.antt =====
-- Sums and differences of `bigint` (StateDatabase/bigint.h) are canonical again.
use state_db.Base.{
  ℕ, suc, ◌+◌, ◌-◌, ◌^◌, ◌≤◌, ◌<◌, ◌≡◌, ◌≢◌, refl, true, Option, none, some, List, [], ◌∷◌, ltb,
  ◌==◌, length, arith, ap, ◌∙◌, inl, inr, Bool-cases, Option-cases, of_some,
}
use state_db.BigInt.{
  BigInt, plus, flip, negate, trim, sub_ge, negate_result, sub_same, plus_op, minus_op, same_sign,
  add_loop, sub_loop, borrow_out, borrow_limb,
}
use state_db.BigInt.Value.{value, value-add_loop, value-sub_loop, value-trim_limbs}
use state_db.BigInt.Order.{IsCanonical}
use state_db.BigInt.Convert.{empty_value}
use state_db.BigInt.Arith.{Magnitude, canonical-Magnitude, length-le_of_value, less-abs}
use state_db.BigInt.Closed.{trim-IsCanonical, add_loop-IsTrimmed, length-add_loop, add_loop_empty}

none_some : {A : Type 0} (x : A) → ◌≢◌ {A = Option A} none (some x)
none_some x e = cc

length-sub_loop :
    (rs ys : List ℕ) (c : ℕ) (zs : List ℕ) → sub_loop rs ys c ≡ some zs → length zs ≡ length rs
unfolding sub_loop
length-sub_loop [] [] c zs e = elim (Bool-cases (c == 0)) [
  | inl z ↦ of_some (λ (l : List ℕ). length l ≡ 0) [] zs (rw z at e) refl
  | inr z ↦ absurd (none_some zs (rw z at e))
]
length-sub_loop [] (y ∷ ys) c zs e = absurd (none_some zs e)
length-sub_loop (r ∷ rs) [] c zs e = elim (Bool-cases (c == 0)) [
  | inl z ↦ of_some (λ (l : List ℕ). length l ≡ suc (length rs)) (r ∷ rs) zs (rw z at e) refl
  | inr z ↦ elim (Option-cases (sub_loop rs [] (borrow_out r c))) [
    | inl bad ↦ absurd (none_some zs (rw (z, bad) at e))
    | inr (more, good) ↦
        of_some (λ (l : List ℕ). length l ≡ suc (length rs)) (borrow_limb r c ∷ more) zs
          (rw (z, good) at e) (ap suc (length-sub_loop rs [] (borrow_out r c) more good))
  ]
]
length-sub_loop (r ∷ rs) (y ∷ ys) c zs e =
    elim (Option-cases (sub_loop rs ys (borrow_out r (c + y)))) [
      | inl bad ↦ absurd (none_some zs (rw bad at e))
      | inr (more, good) ↦
          of_some (λ (l : List ℕ). length l ≡ suc (length rs)) (borrow_limb r (c + y) ∷ more) zs
            (rw good at e) (ap suc (length-sub_loop rs ys (borrow_out r (c + y)) more good))
    ]

sub_ge-IsCanonical :
    (m n r : BigInt)
    → Magnitude m
    → Magnitude n
    → value n.a ≤ value m.a
    → sub_ge m n ≡ some r
    → IsCanonical r × (value r.a ≡ value m.a - value n.a)
unfolding sub_ge trim
sub_ge-IsCanonical m n r cm cn h x =
    let (zs, e, v, l) =
      value-sub_loop m.a n.a 0 cm.limbs cn.limbs (omega arith) (length-le_of_value m n cm cn h)
        (omega arith) in
    let size = length-sub_loop m.a n.a 0 zs e in
    of_some (λ r. IsCanonical r × (value r.a ≡ value m.a - value n.a)) (trim (record m { a = zs }))
      r (rw (sub_ge, e) at x)
      (
        trim-IsCanonical (record m { a = zs }) l (omega (arith, size, cm.short)),
        value-trim_limbs zs ∙ omega (arith, v),
      )

flipped-IsCanonical :
    (r : BigInt) → IsCanonical r → 0 < value r.a → IsCanonical (record r { sign = flip r.sign })
flipped-IsCanonical r c h = record {
  limbs = c.limbs;
  trimmed = c.trimmed;
  short = c.short;
  zero_plus = λ e. absurd (omega (arith, empty_value r.a e, h));
}

negate_result-IsCanonical :
    (x : Option BigInt) (r : BigInt)
    → ((y : BigInt) → x ≡ some y → IsCanonical y × (0 < value y.a))
    → negate_result x ≡ some r
    → IsCanonical r
negate_result-IsCanonical none r h e = absurd (none_some r e)
negate_result-IsCanonical (some y) r h e =
    let (c, p) = h y refl in of_some IsCanonical _ r e (flipped-IsCanonical y c p)

sub_same-IsCanonical :
    (m n r : BigInt) → Magnitude m → Magnitude n → sub_same m n ≡ some r → IsCanonical r
unfolding sub_same
sub_same-IsCanonical m n r cm cn x = elim (Bool-cases (ltb (value m.a) (value n.a))) [
  | inr ge ↦ (sub_ge-IsCanonical m n r cm cn (ground arith) (rw (less-abs m n cm cn, ge) at x)).0
  | inl lt ↦
      negate_result-IsCanonical (sub_ge n m) r
        (λ y e.
          let (c, v) = sub_ge-IsCanonical n m y cn cm (ground arith) e in (c, ground (arith, v)))
        (rw (less-abs m n cm cn, lt) at x)
]

-- On canonical numbers whose lengths together are below 2^30, as the loops index with an
-- `int`, `operator+` and `operator-` return
-- canonical numbers.
pub plus_op-IsCanonical :
    (m n r : BigInt)
    → IsCanonical m
    → IsCanonical n
    → suc (length m.a + length n.a) < 2 ^ 30
    → plus_op m n ≡ some r
    → IsCanonical r
unfolding plus_op
plus_op-IsCanonical m n r cm cn room x = elim (Bool-cases (same_sign m.sign n.sign)) [
  | inl e ↦
      of_some IsCanonical (record n { a = add_loop m.a n.a 0 }) r (rw e at x)
        (record {
          limbs = (value-add_loop m.a n.a 0 cm.limbs cn.limbs (omega arith)).1;
          trimmed = add_loop-IsTrimmed m.a n.a 0 cm.trimmed cn.trimmed (omega arith);
          short = omega (arith, length-add_loop m.a n.a 0);
          zero_plus = λ z. cn.zero_plus (add_loop_empty m.a n.a 0 z).1;
        })
  | inr e ↦
      sub_same-IsCanonical m (negate n) r (canonical-Magnitude m cm) (canonical-Magnitude n cn)
        (rw e at x)
]

opposite : (m n : BigInt) → m.sign ≡ plus → n.sign ≡ plus → same_sign m.sign n.sign ≡ true
opposite m n a b = rw (a, b) refl

pub minus_op-IsCanonical :
    (m n r : BigInt)
    → IsCanonical m
    → IsCanonical n
    → suc (length m.a + length n.a) < 2 ^ 30
    → minus_op m n ≡ some r
    → IsCanonical r
unfolding minus_op
minus_op-IsCanonical m n r cm cn room x = elim (Bool-cases (same_sign m.sign n.sign)) [
  | inl e ↦
      sub_same-IsCanonical m n r (canonical-Magnitude m cm) (canonical-Magnitude n cn) (rw e at x)
  | inr e ↦
      of_some IsCanonical (record (negate n) { a = add_loop m.a n.a 0 }) r (rw e at x)
        (record {
          limbs = (value-add_loop m.a n.a 0 cm.limbs cn.limbs (omega arith)).1;
          trimmed = add_loop-IsTrimmed m.a n.a 0 cm.trimmed cn.trimmed (omega arith);
          short = omega (arith, length-add_loop m.a n.a 0);
          zero_plus = λ z.
              let (a, b, c) = add_loop_empty m.a n.a 0 z in
              absurd (cc (opposite m n (cm.zero_plus a) (cn.zero_plus b)));
        })
]
