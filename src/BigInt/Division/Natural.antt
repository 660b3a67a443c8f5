-- ===== src/BigInt/Division/Natural.antt =====
-- Numbers of `divmod` (StateDatabase/bigint.h) that are not negative.
use state_db.Base.{
  ℕ, suc, ◌+◌, ◌*◌, ◌/◌, ◌^◌, ◌≤◌, ◌<◌, ◌≡◌, refl, true, some, List, [], ◌∷◌, length, arith, ap,
  ◌∙◌,
}
use state_db.BigInt.{
  BigInt, Sign, base, plus, plus_op, of_int, mul_int, mul_loop, sign_of_limbs, trim, trim_limbs,
  add_loop, same_sign,
}
use state_db.BigInt.Value.{
  value, base_pow, value-mul_loop, value-push_carry, value-trim_limbs, value-add_loop,
}
use state_db.BigInt.Order.{IsCanonical}
use state_db.BigInt.Convert.{of_int-IsCanonical, length-push_carry}
use state_db.BigInt.Closed.{trim-IsCanonical, length-trim_limbs}
use state_db.BigInt.Sums.{plus_op-IsCanonical}
use state_db.BigInt.Division.Digit.{IsDivisor, length_of_value, value_below, two_more}

-- A canonical number that is not negative, of the given value.
pub record IsNatural (n : BigInt) (v : ℕ) : Type 0 where
  pub canonical : IsCanonical n
  pub positive : n.sign ≡ plus
  pub valued : value n.a ≡ v

length-mul_loop : (xs : List ℕ) (v c : ℕ) → length (mul_loop xs v c) ≤ length xs + 3
unfolding mul_loop
length-mul_loop [] v c = omega (arith, length-push_carry 3 c)
length-mul_loop (x ∷ xs) v c = omega (arith, length-mul_loop xs v ((x * v + c) / base))

pub length-mul_int : (n : BigInt) (v : ℕ) (s : Sign) → length (mul_int n v s).a ≤ length n.a + 3
unfolding mul_int trim
length-mul_int n v s = omega (arith, length-trim_limbs (mul_loop n.a v 0), length-mul_loop n.a v 0)

plus_of_limbs : (xs : List ℕ) → sign_of_limbs xs plus ≡ plus
plus_of_limbs [] = refl
plus_of_limbs (x ∷ xs) = refl

pub mul_int-IsNatural :
    (n : BigInt) (v w : ℕ)
    → v < 2 ^ 31
    → length n.a < 2 ^ 29
    → IsNatural n w
    → IsNatural (mul_int n v plus) (w * v)
unfolding mul_int trim
mul_int-IsNatural n v w h room i =
    let (e, l) = value-mul_loop n.a v 0 h (omega arith) i.canonical.limbs in
    record {
      canonical =
          trim-IsCanonical (record { a = mul_loop n.a v 0; sign = n.sign }) l
            (omega (arith, room, length-mul_loop n.a v 0));
      positive = rw i.positive (plus_of_limbs (trim_limbs (mul_loop n.a v 0)));
      valued =
          value-trim_limbs (mul_loop n.a v 0) ∙ omega (arith, e, ap (λ (t : ℕ). t * v) i.valued);
    }

pub of_int-IsNatural : (x : ℕ) → x < base → IsNatural (of_int x plus) x
unfolding of_int
of_int-IsNatural x h = record {
  canonical = (of_int-IsCanonical x plus (omega (arith, h)) (λ e. absurd (cc))).0;
  positive = refl;
  valued = (value-push_carry 3 x (omega (arith, h))).0;
}

pub plus_op-IsNatural :
    (m n : BigInt) (v w : ℕ)
    → IsNatural m v
    → IsNatural n w
    → suc (length m.a + length n.a) < 2 ^ 30
    → (r : BigInt) × (plus_op m n ≡ some r) × IsNatural r (v + w)
unfolding plus_op
plus_op-IsNatural m n v w i j room =
    let same : same_sign m.sign n.sign ≡ true = rw (i.positive, j.positive) refl in
    let r : BigInt = record n { a = add_loop m.a n.a 0 } in
    let run : plus_op m n ≡ some r = rw same refl in
    (
      r,
      run,
      record {
        canonical = plus_op-IsCanonical m n r i.canonical j.canonical room run;
        positive = j.positive;
        valued = omega (
          arith,
          (value-add_loop m.a n.a 0 i.canonical.limbs j.canonical.limbs (omega arith)).0,
          i.valued,
          j.valued,
        );
      },
    )

one_suc : (n : ℕ) → n + 1 ≡ suc n
one_suc n = omega arith

pub natural_short : (n : BigInt) (v k : ℕ) → IsNatural n v → v < base ^ k → length n.a ≤ k
natural_short n v k i h =
    length_of_value n.a k i.canonical.limbs i.canonical.trimmed (rw i.valued h)

-- A number below the divisor, or below it times a limb, or times a digit.
pub divisor_powers :
    (b : BigInt) (v : ℕ)
    → IsDivisor b
    → (v < value b.a → v < base ^ length b.a)
      × (v < value b.a * base → v < base ^ (length b.a + 1))
      × (v < value b.a * (2 * base) → v < base ^ (length b.a + 2))
divisor_powers b v d =
    let below = value_below b.a d.canonical.limbs in
    let one : base ^ (length b.a + 1) ≡ base * base ^ length b.a =
      ap (λ (k : ℕ). base ^ k) (one_suc (length b.a)) ∙ base_pow (length b.a) in
    (
      λ h. omega (arith, h, below),
      λ h. rw one (omega (arith, h, below)),
      λ h. rw (two_more (length b.a)) (omega (arith, h, below)),
    )
