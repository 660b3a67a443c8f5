-- ===== src/BigInt/Product/Times.antt =====
-- `operator*` of two `bigint`s (StateDatabase/bigint.h) is the product of integers.
use native.Mathlib.Nat.{mul-le-mul, mul-le-mul_left}
use state_db.Base.{
  ℕ, zero, suc, ◌+◌, ◌-◌, ◌*◌, ◌^◌, ◌≤◌, ◌<◌, ◌≡◌, refl, some, List, [], ◌∷◌, ◌++◌, length,
  replicate, arith, ap, ◌∙◌, sym, if◌then◌else◌, length-append, length-replicate,
}
use state_db.BigInt.{BigInt, plus, minus, same_sign, base, trim}
use state_db.BigInt.Arith.{to_ℤ-trim}
use state_db.BigInt.Order.{signed, to_ℤ}
use state_db.BigInt.Text.Read.{IsRead, trim-IsRead}
use state_db.BigInt.Value.{value, IsLimbs}
use state_db.BigInt.Product.{
  school, convert_base, pad_to_power, carry_loop, karatsuba_multiply, times_limbs, times, pad,
  and_then,
}
use state_db.BigInt.Product.Carry.{most, more_room, school-AreAtMost, carry_loop-AreAtMost, eval-lt}
use state_db.BigInt.Product.Digits.{eval, AreBelow, AreBelow-append, convert_base_lem, pow_add}
use state_db.BigInt.Product.Karatsuba.{karatsuba_multiply-IsPower}
use state_db.BigInt.Product.Power.{IsPower, pad_to_power-IsPower, power_above}
use state_db.BigInt.Product.School.{eval-school, eval-replicate}

abbrev million : ℕ
million = 1_000_000

eval_pushed : (z : ℕ) (xs : List ℕ) (k : ℕ) → eval z (xs ++ replicate k 0) ≡ eval z xs
eval_pushed z [] k = eval-replicate z k
eval_pushed z (x ∷ xs) k = ap (λ (t : ℕ). x + z * t) (eval_pushed z xs k)

zeros-AreBelow : (k : ℕ) → AreBelow million (replicate k 0)
zeros-AreBelow zero = tt
zeros-AreBelow (suc k) = (omega arith, zeros-AreBelow k)

length_pushed : (xs : List ℕ) (k : ℕ) → length (xs ++ replicate k 0) ≡ length xs + k
length_pushed xs k =
    length-append {0} xs (replicate k 0)
    ∙ ap (λ (t : ℕ). length xs + t) (length-replicate {A = ℕ} k 0)

-- A product of two numbers below a power leaves no carry behind twice as many limbs.
no_carry : (p x y left out : ℕ) → x < p → y < p → out + (p * p) * left ≡ x * y → left ≡ 0
no_carry p x y zero out hx hy e = refl
no_carry p x y (suc left) out hx hy e =
    let x_room : suc x ≤ p = hx in
    let y_room : suc y ≤ p = hy in
    let square = mul-le-mul x_room y_room in absurd (omega (arith, square))

-- The limbs that the loops make of two vectors of one length, a power of two or none.
carried :
    (a b : List ℕ)
    → length b ≡ length a
    → length a ≤ 2048
    → AreBelow million a
    → AreBelow million b
    → (out : List ℕ) × (carry_loop (school a b) 0 ≡ some out)
      × (eval million out ≡ eval million a * eval million b)
      × AreBelow million out
carried a b l small ha hb =
    let (e, size) = eval-school million a b l in
    let room = mul-le-mul_left most small in
    let (out, left, run, value, below, count) =
      carry_loop-AreAtMost (school a b) 0
        (more_room (length a * most) (2048 * most) (school a b) (omega (arith, room))
          (school-AreAtMost a b ha hb))
        (omega arith) in
    let n = length a in
    let square : million ^ length (school a b) ≡ million ^ n * million ^ n =
      ap (λ (t : ℕ). million ^ t) size ∙ pow_add million n n in
    let whole : eval million out + (million ^ n * million ^ n) * left
        ≡ eval million a * eval million b =
      ap (λ (t : ℕ). eval million out + t * left) (sym square) ∙ omega (arith, value, e) in
    let none =
      no_carry (million ^ n) (eval million a) (eval million b) left (eval million out)
        (eval-lt million a (omega arith) ha) (ap_lt l (eval-lt million b (omega arith) hb)) whole in
    (out, run, omega (arith, whole, ap (λ (t : ℕ). (million ^ n * million ^ n) * t) none), below)
  where
    ap_lt : {x m n : ℕ} → m ≡ n → x < million ^ m → x < million ^ n
    ap_lt e h = rw (← e) h

-- Two vectors of one length, made longer by the loop.
pad_to_power-IsPower_above :
    (n : ℕ) (a b : List ℕ)
    → length a ≡ n
    → length b ≡ n
    → n ≤ 2048
    → (k : ℕ) × (pad_to_power (n + 2) a b ≡ some (a ++ replicate k 0, b ++ replicate k 0))
      × (n + k ≤ 2048)
      × IsPower (n + k)
pad_to_power-IsPower_above n a b la lb h =
    let (j, above, small, near) = power_above n h in
    let (k, run, fits, power) =
      pad_to_power-IsPower j (n + 2) a b (omega (arith, la, above)) (omega (arith, la, near)) in
    (k, run, omega (arith, fits, la, small), rw (ap (λ (t : ℕ). t + k) (sym la)) power)

times_same :
    (n : ℕ) (a b : List ℕ)
    → length a ≡ n
    → length b ≡ n
    → n ≤ 2048
    → AreBelow million a
    → AreBelow million b
    → (out : List ℕ) × (and_then
          (pad_to_power (n + 2) a b)
          (λ (a', b'). and_then (karatsuba_multiply (suc (length a')) a' b') (λ c. carry_loop c 0))
        ≡ some out)
      × (eval million out ≡ eval million a * eval million b)
      × AreBelow million out
times_same n a b la lb h ha hb =
    let (k, run, small, power) = pad_to_power-IsPower_above n a b la lb h in
    let a' = a ++ replicate k 0 in
    let b' = b ++ replicate k 0 in
    let size : length a' ≡ n + k = length_pushed a k ∙ ap (λ (t : ℕ). t + k) la in
    let same : length b' ≡ length a' = length_pushed b k ∙ ap (λ (t : ℕ). t + k) lb ∙ sym size in
    let (out, done, value, below) =
      carried a' b' same (omega (arith, size, small))
        (AreBelow-append million a (replicate k 0) ha (zeros-AreBelow k))
        (AreBelow-append million b (replicate k 0) hb (zeros-AreBelow k)) in
    (
      out,
      rw (run, karatsuba_multiply-IsPower a' b' same (rw size power)) done,
      value
          ∙ ap (λ (t : ℕ). t * eval million b') (eval_pushed million a k)
          ∙ ap (λ (t : ℕ). eval million a * t) (eval_pushed million b k),
      below,
    )

times_limbs_lem :
    (a b : List ℕ)
    → length a ≤ 2048
    → length b ≤ 2048
    → AreBelow million a
    → AreBelow million b
    → (out : List ℕ) × (times_limbs a b ≡ some out)
      × (eval million out ≡ eval million a * eval million b)
      × AreBelow million out
unfolding times_limbs
times_limbs_lem a b la lb ha hb =
    let x = length b - length a in
    let n = length (pad (length b) a) in
    let size : n ≡ length a + x = length_pushed a x in
    let y = n - length b in
    let (out, run, value, below) =
      times_same n (a ++ replicate x 0) (b ++ replicate y 0) refl
        (length_pushed b y ∙ omega (arith, size)) (omega (arith, size))
        (AreBelow-append million a (replicate x 0) ha (zeros-AreBelow x))
        (AreBelow-append million b (replicate y 0) hb (zeros-AreBelow y)) in
    (
      out,
      run,
      value
          ∙ ap (λ (t : ℕ). t * eval million (b ++ replicate y 0)) (eval_pushed million a x)
          ∙ ap (λ (t : ℕ). eval million a * t) (eval_pushed million b y),
      below,
    )

eval-value : (xs : List ℕ) → eval (10 ^ 9) xs ≡ value xs
eval-value [] = refl
eval-value (x ∷ xs) = ap (λ (t : ℕ). x + base * t) (eval-value xs)

IsLimbs-AreBelow : (xs : List ℕ) → IsLimbs xs → AreBelow (10 ^ 9) xs
IsLimbs-AreBelow [] h = tt
IsLimbs-AreBelow (x ∷ xs) (h, hs) = (h, IsLimbs-AreBelow xs hs)

AreBelow-IsLimbs : (xs : List ℕ) → AreBelow (10 ^ 9) xs → IsLimbs xs
AreBelow-IsLimbs [] h = tt
AreBelow-IsLimbs (x ∷ xs) (h, hs) = (h, AreBelow-IsLimbs xs hs)

-- The number before it is trimmed.
abbrev untrimmed : BigInt → BigInt → List ℕ → BigInt
untrimmed m n c = record {
  a = convert_base c 6 9;
  sign = if same_sign m.sign n.sign then plus else minus;
}

times-trim :
    (m n : BigInt) (c : List ℕ)
    → times_limbs (convert_base m.a 9 6) (convert_base n.a 9 6) ≡ some c
    → times m n ≡ some (trim (untrimmed m n c))
unfolding times
times-trim m n c e = rw e refl

-- `operator*` on two numbers with limbs below the base and at most 1365 of them each, which is 12285
-- digits, ends with the product: its magnitude is the product of the magnitudes, it is negative
-- where the signs differ, its limbs are below the base without a leading zero, and zero is positive.
pub to_ℤ-times :
    (m n : BigInt)
    → IsLimbs m.a
    → IsLimbs n.a
    → length m.a ≤ 1365
    → length n.a ≤ 1365
    → (r : BigInt) × (times m n ≡ some r)
      × (to_ℤ r ≡ signed (if same_sign m.sign n.sign then plus else minus) (value m.a * value n.a))
      × IsRead r
to_ℤ-times m n hm hn lm ln =
    let (vm, bm, sm) = convert_base_lem m.a 9 6 (omega arith) (IsLimbs-AreBelow m.a hm) in
    let (vn, bn, sn) = convert_base_lem n.a 9 6 (omega arith) (IsLimbs-AreBelow n.a hn) in
    let (c, run, made, below) =
      times_limbs_lem (convert_base m.a 9 6) (convert_base n.a 9 6) (omega (arith, sm))
        (omega (arith, sn)) bm bn in
    let (back, limbs, size) = convert_base_lem c 6 9 (omega arith) below in
    let product : value (convert_base c 6 9) ≡ value m.a * value n.a =
      sym (eval-value (convert_base c 6 9))
      ∙ back
      ∙ made
      ∙ ap (λ (t : ℕ). t * eval million (convert_base n.a 9 6)) (vm ∙ eval-value m.a)
      ∙ ap (λ (t : ℕ). value m.a * t) (vn ∙ eval-value n.a) in
    (
      trim (untrimmed m n c),
      times-trim m n c run,
      to_ℤ-trim (untrimmed m n c) ∙ ap (signed (untrimmed m n c).sign) product,
      trim-IsRead (untrimmed m n c) (AreBelow-IsLimbs (convert_base c 6 9) limbs),
    )
