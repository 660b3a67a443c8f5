-- ===== src/BigInt/Division/Long.antt =====
-- The loop of `divmod` (StateDatabase/bigint.h) over the limbs.
use state_db.Base.{ℕ, suc, ◌+◌, ◌*◌, ◌/◌, ◌<◌, ◌≡◌, refl, some, List, [], ◌∷◌, length, arith, ap}
use native.Mathlib.Nat.{lt_of_mul-lt-mul_left, div-add-mod}
use state_db.BigInt.{BigInt, Sign, base, plus, div_int, div_loop, turned}
use state_db.BigInt.Value.{value, IsLimbs, value-div_loop}
use state_db.BigInt.Order.{IsCanonical, IsTrimmed}
use state_db.BigInt.Closed.{trim-IsCanonical}
use state_db.BigInt.Division.{last, divide_loop}
use state_db.BigInt.Division.Estimate.{last_lem}
use state_db.BigInt.Division.Digit.{IsDigit, IsDivisor}
use state_db.BigInt.Division.Natural.{IsNatural}
use state_db.BigInt.Division.Limb.{then_some-some, divide_limb_lem}

-- The quotient's limbs and the remainder of `total`.
pub record Divides (total : ℕ) (b : BigInt) (qs : List ℕ) (r : BigInt) : Type 0 where
  pub limbs : IsLimbs qs
  pub remainder : IsNatural r (value r.a)
  pub below : value r.a < value b.a
  pub splits : value r.a + value qs * value b.a ≡ total

-- One more limb.
divided :
    (x total d : ℕ) (b : BigInt) (qs : List ℕ) (r r' : BigInt)
    → x < base
    → Divides total b qs r
    → IsDigit (value r.a * base + x) d r' b
    → Divides (x + base * total) b (d ∷ qs) r'
divided x total d b qs r r' h v i =
    let under : value b.a * d < value b.a * base = omega (arith, i.splits, v.below, h) in
    record {
      limbs = (lt_of_mul-lt-mul_left (value b.a) under, v.limbs);
      remainder = record { canonical = i.canonical; positive = i.positive; valued = refl };
      below = i.below;
      splits = omega (arith, i.splits, ap (λ (t : ℕ). base * t) v.splits);
    }

pub divide_loop_lem :
    (xs : List ℕ) (b : BigInt) (j top : ℕ)
    → IsLimbs xs
    → IsDivisor b
    → length b.a ≡ suc j
    → last b.a ≡ some top
    → 0 < top
    → 0 < value b.a
    → (qs : List ℕ) × (r : BigInt) × (divide_loop xs b top ≡ some (qs, r))
      × (length qs ≡ length xs)
      × Divides (value xs) b qs r
unfolding divide_loop
divide_loop_lem [] b j top l d len e p n = (
  [],
  record { a = []; sign = plus },
  refl,
  refl,
  record {
    limbs = tt;
    remainder = record {
      canonical = record { limbs = tt; trimmed = tt; short = omega arith; zero_plus = λ z. refl };
      positive = refl;
      valued = refl;
    };
    below = n;
    splits = omega arith;
  },
)
divide_loop_lem (x ∷ xs) b j top l d len e p n =
    let (qs, r, run, size, v) = divide_loop_lem xs b j top l.1 d len e p n in
    let (q, r', run', i) =
      divide_limb_lem x r b j top (value r.a) l.0 d len e p v.remainder v.below in
    (
      q ∷ qs,
      r',
      then_some-some _ _ (qs, r) _ run (then_some-some _ _ (q, r') _ run' refl),
      ap suc size,
      divided x (value xs) q b qs r r' l.0 v i,
    )

-- The highest limb of a number above zero.
pub highest :
    (n : BigInt)
    → IsCanonical n
    → 0 < value n.a
    → (j : ℕ) × (top : ℕ) × (length n.a ≡ suc j) × (last n.a ≡ some top) × (0 < top)
highest n c h = go n.a c.trimmed h
  where
    go :
        (xs : List ℕ)
        → IsTrimmed xs
        → 0 < value xs
        → (j : ℕ) × (top : ℕ) × (length xs ≡ suc j) × (last xs ≡ some top) × (0 < top)
    go [] t h = absurd (omega (arith, h))
    go (x ∷ xs) t h = let (top, e, p) = last_lem x xs t in (length xs, top, refl, e, p)

div_loop-IsLimbs : (xs : List ℕ) (v : ℕ) → 0 < v → IsLimbs xs → IsLimbs (div_loop xs v).0
unfolding div_loop
div_loop-IsLimbs [] v h l = tt
div_loop-IsLimbs (x ∷ xs) v h l =
    let low = (value-div_loop xs v h).1 in
    let rem = (div_loop xs v).1 in
    let room : v * ((x + rem * base) / v) < v * base =
      omega (arith, div-add-mod (x + rem * base) v, l.0, low) in
    (lt_of_mul-lt-mul_left v room, div_loop-IsLimbs xs v h l.1)

length-div_loop : (xs : List ℕ) (v : ℕ) → length (div_loop xs v).0 ≡ length xs
unfolding div_loop
length-div_loop [] v = refl
length-div_loop (x ∷ xs) v = ap suc (length-div_loop xs v)

pub div_int-IsCanonical :
    (n : BigInt) (v : ℕ) (s : Sign) → 0 < v → IsCanonical n → IsCanonical (div_int n v s)
unfolding div_int
div_int-IsCanonical n v s h c =
    trim-IsCanonical (record { a = (div_loop n.a v).0; sign = turned s n.sign })
      (div_loop-IsLimbs n.a v h c.limbs) (omega (arith, c.short, length-div_loop n.a v))
