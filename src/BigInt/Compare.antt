-- ===== src/BigInt/Compare.antt =====
-- The comparisons of `bigint` that go by `operator<` (StateDatabase/bigint.h).
use state_db.Base.{
  ℕ, ◌+◌, ◌*◌, ◌<◌, ◌≡◌, ◌↔◌, refl, Bool, true, false, not, ◌&&◌, ◌||◌, List, [], ◌∷◌, length,
  arith, ap, ◌∙◌, sym, ltb, ltb→lt, Bool-cases, inl, inr,
}
use state_db.Base.Int.{ℤ, ◌≤ℤ◌, ltb_ℤ, eq_of_parts}
use state_db.BigInt.{BigInt, Sign, base, less}
use state_db.BigInt.Value.{value, IsLimbs}
use state_db.BigInt.Order.{IsCanonical, IsTrimmed, signed, to_ℤ, value_pos, less-ltb_ℤ}
use state_db.BigInt.Closed.{IsTrimmed-tail}
use state_db.BigInt.Product.Signed.{same_magnitude, same_side}
mod Examples

unfoldable pub greater : BigInt → BigInt → Bool
unfolding less
greater m n = less n m

unfoldable pub at_most : BigInt → BigInt → Bool
unfolding less
at_most m n = not (less n m)

unfoldable pub at_least : BigInt → BigInt → Bool
unfolding less
at_least m n = not (less m n)

unfoldable pub equal : BigInt → BigInt → Bool
unfolding less
equal m n = not (less m n) && not (less n m)

unfoldable pub differs : BigInt → BigInt → Bool
unfolding less
differs m n = less m n || less n m

-- Limbs without leading zeros are determined by the value.
value_injective :
    (xs ys : List ℕ)
    → IsLimbs xs
    → IsLimbs ys
    → IsTrimmed xs
    → IsTrimmed ys
    → value xs ≡ value ys
    → xs ≡ ys
value_injective [] [] l k t u e = refl
value_injective [] (y ∷ ys) l k t u e = absurd (omega (arith, e, value_pos y ys u))
value_injective (x ∷ xs) [] l k t u e = absurd (omega (arith, e, value_pos x xs t))
value_injective (x ∷ xs) (y ∷ ys) l k t u e =
    let head : x ≡ y = omega (arith, e, l.0, k.0) in
    let tail : value xs ≡ value ys = omega (arith, e, l.0, k.0) in
    let rest = value_injective xs ys l.1 k.1 (IsTrimmed-tail x xs t) (IsTrimmed-tail y ys u) tail in
    rw (head, rest) refl

same_numbers : (m n : BigInt) → m.a ≡ n.a → m.sign ≡ n.sign → m ≡ n
same_numbers m n e f =
    ap (λ (l : List ℕ). record { a = l; sign = m.sign }) e
    ∙ ap (λ (s : Sign). record { a = n.a; sign = s }) f

zero_length : (xs : List ℕ) → IsTrimmed xs → value xs ≡ 0 → length xs ≡ 0
zero_length [] t e = refl
zero_length (x ∷ xs) t e = absurd (omega (arith, e, value_pos x xs t))

same_sign_of :
    (m n : BigInt)
    → IsCanonical m
    → IsCanonical n
    → to_ℤ m ≡ to_ℤ n
    → value m.a ≡ value n.a
    → m.sign ≡ n.sign
same_sign_of m n cm cn e v = elim (Bool-cases (ltb 0 (value n.a))) [
  | inl p ↦ same_side m.sign n.sign (value m.a) (value n.a) e (ltb→lt 0 (value n.a) p)
  | inr z ↦
      let none_left : value n.a ≡ 0 = ground (arith, z) in
      cm.zero_plus (zero_length m.a cm.trimmed (v ∙ none_left))
      ∙ sym (cn.zero_plus (zero_length n.a cn.trimmed none_left))
]

-- A canonical number is determined by the integer that it stands for.
pub to_ℤ_injective : (m n : BigInt) → IsCanonical m → IsCanonical n → to_ℤ m ≡ to_ℤ n → m ≡ n
to_ℤ_injective m n cm cn e =
    let same = same_magnitude m.sign n.sign (value m.a) (value n.a) e in
    same_numbers m n (value_injective m.a n.a cm.limbs cn.limbs cm.trimmed cn.trimmed same)
      (same_sign_of m n cm cn e same)

same_integers : (a b : ℤ) → (not (ltb_ℤ a b) && not (ltb_ℤ b a)) ≡ true → a ≡ b
same_integers a b h = eq_of_parts a b (ground arith)

not_below_itself : (a : ℤ) → (not (ltb_ℤ a a) && not (ltb_ℤ a a)) ≡ true
not_below_itself a = ground arith

-- What the comparisons of two numbers say.
pub record Compares (m n : BigInt) : Type 0 where
  pub greater_iff : greater m n ≡ ltb_ℤ (to_ℤ n) (to_ℤ m)
  pub at_most_iff : (at_most m n ≡ true) ↔ (to_ℤ m ≤ℤ to_ℤ n)
  pub at_least_iff : (at_least m n ≡ true) ↔ (to_ℤ n ≤ℤ to_ℤ m)
  pub equal_iff : (equal m n ≡ true) ↔ (m ≡ n)
  pub differs_iff : differs m n ≡ not (equal m n)

not_below : (a b : ℤ) → (not (ltb_ℤ b a) ≡ true) ↔ (a ≤ℤ b)
not_below a b = ground arith

equal_self : (m n : BigInt) → IsCanonical m → m ≡ n → equal m n ≡ true
unfolding equal
equal_self m n c e = rw (← e, less-ltb_ℤ m m c c) (not_below_itself (to_ℤ m))

equal-to_ℤ : (m n : BigInt) → IsCanonical m → IsCanonical n → equal m n ≡ true → to_ℤ m ≡ to_ℤ n
unfolding equal
equal-to_ℤ m n cm cn h =
    same_integers (to_ℤ m) (to_ℤ n) (rw (less-ltb_ℤ m n cm cn, less-ltb_ℤ n m cn cm) at h)

-- The comparisons of canonical numbers are those of the integers, `operator==` holds for equal
-- numbers and no others, and `operator!=` is its negation.
pub equal-Compares : (m n : BigInt) → IsCanonical m → IsCanonical n → Compares m n
unfolding greater at_most at_least equal differs
equal-Compares m n cm cn =
    let below = less-ltb_ℤ m n cm cn in
    let above = less-ltb_ℤ n m cn cm in
    record {
      greater_iff = above;
      at_most_iff = rw above (not_below (to_ℤ m) (to_ℤ n));
      at_least_iff = rw below (not_below (to_ℤ n) (to_ℤ m));
      equal_iff =
          (λ h. to_ℤ_injective m n cm cn (equal-to_ℤ m n cm cn h), λ e. equal_self m n cm e);
      differs_iff = go (less m n) (less n m);
    }
  where
    go : (x y : Bool) → (x || y) ≡ not (not x && not y)
    go true y = refl
    go false true = refl
    go false false = refl
