-- ===== src/BigInt/Product/Level.antt =====
-- One level of Karatsuba's method (StateDatabase/bigint.h): the three products of the halves are put
-- together to the product of the whole.
use state_db.Base.{
  ℕ, zero, ◌+◌, ◌*◌, ◌^◌, ◌≡◌, List, length, take, drop, replicate, arith, ap, sym, ◌∙◌,
  length-replicate, length-take, length-drop,
}
use state_db.BigInt.Product.{add_rows, add_all, sub_all, add_at, school, combine}
use state_db.BigInt.Product.Digits.{eval, pow_add, pow_zero}
use state_db.BigInt.Product.School.{
  eval-add_rows, eval-replicate, eval-school, eval-add_all, eval-add_at, sub_all-add_all,
  eval_split, eval-injective,
}

module _ (a1 a2 b1 b2 : List ℕ) (k : ℕ) (la1 : length a1 ≡ k) (la2 : length a2 ≡ k)
    (lb1 : length b1 ≡ k) (lb2 : length b2 ≡ k) where
  -- The sum of the two products across.
  cross : List ℕ
  cross = add_rows a1 b2 (add_rows a2 b1 (replicate (k + k) 0))

  eval-cross :
      (z : ℕ)
      → (eval z cross ≡ eval z a1 * eval z b2 + eval z a2 * eval z b1) × (length cross ≡ k + k)
  unfolding cross
  eval-cross z =
      let size = length-replicate {A = ℕ} (k + k) 0 in
      let (e, l) = eval-add_rows z a2 b1 (replicate (k + k) 0) (omega (arith, size)) in
      let (e', l') =
        eval-add_rows z a1 b2 (add_rows a2 b1 (replicate (k + k) 0)) (omega (arith, size, l)) in
      (omega (arith, e, e', eval-replicate z (k + k)), omega (arith, size, l, l'))

  -- The product of the sums holds the two products and the cross.
  sums : List ℕ
  sums = school (add_all a2 a1) (add_all b2 b1)

  eval-sums :
      (z : ℕ)
      → (eval z sums ≡ (eval z a1 + eval z a2) * (eval z b1 + eval z b2)) × (length sums ≡ k + k)
  unfolding sums
  eval-sums z =
      let (e, l) = eval-add_all z a2 a1 (omega arith) in
      let (e', l') = eval-add_all z b2 b1 (omega arith) in
      let (p, s) = eval-school z (add_all a2 a1) (add_all b2 b1) (omega (arith, l, l')) in
      (
        p
            ∙ ap (λ (t : ℕ). t * eval z (add_all b2 b1)) (e ∙ omega arith)
            ∙ ap (λ (t : ℕ). (eval z a1 + eval z a2) * t) (e' ∙ omega arith),
        omega (arith, s, l),
      )

  sums_split : sums ≡ add_all (add_all cross (school a2 b2)) (school a1 b1)
  sums_split =
      let (p, lp) = eval-school 1 a1 b1 (omega arith) in
      let (q, lq) = eval-school 1 a2 b2 (omega arith) in
      let lc = (eval-cross 1).1 in
      let lt = (eval-add_all 1 cross (school a2 b2) (omega (arith, lq, lc))).1 in
      let lall =
        (eval-add_all 1 (add_all cross (school a2 b2)) (school a1 b1)
          (omega (arith, lp, lt, lc))).1 in
      eval-injective sums (add_all (add_all cross (school a2 b2)) (school a1 b1))
        (omega (arith, (eval-sums 1).1, lc, lt, lall))
        (λ z pos.
          let inner = (eval-add_all z cross (school a2 b2) (omega (arith, lq, lc))).0 in
          let outer =
            (eval-add_all z (add_all cross (school a2 b2)) (school a1 b1)
              (omega (arith, lp, lt, lc))).0 in
          omega (
            arith,
            (eval-sums z).0,
            (eval-cross z).0,
            inner,
            outer,
            (eval-school z a1 b1 (omega arith)).0,
            (eval-school z a2 b2 (omega arith)).0,
          ))

  mid : sub_all (sub_all sums (school a1 b1)) (school a2 b2) ≡ cross
  mid =
      let lp = (eval-school 1 a1 b1 (omega arith)).1 in
      let lq = (eval-school 1 a2 b2 (omega arith)).1 in
      let lc = (eval-cross 1).1 in
      let lt = (eval-add_all 1 cross (school a2 b2) (omega (arith, lq, lc))).1 in
      ap (λ (l : List ℕ). sub_all (sub_all l (school a1 b1)) (school a2 b2)) sums_split
      ∙ ap (λ (l : List ℕ). sub_all l (school a2 b2))
          (sub_all-add_all (add_all cross (school a2 b2)) (school a1 b1)
            (omega (arith, lp, lt, lc)))
      ∙ sub_all-add_all cross (school a2 b2) (omega (arith, lq, lc))

  -- The whole, from the numbers that the halves stand for.
  eval-combine :
      (z : ℕ)
      → (eval z (combine k (k + k) (school a1 b1) (school a2 b2) sums)
          ≡ (eval z a1 + z ^ k * eval z a2) * (eval z b1 + z ^ k * eval z b2))
        × (length (combine k (k + k) (school a1 b1) (school a2 b2) sums) ≡ (k + k) + (k + k))
  unfolding combine
  eval-combine z =
      let n = k + k in
      let zeros = replicate (n + n) 0 in
      let size = length-replicate {A = ℕ} (n + n) 0 in
      let (p, lp) = eval-school z a1 b1 (omega arith) in
      let (q, lq) = eval-school z a2 b2 (omega arith) in
      let (c, lc) = eval-cross z in
      let (e1, l1) = eval-add_at z k cross zeros (omega (arith, size, lc)) in
      let (e2, l2) =
        eval-add_at z zero (school a1 b1) (add_at k cross zeros) (omega (arith, size, l1, lp)) in
      let (e3, l3) =
        eval-add_at z n (school a2 b2) (add_at zero (school a1 b1) (add_at k cross zeros))
          (omega (arith, size, l1, l2, lq)) in
      let square = pow_add z k k in
      rw mid (
        omega (
          arith,
          e1,
          e2,
          e3,
          eval-replicate z (n + n),
          p,
          ap (λ (t : ℕ). z ^ k * t) c,
          ap (λ (t : ℕ). z ^ n * t) q,
          ap (λ (t : ℕ). t * (eval z a2 * eval z b2)) square,
          ap (λ (t : ℕ). t * eval z (school a1 b1)) (pow_zero z),
        ),
        omega (arith, size, l1, l2, l3),
      )

pub half : (k : ℕ) (l : List ℕ) → length l ≡ k + k → length (take k l) ≡ k
half k l h = length-take k l ∙ omega (arith, h)

pub rest : (k : ℕ) (l : List ℕ) → length l ≡ k + k → length (drop k l) ≡ k
rest k l h = length-drop k l ∙ omega (arith, h)

-- One level of the method.
pub combine-school :
    (k : ℕ) (a b : List ℕ)
    → length a ≡ k + k
    → length b ≡ k + k
    → combine k
        (k + k)
        (school (take k a) (take k b))
        (school (drop k a) (drop k b))
        (school (add_all (drop k a) (take k a)) (add_all (drop k b) (take k b)))
      ≡ school a b
unfolding sums
combine-school k a b la lb =
    let whole =
      eval-combine (take k a) (drop k a) (take k b) (drop k b) k (half k a la) (rest k a la)
        (half k b lb) (rest k b lb) in
    eval-injective _ (school a b)
      ((whole 1).1 ∙ omega (arith, la, (eval-school 1 a b (omega arith)).1))
      (λ z pos.
        (whole z).0
        ∙ ap (λ (t : ℕ). t * (eval z (take k b) + z ^ k * eval z (drop k b)))
            (sym (eval_split z k a (omega arith)))
        ∙ ap (λ (t : ℕ). eval z a * t) (sym (eval_split z k b (omega arith)))
        ∙ sym (eval-school z a b (omega arith)).0)
