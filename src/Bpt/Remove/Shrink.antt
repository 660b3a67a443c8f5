-- ===== src/Bpt/Remove/Shrink.antt =====
-- `delete_key` where the leaf of the key keeps another key (StateDatabase/bpt_internal.h, bpt.h).
use state_db.Base.{
  ℕ, ◌≤◌, ◌<◌, ◌≡◌, refl, Outcome, done, arith, ltb, length, Bool-cases, inl, inr, ltb→lt, lt→ltb,
}
use state_db.Bpt.LeafList.{LeafList, size_mod}
use state_db.Bpt.Node.{Node, leaf, inner, alias, Kids, end, shared, kid, first}
use state_db.Bpt.Node.Order.{Fits, Chain}
use state_db.Bpt.Remove.Laws.{
  leaf_of, leaf_of_kid, Shrinks, ShrinksKid, delete_leaf_lem, low_lem, high_lem, slot_lem,
  beyond_lem,
}

same : (i j : ℕ) → ◌≡◌ {A = Outcome ℕ} (done i) (done j) → i ≡ j
same i j e = ground arith

module _ {V : Type 0} (order : ℕ) (small : order < size_mod) where
  mutual
    unfolding leaf_of first

    shrink :
        (k : ℕ) (t : Node V) (lo hi : ℕ) (l : LeafList V)
        → Fits order t lo hi
        → lo ≤ k
        → k < hi
        → leaf_of k t ≡ done l
        → 2 ≤ length l.root
        → Shrinks order k lo hi t
    shrink k (leaf a l' next) lo hi l f h h' e two =
        delete_leaf_lem order k a l' next lo hi small f (ground arith)
    shrink k (inner lesser end n) lo hi l f h h' e two = absurd f
    shrink k (inner lesser (shared m) n) lo hi l f h h' e two = absurd f
    shrink k (inner lesser (kid j c rest) n) lo hi l f h h' e two =
        let low = shrink k lesser lo j l f.0 h in
        let high = shrink_kid k (kid j c rest) hi l j f.2 refl in
        elim (Bool-cases (ltb k j)) [
          | inl lt ↦
              low_lem order k lo hi lesser j c rest n f (ltb→lt k j lt)
                (low (ltb→lt k j lt) (rw lt at e) two)
          | inr ge ↦
              let le : j ≤ k = ground arith in
              high_lem order k lo hi lesser j c rest n f le (high le h' (rw ge at e) two)
        ]
    shrink k alias lo hi l f h h' e two = absurd (omega arith)

    shrink_kid :
        (k : ℕ) (kids : Kids V) (hi : ℕ) (l : LeafList V) (j : ℕ)
        → Chain order kids hi
        → first kids ≡ done j
        → j ≤ k
        → k < hi
        → leaf_of_kid k kids ≡ done l
        → 2 ≤ length l.root
        → ShrinksKid order k j hi kids
    shrink_kid k end hi l j c f h h' e two = cc
    shrink_kid k (shared m) hi l j c f h h' e two = cc
    shrink_kid k (kid i t end) hi l j c f h h' e two =
        let le : i ≤ k = ground arith in
        rw (← same i j f) (slot_lem order k i t end hi c le h' (shrink k t i hi l c.0 le h' e two))
    shrink_kid k (kid i t (shared m)) hi l j c f h h' e two =
        let le : i ≤ k = ground arith in
        rw (← same i j f) (
          slot_lem order k i t (shared m) hi c le h'
            (shrink k t i hi l c.0 le h' (rw (lt→ltb k m (omega arith)) at e) two))
    shrink_kid k (kid i t (kid p w rest)) hi l j c f h h' e two =
        let le : i ≤ k = ground arith in
        let here = shrink k t i p l c.0 le in
        let beyond = shrink_kid k (kid p w rest) hi l p c.2 refl in
        elim (Bool-cases (ltb k p)) [
          | inl lt ↦ rw (← same i j f) (
              slot_lem order k i t (kid p w rest) hi c le (ltb→lt k p lt)
                (here (ltb→lt k p lt) (rw lt at e) two))
          | inr ge ↦
              let le' : p ≤ k = ground arith in
              rw (← same i j f)
                (beyond_lem order k i t p w rest hi c le le' (beyond le' h' (rw ge at e) two))
        ]

  -- On a node that serves the range of the key, where the leaf that the key leads to holds two
  -- pairs or more, `delete_key` ends without a fault and drops no node; the node still serves
  -- its range, reads as before but for the key, which is gone, and the result says whether the
  -- key was there.
  pub delete_key-Shrinks :
      (k : ℕ) (t : Node V) (lo hi : ℕ) (l : LeafList V)
      → Fits order t lo hi
      → lo ≤ k
      → k < hi
      → leaf_of k t ≡ done l
      → 2 ≤ length l.root
      → Shrinks order k lo hi t
  delete_key-Shrinks = shrink
