-- ===== src/Bpt/Iterate/Sorted.antt =====
-- The pairs of all the leaves of a node, in order (StateDatabase/bpt_internal.h, leaf.h): they rise, and
-- hold what the node answers.
use state_db.Base.{
  ℕ, ◌≤◌, ◌<◌, ◌≡◌, refl, Option, List, [], ◌∷◌, ◌++◌, Outcome, done, arith, ap, ltb, if◌then◌else◌,
  append_assoc, ◌∙◌, sym, append-nil,
}
use state_db.Bpt.LeafList
use state_db.Bpt.LeafList.{find}
use state_db.Bpt.LeafList.Order.{IsSorted}
use state_db.Bpt.LeafList.Range.{Within}
use state_db.Bpt.LeafList.Joined.{Within-mono, Within-join, IsSorted-join, find-join}
use state_db.Bpt.Node.{
  Node, leaf, inner, alias, Kids, end, shared, kid, get_val_ptr, get_kid, first,
}
use state_db.Bpt.Node.Order.{Fits, Chain}
use state_db.Bpt.Node.Chains.{upper-le}
use state_db.Bpt.Iterate.{LeafAt, leaves, leaves_of_kids}
use state_db.Bpt.Iterate.Links.{pairs}

module _ {V : Type 0} where
  pub pairs-append : (xs ys : List (LeafAt V)) → pairs (xs ++ ys) ≡ pairs xs ++ pairs ys
  pairs-append [] ys = refl
  pairs-append (x ∷ xs) ys =
      ap (λ (p : List (ℕ × V)). x.list.root ++ p) (pairs-append xs ys)
      ∙ sym (append_assoc x.list.root (pairs xs) (pairs ys))

  -- The pairs `ps` rise in `[lo, hi)` and hold what `read` shows there.
  pub record Lists (lo hi : ℕ) (ps : List (ℕ × V)) (read : ℕ → Outcome (Option V)) : Type 0 where
    pub sorted : IsSorted ps
    pub within : Within lo hi ps
    pub shows : (q : ℕ) → lo ≤ q → q < hi → read q ≡ done (find q ps)

  Lists-join :
      (lo m hi : ℕ) (xs ys : List (ℕ × V)) (low high read : ℕ → Outcome (Option V))
      → lo ≤ m
      → m ≤ hi
      → Lists lo m xs low
      → Lists m hi ys high
      → ((q : ℕ) → lo ≤ q → q < hi → read q ≡ (if ltb q m then low q else high q))
      → Lists lo hi (xs ++ ys) read
  Lists-join lo m hi xs ys low high read h h' x y r = record {
    sorted = IsSorted-join lo m hi xs ys x.sorted x.within y.sorted y.within;
    within =
        Within-join lo hi xs ys (Within-mono lo lo m hi xs (omega arith) h' x.within)
          (Within-mono lo m hi hi ys h (omega arith) y.within);
    shows = λ q l u.
        ground
          (arith, r q l u, find-join q lo m hi xs ys x.within y.within, x.shows q l, y.shows q);
  }

  Lists-read :
      (lo hi : ℕ) (ps : List (ℕ × V)) (old read : ℕ → Outcome (Option V))
      → ((q : ℕ) → lo ≤ q → q < hi → read q ≡ old q)
      → Lists lo hi ps old
      → Lists lo hi ps read
  Lists-read lo hi ps old read r x = record {
    sorted = x.sorted;
    within = x.within;
    shows = λ q l u. r q l u ∙ x.shows q l u;
  }

module _ {V : Type 0} (order : ℕ) where
  mutual
    unfolding leaves get_val_ptr LeafList.get_val_ptr first

    pub node-Lists :
        (t : Node V) (lo hi : ℕ)
        → Fits order t lo hi
        → Lists lo hi (pairs (leaves t)) (λ q. get_val_ptr q t)
    node-Lists (leaf a l next) lo hi f =
        rw (append-nil l.root)
          (record { sorted = f.valid.sorted; within = f.within; shows = λ q x y. refl })
    node-Lists (inner lesser end n) lo hi f = absurd f
    node-Lists (inner lesser (shared m) n) lo hi f = absurd f
    node-Lists (inner lesser (kid j t rest) n) lo hi f =
        rw (pairs-append (leaves lesser) (leaves_of_kids (kid j t rest))) (
          Lists-join lo j hi (pairs (leaves lesser)) (pairs (leaves_of_kids (kid j t rest)))
            (λ q. get_val_ptr q lesser) (λ q. get_kid q (kid j t rest)) _ f.1
            (omega (arith, upper-le order (kid j t rest) hi f.2)) (node-Lists lesser lo j f.0)
            (kid-Lists (kid j t rest) j hi f.2 refl) (λ q x y. refl))
    node-Lists alias lo hi f = record {
      sorted = tt;
      within = tt;
      shows = λ q x y. absurd (omega arith);
    }

    kid-Lists :
        (kids : Kids V) (j hi : ℕ)
        → Chain order kids hi
        → first kids ≡ done j
        → Lists j hi (pairs (leaves_of_kids kids)) (λ q. get_kid q kids)
    kid-Lists end j hi c e = cc
    kid-Lists (shared m) j hi c e = cc
    kid-Lists (kid i t end) j hi c e =
        let same : j ≡ i = ground (arith, e) in
        rw (append-nil (leaves t)) (rw same (node-Lists t i hi c.0))
    kid-Lists (kid i t (shared m)) j hi c e =
        let same : j ≡ i = ground (arith, e) in
        rw (append-nil (leaves t)) (
          rw same (
            Lists-read i hi (pairs (leaves t)) (λ q. get_val_ptr q t) _ (λ q x y. ground arith)
              (node-Lists t i hi c.0)))
    kid-Lists (kid i t (kid p u rest)) j hi c e =
        let same : j ≡ i = ground (arith, e) in
        rw (pairs-append (leaves t) (leaves_of_kids (kid p u rest))) (
          rw same (
            Lists-join i p hi (pairs (leaves t)) (pairs (leaves_of_kids (kid p u rest)))
              (λ q. get_val_ptr q t) (λ q. get_kid q (kid p u rest)) _ (omega arith)
              (upper-le order (kid p u rest) hi c.2) (node-Lists t i p c.0)
              (kid-Lists (kid p u rest) p hi c.2 refl) (λ q x y. refl)))
