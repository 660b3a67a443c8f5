-- ===== src/Bpt/Node/Update.antt =====
-- `set` of `bpt_internal` (StateDatabase/bpt_internal.h), from the lemmas on its steps.
use state_db.Base.{
  ap, ℕ, suc, ◌≤◌, ◌<◌, ◌≡◌, refl, ◌∙◌, arith, Option, some, none, done, ltb, lt→ltb, ltb→lt,
  Outcome, Bool-cases, inl, inr,
}
use state_db.Bpt.LeafList.{inc, size_mod}
use state_db.Bpt.Node.{
  Node, leaf, inner, alias, Kids, end, shared, kid, Sibling, get_val_ptr, first, adopt, finish, set,
  set_kid,
}
use state_db.Bpt.Node.Order.{Fits, Chain, live}
use state_db.Bpt.Node.Chains.{upper-le}
use state_db.Bpt.Node.Split.{sib_key, read_with, Updates, Ranges, Sets, finish_lem}
use state_db.Bpt.Node.Place.{
  whole, adopt_after, adopt_front, get_val_ptr-whole, whole-Fits, Placed, slot_lem, beyond_lem,
}
use state_db.Bpt.Node.Insert.{insert_lem}

same : (i j : ℕ) → ◌≡◌ {A = Outcome ℕ} (done i) (done j) → j ≡ i
same i j e = ground arith

module _ {V : Type 0} (order : ℕ) (fresh junk : ℕ) (big : 3 ≤ order)
    (small : order < size_mod) where
  -- The last step, `finish`, leaves what is read unchanged.
  finish-Updates :
      (k : ℕ) (v : V) (lo hi : ℕ) (old : ℕ → Outcome (Option V)) (lesser : Node V) (j : ℕ)
      (kids : Kids V) (n : ℕ)
      → Fits order lesser lo j
      → lo ≤ j
      → Chain order kids hi
      → first kids ≡ done j
      → n ≡ live kids
      → n ≤ order
      → Updates k v lo hi old (λ q. get_val_ptr q (inner lesser kids n))
      → Sets order k v lo hi old (finish order lesser (kids, n))
  finish-Updates k v lo hi old lesser j kids n f h c e size room u =
      let (t, s, eq, ranges, reads) =
        finish_lem order lesser j kids n lo hi big f h c e size room in
      (t, s, eq, ranges, λ q r x y g. reads q x y ∙ u q r x y g)

  -- The child before `j` was set to `t`, and perhaps split.
  low-Updates :
      (k : ℕ) (v : V) (lo hi : ℕ) (lesser : Node V) (j : ℕ) (c : Node V) (rest : Kids V) (n : ℕ)
      (t : Node V) (s : Option (Sibling V))
      → Fits order (inner lesser (kid j c rest) n) lo hi
      → k < j
      → Ranges order t s lo j
      → Updates k v lo j (λ q. get_val_ptr q lesser) (read_with t s)
      → (kids : Kids V) × (m : ℕ) × (adopt s (kid j c rest) n ≡ done (kids, m))
        × Sets order k v lo hi
            (λ q. get_val_ptr q (inner lesser (kid j c rest) n))
            (finish order t (kids, m))
  unfolding adopt get_val_ptr first
  low-Updates k v lo hi lesser j c rest n t none f h r u = (
    kid j c rest,
    n,
    refl,
    finish-Updates k v lo hi _ t j (kid j c rest) n r f.1 f.2 refl f.3 (omega arith)
        (λ q x y z e. ground (arith, u q x y)),
  )
  low-Updates k v lo hi lesser j c rest n t (some s) f h r u =
      let m = sib_key s in
      let bound = upper-le order rest hi f.2.2 in
      (
        kid m (whole s) (kid j c rest),
        inc n,
        adopt_front s (kid j c rest) j n refl r.1,
        finish-Updates k v lo hi _ t m (kid m (whole s) (kid j c rest)) (inc n) r.2 (omega arith)
            (whole-Fits order s j big r.1 r.3, r.1, f.2) refl (omega arith) (omega arith)
            (λ q x y z e. ground (arith, u q x y, get_val_ptr-whole s q)),
      )

  -- The child for `k` in the chain was set.
  high-Updates :
      (k : ℕ) (v : V) (lo hi : ℕ) (lesser : Node V) (j : ℕ) (c : Node V) (rest : Kids V) (n : ℕ)
      (kids' : Kids V) (s : Option (Sibling V))
      → Fits order (inner lesser (kid j c rest) n) lo hi
      → j ≤ k
      → first kids' ≡ done j
      → live kids' ≡ suc (live rest)
      → Placed order k v j hi (kid j c rest) kids' s
      → (kids : Kids V) × (m : ℕ) × (adopt s kids' n ≡ done (kids, m))
        × Sets order k v lo hi
            (λ q. get_val_ptr q (inner lesser (kid j c rest) n))
            (finish order lesser (kids, m))
  unfolding adopt get_val_ptr first
  high-Updates k v lo hi lesser j c rest n kids' none f h e size p = (
    kids',
    n,
    refl,
    finish-Updates k v lo hi _ lesser j kids' n f.0 f.1 p.0 e (omega arith) (omega arith)
        (λ q x y z g. ground (arith, e, p.1 q x)),
  )
  high-Updates k v lo hi lesser j c rest n kids' (some s) f h e size p =
      let r = p.2 in
      (
        r,
        inc n,
        adopt_after s kids' r j n e p.0 p.3,
        finish-Updates k v lo hi _ lesser j r (inc n) f.0 f.1 p.6 p.4 (omega (arith, p.5))
            (omega arith) (λ q x y z g. ground (arith, p.4, p.7 q x)),
      )

  mutual
    unfolding set get_val_ptr first

    pub set_lem :
        (k : ℕ) (v : V) (t : Node V) (lo hi : ℕ)
        → Fits order t lo hi
        → lo ≤ k
        → k < hi
        → Sets order k v lo hi (λ q. get_val_ptr q t) (set order fresh junk k v t)
    set_lem k v (leaf a l next) lo hi f h h' =
        insert_lem order fresh junk big small k v a l next lo hi f h h'
    set_lem k v (inner lesser end n) lo hi f h h' = absurd f
    set_lem k v (inner lesser (shared m) n) lo hi f h h' = absurd f
    set_lem k v (inner lesser (kid j c rest) n) lo hi f h h' =
        let low = set_lem k v lesser lo j f.0 h in
        let high = set_kid_lem k v (kid j c rest) j hi f.2 refl in
        elim (Bool-cases (ltb k j)) [
          | inl lt ↦
              let (t, s, e, r, u) = low (ltb→lt k j lt) in
              let (kids, m, a, done_) =
                low-Updates k v lo hi lesser j c rest n t s f (ltb→lt k j lt) r u in
              rw (lt, e, a) done_
          | inr ge ↦
              let le : j ≤ k = ground arith in
              let (kids', s, e, e', size, p) = high le h' in
              let (kids, m, a, done_) =
                high-Updates k v lo hi lesser j c rest n kids' s f le e' size p in
              rw (ge, e, a) done_
        ]
    set_lem k v alias lo hi f h h' = absurd (omega arith)

    pub set_kid_lem :
        (k : ℕ) (v : V) (kids : Kids V) (j hi : ℕ)
        → Chain order kids hi
        → first kids ≡ done j
        → j ≤ k
        → k < hi
        → (kids' : Kids V) × (s : Option (Sibling V)) × (set_kid order fresh junk k v kids
            ≡ done (kids', s))
          × (first kids' ≡ done j)
          × (live kids' ≡ live kids)
          × Placed order k v j hi kids kids' s
    set_kid_lem k v end j hi c e h h' = cc
    set_kid_lem k v (shared m) j hi c e h h' = cc
    set_kid_lem k v (kid i t end) j hi c e h h' =
        let (t', s, run, r, u) = set_lem k v t i hi c.0 (ground arith) h' in
        (
          kid i t' end,
          s,
          rw run,
          e,
          refl,
          rw (same i j e) (slot_lem order k v i t end hi t' s c h' r u),
        )
    set_kid_lem k v (kid i t (shared m)) j hi c e h h' =
        let (t', s, run, r, u) = set_lem k v t i hi c.0 (ground arith) h' in
        (
          kid i t' (shared m),
          s,
          rw (lt→ltb k m (omega arith)) (rw run),
          e,
          refl,
          rw (same i j e) (slot_lem order k v i t (shared m) hi t' s c h' r u),
        )
    set_kid_lem k v (kid i t (kid p w rest)) j hi c e h h' =
        let here = set_lem k v t i p c.0 in
        let beyond = set_kid_lem k v (kid p w rest) p hi c.2 refl in
        elim (Bool-cases (ltb k p)) [
          | inl lt ↦
              let (t', s, run, r, u) = here (ground arith) (ltb→lt k p lt) in
              (
                kid i t' (kid p w rest),
                s,
                rw (lt, run),
                e,
                refl,
                rw (same i j e)
                    (slot_lem order k v i t (kid p w rest) hi t' s c (ltb→lt k p lt) r u),
              )
          | inr ge ↦
              let le : p ≤ k = ground arith in
              let (rest', s, run, e', size, f) = beyond le h' in
              (
                kid i t rest',
                s,
                rw (ge, run),
                e,
                ap suc size,
                rw (same i j e)
                    (beyond_lem order k v i t (kid p w rest) p hi rest' s c refl le e' size f),
              )
        ]

  -- For an order of at least 3, `set` of a key of `[lo, hi)` on a node that serves that range
  -- ends without a fault; the node, with what was split off, serves the same keys, and reads
  -- as before but for the value at `k`.
  pub set-Sets :
      (k : ℕ) (v : V) (t : Node V) (lo hi : ℕ)
      → Fits order t lo hi
      → lo ≤ k
      → k < hi
      → Sets order k v lo hi (λ q. get_val_ptr q t) (set order fresh junk k v t)
  set-Sets = set_lem
