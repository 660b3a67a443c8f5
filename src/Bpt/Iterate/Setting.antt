-- ===== src/Bpt/Iterate/Setting.antt =====
-- `set` of `leaf` and `bpt_internal` (StateDatabase/leaf.h, bpt_internal.h) seen on the sequence of the
-- leaves.
use state_db.Base.{
  ℕ, ◌≤◌, ◌<◌, ◌≡◌, refl, Option, none, some, ◌++◌, done, ◌>>=◌, arith, ltb, lt→ltb, ltb→lt,
  of_done, run_of_bind, append_assoc, ◌∙◌, sym, Bool-cases, inl, inr, false,
}
use state_db.Bpt.LeafList.{size_mod, inc}
use state_db.Bpt.Node.{
  Node, leaf, inner, alias, Kids, end, shared, kid, Sibling, first, insert_after, adopt, finish,
  set, set_kid,
}
use state_db.Bpt.Node.Order.{Fits, Chain, upper}
use state_db.Bpt.Node.Split.{sib_key, sib_node, Ranges}
use state_db.Bpt.Node.Place.{whole, adopt_after, adopt_front, Placed}
use state_db.Bpt.Node.Update.{set_lem, set_kid_lem}
use state_db.Bpt.Iterate.{leaves, leaves_of_kids}
use state_db.Bpt.Iterate.Links.{OwnsFirst}
use state_db.Bpt.Iterate.Grown.{Grown, Grown-append, Grown-behind}
use state_db.Bpt.Iterate.Splitting.{leaves_with, insert-Grown, leaves-finish, leaves-whole}

module _ {V : Type 0} (order : ℕ) where
  -- A new node that goes right behind the child at the front of this part of the chain.
  insert_after_front :
      (m : ℕ) (u : Node V) (i : ℕ) (t : Node V) (rest : Kids V) (hi : ℕ)
      → Chain order rest hi
      → m < upper rest hi
      → insert_after m u (kid i t rest) ≡ done (kid i t (kid m u rest))
  unfolding insert_after
  insert_after_front m u i t end hi c h = refl
  insert_after_front m u i t (shared s) hi c h = ground arith
  insert_after_front m u i t (kid p w rest) hi c h = ground arith

module _ {V : Type 0} where
  -- A new node that goes further down the chain.
  insert_after_rest :
      (m : ℕ) (u : Node V) (i : ℕ) (t : Node V) (rest : Kids V) (p : ℕ) (r : Kids V)
      → first rest ≡ done p
      → p ≤ m
      → insert_after m u (kid i t rest) ≡ done r
      → (r' : Kids V) × (insert_after m u rest ≡ done r') × (kid i t r' ≡ r)
  unfolding insert_after first
  insert_after_rest m u i t end p r e h run = cc
  insert_after_rest m u i t (shared s) p r e h run = cc
  insert_after_rest m u i t (kid x w rest) p r e h run =
      let ge : ltb m x ≡ false = ground arith in
      let (r', run', e') = run_of_bind (insert_after m u (kid x w rest)) _ r (rw ge at run) in
      (r', run', ground (arith, e'))

  -- The sibling belongs behind `p`.
  abbrev IsBehind : ℕ → Option (Sibling V) → Type 0
  IsBehind p none = Unit {0}
  IsBehind p (some s) = p ≤ sib_key s

  Placed-IsBehind :
      (order k : ℕ) (v : V) (j hi : ℕ) (kids kids' : Kids V) (s : Option (Sibling V))
      → Placed order k v j hi kids kids' s
      → IsBehind j s
  Placed-IsBehind order k v j hi kids kids' none p = tt
  Placed-IsBehind order k v j hi kids kids' (some s) p = omega (arith, p.0)

module _ {V : Type 0} (order fresh : ℕ) where
  -- The chain after its child was set; a sibling is still to be linked in.
  abbrev KidsGrown : Kids V → Kids V × Option (Sibling V) → Type 0
  KidsGrown kids (kids', none) = Grown fresh (leaves_of_kids kids) (leaves_of_kids kids')
  KidsGrown kids (kids', some s) =
      (r : Kids V)
      → insert_after (sib_key s) (sib_node s) kids' ≡ done r
      → Grown fresh (leaves_of_kids kids) (leaves_of_kids r)

  slot-Grown :
      (i : ℕ) (t : Node V) (rest : Kids V) (hi : ℕ) (t' : Node V) (s : Option (Sibling V))
      → Chain order rest hi
      → Ranges order t' s i (upper rest hi)
      → Grown fresh (leaves t) (leaves_with (t', s))
      → KidsGrown (kid i t rest) (kid i t' rest, s)
  unfolding leaves
  slot-Grown i t rest hi t' none c f g =
      Grown-append fresh (leaves t) (leaves t') (leaves_of_kids rest) g
  slot-Grown i t rest hi t' (some s) c f g = λ r e.
      of_done (λ r. Grown fresh (leaves_of_kids (kid i t rest)) (leaves_of_kids r)) _ r
        (sym (insert_after_front order (sib_key s) (sib_node s) i t' rest hi c f.1) ∙ e)
        (rw (← append_assoc (leaves t') (leaves (sib_node s)) (leaves_of_kids rest)) (
          Grown-append fresh (leaves t) (leaves t' ++ leaves (sib_node s)) (leaves_of_kids rest) g))

  beyond-Grown :
      (i : ℕ) (t : Node V) (rest : Kids V) (p : ℕ) (rest' : Kids V) (s : Option (Sibling V))
      → first rest' ≡ done p
      → IsBehind p s
      → KidsGrown rest (rest', s)
      → KidsGrown (kid i t rest) (kid i t rest', s)
  unfolding leaves
  beyond-Grown i t rest p rest' none e h g =
      Grown-behind fresh (leaves t) (leaves_of_kids rest) (leaves_of_kids rest') g
  beyond-Grown i t rest p rest' (some s) e h g = λ r run.
      let (r', run', same) = insert_after_rest (sib_key s) (sib_node s) i t rest' p r e h run in
      rw (← same)
        (Grown-behind fresh (leaves t) (leaves_of_kids rest) (leaves_of_kids r') (g r' run'))

  abbrev NodeGrown : Node V → Node V × Option (Sibling V) → Type 0
  NodeGrown t (t', s) = Grown fresh (leaves t) (leaves_with (t', s)) × (OwnsFirst t → OwnsFirst t')

  -- The child before `j` was set.
  low-Grown :
      (lesser : Node V) (j : ℕ) (c : Node V) (rest : Kids V) (n : ℕ) (t : Node V)
      (s : Option (Sibling V)) (lo : ℕ) (r : Node V × Option (Sibling V))
      → Ranges order t s lo j
      → NodeGrown lesser (t, s)
      → (adopt s (kid j c rest) n >>= λ x. finish order t x) ≡ done r
      → NodeGrown (inner lesser (kid j c rest) n) r
  unfolding leaves adopt first
  low-Grown lesser j c rest n t none lo r f g e =
      let (same, owns) = leaves-finish order t (kid j c rest) n r e in
      (
        rw same (Grown-append fresh (leaves lesser) (leaves t) (leaves_of_kids (kid j c rest)) g.0),
        λ h. owns (g.1 h),
      )
  low-Grown lesser j c rest n t (some s) lo r f g e =
      let front = adopt_front s (kid j c rest) j n refl f.1 in
      let (same, owns) =
        leaves-finish order t (kid (sib_key s) (whole s) (kid j c rest)) (inc n) r
          (rw front at e) in
      (
        rw
            (
              same,
              leaves-whole s,
              ← append_assoc (leaves t) (leaves (sib_node s)) (leaves_of_kids (kid j c rest)),
            )
            (Grown-append fresh (leaves lesser) (leaves t ++ leaves (sib_node s))
              (leaves_of_kids (kid j c rest)) g.0),
        λ h. owns (g.1 h),
      )

  -- A child in the chain was set.
  high-Grown :
      (lesser : Node V) (j : ℕ) (kids kids' : Kids V) (n : ℕ) (s : Option (Sibling V)) (k : ℕ)
      (v : V) (hi : ℕ) (r : Node V × Option (Sibling V))
      → first kids' ≡ done j
      → Placed order k v j hi kids kids' s
      → KidsGrown kids (kids', s)
      → (adopt s kids' n >>= λ x. finish order lesser x) ≡ done r
      → NodeGrown (inner lesser kids n) r
  unfolding leaves adopt
  high-Grown lesser j kids kids' n none k v hi r e p g run =
      let (same, owns) = leaves-finish order lesser kids' n r run in
      (
        rw same (Grown-behind fresh (leaves lesser) (leaves_of_kids kids) (leaves_of_kids kids') g),
        owns,
      )
  high-Grown lesser j kids kids' n (some s) k v hi r e p g run =
      let r' = p.2 in
      let after = adopt_after s kids' r' j n e p.0 p.3 in
      let (same, owns) = leaves-finish order lesser r' (inc n) r (rw after at run) in
      (
        rw same (
            Grown-behind fresh (leaves lesser) (leaves_of_kids kids) (leaves_of_kids r')
              (g r' p.3)),
        owns,
      )

module _ {V : Type 0} (order fresh junk : ℕ) (big : 3 ≤ order) (small : order < size_mod) where
  here-Grown :
      (k : ℕ) (v : V) (i : ℕ) (t : Node V) (rest : Kids V) (hi : ℕ)
      → Chain order (kid i t rest) hi
      → i ≤ k
      → k < upper rest hi
      → ((x : Node V × Option (Sibling V))
          → set order fresh junk k v t ≡ done x
          → NodeGrown order fresh t x)
      → (r : Kids V × Option (Sibling V))
      → (set order fresh junk k v t >>= λ (t', s). done (kid i t' rest, s)) ≡ done r
      → KidsGrown order fresh (kid i t rest) r
  here-Grown k v i t rest hi c h h' g r run =
      let (t', s, run', x, u) =
        set_lem order fresh junk big small k v t i (upper rest hi) c.0 h h' in
      of_done (KidsGrown order fresh (kid i t rest)) (kid i t' rest, s) r (rw run' at run)
        (slot-Grown order fresh i t rest hi t' s c.2 x (g (t', s) run').0)

  mutual
    unfolding set first

    pub set-Grown :
        (k : ℕ) (v : V) (t : Node V) (lo hi : ℕ)
        → Fits order t lo hi
        → lo ≤ k
        → k < hi
        → (r : Node V × Option (Sibling V)) → set order fresh junk k v t ≡ done r
        → NodeGrown order fresh t r
    set-Grown k v (leaf a l next) lo hi f h h' r e =
        let (g, owns) = insert-Grown order fresh junk k v a l next r e in (g, λ x. owns)
    set-Grown k v (inner lesser end n) lo hi f h h' r e = absurd f
    set-Grown k v (inner lesser (shared m) n) lo hi f h h' r e = absurd f
    set-Grown k v (inner lesser (kid j c rest) n) lo hi f h h' r e =
        let low = set-Grown k v lesser lo j f.0 h in
        let high = set_kid-Grown k v (kid j c rest) j hi f.2 refl in
        elim (Bool-cases (ltb k j)) [
          | inl lt ↦
              let (t, s, run, x, u) =
                set_lem order fresh junk big small k v lesser lo j f.0 h (ltb→lt k j lt) in
              low-Grown order fresh lesser j c rest n t s lo r x (low (ltb→lt k j lt) (t, s) run)
                (rw (lt, run) at e)
          | inr ge ↦
              let le : j ≤ k = ground arith in
              let (kids', s, run, e', size, p) =
                set_kid_lem order fresh junk big small k v (kid j c rest) j hi f.2 refl le h' in
              high-Grown order fresh lesser j (kid j c rest) kids' n s k v hi r e' p
                (high le h' (kids', s) run) (rw (ge, run) at e)
        ]
    set-Grown k v alias lo hi f h h' r e = absurd (omega arith)

    set_kid-Grown :
        (k : ℕ) (v : V) (kids : Kids V) (j hi : ℕ)
        → Chain order kids hi
        → first kids ≡ done j
        → j ≤ k
        → k < hi
        → (r : Kids V × Option (Sibling V)) → set_kid order fresh junk k v kids ≡ done r
        → KidsGrown order fresh kids r
    set_kid-Grown k v end j hi c e h h' r run = cc
    set_kid-Grown k v (shared m) j hi c e h h' r run = cc
    set_kid-Grown k v (kid i t end) j hi c e h h' r run =
        here-Grown k v i t end hi c (ground arith) h' (set-Grown k v t i hi c.0 (ground arith) h') r
          run
    set_kid-Grown k v (kid i t (shared m)) j hi c e h h' r run =
        here-Grown k v i t (shared m) hi c (ground arith) h'
          (set-Grown k v t i hi c.0 (ground arith) h') r
          (rw (lt→ltb k m (omega (arith, c.2))) at run)
    set_kid-Grown k v (kid i t (kid p w rest)) j hi c e h h' r run =
        let here = set-Grown k v t i p c.0 in
        let beyond = set_kid-Grown k v (kid p w rest) p hi c.2 refl in
        elim (Bool-cases (ltb k p)) [
          | inl lt ↦
              here-Grown k v i t (kid p w rest) hi c (ground arith) (ltb→lt k p lt)
                (here (ground arith) (ltb→lt k p lt)) r (rw lt at run)
          | inr ge ↦
              let le : p ≤ k = ground arith in
              let (rest', s, run', e', size, q) =
                set_kid_lem order fresh junk big small k v (kid p w rest) p hi c.2 refl le h' in
              of_done (KidsGrown order fresh (kid i t (kid p w rest))) (kid i t rest', s) r
                (rw (ge, run') at run)
                (beyond-Grown order fresh i t (kid p w rest) p rest' s e'
                  (Placed-IsBehind order k v p hi (kid p w rest) rest' s q)
                  (beyond le h' (rest', s) run'))
        ]
