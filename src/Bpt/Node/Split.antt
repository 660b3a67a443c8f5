-- ===== src/Bpt/Node/Split.antt =====
-- The splits of `leaf` and `bpt_internal` (StateDatabase/leaf.h, bpt_internal.h).
use state_db.Base.{
  ◌/◌, ℕ, ◌-◌, ◌≤◌, ◌<◌, ◌≡◌, refl, arith, Option, some, none, done, ltb, if◌then◌else◌, Outcome,
  ◌==◌, Bool-cases, inl, inr,
}
use state_db.Bpt.Node.{
  Node, inner, Kids, end, shared, kid, Sibling, new_leaf, new_inner, get_val_ptr, first, finish,
}
use state_db.Bpt.Node.Order.{Fits, Chain, live}
use state_db.Bpt.Node.Chains.{
  cut_kids-Cut, upper-le, upper_of_next, next_key_of_first, get_kid_next, first_of_live,
}

module _ {V : Type 0} where
  abbrev pub sib_key : Sibling V → ℕ
  sib_key (new_leaf m t) = m
  sib_key (new_inner m t) = m

  abbrev pub sib_node : Sibling V → Node V
  sib_node (new_leaf m t) = t
  sib_node (new_inner m t) = t

  -- Reading a node that may have been split.
  abbrev pub read_with : Node V → Option (Sibling V) → ℕ → Outcome (Option V)
  read_with t none q = get_val_ptr q t
  read_with t (some s) q = if ltb q (sib_key s) then get_val_ptr q t else get_val_ptr q (sib_node s)

  -- On `[lo, hi)` the second way of reading shows `v` at `k`, and otherwise what the first shows.
  abbrev pub Updates : ℕ → V → ℕ → ℕ → (old new : ℕ → Outcome (Option V)) → Type 0
  Updates k v lo hi old new =
      (q : ℕ) (r : Option V)
      → lo ≤ q
      → q < hi
      → old q ≡ done r
      → new q ≡ done (if q == k then some v else r)

module _ {V : Type 0} (order : ℕ) where
  abbrev pub Ranges : Node V → Option (Sibling V) → ℕ → ℕ → Type 0
  Ranges t none lo hi = Fits order t lo hi
  Ranges t (some s) lo hi =
      (lo < sib_key s)
      × (sib_key s < hi)
      × Fits order t lo (sib_key s)
      × Fits order (sib_node s) (sib_key s) hi

  -- The run ends, its node and sibling fit the range, and they read as the update of `old`.
  abbrev pub Sets :
      ℕ
      → V
      → ℕ
      → ℕ
      → (old : ℕ → Outcome (Option V)) → Outcome (Node V × Option (Sibling V))
      → Type 0
  Sets k v lo hi old run =
      (t : Node V) × (s : Option (Sibling V)) × (run ≡ done (t, s))
      × Ranges t s lo hi
      × Updates k v lo hi old (read_with t s)

  pub inner-Fits :
      (lesser : Node V) (kids : Kids V) (j lo hi n : ℕ)
      → first kids ≡ done j
      → Fits order lesser lo j
      → lo ≤ j
      → Chain order kids hi
      → n ≡ live kids
      → n ≤ order - 1
      → Fits order (inner lesser kids n) lo hi
  unfolding first
  inner-Fits lesser end j lo hi n e f h c size room = cc
  inner-Fits lesser (shared m) j lo hi n e f h c size room = cc
  inner-Fits lesser (kid i t rest) j lo hi n e f h c size room =
      let same : j ≡ i = ground arith in (rw same at f, rw same at h, c, size, room)

  pub finish_lem :
      (lesser : Node V) (j : ℕ) (kids : Kids V) (n lo hi : ℕ)
      → 3 ≤ order
      → Fits order lesser lo j
      → lo ≤ j
      → Chain order kids hi
      → first kids ≡ done j
      → n ≡ live kids
      → n ≤ order
      → (t : Node V) × (s : Option (Sibling V)) × (finish order lesser (kids, n) ≡ done (t, s))
        × Ranges t s lo hi
        × ((q : ℕ) → lo ≤ q → q < hi → read_with t s q ≡ get_val_ptr q (inner lesser kids n))
  unfolding finish get_val_ptr
  finish_lem lesser j kids n lo hi big fl h c e size room = elim (Bool-cases (ltb (order - 1) n)) [
    | inl full ↦
        let (front, m, u, back, eq, r) = cut_kids-Cut order (n / 2) kids j hi c e (ground arith) in
        let (p, ep) = first_of_live back (ground (arith, r.back_live)) in
        let half : 0 < n / 2 = ground arith in
        let low = r.front_first half in
        (
          inner lesser front (n / 2),
          some (new_inner m (inner u back (n - n / 2 - 1))),
          rw (full, eq),
          (
            omega (arith, r.above half),
            omega (arith, r.below, upper-le order back hi r.back_chain),
            inner-Fits lesser front j lo m (n / 2) low fl h r.front_chain
                (omega (arith, r.front_live)) (ground arith),
            inner-Fits u back p m hi (n - n / 2 - 1) ep
                (rw (upper_of_next back p hi ep) at r.middle)
                (omega (arith, r.below, upper_of_next back p hi ep)) r.back_chain
                (omega (arith, r.back_live)) (ground arith),
          ),
          λ q x y. ground (
            arith,
            e,
            low,
            ep,
            r.above half,
            r.get_front q,
            r.get_back q,
            get_kid_next q m u back p (next_key_of_first back p ep),
          ),
        )
    | inr fits ↦ (
      inner lesser kids n,
      none,
      rw fits,
      inner-Fits lesser kids j lo hi n e fl h c size (ground arith),
      λ q x y. refl,
    )
  ]
