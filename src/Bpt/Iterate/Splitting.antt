-- ===== src/Bpt/Iterate/Splitting.antt =====
-- The leaves of what the steps of `set` leave behind (StateDatabase/leaf.h, bpt_internal.h).
use state_db.Base.{
  ℕ, zero, suc, ◌-◌, ◌/◌, ◌≡◌, refl, Option, none, some, List, ◌++◌, done, ◌>>=◌, ap, ltb, of_done,
  run_of_bind, append_assoc, append-nil, ◌∙◌, Bool-cases, inl, inr, Bool, true, false,
}
use state_db.Bpt.LeafList
use state_db.Bpt.LeafList.{LeafList, inc}
use state_db.Bpt.Node.{
  Node, leaf, Kids, end, shared, kid, Sibling, new_leaf, new_inner, or_crash, link_leaf, insert,
  cut_kids, split_inner, finish,
}
use state_db.Bpt.Node.Split.{sib_node}
use state_db.Bpt.Node.Place.{whole}
use state_db.Bpt.Iterate.{LeafAt, leaves, leaves_of_kids}
use state_db.Bpt.Iterate.Links.{OwnsFirst}
use state_db.Bpt.Iterate.Grown.{Grown, written, halved}

module _ {V : Type 0} where
  -- The leaves of a node and of what was split off from it.
  abbrev pub leaves_with : Node V × Option (Sibling V) → List (LeafAt V)
  leaves_with (t, none) = leaves t
  leaves_with (t, some s) = leaves t ++ leaves (sib_node s)

  halved_lem :
      (fresh a : ℕ) (l : LeafList V) (next : Option ℕ) (front back : LeafList V) (x : Option ℕ)
      (r : Node V × Option (Sibling V))
      → (or_crash x >>= λ m.
          done (leaf a front (some fresh), some (new_leaf m (leaf fresh back next))))
        ≡ done r
      → Grown fresh (leaves (leaf a l next)) (leaves_with r) × OwnsFirst r.0
  unfolding or_crash leaves
  halved_lem fresh a l next front back none r e = cc
  halved_lem fresh a l next front back (some m) r e =
      of_done (λ r. Grown fresh (leaves (leaf a l next)) (leaves_with r) × OwnsFirst r.0) _ _ e
        (halved, tt)

  link_leaf-Grown :
      (fresh a : ℕ) (l : LeafList V) (next : Option ℕ) (x : Option (Bool × LeafList V × LeafList V))
      (r : Node V × Option (Sibling V))
      → link_leaf fresh a next x ≡ done r
      → Grown fresh (leaves (leaf a l next)) (leaves_with r) × OwnsFirst r.0
  unfolding link_leaf or_crash leaves
  link_leaf-Grown fresh a l next none r e = cc
  link_leaf-Grown fresh a l next (some (false, l', w)) r e =
      of_done (λ r. Grown fresh (leaves (leaf a l next)) (leaves_with r) × OwnsFirst r.0) _ _ e
        (written, tt)
  link_leaf-Grown fresh a l next (some (true, front, back)) r e =
      halved_lem fresh a l next front back (LeafList.get_root_key back) r e

  -- `leaf::insert` writes the leaf, or halves it.
  pub insert-Grown :
      (order fresh junk k : ℕ) (v : V) (a : ℕ) (l : LeafList V) (next : Option ℕ)
      (r : Node V × Option (Sibling V))
      → insert order fresh junk k v a l next ≡ done r
      → Grown fresh (leaves (leaf a l next)) (leaves_with r) × OwnsFirst r.0
  unfolding insert leaves
  insert-Grown order fresh junk k v a l next r e =
      elim (Bool-cases (ltb (order - 1) (LeafList.set k v l).size)) [
        | inl full ↦ link_leaf-Grown fresh a l next _ r (rw full at e)
        | inr fits ↦
            of_done (λ r. Grown fresh (leaves (leaf a l next)) (leaves_with r) × OwnsFirst r.0) _ _
              (rw fits at e) (written, tt)
      ]

  -- The cut keeps the leaves in order.
  leaves-cut_kids :
      (c : ℕ) (kids front : Kids V) (m : ℕ) (u : Node V) (back : Kids V)
      → cut_kids c kids ≡ done (front, m, u, back)
      → leaves_of_kids front ++ (leaves u ++ leaves_of_kids back) ≡ leaves_of_kids kids
  unfolding cut_kids leaves
  leaves-cut_kids c end front m u back e = cc
  leaves-cut_kids c (shared s) front m u back e = cc
  leaves-cut_kids zero (kid i t rest) front m u back e =
      of_done
        (λ (front, m, u, back).
          leaves_of_kids front ++ (leaves u ++ leaves_of_kids back)
          ≡ leaves t ++ leaves_of_kids rest)
        _ _ e refl
  leaves-cut_kids (suc c) (kid i t rest) front m u back e =
      let ((f, m', u', b), run, e') = run_of_bind (cut_kids c rest) _ _ e in
      of_done
        (λ (front, m, u, back).
          leaves_of_kids front ++ (leaves u ++ leaves_of_kids back)
          ≡ leaves t ++ leaves_of_kids rest)
        _ _ e'
        (append_assoc (leaves t) (leaves_of_kids f) (leaves u' ++ leaves_of_kids b)
          ∙ ap (λ (x : List (LeafAt V)). leaves t ++ x) (leaves-cut_kids c rest f m' u' b run))

  -- The end of `bpt_internal::set` keeps the leaves in order, and the lowest one.
  pub leaves-finish :
      (order : ℕ) (lesser : Node V) (kids : Kids V) (n : ℕ) (r : Node V × Option (Sibling V))
      → finish order lesser (kids, n) ≡ done r
      → (leaves_with r ≡ leaves lesser ++ leaves_of_kids kids) × (OwnsFirst lesser → OwnsFirst r.0)
  unfolding finish split_inner leaves
  leaves-finish order lesser kids n r e = elim (Bool-cases (ltb (order - 1) n)) [
    | inl full ↦
        let ((f, m, u, b), run, e') = run_of_bind (cut_kids (n / 2) kids) _ _ (rw full at e) in
        of_done
          (λ r.
            (leaves_with r ≡ leaves lesser ++ leaves_of_kids kids)
            × (OwnsFirst lesser → OwnsFirst r.0))
          _ _ e'
          (
            append_assoc (leaves lesser) (leaves_of_kids f) (leaves u ++ leaves_of_kids b)
                ∙ ap (λ (x : List (LeafAt V)). leaves lesser ++ x)
                    (leaves-cut_kids (n / 2) kids f m u b run),
            λ h. h,
          )
    | inr fits ↦
        of_done
          (λ r.
            (leaves_with r ≡ leaves lesser ++ leaves_of_kids kids)
            × (OwnsFirst lesser → OwnsFirst r.0))
          _ _ (rw fits at e) (refl, λ h. h)
  ]

  -- The wrapped right half owns the leaves of the right half.
  pub leaves-whole : (s : Sibling V) → leaves (whole s) ≡ leaves (sib_node s)
  unfolding leaves
  leaves-whole (new_leaf m t) = refl
  leaves-whole (new_inner m t) = append-nil (leaves t)
