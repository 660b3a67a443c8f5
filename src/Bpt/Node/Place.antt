-- ===== src/Bpt/Node/Place.antt =====
-- How a child's split reaches the chain of its parent (StateDatabase/bpt_internal.h).
use state_db.Base.{ap, ℕ, suc, ◌≤◌, ◌<◌, ◌≡◌, refl, arith, Option, some, none, done}
use state_db.Bpt.LeafList.{inc}
use state_db.Bpt.Node.{
  Node, inner, alias, Kids, end, shared, kid, Sibling, new_leaf, new_inner, get_val_ptr, get_kid,
  first, insert_after, adopt,
}
use state_db.Bpt.Node.Order.{Fits, Chain, upper, live}
use state_db.Bpt.Node.Chains.{
  next_key_of_first, get_kid_next, insert_after_beyond, upper_of_next, upper-le,
}
use state_db.Bpt.Node.Split.{sib_key, sib_node, read_with, Updates, Ranges}

module _ {V : Type 0} where
  -- What `insert_leaf` or `insert_internal` puts at the front of a chain.
  abbrev pub whole : Sibling V → Node V
  whole (new_leaf m t) = t
  whole (new_inner m t) = inner alias (kid m t end) 1

  pub adopt_after :
      (s : Sibling V) (kids r : Kids V) (j n : ℕ)
      → first kids ≡ done j
      → j < sib_key s
      → insert_after (sib_key s) (sib_node s) kids ≡ done r
      → adopt (some s) kids n ≡ done (r, inc n)
  unfolding adopt
  adopt_after (new_leaf m t) kids r j n e h i = ground arith
  adopt_after (new_inner m t) kids r j n e h i = ground arith

  pub adopt_front :
      (s : Sibling V) (kids : Kids V) (j n : ℕ)
      → first kids ≡ done j
      → sib_key s < j
      → adopt (some s) kids n ≡ done (kid (sib_key s) (whole s) kids, inc n)
  unfolding adopt
  adopt_front (new_leaf m t) kids j n e h = ground arith
  adopt_front (new_inner m t) kids j n e h = ground arith

  -- The wrapped right half reads as the right half.
  pub get_val_ptr-whole :
      (s : Sibling V) (q : ℕ) → sib_key s ≤ q → get_val_ptr q (whole s) ≡ get_val_ptr q (sib_node s)
  unfolding get_val_ptr first
  get_val_ptr-whole (new_leaf m t) q h = refl
  get_val_ptr-whole (new_inner m t) q h = ground arith

module _ {V : Type 0} (order : ℕ) where
  pub whole-Fits :
      (s : Sibling V) (hi : ℕ)
      → 3 ≤ order
      → sib_key s < hi
      → Fits order (sib_node s) (sib_key s) hi
      → Fits order (whole s) (sib_key s) hi
  whole-Fits (new_leaf m t) hi big h f = f
  whole-Fits (new_inner m t) hi big h f = (omega arith, omega arith, (f, h, tt), refl, omega arith)

  -- The chain after the child for `k` was set, and after the sibling was linked in behind it.
  abbrev pub Placed : ℕ → V → ℕ → ℕ → Kids V → Kids V → Option (Sibling V) → Type 0
  Placed k v j hi kids kids' none =
      Chain order kids' hi × Updates k v j hi (λ q. get_kid q kids) (λ q. get_kid q kids')
  Placed k v j hi kids kids' (some s) =
      (j < sib_key s)
      × (sib_key s < hi)
      × (r : Kids V) × (insert_after (sib_key s) (sib_node s) kids' ≡ done r)
      × (first r ≡ done j)
      × (live r ≡ suc (live kids))
      × Chain order r hi
      × Updates k v j hi (λ q. get_kid q kids) (λ q. get_kid q r)

  pub slot_lem :
      (k : ℕ) (v : V) (i : ℕ) (t : Node V) (rest : Kids V) (hi : ℕ) (t' : Node V)
      (s : Option (Sibling V))
      → Chain order (kid i t rest) hi
      → k < upper rest hi
      → Ranges order t' s i (upper rest hi)
      → Updates k v i (upper rest hi) (λ q. get_val_ptr q t) (read_with t' s)
      → Placed k v i hi (kid i t rest) (kid i t' rest) s
  unfolding get_kid insert_after first
  slot_lem k v i t end hi t' none c h f u = ((f, c.1, c.2), u)
  slot_lem k v i t (shared m) hi t' none c h f u =
      ((f, c.1, c.2), λ q r x y e. ground (arith, u q r x y))
  slot_lem k v i t (kid p w rest) hi t' none c h f u =
      ((f, c.1, c.2), λ q r x y e. ground (arith, u q r x))
  slot_lem k v i t end hi t' (some s) c h f u = (
    f.0,
    f.1,
    kid i t' (kid (sib_key s) (sib_node s) end),
    refl,
    refl,
    refl,
    (f.2, f.0, (f.3, f.1, tt)),
    u,
  )
  slot_lem k v i t (shared m) hi t' (some s) c h f u = (
    f.0,
    f.1,
    kid i t' (kid (sib_key s) (sib_node s) (shared m)),
    ground arith,
    refl,
    refl,
    (f.2, f.0, (f.3, f.1, c.2)),
    λ q r x y e. ground (arith, u q r x y),
  )
  slot_lem k v i t (kid p w rest) hi t' (some s) c h f u = (
    f.0,
    omega (arith, f.1, upper-le order (kid p w rest) hi c.2),
    kid i t' (kid (sib_key s) (sib_node s) (kid p w rest)),
    ground arith,
    refl,
    refl,
    (f.2, f.0, (f.3, f.1, c.2)),
    λ q r x y e. ground (arith, u q r x),
  )

  -- The child for `k` stands further down the chain.
  pub beyond_lem :
      (k : ℕ) (v : V) (i : ℕ) (t : Node V) (rest : Kids V) (p hi : ℕ) (rest' : Kids V)
      (s : Option (Sibling V))
      → Chain order (kid i t rest) hi
      → first rest ≡ done p
      → p ≤ k
      → first rest' ≡ done p
      → live rest' ≡ live rest
      → Placed k v p hi rest rest' s
      → Placed k v i hi (kid i t rest) (kid i t rest') s
  unfolding first
  beyond_lem k v i t rest p hi rest' none c e h e' size f =
      let b = upper_of_next rest p hi e in
      let b' = upper_of_next rest' p hi e' in
      (
        (rw (b', ← b) c.0, rw (b', ← b) c.1, f.0),
        λ q r x y g. ground (
          arith,
          get_kid_next q i t rest p (next_key_of_first rest p e),
          get_kid_next q i t rest' p (next_key_of_first rest' p e'),
          f.1 q r,
        ),
      )
  beyond_lem k v i t rest p hi rest' (some s) c e h e' size f =
      let r = f.2 in
      let b = upper_of_next rest p hi e in
      let b' = upper_of_next r p hi f.4 in
      (
        omega (arith, f.0, c.1, b),
        f.1,
        kid i t r,
        insert_after_beyond (sib_key s) (sib_node s) i t rest' r p e' (omega (arith, f.0)) f.3,
        refl,
        ap suc f.5,
        (rw (b', ← b) c.0, rw (b', ← b) c.1, f.6),
        λ q o x y g. ground (
          arith,
          get_kid_next q i t rest p (next_key_of_first rest p e),
          get_kid_next q i t r p (next_key_of_first r p f.4),
          f.7 q o,
        ),
      )
