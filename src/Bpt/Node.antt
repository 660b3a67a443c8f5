-- ===== src/Bpt/Node.antt =====
-- The nodes of the B+ tree: `leaf` (StateDatabase/leaf.h) and `bpt_internal`
-- (StateDatabase/bpt_internal.h) under their base `bpt_base`.
--
-- Memory. Every node is owned by one slot of its parent, so a tree of nodes is a value; a leaf
-- carries its address, to which the `m_next` of another leaf may point. Two pointers of the code
-- lead to memory that another object owns, and have constructors of their own: after
-- `insert_internal` at the front the new node's `m_lesser` is the parent's `m_lesser` too (`alias`),
-- and after `split` the left half's chain runs on into the middle list node, which now belongs to
-- the new root (`shared m`, with the key `m` of that list node). Following either is `astray`.
-- `bpt_internal()` leaves `m_lesser` and `m_root` to its caller `split`, which sets both.
pub mod Order
pub mod Lookup
pub mod Chains
pub mod Split
pub mod Insert
pub mod Place
pub mod Update
use state_db.Base.{
  ℕ, zero, suc, ◌+◌, ◌-◌, ◌/◌, Bool, true, false, Option, none, some, List, [], ◌∷◌, ltb, ◌==◌,
  if◌then◌else◌, Outcome, done, crash, hang, astray, ◌>>=◌,
}
use state_db.Bpt.LeafList
use state_db.Bpt.LeafList.{LeafList, inc}

mutual
  pub data Node (V : Type 0) : Type 0 where
    leaf : ℕ → LeafList V → Option ℕ → Node V
    inner : Node V → Kids V → ℕ → Node V
    alias : Node V

  -- The chain of `list_node`s of an internal node.
  pub data Kids (V : Type 0) : Type 0 where
    end : Kids V
    shared : ℕ → Kids V
    kid : ℕ → Node V → Kids V → Kids V

-- What a child hands to its parent after a split: a new leaf with its first key, or what the new
-- root made by `split` holds beside the split node, the middle key and the right half.
pub data Sibling (V : Type 0) : Type 0 where
  new_leaf new_inner : ℕ → Node V → Sibling V

-- The target of a pointer that is dereferenced.
unfoldable pub or_crash {ℓ} : {A : Type ℓ} → Option A → Outcome A
or_crash none = crash
or_crash (some a) = done a

module _ {V : Type 0} where
  -- `bpt_internal::primary_key`.
  unfoldable pub first : Kids V → Outcome ℕ
  first end = crash
  first (shared m) = astray
  first (kid j t rest) = done j

  -- An `alias` is never asked: it serves no key.
  unfoldable pub size : Node V → ℕ
  size (leaf a l next) = l.size
  size (inner lesser kids n) = n
  size alias = 0

  -- `get_val_ptr` of both classes, with `get_child_ge` and `get_child_ln_ge`.
  unfoldable mutual
    pub get_val_ptr : ℕ → Node V → Outcome (Option V)
    get_val_ptr k (leaf a l next) = done (LeafList.get_val_ptr k l)
    get_val_ptr k (inner lesser kids n) =
        let low = get_val_ptr k lesser in
        let high = get_kid k kids in first kids >>= λ j. if ltb k j then low else high
    get_val_ptr k alias = astray

    pub get_kid : ℕ → Kids V → Outcome (Option V)
    get_kid k end = crash
    get_kid k (shared m) = astray
    get_kid k (kid j t end) = get_val_ptr k t
    get_kid k (kid j t (shared m)) = let here = get_val_ptr k t in if ltb k m then here else astray
    get_kid k (kid j t (kid i u rest)) =
        let here = get_val_ptr k t in
        let beyond = get_kid k (kid i u rest) in if ltb k i then here else beyond

  -- The `else` branch of `insert_leaf` and `insert_internal`: behind the node that
  -- `get_child_ln_ge` finds.
  unfoldable pub insert_after : ℕ → Node V → Kids V → Outcome (Kids V)
  insert_after m t end = crash
  insert_after m t (shared s) = astray
  insert_after m t (kid j c end) = done (kid j c (kid m t end))
  insert_after m t (kid j c (shared s)) =
      if ltb m s then done (kid j c (kid m t (shared s))) else astray
  insert_after m t (kid j c (kid i u rest)) =
      let beyond = insert_after m t (kid i u rest) in
      if ltb m i then done (kid j c (kid m t (kid i u rest))) else beyond >>= λ r. done (kid j c r)

  pub insert_leaf : ℕ → Node V → Kids V → Outcome (Kids V)
  unfolding insert_after first
  insert_leaf m t kids =
      first kids >>= λ j. if ltb m j then done (kid m t kids) else insert_after m t kids

  -- At the front the whole new root goes into the chain; otherwise only its right half does.
  pub insert_internal : ℕ → Node V → Kids V → Outcome (Kids V)
  unfolding insert_after first
  insert_internal m t kids = first kids >>= λ j.
      if ltb m j then done (kid m (inner alias (kid m t end) 1) kids) else insert_after m t kids

  unfoldable pub adopt : Option (Sibling V) → Kids V → ℕ → Outcome (Kids V × ℕ)
  unfolding insert_leaf insert_internal
  adopt none kids n = done (kids, n)
  adopt (some (new_leaf m t)) kids n = insert_leaf m t kids >>= λ r. done (r, inc n)
  adopt (some (new_inner m t)) kids n = insert_internal m t kids >>= λ r. done (r, inc n)

  -- `m_root->skip(middle)`: the nodes before the middle one, whose last still points to it, the
  -- middle node's key and child, and the chain behind it.
  unfoldable pub cut_kids : ℕ → Kids V → Outcome (Kids V × ℕ × Node V × Kids V)
  cut_kids count end = crash
  cut_kids count (shared m) = astray
  cut_kids zero (kid j t rest) = done (shared j, j, t, rest)
  cut_kids (suc count) (kid j t rest) =
      cut_kids count rest >>= λ (front, m, u, back). done (kid j t front, m, u, back)

  -- `bpt_internal::split` of the node with these fields.
  unfoldable pub split_inner : Node V → Kids V → ℕ → Outcome (Node V × Option (Sibling V))
  unfolding cut_kids
  split_inner lesser kids n = cut_kids (n / 2) kids >>= λ (front, m, u, back).
      done (inner lesser front (n / 2), some (new_inner m (inner u back (n - n / 2 - 1))))

-- The last part of `leaf::split`, from the result of the split of the chain.
unfoldable pub link_leaf :
    {V : Type 0}
    → ℕ
    → ℕ
    → Option ℕ
    → Option (Bool × LeafList V × LeafList V)
    → Outcome (Node V × Option (Sibling V))
unfolding or_crash
link_leaf fresh a next none = crash
link_leaf fresh a next (some (false, l, _)) = done (leaf a l next, none)
link_leaf fresh a next (some (true, front, back)) = or_crash (LeafList.get_root_key back) >>= λ m.
    done (leaf a front (some fresh), some (new_leaf m (leaf fresh back next)))

-- The end of `bpt_internal::set`; `order` is the template parameter ORDER.
unfoldable pub finish :
    {V : Type 0} → ℕ → Node V → Kids V × ℕ → Outcome (Node V × Option (Sibling V))
unfolding split_inner
finish order lesser (kids, n) =
    if ltb (order - 1) n then split_inner lesser kids n else done (inner lesser kids n, none)

-- `fresh` is the address that `new` returns if a leaf is
-- made, and `junk` what that memory held, which becomes the count of the new leaf's list.
module _ {V : Type 0} (order : ℕ) (fresh junk : ℕ) where
  -- `leaf::insert`.
  unfoldable pub insert : ℕ → V → ℕ → LeafList V → Option ℕ → Outcome (Node V × Option (Sibling V))
  unfolding link_leaf
  insert k v a l next =
      let l' = LeafList.set k v l in
      if ltb (order - 1) l'.size
      then link_leaf fresh a next (LeafList.split l' (LeafList.make junk))
      else done (leaf a l' next, none)

  -- `set`: at a leaf it is the call of `insert` that the parent makes.
  unfoldable mutual
    unfolding insert finish adopt first

    pub set : ℕ → V → Node V → Outcome (Node V × Option (Sibling V))
    set k v (leaf a l next) = insert k v a l next
    set k v (inner lesser kids n) =
        let low = set k v lesser in
        let high = set_kid k v kids in
        first kids >>= λ j.
        if ltb k j
        then low >>= (λ (lesser', s). adopt s kids n >>= λ r. finish order lesser' r)
        else high >>= (λ (kids', s). adopt s kids' n >>= λ r. finish order lesser r)
    set k v alias = astray

    pub set_kid : ℕ → V → Kids V → Outcome (Kids V × Option (Sibling V))
    set_kid k v end = crash
    set_kid k v (shared m) = astray
    set_kid k v (kid j t end) = set k v t >>= λ (t', s). done (kid j t' end, s)
    set_kid k v (kid j t (shared m)) =
        let here = set k v t in
        if ltb k m then here >>= (λ (t', s). done (kid j t' (shared m), s)) else astray
    set_kid k v (kid j t (kid i u rest)) =
        let here = set k v t in
        let beyond = set_kid k v (kid i u rest) in
        if ltb k i
        then here >>= (λ (t', s). done (kid j t' (kid i u rest), s))
        else beyond >>= (λ (rest', s). done (kid j t rest', s))
