-- ===== src/Bpt/Tree.antt =====
-- `tree` of StateDatabase/bpt.h, with the constructor of `bpt_internal` that it calls.
use state_db.Base.{
  ℕ, ◌+◌, Bool, true, false, Option, none, some, List, [], ◌∷◌, Outcome, done, crash, ◌>>=◌, ◌&&◌,
  ◌==◌, if◌then◌else◌,
}
use state_db.Bpt.LeafList
use state_db.Bpt.LeafList.{LeafList}
use state_db.Bpt.Node
use state_db.Bpt.Node.{
  Node, leaf, inner, alias, Kids, end, shared, kid, Sibling, new_leaf, new_inner,
}
pub mod Refines

-- `root` is `m_root`. `fresh` is the next address that the allocator hands out, and `junk` what the
-- memory at an address holds before anything is constructed there.
pub record Tree (V : Type 0) : Type 0 where
  pub root : Option (Node V)
  pub fresh : ℕ
  pub junk : ℕ → ℕ

module _ {V : Type 0} where
  -- `leaf(key, val)` at an address.
  unfoldable pub make_leaf : ℕ → ℕ → ℕ → V → LeafList V
  make_leaf junk a k v = LeafList.set k v (LeafList.make junk)

  -- `bpt_internal(l)` for a leaf `l`: its first key leads to it, and a new empty leaf stands before.
  unfoldable pub make_internal : ℕ → ℕ → ℕ → LeafList V → Outcome (Node V)
  make_internal fresh junk a l = Node.or_crash (LeafList.get_root_key l) >>= λ j.
      done (inner (leaf fresh (LeafList.make junk) (some a)) (kid j (leaf a l none) end) 1)

  unfoldable pub get_root : ℕ → Option (Node V) → Outcome (Option V)
  get_root k none = done none
  get_root k (some t) = Node.get_val_ptr k t

  unfoldable pub get : ℕ → Tree V → Outcome (Option V)
  unfolding get_root
  get k t = get_root k t.root

  -- The new root that `split` made takes the place of the old one.
  unfoldable pub grow : Node V → Option (Sibling V) → Node V
  grow t none = t
  grow t (some (new_leaf m u)) = inner t (kid m u end) 1
  grow t (some (new_inner m u)) = inner t (kid m u end) 1

module _ {V : Type 0} (order : ℕ) where
  unfoldable pub set_root : ℕ → (ℕ → ℕ) → ℕ → V → Option (Node V) → Outcome (Node V)
  unfolding make_leaf make_internal grow
  set_root fresh junk k v none =
      make_internal (fresh + 1) (junk (fresh + 1)) fresh (make_leaf (junk fresh) fresh k v)
  set_root fresh junk k v (some t) =
      Node.set order fresh (junk fresh) k v t >>= λ (t', s). done (grow t' s)

  unfoldable pub set : ℕ → V → Tree V → Outcome (Tree V)
  unfolding set_root
  set k v t = set_root t.fresh t.junk k v t.root >>= λ r.
      done (record t { root = some r; fresh = t.fresh + 2 })

  -- A sequence of calls of `set`.
  unfoldable pub set_all : List (ℕ × V) → Tree V → Outcome (Tree V)
  unfolding set
  set_all [] t = done t
  set_all ((k, v) ∷ rest) t = set k v t >>= set_all rest
