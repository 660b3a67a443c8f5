-- ===== src/Bpt/Iterate.antt =====
-- `iterate` of `leaf_list`, `leaf`, `bpt_internal` and `tree` (StateDatabase/list.h, leaf.h,
-- bpt_internal.h, bpt.h): it goes to the first leaf and from there along `m_next`. The result is the
-- sequence of the pairs that the callback is given; a callback that changes them is not modelled.
use state_db.Base.{
  ℕ, zero, suc, ◌+◌, Bool, true, false, Option, none, some, List, [], ◌∷◌, ◌++◌, ◌==◌,
  if◌then◌else◌, length, Outcome, done, crash, hang, astray, ◌>>=◌,
}
use state_db.Bpt.LeafList
use state_db.Bpt.LeafList.{LeafList}
use state_db.Bpt.Node.{Node, leaf, inner, alias, Kids, end, shared, kid}
use state_db.Bpt.Tree.{Tree}
pub mod Links
pub mod Grown
pub mod Sorted
pub mod Splitting
pub mod Setting
pub mod Writes
pub mod Same
pub mod Changes
mod Examples

-- A leaf in memory: its address, its list, and `m_next`.
pub record LeafAt (V : Type 0) : Type 0 where
  pub address : ℕ
  pub list : LeafList V
  pub next : Option ℕ

module _ {V : Type 0} where
  -- `leaf_list::iterate`.
  unfoldable pub iterate_list : LeafList V → List (ℕ × V)
  iterate_list l = l.root

  -- The leaves that a node owns, the lower keys first.
  unfoldable mutual
    pub leaves : Node V → List (LeafAt V)
    leaves (leaf a l next) = record { address = a; list = l; next = next } ∷ []
    leaves (inner lesser kids n) = leaves lesser ++ leaves_of_kids kids
    leaves alias = []

    pub leaves_of_kids : Kids V → List (LeafAt V)
    leaves_of_kids end = []
    leaves_of_kids (shared m) = []
    leaves_of_kids (kid j t rest) = leaves t ++ leaves_of_kids rest

  -- The leaf that a pointer leads to. A leaf that the tree no longer owns is not followed.
  unfoldable pub find_leaf : ℕ → List (LeafAt V) → Outcome (LeafAt V)
  find_leaf a [] = astray
  find_leaf a (l ∷ rest) = let more = find_leaf a rest in if l.address == a then done l else more

  -- The loop of `leaf::iterate`. A walk of more leaves than there are goes in a circle.
  unfoldable pub walk : ℕ → List (LeafAt V) → LeafAt V → Outcome (List (ℕ × V))
  unfolding find_leaf iterate_list
  walk zero memory l = hang
  walk (suc fuel) memory l = elim l.next [
    | none ↦ done (iterate_list l.list)
    | some a ↦ find_leaf a memory >>= λ l'.
        walk fuel memory l' >>= λ rest. done (iterate_list l.list ++ rest)
  ]

  unfoldable pub iterate_leaf : List (LeafAt V) → LeafAt V → Outcome (List (ℕ × V))
  unfolding walk
  iterate_leaf memory l = walk (length memory) memory l

  -- `bpt_internal::iterate`.
  unfoldable pub iterate_node : List (LeafAt V) → Node V → Outcome (List (ℕ × V))
  unfolding iterate_leaf
  iterate_node memory (leaf a l next) =
      iterate_leaf memory (record { address = a; list = l; next = next })
  iterate_node memory (inner lesser kids n) = iterate_node memory lesser
  iterate_node memory alias = astray

  unfoldable pub iterate_root : Option (Node V) → Outcome (List (ℕ × V))
  unfolding iterate_node leaves
  iterate_root none = done []
  iterate_root (some t) = iterate_node (leaves t) t

  unfoldable pub iterate : Tree V → Outcome (List (ℕ × V))
  unfolding iterate_root
  iterate t = iterate_root t.root
