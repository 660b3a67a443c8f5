-- ===== src/Bpt/Node/Order.antt =====
-- The shape that `bpt_internal` and `leaf` (StateDatabase/bpt_internal.h, leaf.h) keep, as long as
-- nothing is deleted from them.
use state_db.Base.{ℕ, suc, ◌-◌, ◌≤◌, ◌<◌, ◌≡◌, length}
use state_db.Bpt.LeafList.{LeafList}
use state_db.Bpt.LeafList.Order.{IsValid}
use state_db.Bpt.LeafList.Range.{Within}
use state_db.Bpt.Node.{Node, leaf, inner, alias, Kids, end, shared, kid}

module _ {V : Type 0} where
  -- The children that the chain owns.
  abbrev pub live : Kids V → ℕ
  live end = 0
  live (shared m) = 0
  live (kid j t rest) = suc (live rest)

  -- Where the range of the node before this part of the chain ends.
  abbrev pub upper : Kids V → ℕ → ℕ
  upper end hi = hi
  upper (shared m) hi = hi
  upper (kid j t rest) hi = j

-- A leaf holds at most `order - 1` pairs.
pub record LeafFits {V : Type 0} (order : ℕ) (l : LeafList V) (lo hi : ℕ) : Type 0 where
  pub valid : IsValid l
  pub within : Within lo hi l.root
  pub small : length l.root ≤ order - 1

module _ {V : Type 0} (order : ℕ) where
  -- The node serves the keys of `[lo, hi)`: its keys lie there, its count is right and it is not
  -- full, and the chain rises, so that each child serves the keys between two separators. An
  -- `alias` serves no key, and what a chain runs on into lies above the range.
  abbrev mutual
    pub Fits : Node V → ℕ → ℕ → Type 0
    Fits (leaf a l next) lo hi = LeafFits order l lo hi
    Fits (inner lesser end n) lo hi = ⊥
    Fits (inner lesser (shared m) n) lo hi = ⊥
    Fits (inner lesser (kid j t rest) n) lo hi =
        Fits lesser lo j
        × (lo ≤ j)
        × Chain (kid j t rest) hi
        × (n ≡ suc (live rest))
        × (n ≤ order - 1)
    Fits alias lo hi = hi ≤ lo

    pub Chain : Kids V → ℕ → Type 0
    Chain end hi = Unit {0}
    Chain (shared m) hi = hi ≤ m
    Chain (kid j t rest) hi = Fits t j (upper rest hi) × (j < upper rest hi) × Chain rest hi
