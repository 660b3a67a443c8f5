-- ===== src/Bpt/Node/Lookup.antt =====
-- Reading a node (StateDatabase/bpt_internal.h, leaf.h).
use state_db.Base.{ℕ, ◌≤◌, ◌<◌, ◌≡◌, refl, arith, Option, done}
use state_db.Bpt.Node.{
  Node, leaf, inner, alias, Kids, end, shared, kid, get_val_ptr, get_kid, first,
}
use state_db.Bpt.Node.Order.{Fits, Chain}

module _ {V : Type 0} (order : ℕ) where
  mutual
    unfolding get_val_ptr first

    total :
        (t : Node V) (lo hi q : ℕ)
        → Fits order t lo hi
        → lo ≤ q
        → q < hi
        → (r : Option V) × (get_val_ptr q t ≡ done r)
    total (leaf a l next) lo hi q f h h' = (_, refl)
    total (inner lesser end n) lo hi q f h h' = absurd f
    total (inner lesser (shared m) n) lo hi q f h h' = absurd f
    total (inner lesser (kid j t rest) n) lo hi q f h h' =
        ground (arith, total lesser lo j q f.0 h, kid_total (kid j t rest) j hi q f.2 refl)
    total alias lo hi q f h h' = absurd (omega arith)

    kid_total :
        (kids : Kids V) (j hi q : ℕ)
        → Chain order kids hi
        → first kids ≡ done j
        → j ≤ q
        → q < hi
        → (r : Option V) × (get_kid q kids ≡ done r)
    kid_total end j hi q f e h h' = cc
    kid_total (shared m) j hi q f e h h' = cc
    kid_total (kid i t end) j hi q f e h h' = total t i hi q f.0 (ground arith) h'
    kid_total (kid i t (shared m)) j hi q f e h h' = ground (arith, total t i hi q f.0)
    kid_total (kid i t (kid p u rest)) j hi q f e h h' =
        ground (arith, total t i p q f.0, kid_total (kid p u rest) p hi q f.2 refl)

  -- Reading a node that serves the key ends without a fault.
  pub total_lem :
      (t : Node V) (lo hi q : ℕ)
      → Fits order t lo hi
      → lo ≤ q
      → q < hi
      → (r : Option V) × (get_val_ptr q t ≡ done r)
  total_lem = total
