-- ===== src/Bpt/Remove/Root.antt =====
-- `tree::delete_key` (StateDatabase/bpt.h) where the leaf of the key keeps another key.
use state_db.Base.{
  ℕ, ◌≤◌, ◌<◌, ◌≡◌, ◌≢◌, refl, Bool, true, false, Option, none, some, done, ◌==◌, if◌then◌else◌,
  arith, length, ◌&&◌,
}
use state_db.Bpt.LeafList.{LeafList, size_mod}
use state_db.Bpt.Node.{Node, size}
use state_db.Bpt.Tree.{Tree, get_root}
use state_db.Bpt.Tree.Refines.{IsTree, Stands}
use state_db.Bpt.Remove.{delete, delete_root}
use state_db.Bpt.Remove.Laws.{leaf_of}
use state_db.Bpt.Remove.Shrink.{delete_key-Shrinks}

module _ {V : Type 0} (order : ℕ) (small : order < size_mod) where
  pub keeps_root : (b : Bool) (t : Node V) → 0 < size t → (b && (size t == 0)) ≡ false
  keeps_root b t h = ground arith

  -- On a valid tree that stands for `f`, where the leaf that a `size_t` key leads to holds two
  -- pairs or more, `delete_key` ends without a fault, gives a valid tree that stands for `f`
  -- without the key, and says whether `f` had it.
  pub delete-Stands :
      (k : ℕ) (t : Node V) (fresh : ℕ) (junk : ℕ → ℕ) (f : ℕ → Option V) (l : LeafList V)
      → k < size_mod
      → IsTree order (record { root = some t; fresh = fresh; junk = junk })
      → Stands order (some t) f
      → leaf_of k t ≡ done l
      → 2 ≤ length l.root
      → (b : Bool) × (t' : Tree V) × (delete k
            (record { root = some t; fresh = fresh; junk = junk })
          ≡ done (b, t'))
        × IsTree order t'
        × Stands order t'.root (λ q. if q == k then none else f q)
        × (b ≡ false → f k ≡ none)
        × (b ≡ true → f k ≢ none)
  unfolding delete delete_root get_root
  delete-Stands k t fresh junk f l h is st e two =
      let (b, t', run, fits, pos, reads, reports, keeps) =
        delete_key-Shrinks order small k t 0 size_mod l is.fits (omega arith) h e two in
      let (miss, hit) = reports (f k) (st k h) in
      (
        b,
        record { root = some t'; fresh = fresh; junk = junk },
        rw (run, keeps_root b t' pos) refl,
        record { fits = fits; zeroed = is.zeroed },
        λ q x. reads q (f q) (omega arith) x (st q x),
        miss,
        hit,
      )
