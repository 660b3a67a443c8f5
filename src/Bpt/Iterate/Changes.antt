-- ===== src/Bpt/Iterate/Changes.antt =====
-- `iterate` after any sequence of writes and deletions (StateDatabase/bpt.h) that leave every leaf a
-- pair.
use state_db.Base.{
  ℕ, ◌≤◌, ◌<◌, ◌≡◌, refl, Option, none, some, List, [], ◌∷◌, Outcome, done, ◌>>=◌, arith, length,
  of_done, ◌∙◌, sym, ◌==◌, if◌then◌else◌,
}
use state_db.Bpt.LeafList.{LeafList, size_mod}
use state_db.Bpt.Node.{Node}
use state_db.Bpt.Tree.{Tree, set, get_root}
use state_db.Bpt.Tree.Refines.{IsTree, Stands, set-Stands}
use state_db.Bpt.Remove.{delete, delete_root}
use state_db.Bpt.Remove.Laws.{leaf_of}
use state_db.Bpt.Remove.Shrink.{delete_key-Shrinks}
use state_db.Bpt.Remove.Root.{keeps_root}
use state_db.Bpt.Iterate.{iterate, leaves}
use state_db.Bpt.Iterate.Same.{Keeps, AreLinked-AreSame, AreDistinct-AreSame, AreBelow-AreSame}
use state_db.Bpt.Iterate.Writes.{IsThreaded, RootThreaded, Shows, set-IsThreaded, root-Shows}

pub data Change (V : Type 0) : Type 0 where
  put : ℕ → V → Change V
  remove : ℕ → Change V

module _ {V : Type 0} where
  -- What a map holds after an operation, and after all of them.
  abbrev pub changed : Change V → (ℕ → Option V) → ℕ → Option V
  changed (put k v) f q = if q == k then some v else f q
  changed (remove k) f q = if q == k then none else f q

  abbrev pub changed_all : List (Change V) → (ℕ → Option V) → ℕ → Option V
  changed_all [] f = f
  changed_all (op ∷ ops) f = changed_all ops (changed op f)

  -- The leaf that the key leads to, if there is any, holds two pairs or more.
  abbrev pub LeavesPair : ℕ → Option (Node V) → Type 0
  LeavesPair k none = Unit {0}
  LeavesPair k (some t) = (l : LeafList V) × (leaf_of k t ≡ done l) × (2 ≤ length l.root)

  Keeps-IsThreaded :
      (fresh : ℕ) (t t' : Node V) → Keeps t t' → IsThreaded fresh t → IsThreaded fresh t'
  Keeps-IsThreaded fresh t t' k h = record {
    owns = k.owns h.owns;
    linked = AreLinked-AreSame (leaves t) (leaves t') none k.same h.linked;
    distinct = AreDistinct-AreSame (leaves t) (leaves t') k.same h.distinct;
    below = AreBelow-AreSame fresh (leaves t) (leaves t') k.same h.below;
  }

module _ {V : Type 0} (order : ℕ) where
  unfoldable pub change : Change V → Tree V → Outcome (Tree V)
  unfolding set delete
  change (put k v) t = set order k v t
  change (remove k) t = delete k t >>= λ (b, t'). done t'

  pub change_all : List (Change V) → Tree V → Outcome (Tree V)
  unfolding change
  change_all [] t = done t
  change_all (op ∷ ops) t = change op t >>= λ t'. change_all ops t'

  abbrev pub IsAllowed : Change V → Tree V → Type 0
  IsAllowed (put k v) t = k < size_mod
  IsAllowed (remove k) t = (k < size_mod) × LeavesPair k t.root

  -- Every operation is allowed on the tree that it finds.
  abbrev pub AreAllowed : List (Change V) → Tree V → Type 0
  AreAllowed [] t = Unit {0}
  AreAllowed (op ∷ ops) t =
      IsAllowed op t × ((t' : Tree V) → change op t ≡ done t' → AreAllowed ops t')

  -- It is enough to look at the one tree that an operation gives.
  pub allowed-AreAllowed :
      (op : Change V) (ops : List (Change V)) (t m : Tree V)
      → change op t ≡ done m
      → IsAllowed op t
      → AreAllowed ops m
      → AreAllowed (op ∷ ops) t
  allowed-AreAllowed op ops t m run h rest =
      (h, λ t' e. of_done (AreAllowed ops) m t' (sym run ∙ e) rest)

  -- A valid tree with its leaves threaded, which stands for `f`.
  pub record IsSound (t : Tree V) (f : ℕ → Option V) : Type 0 where
    pub tree : IsTree order t
    pub stands : Stands order t.root f
    pub threaded : RootThreaded t.fresh t.root

module _ {V : Type 0} (order : ℕ) (big : 3 ≤ order) (small : order < size_mod) where
  remove_root :
      (k : ℕ) (t : Node V) (fresh : ℕ) (junk : ℕ → ℕ) (f : ℕ → Option V) (l : LeafList V)
      → k < size_mod
      → IsSound order (record { root = some t; fresh = fresh; junk = junk }) f
      → leaf_of k t ≡ done l
      → 2 ≤ length l.root
      → (t' : Tree V) × (change order
            (remove k)
            (record { root = some t; fresh = fresh; junk = junk })
          ≡ done t')
        × IsSound order t' (changed (remove k) f)
  unfolding change delete delete_root get_root
  remove_root k t fresh junk f l h s e two =
      let (b, t', run, fits, pos, reads, reports, keeps) =
        delete_key-Shrinks order small k t 0 size_mod l s.tree.fits (omega arith) h e two in
      (
        record { root = some t'; fresh = fresh; junk = junk },
        rw (run, keeps_root order small b t' pos) refl,
        record {
          tree = record { fits = fits; zeroed = s.tree.zeroed };
          stands = λ q x. reads q (f q) (omega arith) x (s.stands q x);
          threaded = Keeps-IsThreaded fresh t t' keeps s.threaded;
        },
      )

  remove_none :
      (k fresh : ℕ) (junk : ℕ → ℕ) (f : ℕ → Option V)
      → IsSound order (record { root = none; fresh = fresh; junk = junk }) f
      → (t' : Tree V) × (change order
            (remove k)
            (record { root = none; fresh = fresh; junk = junk })
          ≡ done t')
        × IsSound order t' (changed (remove k) f)
  unfolding change delete delete_root get_root
  remove_none k fresh junk f s = (
    record { root = none; fresh = fresh; junk = junk },
    refl,
    record { tree = s.tree; stands = λ q x. ground (arith, s.stands q x); threaded = tt },
  )

  remove_lem :
      (k : ℕ) (t : Tree V) (f : ℕ → Option V)
      → k < size_mod
      → LeavesPair k t.root
      → IsSound order t f
      → (t' : Tree V) × (change order (remove k) t ≡ done t')
        × IsSound order t' (changed (remove k) f)
  remove_lem k t f h p s = go t.root p s
    where
      go :
          (r : Option (Node V))
          → LeavesPair k r
          → IsSound order (record t { root = r }) f
          → (t' : Tree V) × (change order (remove k) (record t { root = r }) ≡ done t')
            × IsSound order t' (changed (remove k) f)
      go none p s = remove_none k t.fresh t.junk f s
      go (some n) (l, e, two) s = remove_root k n t.fresh t.junk f l h s e two

  change-IsSound :
      (op : Change V) (t : Tree V) (f : ℕ → Option V)
      → IsAllowed order op t
      → IsSound order t f
      → (t' : Tree V) × (change order op t ≡ done t') × IsSound order t' (changed op f)
  unfolding change
  change-IsSound (put k v) t f h s =
      let (t', run, is, st) = set-Stands order big small k v t f h s.tree s.stands in
      (
        t',
        run,
        record {
          tree = is;
          stands = st;
          threaded = set-IsThreaded order big small k v t t' h s.tree s.threaded run;
        },
      )
  change-IsSound (remove k) t f (h, p) s = remove_lem k t f h p s

  change_all-IsSound :
      (ops : List (Change V)) (t : Tree V) (f : ℕ → Option V)
      → AreAllowed order ops t
      → IsSound order t f
      → (t' : Tree V) × (change_all order ops t ≡ done t') × IsSound order t' (changed_all ops f)
  unfolding change_all
  change_all-IsSound [] t f h s = (t, refl, s)
  change_all-IsSound (op ∷ ops) t f (h, more) s =
      let (m, run, s') = change-IsSound op t f h s in
      rw run (change_all-IsSound ops m (changed op f) (more m run) s')

  -- For an order of at least 3, any sequence of writes and deletions of `size_t` keys from an empty
  -- tree, over memory that is handed out zeroed, where every deletion meets no tree or a leaf with
  -- two pairs or more, runs without a fault, and then `iterate` ends and gives its callback pairs
  -- whose keys rise strictly, and which are those of the map after the same operations.
  pub iterate-change_all :
      (ops : List (Change V)) (fresh : ℕ) (junk : ℕ → ℕ)
      → ((a : ℕ) → junk a ≡ 0)
      → AreAllowed order ops (record { root = none; fresh = fresh; junk = junk })
      → (t : Tree V) × (ps : List (ℕ × V)) × (change_all order ops
            (record { root = none; fresh = fresh; junk = junk })
          ≡ done t)
        × (iterate t ≡ done ps)
        × Shows ps (changed_all ops (λ q. none))
  unfolding get_root
  iterate-change_all ops fresh junk zeroed h =
      let start : Tree V = record { root = none; fresh = fresh; junk = junk } in
      let (t, run, s) =
        change_all-IsSound ops start (λ q. none) h
          (record {
            tree = record { fits = tt; zeroed = zeroed };
            stands = λ q x. refl;
            threaded = tt;
          }) in
      let (ps, e, shows) =
        root-Shows order big small t.root t.fresh t.junk (changed_all ops (λ q. none)) s.tree.fits
          s.stands s.threaded in
      (t, ps, run, e, shows)
