-- ===== src/Bpt/Iterate/Writes.antt =====
-- `iterate` after any sequence of writes (StateDatabase/bpt.h).
use state_db.Base.{
  ℕ, ◌+◌, ◌≤◌, ◌<◌, ◌≡◌, refl, Option, none, some, List, [], ◌∷◌, ◌++◌, done, arith, ap, append-nil,
  of_done, run_of_bind, ◌∙◌, sym, ◌==◌, if◌then◌else◌,
}
use state_db.Bpt.LeafList
use state_db.Bpt.LeafList.{LeafList, size_mod, find}
use state_db.Bpt.LeafList.Order.{IsSorted}
use state_db.Bpt.LeafList.Range.{Within}
use state_db.Bpt.Node
use state_db.Bpt.Node.{Node, leaf, inner, kid, end, Sibling, new_leaf, new_inner}
use state_db.Bpt.Tree.{Tree, set_root, set, set_all, grow, get_root}
use state_db.Bpt.Tree.Refines.{
  IsTree, RootFits, Stands, AllKeys, newest, set_all-Stands, set-Stands,
}
use state_db.Bpt.Iterate.{LeafAt, leaves, iterate, iterate_root}
use state_db.Bpt.Iterate.Links.{OwnsFirst, AreLinked, AreDistinct, pairs, iterate-pairs}
use state_db.Bpt.Iterate.Grown.{AreBelow, AreBelow-Grown, AreLinked-Grown, AreDistinct-Grown}
use state_db.Bpt.Iterate.Sorted.{node-Lists}
use state_db.Bpt.Iterate.Splitting.{leaves_with}
use state_db.Bpt.Iterate.Setting.{set-Grown}

module _ {V : Type 0} where
  -- The leaves of the tree are linked in order, at distinct addresses that were handed out before
  -- `fresh`, and the lowest one is the tree's own.
  pub record IsThreaded (fresh : ℕ) (t : Node V) : Type 0 where
    pub owns : OwnsFirst t
    pub linked : AreLinked (leaves t) none
    pub distinct : AreDistinct (leaves t)
    pub below : AreBelow fresh (leaves t)

  abbrev pub RootThreaded : ℕ → Option (Node V) → Type 0
  RootThreaded fresh none = Unit {0}
  RootThreaded fresh (some t) = IsThreaded fresh t

  -- The pairs rise, their keys are of `size_t`, and they hold what the map says.
  abbrev pub Shows : List (ℕ × V) → (ℕ → Option V) → Type 0
  Shows ps f = IsSorted ps × Within 0 size_mod ps × ((q : ℕ) → q < size_mod → find q ps ≡ f q)

  leaves-grow : (t : Node V) (s : Option (Sibling V)) → leaves (grow t s) ≡ leaves_with (t, s)
  unfolding grow leaves
  leaves-grow t none = refl
  leaves-grow t (some (new_leaf m u)) =
      ap (λ (x : List (LeafAt V)). leaves t ++ x) (append-nil (leaves u))
  leaves-grow t (some (new_inner m u)) =
      ap (λ (x : List (LeafAt V)). leaves t ++ x) (append-nil (leaves u))

  OwnsFirst-grow : (t : Node V) (s : Option (Sibling V)) → OwnsFirst t → OwnsFirst (grow t s)
  unfolding grow
  OwnsFirst-grow t none h = h
  OwnsFirst-grow t (some (new_leaf m u)) h = h
  OwnsFirst-grow t (some (new_inner m u)) h = h

module _ {V : Type 0} (order : ℕ) (big : 3 ≤ order) (small : order < size_mod) where
  set_root-IsThreaded :
      (fresh : ℕ) (junk : ℕ → ℕ) (k : ℕ) (v : V) (r : Option (Node V)) (r' : Node V)
      → k < size_mod
      → RootFits order r
      → RootThreaded fresh r
      → set_root order fresh junk k v r ≡ done r'
      → IsThreaded (fresh + 2) r'
  unfolding set_root LeafList.set LeafList.make LeafList.get_root_key Node.or_crash leaves
  set_root-IsThreaded fresh junk k v none r' h fits th run =
      of_done (IsThreaded (fresh + 2)) _ r' run (record {
        owns = tt;
        linked = (refl, (refl, tt));
        distinct = (((λ e. absurd (omega arith)), tt), (tt, tt));
        below = (omega arith, (omega arith, tt));
      })
  set_root-IsThreaded fresh junk k v (some t) r' h fits th run =
      let ((t', s), run', e) = run_of_bind (Node.set order fresh (junk fresh) k v t) _ r' run in
      let (g, owns) =
        set-Grown order fresh (junk fresh) big small k v t 0 size_mod fits (omega arith) h (t', s)
          run' in
      of_done (IsThreaded (fresh + 2)) (grow t' s) r' e (record {
        owns = OwnsFirst-grow t' s (owns th.owns);
        linked = rw (leaves-grow t' s) (AreLinked-Grown fresh (leaves t) _ none g th.linked);
        distinct =
            rw (leaves-grow t' s) (AreDistinct-Grown fresh (leaves t) _ g th.below th.distinct);
        below =
            rw (leaves-grow t' s)
              (AreBelow-Grown fresh (leaves t) _ (fresh + 2) (omega arith) g th.below);
      })

  -- `set` keeps the leaves threaded.
  pub set-IsThreaded :
      (k : ℕ) (v : V) (t t' : Tree V)
      → k < size_mod
      → IsTree order t
      → RootThreaded t.fresh t.root
      → set order k v t ≡ done t'
      → RootThreaded t'.fresh t'.root
  unfolding set
  set-IsThreaded k v t t' h is th run =
      let (r, run', e) = run_of_bind (set_root order t.fresh t.junk k v t.root) _ t' run in
      of_done (λ (t : Tree V). RootThreaded t.fresh t.root) _ t' e
        (set_root-IsThreaded t.fresh t.junk k v t.root r h is.fits th run')

  set_all-IsThreaded :
      (ws : List (ℕ × V)) (t t' : Tree V) (f : ℕ → Option V)
      → AllKeys order big small ws
      → IsTree order t
      → Stands order t.root f
      → RootThreaded t.fresh t.root
      → set_all order ws t ≡ done t'
      → RootThreaded t'.fresh t'.root
  unfolding set_all
  set_all-IsThreaded [] t t' f h is st th run =
      of_done (λ (t : Tree V). RootThreaded t.fresh t.root) t t' run th
  set_all-IsThreaded ((k, v) ∷ ws) t t' f h is st th run =
      let (m, e, is', st') = set-Stands order big small k v t f h.0 is st in
      set_all-IsThreaded ws m t' (λ q. if q == k then some v else f q) h.1 is' st'
        (set-IsThreaded k v t m h.0 is th e) (rw e at run)

  pub root-Shows :
      (r : Option (Node V)) (fresh : ℕ) (junk : ℕ → ℕ) (f : ℕ → Option V)
      → RootFits order r
      → Stands order r f
      → RootThreaded fresh r
      → (ps : List (ℕ × V)) × (iterate (record { root = r; fresh = fresh; junk = junk }) ≡ done ps)
        × Shows ps f
  unfolding iterate iterate_root get_root LeafList.get_val_ptr
  root-Shows none fresh junk f fits st th = ([], refl, (tt, tt, λ q h. ground (arith, st q h)))
  root-Shows (some t) fresh junk f fits st th =
      let x = node-Lists order t 0 size_mod fits in
      (
        pairs (leaves t),
        iterate-pairs t fresh junk th.owns th.linked th.distinct,
        (
          x.sorted,
          x.within,
          λ q h. of_done (λ o. o ≡ f q) (f q) _ (sym (st q h) ∙ x.shows q (omega arith) h) refl,
        ),
      )

  -- For an order of at least 3, any sequence of writes of `size_t` keys into an empty tree, over
  -- memory that is handed out zeroed, runs without a fault, and then `iterate` ends and gives its
  -- callback pairs whose keys rise strictly, and in which every key has the value written last, and
  -- no other key stands.
  pub iterate-set_all :
      (ws : List (ℕ × V)) (fresh : ℕ) (junk : ℕ → ℕ)
      → AllKeys order big small ws
      → ((a : ℕ) → junk a ≡ 0)
      → (t : Tree V) × (ps : List (ℕ × V)) × (set_all order ws
            (record { root = none; fresh = fresh; junk = junk })
          ≡ done t)
        × (iterate t ≡ done ps)
        × Shows ps (newest ws (λ q. none))
  unfolding get_root
  iterate-set_all ws fresh junk h zeroed =
      let start : Tree V = record { root = none; fresh = fresh; junk = junk } in
      let is : IsTree order start = record { fits = tt; zeroed = zeroed } in
      let (t, e, is', st) =
        set_all-Stands order big small ws start (λ q. none) h is (λ q x. refl) in
      let th = set_all-IsThreaded ws start t (λ q. none) h is (λ q x. refl) tt e in
      let (ps, e', shows) =
        root-Shows t.root t.fresh t.junk (newest ws (λ q. none)) is'.fits st th in
      (t, ps, e, e', shows)
