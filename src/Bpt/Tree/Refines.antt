-- ===== src/Bpt/Tree/Refines.antt =====
-- `tree` of StateDatabase/bpt.h refines a map from keys to values, as long as nothing is deleted.
use state_db.Base.{
  ℕ, ◌+◌, ◌≤◌, ◌<◌, ◌≡◌, refl, Option, none, some, List, [], ◌∷◌, Outcome, done, ◌==◌,
  if◌then◌else◌, arith,
}
use state_db.Bpt.LeafList
use state_db.Bpt.LeafList.{LeafList, size_mod}
use state_db.Bpt.Node
use state_db.Bpt.Node.{Node, leaf, inner, kid, end, Sibling, new_leaf, new_inner}
use state_db.Bpt.Node.Order.{Fits}
use state_db.Bpt.Node.Split.{Updates, Ranges, read_with}
use state_db.Bpt.Node.Update.{set-Sets}
use state_db.Bpt.Tree.{Tree, get_root, set, set_root, set_all, make_leaf, make_internal, grow}

-- The newest value that a list of writes gives a key, or what `old` gives it.
abbrev pub newest : {V : Type 0} → List (ℕ × V) → (ℕ → Option V) → ℕ → Option V
newest [] old q = old q
newest ((k, v) ∷ rest) old q = newest rest (λ p. if p == k then some v else old p) q

module _ {V : Type 0} (order : ℕ) where
  -- The root serves every `size_t`, and memory is handed out zeroed.
  abbrev pub RootFits : Option (Node V) → Type 0
  RootFits none = Unit {0}
  RootFits (some t) = Fits order t 0 size_mod

  pub record IsTree (t : Tree V) : Type 0 where
    pub fits : RootFits t.root
    pub zeroed : (a : ℕ) → t.junk a ≡ 0

  -- The tree stands for the map `f`: every `size_t` reads as `f` says.
  abbrev pub Stands : Option (Node V) → (ℕ → Option V) → Type 0
  Stands r f = (q : ℕ) → q < size_mod → get_root q r ≡ done (f q)

module _ {V : Type 0} (order : ℕ) (big : 3 ≤ order) (small : order < size_mod) where
  grow-Fits :
      (k : ℕ) (v : V) (old : ℕ → Outcome (Option V)) (t : Node V) (s : Option (Sibling V))
      → Ranges order t s 0 size_mod
      → Updates k v 0 size_mod old (read_with t s)
      → Fits order (grow t s) 0 size_mod
        × Updates k v 0 size_mod old (λ q. Node.get_val_ptr q (grow t s))
  unfolding grow Node.get_val_ptr Node.first
  grow-Fits k v old t none r u = (r, u)
  grow-Fits k v old t (some (new_leaf m w)) r u =
      ((r.2, omega arith, (r.3, r.1, tt), refl, omega arith), u)
  grow-Fits k v old t (some (new_inner m w)) r u =
      ((r.2, omega arith, (r.3, r.1, tt), refl, omega arith), u)

  set_root_lem :
      (fresh : ℕ) (junk : ℕ → ℕ) (k : ℕ) (v : V) (r : Option (Node V)) (f : ℕ → Option V)
      → k < size_mod
      → ((a : ℕ) → junk a ≡ 0)
      → RootFits order r
      → Stands order r f
      → (r' : Node V) × (set_root order fresh junk k v r ≡ done r')
        × Fits order r' 0 size_mod
        × Stands order (some r') (λ q. if q == k then some v else f q)
  unfolding set_root get_root make_leaf make_internal LeafList.set LeafList.make
      LeafList.get_root_key LeafList.get_val_ptr Node.or_crash Node.get_val_ptr Node.first
  set_root_lem fresh junk k v none f h z fits st = (
    _,
    refl,
    (
      record {
        valid = record { sorted = tt; counted = z (fresh + 1) };
        within = tt;
        small = omega arith;
      },
      omega arith,
      (
        record {
          valid = record { sorted = (tt, tt); counted = omega (arith, z fresh) };
          within = (omega arith, h, tt);
          small = omega arith;
        },
        h,
        tt,
      ),
      refl,
      omega arith,
    ),
    λ q x. ground (arith, st q x),
  )
  set_root_lem fresh junk k v (some t) f h z fits st =
      let (t', s, e, r, u) =
        set-Sets order fresh (junk fresh) big small k v t 0 size_mod fits (omega arith) h in
      let (fits', u') = grow-Fits k v _ t' s r u in
      (grow t' s, rw e, fits', λ q x. u' q (f q) (omega arith) x (st q x))

  -- For an order of at least 3, `set` of a `size_t` key on a valid tree that stands for `f` ends
  -- without a fault and gives a valid tree, which stands for `f` changed at the key.
  pub set-Stands :
      (k : ℕ) (v : V) (t : Tree V) (f : ℕ → Option V)
      → k < size_mod
      → IsTree order t
      → Stands order t.root f
      → (t' : Tree V) × (set order k v t ≡ done t')
        × IsTree order t'
        × Stands order t'.root (λ q. if q == k then some v else f q)
  unfolding set
  set-Stands k v t f h is st =
      let (r, e, fits, st') = set_root_lem t.fresh t.junk k v t.root f h is.zeroed is.fits st in
      (
        record t { root = some r; fresh = t.fresh + 2 },
        rw e,
        record { fits = fits; zeroed = is.zeroed },
        st',
      )

  -- Every key of the list is a `size_t`.
  abbrev pub AllKeys : List (ℕ × V) → Type 0
  AllKeys [] = Unit {0}
  AllKeys ((k, v) ∷ rest) = (k < size_mod) × AllKeys rest

  -- For an order of at least 3, any sequence of writes of `size_t` keys runs without a fault from a
  -- valid tree that stands for `f`, and gives a valid tree, which shows for each key the newest value
  -- written, or that of `f`.
  pub set_all-Stands :
      (ws : List (ℕ × V)) (t : Tree V) (f : ℕ → Option V)
      → AllKeys ws
      → IsTree order t
      → Stands order t.root f
      → (t' : Tree V) × (set_all order ws t ≡ done t')
        × IsTree order t'
        × Stands order t'.root (newest ws f)
  unfolding set_all
  set_all-Stands [] t f h is st = (t, refl, is, st)
  set_all-Stands ((k, v) ∷ ws) t f h is st =
      let (t', e, is', st') = set-Stands k v t f h.0 is st in
      rw e (set_all-Stands ws t' (λ q. if q == k then some v else f q) h.1 is' st')
