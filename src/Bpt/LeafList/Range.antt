-- ===== src/Bpt/LeafList/Range.antt =====
-- The range in which the keys of a `leaf_list` (StateDatabase/list.h) lie.
use state_db.Base.{ℕ, ◌≤◌, ◌<◌, List, [], ◌∷◌, ◌++◌, arith, length}
use state_db.Bpt.LeafList.{LeafList, set, set_chain, set_from, unlink}
use state_db.Bpt.LeafList.Order.{IsSorted, Above}

module _ {V : Type 0} where
  -- Every key lies in `[lo, hi)`.
  abbrev pub Within : ℕ → ℕ → List (ℕ × V) → Type 0
  Within lo hi [] = Unit {0}
  Within lo hi ((j, w) ∷ rest) = (lo ≤ j) × (j < hi) × Within lo hi rest

  Within-set_from :
      (k : ℕ) (v : V) (j : ℕ) (w : V) (c : List (ℕ × V)) (lo hi : ℕ)
      → lo ≤ k
      → k < hi
      → Within lo hi ((j, w) ∷ c)
      → Within lo hi (set_from k v j w c).0
  unfolding set_from
  Within-set_from k v j w [] lo hi h h' x = ground arith
  Within-set_from k v j w ((i, u) ∷ c) lo hi h h' x =
      ground (arith, Within-set_from k v i u c lo hi h h' x.2)

  Within-set_chain :
      (k : ℕ) (v : V) (c : List (ℕ × V)) (lo hi : ℕ)
      → lo ≤ k
      → k < hi
      → Within lo hi c
      → Within lo hi (set_chain k v c).0
  unfolding set_chain
  Within-set_chain k v [] lo hi h h' x = (h, h', tt)
  Within-set_chain k v ((j, w) ∷ c) lo hi h h' x =
      ground (arith, Within-set_from k v j w c lo hi h h' x)

  pub Within-set :
      (k : ℕ) (v : V) (l : LeafList V) (lo hi : ℕ)
      → lo ≤ k
      → k < hi
      → Within lo hi l.root
      → Within lo hi (set k v l).root
  unfolding set
  Within-set k v l lo hi h h' x = Within-set_chain k v l.root lo hi h h' x

  pub Within-unlink :
      (k : ℕ) (c : List (ℕ × V)) (lo hi : ℕ) → Within lo hi c → Within lo hi (unlink k c).0
  unfolding unlink
  Within-unlink k [] lo hi x = tt
  Within-unlink k ((j, w) ∷ c) lo hi x = ground (arith, Within-unlink k c lo hi x.2)

  Within-Above : (m lo hi : ℕ) (c : List (ℕ × V)) → Above m c → Within lo hi c → Within m hi c
  Within-Above m lo hi [] a x = tt
  Within-Above m lo hi ((j, w) ∷ c) a x = (omega arith, x.1, Within-Above m lo hi c a.1 x.2)

  Above-middle :
      (b : ℕ) (xs : List (ℕ × V)) (m : ℕ) (u : V) (ys : List (ℕ × V))
      → Above b (xs ++ (m, u) ∷ ys)
      → b < m
  Above-middle b [] m u ys a = a.0
  Above-middle b ((j, w) ∷ xs) m u ys a = Above-middle b xs m u ys a.1

  -- The two sides of a cut of a sorted chain.
  pub Within-append :
      (xs : List (ℕ × V)) (m : ℕ) (u : V) (ys : List (ℕ × V)) (lo hi : ℕ)
      → IsSorted (xs ++ (m, u) ∷ ys)
      → Within lo hi (xs ++ (m, u) ∷ ys)
      → Within lo m xs × Within m hi ((m, u) ∷ ys) × (0 < length xs → lo < m)
  Within-append [] m u ys lo hi s x =
      (tt, (omega arith, x.1, Within-Above m lo hi ys s.0 x.2), λ h. absurd (omega arith))
  Within-append ((j, w) ∷ xs) m u ys lo hi s x =
      let (front, back, _) = Within-append xs m u ys lo hi s.1 x.2 in
      let lt = Above-middle j xs m u ys s.0 in ((x.0, lt, front), back, λ h. omega arith)
