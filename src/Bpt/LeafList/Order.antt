-- ===== src/Bpt/LeafList/Order.antt =====
-- The order of the chain of a `leaf_list` (StateDatabase/list.h).
use state_db.Base.{ℕ, suc, ◌+◌, flag, ◌≤◌, ◌<◌, ◌≡◌, List, [], ◌∷◌, arith, length}
use state_db.Bpt.LeafList.{LeafList, set_from, set_chain, unlink}

module _ {ℓ} {V : Type ℓ} where
  -- Every key of the chain is above `b`.
  abbrev pub Above : ℕ → List (ℕ × V) → Type 0
  Above b [] = Unit {0}
  Above b ((j, w) ∷ rest) = (b < j) × Above b rest

  -- The keys rise strictly along the chain.
  abbrev pub IsSorted : List (ℕ × V) → Type 0
  IsSorted [] = Unit {0}
  IsSorted ((j, w) ∷ rest) = Above j rest × IsSorted rest

  -- The keys rise strictly, and the cached count is right.
  pub record IsValid (l : LeafList V) : Type 0 where
    pub sorted : IsSorted l.root
    pub counted : l.size ≡ length l.root

  pub Above-mono : (a b : ℕ) (c : List (ℕ × V)) → a ≤ b → Above b c → Above a c
  Above-mono a b [] h x = tt
  Above-mono a b ((j, w) ∷ c) h x = (omega arith, Above-mono a b c h x.1)

  pub Above-set_from :
      (b k : ℕ) (v : V) (j : ℕ) (w : V) (c : List (ℕ × V))
      → b < k
      → b < j
      → Above b c
      → Above b (set_from k v j w c).0
  unfolding set_from
  Above-set_from b k v j w [] hk hj x = ground arith
  Above-set_from b k v j w ((i, u) ∷ c) hk hj x =
      ground (arith, Above-set_from b k v i u c hk x.0 x.1)

  pub set_from-IsSorted :
      (k : ℕ) (v : V) (j : ℕ) (w : V) (c : List (ℕ × V))
      → j ≤ k
      → IsSorted ((j, w) ∷ c)
      → IsSorted (set_from k v j w c).0
  unfolding set_from
  set_from-IsSorted k v j w [] h s = ground arith
  set_from-IsSorted k v j w ((i, u) ∷ c) h s =
      ground (arith, set_from-IsSorted k v i u c, Above-set_from j k v i u c, Above-mono k i c)

  -- `set` keeps the keys strictly rising.
  pub set_chain-IsSorted :
      (k : ℕ) (v : V) (c : List (ℕ × V)) → IsSorted c → IsSorted (set_chain k v c).0
  unfolding set_chain
  set_chain-IsSorted k v [] s = (tt, tt)
  set_chain-IsSorted k v ((j, w) ∷ c) s =
      ground (arith, set_from-IsSorted k v j w c, Above-mono k j c)

  pub Above-unlink : (b k : ℕ) (c : List (ℕ × V)) → Above b c → Above b (unlink k c).0
  unfolding unlink
  Above-unlink b k [] x = tt
  Above-unlink b k ((j, w) ∷ c) x = ground (arith, Above-unlink b k c x.1)

  pub unlink-IsSorted : (k : ℕ) (c : List (ℕ × V)) → IsSorted c → IsSorted (unlink k c).0
  unfolding unlink
  unlink-IsSorted k [] s = tt
  unlink-IsSorted k ((j, w) ∷ c) s = ground (arith, unlink-IsSorted k c s.1, Above-unlink j k c s.0)

  pub length-set_from :
      (k : ℕ) (v : V) (j : ℕ) (w : V) (c : List (ℕ × V))
      → length (set_from k v j w c).0 ≡ suc (length c) + flag (set_from k v j w c).1
  unfolding set_from
  length-set_from k v j w [] = ground arith
  length-set_from k v j w ((i, u) ∷ c) = ground (arith, length-set_from k v i u c)

  pub length-set_chain :
      (k : ℕ) (v : V) (c : List (ℕ × V))
      → length (set_chain k v c).0 ≡ length c + flag (set_chain k v c).1
  unfolding set_chain
  length-set_chain k v [] = omega arith
  length-set_chain k v ((j, w) ∷ c) = ground (arith, length-set_from k v j w c)

  pub length-unlink :
      (k : ℕ) (c : List (ℕ × V)) → length (unlink k c).0 + flag (unlink k c).1 ≡ length c
  unfolding unlink
  length-unlink k [] = omega arith
  length-unlink k ((j, w) ∷ c) = ground (arith, length-unlink k c)
