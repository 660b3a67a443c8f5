-- ===== src/Bpt/LeafList/Lookup.antt =====
-- Reading a `leaf_list` (StateDatabase/list.h) after `set` and `delete_key`.
use state_db.Base.{
  ℕ, suc, flag, ◌+◌, ◌≤◌, ◌<◌, ◌≡◌, refl, ◌≢◌, Bool, true, false, List, [], ◌∷◌, arith, length,
  some, none, if◌then◌else◌, ◌==◌,
}
use state_db.Bpt.LeafList.{
  LeafList, find, first_key, get_root_key, set, get_val_ptr, delete_key, set_from, set_chain,
  unlink, delete_from, delete_at, size_mod,
}
use state_db.Bpt.LeafList.Order.{
  Above, Above-unlink, IsSorted, IsValid, set_chain-IsSorted, unlink-IsSorted, length-set_chain,
  length-unlink,
}
use state_db.Bpt.LeafList.Range.{Within, Within-unlink}

module _ {V : Type 0} where
  pub find-Above : (b k : ℕ) (c : List (ℕ × V)) → Above b c → k ≤ b → find k c ≡ none
  unfolding find
  find-Above b k [] x h = refl
  find-Above b k ((j, w) ∷ c) x h = ground (arith, find-Above b k c x.1)

  find-set_from :
      (k : ℕ) (v : V) (j : ℕ) (w : V) (c : List (ℕ × V)) (q : ℕ)
      → j ≤ k
      → IsSorted ((j, w) ∷ c)
      → find q (set_from k v j w c).0 ≡ (if q == k then some v else find q ((j, w) ∷ c))
  unfolding find set_from
  find-set_from k v j w [] q h s = ground arith
  find-set_from k v j w ((i, u) ∷ c) q h s =
      ground (arith, find-set_from k v i u c q, find-Above i k c)

  pub find-set_chain :
      (k : ℕ) (v : V) (c : List (ℕ × V)) (q : ℕ)
      → IsSorted c
      → find q (set_chain k v c).0 ≡ (if q == k then some v else find q c)
  unfolding find set_chain
  find-set_chain k v [] q s = ground arith
  find-set_chain k v ((j, w) ∷ c) q s = ground (arith, find-set_from k v j w c q)

  find-unlink :
      (k : ℕ) (c : List (ℕ × V)) (q : ℕ)
      → IsSorted c
      → find q (unlink k c).0 ≡ (if q == k then none else find q c)
  unfolding find unlink
  find-unlink k [] q s = ground arith
  find-unlink k ((j, w) ∷ c) q s = ground (arith, find-unlink k c q s.1, find-Above j q c)

  -- The flag of the removal says whether the key was there.
  unlink_flag : (k : ℕ) (c : List (ℕ × V)) → (unlink k c).1 ≡ false → find k c ≡ none
  unfolding find unlink
  unlink_flag k [] h = refl
  unlink_flag k ((j, w) ∷ c) h = ground (arith, unlink_flag k c)

  unlink_hit : (k : ℕ) (c : List (ℕ × V)) → (unlink k c).1 ≡ true → find k c ≢ none
  unfolding find unlink
  unlink_hit k [] h = cc
  unlink_hit k ((j, w) ∷ c) h = ground (arith, unlink_hit k c)

  -- `set` keeps a valid list valid, as long as its count does not wrap.
  pub set-IsValid :
      (k : ℕ) (v : V) (l : LeafList V)
      → suc (length l.root) < size_mod
      → IsValid l
      → IsValid (set k v l)
  unfolding set
  set-IsValid k v l room h = record {
    sorted = set_chain-IsSorted k v l.root h.sorted;
    counted = ground (arith, length-set_chain k v l.root, h.counted);
  }

  pub length-set-le :
      (k : ℕ) (v : V) (l : LeafList V) → length (set k v l).root ≤ suc (length l.root)
  unfolding set
  length-set-le k v l = ground (arith, length-set_chain k v l.root)

  root_of_key :
      (c : List (ℕ × V)) (m : ℕ)
      → first_key c ≡ some m
      → (u : V) × (rest : List (ℕ × V)) × (c ≡ (m, u) ∷ rest)
  unfolding first_key
  root_of_key [] m e = cc
  root_of_key ((j, w) ∷ c) m e = (w, c, ground arith)

  -- The first node of a list with a first key.
  pub root-get_root_key :
      (l : LeafList V) (m : ℕ)
      → get_root_key l ≡ some m
      → (u : V) × (rest : List (ℕ × V)) × (l.root ≡ (m, u) ∷ rest)
  unfolding get_root_key
  root-get_root_key l m e = root_of_key l.root m e

  -- On a valid list, after `set k v` the key `k` reads `v`, and every other key reads as
  -- before.
  pub get_val_ptr-set :
      (k : ℕ) (v : V) (l : LeafList V) (q : ℕ)
      → IsValid l
      → get_val_ptr q (set k v l) ≡ (if q == k then some v else get_val_ptr q l)
  unfolding get_val_ptr set
  get_val_ptr-set k v l q h = find-set_chain k v l.root q h.sorted

  -- What `delete_key` promises of its result: whether the key was there, and the list without it.
  pub record Deletes (k : ℕ) (l : LeafList V) (freed : Bool) (l' : LeafList V) : Type 0 where
    pub valid : IsValid l'
    pub without : (q : ℕ) → get_val_ptr q l' ≡ (if q == k then none else get_val_ptr q l)
    pub present : freed ≡ false → get_val_ptr k l ≡ none
    pub found : freed ≡ true → get_val_ptr k l ≢ none
    pub ranged : (lo hi : ℕ) → Within lo hi l.root → Within lo hi l'.root
    pub shorter : length l'.root + flag freed ≡ length l.root

  delete_from-IsSorted :
      (k : ℕ) (j : ℕ) (w : V) (c : List (ℕ × V))
      → IsSorted ((j, w) ∷ c)
      → IsSorted (delete_from k j w c).0
  unfolding delete_from
  delete_from-IsSorted k j w c s = ground (arith, unlink-IsSorted k c s.1, Above-unlink j k c s.0)

  length-delete_from :
      (k : ℕ) (j : ℕ) (w : V) (c : List (ℕ × V))
      → length (delete_from k j w c).0 + flag (delete_from k j w c).1 ≡ suc (length c)
  unfolding delete_from
  length-delete_from k j w c = ground (arith, length-unlink k c)

  find-delete_from :
      (k : ℕ) (j : ℕ) (w : V) (c : List (ℕ × V)) (q : ℕ)
      → IsSorted ((j, w) ∷ c)
      → find q (delete_from k j w c).0 ≡ (if q == k then none else find q ((j, w) ∷ c))
  unfolding delete_from find
  find-delete_from k j w c q s = ground (arith, find-unlink k c q s.1, find-Above j q c s.0)

  delete_from_flag :
      (k : ℕ) (j : ℕ) (w : V) (c : List (ℕ × V))
      → (delete_from k j w c).1 ≡ false
      → find k ((j, w) ∷ c) ≡ none
  unfolding delete_from find
  delete_from_flag k j w c h = ground (arith, unlink_flag k c)

  delete_from_hit :
      (k : ℕ) (j : ℕ) (w : V) (c : List (ℕ × V))
      → (delete_from k j w c).1 ≡ true
      → find k ((j, w) ∷ c) ≢ none
  unfolding delete_from find
  delete_from_hit k j w c h = ground (arith, unlink_hit k c)

  Within-delete_from :
      (k : ℕ) (j : ℕ) (w : V) (c : List (ℕ × V)) (lo hi : ℕ)
      → Within lo hi ((j, w) ∷ c)
      → Within lo hi (delete_from k j w c).0
  unfolding delete_from
  Within-delete_from k j w c lo hi x = ground (arith, Within-unlink k c lo hi x.2)

  delete_at-Deletes :
      (k : ℕ) (c : List (ℕ × V)) (n : ℕ)
      → IsValid (record { root = c; size = n })
      → c ≢ []
      → length c < size_mod
      → (freed : Bool) × (l' : LeafList V) × (delete_at k c n ≡ some (freed, l'))
        × Deletes k (record { root = c; size = n }) freed l'
  unfolding delete_at get_val_ptr
  delete_at-Deletes k [] n h full room = absurd (full refl)
  delete_at-Deletes k ((j, w) ∷ c) n h full room = (
    _,
    _,
    refl,
    record {
      valid = record {
        sorted = delete_from-IsSorted k j w c h.sorted;
        counted = ground (arith, length-delete_from k j w c, h.counted);
      };
      without = λ q. find-delete_from k j w c q h.sorted;
      present = delete_from_flag k j w c;
      found = delete_from_hit k j w c;
      ranged = Within-delete_from k j w c;
      shorter = length-delete_from k j w c;
    },
  )

  -- `delete_key` on a valid list that is not empty, and whose length a `size_t` holds, gives a
  -- valid list without the key, and says whether it was there.
  pub delete_key-Deletes :
      (k : ℕ) (l : LeafList V)
      → IsValid l
      → l.root ≢ []
      → length l.root < size_mod
      → (freed : Bool) × (l' : LeafList V) × (delete_key k l ≡ some (freed, l'))
        × Deletes k l freed l'
  unfolding delete_key
  delete_key-Deletes k l h full room = delete_at-Deletes k l.root l.size h full room
