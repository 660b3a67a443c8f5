-- ===== src/Bpt/LeafList/Joined.antt =====
-- Two chains, one behind the other, with their keys on the two sides of a bound
-- (StateDatabase/list.h).
use state_db.Base.{
  ℕ, ◌≤◌, ◌<◌, ◌≡◌, refl, true, none, some, ◌==◌, List, [], ◌∷◌, ◌++◌, arith, ltb, if◌then◌else◌,
}
use state_db.Bpt.LeafList.{find}
use state_db.Bpt.LeafList.Order.{Above, IsSorted}
use state_db.Bpt.LeafList.Lookup.{find-Above}
use state_db.Bpt.LeafList.Range.{Within}

module _ {V : Type 0} where
  pub Within-mono :
      (lo m n hi : ℕ) (c : List (ℕ × V)) → lo ≤ m → n ≤ hi → Within m n c → Within lo hi c
  Within-mono lo m n hi [] h h' x = tt
  Within-mono lo m n hi ((j, w) ∷ c) h h' x =
      (omega arith, omega arith, Within-mono lo m n hi c h h' x.2)

  pub Within-join :
      (lo hi : ℕ) (xs ys : List (ℕ × V))
      → Within lo hi xs
      → Within lo hi ys
      → Within lo hi (xs ++ ys)
  Within-join lo hi [] ys x y = y
  Within-join lo hi ((j, w) ∷ xs) ys x y = (x.0, x.1, Within-join lo hi xs ys x.2 y)

  Within-Above : (b m hi : ℕ) (c : List (ℕ × V)) → b < m → Within m hi c → Above b c
  Within-Above b m hi [] h x = tt
  Within-Above b m hi ((j, w) ∷ c) h x = (omega arith, Within-Above b m hi c h x.2)

  Above-join : (b : ℕ) (xs ys : List (ℕ × V)) → Above b xs → Above b ys → Above b (xs ++ ys)
  Above-join b [] ys x y = y
  Above-join b ((j, w) ∷ xs) ys x y = (x.0, Above-join b xs ys x.1 y)

  pub IsSorted-join :
      (lo m hi : ℕ) (xs ys : List (ℕ × V))
      → IsSorted xs
      → Within lo m xs
      → IsSorted ys
      → Within m hi ys
      → IsSorted (xs ++ ys)
  IsSorted-join lo m hi [] ys s x s' y = s'
  IsSorted-join lo m hi ((j, w) ∷ xs) ys s x s' y = (
    Above-join j xs ys s.0 (Within-Above j m hi ys x.1 y),
    IsSorted-join lo m hi xs ys s.1 x.2 s' y,
  )

  find-Within : (q lo m : ℕ) (c : List (ℕ × V)) → m ≤ q → Within lo m c → find q c ≡ none
  unfolding find
  find-Within q lo m [] h x = refl
  find-Within q lo m ((j, w) ∷ c) h x = ground (arith, find-Within q lo m c h x.2)

  find-below : (q m hi : ℕ) (c : List (ℕ × V)) → q < m → Within m hi c → find q c ≡ none
  unfolding find
  find-below q m hi [] h x = refl
  find-below q m hi ((j, w) ∷ c) h x = ground (arith, find-below q m hi c h x.2)

  -- A key is looked for on the side of `m` where it belongs.
  pub find-join :
      (q lo m hi : ℕ) (xs ys : List (ℕ × V))
      → Within lo m xs
      → Within m hi ys
      → find q (xs ++ ys) ≡ (if ltb q m then find q xs else find q ys)
  unfolding find
  find-join q lo m hi [] ys x y = ground (arith, find-below q m hi ys)
  find-join q lo m hi ((j, w) ∷ xs) ys x y = ground (arith, find-join q lo m hi xs ys x.2 y)

  find_behind :
      (j : ℕ) (w : V) (c : List (ℕ × V)) (q : ℕ) (u : V)
      → Above j c
      → find q c ≡ some u
      → find q ((j, w) ∷ c) ≡ some u
  unfolding find
  find_behind j w c q u a e = ground (arith, find-Above j q c a)

  -- Every pair of the chain is so.
  abbrev pub Each : (ℕ → V → Type 0) → List (ℕ × V) → Type 0
  Each P [] = Unit {0}
  Each P ((j, w) ∷ c) = P j w × Each P c

  -- What holds of all that is found in a sorted chain holds of each of its pairs.
  pub Each-find :
      (P : ℕ → V → Type 0) (lo hi : ℕ) (c : List (ℕ × V))
      → IsSorted c
      → Within lo hi c
      → ((q : ℕ) (w : V) → lo ≤ q → q < hi → find q c ≡ some w → P q w)
      → Each P c
  unfolding find
  Each-find P lo hi [] s x h = tt
  Each-find P lo hi ((j, w) ∷ c) s x h =
      let here : (j == j) ≡ true = ground arith in
      (
        h j w x.0 x.1 (rw here refl),
        Each-find P lo hi c s.1 x.2 (λ q u l l' e. h q u l l' (find_behind j w c q u s.0 e)),
      )
