-- ===== src/Bpt/Iterate/Same.antt =====
-- Leaves that stand at the same addresses with the same links (StateDatabase/leaf.h), whatever pairs
-- they hold.
use state_db.Base.{ℕ, ◌≡◌, refl, Option, List, [], ◌∷◌, ◌++◌, ◌∙◌}
use state_db.Bpt.Node.{Node}
use state_db.Bpt.Iterate.{LeafAt, leaves}
use state_db.Bpt.Iterate.Links.{head_address, AreLinked, IsNew, AreDistinct, OwnsFirst}
use state_db.Bpt.Iterate.Grown.{AreBelow}

module _ {V : Type 0} where
  abbrev pub AreSame : List (LeafAt V) → List (LeafAt V) → Type 0
  AreSame [] [] = Unit {0}
  AreSame [] (y ∷ ys) = ⊥
  AreSame (x ∷ xs) [] = ⊥
  AreSame (x ∷ xs) (y ∷ ys) = (y.address ≡ x.address) × (y.next ≡ x.next) × AreSame xs ys

  -- A node whose leaves stay where they are.
  pub record Keeps (t t' : Node V) : Type 0 where
    pub same : AreSame (leaves t) (leaves t')
    pub owns : OwnsFirst t → OwnsFirst t'

  pub self-AreSame : (xs : List (LeafAt V)) → AreSame xs xs
  self-AreSame [] = tt
  self-AreSame (x ∷ xs) = (refl, refl, self-AreSame xs)

  pub AreSame-append :
      (xs ys zs ws : List (LeafAt V))
      → AreSame xs ys
      → AreSame zs ws
      → AreSame (xs ++ zs) (ys ++ ws)
  AreSame-append [] [] zs ws h k = k
  AreSame-append [] (y ∷ ys) zs ws h k = absurd h
  AreSame-append (x ∷ xs) [] zs ws h k = absurd h
  AreSame-append (x ∷ xs) (y ∷ ys) zs ws (a, n, h) k = (a, n, AreSame-append xs ys zs ws h k)

  head_address-AreSame :
      (xs ys : List (LeafAt V)) (last : Option ℕ)
      → AreSame xs ys
      → head_address ys last ≡ head_address xs last
  head_address-AreSame [] [] last h = refl
  head_address-AreSame [] (y ∷ ys) last h = absurd h
  head_address-AreSame (x ∷ xs) [] last h = absurd h
  head_address-AreSame (x ∷ xs) (y ∷ ys) last (a, n, h) = rw a refl

  pub AreLinked-AreSame :
      (xs ys : List (LeafAt V)) (last : Option ℕ)
      → AreSame xs ys
      → AreLinked xs last
      → AreLinked ys last
  AreLinked-AreSame [] [] last h k = tt
  AreLinked-AreSame [] (y ∷ ys) last h k = absurd h
  AreLinked-AreSame (x ∷ xs) [] last h k = absurd h
  AreLinked-AreSame (x ∷ xs) (y ∷ ys) last (a, n, h) (e, k) =
      (rw (head_address-AreSame xs ys last h) (n ∙ e), AreLinked-AreSame xs ys last h k)

  IsNew-AreSame : (a : ℕ) (xs ys : List (LeafAt V)) → AreSame xs ys → IsNew a xs → IsNew a ys
  IsNew-AreSame a [] [] h k = tt
  IsNew-AreSame a [] (y ∷ ys) h k = absurd h
  IsNew-AreSame a (x ∷ xs) [] h k = absurd h
  IsNew-AreSame a (x ∷ xs) (y ∷ ys) (e, n, h) (ne, k) = (rw e ne, IsNew-AreSame a xs ys h k)

  pub AreDistinct-AreSame :
      (xs ys : List (LeafAt V)) → AreSame xs ys → AreDistinct xs → AreDistinct ys
  AreDistinct-AreSame [] [] h k = tt
  AreDistinct-AreSame [] (y ∷ ys) h k = absurd h
  AreDistinct-AreSame (x ∷ xs) [] h k = absurd h
  AreDistinct-AreSame (x ∷ xs) (y ∷ ys) (e, n, h) (new, k) =
      (rw e (IsNew-AreSame x.address xs ys h new), AreDistinct-AreSame xs ys h k)

  pub AreBelow-AreSame :
      (m : ℕ) (xs ys : List (LeafAt V)) → AreSame xs ys → AreBelow m xs → AreBelow m ys
  AreBelow-AreSame m [] [] h k = tt
  AreBelow-AreSame m [] (y ∷ ys) h k = absurd h
  AreBelow-AreSame m (x ∷ xs) [] h k = absurd h
  AreBelow-AreSame m (x ∷ xs) (y ∷ ys) (e, n, h) (lt, k) = (rw e lt, AreBelow-AreSame m xs ys h k)
