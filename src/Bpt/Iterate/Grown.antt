-- ===== src/Bpt/Iterate/Grown.antt =====
-- What one call of `set` does to the sequence of the leaves (StateDatabase/leaf.h): one leaf is
-- written where it stands, or it is split and its right half is linked in behind it.
use state_db.Base.{ℕ, ◌≤◌, ◌<◌, ◌≡◌, ◌≢◌, refl, Option, some, List, [], ◌∷◌, ◌++◌, arith}
use state_db.Bpt.LeafList.{LeafList}
use state_db.Bpt.Iterate.{LeafAt}
use state_db.Bpt.Iterate.Links.{head_address, AreLinked, IsNew, AreDistinct}

-- `fresh` is the address of the right half.
pub data Grown {V : Type 0} (fresh : ℕ) : List (LeafAt V) → List (LeafAt V) → Type 0 where
  written :
      {a : ℕ} {l l' : LeafList V} {next : Option ℕ} {ls : List (LeafAt V)}
      → Grown fresh
          (record { address = a; list = l; next = next } ∷ ls)
          (record { address = a; list = l'; next = next } ∷ ls)
  halved :
      {a : ℕ} {l front back : LeafList V} {next : Option ℕ} {ls : List (LeafAt V)}
      → Grown fresh (record { address = a; list = l; next = next } ∷ ls) (
          record { address = a; list = front; next = some fresh }
          ∷ record { address = fresh; list = back; next = next }
          ∷ ls)
  behind :
      {l : LeafAt V} {ls ls' : List (LeafAt V)}
      → Grown fresh ls ls'
      → Grown fresh (l ∷ ls) (l ∷ ls')

module _ {V : Type 0} where
  -- Every leaf was made before `n` is handed out.
  abbrev pub AreBelow : ℕ → List (LeafAt V) → Type 0
  AreBelow n [] = Unit {0}
  AreBelow n (l ∷ ls) = (l.address < n) × AreBelow n ls

  AreBelow-IsNew : (ls : List (LeafAt V)) (a : ℕ) → AreBelow a ls → IsNew a ls
  AreBelow-IsNew [] a h = tt
  AreBelow-IsNew (l ∷ ls) a h = ((λ e. absurd (omega arith)), AreBelow-IsNew ls a h.1)

  AreBelow-mono : (ls : List (LeafAt V)) (m n : ℕ) → m ≤ n → AreBelow m ls → AreBelow n ls
  AreBelow-mono [] m n le h = tt
  AreBelow-mono (l ∷ ls) m n le h = (omega arith, AreBelow-mono ls m n le h.1)

module _ {V : Type 0} (fresh : ℕ) where
  pub Grown-append :
      (xs ys zs : List (LeafAt V)) → Grown fresh xs ys → Grown fresh (xs ++ zs) (ys ++ zs)
  Grown-append _ _ zs written = written
  Grown-append _ _ zs halved = halved
  Grown-append _ _ zs (behind g) = behind (Grown-append _ _ zs g)

  pub Grown-behind :
      (zs xs ys : List (LeafAt V)) → Grown fresh xs ys → Grown fresh (zs ++ xs) (zs ++ ys)
  Grown-behind [] xs ys g = g
  Grown-behind (z ∷ zs) xs ys g = behind (Grown-behind zs xs ys g)

  head_address-Grown :
      (xs ys : List (LeafAt V)) (last : Option ℕ)
      → Grown fresh xs ys
      → head_address ys last ≡ head_address xs last
  head_address-Grown _ _ last written = refl
  head_address-Grown _ _ last halved = refl
  head_address-Grown _ _ last (behind g) = refl

  -- The leaves stay linked in order.
  pub AreLinked-Grown :
      (xs ys : List (LeafAt V)) (last : Option ℕ)
      → Grown fresh xs ys
      → AreLinked xs last
      → AreLinked ys last
  AreLinked-Grown _ _ last written h = h
  AreLinked-Grown _ _ last halved h = (refl, h)
  AreLinked-Grown _ _ last (behind g) h =
      (rw (head_address-Grown _ _ last g) h.0, AreLinked-Grown _ _ last g h.1)

  IsNew-Grown :
      (a : ℕ) (xs ys : List (LeafAt V)) → fresh ≢ a → Grown fresh xs ys → IsNew a xs → IsNew a ys
  IsNew-Grown a _ _ ne written h = h
  IsNew-Grown a _ _ ne halved h = (h.0, (ne, h.1))
  IsNew-Grown a _ _ ne (behind g) h = (h.0, IsNew-Grown a _ _ ne g h.1)

  pub AreBelow-Grown :
      (xs ys : List (LeafAt V)) (n : ℕ)
      → fresh < n
      → Grown fresh xs ys
      → AreBelow fresh xs
      → AreBelow n ys
  AreBelow-Grown _ _ n lt (written {ls = ls}) h =
      (omega arith, AreBelow-mono ls fresh n (omega arith) h.1)
  AreBelow-Grown _ _ n lt (halved {ls = ls}) h =
      (omega arith, (lt, AreBelow-mono ls fresh n (omega arith) h.1))
  AreBelow-Grown _ _ n lt (behind g) h = (omega arith, AreBelow-Grown _ _ n lt g h.1)

  -- The addresses stay distinct, as the new one is above all.
  pub AreDistinct-Grown :
      (xs ys : List (LeafAt V))
      → Grown fresh xs ys
      → AreBelow fresh xs
      → AreDistinct xs
      → AreDistinct ys
  AreDistinct-Grown _ _ written b h = h
  AreDistinct-Grown _ _ (halved {ls = ls}) b h =
      (((λ e. absurd (omega arith)), h.0), (AreBelow-IsNew ls fresh b.1, h.1))
  AreDistinct-Grown _ _ (behind {l = l} g) b h =
      (IsNew-Grown l.address _ _ (λ e. absurd (omega arith)) g h.0, AreDistinct-Grown _ _ g b.1 h.1)
