-- ===== src/Bpt/Iterate/Links.antt =====
-- Iteration over a tree whose leaves are linked in order (StateDatabase/leaf.h, bpt.h).
use state_db.Base.{
  ℕ, zero, suc, ◌<◌, ◌≡◌, ◌≢◌, refl, true, false, Option, none, some, List, [], ◌∷◌, ◌++◌, ◌==◌,
  length, done, arith, ap, ◌∙◌, sym, append-nil,
}
use state_db.Bpt.Node.{Node, leaf, inner, alias}
use state_db.Bpt.Iterate.{
  LeafAt, iterate_list, leaves, leaves_of_kids, find_leaf, walk, iterate_leaf, iterate_node,
  iterate_root, iterate,
}

module _ {V : Type 0} where
  -- Where a chain of leaves ends in the address of the leaf behind it.
  abbrev pub head_address : List (LeafAt V) → Option ℕ → Option ℕ
  head_address [] last = last
  head_address (l ∷ ls) last = some l.address

  -- Each leaf points to the one behind it, and the last to `last`.
  abbrev pub AreLinked : List (LeafAt V) → Option ℕ → Type 0
  AreLinked [] last = Unit {0}
  AreLinked (l ∷ ls) last = (l.next ≡ head_address ls last) × AreLinked ls last

  abbrev pub IsNew : ℕ → List (LeafAt V) → Type 0
  IsNew a [] = Unit {0}
  IsNew a (l ∷ ls) = (l.address ≢ a) × IsNew a ls

  abbrev pub AreDistinct : List (LeafAt V) → Type 0
  AreDistinct [] = Unit {0}
  AreDistinct (l ∷ ls) = IsNew l.address ls × AreDistinct ls

  -- All pairs, leaf by leaf.
  abbrev pub pairs : List (LeafAt V) → List (ℕ × V)
  pairs [] = []
  pairs (l ∷ ls) = l.list.root ++ pairs ls

  -- The memory has each of the leaves at its address.
  abbrev AllFound : List (LeafAt V) → List (LeafAt V) → Type 0
  AllFound memory [] = Unit {0}
  AllFound memory (l ∷ ls) = (find_leaf l.address memory ≡ done l) × AllFound memory ls

  found_behind :
      (x : LeafAt V) (memory ls : List (LeafAt V))
      → IsNew x.address ls
      → AllFound memory ls
      → AllFound (x ∷ memory) ls
  unfolding find_leaf
  found_behind x memory [] new h = tt
  found_behind x memory (l ∷ ls) (new, news) (h, hs) =
      let other : (x.address == l.address) ≡ false = ground (arith, new) in
      (rw other h, found_behind x memory ls news hs)

  distinct_found : (ls : List (LeafAt V)) → AreDistinct ls → AllFound ls ls
  unfolding find_leaf
  distinct_found [] h = tt
  distinct_found (l ∷ ls) (new, h) =
      let here : (l.address == l.address) ≡ true = ground arith in
      (rw here refl, found_behind l ls ls new (distinct_found ls h))

  -- On leaves that the memory has and that are linked, the walk passes each of them once.
  walk-pairs :
      (memory ls : List (LeafAt V)) (l : LeafAt V) (fuel : ℕ)
      → AllFound memory ls
      → AreLinked (l ∷ ls) none
      → length ls < fuel
      → walk fuel memory l ≡ done (pairs (l ∷ ls))
  unfolding walk iterate_list
  walk-pairs memory ls l zero found linked h = absurd (omega (arith, h))
  walk-pairs memory [] l (suc fuel) found (last, linked) h =
      rw last (ap (λ (p : List (ℕ × V)). done p) (sym (append-nil l.list.root)))
  walk-pairs memory (m ∷ ls) l (suc fuel) (here, found) (next, linked) h =
      rw (next, here, walk-pairs memory ls m fuel found linked (omega (arith, h))) refl

  -- The lowest leaf is one that the tree owns.
  abbrev pub OwnsFirst : Node V → Type 0
  OwnsFirst (leaf a l next) = Unit {0}
  OwnsFirst (inner lesser kids n) = OwnsFirst lesser
  OwnsFirst alias = ⊥

  lowest :
      (t : Node V)
      → OwnsFirst t
      → (l : LeafAt V) × (ls : List (LeafAt V)) × (leaves t ≡ l ∷ ls)
        × ((memory : List (LeafAt V)) → iterate_node memory t ≡ iterate_leaf memory l)
  unfolding leaves iterate_node
  lowest (leaf a l next) h =
      (record { address = a; list = l; next = next }, [], refl, λ memory. refl)
  lowest (inner lesser kids n) h =
      let (l, ls, e, go) = lowest lesser h in
      (l, ls ++ leaves_of_kids kids, ap (λ (x : List (LeafAt V)). x ++ leaves_of_kids kids) e, go)
  lowest alias h = absurd h

  walk_all :
      (memory ls : List (LeafAt V)) (l : LeafAt V)
      → memory ≡ l ∷ ls
      → AreLinked memory none
      → AreDistinct memory
      → iterate_leaf memory l ≡ done (pairs memory)
  unfolding iterate_leaf
  walk_all memory ls l e linked distinct =
      let found : AllFound (l ∷ ls) (l ∷ ls) = distinct_found (l ∷ ls) (rw e at distinct) in
      rw e (walk-pairs (l ∷ ls) ls l (length (l ∷ ls)) found.1 (rw e at linked) (omega arith))

  -- Where the leaves of a tree have addresses of their own, each is linked to the next and the
  -- last to none, and the lowest is one that the tree owns, `iterate` ends, and its callback is given
  -- every pair of every leaf exactly once, leaf by leaf.
  pub iterate-pairs :
      (t : Node V) (fresh : ℕ) (junk : ℕ → ℕ)
      → OwnsFirst t
      → AreLinked (leaves t) none
      → AreDistinct (leaves t)
      → iterate (record { root = some t; fresh = fresh; junk = junk }) ≡ done (pairs (leaves t))
  unfolding iterate iterate_root
  iterate-pairs t fresh junk owns linked distinct =
      let (l, ls, e, go) = lowest t owns in
      go (leaves t) ∙ walk_all (leaves t) ls l e linked distinct
