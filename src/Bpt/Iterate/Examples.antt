-- ===== src/Bpt/Iterate/Examples.antt =====
-- A concrete input for the theorem about iteration.
use state_db.Base.{ℕ, ◌≤◌, ◌<◌, ◌≡◌, refl, none, some, List, [], ◌∷◌, done, arith}
use state_db.Bpt.LeafList
use state_db.Bpt.LeafList.{LeafList, size_mod}
use state_db.Bpt.Node
use state_db.Bpt.Node.{Node}
use state_db.Bpt.Remove.Laws.{leaf_of}
use state_db.Bpt.Tree.{Tree}
use state_db.Bpt.Iterate.{iterate}
use state_db.Bpt.Iterate.Writes.{Shows}
use state_db.Bpt.Iterate.Changes.{
  Change, put, remove, change, change_all, AreAllowed, allowed-AreAllowed, changed_all,
  iterate-change_all,
}

-- At order 3 these operations split a leaf, and take a pair from its right half.
abbrev operations : List (Change ℕ)
operations = put 4 40 ∷ put 9 90 ∷ put 2 20 ∷ put 7 70 ∷ remove 9 ∷ put 8 80 ∷ []

abbrev empty : Tree ℕ
empty = record { root = none; fresh = 0; junk = λ a. 0 }

-- The two lower leaves, which stay, and the trees before and after the deletion.
abbrev low : Node ℕ
low = Node.leaf 1 (record { root = (2, 20) ∷ []; size = 1 }) (some 0)

abbrev middle : Node ℕ
middle = Node.leaf 0 (record { root = (4, 40) ∷ []; size = 1 }) (some 6)

abbrev high : LeafList ℕ
high = record { root = (7, 70) ∷ (9, 90) ∷ []; size = 2 }

abbrev tree_of : Node ℕ → ℕ → Tree ℕ
tree_of t fresh = record { root = some t; fresh = fresh; junk = λ a. 0 }

abbrev three_leaves : LeafList ℕ → Tree ℕ
three_leaves l =
    tree_of (Node.inner low (Node.kid 4 middle (Node.kid 7 (Node.leaf 6 l none) Node.end)) 2) 8

abbrev two_leaves : Node ℕ → LeafList ℕ → ℕ → Tree ℕ
two_leaves t l fresh = tree_of (Node.inner t (Node.kid 4 (Node.leaf 0 l none) Node.end) 1) fresh

abbrev none_low : Node ℕ
none_low = Node.leaf 1 (record { root = []; size = 0 }) (some 0)

abbrev one_pair : LeafList ℕ
one_pair = record { root = (4, 40) ∷ []; size = 1 }

abbrev two_pairs : LeafList ℕ
two_pairs = record { root = (4, 40) ∷ (9, 90) ∷ []; size = 2 }

last_allowed : AreAllowed 3 (remove 9 ∷ put 8 80 ∷ []) (three_leaves high)
unfolding change LeafList.delete_key leaf_of
last_allowed =
    let last : LeafList ℕ = record { root = (7, 70) ∷ []; size = 1 } in
    let b9 : 9 < size_mod = omega arith in
    let two : 2 ≤ 2 = omega arith in
    let after : AreAllowed 3 (put 8 80 ∷ []) (three_leaves last) = (omega arith, λ t' e. tt) in
    allowed-AreAllowed 3 (remove 9) (put 8 80 ∷ []) (three_leaves high) (three_leaves last) refl
      (b9, (high, refl, two)) after

operations-AreAllowed : AreAllowed 3 operations empty
unfolding change Node.or_crash LeafList.get_root_key LeafList.set LeafList.make Node.set
    LeafList.split
operations-AreAllowed =
    let t1 = two_leaves none_low one_pair 2 in
    let t2 = two_leaves none_low two_pairs 4 in
    let t3 = two_leaves low two_pairs 6 in
    let ops4 = remove 9 ∷ put 8 80 ∷ [] in
    let ops3 = put 7 70 ∷ ops4 in
    let ops2 = put 2 20 ∷ ops3 in
    allowed-AreAllowed 3 (put 4 40) (put 9 90 ∷ ops2) empty t1 refl (omega arith) (
      allowed-AreAllowed 3 (put 9 90) ops2 t1 t2 refl (omega arith) (
        allowed-AreAllowed 3 (put 2 20) ops3 t2 t3 refl (omega arith) (
          allowed-AreAllowed 3 (put 7 70) ops4 t3 (three_leaves high) refl (omega arith)
            last_allowed)))

iterate-change_all_example :
    (t : Tree ℕ) × (ps : List (ℕ × ℕ)) × (change_all 3 operations empty ≡ done t)
    × (iterate t ≡ done ps)
    × Shows ps (changed_all operations (λ q. none))
iterate-change_all_example =
    iterate-change_all 3 (omega arith) (omega arith) operations 0 (λ a. 0) (λ a. refl)
      operations-AreAllowed
