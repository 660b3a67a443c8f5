-- ===== src/Examples.antt =====
-- Concrete inputs for the theorems about the B+ tree and `bigint`, and tests of the definitions.
use state_db.Base.{
  ℕ, ◌≡◌, ◌≢◌, refl, Bool, true, false, Option, none, some, List, [], ◌∷◌, done, crash, hang, ◌==◌,
  if◌then◌else◌, arith, ltb,
}
use state_db.Base.Int.{◌+ℤ◌}
use state_db.Bpt.LeafList
use state_db.Bpt.LeafList.{LeafList, size_mod}
use state_db.Bpt.LeafList.Order.{IsValid}
use state_db.Bpt.Node
use state_db.Bpt.Node.{Node, leaf, inner, Kids, kid, end}
use state_db.Bpt.Node.Order.{Fits}
use state_db.Bpt.Node.Split.{Sets}
use state_db.Bpt.Node.Update.{set-Sets}
use state_db.Bpt.Tree
use state_db.Bpt.Tree.{Tree}
use state_db.Bpt.Tree.Refines.{newest, IsTree, Stands, set_all-Stands}
use state_db.Bpt.Remove.{delete_key, delete, spin}
use state_db.Bpt.Remove.Laws.{leaf_of}
use state_db.Bpt.Remove.Root.{delete-Stands}
use state_db.Bpt.Remove.Defects.{single, empty, delete_key_lesser, delete_key_hang}
use state_db.BigInt.{BigInt, plus, minus, plus_op}
use state_db.BigInt.Order.{IsCanonical, to_ℤ}
use state_db.BigInt.Arith.{to_ℤ-plus_op}

-- The order that StateDatabase/db.h instantiates the tree with.
abbrev order : ℕ
order = 6

abbrev no_tree : Tree ℕ
no_tree = record { root = none; fresh = 0; junk = λ a. 0 }

abbrev nothing : ℕ → Option ℕ
nothing q = none

no_tree-IsTree : IsTree order no_tree
no_tree-IsTree = record { fits = tt; zeroed = λ a. refl }

no_tree-Stands : Stands order no_tree.root nothing
unfolding Tree.get_root
no_tree-Stands q h = refl

-- Seven keys, out of order, one of them twice: the first leaf splits.
abbrev writes : List (ℕ × ℕ)
writes = (4, 40) ∷ (2, 20) ∷ (9, 90) ∷ (7, 70) ∷ (5, 50) ∷ (11, 110) ∷ (13, 130) ∷ (7, 71) ∷ []

set_all-Stands_example :
    (t' : Tree ℕ) × (Tree.set_all order writes no_tree ≡ done t')
    × IsTree order t'
    × Stands order t'.root (newest writes nothing)
set_all-Stands_example =
    set_all-Stands order (omega arith) (omega arith) writes no_tree nothing (ground arith)
      no_tree-IsTree no_tree-Stands

-- Two leaves under one inner node: the first serves the keys below 5.
abbrev low : LeafList ℕ
low = record { root = (2, 20) ∷ (4, 40) ∷ []; size = 2 }

abbrev high : LeafList ℕ
high = record { root = (5, 50) ∷ (7, 70) ∷ (9, 90) ∷ []; size = 3 }

low-IsValid : IsValid low
low-IsValid = record { sorted = ground arith; counted = refl }

high-IsValid : IsValid high
high-IsValid = record { sorted = ground arith; counted = refl }

abbrev two_leaves : Node ℕ
two_leaves = inner (leaf 1 low (some 0)) (kid 5 (leaf 0 high none) end) 1

two_leaves-Fits : Fits order two_leaves 0 size_mod
two_leaves-Fits = (
  record { valid = low-IsValid; within = ground arith; small = omega arith },
  omega arith,
  (record { valid = high-IsValid; within = ground arith; small = omega arith }, omega arith, tt),
  refl,
  omega arith,
)

set-Sets_example :
    Sets order 6 60 0 size_mod
      (λ q. Node.get_val_ptr q two_leaves)
      (Node.set order 7 0 6 60 two_leaves)
set-Sets_example =
    set-Sets order 7 0 (omega arith) (omega arith) 6 60 two_leaves 0 size_mod two_leaves-Fits
      (omega arith) (omega arith)

leaf_of_two : leaf_of 7 two_leaves ≡ done high
unfolding leaf_of Node.first
leaf_of_two = refl

two_leaves-IsTree : IsTree order (record { root = some two_leaves; fresh = 7; junk = λ a. 0 })
two_leaves-IsTree = record { fits = two_leaves-Fits; zeroed = λ a. refl }

-- What the two leaves hold.
abbrev both : ℕ → Option ℕ
both q = if ltb q 5 then LeafList.get_val_ptr q low else LeafList.get_val_ptr q high

two_leaves-Stands : Stands order (some two_leaves) both
unfolding Tree.get_root Node.get_val_ptr Node.first
two_leaves-Stands q h = ground arith

delete-Stands_example :
    (b : Bool) × (t' : Tree ℕ) × (delete 7
        (record { root = some two_leaves; fresh = 7; junk = λ a. 0 })
      ≡ done (b, t'))
    × IsTree order t'
    × Stands order t'.root (λ q. if q == 7 then none else both q)
    × (b ≡ false → both 7 ≡ none)
    × (b ≡ true → both 7 ≢ none)
delete-Stands_example =
    delete-Stands order (omega arith) 7 two_leaves 7 (λ a. 0) both high (omega arith)
      two_leaves-IsTree two_leaves-Stands leaf_of_two (omega arith)

high_full : high.root ≢ []
high_full e = cc

first_kid : Node.first (kid 5 (leaf 0 high none) end) ≡ done 5
unfolding Node.first
first_kid = refl

delete_key_lesser_example :
    (delete_key 2 (inner (leaf 1 (single 2 20) none) (kid 5 (leaf 0 high none) end) 1)
      ≡ done (false, inner (leaf 1 empty none) (kid 5 (leaf 0 high none) end) 1, []))
    × (delete_key 2 (inner (leaf 1 empty none) (kid 5 (leaf 0 high none) end) 1) ≡ crash)
delete_key_lesser_example =
    delete_key_lesser 2 20 1 none 5 (kid 5 (leaf 0 high none) end) 1 first_kid (omega arith)

delete_key_hang_example :
    ((fuel : ℕ) → spin fuel 4 (kid 5 (leaf 0 high none) end, []) ≡ hang)
    × (delete_key 4 (
          inner
            (leaf 1 low none)
            (kid 3 (leaf 2 (single 4 40) none) (kid 5 (leaf 0 high none) end))
            2)
        ≡ hang)
delete_key_hang_example =
    delete_key_hang 4 40 2 none (leaf 1 low none) 3 5 (leaf 0 high none) end 2 (omega arith)
      (omega arith)

-- 5 * 10^9 + 3, and -(10^9 + 4).
abbrev five_limbs : BigInt
five_limbs = record { a = 3 ∷ 5 ∷ []; sign = plus }

abbrev minus_one : BigInt
minus_one = record { a = 4 ∷ 1 ∷ []; sign = minus }

five-IsCanonical : IsCanonical five_limbs
five-IsCanonical = record {
  limbs = ground arith;
  trimmed = omega arith;
  short = omega arith;
  zero_plus = λ h. refl;
}

minus_one-IsCanonical : IsCanonical minus_one
minus_one-IsCanonical = record {
  limbs = ground arith;
  trimmed = omega arith;
  short = omega arith;
  zero_plus = λ h. absurd (omega arith);
}

to_ℤ-plus_op_example :
    (r : BigInt) × (plus_op five_limbs minus_one ≡ some r)
    × (to_ℤ r ≡ to_ℤ five_limbs +ℤ to_ℤ minus_one)
to_ℤ-plus_op_example = to_ℤ-plus_op five_limbs minus_one five-IsCanonical minus_one-IsCanonical
