-- ===== src/Db.antt =====
-- The operations of `db` (StateDatabase/db.h, db.cpp) on the tree of objects (object.h, object.cpp),
-- with the hash of keys (hash.h). A key is the sequence of its bytes before the zero.
use state_db.Base.{
  ℕ, zero, suc, ◌+◌, ◌-◌, ◌*◌, ◌%◌, ◌^◌, Bool, true, false, Option, none, some, List, [], ◌∷◌, ltb,
  if◌then◌else◌, Outcome, done, ◌>>=◌,
}
use state_db.Bpt.LeafList.{size_mod}
use state_db.Bpt.Tree
use state_db.Bpt.Tree.{Tree}
use state_db.Bpt.Remove.{delete}
use state_db.Dtypes.{Run, finished, then_run}
use state_db.Object
use state_db.Object.{DbObject, get_implementor, is_numeric}
pub mod Laws
pub mod Samples
mod Examples

-- ORDER of the tree.
abbrev pub order : ℕ
order = 6

-- A `char` as the `int c` of the loop, in a `size_t`: the sign is extended.
abbrev pub widen : ℕ → ℕ
widen c = if ltb c 128 then c else size_mod + c - 256

-- The loop of `_string_hash`.
unfoldable pub hash_from : ℕ → List ℕ → ℕ
hash_from h [] = h
hash_from h (c ∷ cs) = hash_from ((h * 32 % size_mod + h + widen c) % size_mod) cs

unfoldable pub make_hash : List ℕ → ℕ
unfolding hash_from
make_hash key = hash_from 5381 key

unfoldable pub get_object : ℕ → Tree DbObject → Outcome (Option DbObject)
unfolding Tree.get
get_object h t = Tree.get h t

-- `set_value`: an exception of the constructor or of `load_from` leaves the tree as it was.
unfoldable pub set_value : List ℕ → ℕ → List ℕ → Tree DbObject → Run (Outcome (Tree DbObject))
unfolding Object.make Object.load make_hash
set_value key dt src t = then_run (Object.make dt key) (λ obj.
    then_run (Object.load src obj)
      (λ (n, loaded). finished (Tree.set order (make_hash key) loaded t)))

unfoldable pub delete_object : ℕ → Tree DbObject → Outcome (Bool × Tree DbObject)
delete_object h t = delete h t

pub data NumericOperationResult : Type 0 where
  numeric_op_done numeric_op_not_found numeric_op_not_numeric : NumericOperationResult

abbrev pub add_result : Option DbObject → Run NumericOperationResult
add_result none = finished numeric_op_not_found
add_result (some obj) =
    Object.with_implementor (get_implementor obj.dtype)
      (λ d. finished (if is_numeric d then numeric_op_done else numeric_op_not_numeric))

-- `add`, which only looks at the object: the result, and the tree afterwards.
unfoldable pub add : ℕ → ℕ → Tree DbObject → Outcome (Run NumericOperationResult × Tree DbObject)
unfolding get_object
add h val t = get_object h t >>= λ obj. done (add_result obj, t)
