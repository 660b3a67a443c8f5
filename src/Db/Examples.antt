-- ===== src/Db/Examples.antt =====
-- Concrete inputs for the theorems about `db`.
use state_db.Base.{◌≡◌, refl, some, [], ◌∷◌, ◌==◌, if◌then◌else◌, done, arith}
use state_db.Bpt.Tree.{Tree}
use state_db.Bpt.Tree.Refines.{IsTree}
use state_db.Dtypes.{fixed, finished}
use state_db.Object.{DbObject, plain, bytes}
use state_db.Db.{order, make_hash, get_object, set_value, hash_from}
use state_db.Db.Samples.{no_objects, nothing, no_objects-IsTree, no_objects-Stands, found, loaded}
use state_db.Db.Laws.{get_object-set_value}

get_object-set_value_example :
    (t' : Tree DbObject) × (set_value (97 ∷ 98 ∷ []) 5 (7 ∷ 1 ∷ 9 ∷ []) no_objects
      ≡ finished (done t'))
    × IsTree order t'
    × (get_object 5863208 t'
        ≡ done (
            if 5863208 == make_hash (97 ∷ 98 ∷ [])
            then some (record { ds = bytes (7 ∷ 1 ∷ []); dtype = 5; key = 97 ∷ 98 ∷ [] })
            else nothing 5863208))
get_object-set_value_example =
    get_object-set_value (97 ∷ 98 ∷ []) 5 (plain (fixed 2)) (7 ∷ 1 ∷ 9 ∷ []) no_objects nothing 2
      (bytes (7 ∷ 1 ∷ [])) 5863208 found loaded no_objects-IsTree no_objects-Stands (omega arith)

-- The hash of "ab".
hash_ab : make_hash (97 ∷ 98 ∷ []) ≡ 5863208
unfolding make_hash hash_from
hash_ab = refl

-- The keys "aB" and "b!" have one hash, so the tree does not tell them apart.
hash_shared : make_hash (97 ∷ 66 ∷ []) ≡ make_hash (98 ∷ 33 ∷ [])
unfolding make_hash hash_from
hash_shared = refl
