-- ===== src/Db/Samples.antt =====
-- A store without objects, and bytes that are loaded into it, for the concrete inputs of `db` and of
-- the server.
use state_db.Base.{ℕ, ◌≡◌, refl, Option, none, some, [], ◌∷◌}
use state_db.Bpt.Tree
use state_db.Bpt.Tree.{Tree}
use state_db.Bpt.Tree.Refines.{IsTree, Stands}
use state_db.Dtypes.{fixed, finished, load_from, require_at_least}
use state_db.Object.{DbObject, plain, bytes, get_implementor, load_storage}
use state_db.Db.{order}

abbrev pub no_objects : Tree DbObject
no_objects = record { root = none; fresh = 0; junk = λ a. 0 }

abbrev pub nothing : ℕ → Option DbObject
nothing q = none

pub no_objects-IsTree : IsTree order no_objects
no_objects-IsTree = record { fits = tt; zeroed = λ a. refl }

pub no_objects-Stands : Stands order no_objects.root nothing
unfolding Tree.get_root
no_objects-Stands q h = refl

pub found : get_implementor 5 ≡ some (plain (fixed 2))
unfolding get_implementor
found = refl

pub loaded : load_storage (plain (fixed 2)) (7 ∷ 1 ∷ 9 ∷ []) ≡ finished (2, bytes (7 ∷ 1 ∷ []))
unfolding load_storage load_from require_at_least
loaded = refl
