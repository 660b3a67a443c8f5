-- ===== src/Object/Examples.antt =====
-- Concrete inputs for the theorems about `db_object`.
use state_db.Base.{◌≡◌, refl, [], ◌∷◌, arith}
use state_db.Dtypes.{finished, blob, load_from, require_at_least}
use state_db.Dtypes.Loaded.{load_from-IsLoaded}
use state_db.Dtypes.RoundTrip.{IsLoaded}

one_byte : load_from blob (1 ∷ 0 ∷ 0 ∷ 0 ∷ 7 ∷ 8 ∷ []) ≡ finished (5, 1 ∷ 0 ∷ 0 ∷ 0 ∷ 7 ∷ [])
unfolding load_from require_at_least
one_byte = refl

load_from-IsLoaded_example : IsLoaded blob 5 (1 ∷ 0 ∷ 0 ∷ 0 ∷ 7 ∷ [])
load_from-IsLoaded_example =
    load_from-IsLoaded blob (1 ∷ 0 ∷ 0 ∷ 0 ∷ 7 ∷ 8 ∷ []) 5 (1 ∷ 0 ∷ 0 ∷ 0 ∷ 7 ∷ []) (ground arith)
      one_byte
