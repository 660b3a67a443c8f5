-- ===== src/File/Wrapper/Examples.antt =====
-- Concrete inputs for the theorems about the wrapper of the file.
use state_db.Base.{◌≡◌, refl, true, false, none, [], ◌∷◌, arith}
use state_db.File.{DbHeader, success, wild_delete}
use state_db.File.Wrapper.{null, DbWrapper, load_data}
use state_db.File.Wrapper.Loading.{
  IsUsable, Keeps, IsDefault, Loads, Start, load_all, load_data-load_all, load_data-wild_delete,
}

-- A wrapper as it is constructed, where no file stands at the path.
abbrev new_wrapper : DbWrapper
new_wrapper = record { file = none; stream = null; db_ = null }

new_wrapper-IsUsable : IsUsable new_wrapper
new_wrapper-IsUsable = record { stream = tt; database = tt }

abbrev first_start : Start
first_start = record { restarted = true; truncates = false; minimal = 312; held = 0 }

abbrev second_start : Start
second_start = record { restarted = false; truncates = true; minimal = 297; held = 0 }

load_data-load_all_example :
    (h : DbHeader) × IsDefault true h
    × (w' : DbWrapper) × (load_data true 0 true false 312 new_wrapper ≡ success w')
    × Keeps true h w'
    × Loads true h (load_all true (second_start ∷ first_start ∷ []) w')
load_data-load_all_example =
    load_data-load_all true first_start (second_start ∷ first_start ∷ []) new_wrapper
      new_wrapper-IsUsable (omega arith) (refl, (refl, (refl, tt)))

load_data-wild_delete_example : load_data false 140_000 true true 312 new_wrapper ≡ wild_delete
load_data-wild_delete_example =
    load_data-wild_delete false true 140_000 312 new_wrapper new_wrapper-IsUsable (omega arith)
