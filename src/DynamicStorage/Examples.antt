-- ===== src/DynamicStorage/Examples.antt =====
-- A sequence of calls on a storage, as a connection makes them (StateDatabase/connection.cpp).
use state_db.Base.{◌≡◌, refl, some, List, [], ◌∷◌}
use state_db.Dtypes.{finished}
use state_db.DynamicStorage.{DynamicStorage, CppType, make, get_asio_buffer}
use state_db.DynamicStorage.Contents.{contents}
use state_db.DynamicStorage.Operations.{
  Call, allocates, allocates_copy, constructs, sets_binary, deallocates, apply_all,
  apply_all-expect_all,
}

abbrev word : CppType
word = record { name = 106 ∷ []; size = 4 }

-- A word is read and dropped, and then bytes are written over others.
abbrev calls : List Call
calls =
    allocates word
    ∷ constructs word (1 ∷ 2 ∷ 3 ∷ 4 ∷ [])
    ∷ deallocates
    ∷ allocates_copy 3 (7 ∷ 8 ∷ 9 ∷ 10 ∷ [])
    ∷ sets_binary (5 ∷ 6 ∷ []) 2
    ∷ []

apply_all-expect_all_example :
    (d : DynamicStorage) × (apply_all calls make ≡ finished d)
    × (contents d ≡ some (66 ∷ 73 ∷ 78 ∷ 65 ∷ 82 ∷ 89 ∷ [], 5 ∷ 6 ∷ 9 ∷ []))
    × (get_asio_buffer d ≡ finished (5 ∷ 6 ∷ 9 ∷ []))
apply_all-expect_all_example =
    apply_all-expect_all calls (some (66 ∷ 73 ∷ 78 ∷ 65 ∷ 82 ∷ 89 ∷ [], 5 ∷ 6 ∷ 9 ∷ [])) refl
