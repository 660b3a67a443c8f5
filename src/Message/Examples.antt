-- ===== src/Message/Examples.antt =====
-- Concrete inputs for the theorems about the messages.
use state_db.Base.{ℕ, ◌≡◌, true, some, List, [], ◌∷◌, ◌++◌, ◌==◌, if◌then◌else◌, arith}
use state_db.Message.{Preamble, read_preamble, write_preamble, get_flag, set_flag}
use state_db.Message.Flags.{get_flag-set_flag}
use state_db.Message.Framing.{read_preamble-write_preamble}

abbrev two_bytes : List ℕ
two_bytes = 65 ∷ 128 ∷ []

get_flag-set_flag_example :
    get_flag 8 (set_flag 11 true two_bytes) ≡ (if 11 == 8 then true else get_flag 8 two_bytes)
get_flag-set_flag_example = get_flag-set_flag 11 8 true two_bytes (ground arith) (omega arith)

abbrev get_five : Preamble
get_five = record { id = 1; flags = 0; size = 70000 }

read_preamble-write_preamble_example :
    read_preamble (write_preamble get_five ++ 97 ∷ []) ≡ some (get_five, 97 ∷ [])
read_preamble-write_preamble_example =
    read_preamble-write_preamble get_five (97 ∷ []) (omega arith) (omega arith)
