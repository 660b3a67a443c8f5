-- ===== src/Server/Examples.antt =====
-- Concrete inputs for the theorems about the server.
use state_db.Base.{
  ℕ, ◌≡◌, refl, Option, none, some, List, [], ◌∷◌, ◌++◌, ◌==◌, if◌then◌else◌, map, done, arith,
  codes,
}
use state_db.Bpt.LeafList.{LeafList, size_mod}
use state_db.Bpt.LeafList
use state_db.Bpt.Node.{Node, leaf}
use state_db.Bpt.Node
use state_db.Bpt.Remove.Laws.{leaf_of}
use state_db.Bpt.Tree
use state_db.Bpt.Tree.{Tree}
use state_db.Bpt.Tree.Refines.{IsTree, Stands}
use state_db.Db.{order, make_hash}
use state_db.Db.Laws.{stored}
use state_db.Db.Samples.{no_objects, nothing, no_objects-IsTree, no_objects-Stands, found, loaded}
use state_db.Dispatcher
use state_db.Dtypes.{fixed, finished, insufficient, load_from, require_at_least}
use state_db.Message.{request_delete}
use state_db.Object.{DbObject, plain, bytes, load_storage}
use state_db.Server.{
  Server, set_handler, get_handler, delete_handler, dispatcher, error_response, key_not_found,
  handle_message, get_all_handler, Response,
}
use state_db.Server.Refused.{no_value, set_handler-IsRefused}
use state_db.Server.Listing.{Answers}
use state_db.Server.Listed.{Write, IsAccepted, set_each, all_written, get_all_handler-set_each}
use state_db.Bpt.Iterate.Writes.{Shows}
use state_db.Server.Removed.{told, get_handler-delete_handler}
use state_db.Server.Runs.{value_message}
use state_db.Server.Store.{get_handler-set_handler}
use state_db.Server.Stream.{Request, ping, get, put, message_of, handle_message-ignored}

abbrev ab : List ℕ
ab = 97 ∷ 98 ∷ []

-- Two connections, of which the first sends the messages.
abbrev start : Server
start = record { tree = no_objects; connections = 1 ∷ 2 ∷ [] }

get_handler-set_handler_example :
    (t' : Tree DbObject) × (text : List ℕ) × (used : ℕ) × (set_handler 1 start
        (ab ++ 0 ∷ 5 ∷ 7 ∷ 1 ∷ 9 ∷ [])
      ≡ finished
          (record start { tree = t' }, map (λ c. (c, value_message ab 5 text)) start.connections))
    × IsTree order t'
    × Stands order t'.root
        (λ q. if q == make_hash ab then some (stored ab 5 (bytes (7 ∷ 1 ∷ []))) else nothing q)
    × (load_storage (plain (fixed 2)) text ≡ finished (used, bytes (7 ∷ 1 ∷ [])))
    × ((asker : ℕ)
        → get_handler asker (record start { tree = t' }) (ab ++ 0 ∷ [])
          ≡ finished (record start { tree = t' }, (asker, value_message ab 5 text) ∷ []))
get_handler-set_handler_example =
    get_handler-set_handler 1 start ab 5 (plain (fixed 2)) (7 ∷ 1 ∷ 9 ∷ []) 2 (bytes (7 ∷ 1 ∷ []))
      nothing (ground arith) (ground arith) found loaded no_objects-IsTree no_objects-Stands

too_few : load_storage (plain (fixed 2)) (7 ∷ []) ≡ insufficient
unfolding load_storage load_from require_at_least
too_few = refl

set_handler-IsRefused_example :
    set_handler 1 start (ab ++ 0 ∷ 5 ∷ 7 ∷ [])
    ≡ finished (start, (1, error_response (codes "Not enough space for VALUE")) ∷ [])
set_handler-IsRefused_example =
    set_handler-IsRefused 1 start (ab ++ 0 ∷ 5 ∷ 7 ∷ []) (codes "Not enough space for VALUE")
      (no_value ab 5 (plain (fixed 2)) (7 ∷ []) (ground arith) found too_few)

-- A leaf with the hash of "ab" and another one.
abbrev object : DbObject
object = stored ab 5 (bytes (7 ∷ 1 ∷ []))

abbrev pair_list : LeafList DbObject
pair_list = record { root = (4, object) ∷ (5863208, object) ∷ []; size = 2 }

abbrev one_leaf : Node DbObject
one_leaf = leaf 0 pair_list none

one_leaf-IsTree : IsTree order (record { root = some one_leaf; fresh = 1; junk = λ a. 0 })
one_leaf-IsTree = record {
  fits = (record {
    valid = record { sorted = ground arith; counted = refl };
    within = ground arith;
    small = omega arith;
  });
  zeroed = λ a. refl;
}

abbrev held : ℕ → Option DbObject
held q = LeafList.get_val_ptr q pair_list

one_leaf-Stands : Stands order (some one_leaf) held
unfolding Tree.get_root Node.get_val_ptr
one_leaf-Stands q h = refl

leads : leaf_of (make_hash ab) one_leaf ≡ done pair_list
unfolding leaf_of
leads = refl

get_handler-delete_handler_example :
    (t' : Tree DbObject) × (delete_handler 1
        (record {
          tree = record { root = some one_leaf; fresh = 1; junk = λ a. 0 };
          connections = 1 ∷ 2 ∷ [];
        })
        (ab ++ 0 ∷ [])
      ≡ finished (
        record { tree = t'; connections = 1 ∷ 2 ∷ [] },
        told 1 ab (1 ∷ 2 ∷ []) (held (make_hash ab)),
      ))
    × IsTree order t'
    × Stands order t'.root (λ q. if q == make_hash ab then none else held q)
    × ((asker : ℕ)
        → get_handler asker (record { tree = t'; connections = 1 ∷ 2 ∷ [] }) (ab ++ 0 ∷ [])
          ≡ finished
              (record { tree = t'; connections = 1 ∷ 2 ∷ [] }, (asker, key_not_found ab) ∷ []))
get_handler-delete_handler_example =
    get_handler-delete_handler 1 ab (1 ∷ 2 ∷ []) one_leaf 1 (λ a. 0) held pair_list (ground arith)
      one_leaf-IsTree one_leaf-Stands leads (omega arith)

-- A client that sets a value, asks for it and pings.
abbrev wishes : List Request
wishes = put (ab ++ 0 ∷ 5 ∷ 7 ∷ 1 ∷ []) ∷ get (ab ++ 0 ∷ []) ∷ ping ∷ []

no_delete : Dispatcher.call request_delete dispatcher ≡ none
unfolding Dispatcher.call dispatcher Dispatcher.register_handler
no_delete = refl

handle_message-ignored_example :
    handle_message 0 1 start (message_of request_delete (ab ++ 0 ∷ []) ++ [])
    ≡ some (finished (start, []), (ab ++ 0 ∷ []) ++ [])
handle_message-ignored_example =
    handle_message-ignored 0 1 start request_delete (ab ++ 0 ∷ []) [] (omega arith) (omega arith)
      no_delete

-- Two keys are set, one of them twice.
abbrev write : List ℕ → Write
write key = record {
  key = key;
  dt = 5;
  type = plain (fixed 2);
  src = 7 ∷ 1 ∷ 9 ∷ [];
  count = 2;
  value = bytes (7 ∷ 1 ∷ []);
}

abbrev three_writes : List Write
three_writes = write ab ∷ write (99 ∷ []) ∷ write ab ∷ []

get_all_handler-set_each_example :
    (s : Server) × (out : List (ℕ × Response)) × (ps : List (ℕ × DbObject)) × (rs : List
      (ℕ × Response))
    × (set_each 1 three_writes (record {
      tree = record { root = none; fresh = 0; junk = λ a. 0 };
      connections = 1 ∷ 2 ∷ [];
    })
        ≡ finished (s, out))
    × (get_all_handler 2 s ≡ finished (s, rs))
    × Shows ps (all_written three_writes (λ q. none))
    × Answers 2 ps rs
get_all_handler-set_each_example =
    let a : IsAccepted (write ab) = record {
      nonzero = ground arith;
      bytes = ground arith;
      known = found;
      loads = loaded;
    } in
    let c : IsAccepted (write (99 ∷ [])) = record {
      nonzero = ground arith;
      bytes = ground arith;
      known = found;
      loads = loaded;
    } in
    get_all_handler-set_each 1 2 0 (λ a. 0) (1 ∷ 2 ∷ []) three_writes (λ a. refl) (a, (c, (a, tt)))
