-- ===== src/Server.antt =====
-- The handlers of `asio_server` (StateDatabase/asio_server.h, asio_server.cpp) on the database and
-- the connections. What a handler asks of a connection is a `Response`: to write the preamble, and,
-- when that is written, the bytes, which the completion of the first write requests. The responses
-- of a handler are in the order in which it makes those requests. On the wire the bytes of a response
-- follow its preamble, but the responses change their order:
-- several preambles to one connection wait in its queue, whose front goes to the back whenever the
-- bytes of another response are written. Of a listing of three objects, the third comes second.
-- Sockets and logging are left out.
use state_db.Base.{
  ℕ, zero, suc, ◌+◌, ◌-◌, ◌%◌, ◌^◌, Bool, true, false, Option, none, some, List, [], ◌∷◌, ◌++◌, ltb,
  ◌==◌, if◌then◌else◌, length, take, drop, map, Outcome, done, crash, hang, astray, codes,
}
use state_db.Dtypes.{
  Run, finished, insufficient, unknown_type, overrun, stray, then_run, text_length, word_mod,
}
use state_db.Object
use state_db.Object.{DbObject, has_type}
use state_db.Bpt.Tree.{Tree}
use state_db.Bpt.Iterate.{iterate}
use state_db.Db.{make_hash, get_object, set_value, delete_object}
use state_db.Dispatcher
use state_db.Dispatcher.{Dispatcher}
use state_db.Message.{
  Preamble, read_preamble, as_cstr, response_key_update, response_key_deleted, response_pong,
  response_error, request_get, request_ping, request_set, request_get_all, byte_at,
}
pub mod Runs
pub mod Store
pub mod Refused
pub mod Removed
pub mod Session
pub mod Stream
pub mod Listing
pub mod Acceptor
pub mod Listed
mod Examples

-- A preamble whose write is requested, and `body`, whose write is requested on its completion.
pub record Response : Type 0 where
  pub id : ℕ
  pub size : ℕ
  pub body : List ℕ

-- `connections` are the keys of the map.
pub record Server : Type 0 where
  pub tree : Tree DbObject
  pub connections : List ℕ

-- A handler's result: the server, and what is requested of which connection.
abbrev pub Served : Type 0
Served = Run (Server × List (ℕ × Response))

-- A null dereference is an access outside of memory; the rest is the model's own limit.
abbrev pub from_outcome : {A : Type 0} → Outcome A → Run A
from_outcome (done a) = finished a
from_outcome crash = overrun
from_outcome hang = stray
from_outcome astray = stray

-- `async_write_error`.
unfoldable pub error_response : List ℕ → Response
error_response message = record {
  id = response_error;
  size = (length message + 1) % word_mod;
  body = message ++ 0 ∷ [];
}

-- `send_key_not_found`.
unfoldable pub key_not_found : List ℕ → Response
key_not_found key = record {
  id = response_key_deleted;
  size = (length key + 1) % word_mod;
  body = key ++ 0 ∷ [];
}

-- `send_value` of an object: the preamble that it requests to write, and what the completion of that
-- will request, which is made at once and kept: the key with its zero, the type, and the value.
unfoldable pub value_response : DbObject → Run Response
value_response obj = then_run (Object.object_size obj) (λ size.
    then_run (Object.write_to size obj) (λ value. finished (record {
      id = response_key_update;
      size = (1 + size + (length obj.key + 1)) % word_mod;
      body = obj.key ++ 0 ∷ obj.dtype ∷ value;
    })))

-- `send_value` of a key.
abbrev pub found_response : List ℕ → Option DbObject → Run Response
found_response key none = finished (key_not_found key)
found_response key (some obj) = value_response obj

unfoldable pub send_value : List ℕ → Server → Run Response
unfolding make_hash get_object key_not_found value_response
send_value key s = then_run (from_outcome (get_object (make_hash key) s.tree)) (found_response key)

-- `apply_all_connections`, for a handler that requests the same of each connection.
unfoldable pub apply_all_connections : List ℕ → Run Response → Run (List (ℕ × Response))
apply_all_connections [] h = finished []
apply_all_connections (c ∷ cs) h =
    let more = apply_all_connections cs h in
    then_run h (λ r. then_run more (λ rs. finished ((c, r) ∷ rs)))

unfoldable pub get_handler : ℕ → Server → List ℕ → Served
unfolding as_cstr send_value
get_handler conn s buffer =
    then_run (as_cstr buffer)
      (λ key. then_run (send_value key s) (λ r. finished (s, (conn, r) ∷ [])))

abbrev pub refuse : ℕ → Server → List ℕ → Served
refuse conn s message = finished (s, (conn, error_response message) ∷ [])

-- The `catch` of `set_handler`, around the tree that `set_value` left.
abbrev pub caught : ℕ → Server → Run (Outcome (Tree DbObject)) → (Tree DbObject → Served) → Served
caught conn s (finished t) go = then_run (from_outcome t) go
caught conn s insufficient go = refuse conn s (codes "Not enough space for VALUE")
caught conn s unknown_type go = unknown_type
caught conn s overrun go = overrun
caught conn s stray go = stray

-- What `set_handler` does once the value is stored: the value goes to every connection.
unfoldable pub broadcast_value : List ℕ → Server → Served
unfolding send_value apply_all_connections
broadcast_value key s =
    then_run (apply_all_connections s.connections (send_value key s)) (λ rs. finished (s, rs))

-- `set_handler`, from where the key was found: `size` is its length, `dt` the type.
unfoldable pub store_value : ℕ → Server → List ℕ → ℕ → List ℕ → Served
unfolding set_value broadcast_value
store_value conn s key dt src =
    caught conn s (set_value key dt src s.tree) (λ t. broadcast_value key (record s { tree = t }))

unfoldable pub set_handler : ℕ → Server → List ℕ → Served
unfolding text_length has_type store_value
set_handler conn s buffer =
    let size = text_length buffer in
    let dt = byte_at buffer (size + 1) in
    if ltb (length buffer - size) 2
    then refuse conn s (codes "You have sent not enough data for DTYPE")
    else if has_type dt
    then store_value conn s (take size buffer) dt (drop (size + 2) buffer)
    else refuse conn s (codes "Unknown type")

abbrev pub deleted_responses : ℕ → List ℕ → List ℕ → Bool → Run (List (ℕ × Response))
deleted_responses conn key cs true = apply_all_connections cs (finished (key_not_found key))
deleted_responses conn key cs false = finished ((conn, key_not_found key) ∷ [])

-- `delete_handler`, which `init_dispatcher` does not register.
unfoldable pub delete_handler : ℕ → Server → List ℕ → Served
unfolding as_cstr make_hash delete_object apply_all_connections
delete_handler conn s buffer = then_run (as_cstr buffer) (λ key.
    then_run (from_outcome (delete_object (make_hash key) s.tree)) (λ (b, t).
      then_run (deleted_responses conn key s.connections b)
        (λ rs. finished (record s { tree = t }, rs))))

-- The callback of `get_all_handler`, for each object in turn: the requests in the order in which they
-- are made, not in that of the writes.
unfoldable pub send_each : ℕ → Server → List (ℕ × DbObject) → Run (List (ℕ × Response))
unfolding send_value
send_each conn s [] = finished []
send_each conn s ((h, obj) ∷ rest) =
    let more = send_each conn s rest in
    then_run (send_value obj.key s) (λ r. then_run more (λ rs. finished ((conn, r) ∷ rs)))

unfoldable pub get_all_handler : ℕ → Server → Served
unfolding iterate send_each
get_all_handler conn s =
    then_run (from_outcome (iterate s.tree))
      (λ objects. then_run (send_each conn s objects) (λ rs. finished (s, rs)))

-- `make_pong_message` sets no size: it is what the memory held.
unfoldable pub ping_handler : ℕ → ℕ → Server → Served
ping_handler junk conn s =
    finished (s, (conn, record { id = response_pong; size = junk; body = [] }) ∷ [])

pub data Handler : Type 0 where
  ping_h get_h set_h get_all_h : Handler

-- `init_dispatcher`.
unfoldable pub dispatcher : Dispatcher Handler
unfolding Dispatcher.register_handler
dispatcher = Dispatcher.register_handler request_get_all get_all_h (
    Dispatcher.register_handler request_set set_h (
      Dispatcher.register_handler request_get get_h
        (Dispatcher.register_handler request_ping ping_h [])))

-- `process_message`: the body is read before the inner handler is called. `none` is a body that has
-- not arrived yet.
abbrev pub with_body : ℕ → List ℕ → (List ℕ → Served) → Option (Served × List ℕ)
with_body size rest h =
    if ltb (length rest) size then none else some (h (take size rest), drop size rest)

unfoldable pub run_handler :
    ℕ → Option Handler → ℕ → Server → Preamble → List ℕ → Option (Served × List ℕ)
unfolding ping_handler get_handler set_handler get_all_handler
run_handler junk none conn s m rest = some (finished (s, []), rest)
run_handler junk (some ping_h) conn s m rest = some (ping_handler junk conn s, rest)
run_handler junk (some get_all_h) conn s m rest = some (get_all_handler conn s, rest)
run_handler junk (some get_h) conn s m rest = with_body m.size rest (get_handler conn s)
run_handler junk (some set_h) conn s m rest = with_body m.size rest (set_handler conn s)

-- `handle_message` of a connection and of the server: the next preamble of what a client has sent,
-- the handler for it, and what is left of the bytes. A command without a handler is ignored.
abbrev pub dispatch : ℕ → ℕ → Server → Option (Preamble × List ℕ) → Option (Served × List ℕ)
dispatch junk conn s none = none
dispatch junk conn s (some (m, rest)) =
    run_handler junk (Dispatcher.call m.id dispatcher) conn s m rest

unfoldable pub handle_message : ℕ → ℕ → Server → List ℕ → Option (Served × List ℕ)
unfolding dispatcher Dispatcher.call read_preamble run_handler
handle_message junk conn s stream = dispatch junk conn s (read_preamble stream)
