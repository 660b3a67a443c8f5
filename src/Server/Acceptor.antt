-- ===== src/Server/Acceptor.antt =====
-- How `asio_server` accepts and forgets connections (StateDatabase/asio_server.h, asio_server.cpp), as
-- the calls that the asio library makes. What `remote_endpoint` finds is an input: an address, or
-- nothing, where it throws an exception, which nothing catches. The lines that are logged are left out.
use state_db.Base.{
  ℕ, zero, suc, ◌+◌, Bool, true, false, Option, none, some, List, [], ◌∷◌, ◌++◌, not, ◌==◌,
  if◌then◌else◌,
}
pub mod Armed
pub mod Maps
pub mod Tracked
mod Examples

-- `accepts` are the connections that wait to be accepted, `waits` counts the waits of the timer,
-- `connections` is the map from the addresses, and `posted` the removals that wait to be run.
-- A connection is the number that `made` had when it was created.
pub record Acceptor : Type 0 where
  pub is_listening : Bool
  pub accepts : List ℕ
  pub waits : ℕ
  pub connections : List (ℕ × ℕ)
  pub posted : List ℕ
  pub made : ℕ

-- The state that the constructor leaves.
abbrev pub idle : Acceptor
idle = record {
  is_listening = false;
  accepts = [];
  waits = 0;
  connections = [];
  posted = [];
  made = 0;
}

-- `connections[id] = connection`.
unfoldable pub assign : ℕ → ℕ → List (ℕ × ℕ) → List (ℕ × ℕ)
assign id c [] = (id, c) ∷ []
assign id c ((i, d) ∷ rest) =
    let more = assign id c rest in if i == id then (i, c) ∷ rest else (i, d) ∷ more

unfoldable pub erase : ℕ → List (ℕ × ℕ) → List (ℕ × ℕ)
erase id [] = []
erase id ((i, d) ∷ rest) = let more = erase id rest in if i == id then rest else (i, d) ∷ more

unfoldable pub start_stats_task : Acceptor → Acceptor
start_stats_task a = record a { waits = a.waits + 1 }

unfoldable pub start_accept : Acceptor → Acceptor
start_accept a =
    if not a.is_listening
    then a
    else record a { accepts = a.accepts ++ a.made ∷ []; made = a.made + 1 }

unfoldable pub start_listening : Acceptor → Acceptor
unfolding start_accept start_stats_task
start_listening a =
    if a.is_listening then a else start_accept (start_stats_task (record a { is_listening = true }))

-- What `handle_accept` does once `init` has made the address. After `close` of a server that does not
-- listen the socket has no address any more.
abbrev pub with_address : ℕ → Bool → ℕ → Acceptor → Option Acceptor
with_address c true id a = some (start_accept a)
with_address c false id a =
    if not a.is_listening
    then none
    else some (start_accept (record a { connections = assign id c a.connections }))

-- `handle_accept` of a connection; the flag says whether there was an error.
unfoldable pub handle_accept : ℕ → Bool → Option ℕ → Acceptor → Option Acceptor
unfolding assign start_accept
handle_accept c failed none a = none
handle_accept c failed (some id) a = with_address c failed id a

unfoldable pub handle_connection_close : ℕ → Acceptor → Acceptor
handle_connection_close id a = record a { posted = a.posted ++ id ∷ [] }

unfoldable pub handle_connection_remove : ℕ → Acceptor → Acceptor
unfolding erase
handle_connection_remove id a = record a { connections = erase id a.connections }

unfoldable pub stats_printer : Acceptor → Acceptor
unfolding start_stats_task
stats_printer a = if not a.is_listening then a else start_stats_task a

-- What happens to the server: an accept is done, with an error or not; the connection of an address
-- is closed; the next posted removal is run; the timer has expired.
pub data Event : Type 0 where
  accept_done : Bool → Option ℕ → Event
  closed : ℕ → Event
  posted_runs timer_expires : Event

-- An operation of the library that nothing waits for is not done.
abbrev pub run_accept : Bool → Option ℕ → List ℕ → Acceptor → Option Acceptor
run_accept failed e [] a = some a
run_accept failed e (c ∷ rest) a = handle_accept c failed e (record a { accepts = rest })

abbrev pub run_posted : List ℕ → Acceptor → Acceptor
run_posted [] a = a
run_posted (id ∷ rest) a = handle_connection_remove id (record a { posted = rest })

abbrev pub run_timer : ℕ → Acceptor → Acceptor
run_timer zero a = a
run_timer (suc n) a = stats_printer (record a { waits = n })

unfoldable pub handle : Event → Acceptor → Option Acceptor
unfolding handle_accept handle_connection_close handle_connection_remove stats_printer
handle (accept_done failed e) a = run_accept failed e a.accepts a
handle (closed id) a = some (handle_connection_close id a)
handle posted_runs a = some (run_posted a.posted a)
handle timer_expires a = some (run_timer a.waits a)

abbrev pub run_from : (Acceptor → Option Acceptor) → Option Acceptor → Option Acceptor
run_from next none = none
run_from next (some a) = next a

-- `run`, as long as the library calls the server: `none` is an exception that leaves it.
unfoldable pub run : List Event → Acceptor → Option Acceptor
unfolding handle
run [] a = some a
run (e ∷ es) a = run_from (run es) (handle e a)
