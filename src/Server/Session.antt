-- ===== src/Server/Session.antt =====
-- The loop of one connection (`start_read_message` and `handle_message` of
-- StateDatabase/connection.cpp): a preamble is read, the server handles its message, and the next
-- preamble is read.
use state_db.Base.{ℕ, zero, suc, Option, none, some, List, [], ◌++◌}
use state_db.Dtypes.{Run, finished, then_run}
use state_db.Server.{Server, Served, Response, handle_message}

-- The server, what was written, and what is left of the bytes.
abbrev pub Session : Type 0
Session = Run (Server × List (ℕ × Response) × List ℕ)

-- What follows a message: `next` serves the others, on the server that it left.
abbrev pub go_on :
    (Server → List ℕ → Session) → Server → List ℕ → Option (Served × List ℕ) → Session
go_on next s stream none = finished (s, [], stream)
go_on next s stream (some (r, rest)) =
    then_run r (λ (s', out).
      then_run (next s' rest) (λ (s'', more, left). finished (s'', out ++ more, left)))

-- Fuel bounds the messages. It ends at bytes that are not a whole message yet.
unfoldable pub serve : ℕ → ℕ → ℕ → Server → List ℕ → Session
unfolding handle_message
serve zero junk conn s stream = finished (s, [], stream)
serve (suc n) junk conn s stream =
    go_on (serve n junk conn) s stream (handle_message junk conn s stream)
