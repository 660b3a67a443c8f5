-- ===== src/Connection/Examples.antt =====
-- Concrete inputs for the theorems about `tcp_connection`.
use state_db.Base.{ℕ, zero, suc, ◌+◌, ◌≡◌, refl, Bool, true, false, List, [], ◌∷◌, ◌++◌, ◌||◌}
use state_db.Connection.{
  write_raw, write_message, Operation, Side, init, perform, perform_all, complete, start, request,
  sent, handle_write_operation,
}
use state_db.Connection.Drain.{drain, drain-IsReady}
use state_db.Connection.Queue.{IsReady, Steps-IsReady}
use state_db.Connection.Greeting
use state_db.Connection.Greeting.{
  Link, new_link, hello_read, preamble_read, started, greeted, told, IsGuarded, Reaches-IsGuarded,
}
use state_db.Message.{Preamble, valid_hello}
use state_db.Connection.Order.{served, complete_overtaken, started-complete}

-- A message of five bytes after which nothing is asked for, bytes without a header, and a message
-- whose handler writes the bytes.
abbrev message : Operation
message = record { kind = write_message; size = 5; next = 0; required = true }

abbrev bytes : Operation
bytes = record { kind = write_raw; size = 9; next = 0; required = true }

abbrev talkative : Operation
talkative = record { kind = write_message; size = 5; next = 1; required = true }

abbrev handlers : ℕ → Bool → List Operation
handlers zero failed = []
handlers (suc n) failed = bytes ∷ []

abbrev two_waiting : Side
two_waiting = record {
  busy = true;
  pending = message ∷ bytes ∷ [];
  started = talkative ∷ [];
  closed = false;
}

two_waiting-IsReady : IsReady two_waiting
two_waiting-IsReady = record { idle = λ e. cc; real = (refl, (refl, tt)) }

Steps-IsReady_example :
    IsReady
      (handle_write_operation handlers talkative false (perform message (perform talkative init)))
Steps-IsReady_example =
    Steps-IsReady handlers
      (handle_write_operation handlers talkative false (perform message (perform talkative init)))
      (sent talkative false (perform message (perform talkative init))
        (request message (perform talkative init) (request talkative init start)))

complete_overtaken_example :
    served (complete handlers talkative false two_waiting)
    ≡ ((talkative ∷ []) ++ bytes ∷ []) ++ bytes ∷ ([] ++ message ∷ [])
complete_overtaken_example =
    complete_overtaken handlers talkative false two_waiting bytes message bytes [] refl
      two_waiting-IsReady refl refl refl

started-complete_example :
    (complete handlers talkative false two_waiting).started ≡ (talkative ∷ []) ++ bytes ∷ []
started-complete_example =
    started-complete handlers talkative false two_waiting bytes refl refl refl

-- The preamble and the body of the values of a listing, and the handlers that write the bodies.
abbrev preamble : ℕ → Operation
preamble n = record { kind = write_message; size = 5; next = suc n; required = true }

abbrev body : ℕ → Operation
body n = record { kind = write_raw; size = 9 + n; next = 0; required = true }

abbrev bodies : ℕ → Bool → List Operation
bodies zero failed = []
bodies (suc n) failed = body n ∷ []

-- Of three values that are requested in order, the third is written before the second.
abbrev written : List Operation
written = preamble 0 ∷ body 0 ∷ preamble 2 ∷ body 2 ∷ preamble 1 ∷ body 1 ∷ []

listing_order :
    (drain bodies written (perform_all (preamble 0 ∷ preamble 1 ∷ preamble 2 ∷ []) init)).started
    ≡ written
unfolding drain perform_all
listing_order = refl

drain-IsReady_example : drain handlers (message ∷ message ∷ bytes ∷ []) two_waiting ≡ record {
  busy = false;
  pending = [];
  started = (talkative ∷ []) ++ message ∷ bytes ∷ [];
  closed = false;
}
drain-IsReady_example =
    drain-IsReady handlers message two_waiting two_waiting-IsReady refl (refl, (refl, (refl, tt)))

-- A connection that is greeted and sent a message.
abbrev hello : List ℕ
hello = 72 ∷ 101 ∷ 76 ∷ 108 ∷ 79 ∷ 1 ∷ []

abbrev ping : Preamble
ping = record { id = 3; flags = 0; size = 0 }

abbrev greeted_link : Link
greeted_link = Greeting.received_hello 1 hello (record (Greeting.start new_link) { reads = [] })

asked : (Greeting.start new_link).reads ≡ hello_read ∷ []
unfolding Greeting.start
asked = refl

asked_next : greeted_link.reads ≡ preamble_read ∷ []
unfolding Greeting.start Greeting.received_hello
asked_next = refl

Reaches-IsGuarded_example :
    IsGuarded
      (false || valid_hello 1 hello)
      (Greeting.handle_message false ping (record greeted_link { reads = [] }))
Reaches-IsGuarded_example =
    Reaches-IsGuarded 1 (false || valid_hello 1 hello)
      (Greeting.handle_message false ping (record greeted_link { reads = [] }))
      (told (false || valid_hello 1 hello) false ping greeted_link []
        (greeted false hello (Greeting.start new_link) [] started asked) asked_next)
