-- ===== src/Server/Acceptor/Armed.antt =====
-- A server that listens always waits for the next connection (StateDatabase/asio_server.cpp).
use state_db.Base.{
  ℕ, zero, suc, ◌+◌, ◌≡◌, refl, Bool, true, false, none, some, List, [], ◌∷◌, ◌++◌, arith,
}
use state_db.Server.Acceptor.{
  Acceptor, idle, assign, erase, start_accept, start_listening, handle_accept, stats_printer,
  handle_connection_close, handle_connection_remove, Event, accept_done, closed, posted_runs,
  timer_expires, run_posted, run_timer, handle, run,
}

-- The server listens, one connection waits to be accepted, the newest that was made, and the timer
-- is waited for once.
pub record IsArmed (a : Acceptor) : Type 0 where
  pub listening : a.is_listening ≡ true
  pub next : ℕ
  pub accepting : a.accepts ≡ next ∷ []
  pub newest : a.made ≡ next + 1
  pub waiting : a.waits ≡ 1

-- Where an accept is done, the socket has an address.
abbrev pub HasAddress : Event → Type 0
HasAddress (accept_done failed none) = ⊥
HasAddress (accept_done failed (some id)) = Unit {0}
HasAddress (closed id) = Unit {0}
HasAddress posted_runs = Unit {0}
HasAddress timer_expires = Unit {0}

abbrev pub HaveAddresses : List Event → Type 0
HaveAddresses [] = Unit {0}
HaveAddresses (e ∷ es) = HasAddress e × HaveAddresses es

pub start_listening-IsArmed : IsArmed (start_listening idle)
unfolding start_listening
start_listening-IsArmed = record {
  listening = refl;
  next = 0;
  accepting = refl;
  newest = refl;
  waiting = refl;
}

-- What is left of an armed server once its accept is done, and the next one is waited for.
start_accept-IsArmed :
    (a : Acceptor) → a.is_listening ≡ true → a.accepts ≡ [] → a.waits ≡ 1 → IsArmed (start_accept a)
unfolding start_accept
start_accept-IsArmed a l e w =
    rw l (record {
      listening = refl;
      next = a.made;
      accepting = rw e refl;
      newest = refl;
      waiting = w;
    })

with_address-IsArmed :
    (c : ℕ) (failed : Bool) (id : ℕ) (a : Acceptor)
    → a.is_listening ≡ true
    → a.accepts ≡ []
    → a.waits ≡ 1
    → (a' : Acceptor) × (handle_accept c failed (some id) a ≡ some a') × IsArmed a'
unfolding handle_accept
with_address-IsArmed c true id a l e w = (start_accept a, refl, start_accept-IsArmed a l e w)
with_address-IsArmed c false id a l e w =
    let b : Acceptor = record a { connections = assign id c a.connections } in
    (start_accept b, rw l refl, start_accept-IsArmed b l e w)

-- A change of the map or of the removals.
with_maps :
    (a : Acceptor) (cs : List (ℕ × ℕ)) (ids : List ℕ)
    → IsArmed a
    → IsArmed (record a { connections = cs; posted = ids })
with_maps a cs ids i = record {
  listening = i.listening;
  next = i.next;
  accepting = i.accepting;
  newest = i.newest;
  waiting = i.waiting;
}

run_posted-IsArmed : (ids : List ℕ) (a : Acceptor) → IsArmed a → IsArmed (run_posted ids a)
unfolding handle_connection_remove
run_posted-IsArmed [] a i = i
run_posted-IsArmed (id ∷ ids) a i = with_maps a (erase id a.connections) ids i

run_timer-IsArmed : (n : ℕ) (a : Acceptor) → n ≡ 1 → IsArmed a → IsArmed (run_timer n a)
unfolding stats_printer
run_timer-IsArmed zero a e i = absurd (omega (arith, e))
run_timer-IsArmed (suc n) a e i = rw i.listening (record {
  listening = refl;
  next = i.next;
  accepting = i.accepting;
  newest = i.newest;
  waiting = omega (arith, e);
})

-- An event whose accepts have an address throws no exception, and leaves the server armed.
pub handle-IsArmed :
    (e : Event) (a : Acceptor)
    → HasAddress e
    → IsArmed a
    → (a' : Acceptor) × (handle e a ≡ some a') × IsArmed a'
unfolding handle handle_connection_close
handle-IsArmed (accept_done failed none) a h i = absurd h
handle-IsArmed (accept_done failed (some id)) a h i =
    let (a', e, i') =
      with_address-IsArmed i.next failed id (record a { accepts = [] }) i.listening refl
        i.waiting in
    (a', rw i.accepting e, i')
handle-IsArmed (closed id) a h i = (_, refl, with_maps a a.connections (a.posted ++ id ∷ []) i)
handle-IsArmed posted_runs a h i = (_, refl, run_posted-IsArmed a.posted a i)
handle-IsArmed timer_expires a h i = (_, refl, run_timer-IsArmed a.waits a i.waiting i)

run_lem :
    (es : List Event) (a : Acceptor)
    → HaveAddresses es
    → IsArmed a
    → (a' : Acceptor) × (run es a ≡ some a') × IsArmed a'
unfolding run
run_lem [] a h i = (a, refl, i)
run_lem (e ∷ es) a h i =
    let (b, x, j) = handle-IsArmed e a h.0 i in let (c, y, k) = run_lem es b h.1 j in (c, rw x y, k)

-- Whatever accepts, closings, removals and timers follow the start of a server, with an error or
-- without, as long as each accepted socket has an address: no exception is thrown, the server still
-- listens, exactly one connection waits to be accepted, the newest that was made, and the timer is
-- waited for exactly once.
pub run-IsArmed :
    (es : List Event)
    → HaveAddresses es
    → (a : Acceptor) × (run es (start_listening idle) ≡ some a) × IsArmed a
run-IsArmed es h = run_lem es (start_listening idle) h start_listening-IsArmed
