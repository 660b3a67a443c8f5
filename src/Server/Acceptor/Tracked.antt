-- ===== src/Server/Acceptor/Tracked.antt =====
-- Which connections the server knows (StateDatabase/asio_server.cpp).
use state_db.Base.{
  ℕ, zero, suc, ◌≡◌, refl, Bool, true, false, Option, none, some, List, [], ◌∷◌, ◌==◌, ◌||◌,
  if◌then◌else◌, arith, sym, ◌∙◌, of_some,
}
use state_db.Server.Acceptor.{
  Acceptor, idle, assign, start_accept, start_listening, handle_accept, stats_printer,
  handle_connection_close, handle_connection_remove, Event, accept_done, closed, posted_runs,
  timer_expires, run_posted, run_timer, handle, run,
}
use state_db.Server.Acceptor.Armed.{
  IsArmed, HaveAddresses, HasAddress, handle-IsArmed, start_listening-IsArmed,
}
use state_db.Server.Acceptor.Maps.{
  member, knows, AreApart, knows-assign, knows-erase, AreApart-assign, AreApart-erase,
  member-append,
}

-- What one event says of an address.
abbrev pub after : Event → (ℕ → Bool) → ℕ → Bool
after (accept_done true e) old id = old id
after (accept_done false none) old id = old id
after (accept_done false (some i)) old id = (i == id) || old id
after (closed i) old id = if i == id then false else old id
after posted_runs old id = old id
after timer_expires old id = old id

-- The connection of the address was accepted, and has not been closed since.
abbrev pub is_open : List Event → (ℕ → Bool) → ℕ → Bool
is_open [] old id = old id
is_open (e ∷ es) old id = is_open es (after e old) id

-- No address is accepted again while its removal is posted.
abbrev pub IsTimely : Event → Acceptor → Type 0
IsTimely (accept_done failed none) a = Unit {0}
IsTimely (accept_done failed (some id)) a = member id a.posted ≡ false
IsTimely (closed id) a = Unit {0}
IsTimely posted_runs a = Unit {0}
IsTimely timer_expires a = Unit {0}

-- The map and the posted removals, against the addresses whose connection is open.
pub record IsTracked (a : Acceptor) (open_ : ℕ → Bool) : Type 0 where
  pub apart : AreApart a.connections
  pub known : (id : ℕ) → open_ id ≡ true → knows id a.connections ≡ true
  pub leaving :
      (id : ℕ) → knows id a.connections ≡ true → open_ id ≡ false → member id a.posted ≡ true
  pub gone : (id : ℕ) → member id a.posted ≡ true → open_ id ≡ false

accepted-IsTracked :
    (i c : ℕ) (a : Acceptor) (o : ℕ → Bool)
    → member i a.posted ≡ false
    → IsTracked a o
    → IsTracked (record a { connections = assign i c a.connections }) (λ id. (i == id) || o id)
accepted-IsTracked i c a o m t = record {
  apart = AreApart-assign i c a.connections t.apart;
  known = λ id e. ground (arith, knows-assign id i c a.connections, t.known id);
  leaving = λ id k e. ground (arith, knows-assign id i c a.connections, t.leaving id);
  gone = λ id e. ground (arith, t.gone id, m);
}

closed-IsTracked :
    (i : ℕ) (a : Acceptor) (o : ℕ → Bool)
    → IsTracked a o
    → IsTracked (handle_connection_close i a) (λ id. if i == id then false else o id)
unfolding handle_connection_close
closed-IsTracked i a o t = record {
  apart = t.apart;
  known = λ id e. ground (arith, t.known id);
  leaving = λ id k e. ground (arith, member-append id i a.posted, t.leaving id);
  gone = λ id e. ground (arith, member-append id i a.posted, t.gone id);
}

removed-IsTracked :
    (i : ℕ) (ids : List ℕ) (a : Acceptor) (o : ℕ → Bool)
    → a.posted ≡ i ∷ ids
    → IsTracked a o
    → IsTracked (handle_connection_remove i (record a { posted = ids })) o
unfolding handle_connection_remove
removed-IsTracked i ids a o e t = record {
  apart = AreApart-erase i a.connections t.apart;
  known =
      λ id x. ground (arith, knows-erase id i a.connections t.apart, t.known id, rw e at t.gone id);
  leaving = λ id k x. ground (arith, knows-erase id i a.connections t.apart, rw e at t.leaving id);
  gone = λ id x. ground (arith, rw e at t.gone id);
}

start_accept-IsTracked :
    (a : Acceptor) (o : ℕ → Bool)
    → a.is_listening ≡ true
    → IsTracked a o
    → IsTracked (start_accept a) o
unfolding start_accept
start_accept-IsTracked a o l t =
    rw l (record { apart = t.apart; known = t.known; leaving = t.leaving; gone = t.gone })

-- A server that listens takes the connection.
accept_open :
    (c i : ℕ) (a : Acceptor)
    → a.is_listening ≡ true
    → handle_accept c false (some i) a
      ≡ some (start_accept (record a { connections = assign i c a.connections }))
unfolding handle_accept
accept_open c i a l = rw l refl

accept-IsTracked :
    (c : ℕ) (failed : Bool) (i : ℕ) (a a' : Acceptor) (o : ℕ → Bool)
    → a.is_listening ≡ true
    → member i a.posted ≡ false
    → IsTracked a o
    → handle_accept c failed (some i) a ≡ some a'
    → IsTracked a' (after (accept_done failed (some i)) o)
unfolding handle_accept
accept-IsTracked c true i a a' o l m t e =
    of_some (λ a. IsTracked a o) (start_accept a) a' e (start_accept-IsTracked a o l t)
accept-IsTracked c false i a a' o l m t e =
    let b : Acceptor = record a { connections = assign i c a.connections } in
    of_some (λ a. IsTracked a (λ id. (i == id) || o id)) (start_accept b) a'
      (sym (accept_open c i a l) ∙ e)
      (start_accept-IsTracked b _ l (accepted-IsTracked i c a o m t))

timer-IsTracked :
    (n : ℕ) (a : Acceptor) (o : ℕ → Bool)
    → a.is_listening ≡ true
    → IsTracked a o
    → IsTracked (run_timer n a) o
unfolding stats_printer
timer-IsTracked zero a o l t = t
timer-IsTracked (suc n) a o l t =
    rw l (record { apart = t.apart; known = t.known; leaving = t.leaving; gone = t.gone })

posted-IsTracked :
    (ids : List ℕ) (a : Acceptor) (o : ℕ → Bool)
    → a.posted ≡ ids
    → IsTracked a o
    → IsTracked (run_posted ids a) o
posted-IsTracked [] a o e t = t
posted-IsTracked (id ∷ ids) a o e t = removed-IsTracked id ids a o e t

handle-IsTracked :
    (e : Event) (a a' : Acceptor) (o : ℕ → Bool)
    → HasAddress e
    → IsTimely e a
    → IsArmed a
    → IsTracked a o
    → handle e a ≡ some a'
    → IsTracked a' (after e o)
unfolding handle
handle-IsTracked (accept_done failed none) a a' o h m i t e = absurd h
handle-IsTracked (accept_done failed (some id)) a a' o h m i t e =
    accept-IsTracked i.next failed id (record a { accepts = [] }) a' o i.listening m
      (record { apart = t.apart; known = t.known; leaving = t.leaving; gone = t.gone })
      (rw i.accepting at e)
handle-IsTracked (closed id) a a' o h m i t e =
    of_some (λ a. IsTracked a (after (closed id) o)) _ a' e (closed-IsTracked id a o t)
handle-IsTracked posted_runs a a' o h m i t e =
    of_some (λ a. IsTracked a o) _ a' e (posted-IsTracked a.posted a o refl t)
handle-IsTracked timer_expires a a' o h m i t e =
    of_some (λ a. IsTracked a o) _ a' e (timer-IsTracked a.waits a o i.listening t)

-- Along the run every event is timely.
abbrev pub TimelyFrom : (Acceptor → Type 0) → Option Acceptor → Type 0
TimelyFrom P none = Unit {0}
TimelyFrom P (some a) = P a

abbrev pub AreTimely : List Event → Acceptor → Type 0
AreTimely [] a = Unit {0}
AreTimely (e ∷ es) a = IsTimely e a × TimelyFrom (AreTimely es) (handle e a)

run_lem :
    (es : List Event) (a : Acceptor) (o : ℕ → Bool)
    → HaveAddresses es
    → AreTimely es a
    → IsArmed a
    → IsTracked a o
    → (a' : Acceptor) × (run es a ≡ some a') × IsTracked a' (is_open es o)
unfolding run
run_lem [] a o h m i t = (a, refl, t)
run_lem (e ∷ es) a o h m i t =
    let (b, x, j) = handle-IsArmed e a h.0 i in
    let u = handle-IsTracked e a b o h.0 m.0 i t x in
    let (c, y, v) = run_lem es b (after e o) h.1 (rw x at m.1) j u in (c, rw x y, v)

nothing_known : IsTracked (start_listening idle) (λ id. false)
unfolding start_listening
nothing_known = record {
  apart = tt;
  known = λ id e. absurd (cc);
  leaving = λ id e x. absurd (cc);
  gone = λ id e. refl;
}

-- Whatever happens to a server after its start, as long as each accepted socket has an address and
-- no address is accepted again before its removal has run: no exception is thrown, each address
-- stands in the map once, every open connection is in the map, a connection that is in the map and
-- not open has its removal posted, and no open connection has.
pub run-IsTracked :
    (es : List Event)
    → HaveAddresses es
    → AreTimely es (start_listening idle)
    → (a : Acceptor) × (run es (start_listening idle) ≡ some a)
      × IsTracked a (is_open es (λ id. false))
run-IsTracked es h m =
    run_lem es (start_listening idle) (λ id. false) h m start_listening-IsArmed nothing_known
