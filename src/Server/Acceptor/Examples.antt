-- ===== src/Server/Acceptor/Examples.antt =====
-- A run of the server's events on which the theorems about the connections are applied.
use state_db.Base.{◌≡◌, refl, true, false, some, List, [], ◌∷◌}
use state_db.Server.Acceptor.{
  Acceptor, idle, start_listening, Event, accept_done, closed, posted_runs, timer_expires, run,
  handle,
}
use state_db.Server.Acceptor.Armed.{IsArmed, HaveAddresses, run-IsArmed}
use state_db.Server.Acceptor.Tracked.{IsTracked, AreTimely, is_open, run-IsTracked}

-- A connection is closed and removed, and one of the same address is accepted.
abbrev events : List Event
events =
    accept_done false (some 7)
    ∷ accept_done false (some 8)
    ∷ closed 7
    ∷ timer_expires
    ∷ posted_runs
    ∷ accept_done true (some 9)
    ∷ accept_done false (some 7)
    ∷ []

addressed : HaveAddresses events
addressed = (tt, (tt, (tt, (tt, (tt, (tt, (tt, tt)))))))

timely : AreTimely events (start_listening idle)
unfolding handle start_listening
timely = (refl, (refl, (tt, (tt, (tt, (refl, (refl, tt)))))))

run-IsArmed_example : (a : Acceptor) × (run events (start_listening idle) ≡ some a) × IsArmed a
run-IsArmed_example = run-IsArmed events addressed

run-IsTracked_example :
    (a : Acceptor) × (run events (start_listening idle) ≡ some a)
    × IsTracked a (is_open events (λ id. false))
run-IsTracked_example = run-IsTracked events addressed timely
