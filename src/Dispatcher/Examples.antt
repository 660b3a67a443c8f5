-- ===== src/Dispatcher/Examples.antt =====
-- Concrete inputs for the theorems about the dispatcher.
use state_db.Base.{ℕ, ◌≡◌, none, [], ◌∷◌, ◌==◌, if◌then◌else◌}
use state_db.Dispatcher
use state_db.Dispatcher.{Dispatcher, register_handler, call, call-register_handler, call-clear}

abbrev two_handlers : Dispatcher ℕ
two_handlers = (3, 30) ∷ (1, 10) ∷ []

call_cleared :
    call 3 (Dispatcher.clear 3 two_handlers) ≡ (if 3 == 3 then none else call 3 two_handlers)
call_cleared = call-clear 3 3 two_handlers
