-- ===== src/Dispatcher.antt =====
-- `dispatcher` of StateDatabase/dispatcher.h: handlers by the number of a command. The map is an
-- association list, of which the first entry of a key counts.
use state_db.Base.{ℕ, ◌≡◌, refl, Option, none, some, List, [], ◌∷◌, ◌==◌, if◌then◌else◌, arith}
mod Examples

abbrev pub Dispatcher {ℓ} : Type ℓ → Type ℓ
Dispatcher A = List (ℕ × A)

module _ {ℓ} {A : Type ℓ} where
  unfoldable pub register_handler : ℕ → A → Dispatcher A → Dispatcher A
  register_handler id fn [] = (id, fn) ∷ []
  register_handler id fn ((j, g) ∷ rest) =
      let more = register_handler id fn rest in if j == id then (id, fn) ∷ rest else (j, g) ∷ more

  unfoldable pub clear : ℕ → Dispatcher A → Dispatcher A
  clear id [] = []
  clear id ((j, g) ∷ rest) = let more = clear id rest in if j == id then more else (j, g) ∷ more

  -- `call`: the handler that is called, and `none` where the result is `false`.
  unfoldable pub call : ℕ → Dispatcher A → Option A
  call id [] = none
  call id ((j, g) ∷ rest) = let more = call id rest in if j == id then some g else more

  -- A command calls the handler that was registered last for it, and registering a handler changes
  -- no other command.
  pub call-register_handler :
      (q id : ℕ) (fn : A) (d : Dispatcher A)
      → call q (register_handler id fn d) ≡ (if id == q then some fn else call q d)
  unfolding call register_handler
  call-register_handler q id fn [] = refl
  call-register_handler q id fn ((j, g) ∷ rest) = ground (arith, call-register_handler q id fn rest)

  -- A command that was cleared calls nothing, and the others call what they called.
  pub call-clear :
      (q id : ℕ) (d : Dispatcher A) → call q (clear id d) ≡ (if id == q then none else call q d)
  unfolding call clear
  call-clear q id [] = ground arith
  call-clear q id ((j, g) ∷ rest) = ground (arith, call-clear q id rest)
