-- ===== src/Connection/Order.antt =====
-- The order in which a `tcp_connection` serves its operations (StateDatabase/connection.cpp).
use state_db.Base.{ℕ, ◌≡◌, refl, Bool, true, false, List, [], ◌∷◌, ◌++◌, ◌&&◌, Bool-cases, inl, inr}
use state_db.Connection.{Operation, Side, submit, perform_all, perform_front, complete}
use state_db.Connection.Queue.{is_real, AllReal, IsReady, perform_cases}

-- What was handed to the socket, then what waits.
abbrev pub served : Side → List Operation
served s = s.started ++ s.pending

-- A busy side hands nothing to the socket.
started-perform_front :
    (ops : List Operation) (s : Side) → s.busy ≡ true → (perform_front ops s).started ≡ s.started
unfolding perform_front submit
started-perform_front [] s b = refl
started-perform_front (op ∷ ops) s b = elim (Bool-cases (is_real op.kind op.size)) [
  | inl r ↦ rw (perform_cases op (record s { pending = ops }), r, b) refl
  | inr r ↦ rw (perform_cases op (record s { pending = ops }), r) refl
]

module _ (handler : ℕ → Bool → List Operation) where
  -- Where the completion of an operation does not fail for good, and its handler asks for one
  -- operation that has something to do, as for the body of a message behind its preamble, that
  -- operation is the next that is handed to the socket, and the only one, whatever waits.
  pub started-complete :
      (op : Operation) (failed : Bool) (s : Side) (new : Operation)
      → (op.required && failed) ≡ false
      → handler op.next failed ≡ new ∷ []
      → is_real new.kind new.size ≡ true
      → (complete handler op failed s).started ≡ s.started ++ new ∷ []
  unfolding complete perform_all submit
  started-complete op failed s new c ask real =
      rw (c, ask, perform_cases new (record s { busy = false }), real)
        (started-perform_front s.pending (record s { busy = true; started = s.started ++ new ∷ [] })
          refl)

  -- On a ready side, where an operation does not fail for good, its handler asks for one
  -- operation that has something to do, and two wait, the one that has waited longest is put
  -- behind all the others.
  pub complete_overtaken :
      (op : Operation) (failed : Bool) (s : Side) (new front behind : Operation)
      (rest : List Operation)
      → (op.required && failed) ≡ false
      → IsReady s
      → s.pending ≡ front ∷ behind ∷ rest
      → handler op.next failed ≡ new ∷ []
      → is_real new.kind new.size ≡ true
      → served (complete handler op failed s)
        ≡ (s.started ++ new ∷ []) ++ behind ∷ (rest ++ front ∷ [])
  unfolding complete perform_all perform_front submit
  complete_overtaken op failed s new front behind rest c h e ask real =
      let ready : AllReal (front ∷ behind ∷ rest) = rw e at h.real in
      rw
        (
          c,
          ask,
          perform_cases new (record s { busy = false }),
          real,
          e,
          perform_cases front (record {
            busy = true;
            pending = behind ∷ rest;
            started = s.started ++ new ∷ [];
            closed = s.closed;
          }),
          ready.0,
        )
        refl
