-- ===== src/Connection/Drain.antt =====
-- What waits in the queue of a `tcp_connection` gets its turn (StateDatabase/connection.cpp).
use state_db.Base.{
  ℕ, ◌≡◌, refl, Bool, true, false, List, [], ◌∷◌, ◌++◌, ◌&&◌, ap, ◌∙◌, sym, append-nil,
  append_assoc,
}
use state_db.Connection.{Operation, Side, submit, perform_all, perform_front, complete}
use state_db.Connection.Queue.{is_real, AllReal, IsReady, perform_cases}

not_failed : (b : Bool) → (b && false) ≡ false
not_failed true = refl
not_failed false = refl

module _ (handler : ℕ → Bool → List Operation) where
  -- The socket completes the operations one after the other without an error.
  unfoldable pub drain : List Operation → Side → Side
  unfolding complete
  drain [] s = s
  drain (op ∷ ops) s = drain ops (complete handler op false s)

  -- A side that is busy, with these operations waiting.
  abbrev pub working : List Operation → List Operation → Bool → Side
  working ops started closed = record {
    busy = true;
    pending = ops;
    started = started;
    closed = closed;
  }

  last_done :
      (op : Operation) (started : List Operation) (closed : Bool)
      → handler op.next false ≡ []
      → complete handler op false (working [] started closed)
        ≡ record { busy = false; pending = []; started = started; closed = closed }
  unfolding complete perform_all perform_front
  last_done op started closed e = rw (not_failed op.required, e) refl

  next_starts :
      (op next : Operation) (ops started : List Operation) (closed : Bool)
      → handler op.next false ≡ []
      → is_real next.kind next.size ≡ true
      → complete handler op false (working (next ∷ ops) started closed)
        ≡ working ops (started ++ next ∷ []) closed
  unfolding complete perform_all perform_front submit
  next_starts op next ops started closed e real =
      rw
        (
          not_failed op.required,
          e,
          perform_cases next
              (record { busy = false; pending = ops; started = started; closed = closed }),
          real,
        )
        refl

  abbrev pub Silent : List Operation → Type 0
  Silent [] = Unit {0}
  Silent (op ∷ ops) = (handler op.next false ≡ []) × Silent ops

  drain_all :
      (op : Operation) (ops started : List Operation) (closed : Bool)
      → AllReal ops
      → Silent (op ∷ ops)
      → drain (op ∷ ops) (working ops started closed)
        ≡ record { busy = false; pending = []; started = started ++ ops; closed = closed }
  unfolding drain
  drain_all op [] started closed real (quiet, silent) =
      last_done op started closed quiet
      ∙ ap
          (λ (l : List Operation). record {
            busy = false;
            pending = [];
            started = l;
            closed = closed;
          })
          (sym (append-nil started))
  drain_all op (next ∷ ops) started closed (here, real) (quiet, silent) =
      ap (drain (next ∷ ops)) (next_starts op next ops started closed quiet here)
      ∙ drain_all next ops (started ++ next ∷ []) closed real silent
      ∙ ap
          (λ (l : List Operation). record {
            busy = false;
            pending = [];
            started = l;
            closed = closed;
          })
          (append_assoc started (next ∷ []) ops)

  -- On a ready side that is busy with an operation, where the handlers of this one and of those that
  -- wait ask for nothing: once the socket has completed them one after the other without an error,
  -- every one that waited was handed to the socket, in the order in which they came, nothing waits,
  -- and the side is idle.
  pub drain-IsReady :
      (op : Operation) (s : Side)
      → IsReady s
      → s.busy ≡ true
      → Silent (op ∷ s.pending)
      → drain (op ∷ s.pending) s
        ≡ record { busy = false; pending = []; started = s.started ++ s.pending; closed = s.closed }
  drain-IsReady op s h b silent =
      ap (drain (op ∷ s.pending)) (is_working s b)
      ∙ drain_all op s.pending s.started s.closed h.real silent
    where
      is_working : (s : Side) → s.busy ≡ true → s ≡ working s.pending s.started s.closed
      is_working s b =
          ap
            (λ (b : Bool). record {
              busy = b;
              pending = s.pending;
              started = s.started;
              closed = s.closed;
            })
            b
