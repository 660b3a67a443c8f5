-- ===== src/Connection/Queue.antt =====
-- No operation of a `tcp_connection` waits while its side is idle (StateDatabase/connection.cpp).
use state_db.Base.{
  ℕ, ◌≡◌, refl, Bool, true, false, List, [], ◌∷◌, ◌++◌, ◌&&◌, ◌==◌, if◌then◌else◌, arith,
  Bool-cases, inl, inr,
}
use state_db.Connection.{
  Kind, read_message, read_raw, write_message, write_raw, Operation, Side, submit,
  async_read_message, async_read_raw, async_write_message, async_write_raw, perform, perform_kind,
  perform_all, perform_front, complete, Steps, start, request, received, sent, handle_data,
  handle_write_operation,
}

-- The operation has something to do.
abbrev pub is_real : Kind → ℕ → Bool
is_real write_raw n = if n == 0 then false else true
is_real _ n = true

abbrev pub AllReal : List Operation → Type 0
AllReal [] = Unit {0}
AllReal (op ∷ ops) = (is_real op.kind op.size ≡ true) × AllReal ops

-- Nothing waits while the side is idle, and what waits has something to do.
pub record IsReady (s : Side) : Type 0 where
  pub idle : s.busy ≡ false → s.pending ≡ []
  pub real : AllReal s.pending

AllReal-append : (xs ys : List Operation) → AllReal xs → AllReal ys → AllReal (xs ++ ys)
AllReal-append [] ys h k = k
AllReal-append (x ∷ xs) ys h k = (h.0, AllReal-append xs ys h.1 k)

-- An operation that is performed is dropped, for want of anything to do, or submitted.
pub perform_cases :
    (op : Operation) (s : Side)
    → perform op s ≡ (if is_real op.kind op.size then submit op s else s)
unfolding perform perform_kind async_read_message async_read_raw async_write_message async_write_raw
perform_cases op s = go op.kind
  where
    go : (k : Kind) → perform_kind k op s ≡ (if is_real k op.size then submit op s else s)
    go read_message = refl
    go read_raw = refl
    go write_message = refl
    go write_raw = ground arith

perform-AllReal : (op : Operation) (s : Side) → AllReal s.pending → AllReal (perform op s).pending
unfolding submit
perform-AllReal op s h = elim (Bool-cases (is_real op.kind op.size)) [
  | inl r ↦
      rw (perform_cases op s, r)
        (elim (Bool-cases s.busy) [
          | inl b ↦ rw b (AllReal-append s.pending (op ∷ []) h (r, tt))
          | inr b ↦ rw b h
        ])
  | inr r ↦ rw (perform_cases op s, r) h
]

perform-idle :
    (op : Operation) (s : Side)
    → (s.busy ≡ false → s.pending ≡ [])
    → (perform op s).busy ≡ false
    → (perform op s).pending ≡ []
unfolding submit
perform-idle op s h = elim (Bool-cases (is_real op.kind op.size)) [
  | inl r ↦
      rw (perform_cases op s, r)
        (elim (Bool-cases s.busy) [ inl b ↦ rw b (λ e. cc) | inr b ↦ rw b (λ e. cc) ])
  | inr r ↦ rw (perform_cases op s, r) h
]

perform-IsReady : (op : Operation) (s : Side) → IsReady s → IsReady (perform op s)
perform-IsReady op s h = record {
  idle = perform-idle op s h.idle;
  real = perform-AllReal op s h.real;
}

perform_all-AllReal :
    (ops : List Operation) (s : Side) → AllReal s.pending → AllReal (perform_all ops s).pending
unfolding perform_all
perform_all-AllReal [] s h = h
perform_all-AllReal (op ∷ ops) s h = perform_all-AllReal ops (perform op s) (perform-AllReal op s h)

-- Whatever the side was doing, it is ready once the front of its queue has been performed.
perform_front-IsReady :
    (ops : List Operation) (s : Side)
    → AllReal ops
    → s.pending ≡ ops
    → IsReady (perform_front ops s)
unfolding perform_front submit
perform_front-IsReady [] s real e = record { idle = λ b. e; real = rw e tt }
perform_front-IsReady (op ∷ ops) s real e =
    rw (perform_cases op (record s { pending = ops }), real.0)
      (elim (Bool-cases s.busy) [
        | inl b ↦
            rw b
              (record { idle = λ x. cc; real = AllReal-append ops (op ∷ []) real.1 (real.0, tt) })
        | inr b ↦ rw b (record { idle = λ x. cc; real = real.1 })
      ])

module _ (handler : ℕ → Bool → List Operation) where
  -- Whatever its handler asks for, the completion of an operation leaves the side ready: nothing
  -- waits while the side is idle, and what waits has something to do.
  pub complete-IsReady :
      (op : Operation) (failed : Bool) (s : Side)
      → IsReady s
      → IsReady (complete handler op failed s)
  unfolding complete
  complete-IsReady op failed s h = elim (Bool-cases (op.required && failed)) [
    | inl e ↦ rw e (record { idle = h.idle; real = h.real })
    | inr e ↦
        let s' = perform_all (handler op.next failed) (record s { busy = false }) in
        rw e (
          perform_front-IsReady s'.pending s'
            (perform_all-AllReal (handler op.next failed) (record s { busy = false }) h.real) refl)
  ]

  -- In every state that a side can reach, whatever the handlers ask for, nothing waits while the
  -- side is idle, and what waits has something to do.
  pub Steps-IsReady : (s : Side) → Steps handler s → IsReady s
  unfolding handle_data handle_write_operation
  Steps-IsReady _ start = record { idle = λ e. refl; real = tt }
  Steps-IsReady _ (request op s st) = perform-IsReady op s (Steps-IsReady s st)
  Steps-IsReady _ (received op failed s st) = complete-IsReady op failed s (Steps-IsReady s st)
  Steps-IsReady _ (sent op failed s st) = complete-IsReady op failed s (Steps-IsReady s st)
