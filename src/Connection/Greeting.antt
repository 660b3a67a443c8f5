-- ===== src/Connection/Greeting.antt =====
-- From the start of a `tcp_connection` to its end (StateDatabase/connection.h, connection.cpp): the
-- greeting, the loop over messages, timeouts and errors. The reads are those that the connection
-- itself has asked for; what its listeners read in between is left to the queues of Connection.
use state_db.Base.{
  ℕ, suc, ◌≤◌, ◌≡◌, refl, Bool, true, false, ◌||◌, List, [], ◌∷◌, ◌++◌, if◌then◌else◌, length,
  arith, ap, Bool-cases, inl, inr,
}
use state_db.Message.{Preamble, valid_hello}

pub data Read : Type 0 where
  hello_read preamble_read : Read

-- `messages` are the calls of `on_new_message_`, and `ends` counts those of `on_closed_`.
pub record Link : Type 0 where
  pub is_open : Bool
  pub reads : List Read
  pub messages : List Preamble
  pub ends : ℕ

abbrev pub new_link : Link
new_link = record { is_open = true; reads = []; messages = []; ends = 0 }

unfoldable pub close : Link → Link
close l = record l { is_open = false; ends = suc l.ends }

abbrev pub ask : Read → Link → Link
ask r l = record l { reads = l.reads ++ r ∷ [] }

unfoldable pub start : Link → Link
start l = ask hello_read l

unfoldable pub start_read_message : Link → Link
start_read_message l = if l.is_open then ask preamble_read l else l

unfoldable pub received_hello : ℕ → List ℕ → Link → Link
unfolding close start_read_message valid_hello
received_hello version bytes l = if valid_hello version bytes then start_read_message l else close l

-- `assert_no_error`: whether there was one, and the connection afterwards.
unfoldable pub assert_no_error : Bool → Link → Bool × Link
unfolding close
assert_no_error failed l = if failed then (true, close l) else (false, l)

-- The signal, and the next read.
abbrev pub announce : Preamble → Bool × Link → Link
announce m (stop, l) =
    if stop then l else start_read_message (record l { messages = l.messages ++ m ∷ [] })

unfoldable pub handle_message : Bool → Preamble → Link → Link
unfolding assert_no_error start_read_message
handle_message failed m l = announce m (assert_no_error failed l)

unfoldable pub handle_timeout_expiration : Bool → Link → Link
unfolding close
handle_timeout_expiration operation_is_done l = if operation_is_done then l else close l

-- What a connection can reach, and whether it has been sent a valid greeting: the read that was asked
-- for first completes or fails, or a timer runs out.
pub data Reaches (version : ℕ) : Bool → Link → Type 0 where
  started : Reaches version false (start new_link)
  greeted :
      (g : Bool)
      → (bytes : List ℕ) → (l : Link) → (rest : List Read) → Reaches version g l
      → l.reads ≡ hello_read ∷ rest
      → Reaches version
          (g || valid_hello version bytes)
          (received_hello version bytes (record l { reads = rest }))
  told :
      (g failed : Bool)
      → (m : Preamble) → (l : Link) → (rest : List Read) → Reaches version g l
      → l.reads ≡ preamble_read ∷ rest
      → Reaches version g (handle_message failed m (record l { reads = rest }))
  broken :
      (g : Bool)
      → (r : Read) → (l : Link) → (rest : List Read) → Reaches version g l
      → l.reads ≡ r ∷ rest
      → Reaches version g (close (record l { reads = rest }))
  expired :
      (g operation_is_done : Bool)
      → (l : Link) → Reaches version g l
      → Reaches version g (handle_timeout_expiration operation_is_done l)

abbrev pub AllHello : List Read → Type 0
AllHello [] = Unit {0}
AllHello (hello_read ∷ rs) = AllHello rs
AllHello (preamble_read ∷ rs) = ⊥

-- Before a valid greeting no message is announced and none is waited for, and never is more than one
-- read asked for.
pub record IsGuarded (g : Bool) (l : Link) : Type 0 where
  pub silent : g ≡ false → l.messages ≡ []
  pub waiting : g ≡ false → AllHello l.reads
  pub single : length l.reads ≤ 1

popped : (r : Read) (rs rest : List Read) → rs ≡ r ∷ rest → length rs ≤ 1 → rest ≡ []
popped r rs [] e h = refl
popped r rs (x ∷ rest) e h =
    let size : length rs ≡ suc (suc (length rest)) = ap length e in absurd (omega (arith, size))

close-IsGuarded :
    (g : Bool) (l : Link)
    → (g ≡ false → l.messages ≡ [])
    → IsGuarded g (close (record l { reads = [] }))
unfolding close
close-IsGuarded g l silent = record { silent = silent; waiting = λ e. tt; single = omega arith }

start_read_message-IsGuarded :
    (l : Link) → IsGuarded true (start_read_message (record l { reads = [] }))
unfolding start_read_message
start_read_message-IsGuarded l = elim (Bool-cases l.is_open) [
  | inl o ↦ rw o (record { silent = λ e. cc; waiting = λ e. cc; single = omega arith })
  | inr o ↦ rw o (record { silent = λ e. cc; waiting = λ e. cc; single = omega arith })
]

received_hello-IsGuarded :
    (version : ℕ) (g : Bool) (bytes : List ℕ) (l : Link)
    → (g ≡ false → l.messages ≡ [])
    → IsGuarded
        (g || valid_hello version bytes)
        (received_hello version bytes (record l { reads = [] }))
unfolding received_hello
received_hello-IsGuarded version g bytes l silent = elim (Bool-cases (valid_hello version bytes)) [
  | inl v ↦ rw (v, or_true g) (start_read_message-IsGuarded l)
  | inr v ↦ rw (v, or_false g) (close-IsGuarded g l silent)
]
  where
    or_true : (g : Bool) → (g || true) ≡ true
    or_true true = refl
    or_true false = refl

    or_false : (g : Bool) → (g || false) ≡ g
    or_false true = refl
    or_false false = refl

handle_message-IsGuarded :
    (failed : Bool) (m : Preamble) (l : Link)
    → IsGuarded true (handle_message failed m (record l { reads = [] }))
unfolding handle_message
handle_message-IsGuarded true m l = close-IsGuarded true l (λ e. cc)
handle_message-IsGuarded false m l =
    start_read_message-IsGuarded (record l { messages = l.messages ++ m ∷ [] })

told_greeted :
    (g : Bool) (l : Link) (rest : List Read)
    → IsGuarded g l
    → l.reads ≡ preamble_read ∷ rest
    → g ≡ true
told_greeted true l rest h e = refl
told_greeted false l rest h e =
    let none : AllHello (preamble_read ∷ rest) = rw e at h.waiting refl in absurd none

-- In every state that a connection can reach, where it has not been sent a valid greeting, no message
-- was announced and none is waited for; and there is never more than one read that it asked for.
pub Reaches-IsGuarded : (version : ℕ) (g : Bool) (l : Link) → Reaches version g l → IsGuarded g l
unfolding start handle_timeout_expiration
Reaches-IsGuarded version _ _ started = record {
  silent = λ e. refl;
  waiting = λ e. tt;
  single = omega arith;
}
Reaches-IsGuarded version _ _ (greeted g bytes l rest r e) =
    let h = Reaches-IsGuarded version g l r in
    rw (popped hello_read l.reads rest e h.single)
      (received_hello-IsGuarded version g bytes l h.silent)
Reaches-IsGuarded version _ _ (told g failed m l rest r e) =
    let h = Reaches-IsGuarded version g l r in
    rw (popped preamble_read l.reads rest e h.single, told_greeted g l rest h e)
      (handle_message-IsGuarded failed m l)
Reaches-IsGuarded version _ _ (broken g x l rest r e) =
    let h = Reaches-IsGuarded version g l r in
    rw (popped x l.reads rest e h.single) (close-IsGuarded g l h.silent)
Reaches-IsGuarded version _ _ (expired g true l r) = Reaches-IsGuarded version g l r
Reaches-IsGuarded version _ _ (expired g false l r) =
    let h = Reaches-IsGuarded version g l r in
    record { silent = h.silent; waiting = h.waiting; single = h.single }
