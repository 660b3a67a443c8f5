-- ===== src/Connection.antt =====
-- The queues of pending operations of `tcp_connection` (StateDatabase/connection.h, connection.cpp).
-- Its reads and its writes keep the same fields and follow the same steps, so a `Side` is the state
-- of either. The socket is outside: what is handed to it is recorded in `started`, and its
-- completions are the calls of `complete`. Timers and logging are left out.
use state_db.Base.{ℕ, Bool, true, false, List, [], ◌∷◌, ◌++◌, ◌&&◌, not, ◌==◌, if◌then◌else◌}
pub mod Queue
pub mod Order
pub mod Drain
pub mod Greeting
mod Examples

-- The four classes of pending operations.
pub data Kind : Type 0 where
  read_message read_raw write_message write_raw : Kind

-- `size` is the count of bytes, and `next` names the handler that is called on completion.
pub record Operation : Type 0 where
  pub kind : Kind
  pub size : ℕ
  pub next : ℕ
  pub required : Bool

-- `busy` is `read_in_progress` or `write_in_progress`, `pending` the queue, oldest first.
pub record Side : Type 0 where
  pub busy : Bool
  pub pending : List Operation
  pub started : List Operation
  pub closed : Bool

abbrev pub init : Side
init = record { busy = false; pending = []; started = []; closed = false }

-- What the four functions share: an operation that finds the side busy is put into the queue, and
-- any other is handed to the socket.
unfoldable pub submit : Operation → Side → Side
submit op s =
    if s.busy
    then record s { pending = s.pending ++ op ∷ [] }
    else record s { busy = true; started = s.started ++ op ∷ [] }

unfoldable pub async_read_message : Operation → Side → Side
unfolding submit
async_read_message op s = submit op s

unfoldable pub async_read_raw : Operation → Side → Side
unfolding submit
async_read_raw op s = submit op s

unfoldable pub async_write_message : Operation → Side → Side
unfolding submit
async_write_message op s = submit op s

-- It returns at once where there is nothing to write.
unfoldable pub async_write_raw : Operation → Side → Side
unfolding submit
async_write_raw op s = if op.size == 0 then s else submit op s

-- `perform` of the four classes.
unfoldable pub perform_kind : Kind → Operation → Side → Side
unfolding async_read_message async_read_raw async_write_message async_write_raw
perform_kind read_message op s = async_read_message op s
perform_kind read_raw op s = async_read_raw op s
perform_kind write_message op s = async_write_message op s
perform_kind write_raw op s = async_write_raw op s

unfoldable pub perform : Operation → Side → Side
unfolding perform_kind
perform op s = perform_kind op.kind op s

unfoldable pub perform_all : List Operation → Side → Side
unfolding perform
perform_all [] s = s
perform_all (op ∷ ops) s = perform_all ops (perform op s)

-- The operation that has waited longest is taken from the queue and performed.
unfoldable pub perform_front : List Operation → Side → Side
unfolding perform
perform_front [] s = s
perform_front (op ∷ ops) s = perform op (record s { pending = ops })

-- The handlers, outside this component: what the handler of this name asks of the side when it is
-- called with the error flag.
module _ (handler : ℕ → Bool → List Operation) where
  -- What `handle_data` and `handle_write_operation` share, for the operation that was completed.
  unfoldable pub complete : Operation → Bool → Side → Side
  unfolding perform_all perform_front
  complete op failed s =
      if op.required && failed
      then record s { closed = true }
      else (let s' = perform_all (handler op.next failed) (record s { busy = false }) in
          perform_front s'.pending s')

  unfoldable pub handle_data : Operation → Bool → Side → Side
  unfolding complete
  handle_data op failed s = complete op failed s

  unfoldable pub handle_write_operation : Operation → Bool → Side → Side
  unfolding complete
  handle_write_operation op failed s = complete op failed s

  -- What can happen to a side: somebody performs an operation, or the socket has received or sent
  -- the bytes of one.
  pub data Steps : Side → Type 0 where
    start : Steps init
    request : (op : Operation) → (s : Side) → Steps s → Steps (perform op s)
    received :
        (op : Operation) → (failed : Bool) → (s : Side) → Steps s → Steps (handle_data op failed s)
    sent :
        (op : Operation)
        → (failed : Bool) → (s : Side) → Steps s
        → Steps (handle_write_operation op failed s)
