-- ===== src/Server/Stream.antt =====
-- The messages of a client are told apart as they were sent (StateDatabase/asio_server.cpp,
-- connection.cpp).
use state_db.Base.{
  ℕ, ◌^◌, ◌<◌, ◌≡◌, refl, Option, none, some, List, [], ◌∷◌, ◌++◌, length, ap, ◌∙◌, append_assoc,
}
use state_db.Dispatcher
use state_db.Dtypes.{finished, then_run}
use state_db.Message.{
  Preamble, read_preamble, write_preamble, request_get, request_ping, request_set, request_get_all,
}
use state_db.Message.Framing.{read_preamble-write_preamble}
use state_db.Server.{
  Server, Served, Handler, dispatcher, run_handler, dispatch, handle_message, ping_handler,
  get_handler, set_handler, get_all_handler,
}
use state_db.Server.Session.{Session}

-- What a client asks for.
pub data Request : Type 0 where
  ping : Request
  get : List ℕ → Request
  put : List ℕ → Request
  get_all : Request

abbrev pub command : Request → ℕ
command ping = request_ping
command (get body) = request_get
command (put body) = request_set
command get_all = request_get_all

abbrev pub body_of : Request → List ℕ
body_of ping = []
body_of (get body) = body
body_of (put body) = body
body_of get_all = []

abbrev pub preamble_of : ℕ → List ℕ → Preamble
preamble_of id body = record { id = id; flags = 0; size = length body }

-- The bytes of one message.
abbrev pub message_of : ℕ → List ℕ → List ℕ
message_of id body = write_preamble (preamble_of id body) ++ body

unfoldable pub encode : List Request → List ℕ
unfolding write_preamble
encode [] = []
encode (q ∷ qs) = message_of (command q) (body_of q) ++ encode qs

abbrev pub Fit : List Request → Type 0
Fit [] = Unit {0}
Fit (q ∷ qs) = (length (body_of q) < 2 ^ 32) × Fit qs

-- What the server does for one request.
abbrev pub answer : ℕ → ℕ → Request → Server → Served
answer junk conn ping s = ping_handler junk conn s
answer junk conn (get body) s = get_handler conn s body
answer junk conn (put body) s = set_handler conn s body
answer junk conn get_all s = get_all_handler conn s

-- And for one after the other.
unfoldable pub answer_all : ℕ → ℕ → List Request → Server → Served
answer_all junk conn [] s = finished (s, [])
answer_all junk conn (q ∷ qs) s = then_run (answer junk conn q s) (λ (s', out).
    then_run (answer_all junk conn qs s') (λ (s'', more). finished (s'', out ++ more)))

abbrev pub leaving : List ℕ → Served → Session
leaving rest r = then_run r (λ (s, out). finished (s, out, rest))

read_message :
    (id : ℕ) (body rest : List ℕ)
    → id < 2 ^ 16
    → length body < 2 ^ 32
    → read_preamble (message_of id body ++ rest) ≡ some (preamble_of id body, body ++ rest)
read_message id body rest h k =
    ap read_preamble (append_assoc (write_preamble (preamble_of id body)) body rest)
    ∙ read_preamble-write_preamble (preamble_of id body) (body ++ rest) h k

handle_message-read :
    (junk conn : ℕ) (s : Server) (id : ℕ) (body rest : List ℕ)
    → id < 2 ^ 16
    → length body < 2 ^ 32
    → handle_message junk conn s (message_of id body ++ rest)
      ≡ run_handler junk (Dispatcher.call id dispatcher) conn s (preamble_of id body) (body ++ rest)
unfolding handle_message
handle_message-read junk conn s id body rest h k =
    ap (dispatch junk conn s) (read_message id body rest h k)

run_handler-none :
    (junk conn : ℕ) (h : Option Handler) (s : Server) (m : Preamble) (rest : List ℕ)
    → h ≡ none
    → run_handler junk h conn s m rest ≡ some (finished (s, []), rest)
unfolding run_handler
run_handler-none junk conn h s m rest e = rw e refl

-- A message whose number is a `uint16_t` without a handler, and whose body is shorter than 2^32 bytes,
-- changes nothing and gets no answer, and the bytes of its body are what the next preamble is read
-- from.
pub handle_message-ignored :
    (junk conn : ℕ) (s : Server) (id : ℕ) (body rest : List ℕ)
    → id < 2 ^ 16
    → length body < 2 ^ 32
    → Dispatcher.call id dispatcher ≡ none
    → handle_message junk conn s (message_of id body ++ rest)
      ≡ some (finished (s, []), body ++ rest)
handle_message-ignored junk conn s id body rest h k e =
    handle_message-read junk conn s id body rest h k
    ∙ run_handler-none junk conn (Dispatcher.call id dispatcher) s (preamble_of id body)
        (body ++ rest) e
