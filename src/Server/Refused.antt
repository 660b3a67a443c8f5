-- ===== src/Server/Refused.antt =====
-- The messages to set a value that the server refuses (`set_handler` of StateDatabase/asio_server.cpp).
use state_db.Base.{
  ℕ, ◌+◌, ◌-◌, ◌<◌, ◌≡◌, refl, true, false, none, some, List, [], ◌∷◌, ◌++◌, ltb, length, arith,
  ◌∙◌, length-append, codes,
}
use state_db.BigInt.Text.Read.{AreNonzero}
use state_db.Db.{set_value}
use state_db.Dtypes.{insufficient, finished, text_length}
use state_db.Object
use state_db.Object.{DbObject, Dtype, Storage, get_implementor, has_type, load_storage}
use state_db.Db.Laws.{stored, made}
use state_db.Server.{Server, set_handler, store_value, refuse, error_response}
use state_db.Server.Runs.{text_length-key, byte_at_key}
use state_db.Server.Store.{set_handler-store_value}

-- What makes a message a bad one, and the text of the error for it.
pub data IsRefused : List ℕ → List ℕ → Type 0 where
  -- There is no zero byte behind the key.
  open_key :
      (key : List ℕ)
      → AreNonzero key
      → IsRefused key (codes "You have sent not enough data for DTYPE")
  -- The message ends before the number of the type.
  no_type :
      (key : List ℕ)
      → AreNonzero key
      → IsRefused (key ++ 0 ∷ []) (codes "You have sent not enough data for DTYPE")
  -- There is no implementor for the type.
  bad_type :
      (key : List ℕ) (dt : ℕ) (src : List ℕ)
      → AreNonzero key
      → get_implementor dt ≡ none
      → IsRefused (key ++ 0 ∷ dt ∷ src) (codes "Unknown type")
  -- The bytes that follow are too few for the type.
  no_value :
      (key : List ℕ) (dt : ℕ) (d : Dtype) (src : List ℕ)
      → AreNonzero key
      → get_implementor dt ≡ some d
      → load_storage d src ≡ insufficient
      → IsRefused (key ++ 0 ∷ dt ∷ src) (codes "Not enough space for VALUE")

text_length_all : (key : List ℕ) → AreNonzero key → text_length key ≡ length key
unfolding text_length
text_length_all [] h = refl
text_length_all (c ∷ cs) h = ground (arith, text_length_all cs h.1)

too_short :
    (conn : ℕ) (s : Server) (b : List ℕ)
    → length b < text_length b + 2
    → set_handler conn s b ≡ refuse conn s (codes "You have sent not enough data for DTYPE")
unfolding set_handler
too_short conn s b h =
    let short : ltb (length b - text_length b) 2 ≡ true = ground arith in rw short refl

has_type-none : (dt : ℕ) → get_implementor dt ≡ none → has_type dt ≡ false
unfolding has_type
has_type-none dt e = rw e refl

set_handler-bad_type :
    (conn : ℕ) (s : Server) (key : List ℕ) (dt : ℕ) (src : List ℕ)
    → AreNonzero key
    → get_implementor dt ≡ none
    → set_handler conn s (key ++ 0 ∷ dt ∷ src) ≡ refuse conn s (codes "Unknown type")
unfolding set_handler
set_handler-bad_type conn s key dt src h e =
    let size = length-append {0} key (0 ∷ dt ∷ src) in
    let enough : ltb (length (key ++ 0 ∷ dt ∷ src) - length key) 2 ≡ false = ground (arith, size) in
    rw (text_length-key key (dt ∷ src) h, byte_at_key key 0 dt src, has_type-none dt e, enough) refl

load-insufficient :
    (key : List ℕ) (dt : ℕ) (d : Dtype) (src : List ℕ) (old : Storage)
    → get_implementor dt ≡ some d
    → load_storage d src ≡ insufficient
    → Object.load src (stored key dt old) ≡ insufficient
unfolding Object.load
load-insufficient key dt d src old i e = rw i (rw e refl)

store_value-insufficient :
    (conn : ℕ) (s : Server) (key : List ℕ) (dt : ℕ) (d : Dtype) (src : List ℕ)
    → get_implementor dt ≡ some d
    → load_storage d src ≡ insufficient
    → store_value conn s key dt src ≡ refuse conn s (codes "Not enough space for VALUE")
unfolding store_value set_value
store_value-insufficient conn s key dt d src i e =
    rw (made key dt d i) (rw (load-insufficient key dt d src (Object.init d) i e) refl)

-- On a message without a zero byte behind the key, one that ends there, one with a type that has no
-- implementor and one with too few bytes for its type, `set_handler` leaves the server as it was and
-- writes the error of that case to the sender alone.
pub set_handler-IsRefused :
    (conn : ℕ) (s : Server) (b message : List ℕ)
    → IsRefused b message
    → set_handler conn s b ≡ finished (s, (conn, error_response message) ∷ [])
set_handler-IsRefused conn s b _ (open_key key h) =
    too_short conn s b (omega (arith, text_length_all b h))
set_handler-IsRefused conn s _ _ (no_type key h) =
    too_short conn s (key ++ 0 ∷ [])
      (omega (arith, text_length-key key [] h, length-append {0} key (0 ∷ [])))
set_handler-IsRefused conn s _ _ (bad_type key dt src h e) =
    set_handler-bad_type conn s key dt src h e
set_handler-IsRefused conn s _ _ (no_value key dt d src h i e) =
    set_handler-store_value conn s key dt d src h i
    ∙ store_value-insufficient conn s key dt d src i e
