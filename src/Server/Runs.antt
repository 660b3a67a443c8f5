-- ===== src/Server/Runs.antt =====
-- The parts of a message in a buffer, and what the server writes for a stored value
-- (StateDatabase/asio_server.cpp).
use state_db.Base.{
  ℕ, suc, ◌+◌, ◌-◌, ◌%◌, ◌≡◌, refl, true, false, some, List, [], ◌∷◌, ◌++◌, ◌==◌, length, drop, map,
  arith, length-append, take-append,
}
use state_db.BigInt.Text.Read.{AreNonzero}
use state_db.Dtypes.{Run, finished, text_length, word_mod}
use state_db.Object
use state_db.Object.{
  DbObject, Dtype, Storage, get_implementor, has_type, load_storage, size_storage, write_storage,
}
use state_db.Object.Stored.{IsStored}
use state_db.Db.Laws.{stored}
use state_db.Message.{as_cstr, byte_at, response_key_update}
use state_db.Server.{Response, apply_all_connections, value_response}

pub text_length-key :
    (key rest : List ℕ) → AreNonzero key → text_length (key ++ 0 ∷ rest) ≡ length key
unfolding text_length
text_length-key [] rest h = refl
text_length-key (c ∷ cs) rest h = ground (arith, text_length-key cs rest h.1)

pub drop_key :
    (key : List ℕ) (a b : ℕ) (rest : List ℕ) → drop (length key + 2) (key ++ a ∷ b ∷ rest) ≡ rest
drop_key key a b rest = rw (two (length key)) (go key)
  where
    two : (n : ℕ) → n + 2 ≡ suc (suc n)
    two n = omega arith

    go : (k : List ℕ) → drop (suc (suc (length k))) (k ++ a ∷ b ∷ rest) ≡ rest
    go [] = refl
    go (c ∷ cs) = go cs

pub byte_at_key :
    (key : List ℕ) (a b : ℕ) (rest : List ℕ) → byte_at (key ++ a ∷ b ∷ rest) (length key + 1) ≡ b
byte_at_key key a b rest = rw (one (length key)) (go key)
  where
    one : (n : ℕ) → n + 1 ≡ suc n
    one n = omega arith

    go : (k : List ℕ) → byte_at (k ++ a ∷ b ∷ rest) (suc (length k)) ≡ b
    go [] = refl
    go (c ∷ cs) = go cs

-- A key with its zero is read as the key.
pub as_cstr-key : (key : List ℕ) → AreNonzero key → as_cstr (key ++ 0 ∷ []) ≡ finished key
unfolding as_cstr
as_cstr-key key h =
    let size = length-append {0} key (0 ∷ []) in
    let before : length (key ++ 0 ∷ []) - 1 ≡ length key = omega (arith, size) in
    let full : (length (key ++ 0 ∷ []) == 0) ≡ false = ground (arith, size) in
    rw (before, take-append key (0 ∷ []), text_length-key key [] h, take-append key (0 ∷ []), full)
      refl

pub has_type-some : (dt : ℕ) (d : Dtype) → get_implementor dt ≡ some d → has_type dt ≡ true
unfolding has_type
has_type-some dt d i = rw i refl

-- The message for a value that is stored.
abbrev pub value_message : List ℕ → ℕ → List ℕ → Response
value_message key dt text = record {
  id = response_key_update;
  size = (1 + length text + (length key + 1)) % word_mod;
  body = key ++ 0 ∷ dt ∷ text;
}

sized :
    (key : List ℕ) (dt : ℕ) (d : Dtype) (ds : Storage) (st : IsStored d ds)
    → get_implementor dt ≡ some d
    → Object.object_size (stored key dt ds) ≡ finished (length st.text)
unfolding Object.object_size
sized key dt d ds st i = rw i st.sized

written :
    (key : List ℕ) (dt : ℕ) (d : Dtype) (ds : Storage) (st : IsStored d ds)
    → get_implementor dt ≡ some d
    → Object.write_to (length st.text) (stored key dt ds) ≡ finished st.text
unfolding Object.write_to
written key dt d ds st i = rw i (st.written (length st.text) (omega arith))

pub value_response-stored :
    (key : List ℕ) (dt : ℕ) (d : Dtype) (ds : Storage) (st : IsStored d ds)
    → get_implementor dt ≡ some d
    → value_response (stored key dt ds) ≡ finished (value_message key dt st.text)
unfolding value_response
value_response-stored key dt d ds st i =
    rw (sized key dt d ds st i) (rw (written key dt d ds st i) refl)

pub apply_all_connections-finished :
    (cs : List ℕ) (h : Run Response) (r : Response)
    → h ≡ finished r
    → apply_all_connections cs h ≡ finished (map (λ c. (c, r)) cs)
unfolding apply_all_connections
apply_all_connections-finished [] h r e = refl
apply_all_connections-finished (c ∷ cs) h r e =
    rw e (rw (apply_all_connections-finished cs (finished r) r refl) refl)
