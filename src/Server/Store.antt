-- ===== src/Server/Store.antt =====
-- What a client's set and delete do to the store, and what the connections are told of it
-- (StateDatabase/asio_server.cpp).
use state_db.Base.{
  ℕ, ◌-◌, ◌≡◌, refl, false, Option, some, List, [], ◌∷◌, ◌++◌, ltb, ◌==◌, if◌then◌else◌, length,
  map, done, arith, ap, ◌∙◌, length-append, take-append,
}
use state_db.BigInt.Text.Read.{AreNonzero}
use state_db.Bpt.Tree.{Tree}
use state_db.Bpt.Tree.Refines.{IsTree, Stands}
use state_db.Db.{order, make_hash, get_object, set_value}
use state_db.Db.Laws.{stored, make_hash-lt, set_value-Stands, get_object-Stands}
use state_db.Dtypes.{finished}
use state_db.Object.{DbObject, Dtype, Storage, get_implementor, load_storage}
use state_db.Object.Stored.{IsStored, load_storage-IsStored}
use state_db.Dtypes.Loaded.{AreBytes}
use state_db.Server.{Server, send_value, get_handler, set_handler, store_value, broadcast_value}
use state_db.Server.Runs.{
  text_length-key, drop_key, byte_at_key, as_cstr-key, has_type-some, value_message,
  value_response-stored, apply_all_connections-finished,
}

-- A store in which the key has a value.
pub send_value-stored :
    (key : List ℕ) (dt : ℕ) (d : Dtype) (ds : Storage) (st : IsStored d ds) (s : Server)
    → get_implementor dt ≡ some d
    → get_object (make_hash key) s.tree ≡ done (some (stored key dt ds))
    → send_value key s ≡ finished (value_message key dt st.text)
unfolding send_value
send_value-stored key dt d ds st s i e = rw e (value_response-stored key dt d ds st i)

get_handler-stored :
    (conn : ℕ) (key : List ℕ) (dt : ℕ) (d : Dtype) (ds : Storage) (st : IsStored d ds) (s : Server)
    → AreNonzero key
    → get_implementor dt ≡ some d
    → get_object (make_hash key) s.tree ≡ done (some (stored key dt ds))
    → get_handler conn s (key ++ 0 ∷ []) ≡ finished (s, (conn, value_message key dt st.text) ∷ [])
unfolding get_handler
get_handler-stored conn key dt d ds st s h i e =
    rw (as_cstr-key key h) (rw (send_value-stored key dt d ds st s i e) refl)

broadcast_value-stored :
    (key : List ℕ) (dt : ℕ) (d : Dtype) (ds : Storage) (st : IsStored d ds) (s : Server)
    → get_implementor dt ≡ some d
    → get_object (make_hash key) s.tree ≡ done (some (stored key dt ds))
    → broadcast_value key s
      ≡ finished (s, map (λ c. (c, value_message key dt st.text)) s.connections)
unfolding broadcast_value
broadcast_value-stored key dt d ds st s i e =
    rw
      (apply_all_connections-finished s.connections (send_value key s)
        (value_message key dt st.text) (send_value-stored key dt d ds st s i e))
      refl

pub set_handler-store_value :
    (conn : ℕ) (s : Server) (key : List ℕ) (dt : ℕ) (d : Dtype) (src : List ℕ)
    → AreNonzero key
    → get_implementor dt ≡ some d
    → set_handler conn s (key ++ 0 ∷ dt ∷ src) ≡ store_value conn s key dt src
unfolding set_handler
set_handler-store_value conn s key dt d src h i =
    let size = length-append {0} key (0 ∷ dt ∷ src) in
    let enough : ltb (length (key ++ 0 ∷ dt ∷ src) - length key) 2 ≡ false = ground (arith, size) in
    rw
      (
        text_length-key key (dt ∷ src) h,
        byte_at_key key 0 dt src,
        take-append key (0 ∷ dt ∷ src),
        drop_key key 0 dt src,
        has_type-some dt d i,
        enough,
      )
      refl

pub same_key : (q : ℕ) (a b : Option DbObject) → (if q == q then a else b) ≡ a
same_key q a b = ground arith

pub store_value-Stands :
    (conn : ℕ) (s : Server) (key : List ℕ) (dt : ℕ) (d : Dtype) (src : List ℕ) (n : ℕ)
    (ds : Storage) (st : IsStored d ds) (t' : Tree DbObject)
    → get_implementor dt ≡ some d
    → set_value key dt src s.tree ≡ finished (done t')
    → get_object (make_hash key) t' ≡ done (some (stored key dt ds))
    → store_value conn s key dt src
      ≡ finished
          (record s { tree = t' }, map (λ c. (c, value_message key dt st.text)) s.connections)
unfolding store_value
store_value-Stands conn s key dt d src n ds st t' i run e =
    rw run (broadcast_value-stored key dt d ds st (record s { tree = t' }) i e)

-- A message with a key that has no zero byte, its zero, a known type and bytes that this type can
-- load, on a valid tree that stands for `f`: `set_handler` runs without a fault, leaves a valid tree
-- that stands for `f` with the loaded object at the hash of the key, and writes to every connection,
-- the client's own among them, one message with the key, the type and a text of the value. This text
-- is loaded as the same value again, and `get_handler` for the key then writes the same message to
-- the one who asked.
pub get_handler-set_handler :
    (conn : ℕ) (s : Server) (key : List ℕ) (dt : ℕ) (d : Dtype) (src : List ℕ) (n : ℕ)
    (ds : Storage) (f : ℕ → Option DbObject)
    → AreNonzero key
    → AreBytes src
    → get_implementor dt ≡ some d
    → load_storage d src ≡ finished (n, ds)
    → IsTree order s.tree
    → Stands order s.tree.root f
    → (t' : Tree DbObject) × (text : List ℕ) × (used : ℕ) × (set_handler conn s
          (key ++ 0 ∷ dt ∷ src)
        ≡ finished
            (record s { tree = t' }, map (λ c. (c, value_message key dt text)) s.connections))
      × IsTree order t'
      × Stands order t'.root (λ q. if q == make_hash key then some (stored key dt ds) else f q)
      × (load_storage d text ≡ finished (used, ds))
      × ((asker : ℕ)
          → get_handler asker (record s { tree = t' }) (key ++ 0 ∷ [])
            ≡ finished (record s { tree = t' }, (asker, value_message key dt text) ∷ []))
get_handler-set_handler conn s key dt d src n ds f h bs i e is sts =
    let st = load_storage-IsStored d src n ds bs e in
    let (t', run, is', sts') = set_value-Stands key dt d src s.tree f n ds i e is sts in
    let there =
      get_object-Stands (make_hash key) t' _ sts' (make_hash-lt key)
      ∙ ap (λ (o : Option DbObject). done o)
          (same_key (make_hash key) (some (stored key dt ds)) (f (make_hash key))) in
    (
      t',
      st.text,
      st.used,
      set_handler-store_value conn s key dt d src h i
          ∙ store_value-Stands conn s key dt d src n ds st t' i run there,
      is',
      sts',
      st.again,
      λ asker. get_handler-stored asker key dt d ds st (record s { tree = t' }) h i there,
    )
