-- ===== src/Server/Removed.antt =====
-- What a client's delete does to the store, and what the connections are told of it (`delete_handler`
-- of StateDatabase/asio_server.cpp).
use state_db.Base.{
  ℕ, ◌≤◌, ◌≡◌, ◌≢◌, refl, Bool, true, false, Option, none, some, List, [], ◌∷◌, ◌++◌, ◌==◌,
  if◌then◌else◌, length, map, done, arith, ap, ◌∙◌,
}
use state_db.BigInt.Text.Read.{AreNonzero}
use state_db.Bpt.LeafList.{LeafList}
use state_db.Bpt.Node.{Node}
use state_db.Bpt.Remove.{delete}
use state_db.Bpt.Remove.Laws.{leaf_of}
use state_db.Bpt.Remove.Root.{delete-Stands}
use state_db.Bpt.Tree.{Tree}
use state_db.Bpt.Tree.Refines.{IsTree, Stands}
use state_db.Db.{order, make_hash, get_object, delete_object}
use state_db.Db.Laws.{make_hash-lt, get_object-Stands}
use state_db.Dtypes.{finished}
use state_db.Object.{DbObject}
use state_db.Server.{
  Server, Response, send_value, get_handler, delete_handler, deleted_responses, key_not_found,
}
use state_db.Server.Runs.{as_cstr-key, apply_all_connections-finished}

-- Who is told that a key is gone: everybody, where it was there, and otherwise who asked.
abbrev pub told : ℕ → List ℕ → List ℕ → Option DbObject → List (ℕ × Response)
told conn key cs none = (conn, key_not_found key) ∷ []
told conn key cs (some o) = map (λ c. (c, key_not_found key)) cs

deleted_responses-told :
    (conn : ℕ) (key cs : List ℕ) (b : Bool) (o : Option DbObject)
    → (b ≡ false → o ≡ none)
    → (b ≡ true → o ≢ none)
    → deleted_responses conn key cs b ≡ finished (told conn key cs o)
deleted_responses-told conn key cs false none miss hit = refl
deleted_responses-told conn key cs false (some o) miss hit = absurd (let e = miss refl in cc)
deleted_responses-told conn key cs true none miss hit = absurd (hit refl refl)
deleted_responses-told conn key cs true (some o) miss hit =
    apply_all_connections-finished cs (finished (key_not_found key)) (key_not_found key) refl

get_handler-missing :
    (conn : ℕ) (key : List ℕ) (s : Server)
    → AreNonzero key
    → get_object (make_hash key) s.tree ≡ done none
    → get_handler conn s (key ++ 0 ∷ []) ≡ finished (s, (conn, key_not_found key) ∷ [])
unfolding get_handler send_value
get_handler-missing conn key s h e = rw (as_cstr-key key h) (rw e refl)

delete_handler-deleted :
    (conn : ℕ) (key : List ℕ) (s : Server) (b : Bool) (t' : Tree DbObject) (o : Option DbObject)
    → AreNonzero key
    → delete (make_hash key) s.tree ≡ done (b, t')
    → (b ≡ false → o ≡ none)
    → (b ≡ true → o ≢ none)
    → delete_handler conn s (key ++ 0 ∷ [])
      ≡ finished (record s { tree = t' }, told conn key s.connections o)
unfolding delete_handler delete_object
delete_handler-deleted conn key s b t' o h run miss hit =
    rw (as_cstr-key key h)
      (rw run (rw (deleted_responses-told conn key s.connections b o miss hit) refl))

same_key : (q : ℕ) (a : Option DbObject) → (if q == q then none else a) ≡ none
same_key q a = ground arith

-- A message with a key that has no zero byte and its zero, on a valid tree that stands for `f` and
-- where the leaf that the hash leads to holds two pairs or more: `delete_handler` runs without a
-- fault, leaves a valid tree that stands for `f` without this hash, and tells every connection that
-- the key is gone where `f` had an object for it, otherwise only the one who asked. `get_handler`
-- for the key then says that it is gone.
pub get_handler-delete_handler :
    (conn : ℕ) (key cs : List ℕ) (t : Node DbObject) (fresh : ℕ) (junk : ℕ → ℕ)
    (f : ℕ → Option DbObject) (l : LeafList DbObject)
    → AreNonzero key
    → IsTree order (record { root = some t; fresh = fresh; junk = junk })
    → Stands order (some t) f
    → leaf_of (make_hash key) t ≡ done l
    → 2 ≤ length l.root
    → (t' : Tree DbObject) × (delete_handler conn
          (record { tree = record { root = some t; fresh = fresh; junk = junk }; connections = cs })
          (key ++ 0 ∷ [])
        ≡ finished (record { tree = t'; connections = cs }, told conn key cs (f (make_hash key))))
      × IsTree order t'
      × Stands order t'.root (λ q. if q == make_hash key then none else f q)
      × ((asker : ℕ)
          → get_handler asker (record { tree = t'; connections = cs }) (key ++ 0 ∷ [])
            ≡ finished (record { tree = t'; connections = cs }, (asker, key_not_found key) ∷ []))
get_handler-delete_handler conn key cs t fresh junk f l h is st e two =
    let (b, t', run, is', st', miss, hit) =
      delete-Stands order (omega arith) (make_hash key) t fresh junk f l (make_hash-lt key) is st e
        two in
    let gone =
      get_object-Stands (make_hash key) t' _ st' (make_hash-lt key)
      ∙ ap (λ (o : Option DbObject). done o) (same_key (make_hash key) (f (make_hash key))) in
    (
      t',
      delete_handler-deleted conn key
          (record { tree = record { root = some t; fresh = fresh; junk = junk }; connections = cs })
          b t' (f (make_hash key)) h run miss hit,
      is',
      st',
      λ asker. get_handler-missing asker key (record { tree = t'; connections = cs }) h gone,
    )
