-- ===== src/Server/Listing.antt =====
-- A listing (`get_all_handler` of StateDatabase/asio_server.cpp) on a tree whose leaves can be
-- walked.
use state_db.Base.{ℕ, ◌≡◌, refl, Option, some, List, [], ◌∷◌, done, arith, ap, ◌∙◌, sym}
use state_db.Bpt.LeafList.{size_mod}
use state_db.Bpt.LeafList.Joined.{Each, Each-find}
use state_db.Bpt.Tree.Refines.{IsTree, Stands}
use state_db.Bpt.Iterate.Writes.{RootThreaded, Shows, root-Shows}
use state_db.Db.{order, make_hash, get_object}
use state_db.Db.Laws.{get_object-Stands}
use state_db.Dtypes.{finished}
use state_db.Object.{DbObject, Dtype, get_implementor}
use state_db.Object.Stored.{IsStored}
use state_db.Server.{Server, Response, send_value, send_each, get_all_handler, value_response}
use state_db.Server.Runs.{value_message, value_response-stored}

-- An object whose value can be written, under the hash of its key.
pub record IsHeld (q : ℕ) (o : DbObject) : Type 0 where
  pub hashed : make_hash o.key ≡ q
  pub type : Dtype
  pub known : get_implementor o.dtype ≡ some type
  pub value : IsStored type o.ds

abbrev pub AreHeld : (ℕ → Option DbObject) → Type 0
AreHeld f = (q : ℕ) (o : DbObject) → f q ≡ some o → IsHeld q o

-- The server's tree is valid, stands for `f`, can be walked, and holds what can be written.
pub record Serves (s : Server) (f : ℕ → Option DbObject) : Type 0 where
  pub valid : IsTree order s.tree
  pub stands : Stands order s.tree.root f
  pub threaded : RootThreaded s.tree.fresh s.tree.root
  pub held : AreHeld f

-- The answers: for each pair in turn the message with its value, to the one who asked.
abbrev pub Answers : ℕ → List (ℕ × DbObject) → List (ℕ × Response) → Type 0
Answers conn [] [] = Unit {0}
Answers conn [] (r ∷ rs) = ⊥
Answers conn (p ∷ ps) [] = ⊥
Answers conn ((q, o) ∷ ps) ((c, r) ∷ rs) =
    (c ≡ conn) × (value_response o ≡ finished r) × Answers conn ps rs

-- The object is what the server finds under the hash.
abbrev pub IsServed : Server → ℕ → DbObject → Type 0
IsServed s q o = IsHeld q o × (get_object q s.tree ≡ done (some o))

send_value-held :
    (s : Server) (q : ℕ) (o : DbObject) (h : IsHeld q o)
    → get_object q s.tree ≡ done (some o)
    → (r : Response) × (send_value o.key s ≡ finished r) × (value_response o ≡ finished r)
unfolding send_value
send_value-held s q o h e =
    let r = value_response-stored o.key o.dtype h.type o.ds h.value h.known in
    (value_message o.key o.dtype h.value.text, rw (h.hashed, e) r, r)

send_each-Answers :
    (conn : ℕ) (s : Server) (ps : List (ℕ × DbObject))
    → Each (IsServed s) ps
    → (rs : List (ℕ × Response)) × (send_each conn s ps ≡ finished rs) × Answers conn ps rs
unfolding send_each
send_each-Answers conn s [] h = ([], refl, tt)
send_each-Answers conn s ((q, o) ∷ ps) h =
    let (r, e, v) = send_value-held s q o h.0.0 h.0.1 in
    let (rs, es, vs) = send_each-Answers conn s ps h.1 in
    ((conn, r) ∷ rs, rw e (rw es refl), (refl, v, vs))

-- On a server that serves `f`, a listing runs without a fault, leaves the server as it was, and requests
-- of the connection that asked for each pair of the map `f` one message with its value, in the order of the
-- hashes.
pub get_all_handler-Serves :
    (conn : ℕ) (s : Server) (f : ℕ → Option DbObject)
    → Serves s f
    → (ps : List (ℕ × DbObject)) × (rs : List (ℕ × Response)) × (get_all_handler conn s
        ≡ finished (s, rs))
      × Shows ps f
      × Answers conn ps rs
unfolding get_all_handler
get_all_handler-Serves conn s f h =
    let (ps, e, shows) =
      root-Shows order (omega arith) (omega arith) s.tree.root s.tree.fresh s.tree.junk f
        h.valid.fits h.stands h.threaded in
    let served : Each (IsServed s) ps =
      Each-find (IsServed s) 0 size_mod ps shows.0 shows.1 (λ q o l l' found.
        let there = sym (shows.2 q l') ∙ found in
        (
          h.held q o there,
          get_object-Stands q s.tree f h.stands l' ∙ ap (λ (x : Option DbObject). done x) there,
        )) in
    let (rs, run, answers) = send_each-Answers conn s ps served in
    (ps, rs, rw e (rw run refl), shows, answers)
