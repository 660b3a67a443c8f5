-- ===== src/Server/Listed.antt =====
-- A listing (`get_all_handler` of StateDatabase/asio_server.cpp) after any sequence of sets that clients
-- send.
use state_db.Base.{
  ℕ, ◌≡◌, refl, Option, none, some, List, [], ◌∷◌, ◌++◌, ◌==◌, if◌then◌else◌, map, done, Outcome,
  arith, ap, ◌∙◌, Bool-cases, inl, inr,
}
use state_db.BigInt.Text.Read.{AreNonzero}
use state_db.Bpt.Tree.{Tree}
use state_db.Bpt.Tree.Refines.{set-Stands}
use state_db.Bpt.Iterate.Writes.{Shows, set-IsThreaded}
use state_db.Db.{order, make_hash}
use state_db.Db.Laws.{stored, make_hash-lt, set_value-set, get_object-Stands}
use state_db.Dtypes.{finished, then_run}
use state_db.Dtypes.Loaded.{AreBytes}
use state_db.Object.{DbObject, Dtype, Storage, get_implementor, load_storage}
use state_db.Object.Stored.{load_storage-IsStored}
use state_db.Server.{Server, Response, Served, set_handler, get_all_handler}
use state_db.Server.Runs.{value_message}
use state_db.Server.Store.{same_key, set_handler-store_value, store_value-Stands}
use state_db.Bpt.Tree.{get_root}
use state_db.Server.Listing.{AreHeld, Serves, Answers, get_all_handler-Serves}

-- A set that a client sends: the key, the type with its implementor, and the bytes, of which the
-- implementor loads `count` as `value`.
pub record Write : Type 0 where
  pub key : List ℕ
  pub dt : ℕ
  pub type : Dtype
  pub src : List ℕ
  pub count : ℕ
  pub value : Storage

pub record IsAccepted (w : Write) : Type 0 where
  pub nonzero : AreNonzero w.key
  pub bytes : AreBytes w.src
  pub known : get_implementor w.dt ≡ some w.type
  pub loads : load_storage w.type w.src ≡ finished (w.count, w.value)

abbrev pub AreAccepted : List Write → Type 0
AreAccepted [] = Unit {0}
AreAccepted (w ∷ ws) = IsAccepted w × AreAccepted ws

abbrev pub object_of : Write → DbObject
object_of w = stored w.key w.dt w.value

-- The map after one more write.
abbrev pub written : Write → (ℕ → Option DbObject) → ℕ → Option DbObject
written w f q = if q == make_hash w.key then some (object_of w) else f q

abbrev pub all_written : List Write → (ℕ → Option DbObject) → ℕ → Option DbObject
all_written [] f = f
all_written (w ∷ ws) f = all_written ws (written w f)

-- The clients' sets, one after the other, and everything that is written meanwhile.
abbrev pub set_each : ℕ → List Write → Server → Served
set_each conn [] s = finished (s, [])
set_each conn (w ∷ ws) s =
    then_run (set_handler conn s (w.key ++ 0 ∷ w.dt ∷ w.src))
      (λ (s', out). then_run (set_each conn ws s') (λ (s'', more). finished (s'', out ++ more)))

AreHeld-written :
    (w : Write) (f : ℕ → Option DbObject) → IsAccepted w → AreHeld f → AreHeld (written w f)
AreHeld-written w f a h q o e = elim (Bool-cases (q == make_hash w.key)) [
  | inl here ↦
      let same : object_of w ≡ o = ground (arith, rw here at e) in
      let hash : make_hash w.key ≡ q = ground (arith, here) in
      rw (← same) (record {
        hashed = hash;
        type = w.type;
        known = a.known;
        value = load_storage-IsStored w.type w.src w.count w.value a.bytes a.loads;
      })
  | inr other ↦ h q o (rw other at e)
]

set_handler-Serves :
    (conn : ℕ) (w : Write) (s : Server) (f : ℕ → Option DbObject)
    → IsAccepted w
    → Serves s f
    → (s' : Server) × (out : List (ℕ × Response)) × (set_handler conn s (w.key ++ 0 ∷ w.dt ∷ w.src)
        ≡ finished (s', out))
      × Serves s' (written w f)
set_handler-Serves conn w s f a h =
    let o = object_of w in
    let lt = make_hash-lt w.key in
    let st = load_storage-IsStored w.type w.src w.count w.value a.bytes a.loads in
    let (t', run, is', stands') =
      set-Stands order (omega arith) (omega arith) (make_hash w.key) o s.tree f lt h.valid
        h.stands in
    let there =
      get_object-Stands (make_hash w.key) t' _ stands' lt
      ∙ ap (λ (x : Option DbObject). done x)
          (same_key (make_hash w.key) (some o) (f (make_hash w.key))) in
    let sets =
      set_value-set w.key w.dt w.type w.src s.tree w.count w.value a.known a.loads
      ∙ ap (λ (x : Outcome (Tree DbObject)). finished x) run in
    (
      record s { tree = t' },
      map (λ c. (c, value_message w.key w.dt st.text)) s.connections,
      set_handler-store_value conn s w.key w.dt w.type w.src a.nonzero a.known
          ∙ store_value-Stands conn s w.key w.dt w.type w.src w.count w.value st t' a.known sets
              there,
      record {
        valid = is';
        stands = stands';
        threaded =
            set-IsThreaded order (omega arith) (omega arith) (make_hash w.key) o s.tree t' lt
              h.valid h.threaded run;
        held = AreHeld-written w f a h.held;
      },
    )

set_each-Serves :
    (conn : ℕ) (ws : List Write) (s : Server) (f : ℕ → Option DbObject)
    → AreAccepted ws
    → Serves s f
    → (s' : Server) × (out : List (ℕ × Response)) × (set_each conn ws s ≡ finished (s', out))
      × Serves s' (all_written ws f)
set_each-Serves conn [] s f a h = (s, [], refl, h)
set_each-Serves conn (w ∷ ws) s f a h =
    let (s', out, run, h') = set_handler-Serves conn w s f a.0 h in
    let (s'', more, run', h'') = set_each-Serves conn ws s' (written w f) a.1 h' in
    (s'', out ++ more, rw run (rw run' refl), h'')

empty-Serves :
    (fresh : ℕ) (junk : ℕ → ℕ) (cs : List ℕ)
    → ((a : ℕ) → junk a ≡ 0)
    → Serves
        (record { tree = record { root = none; fresh = fresh; junk = junk }; connections = cs })
        (λ q. none)
unfolding get_root
empty-Serves fresh junk cs zeroed = record {
  valid = record { fits = tt; zeroed = zeroed };
  stands = λ q h. refl;
  threaded = tt;
  held = λ q o e. absurd (cc);
}

-- From a server with an empty tree, over memory that is handed out zeroed, any sequence of sets with
-- a key that has no zero byte, a known type and bytes that this type loads runs without a fault. A
-- listing then runs without a fault too, changes nothing, and requests of the connection that asked one
-- message with its value for each hash of a key that was set: the newest object under that hash. The
-- requests for the preambles are made in the order of the hashes, which is not that of the writes.
pub get_all_handler-set_each :
    (conn asker fresh : ℕ) (junk : ℕ → ℕ) (cs : List ℕ) (ws : List Write)
    → ((a : ℕ) → junk a ≡ 0)
    → AreAccepted ws
    → (s : Server) × (out : List (ℕ × Response)) × (ps : List (ℕ × DbObject)) × (rs : List
        (ℕ × Response))
      × (set_each conn ws
            (record { tree = record { root = none; fresh = fresh; junk = junk }; connections = cs })
          ≡ finished (s, out))
      × (get_all_handler asker s ≡ finished (s, rs))
      × Shows ps (all_written ws (λ q. none))
      × Answers asker ps rs
get_all_handler-set_each conn asker fresh junk cs ws zeroed a =
    let (s, out, run, h) =
      set_each-Serves conn ws _ (λ q. none) a (empty-Serves fresh junk cs zeroed) in
    let (ps, rs, run', shows, answers) = get_all_handler-Serves asker s _ h in
    (s, out, ps, rs, run, run', shows, answers)
