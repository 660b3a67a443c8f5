-- ===== src/Db/Laws.antt =====
-- What the operations of `db` promise (StateDatabase/db.cpp).
use state_db.Base.{
  ℕ, ◌+◌, ◌*◌, ◌%◌, ◌<◌, ◌≡◌, refl, Option, some, List, [], ◌∷◌, ◌==◌, if◌then◌else◌, done, arith,
}
use state_db.Bpt.LeafList.{size_mod}
use state_db.Bpt.Tree
use state_db.Bpt.Tree.{Tree}
use state_db.Bpt.Tree.Refines.{IsTree, Stands, set-Stands}
use state_db.Dtypes.{finished}
use state_db.Object
use state_db.Object.{DbObject, Dtype, Storage, get_implementor, load_storage, clear}
use state_db.Db.{order, widen, hash_from, make_hash, get_object, set_value}

hash_from-lt : (h : ℕ) (key : List ℕ) → h < size_mod → hash_from h key < size_mod
unfolding hash_from
hash_from-lt h [] l = l
hash_from-lt h (c ∷ cs) l =
    hash_from-lt ((h * 32 % size_mod + h + widen c) % size_mod) cs (omega arith)

pub make_hash-lt : (key : List ℕ) → make_hash key < size_mod
unfolding make_hash
make_hash-lt key = hash_from-lt 5381 key (omega arith)

-- The object that `set_value` stores.
abbrev pub stored : List ℕ → ℕ → Storage → DbObject
stored key dt ds = record { ds = ds; dtype = dt; key = key }

pub made :
    (key : List ℕ) (dt : ℕ) (d : Dtype)
    → get_implementor dt ≡ some d
    → Object.make dt key ≡ finished (stored key dt (Object.init d))
unfolding Object.make clear
made key dt d i = rw i refl

loaded :
    (key : List ℕ) (dt : ℕ) (d : Dtype) (src : List ℕ) (n : ℕ) (old ds : Storage)
    → get_implementor dt ≡ some d
    → load_storage d src ≡ finished (n, ds)
    → Object.load src (stored key dt old) ≡ finished (n, stored key dt ds)
unfolding Object.load
loaded key dt d src n old ds i e = rw i (rw e refl)

-- What `set_value` comes to where the bytes are loaded.
pub set_value-set :
    (key : List ℕ) (dt : ℕ) (d : Dtype) (src : List ℕ) (t : Tree DbObject) (n : ℕ) (ds : Storage)
    → get_implementor dt ≡ some d
    → load_storage d src ≡ finished (n, ds)
    → set_value key dt src t ≡ finished (Tree.set order (make_hash key) (stored key dt ds) t)
unfolding set_value
set_value-set key dt d src t n ds i e =
    rw (made key dt d i) (rw (loaded key dt d src n (Object.init d) ds i e) refl)

pub set_value-Stands :
    (key : List ℕ) (dt : ℕ) (d : Dtype) (src : List ℕ) (t : Tree DbObject) (f : ℕ → Option DbObject)
    (n : ℕ) (ds : Storage)
    → get_implementor dt ≡ some d
    → load_storage d src ≡ finished (n, ds)
    → IsTree order t
    → Stands order t.root f
    → (t' : Tree DbObject) × (set_value key dt src t ≡ finished (done t'))
      × IsTree order t'
      × Stands order t'.root (λ q. if q == make_hash key then some (stored key dt ds) else f q)
set_value-Stands key dt d src t f n ds i e is st =
    let (t', run, is', st') =
      set-Stands order (omega arith) (omega arith) (make_hash key) (stored key dt ds) t f
        (make_hash-lt key) is st in
    (t', rw (set_value-set key dt d src t n ds i e, run) refl, is', st')

pub get_object-Stands :
    (q : ℕ) (t : Tree DbObject) (f : ℕ → Option DbObject)
    → Stands order t.root f
    → q < size_mod
    → get_object q t ≡ done (f q)
unfolding get_object Tree.get
get_object-Stands q t f st h = st q h

-- Where the type has an implementor that can load the bytes, `set_value` on a valid tree that stands
-- for `f` runs without a fault and keeps the tree valid, and `get_object` then finds for a `size_t`
-- that is the hash of the key the object that was loaded, and for any other what `f` gives.
pub get_object-set_value :
    (key : List ℕ) (dt : ℕ) (d : Dtype) (src : List ℕ) (t : Tree DbObject) (f : ℕ → Option DbObject)
    (n : ℕ) (ds : Storage) (q : ℕ)
    → get_implementor dt ≡ some d
    → load_storage d src ≡ finished (n, ds)
    → IsTree order t
    → Stands order t.root f
    → q < size_mod
    → (t' : Tree DbObject) × (set_value key dt src t ≡ finished (done t'))
      × IsTree order t'
      × (get_object q t'
          ≡ done (
              if q == make_hash key then some (record { ds = ds; dtype = dt; key = key }) else f q))
get_object-set_value key dt d src t f n ds q i e is st h =
    let (t', run, is', st') = set_value-Stands key dt d src t f n ds i e is st in
    (t', run, is', get_object-Stands q t' _ st' h)
