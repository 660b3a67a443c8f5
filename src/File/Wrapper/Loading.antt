-- ===== src/File/Wrapper/Loading.antt =====
-- What `load_data` of `db_wrapper` (StateDatabase/db_wrapper.h) leaves, at the first start and later.
use state_db.Base.{
  ℕ, ◌≡◌, ◌<◌, refl, Bool, true, false, Option, some, List, [], ◌∷◌, ltb, if◌then◌else◌, length,
  arith, ap, ◌∙◌, sym, Bool-cases, inl, inr, of_some, ◌++◌, ◌⊎◌, ◌==◌,
}
use state_db.File.{
  overwrite, magic, write_header, DbHeader, new_header, set_defaults, make_fresh, reload, Attempt,
  success, wild_delete, then_attempt, generate_inner, reset_inner,
}
use state_db.File.Header.{IsSized, make_fresh-defaults, reload-overwrite, defaults}
use state_db.File.Wrapper.{
  Pointer, null, freed, live, DbWrapper, content, delete_pointer, dispose, open_file, clear_file,
  verify_file, load_data,
}

-- A pointer that may be deleted.
abbrev pub IsOwned : {A : Type 0} → Pointer A → Type 0
IsOwned null = Unit {0}
IsOwned freed = ⊥
IsOwned (live a) = Unit {0}

-- A wrapper that was not disposed of by hand.
pub record IsUsable (w : DbWrapper) : Type 0 where
  pub stream : IsOwned w.stream
  pub database : IsOwned w.db_

-- The database has the header, and the file gives it back.
pub record Keeps (debug : Bool) (h : DbHeader) (w : DbWrapper) : Type 0 where
  pub usable : IsUsable w
  pub header : w.db_ ≡ live h
  pub kept : reload debug 0 (content w.file) ≡ success h

delete_pointer-IsOwned :
    {A : Type 0} (p : Pointer A) → IsOwned p → (q : Pointer A) × (delete_pointer p ≡ success q)
unfolding delete_pointer
delete_pointer-IsOwned null h = (null, refl)
delete_pointer-IsOwned freed h = absurd h
delete_pointer-IsOwned (live a) h = (freed, refl)

dispose-IsUsable :
    (w : DbWrapper) → IsUsable w → (w' : DbWrapper) × (dispose w ≡ success w') × (w'.file ≡ w.file)
unfolding dispose
dispose-IsUsable w u =
    let (d, e) = delete_pointer-IsOwned w.db_ u.database in
    let (s, e') = delete_pointer-IsOwned w.stream u.stream in
    (record w { stream = s; db_ = d }, rw (e, e') refl, refl)

-- The header that `make_fresh` makes.
abbrev pub IsDefault : Bool → DbHeader → Type 0
IsDefault debug h = set_defaults debug (new_header debug) ≡ some h

-- `load_data` succeeds, and the wrapper keeps the header.
abbrev pub Loads : Bool → DbHeader → Attempt DbWrapper → Type 0
Loads debug h r = (w' : DbWrapper) × (r ≡ success w') × Keeps debug h w'

IsDefault-IsSized : (debug : Bool) (h : DbHeader) → IsDefault debug h → IsSized h
IsDefault-IsSized debug h e =
    let (h', e', s) = defaults debug in of_some IsSized h' h (sym e' ∙ e) s

abbrev with_fresh : DbWrapper → Attempt (DbHeader × List ℕ) → Attempt DbWrapper
with_fresh w a = then_attempt a (λ (h, file). success (record w { file = some file; db_ = live h }))

abbrev with_header : DbWrapper → Attempt DbHeader → Attempt DbWrapper
with_header w a = then_attempt a (λ h. success (record w { db_ = live h }))

with_fresh-Loads :
    (debug : Bool) (h : DbHeader) (w : DbWrapper)
    → IsDefault debug h
    → IsOwned w.stream
    → Loads debug h (with_fresh w (make_fresh debug 0 (content w.file)))
with_fresh-Loads debug h w e o =
    let bytes = overwrite (magic ++ write_header h) (content w.file) in
    (
      record w { file = some bytes; db_ = live h },
      ap (with_fresh w) (make_fresh-defaults debug (content w.file) h e),
      record {
        usable = record { stream = o; database = tt };
        header = refl;
        kept = reload-overwrite debug h (content w.file) (IsDefault-IsSized debug h e);
      },
    )

with_header-Loads :
    (debug : Bool) (h : DbHeader) (w : DbWrapper)
    → reload debug 0 (content w.file) ≡ success h
    → IsOwned w.stream
    → Loads debug h (with_header w (reload debug 0 (content w.file)))
with_header-Loads debug h w e o = (
  record w { db_ = live h },
  ap (with_header w) e,
  record { usable = record { stream = o; database = tt }; header = refl; kept = e },
)

-- The wrapper after `open_file`, and after the one in `clear_file`.
abbrev opened : Option (List ℕ) → Pointer DbHeader → DbWrapper
opened file d = record { file = some (content file); stream = live true; db_ = d }

kept_above :
    (debug : Bool) (minimal : ℕ) (h : DbHeader) (bytes : List ℕ)
    → (length bytes < minimal) ⊎ (reload debug 0 bytes ≡ success h)
    → ltb (length bytes) minimal ≡ false
    → reload debug 0 bytes ≡ success h
kept_above debug minimal h bytes (inl l) f = absurd (ground arith)
kept_above debug minimal h bytes (inr k) f = k

verify_file-Loads :
    (debug truncates : Bool) (minimal : ℕ) (h : DbHeader) (file : Option (List ℕ))
    (d : Pointer DbHeader)
    → IsDefault debug h
    → (length (content file) < minimal) ⊎ (reload debug 0 (content file) ≡ success h)
    → Loads debug h (verify_file debug 0 true truncates minimal (opened file d))
unfolding verify_file clear_file
verify_file-Loads debug truncates minimal h file d e c =
    elim (Bool-cases (ltb (length (content file)) minimal)) [
      | inl t ↦ rw t (
          with_fresh-Loads debug h (opened (if truncates then some [] else some (content file)) d) e
            tt)
      | inr f ↦ rw f (
          with_header-Loads debug h (opened file d) (kept_above debug minimal h (content file) c f)
            tt)
    ]

-- A file that is too short, or that gives the default header, and a wrapper that may be used.
load_data-Loads :
    (debug truncates : Bool) (minimal : ℕ) (h : DbHeader) (w : DbWrapper)
    → IsDefault debug h
    → IsUsable w
    → (length (content w.file) < minimal) ⊎ (reload debug 0 (content w.file) ≡ success h)
    → Loads debug h (load_data debug 0 true truncates minimal w)
unfolding load_data open_file
load_data-Loads debug truncates minimal h w e u c =
    let (w', ran, same) = dispose-IsUsable w u in
    rw (ran, same) (verify_file-Loads debug truncates minimal h w.file w'.db_ e c)

-- `load_data` on a wrapper that has loaded, or on a new one for the same file, where the object
-- may have another size, the file system another way with `in | trunc`, and the memory of the new `db`
-- held something else.
pub record Start : Type 0 where
  pub restarted : Bool
  pub truncates : Bool
  pub minimal : ℕ
  pub held : ℕ

-- `true` is for a new wrapper.
abbrev pub started : Bool → DbWrapper → DbWrapper
started true w = record { file = w.file; stream = null; db_ = null }
started false w = w

abbrev pub load_all : Bool → List Start → DbWrapper → Attempt DbWrapper
load_all debug [] w = success w
load_all debug (s ∷ ss) w =
    then_attempt (load_data debug s.held true s.truncates s.minimal (started s.restarted w))
      (load_all debug ss)

-- The memory of every `db` that is constructed was zeroed, so that its `inner` is null.
abbrev pub AreZeroed : List Start → Type 0
AreZeroed [] = Unit {0}
AreZeroed (s ∷ ss) = (s.held ≡ 0) × AreZeroed ss

started-Keeps :
    (debug : Bool) (h : DbHeader) (restarted : Bool) (w : DbWrapper)
    → Keeps debug h w
    → IsUsable (started restarted w) × ((started restarted w).file ≡ w.file)
started-Keeps debug h true w k = (record { stream = tt; database = tt }, refl)
started-Keeps debug h false w k = (k.usable, refl)

load_all-Keeps :
    (debug : Bool) (h : DbHeader) (starts : List Start) (w : DbWrapper)
    → IsDefault debug h
    → Keeps debug h w
    → AreZeroed starts
    → Loads debug h (load_all debug starts w)
load_all-Keeps debug h [] w e k z = (w, refl, k)
load_all-Keeps debug h (s ∷ ss) w e k z =
    let (u, same) = started-Keeps debug h s.restarted w k in
    let (w', ran, k') =
      load_data-Loads debug s.truncates s.minimal h (started s.restarted w) e u
        (inr (ap (λ (f : Option (List ℕ)). reload debug 0 (content f)) same ∙ k.kept)) in
    rw (z.0, ran) (load_all-Keeps debug h ss w' e k' z.1)

-- Where the file can be opened, and the memory of every `db` that is constructed was zeroed, so that
-- its `inner` is null: a usable wrapper whose file is missing or shorter than the size asked for loads,
-- and makes the default header. Every later `load_data`, of the same wrapper or of a new one for that
-- file, and whatever size it asks for and whether or not `in | trunc` empties a file, succeeds too, and
-- leaves the same header in memory and one that `reload` reads from the file.
pub load_data-load_all :
    (debug : Bool) (first : Start) (later : List Start) (w : DbWrapper)
    → IsUsable w
    → length (content w.file) < first.minimal
    → AreZeroed (first ∷ later)
    → (h : DbHeader) × IsDefault debug h
      × (w' : DbWrapper) × (load_data debug first.held true first.truncates first.minimal w
          ≡ success w')
      × Keeps debug h w'
      × Loads debug h (load_all debug later w')
load_data-load_all debug first later w u short z =
    let (h, e, s) = defaults debug in
    let (w', ran, k) = load_data-Loads debug first.truncates first.minimal h w e u (inl short) in
    (
      h,
      e,
      w',
      ap (λ (held : ℕ). load_data debug held true first.truncates first.minimal w) z.0 ∙ ran,
      k,
      load_all-Keeps debug h later w' e k z.1,
    )

-- Where the file can be opened, and the memory of the `db` that is constructed held anything but zero,
-- `load_data` of a usable wrapper deletes what that points at, whatever the file holds and whatever size
-- is asked for.
pub load_data-wild_delete :
    (debug truncates : Bool) (held minimal : ℕ) (w : DbWrapper)
    → IsUsable w
    → 0 < held
    → load_data debug held true truncates minimal w ≡ wild_delete
unfolding load_data open_file verify_file clear_file make_fresh generate_inner reset_inner reload
load_data-wild_delete debug truncates held minimal w u h =
    let (w', ran, same) = dispose-IsUsable w u in
    let wild : (held == 0) ≡ false = ground (arith, h) in
    elim (Bool-cases (ltb (length (content w.file)) minimal)) [
      | inl t ↦ rw (ran, same, t, wild) refl
      | inr f ↦ rw (ran, same, f, wild) refl
    ]
