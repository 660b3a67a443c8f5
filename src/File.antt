-- ===== src/File.antt =====
-- The file behind the database (StateDatabase/db.h, db_header.h, db_header.cpp, basic_types.h,
-- utils.h, utils.cpp): a magic value and a header. The file is the sequence of its bytes.
use state_db.Base.{
  ℕ, zero, suc, ◌+◌, Bool, true, false, Option, none, some, List, [], ◌∷◌, ◌++◌, ◌&&◌, ltb, ◌==◌,
  if◌then◌else◌, length, drop, replicate, codes,
}
pub mod Header
pub mod Wrapper

-- `read_object_generic`: what a stream that ends too early does not give keeps its old bytes.
unfoldable pub read_bytes : List ℕ → List ℕ → List ℕ × List ℕ
read_bytes [] stream = ([], stream)
read_bytes (d ∷ ds) [] = (d ∷ ds, [])
read_bytes (d ∷ ds) (x ∷ stream) = let (more, rest) = read_bytes ds stream in (x ∷ more, rest)

abbrev pub read_byte : ℕ → List ℕ → ℕ × List ℕ
read_byte d [] = (d, [])
read_byte d (x ∷ stream) = (x, stream)

-- A write at the beginning of a file.
abbrev pub overwrite : List ℕ → List ℕ → List ℕ
overwrite new file = new ++ drop (length new) file

-- `char_arr::copy_from`: the bytes behind the text stay as they are. `none` is the exception for a
-- text that does not fit.
unfoldable pub copy_from : List ℕ → List ℕ → Option (List ℕ)
copy_from held str =
    if ltb (length held) (length str) then none else some (str ++ drop (length str) held)

abbrev pub name_size : ℕ
name_size = 32

abbrev pub description_size : ℕ
description_size = 256

pub record DbInfo : Type 0 where
  pub name : List ℕ
  pub description : List ℕ

-- `meta` has one field, the version.
pub record DbHeader : Type 0 where
  pub debug_mode : ℕ
  pub version : ℕ
  pub info : DbInfo

abbrev pub magic : List ℕ
magic = codes "StAtE1" ++ 0 ∷ []

-- `db_magic::verify`, on seven bytes.
unfoldable pub verify : List ℕ → List ℕ → Bool
verify [] [] = true
verify (x ∷ xs) (m ∷ ms) = (x == m) && verify xs ms
verify _ _ = false

abbrev pub description_text : Bool → List ℕ
description_text true = codes "A STATE database (1.0.0-debug)"
description_text false = codes "A STATE database (1.0.0)"

-- `DEBUG_BOOL`, as a byte.
abbrev pub debug_byte : Bool → ℕ
debug_byte true = 1
debug_byte false = 0

unfoldable pub write_info : DbInfo → List ℕ
write_info i = i.name ++ i.description

unfoldable pub read_info : DbInfo → List ℕ → DbInfo × List ℕ
unfolding read_bytes
read_info i stream =
    let (n, rest) = read_bytes i.name stream in
    let (d, rest') = read_bytes i.description rest in (record { name = n; description = d }, rest')

abbrev pub info_size : DbInfo → ℕ
info_size i = name_size + description_size

unfoldable pub write_header : DbHeader → List ℕ
unfolding write_info
write_header h = h.debug_mode ∷ h.version ∷ write_info h.info

unfoldable pub read_header : DbHeader → List ℕ → DbHeader × List ℕ
unfolding read_info
read_header h stream =
    let (m, rest) = read_byte h.debug_mode stream in
    let (v, rest') = read_byte h.version rest in
    let (i, rest'') = read_info h.info rest' in
    (record { debug_mode = m; version = v; info = i }, rest'')

-- `db_header::get_size`, where the version has one byte.
abbrev pub header_size : DbHeader → ℕ
header_size h = 1 + info_size h.info

-- A header as it is constructed.
abbrev pub new_header : Bool → DbHeader
new_header debug = record {
  debug_mode = debug_byte debug;
  version = 1;
  info = record { name = replicate name_size 0; description = replicate description_size 0 };
}

abbrev pub both_set : Option (List ℕ) → Option (List ℕ) → Option DbInfo
both_set none n = none
both_set (some d) none = none
both_set (some d) (some n) = some (record { name = n; description = d })

unfoldable pub info_defaults : Bool → DbInfo → Option DbInfo
unfolding copy_from
info_defaults debug i =
    both_set (copy_from i.description (description_text debug)) (copy_from i.name (codes "DB"))

abbrev pub with_info : DbHeader → Option DbInfo → Option DbHeader
with_info h none = none
with_info h (some i) = some (record h { version = 1; info = i })

unfoldable pub set_defaults : Bool → DbHeader → Option DbHeader
unfolding info_defaults
set_defaults debug h = with_info h (info_defaults debug h.info)

-- What a call comes to. `exception` is a `db_exception`, `double_free` the deletion of an object that
-- is gone, and `wild_delete` the deletion of what a pointer that was never set happens to hold.
pub data Attempt (A : Type 0) : Type 0 where
  success : A → Attempt A
  exception double_free wild_delete : Attempt A

abbrev pub then_attempt : {A B : Type 0} → Attempt A → (A → Attempt B) → Attempt B
then_attempt (success a) f = f a
then_attempt exception f = exception
then_attempt double_free f = double_free
then_attempt wild_delete f = wild_delete

abbrev pub or_exception : {A : Type 0} → Option A → Attempt A
or_exception none = exception
or_exception (some a) = success a

-- `reset_inner` of a `db` that was just constructed: no constructor sets `inner`, so the memory of the
-- object decides what it is, `held`. Zero is null; any other address is deleted. What it leaves is
-- the header of a new `db_inner`.
unfoldable pub reset_inner : Bool → ℕ → Attempt DbHeader
reset_inner debug held = if held == 0 then success (new_header debug) else wild_delete

-- `make_fresh` of a new `db`: the header, and the file afterwards. The magic value is written before
-- `generate_inner` comes to the pointer.
abbrev pub fresh_file : List ℕ → DbHeader → DbHeader × List ℕ
fresh_file file h = (h, overwrite (magic ++ write_header h) file)

-- `generate_inner`.
unfoldable pub generate_inner : Bool → ℕ → Attempt DbHeader
unfolding reset_inner set_defaults
generate_inner debug held =
    then_attempt (reset_inner debug held) (λ h. or_exception (set_defaults debug h))

unfoldable pub make_fresh : Bool → ℕ → List ℕ → Attempt (DbHeader × List ℕ)
unfolding generate_inner write_header
make_fresh debug held file =
    then_attempt (generate_inner debug held) (λ h. success (fresh_file file h))

-- What follows the magic value, once it has been read.
abbrev pub accept : DbHeader → List ℕ × List ℕ → Option DbHeader
accept h (m, rest) = if verify m magic then some (read_header h rest).0 else none

-- `_load` with `verify_magic`, where `h` is the header of the new `db_inner`: the magic value is read
-- over one that is right already. `none` is the exception.
unfoldable pub load_header : DbHeader → List ℕ → Option DbHeader
unfolding read_bytes verify read_header
load_header h file = accept h (read_bytes magic file)

-- `reload` of a new `db`.
unfoldable pub reload : Bool → ℕ → List ℕ → Attempt DbHeader
unfolding reset_inner load_header
reload debug held file =
    then_attempt (reset_inner debug held) (λ h. or_exception (load_header h file))
