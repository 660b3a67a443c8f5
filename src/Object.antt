-- ===== src/Object.antt =====
-- `db_object` (StateDatabase/object.h, object.cpp), with the table of the implementors and the
-- implementor of bigint (dtypes.h, dtypes.cpp).
use state_db.Base.{
  ℕ, zero, suc, ◌+◌, Bool, true, false, Option, none, some, List, [], ◌∷◌, ◌++◌, ◌==◌,
  if◌then◌else◌, length, take, replicate,
}
use state_db.BigInt.{BigInt, plus}
use state_db.BigInt.Text.{to_string, read}
use state_db.Dtypes.{
  Run, finished, insufficient, unknown_type, stray, Implementor, none_type, blob, string, fixed,
  require_at_least, copy, then_run, get_string_mxsz, load_from, load_to, get_size,
}
pub mod Bigints
pub mod Stored
mod Examples

-- An implementor, that of bigint among them.
pub data Dtype : Type 0 where
  plain : Implementor → Dtype
  bigint_type : Dtype

-- What a `data_storage_type` points to: bytes, or a `bigint`.
pub data Storage : Type 0 where
  bytes : List ℕ → Storage
  number : BigInt → Storage

-- `implementors_`, by the numbers of the types.
abbrev pub table : List (ℕ × Dtype)
table =
    (3, plain (fixed 1))
    ∷ (4, plain (fixed 1))
    ∷ (5, plain (fixed 2))
    ∷ (6, plain (fixed 2))
    ∷ (7, plain (fixed 4))
    ∷ (8, plain (fixed 4))
    ∷ (9, plain (fixed 4))
    ∷ (10, plain (fixed 8))
    ∷ (1, plain blob)
    ∷ (2, plain string)
    ∷ (0, plain none_type)
    ∷ (11, bigint_type)
    ∷ []

unfoldable pub find_type : ℕ → List (ℕ × Dtype) → Option Dtype
find_type dt [] = none
find_type dt ((i, d) ∷ rest) = let more = find_type dt rest in if i == dt then some d else more

unfoldable pub get_implementor : ℕ → Option Dtype
unfolding find_type
get_implementor dt = find_type dt table

abbrev pub is_some : Option Dtype → Bool
is_some none = false
is_some (some d) = true

unfoldable pub has_type : ℕ → Bool
unfolding get_implementor
has_type dt = is_some (get_implementor dt)

-- `is_numeric`; the static implementors are all of numbers.
abbrev pub is_numeric : Dtype → Bool
is_numeric (plain none_type) = false
is_numeric (plain blob) = false
is_numeric (plain string) = false
is_numeric (plain (fixed n)) = true
is_numeric bigint_type = true

-- `init`: a null pointer, a zero byte, a number that is zero.
abbrev pub init : Dtype → Storage
init (plain none_type) = bytes []
init (plain blob) = bytes []
init (plain string) = bytes (0 ∷ [])
init (plain (fixed n)) = bytes (replicate n 0)
init bigint_type = number (record { a = []; sign = plus })

-- `bigint_implementor::load_from`: the count that it returns leaves the zero byte out.
abbrev pub number_read : ℕ → Option BigInt → Run (ℕ × Storage)
number_read n none = stray
number_read n (some b) = finished (n, number b)

unfoldable pub load_bigint : List ℕ → Run (ℕ × Storage)
unfolding require_at_least get_string_mxsz read
load_bigint from =
    require_at_least (length from) 2
      (then_run (get_string_mxsz from) (λ (src, n). number_read n (read (take n src))))

unfoldable pub store_bigint : ℕ → BigInt → Run (List ℕ)
unfolding require_at_least to_string copy
store_bigint room b =
    let size = length (to_string b) + 1 in
    require_at_least room size (copy size room (to_string b ++ 0 ∷ []))

unfoldable pub size_bigint : BigInt → Run ℕ
unfolding to_string
size_bigint b = finished (length (to_string b) + 1)

-- The operations of an implementor on a storage. A storage of the other kind is never met.
unfoldable pub load_storage : Dtype → List ℕ → Run (ℕ × Storage)
unfolding load_bigint load_from
load_storage (plain i) from = then_run (load_from i from) (λ (n, value). finished (n, bytes value))
load_storage bigint_type from = load_bigint from

unfoldable pub write_storage : Dtype → ℕ → Storage → Run (List ℕ)
unfolding store_bigint load_to
write_storage (plain i) room (bytes value) = load_to i room value
write_storage (plain i) room (number b) = stray
write_storage bigint_type room (bytes value) = stray
write_storage bigint_type room (number b) = store_bigint room b

unfoldable pub size_storage : Dtype → Storage → Run ℕ
unfolding size_bigint get_size
size_storage (plain i) (bytes value) = get_size i value
size_storage (plain i) (number b) = stray
size_storage bigint_type (bytes value) = stray
size_storage bigint_type (number b) = size_bigint b

pub record DbObject : Type 0 where
  pub ds : Storage
  pub dtype : ℕ
  pub key : List ℕ

-- `get_implementor().value()`, before the rest of an operation.
abbrev pub with_implementor : {A : Type 0} → Option Dtype → (Dtype → Run A) → Run A
with_implementor none f = unknown_type
with_implementor (some d) f = f d

unfoldable pub clear : DbObject → Run DbObject
clear obj =
    with_implementor (get_implementor obj.dtype) (λ d. finished (record obj { ds = init d }))

-- The constructor.
unfoldable pub make : ℕ → List ℕ → Run DbObject
unfolding clear
make dt key = clear (record { ds = bytes []; dtype = dt; key = key })

unfoldable pub set_type : ℕ → DbObject → Run DbObject
unfolding clear has_type
set_type dt obj =
    if dt == obj.dtype
    then finished obj
    else if has_type dt
    then clear (record obj { dtype = dt })
    else unknown_type

unfoldable pub object_size : DbObject → Run ℕ
unfolding size_storage
object_size obj = with_implementor (get_implementor obj.dtype) (λ d. size_storage d obj.ds)

unfoldable pub write_to : ℕ → DbObject → Run (List ℕ)
unfolding write_storage
write_to room obj = with_implementor (get_implementor obj.dtype) (λ d. write_storage d room obj.ds)

unfoldable pub load : List ℕ → DbObject → Run (ℕ × DbObject)
unfolding load_storage
load from obj =
    with_implementor (get_implementor obj.dtype)
      (λ d. then_run (load_storage d from) (λ (n, ds). finished (n, record obj { ds = ds })))
