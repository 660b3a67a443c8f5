-- ===== src/File/Wrapper.antt =====
-- `db_wrapper` (StateDatabase/db_wrapper.h): the file at its path, and the two objects that the
-- wrapper owns. The file system is given by what it does: whether the file can be opened, whether
-- a stream that is opened with `in | trunc` empties it, and `minimal`, the size that the compiler
-- gives to `db_header`. What is logged, and the directories, are left out.
use state_db.Base.{
  ℕ, Bool, true, false, Option, none, some, List, [], ◌∷◌, ltb, if◌then◌else◌, length,
}
use state_db.File.{
  DbHeader, make_fresh, reload, Attempt, success, exception, double_free, then_attempt,
}
pub mod Loading
mod Examples

-- A pointer that owns its object. `freed` is one whose object was deleted.
pub data Pointer (A : Type 0) : Type 0 where
  null freed : Pointer A
  live : A → Pointer A

-- `file` is what stands at the path; of a stream it is known whether it is open, and of a `db` its
-- header.
pub record DbWrapper : Type 0 where
  pub file : Option (List ℕ)
  pub stream : Pointer Bool
  pub db_ : Pointer DbHeader

abbrev pub content : Option (List ℕ) → List ℕ
content none = []
content (some bytes) = bytes

-- `_ENSUREDEL`, and the deletion of the stream. The pointer keeps its address.
unfoldable pub delete_pointer : {A : Type 0} → Pointer A → Attempt (Pointer A)
delete_pointer null = success null
delete_pointer freed = double_free
delete_pointer (live a) = success freed

unfoldable pub dispose : DbWrapper → Attempt DbWrapper
unfolding delete_pointer
dispose w =
    then_attempt (delete_pointer w.db_) (λ d.
      then_attempt (delete_pointer w.stream) (λ s. success (record w { stream = s; db_ = d })))

-- A file that is not there is made.
unfoldable pub open_file : Bool → DbWrapper → Attempt DbWrapper
open_file good w =
    if good
    then success (record w { file = some (content w.file); stream = live true })
    else exception

unfoldable pub close_file : DbWrapper → DbWrapper
close_file w = elim w.stream [ null ↦ w | freed ↦ w | live o ↦ record w { stream = live false } ]

unfoldable pub clear_file : Bool → Bool → DbWrapper → Attempt DbWrapper
unfolding close_file delete_pointer open_file
clear_file good truncates w =
    let closed = close_file w in
    then_attempt (delete_pointer closed.stream) (λ s.
      open_file good
        (record closed { file = if truncates then some [] else closed.file; stream = s }))

-- `verify_file`, where `held` is what the memory of the `db` that it constructs held in place of the
-- pointer `inner`.
unfoldable pub verify_file : Bool → ℕ → Bool → Bool → ℕ → DbWrapper → Attempt DbWrapper
unfolding clear_file make_fresh reload
verify_file debug held good truncates minimal w =
    if ltb (length (content w.file)) minimal
    then then_attempt (clear_file good truncates w) (λ cleared.
      then_attempt (make_fresh debug held (content cleared.file))
        (λ (h, file). success (record cleared { file = some file; db_ = live h })))
    else then_attempt (reload debug held (content w.file))
        (λ h. success (record w { db_ = live h }))

unfoldable pub load_data : Bool → ℕ → Bool → Bool → ℕ → DbWrapper → Attempt DbWrapper
unfolding dispose open_file verify_file
load_data debug held good truncates minimal w = then_attempt (dispose w) (λ disposed.
    then_attempt (open_file good disposed) (verify_file debug held good truncates minimal))
