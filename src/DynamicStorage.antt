-- ===== src/DynamicStorage.antt =====
-- `dynamic_storage` of StateDatabase/dynamic_storage.h: the buffer that a connection reads into and
-- writes from. It holds bytes, and remembers for which type they were allocated. Asserts are compiled
-- out. A C++ type is the name that `typeid` gives it and its size, and an object is its bytes.
use state_db.Base.{
  ℕ, zero, suc, ◌+◌, ◌-◌, Bool, true, false, List, [], ◌∷◌, ◌++◌, ◌&&◌, not, ltb, ◌==◌,
  if◌then◌else◌, length, take, drop, replicate, codes,
}
use state_db.Dtypes.{Run, finished, overrun, then_run, copy}
pub mod Contents
pub mod Operations
mod Examples

pub record CppType : Type 0 where
  pub name : List ℕ
  pub size : ℕ

-- `STATEDB_DYNAMIC_STORAGE_BINARY`.
abbrev pub binary : List ℕ
binary = codes "BINARY"

pub record DynamicStorage : Type 0 where
  pub data_ : List ℕ
  pub size_ : ℕ
  pub type_name : List ℕ

abbrev pub make : DynamicStorage
make = record { data_ = []; size_ = 0; type_name = [] }

unfoldable pub has_value : DynamicStorage → Bool
has_value d = not (length d.data_ == 0)

-- The comparison of two texts.
unfoldable pub same_text : List ℕ → List ℕ → Bool
same_text [] [] = true
same_text [] (y ∷ ys) = false
same_text (x ∷ xs) [] = false
same_text (x ∷ xs) (y ∷ ys) = (x == y) && same_text xs ys

-- `is<T>`.
unfoldable pub is : CppType → DynamicStorage → Bool
unfolding same_text
is t d = same_text d.type_name t.name

unfoldable pub is_binary : DynamicStorage → Bool
unfolding same_text
is_binary d = same_text d.type_name binary

-- What `get<T>` refers to: the bytes of an object of that type.
unfoldable pub get : CppType → DynamicStorage → Run (List ℕ)
get t d = if ltb (length d.data_) t.size then overrun else finished (take t.size d.data_)

unfoldable pub get_binary : DynamicStorage → List ℕ
get_binary d = d.data_

-- `std::vector::resize`: what is new is zero.
unfoldable pub resize : ℕ → List ℕ → List ℕ
resize n data_ = take n data_ ++ replicate (n - length data_) 0

-- `memcpy` of `s` bytes of `mem` to the front of the vector.
unfoldable pub write_front : ℕ → List ℕ → DynamicStorage → Run DynamicStorage
unfolding copy
write_front s mem d =
    then_run (copy s (length d.data_) mem)
      (λ bytes. finished (record d { data_ = bytes ++ drop s d.data_ }))

unfoldable pub set_binary : List ℕ → ℕ → DynamicStorage → Run DynamicStorage
unfolding write_front
set_binary mem s d = write_front s mem d

unfoldable pub deallocate : DynamicStorage → DynamicStorage
unfolding has_value
deallocate d = if not (has_value d) then d else make

-- What the two ways to allocate share.
abbrev pub allocated : List ℕ → ℕ → DynamicStorage → DynamicStorage
allocated name s d = record { data_ = resize s d.data_; size_ = s; type_name = name }

unfoldable pub allocate : CppType → DynamicStorage → DynamicStorage
unfolding deallocate resize
allocate t d = allocated t.name t.size (deallocate d)

unfoldable pub allocate_binary : ℕ → DynamicStorage → DynamicStorage
unfolding deallocate resize
allocate_binary s d = allocated binary s (deallocate d)

-- `allocate_binary` with a copy of `s` bytes of `memory`.
unfoldable pub allocate_copy : ℕ → List ℕ → DynamicStorage → Run DynamicStorage
unfolding allocate_binary write_front
allocate_copy s memory d = write_front s memory (allocate_binary s d)

-- `construct<T>`, where the constructor makes the bytes `value`.
unfoldable pub construct : CppType → List ℕ → DynamicStorage → Run DynamicStorage
unfolding write_front
construct t value d = write_front t.size value d

-- `copy_from` and `allocate_constructed`.
unfoldable pub copy_from : CppType → List ℕ → DynamicStorage → Run DynamicStorage
unfolding allocate construct
copy_from t value d = construct t value (allocate t d)

-- `set<T>`, which only asserts.
unfoldable pub set : CppType → List ℕ → DynamicStorage → DynamicStorage
set t value d = d

-- The bytes of `get_asio_buffer`: `size_` of them, from the front of the vector.
unfoldable pub get_asio_buffer : DynamicStorage → Run (List ℕ)
get_asio_buffer d =
    if ltb (length d.data_) d.size_ then overrun else finished (take d.size_ d.data_)

unfoldable pub allocate_asio_buffer : CppType → DynamicStorage → DynamicStorage × Run (List ℕ)
unfolding allocate get_asio_buffer
allocate_asio_buffer t d = let d' = allocate t d in (d', get_asio_buffer d')
