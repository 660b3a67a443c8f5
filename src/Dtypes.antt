-- ===== src/Dtypes.antt =====
-- The implementors of the data types (StateDatabase/dtypes.h, dtypes.cpp, dtypes_utils.h), on memory
-- as sequences of bytes. A stored value is the sequence of the bytes that the storage points to.
-- The implementor of bigint, which goes through text, is in Object.
use state_db.Base.{
  ℕ, zero, suc, ◌+◌, ◌-◌, ◌*◌, ◌%◌, ◌^◌, Bool, true, false, List, [], ◌∷◌, ◌++◌, ltb, leb, ◌==◌,
  if◌then◌else◌, length, take, drop,
}
pub mod RoundTrip
pub mod Loaded
mod Examples

-- `insufficient` is the exception `unsufficient_space`, `unknown_type` the one at a type without an
-- implementor, and `overrun` an access outside an allocation. `stray` is the model's own limit: a
-- limb of a `bigint` out of its range.
pub data Run (A : Type 0) : Type 0 where
  finished : A → Run A
  insufficient unknown_type overrun stray : Run A

-- The implementors that keep their value as bytes: `fixed n` is `static_implementor` of a type of
-- `n` bytes.
pub data Implementor : Type 0 where
  none_type blob string : Implementor
  fixed : ℕ → Implementor

abbrev pub word_mod : ℕ
word_mod = 2 ^ 32

-- `require_at_least`, before the rest of an operation.
unfoldable pub require_at_least : {A : Type 0} → ℕ → ℕ → Run A → Run A
require_at_least bytes required rest = if ltb bytes required then insufficient else rest

-- `blob_wrapper::get_size`: the first four bytes, lowest first; `overrun` if there are fewer.
unfoldable pub blob_size : List ℕ → Run ℕ
blob_size (a ∷ b ∷ c ∷ d ∷ rest) = finished (a + 256 * (b + 256 * (c + 256 * d)))
blob_size _ = overrun

-- `std::memcpy` of the first `n` bytes into a buffer of `room` bytes.
unfoldable pub copy : ℕ → ℕ → List ℕ → Run (List ℕ)
copy n room from =
    if leb n room
    then (if leb n (length from) then finished (take n from) else overrun)
    else overrun

abbrev pub then_run : {A B : Type 0} → Run A → (A → Run B) → Run B
then_run (finished a) f = f a
then_run insufficient f = insufficient
then_run unknown_type f = unknown_type
then_run overrun f = overrun
then_run stray f = stray

-- `load_from` of a blob: the count of bytes used, and the value. The count is a `uint32_t`, but the
-- copy is of as many bytes as the header says.
unfoldable pub load_blob : List ℕ → Run (ℕ × List ℕ)
unfolding require_at_least blob_size copy
load_blob from = require_at_least (length from) 4 (
    then_run (blob_size from) (λ n.
      let size = (n + 4) % word_mod in
      require_at_least (length from) size
        (then_run (copy (n + 4) size from) (λ value. finished (size, value)))))

-- The walk of `get_string_mxsz` and of `strlen`: how many bytes stand before the first zero.
unfoldable pub text_length : List ℕ → ℕ
text_length [] = 0
text_length (c ∷ cs) = let more = text_length cs in if c == 0 then 0 else suc more

-- `get_string_mxsz`: the memory, in which the last byte becomes zero where there is none, and the
-- length of the text. An empty range is written before its start.
unfoldable pub get_string_mxsz : List ℕ → Run (List ℕ × ℕ)
unfolding text_length
get_string_mxsz src =
    let size = text_length src in
    if size == length src
    then (if length src == 0
        then overrun
        else finished (take (length src - 1) src ++ 0 ∷ [], length src - 1))
    else finished (src, size)

unfoldable pub load_string : List ℕ → Run (ℕ × List ℕ)
unfolding get_string_mxsz copy
load_string from =
    then_run (get_string_mxsz from)
      (λ (src, n). then_run (copy (suc n) (suc n) src) (λ value. finished (suc n, value)))

-- `load_from` of the implementors.
unfoldable pub load_from : Implementor → List ℕ → Run (ℕ × List ℕ)
unfolding load_blob load_string require_at_least
load_from none_type from = finished (0, [])
load_from blob from = load_blob from
load_from string from = load_string from
load_from (fixed n) from = require_at_least (length from) n (finished (n, take n from))

-- `get_size` of a stored value: `strlen` runs on if there is no zero.
unfoldable pub size_blob : List ℕ → Run ℕ
unfolding blob_size
size_blob value = then_run (blob_size value) (λ n. finished (n + 4))

unfoldable pub size_string : List ℕ → Run ℕ
unfolding text_length
size_string value =
    if text_length value == length value then overrun else finished (suc (text_length value))

unfoldable pub get_size : Implementor → List ℕ → Run ℕ
unfolding size_blob size_string
get_size none_type value = finished 0
get_size blob value = size_blob value
get_size string value = size_string value
get_size (fixed n) value = finished n

-- `load_to` a buffer of some size: what is written at its start. That of a string asks for no room.
unfoldable pub store_blob : ℕ → List ℕ → Run (List ℕ)
unfolding size_blob copy require_at_least
store_blob room value =
    then_run (size_blob value) (λ n. require_at_least room n (copy n room value))

unfoldable pub store_string : ℕ → List ℕ → Run (List ℕ)
unfolding size_string copy
store_string room value = then_run (size_string value) (λ n. copy n room value)

unfoldable pub load_to : Implementor → ℕ → List ℕ → Run (List ℕ)
unfolding store_blob store_string copy require_at_least
load_to none_type room value = finished []
load_to blob room value = store_blob room value
load_to string room value = store_string room value
load_to (fixed n) room value = require_at_least room n (copy n room value)
