-- ===== src/Message.antt =====
-- The messages (StateDatabase/net_message.h, net_message.cpp, commands.h, flags.h). The structures
-- are packed, and numbers stand in memory with the lowest byte first.
use Prim.Native.Nat.{bit_and, bit_or}
use state_db.Base.{
  ℕ, zero, suc, ◌+◌, ◌-◌, ◌*◌, ◌/◌, ◌%◌, ◌^◌, Bool, true, false, Option, none, some, List, [], ◌∷◌,
  ◌++◌, ◌&&◌, not, ltb, ◌==◌, if◌then◌else◌, length, take, drop, set, get_elem?,
}
use state_db.Dtypes.{Run, finished, overrun, text_length}
pub mod Flags
pub mod Framing
mod Examples

abbrev pub response_key_update : ℕ
response_key_update = 0xff01

abbrev pub response_key_deleted : ℕ
response_key_deleted = 0xff02

abbrev pub response_pong : ℕ
response_pong = 0xff04

abbrev pub response_error : ℕ
response_error = 0xffee

abbrev pub request_get : ℕ
request_get = 1

abbrev pub request_delete : ℕ
request_delete = 2

abbrev pub request_ping : ℕ
request_ping = 3

abbrev pub request_set : ℕ
request_set = 4

abbrev pub request_get_all : ℕ
request_get_all = 5

-- `flags_t`: the bit of a flag in its byte, from the highest one down.
abbrev pub mask : ℕ → ℕ
mask index = 2 ^ (7 - index % 8)

abbrev pub byte_at : List ℕ → ℕ → ℕ
byte_at cs n = elim (get_elem? cs n) [ none ↦ 0 | some c ↦ c ]

unfoldable pub get_flag : ℕ → List ℕ → Bool
get_flag index cs = not (bit_and (byte_at cs (index / 8)) (mask index) == 0)

abbrev pub set_bit : Bool → ℕ → ℕ → ℕ
set_bit true m c = bit_or c m
set_bit false m c = bit_and c (255 - m)

unfoldable pub set_flag : ℕ → Bool → List ℕ → List ℕ
set_flag index val cs = set cs (index / 8) (set_bit val (mask index) (byte_at cs (index / 8)))

-- `message_preamble`, of seven bytes.
pub record Preamble : Type 0 where
  pub id : ℕ
  pub flags : ℕ
  pub size : ℕ

unfoldable pub read_preamble : List ℕ → Option (Preamble × List ℕ)
read_preamble (a ∷ b ∷ f ∷ p ∷ q ∷ r ∷ s ∷ rest) =
    some (record { id = a + 256 * b; flags = f; size = p + 256 * (q + 256 * (r + 256 * s)) }, rest)
read_preamble _ = none

-- The same structure as a client writes it.
unfoldable pub write_preamble : Preamble → List ℕ
write_preamble m =
    m.id % 256
    ∷ m.id / 256 % 256
    ∷ m.flags
    ∷ m.size % 256
    ∷ m.size / 256 % 256
    ∷ m.size / 65536 % 256
    ∷ m.size / 16777216 % 256
    ∷ []

-- `hello_message_static::valid`: five characters and the version of the protocol.
unfoldable pub valid_hello : ℕ → List ℕ → Bool
valid_hello version (a ∷ b ∷ c ∷ d ∷ e ∷ v ∷ rest) =
    (v == version) && (a == 72) && (b == 101) && (c == 76) && (d == 108) && (e == 79)
valid_hello version _ = false

-- `as_cstr` of a `processed_message` whose buffer has `size` bytes: the last byte becomes zero.
unfoldable pub as_cstr : List ℕ → Run (List ℕ)
unfolding text_length
as_cstr buffer =
    let cut = take (length buffer - 1) buffer ++ 0 ∷ [] in
    if length buffer == 0 then overrun else finished (take (text_length cut) cut)

-- `get_cstr`: the text, and what is left of `size` behind its zero, which is a `uint32_t`.
unfoldable pub get_cstr : List ℕ → Run (List ℕ × ℕ)
unfolding text_length
get_cstr buffer =
    let len = text_length buffer in
    if len == length buffer
    then (if length buffer == 0 then overrun else finished (take (length buffer - 1) buffer, 0))
    else finished (take len buffer, length buffer - (len + 1))
