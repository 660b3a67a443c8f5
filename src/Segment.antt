-- ===== src/Segment.antt =====
-- A container that rounds an object up to whole blocks of a file (StateDatabase/segment_container.h).
-- `size` is what `get_object_size` gives for the object, and `bytes` what is written for it. `none` is a
-- division by zero, or a padding of a negative size.
use state_db.Base.{
  ℕ, ◌+◌, ◌-◌, ◌*◌, ◌/◌, ◌%◌, ◌^◌, ◌≤◌, Bool, true, false, Option, none, some, List, ◌++◌, ltb,
  ◌==◌, if◌then◌else◌, length, replicate,
}
pub mod Rounding
mod Examples

pub record SegmentPreamble : Type 0 where
  pub block_size : ℕ
  pub blocks_count : ℕ

-- STATEDB_EMPTY_SPACE_BYTE
abbrev pub empty_space_byte : ℕ
empty_space_byte = 0

-- `adjust_blocks_count`; the count is a `uint16_t`.
unfoldable pub adjust_blocks_count : ℕ → SegmentPreamble → Option SegmentPreamble
adjust_blocks_count size p =
    if p.block_size == 0
    then none
    else some (record p {
      blocks_count = (size / p.block_size + (if size % p.block_size == 0 then 0 else 1)) % 2 ^ 16;
    })

-- `get_size`; the product is one of `uint32_t`.
unfoldable pub container_size : SegmentPreamble → ℕ
container_size p = p.blocks_count * p.block_size % 2 ^ 32

-- `skip_bytes_o`, up to `end`, where `count` bytes were written; the flag says that these are more.
abbrev pub skip_step : ℕ → ℕ → Bool → Option (List ℕ)
skip_step end count true = none
skip_step end count false = some (replicate (end - count) empty_space_byte)

unfoldable pub skip_bytes_o : ℕ → ℕ → Option (List ℕ)
skip_bytes_o end count = skip_step end count (ltb end count)

abbrev pub with_padding : List ℕ → Option (List ℕ) → Option (List ℕ)
with_padding bytes none = none
with_padding bytes (some padding) = some (bytes ++ padding)

abbrev pub with_preamble : SegmentPreamble → Option (List ℕ) → Option (SegmentPreamble × List ℕ)
with_preamble p none = none
with_preamble p (some out) = some (p, out)

abbrev pub write_blocks : List ℕ → Option SegmentPreamble → Option (SegmentPreamble × List ℕ)
write_blocks bytes none = none
write_blocks bytes (some p) =
    with_preamble p (with_padding bytes (skip_bytes_o (container_size p) (length bytes)))

-- `write_to`: the preamble that it writes, and the bytes behind it.
unfoldable pub write_container : ℕ → List ℕ → SegmentPreamble → Option (SegmentPreamble × List ℕ)
unfolding adjust_blocks_count container_size skip_bytes_o
write_container size bytes p = write_blocks bytes (adjust_blocks_count size p)
