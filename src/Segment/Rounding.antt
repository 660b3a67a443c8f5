-- ===== src/Segment/Rounding.antt =====
-- What a container writes fills whole blocks (StateDatabase/segment_container.h).
use native.Mathlib.Nat.{div-add-mod, mod-lt, mod-eq_of_lt, mod-le, mul-le-mul_right}
use state_db.Base.{
  ℕ, suc, ◌+◌, ◌-◌, ◌*◌, ◌/◌, ◌%◌, ◌^◌, ◌≤◌, ◌<◌, ◌≡◌, refl, Bool, false, none, some, List, ◌++◌,
  lt→ltb, le→ltb, ◌==◌, if◌then◌else◌, length, length-append, length-replicate, replicate, arith,
  ap, ◌∙◌, sym, Bool-cases, inl, inr,
}
use state_db.Segment.{
  SegmentPreamble, empty_space_byte, adjust_blocks_count, container_size, skip_bytes_o,
  with_padding, with_preamble, skip_step, write_blocks, write_container,
}

-- The number of blocks that hold `size` bytes.
abbrev pub blocks_for : ℕ → ℕ → ℕ
blocks_for size block = size / block + (if size % block == 0 then 0 else 1)

-- The blocks hold the bytes, and one block less does not.
blocks_enough :
    (size block : ℕ)
    → 0 < block
    → (size ≤ blocks_for size block * block) × (blocks_for size block * block < size + block)
blocks_enough size block h = elim (Bool-cases (size % block == 0)) [
  | inl z ↦
      let none_left : size % block ≡ 0 = ground (arith, z) in
      rw z (
        omega (arith, div-add-mod size block, none_left),
        omega (arith, div-add-mod size block, none_left, h),
      )
  | inr z ↦
      let some_left : 0 < size % block = ground (arith, z) in
      rw z (
        omega (arith, div-add-mod size block, mod-lt size h),
        omega (arith, div-add-mod size block, some_left),
      )
]

-- What is written, and what `get_size` gives afterwards.
pub record IsRounded (p p' : SegmentPreamble) (bytes out : List ℕ) : Type 0 where
  pub block : p'.block_size ≡ p.block_size
  pub whole : length out ≡ p'.blocks_count * p.block_size
  pub sized : container_size p' ≡ length out
  pub near : length out < length bytes + p.block_size
  pub padding : ℕ
  pub text : out ≡ bytes ++ replicate padding empty_space_byte

adjusted :
    (size : ℕ) (p : SegmentPreamble)
    → 0 < p.block_size
    → adjust_blocks_count size p
      ≡ some (record p { blocks_count = blocks_for size p.block_size % 2 ^ 16 })
unfolding adjust_blocks_count
adjusted size p h = let block : (p.block_size == 0) ≡ false = ground (arith, h) in rw block refl

written :
    (bytes : List ℕ) (p : SegmentPreamble)
    → length bytes ≤ container_size p
    → write_blocks bytes (some p)
      ≡ some (p, bytes ++ replicate (container_size p - length bytes) empty_space_byte)
unfolding skip_bytes_o
written bytes p h =
    ap
      (λ (b : Bool).
        with_preamble p (with_padding bytes (skip_step (container_size p) (length bytes) b)))
      (le→ltb (container_size p) (length bytes) h)

-- Where the blocks are fewer than 2^16 and the bytes with a block more fewer than 2^32, `write_to` of
-- an object whose size is the count of its bytes writes them and pads them with zeros up to the end
-- of a block: the blocks that it counts, which `get_size` gives, and not one more than is needed.
pub write_container-IsRounded :
    (bytes : List ℕ) (p : SegmentPreamble)
    → 0 < p.block_size
    → blocks_for (length bytes) p.block_size < 2 ^ 16
    → length bytes + p.block_size < 2 ^ 32
    → (p' : SegmentPreamble) × (out : List ℕ) × (write_container (length bytes) bytes p
        ≡ some (p', out))
      × IsRounded p p' bytes out
unfolding write_container container_size
write_container-IsRounded bytes p h few room =
    let n = blocks_for (length bytes) p.block_size in
    let (enough, near) = blocks_enough (length bytes) p.block_size h in
    let p' : SegmentPreamble = record p { blocks_count = n % 2 ^ 16 } in
    let count : n % 2 ^ 16 ≡ n = omega (arith, few) in
    let total : container_size p' ≡ n * p.block_size =
      ap (λ (t : ℕ). t * p.block_size % 2 ^ 32) count ∙ mod-eq_of_lt (omega (arith, near, room)) in
    let pad = container_size p' - length bytes in
    let size : length (bytes ++ replicate pad empty_space_byte) ≡ n * p.block_size = omega (
      arith,
      length-append bytes (replicate pad empty_space_byte),
      length-replicate pad empty_space_byte,
      total,
      enough,
    ) in
    (
      p',
      bytes ++ replicate pad empty_space_byte,
      rw (adjusted (length bytes) p h) (written bytes p' (omega (arith, total, enough))),
      record {
        block = refl;
        whole = size ∙ ap (λ (t : ℕ). t * p.block_size) (sym count);
        sized = total ∙ sym size;
        near = omega (arith, size, near);
        padding = pad;
        text = refl;
      },
    )

-- Where more blocks are needed than a `uint16_t` counts, `write_to` computes a padding of a negative
-- size.
pub write_container_over :
    (bytes : List ℕ) (p : SegmentPreamble)
    → 0 < p.block_size
    → 2 ^ 16 ≤ blocks_for (length bytes) p.block_size
    → write_container (length bytes) bytes p ≡ none
unfolding write_container container_size skip_bytes_o
write_container_over bytes p h many =
    let n = blocks_for (length bytes) p.block_size in
    let (enough, near) = blocks_enough (length bytes) p.block_size h in
    let p' : SegmentPreamble = record p { blocks_count = n % 2 ^ 16 } in
    let count : suc (n % 2 ^ 16) ≤ n = omega (arith, many) in
    let less = mul-le-mul_right p.block_size count in
    let low = mod-le (n % 2 ^ 16 * p.block_size) (2 ^ 32) in
    let short : container_size p' < length bytes = omega (arith, less, low, near) in
    ap (write_blocks bytes) (adjusted (length bytes) p h)
    ∙ ap
        (λ (b : Bool).
          with_preamble p' (with_padding bytes (skip_step (container_size p') (length bytes) b)))
        (lt→ltb (container_size p') (length bytes) short)
