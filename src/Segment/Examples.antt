-- ===== src/Segment/Examples.antt =====
-- A container of five bytes in blocks of four (StateDatabase/segment_container.h).
use state_db.Base.{ℕ, ◌≡◌, some, List, [], ◌∷◌, arith, length}
use state_db.Segment.{SegmentPreamble, write_container}
use state_db.Segment.Rounding.{IsRounded, write_container-IsRounded}

abbrev five : List ℕ
five = 1 ∷ 2 ∷ 3 ∷ 4 ∷ 5 ∷ []

abbrev fours : SegmentPreamble
fours = record { block_size = 4; blocks_count = 0 }

write_container-IsRounded_example :
    (p' : SegmentPreamble) × (out : List ℕ) × (write_container (length five) five fours
      ≡ some (p', out))
    × IsRounded fours p' five out
write_container-IsRounded_example =
    write_container-IsRounded five fours (omega arith) (omega arith) (omega arith)
