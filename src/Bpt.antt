-- ===== src/Bpt.antt =====
-- The B+ tree of StateDatabase/bpt.h, from the chains of its leaves upwards.
pub mod LeafList
pub mod Node
pub mod Tree
pub mod Remove
pub mod Iterate
