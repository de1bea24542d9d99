-- ===== src/PerfectHash.antt =====
-- The minimal perfect hash of src/perfect_hash.cc.
pub mod Division
pub mod Bits
pub mod Graph
pub mod Mapping
pub mod Index
pub mod Check
pub mod Build
mod Tests
