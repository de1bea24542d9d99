-- ===== src/Access.antt =====
-- The readers of include/protocache/access.h, which look at the words of a message where they lie.
pub mod Words
pub mod Strings
pub mod Fields
pub mod Count
pub mod Messages
pub mod Arrays
pub mod Maps
pub mod Typed
pub mod Bounds
pub mod Reach
mod Tests
