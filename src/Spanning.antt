-- ===== src/Spanning.antt =====
-- librapidarchive/src/spanning.rs
pub mod Zone
pub mod Stream
pub mod Limiting
