-- ===== src/Tape.antt =====
-- librapidarchive/src/tape: the tape drives.
pub mod Seek
pub mod Unix
pub mod Windows
pub mod Agreement
pub mod Device
