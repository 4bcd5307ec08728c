-- ===== src/Tar.antt =====
-- librapidarchive/src/tar: the tar formats.
pub mod Digits
pub mod Numeral
pub mod LegacyName
pub mod FileType
pub mod Path
pub mod Header
pub mod Checksum
pub mod Ustar
pub mod Pax
pub mod Serialize
pub mod PaxHeader
pub mod Label
pub mod Recovery
pub mod Headergen
