-- ===== src/Tests.antt =====
-- Runs of the definitions at concrete inputs, some of them from the repository's own tests.
mod Spanning
mod Blocking
mod Tar
mod Paths
mod Headers
mod Writers
mod Units
mod Recovery
mod Tape
mod Windows
mod Rapidtar
mod Headergen
mod Fs
mod Traverse
