-- ===== src/Lib.antt =====
-- rapidtar writes tar archives that can span several volumes. This library models the parts of
-- librapidarchive that decide what bytes an archive holds and which of them are lost when a volume
-- ends, and proves what they promise.
--
-- The parts and how they interact:
-- - Spanning, of librapidarchive/src/spanning.rs. Spanning.Zone models `DataZone`: a part of a
--   volume under one identifier, with its length and its committed and uncommitted counts.
--   Spanning.Stream models `DataZoneStream`: the current zone and the queue of those before it.
--   Every method is a function from the state to the state and its result.
-- - Io, of the trait `RecoverableWrite` of that file and the parts of `std::io` it extends: the
--   interface of a writer, and the contract of `io::Write` as `IsHonest`. What a flush does to a writer is
--   a hypothesis of its own: `KeepsOnFlush` of a file, `PadsOnFlush` of a sink that pads its last block.
-- - Blocking, of librapidarchive/src/blocking.rs. `BlockingWriter` collects bytes into blocks of one
--   size for an inner writer, which is a `RecoverableWrite`, and keeps a stream of zones.
-- - Tar, of librapidarchive/src/tar. Tar.Numeral models the octal and base-256 numbers and the texts
--   of a header, Tar.LegacyName the split of a path over the name and prefix fields. Tar.Digits
--   models `{:o}` and `{}` of the standard library.
--   Tar.Path models `normalize` of librapidarchive/src/normalize.rs and `canonicalized_tar_path` of
--   tar/mod.rs, Tar.FileType and Tar.Header the types of tar/header.rs and the header of a resumed
--   file, with `RecoveryEntry` and the choice of the offset of tar/recovery.rs. Tar.Ustar models
--   tar/ustar.rs, Tar.Checksum both functions `checksum_header`, Tar.Pax the attributes of
--   tar/pax.rs. Each has children for what is proved of it.
--   Tar.PaxHeader models `pax_header` of tar/pax.rs with its extended header. Tar.Serialize models
--   `serialize` of tar/mod.rs. Tar.Label models tar/label.rs and `pax_label` of tar/pax.rs.
-- - Spanning.Limiting models `LimitingWriter` and `UnbufferedWriter` of spanning.rs.
-- - Concurrent, of librapidarchive/src/concurrentbuf.rs. The channels of `ConcurrentWriteBuffer` are
--   queues; `Run` of Concurrent.Run is the relation of the states that its thread and its caller reach
--   by any sequence of steps, with the bytes written.
-- - Units, of librapidarchive/src/units/time.rs: how `HRDuration` prints a duration. Units.ReadBack has a
--   reader of what it prints.
-- - Tar.Recovery, of librapidarchive/src/tar/recovery.rs: `recover_data`, the loop over the zones that
--   a full volume has lost, over a writer and the answers of the file system.
-- - Tape.Unix, of librapidarchive/src/tape/unix.rs: `UnixTapeDevice` over a record of the system calls
--   it makes, with its reads and its seeks; Tape.Device is the trait of tape/mod.rs. The loops of its
--   reads are on fuel: one round for each byte of the longest block, and one for each block ahead and
--   three more, are enough.
-- - Rapidmt, of rapidtar/src/bin/rapidmt.rs: the commands, over any `TapeDevice`.
-- - Tape.Windows, of librapidarchive/src/tape/windows.rs: `WindowsTapeDevice` over a record of the calls
--   of Win32. Tape.Agreement compares the two devices.
-- - Rapidtar, of rapidtar/src/bin/rapidtar.rs: the exchange of volumes over the lines of the input, the
--   labels, `recover_proc`, `serialize_proc` and the loop of `main` that creates an archive, over any
--   sinks. One round of fuel for each line of the input and one more are enough for `recover_proc`,
--   which reads a line in each round.
-- - Tar.Headergen, of `headergen` in librapidarchive/src/tar/header.rs: the header of a file and the
--   start of the file, which is read ahead.
-- - Fs, of librapidarchive/src/fs: the sinks that are opened, and the type, the mode, the owner and the
--   group of a file, with the loops over `getpwuid_r` and `getgrgid_r`, which are on fuel: one round for
--   each byte of an entry and one more are enough. Fs.Windows has the loops that open a tape again: six
--   rounds are enough for that of `open_sink`.
-- - Traverse, of librapidarchive/src/traverse.rs: a task is a call of `traverse`, `visit` what it does,
--   and `Walk` of Traverse.Schedule the relation of a pool of tasks to the calls of `archive_header_fn`,
--   over all orders in which the tasks can run.
-- - Prelude: Boolean tests, lists and 64-bit words over the native numbers.
-- - Tests: runs at concrete inputs.
--
-- Integers of 64 bits are natural numbers with the wrap-around written out (Prelude.Words). Bytes
-- and characters are their numbers. `BlockingWriter::write` has a loop, which is on fuel: one round
-- for each byte of the buffer and one more are enough, since a round that makes progress takes a
-- byte. So is the loop of `format_pax_attribute`, for which two rounds are enough. The fuel of the
-- tapes, of `recover_proc` and of the lookups is named with them; all other loops are structural.
--
-- Parameters of the model: the inner writer, what the file system says of a file, the calls of the
-- operating system that a tape device makes, the lines of the standard input, and the `f32`
-- logarithms and the crate `pad` that the numbers are formatted with.
--
-- Not modelled: the channel and the thread pools between the walk and the archive, where the receiver
-- is the list of what the walk yields; the parsing of the arguments and the output to the console;
-- the opening and closing of devices; and units/data.rs, which prints sizes with `f64` logarithms.
pub mod Prelude
pub mod Spanning
pub mod Io
pub mod Blocking
pub mod Tar
pub mod Concurrent
pub mod Units
pub mod Tape
pub mod Rapidmt
pub mod Rapidtar
pub mod Fs
pub mod Traverse
mod Tests
