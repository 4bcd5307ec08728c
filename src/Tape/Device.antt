-- ===== src/Tape/Device.antt =====
-- librapidarchive/src/tape/mod.rs: the trait `TapeDevice`, and the Unix device as an instance of it.
use rapidtar.Prelude.{ℕ, Bool, Option}
use rapidtar.Io.{Bytes, IoResult}
use rapidtar.Tar.Serialize.{Effect}
use rapidtar.Tape.Seek.{SeekFrom}
use rapidtar.Tape.Unix
use rapidtar.Tape.Unix.{Libc, UnixTapeDevice}
use rapidtar.Tape.Unix.Seek

-- A device of type D. None: a read takes more rounds than its fuel.
pub record TapeDevice (D : Type 0) : Type 0 where
  pub read_block : D → Option (IoResult Bytes × D)
  pub write_filemark : Bool → Effect D (Unit {0})
  pub seek_blocks : SeekFrom → Effect D (Unit {0})
  pub tell_blocks : Effect D ℕ
  pub seek_filemarks : SeekFrom → Effect D (Unit {0})
  pub seek_setmarks : SeekFrom → Effect D (Unit {0})
  pub seek_partition : ℕ → Effect D (Unit {0})

-- `impl<P> TapeDevice for UnixTapeDevice<P>`
abbrev pub unix_tape_device : {T : Type 0} → Libc T → ℕ → TapeDevice (UnixTapeDevice T)
unix_tape_device c fuel = record {
  read_block = Unix.read_block c fuel;
  write_filemark = λ blocking. Seek.write_filemark c;
  seek_blocks = Seek.seek_blocks c;
  tell_blocks = Seek.tell_blocks c;
  seek_filemarks = Seek.seek_filemarks c;
  seek_setmarks = Seek.seek_setmarks c;
  seek_partition = Seek.seek_partition c;
}
