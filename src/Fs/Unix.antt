-- ===== src/Fs/Unix.antt =====
-- librapidarchive/src/fs/unix.rs: what holds on Unix.
use rapidtar.Prelude.{ℕ, ◌*◌, Bool, false, Option, none, some, ◌==◌, if◌then◌else◌, zero, suc}
use rapidtar.Io.{Bytes, ErrorKind, IoResult, ok, err, ◌>>=◌, invalid_data, invalid_input}
use rapidtar.Tar.FileType.{
  TarFileType, block_device, character_device, fifo_pipe, directory, file_stream, symbolic_link,
}
use rapidtar.Rapidtar.{Configuration}
use rapidtar.Fs.{FileMetadata, Sink, file_sink, tape_sink, concurrent, blocking, limiting}

-- `Some(limit) => …, None => …`, with the writer that the limit is put around.
unfoldable pub limited : {T F : Type 0} → Sink T F → Option ℕ → Sink T F
limited sink none = sink
limited sink (some n) = limiting sink n

abbrev pub is_tape : IoResult FileMetadata → Bool
is_tape (ok m) = m.is_char_device
is_tape (err e) = false

-- `found` is what `fs::metadata` yields of the name, `opened` what opening it as a tape does, and
-- `created` what `File::create` does.
unfoldable pub open_sink :
    {T F : Type 0}
    → IoResult FileMetadata
    → IoResult T
    → IoResult F
    → Configuration
    → Option ℕ
    → IoResult (Sink T F)
open_sink found opened created tuning limit =
    if is_tape found
    then (opened >>= λ tape. ok (
        limited
          (blocking (concurrent (tape_sink tape) tuning.serial_buffer_limit) tuning.blocking_factor)
          limit))
    else (created >>= λ file.
        ok (limited (concurrent (file_sink file) tuning.serial_buffer_limit) limit))

unfoldable pub open_tape : {T : Type 0} → IoResult T → IoResult T
open_tape opened = opened

unfoldable pub get_unix_mode : FileMetadata → IoResult ℕ
get_unix_mode m = ok m.mode

unfoldable pub get_file_type : FileMetadata → IoResult TarFileType
get_file_type m =
    if m.is_block_device
    then ok block_device
    else if m.is_char_device
    then ok character_device
    else if m.is_fifo
    then ok fifo_pipe
    else if m.is_socket
    then err invalid_data
    else if m.is_dir
    then ok directory
    else if m.is_file
    then ok file_stream
    else if m.is_symlink
    then ok symbolic_link
    else err invalid_input

-- What `getpwuid_r` or `getgrgid_r` leaves: a name, or a null pointer and its result.
pub data Lookup : Type 0 where
  named : Bytes → Lookup
  null : ℕ → Lookup

-- The parts of libc and the standard library that a lookup uses; `look` takes a number and the room for
-- the entry.
pub record Accounts : Type 0 where
  pub look : ℕ → ℕ → Lookup
  pub erange : ℕ
  pub from_raw_os_error : ℕ → ErrorKind
  pub reserve : ℕ → ℕ → ℕ → ℕ
  pub with_capacity : ℕ → ℕ

module _ (a : Accounts) where
  -- What follows a lookup: the name, an error, or the next round with more room.
  unfoldable pub next_lookup : Lookup → Option (IoResult Bytes) → Option (IoResult Bytes)
  next_lookup (named name) again = some (ok name)
  next_lookup (null res) again =
      if res == a.erange then again else some (err (a.from_raw_os_error res))

  -- None: more than `fuel` rounds.
  unfoldable pub look_up : ℕ → ℕ → ℕ → Option (IoResult Bytes)
  look_up zero id capacity = none
  look_up (suc fuel) id capacity =
      let again = look_up fuel id (a.reserve 0 capacity (capacity * 2)) in
      next_lookup (a.look id capacity) again

  unfoldable pub with_number : ℕ → Option (IoResult Bytes) → Option (IoResult (ℕ × Bytes))
  with_number id none = none
  with_number id (some result) = some (result >>= λ name. ok (id, name))

  unfoldable pub get_unix_owner : ℕ → FileMetadata → Option (IoResult (ℕ × Bytes))
  get_unix_owner fuel m = with_number m.uid (look_up fuel m.uid (a.with_capacity 1024))

  unfoldable pub get_unix_group : ℕ → FileMetadata → Option (IoResult (ℕ × Bytes))
  get_unix_group fuel m = with_number m.gid (look_up fuel m.gid (a.with_capacity 1024))
