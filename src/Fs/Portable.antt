-- ===== src/Fs/Portable.antt =====
-- librapidarchive/src/fs/portable.rs: what holds on any platform.
use rapidtar.Prelude.{ℕ, Option, none, some, [], ◌∷◌, if◌then◌else◌}
use rapidtar.Io.{Bytes, IoResult, ok, err, ◌>>=◌, other, invalid_input}
use rapidtar.Tar.FileType.{TarFileType, directory, file_stream, symbolic_link}
use rapidtar.Fs.{FileMetadata, Sink, file_sink, limiting}

-- `created` is what `File::create` yields.
unfoldable pub open_sink : {T F : Type 0} → IoResult F → Option ℕ → IoResult (Sink T F)
open_sink created limit = created >>= λ file. elim limit [
  | none ↦ ok (file_sink file)
  | some n ↦ ok (limiting (file_sink file) n)
]

unfoldable pub open_tape : {T : Type 0} → IoResult T
open_tape = err other

unfoldable pub get_unix_mode : FileMetadata → IoResult ℕ
get_unix_mode m =
    if m.is_dir
    then if m.readonly then ok 365 else ok 493
    else if m.readonly
    then ok 292
    else ok 420

unfoldable pub get_file_type : FileMetadata → IoResult TarFileType
get_file_type m =
    if m.is_dir
    then ok directory
    else if m.is_file
    then ok file_stream
    else if m.is_symlink
    then ok symbolic_link
    else err invalid_input

abbrev pub root : Bytes
root = b'r' ∷ b'o' ∷ b'o' ∷ b't' ∷ []

unfoldable pub get_unix_owner : FileMetadata → IoResult (ℕ × Bytes)
get_unix_owner m = ok (0, root)

unfoldable pub get_unix_group : FileMetadata → IoResult (ℕ × Bytes)
get_unix_group m = ok (0, root)
