-- ===== src/Tar/Header.antt =====
-- librapidarchive/src/tar/header.rs: what a header says of a file, and how it is resumed.
-- `RecoveryEntry` is of librapidarchive/src/tar/recovery.rs.
pub mod Resume
use rapidtar.Prelude.{ℕ, ◌+◌, ◌-◌, Option, none, some, ◌∷◌, [], ◌++◌, min, unwrap_or, add64}
use rapidtar.Io.{Bytes, IoResult, ok, err, ◌>>=◌}
use rapidtar.Spanning.Zone.{DataZone}
use rapidtar.Tar.FileType.{TarFormat, ustar, posix, TarFileType}
use rapidtar.Tar.Path.{PathBuf, normalize}

-- `time::SystemTime`: what `duration_since(UNIX_EPOCH)` yields of it, in whole seconds.
pub data SystemTime : Type 0 where
  since_epoch : ℕ → SystemTime
  before_epoch : SystemTime

-- What the file system says of a file: `fs::Metadata`, and the results of `get_unix_mode`,
-- `get_file_type`, `get_unix_owner` and `get_unix_group` for it.
pub record Metadata : Type 0 where
  pub len : ℕ
  pub modified : IoResult SystemTime
  pub accessed : IoResult SystemTime
  pub created : IoResult SystemTime
  pub unix_mode : IoResult ℕ
  pub file_type : IoResult TarFileType
  pub unix_owner : IoResult (ℕ × Bytes)
  pub unix_group : IoResult (ℕ × Bytes)

pub record TarHeader : Type 0 where
  pub path : PathBuf
  pub unix_mode : ℕ
  pub unix_uid : ℕ
  pub unix_gid : ℕ
  pub file_size : ℕ
  pub mtime : Option SystemTime
  pub file_type : TarFileType
  pub symlink_path : Option PathBuf
  pub unix_uname : Bytes
  pub unix_gname : Bytes
  pub unix_devmajor : ℕ
  pub unix_devminor : ℕ
  pub atime : Option SystemTime
  pub birthtime : Option SystemTime
  pub recovery_path : Option PathBuf
  pub recovery_remaining_size : Option ℕ
  pub recovery_seek_offset : Option ℕ

pub record RecoveryEntry : Type 0 where
  pub original_path : PathBuf
  pub canonical_path : PathBuf
  pub header_length : ℕ

-- `Result::ok`
abbrev pub to_option : {A : Type 0} → IoResult A → Option A
to_option (ok a) = some a
to_option (err e) = none

-- `Result::unwrap_or`
abbrev pub result_or : {A : Type 0} → IoResult A → A → A
result_or (ok a) d = a
result_or (err e) d = d

abbrev pub nobody : Bytes
nobody = b'n' ∷ b'o' ∷ b'b' ∷ b'o' ∷ b'd' ∷ b'y' ∷ []

abbrev pub nogroup : Bytes
nogroup = b'n' ∷ b'o' ∷ b'g' ∷ b'r' ∷ b'o' ∷ b'u' ∷ b'p' ∷ []

unfoldable pub abstract_header_for_file : PathBuf → Metadata → IoResult TarHeader
abstract_header_for_file archival_path metadata =
    let (uid, owner) = result_or metadata.unix_owner (65534, nobody) in
    let (gid, group) = result_or metadata.unix_group (65534, nogroup) in
    metadata.unix_mode >>= λ mode. metadata.file_type >>= λ kind. ok (record {
      path = normalize archival_path;
      unix_mode = mode;
      unix_uid = uid;
      unix_gid = gid;
      file_size = metadata.len;
      mtime = to_option metadata.modified;
      file_type = kind;
      symlink_path = none;
      unix_uname = owner;
      unix_gname = group;
      unix_devmajor = 0;
      unix_devminor = 0;
      atime = to_option metadata.accessed;
      birthtime = to_option metadata.created;
      recovery_path = none;
      recovery_remaining_size = none;
      recovery_seek_offset = none;
    })

-- What a header becomes for a file of `len` bytes, `offset` of which the volume before holds.
unfoldable pub resume_header : RecoveryEntry → ℕ → ℕ → TarHeader → TarHeader
resume_header ident len offset header = record header {
  recovery_path = some (normalize ident.original_path);
  recovery_remaining_size = some len;
  recovery_seek_offset = some (min offset header.file_size);
  file_size = header.file_size - offset;
}

-- `checked_sub(…).unwrap_or(0)` is the subtraction that stops at 0.
unfoldable pub with_recovery : PathBuf → Metadata → DataZone RecoveryEntry → IoResult TarHeader
with_recovery archival_path metadata zone =
    abstract_header_for_file archival_path metadata >>= λ header. ok (elim zone.ident [
      | none ↦ header
      | some ident ↦
          resume_header ident metadata.len (zone.committed_length - ident.header_length) header
    ])

-- The match on the format in `recover_data`: the header to write, and where to read the file from.
-- USTAR cannot split files, so the original size is restored.
unfoldable pub recovery_plan : TarFormat → TarHeader → TarHeader × ℕ
recovery_plan ustar header = elim header.recovery_seek_offset [
  | none ↦ (header, 0)
  | some header_offset ↦ (record header { file_size = add64 header.file_size header_offset }, 0)
]
recovery_plan posix header = (header, unwrap_or header.recovery_seek_offset 0)
