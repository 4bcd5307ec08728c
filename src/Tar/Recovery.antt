-- ===== src/Tar/Recovery.antt =====
-- librapidarchive/src/tar/recovery.rs: `recover_data`, which writes what a full volume has lost to the
-- next one. `RecoveryEntry` stands in Tar/Header.antt.
pub mod Stream
pub mod Cause
pub mod Torn
pub mod WholeFile
use rapidtar.Prelude.{
  ℕ, ◌-◌, Option, none, some, List, [], ◌∷◌, ◌++◌, length, drop, take, if◌then◌else◌, Bool, ◌&&◌,
}
use rapidtar.Io.{Bytes, ErrorKind, IoResult, ok, err, ◌>>=◌, RecoverableWrite}
use rapidtar.Spanning.Zone.{DataZone, PartialEq}
use rapidtar.Tar.FileType.{TarFormat, ustar, posix, is_file_stream}
use rapidtar.Tar.Path.{PathBuf}
use rapidtar.Tar.Header.{Metadata, TarHeader, RecoveryEntry, with_recovery, recovery_plan}
use rapidtar.Tar.Numeral.{Formatting}
use rapidtar.Tar.Checksum.{checksum_header, pax_checksum_header}
use rapidtar.Tar.Ustar.{ustar_header}
use rapidtar.Tar.PaxHeader.{pax_header}
use rapidtar.Tar.Serialize.{HeaderGenResult}

-- What the file system answers while the data is recovered: `fs::symlink_metadata`,
-- `fs::canonicalize`, the bytes of the file that `fs::File::open` finds, and the position from which on
-- reads of that file fail, if they do.
pub record FileSystem : Type 0 where
  pub symlink_metadata : PathBuf → IoResult Metadata
  pub canonicalize : PathBuf → IoResult PathBuf
  pub open_file : PathBuf → IoResult Bytes
  pub read_failure : PathBuf → Option ℕ

-- How a round of the loop ends: it goes on, a write or a read of the file fails and it
-- breaks, or an error is returned.
pub data Round (W : Type 0) : Type 0 where
  recovered : W → Round W
  torn : W → Round W
  failed : ErrorKind → W → Round W

abbrev pub Zones : Type 0
Zones = List (DataZone RecoveryEntry)

-- None: an attribute of a PAX header takes more rounds than the fuel.
abbrev pub Recovery : Type 0 → Type 0
Recovery W = Option (IoResult (Option Zones) × W)

unfoldable pub new_from_headergen : HeaderGenResult → ℕ → RecoveryEntry
new_from_headergen hg len = record {
  original_path = hg.original_path;
  canonical_path = hg.canonical_path;
  header_length = len;
}

-- `RecoveryEntry::new`
unfoldable pub new_entry : PathBuf → PathBuf → ℕ → RecoveryEntry
new_entry original canonical len = record {
  original_path = original;
  canonical_path = canonical;
  header_length = len;
}

unfoldable pub is_same_file : ⦃e : PartialEq PathBuf⦄ → RecoveryEntry → RecoveryEntry → Bool
is_same_file ⦃e⦄ entry other =
    e.eq entry.original_path other.original_path && e.eq entry.canonical_path other.canonical_path

-- `concrete_tarheader`
unfoldable pub concrete_tarheader : Formatting → ℕ → TarFormat → TarHeader → Option (IoResult Bytes)
concrete_tarheader f fuel ustar header =
    some (ustar_header f header >>= λ bytes. ok (checksum_header f bytes))
concrete_tarheader f fuel posix header = elim (pax_header f fuel header) [
  | none ↦ none
  | some result ↦ some (result >>= λ bytes. ok (pax_checksum_header f bytes))
]

-- What `with_recovery` makes of the metadata of the file.
unfoldable pub recovery_header :
    FileSystem → RecoveryEntry → DataZone RecoveryEntry → IoResult TarHeader
recovery_header fs ident zone = fs.symlink_metadata ident.canonical_path >>= λ metadata.
    with_recovery ident.original_path metadata zone

module _ {W : Type 0} where
  -- `if let Err(_) = … { break; }`
  unfoldable pub break_on_error : IoResult (Unit {0}) × W → Round W
  break_on_error (ok _, w) = recovered w
  break_on_error (err _, w) = torn w

module _ {W : Type 0} (fs : FileSystem) (o : RecoverableWrite W RecoveryEntry) where
  -- `io::copy` from the offset on. Where a read fails, it has written what came before, and returns the
  -- error, at which the loop breaks as it does where the write fails.
  unfoldable pub copy_source : IoResult Bytes → Option ℕ → ℕ → W → Round W
  copy_source (ok source) none offset w = break_on_error (o.write_all (drop offset source) w)
  copy_source (ok source) (some position) offset w =
      torn (o.write_all (drop offset (take position source)) w).1
  copy_source (err e) failure offset w = failed e w

  -- `recovery_result`, once the write of the header has its result.
  unfoldable pub copy_file : TarHeader → PathBuf → ℕ → IoResult (Unit {0}) × W → Round W
  copy_file header canonical_path offset (ok _, w) =
      if is_file_stream header.file_type
      then copy_source (fs.open_file canonical_path) (fs.read_failure canonical_path) offset w
      else recovered w
  copy_file header canonical_path offset (err _, w) = torn w

  -- From `fs::canonicalize` on, which yields the last argument but one.
  unfoldable pub recover_file :
      RecoveryEntry
      → DataZone RecoveryEntry
      → TarHeader
      → ℕ
      → Bytes
      → IoResult PathBuf
      → W
      → Round W
  recover_file ident zone header offset concrete (ok canonical_path) w =
      let new_ident = new_entry ident.original_path ident.canonical_path (length concrete) in
      copy_file header canonical_path offset (
        o.write_all concrete
          (o.resume_data_zone new_ident (zone.committed_length - ident.header_length) w))
  recover_file ident zone header offset concrete (err e) w = failed e w

  unfoldable pub with_concrete :
      RecoveryEntry → DataZone RecoveryEntry → TarHeader → ℕ → IoResult Bytes → W → Round W
  with_concrete ident zone header offset (ok concrete) w =
      recover_file ident zone header offset concrete (fs.canonicalize ident.canonical_path) w
  with_concrete ident zone header offset (err e) w = failed e w

  -- A round of the loop, for a zone with the identifier `ident` and the header that it resumes with.
  unfoldable pub recover_zone :
      Formatting
      → ℕ
      → TarFormat
      → RecoveryEntry
      → DataZone RecoveryEntry
      → IoResult TarHeader
      → W
      → Option (Round W)
  recover_zone f fuel format ident zone (ok recovery_header) w =
      let (header, offset) = recovery_plan format recovery_header in
      elim (concrete_tarheader f fuel format header) [
        | none ↦ none
        | some concrete ↦ some (with_concrete ident zone header offset concrete w)
      ]
  recover_zone f fuel format ident zone (err e) w = some (failed e w)

  -- What follows a round: the next one, on the zones that are left, or the end of the loop.
  unfoldable pub next_round : Option (Round W) → Zones → (W → Recovery W) → Recovery W
  next_round none rest next = none
  next_round (some (recovered w)) rest next = next w
  next_round (some (torn w)) rest next = some (ok (some (o.uncommitted_writes w ++ rest)), w)
  next_round (some (failed e w)) rest next = some (err e, w)

  unfoldable pub recover_data : Formatting → ℕ → TarFormat → Zones → W → Recovery W
  recover_data f fuel format [] w = some (ok none, w)
  recover_data f fuel format (zone ∷ rest) w = elim zone.ident [
    | none ↦ recover_data f fuel format rest w
    | some ident ↦
        next_round (recover_zone f fuel format ident zone (recovery_header fs ident zone) w) rest
          (λ w'. recover_data f fuel format rest w')
  ]
