-- ===== src/Tar/Ustar.antt =====
-- librapidarchive/src/tar/ustar.rs: the header of a file in USTAR format.
pub mod Layout
pub mod ReadBack
use rapidtar.Prelude.{
  ℕ, ◌%◌, Bool, true, false, Option, none, some, List, [], ◌∷◌, ◌++◌, if◌then◌else◌, replicate,
  unwrap_or, concat,
}
use rapidtar.Io.{Bytes, IoResult, ok, err, ◌>>=◌, ok_or, ErrorKind, invalid_data}
use rapidtar.Tar.FileType.{TarFileType, type_flag, is_file_stream}
use rapidtar.Tar.Path.{PathBuf, canonicalized_tar_path}
use rapidtar.Tar.Header.{TarHeader, SystemTime, since_epoch, before_epoch, result_or}
use rapidtar.Tar.Numeral.{Formatting, format_tar_numeral, format_tar_string}
use rapidtar.Tar.LegacyName.{format_pax_legacy_filename}

-- The name and the prefix field.
unfoldable pub format_tar_filename : PathBuf → TarFileType → IoResult (Bytes × Bytes)
format_tar_filename dirpath filetype =
    let (unix, prefix, was_truncated) =
      format_pax_legacy_filename (canonicalized_tar_path dirpath filetype) in
    if was_truncated then err invalid_data else ok (unix, prefix)

abbrev pub magic : Bytes
magic = b'u' ∷ b's' ∷ b't' ∷ b'a' ∷ b'r' ∷ 0 ∷ []

abbrev pub version : Bytes
version = b'0' ∷ b'0' ∷ []

module _ (f : Formatting) where
  unfoldable pub format_tar_time : SystemTime → IoResult Bytes
  format_tar_time (since_epoch secs) = ok_or (format_tar_numeral f secs 12) invalid_data
  format_tar_time before_epoch = err invalid_data

  -- `format_tar_numeral(number, size).unwrap_or(vec![0; size])`
  unfoldable pub numeral_or_zeros : ℕ → ℕ → Bytes
  numeral_or_zeros number size = unwrap_or (format_tar_numeral f number size) (replicate size 0)

  -- What `header.extend` is called with, in order, once the name fields and the mode are there.
  unfoldable pub ustar_fields : TarHeader → Bytes × Bytes → Bytes → List Bytes
  unfolding numeral_or_zeros
  ustar_fields h (name, prefix) mode =
      name
      ∷ mode
      ∷ numeral_or_zeros h.unix_uid 8
      ∷ numeral_or_zeros h.unix_gid 8
      ∷ (if is_file_stream h.file_type
          then numeral_or_zeros h.file_size 12
          else numeral_or_zeros 0 12)
      ∷ result_or (format_tar_time (unwrap_or h.mtime (since_epoch 0))) (replicate 12 0)
      ∷ replicate 8 32
      ∷ ((type_flag h.file_type % 256) ∷ [])
      ∷ replicate 100 0
      ∷ magic
      ∷ version
      ∷ unwrap_or (format_tar_string h.unix_uname 32) (replicate 32 0)
      ∷ unwrap_or (format_tar_string h.unix_gname 32) (replicate 32 0)
      ∷ numeral_or_zeros h.unix_devmajor 8
      ∷ numeral_or_zeros h.unix_devminor 8
      ∷ prefix
      ∷ replicate 12 0
      ∷ []

  -- The assertions on the sizes of the name fields hold, and are left out.
  unfoldable pub ustar_header : TarHeader → IoResult Bytes
  ustar_header h = format_tar_filename h.path h.file_type >>= λ names.
      ok_or (format_tar_numeral f h.unix_mode 8) invalid_data >>= λ mode.
      ok (concat (ustar_fields h names mode))
