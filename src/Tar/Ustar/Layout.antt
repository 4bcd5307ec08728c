-- ===== src/Tar/Ustar/Layout.antt =====
-- librapidarchive/src/tar/ustar.rs: a USTAR header is one block, with every field at its place.
use rapidtar.Prelude.{
  ℕ, ◌-◌, ◌<◌, ◌≡◌, refl, ap, ◌∙◌, Option, none, some, List, [], ◌∷◌, arith, if◌then◌else◌, length,
  replicate, unwrap_or, length-append, length-replicate, widths, ltb, Bool-cases, inl, inr,
}
use rapidtar.Io.{Bytes, ok_or, invalid_data}
use rapidtar.Tar.FileType.{is_file_stream}
use rapidtar.Tar.Header.{TarHeader, SystemTime, since_epoch, before_epoch, result_or}
use rapidtar.Tar.Numeral.{Formatting, IsSound, format_tar_numeral, format_tar_string}
use rapidtar.Tar.Numeral.Octal.{format_tar_numeral-IsOctalField}
use rapidtar.Tar.Ustar.{format_tar_time, numeral_or_zeros, ustar_fields}

-- The widths of the fields of a header, as POSIX gives them, with the prefix field of 155 bytes.
abbrev pub ustar_widths : List ℕ
ustar_widths = 100 ∷ 8 ∷ 8 ∷ 8 ∷ 12 ∷ 12 ∷ 8 ∷ 1 ∷ 100 ∷ 6 ∷ 2 ∷ 32 ∷ 32 ∷ 8 ∷ 8 ∷ 155 ∷ 12 ∷ []

-- A text that `format_tar_string` accepts fills its field, and ends in a NUL.
pub length-format_tar_string :
    (s : Bytes) (size : ℕ) → length (unwrap_or (format_tar_string s size) (replicate size 0)) ≡ size
unfolding format_tar_string
length-format_tar_string s size = elim (Bool-cases (ltb (length s) size)) [
  | inl fits ↦ rw fits (
      ground (
        arith,
        length-append s (replicate (size - length s) 0),
        length-replicate {A = ℕ} (size - length s) 0,
      ))
  | inr long ↦ rw long (length-replicate {A = ℕ} size 0)
]

module _ (f : Formatting) (sound : IsSound f) where
  length-format_tar_numeral :
      (n size : ℕ) {v : Bytes} → 1 < size → format_tar_numeral f n size ≡ some v → length v ≡ size
  length-format_tar_numeral n size h e =
      (format_tar_numeral-IsOctalField f sound n size h e).size_lem

  pub length-unwrap_or :
      (field : Option Bytes) (size : ℕ)
      → ((v : Bytes) → field ≡ some v → length v ≡ size)
      → length (unwrap_or field (replicate size 0)) ≡ size
  length-unwrap_or none size h = length-replicate {A = ℕ} size 0
  length-unwrap_or (some v) size h = h v refl

  length-numeral_or_zeros : (n size : ℕ) → 1 < size → length (numeral_or_zeros f n size) ≡ size
  unfolding numeral_or_zeros
  length-numeral_or_zeros n size h =
      length-unwrap_or (format_tar_numeral f n size) size
        (λ v e. length-format_tar_numeral n size h e)

  result_or-ok_or :
      (field : Option Bytes) (d : Bytes)
      → result_or (ok_or field invalid_data) d ≡ unwrap_or field d
  result_or-ok_or none d = refl
  result_or-ok_or (some v) d = refl

  length-format_tar_time :
      (t : SystemTime) → length (result_or (format_tar_time f t) (replicate 12 0)) ≡ 12
  unfolding format_tar_time
  length-format_tar_time (since_epoch secs) =
      ap length (result_or-ok_or (format_tar_numeral f secs 12) (replicate 12 0))
      ∙ length-unwrap_or (format_tar_numeral f secs 12) 12
          (λ v e. length-format_tar_numeral secs 12 (omega arith) e)
  length-format_tar_time before_epoch = refl

  size_field : TarHeader → Bytes
  size_field h =
      if is_file_stream h.file_type
      then numeral_or_zeros f h.file_size 12
      else numeral_or_zeros f 0 12

  length-size_field : (h : TarHeader) → length (size_field h) ≡ 12
  unfolding size_field
  length-size_field h = elim (Bool-cases (is_file_stream h.file_type)) [
    | inl stream ↦ rw stream (length-numeral_or_zeros h.file_size 12 (omega arith))
    | inr other ↦ rw other (length-numeral_or_zeros 0 12 (omega arith))
  ]

  pub widths-ustar_fields :
      (h : TarHeader) (names : Bytes × Bytes) (mode : Bytes)
      → length names.0 ≡ 100
      → length names.1 ≡ 155
      → length mode ≡ 8
      → widths (ustar_fields f h names mode) ≡ ustar_widths
  unfolding ustar_fields size_field
  widths-ustar_fields h names mode a b c =
      rw
        (
          a,
          b,
          c,
          length-numeral_or_zeros h.unix_uid 8 (omega arith),
          length-numeral_or_zeros h.unix_gid 8 (omega arith),
          length-size_field h,
          length-format_tar_time (unwrap_or h.mtime (since_epoch 0)),
          length-format_tar_string h.unix_uname 32,
          length-format_tar_string h.unix_gname 32,
          length-numeral_or_zeros h.unix_devmajor 8 (omega arith),
          length-numeral_or_zeros h.unix_devminor 8 (omega arith),
        )
        refl
