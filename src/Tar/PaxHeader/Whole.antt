-- ===== src/Tar/PaxHeader/Whole.antt =====
-- librapidarchive/src/tar/pax.rs: `pax_header` returns whole blocks, of which the last is the header
-- of the file.
use rapidtar.Prelude.{
  ℕ, ◌%◌, ◌≡◌, refl, ap, Option, none, some, List, [], ◌++◌, arith, ltb, if◌then◌else◌, length,
  concat, length-append, Bool-cases, inl, inr,
}
use rapidtar.Io.{Bytes, IoResult, ok, err, ◌>>=◌, ok_or, invalid_data}
use rapidtar.Tar.FileType.{type_flag, is_file_stream}
use rapidtar.Tar.Path.{canonicalized_tar_path}
use rapidtar.Tar.Header.{TarHeader}
use rapidtar.Tar.Numeral.{Formatting, IsSound, format_gnu_numeral}
use rapidtar.Tar.LegacyName.{LegacyFields, format_pax_legacy_filename}
use rapidtar.Tar.LegacyName.Sizes.{AreFields, format_pax_legacy_filename-AreFields}
use rapidtar.Tar.PaxHeader.{
  Pair, compute_fallback_path, extended_pairs, format_pairs, gnu_or_zeros, pax_fields, pad_stream,
  extended_header, file_header, pax_blocks, pax_header,
}
use rapidtar.Tar.PaxHeader.Blocks.{
  length-format_gnu_numeral, length-gnu_or_zeros, length-pax_fields, length-pad_stream,
}

module _ (f : Formatting) (sound : IsSound f) where
  length-file_header :
      (h : TarHeader) (names : LegacyFields) (mode : Bytes)
      → AreFields names
      → length mode ≡ 8
      → length (file_header f h names mode) ≡ 512
  unfolding file_header
  length-file_header h names mode a c =
      let flag = type_flag h.file_type % 256 in
      elim (Bool-cases (is_file_stream h.file_type)) [
        | inl stream ↦ rw stream (
            length-pax_fields f sound h names mode (gnu_or_zeros f 64 h.file_size 12) flag a c
              (length-gnu_or_zeros f sound 64 h.file_size 12 (omega arith)))
        | inr other ↦ rw other (
            length-pax_fields f sound h names mode (gnu_or_zeros f 32 0 12) flag a c
              (length-gnu_or_zeros f sound 32 0 12 (omega arith)))
      ]

  extended_by :
      (h : TarHeader) (mode stream : Bytes) (x : Option Bytes) {b : Bytes}
      → length mode ≡ 8
      → format_gnu_numeral f 64 (length stream) 12 ≡ x
      → (ok_or x invalid_data >>= λ size. ok (
          concat (pax_fields f h (compute_fallback_path h.path h.file_type) mode size b'x')
          ++ pad_stream f stream))
        ≡ ok b
      → length b % 512 ≡ 0
  unfolding compute_fallback_path
  extended_by h mode stream none c e k = absurd (cc)
  extended_by h mode stream (some size) {b} c e k =
      let first =
        concat (pax_fields f h (compute_fallback_path h.path h.file_type) mode size b'x') in
      let whole : first ++ pad_stream f stream ≡ b = cc in
      let one =
        length-pax_fields f sound h (compute_fallback_path h.path h.file_type) mode size b'x'
          (format_pax_legacy_filename-AreFields _) c
          (length-format_gnu_numeral f sound 64 (length stream) 12 (omega arith) e) in
      omega (
        arith,
        ap length whole,
        length-append first (pad_stream f stream),
        one,
        length-pad_stream f sound stream,
      )

  -- The length is a multiple of 512, and the last block is the header of the file.
  pub record IsPaxHeader (h : TarHeader) (header : Bytes) : Type 0 where
    pub blocks : length header % 512 ≡ 0
    pub front : Bytes
    pub mode : Bytes
    pub last :
        front
          ++ file_header f h
              (format_pax_legacy_filename (canonicalized_tar_path h.path h.file_type))
              mode
        ≡ header
    pub last_size :
        length (
          file_header f h
            (format_pax_legacy_filename (canonicalized_tar_path h.path h.file_type))
            mode)
        ≡ 512

  blocks_by :
      (h : TarHeader) (names : LegacyFields) (mode stream : Bytes) (x : IoResult Bytes) {b : Bytes}
      → AreFields names
      → length mode ≡ 8
      → extended_header f h mode stream ≡ x
      → (x >>= λ extended. ok (extended ++ file_header f h names mode)) ≡ ok b
      → (length b % 512 ≡ 0) × (front : Bytes) × (front ++ file_header f h names mode ≡ b)
  unfolding extended_header
  blocks_by h names mode stream (err e) a c k m = absurd (cc)
  blocks_by h names mode stream (ok extended) {b} a c k m =
      let whole : extended ++ file_header f h names mode ≡ b = cc in
      let first = extended_by h mode stream _ c refl k in
      (
        omega (
          arith,
          ap length whole,
          length-append extended (file_header f h names mode),
          first,
          length-file_header h names mode a c,
        ),
        extended,
        whole,
      )

  mode_by :
      (h : TarHeader) (names : LegacyFields) (stream : Bytes) (x : Option Bytes) {b : Bytes}
      → AreFields names
      → format_gnu_numeral f 32 h.unix_mode 8 ≡ x
      → (ok_or x invalid_data >>= λ mode.
          if ltb 0 (length stream)
          then (extended_header f h mode stream >>= λ extended.
              ok (extended ++ file_header f h names mode))
          else ok (file_header f h names mode))
        ≡ ok b
      → (mode : Bytes) × (length mode ≡ 8)
        × (length b % 512 ≡ 0)
        × (front : Bytes) × (front ++ file_header f h names mode ≡ b)
  mode_by h names stream none a e k = absurd (cc)
  mode_by h names stream (some mode) {b} a e k =
      let c = length-format_gnu_numeral f sound 32 h.unix_mode 8 (omega arith) e in
      elim (Bool-cases (ltb 0 (length stream))) [
        | inl extended ↦
            let (blocks, front, whole) =
              blocks_by h names mode stream _ a c refl (rw extended at k) in
            (mode, c, blocks, front, whole)
        | inr plain ↦
            let whole : ◌≡◌ {A = IoResult Bytes} (ok (file_header f h names mode)) (ok b) =
              rw plain at k in
            let same : file_header f h names mode ≡ b = cc in
            (mode, c, omega (arith, ap length same, length-file_header h names mode a c), [], same)
      ]

  stream_by :
      (x : Option Bytes) (h : TarHeader) (names : LegacyFields) {b : Bytes}
      → elim x as (λ _. Option (IoResult Bytes)) [
        | none ↦ none
        | some stream ↦ some (pax_blocks f h names stream)
      ]
        ≡ some (ok b)
      → (stream : Bytes) × (pax_blocks f h names stream ≡ ok b)
  stream_by none h names k = absurd (cc)
  stream_by (some stream) h names k = (stream, cc)

  header_by :
      (fuel : ℕ) (h : TarHeader) (names : LegacyFields) (x : IoResult (List Pair)) {b : Bytes}
      → elim x as (λ _. Option (IoResult Bytes)) [
        | err e ↦ some (err e)
        | ok pairs ↦ elim (format_pairs f fuel pairs) [
          | none ↦ none
          | some stream ↦ some (pax_blocks f h names stream)
        ]
      ]
        ≡ some (ok b)
      → (stream : Bytes) × (pax_blocks f h names stream ≡ ok b)
  header_by fuel h names (err e) k = absurd (cc)
  header_by fuel h names (ok pairs) {b} k = stream_by (format_pairs f fuel pairs) h names k

  -- Let the logarithm and the padding be as `IsSound` says. A header that `pax_header` returns is
  -- made of whole blocks of 512 bytes, and the last of them is the header of the file.
  pub pax_header-IsPaxHeader :
      (fuel : ℕ) (h : TarHeader) {header : Bytes}
      → pax_header f fuel h ≡ some (ok header)
      → IsPaxHeader h header
  unfolding pax_header pax_blocks
  pax_header-IsPaxHeader fuel h {header} k =
      let canonical_path = canonicalized_tar_path h.path h.file_type in
      let names = format_pax_legacy_filename canonical_path in
      let a = format_pax_legacy_filename-AreFields canonical_path in
      let (stream, made) = header_by fuel h names (extended_pairs f h canonical_path names.2) k in
      let (mode, c, blocks, front, whole) = mode_by h names stream _ a refl made in
      record {
        blocks = blocks;
        front = front;
        mode = mode;
        last = whole;
        last_size = length-file_header h names mode a c;
      }
