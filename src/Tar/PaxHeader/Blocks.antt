-- ===== src/Tar/PaxHeader/Blocks.antt =====
-- librapidarchive/src/tar/pax.rs: a PAX header is made of whole blocks.
use rapidtar.Prelude.{
  ℕ, zero, suc, ◌+◌, ◌-◌, ◌%◌, ◌<◌, ◌≡◌, refl, sym, ap, ◌∙◌, false, Option, none, some, [], ◌∷◌,
  ◌++◌, arith, ◌==◌, length, set, replicate, unwrap_or, concat, widths, sum, length-concat,
  length-set, length-append, length-replicate, Bool-cases, inl, inr, ==_iff,
}
use rapidtar.Io.{Bytes, ok_or, invalid_data}
use rapidtar.Tar.Digits.{digits}
use rapidtar.Tar.Header.{TarHeader, SystemTime, since_epoch, before_epoch, to_option}
use rapidtar.Tar.Numeral.{
  Formatting, IsSound, format_tar_numeral, format_gnu_numeral, write_base256,
}
use rapidtar.Tar.Numeral.Octal.{format_tar_numeral-IsOctalField}
use rapidtar.Tar.LegacyName.{LegacyFields}
use rapidtar.Tar.LegacyName.Sizes.{AreFields}
use rapidtar.Tar.Ustar.Layout.{ustar_widths, length-format_tar_string, length-unwrap_or}
use rapidtar.Tar.PaxHeader.{format_gnu_time, header_mtime, gnu_or_zeros, pax_fields, pad_stream}

to_option-ok_or :
    (field : Option Bytes)
    → unwrap_or (to_option (ok_or field invalid_data)) (replicate 12 0)
      ≡ unwrap_or field (replicate 12 0)
to_option-ok_or none = refl
to_option-ok_or (some v) = refl

module _ (f : Formatting) (sound : IsSound f) where
  length-write_base256 :
      (width n size left i : ℕ) (result : Bytes)
      → length (write_base256 f width n size left i result) ≡ length result
  unfolding write_base256
  length-write_base256 width n size zero i result = refl
  length-write_base256 width n size (suc left) i result =
      length-write_base256 width n size left (i + 1) _ ∙ length-set result (size - i - 1) _

  octal :
      (n size : ℕ) {v : Bytes}
      → f.log_ge 8 n (size - 1) ≡ false
      → some (f.pad (digits 8 n) (size - 1) ++ 0 ∷ []) ≡ some v
      → format_tar_numeral f n size ≡ some v
  unfolding format_tar_numeral
  octal n size small e = rw small e

  -- A number fills its field.
  pub length-format_gnu_numeral :
      (width n size : ℕ) {v : Bytes}
      → 1 < size
      → format_gnu_numeral f width n size ≡ some v
      → length v ≡ size
  unfolding format_gnu_numeral
  length-format_gnu_numeral width n size {v} big h = elim (Bool-cases (f.log_ge 256 n (size - 1))) [
    | inl huge ↦ let nothing : ◌≡◌ {A = Option Bytes} none (some v) = rw huge at h in absurd (cc)
    | inr fits ↦ elim (Bool-cases (f.log_ge 8 n (size - 1))) [
      | inl large ↦
          let blank = set (replicate size 0) 0 0x80 in
          let found : ◌≡◌ {A = Option Bytes}
              (some (write_base256 f width n size (size - 1) 0 blank)) (some v) =
            rw (fits, large) at h in
          let same : write_base256 f width n size (size - 1) 0 blank ≡ v = cc in
          ap length (sym same)
          ∙ length-write_base256 width n size (size - 1) 0 blank
          ∙ length-set (replicate size 0) 0 0x80
          ∙ length-replicate {A = ℕ} size 0
      | inr small ↦
          (format_tar_numeral-IsOctalField f sound n size big
            (octal n size small (rw (fits, small) at h))).size_lem
    ]
  ]

  pub length-gnu_or_zeros :
      (width n size : ℕ) → 1 < size → length (gnu_or_zeros f width n size) ≡ size
  unfolding gnu_or_zeros
  length-gnu_or_zeros width n size big =
      length-unwrap_or f sound (format_gnu_numeral f width n size) size
        (λ v e. length-format_gnu_numeral width n size big e)

  mtime_size :
      (t : SystemTime) → length (unwrap_or (to_option (format_gnu_time f t)) (replicate 12 0)) ≡ 12
  unfolding format_gnu_time
  mtime_size (since_epoch secs) =
      ap length (to_option-ok_or (format_gnu_numeral f 64 secs 12))
      ∙ length-unwrap_or f sound (format_gnu_numeral f 64 secs 12) 12
          (λ v e. length-format_gnu_numeral 64 secs 12 (omega arith) e)
  mtime_size before_epoch = refl

  length-header_mtime :
      (h : TarHeader) → length (unwrap_or (header_mtime f h) (replicate 12 0)) ≡ 12
  length-header_mtime h = mtime_size (unwrap_or h.mtime (since_epoch 0))

  widths-pax_fields :
      (h : TarHeader) (names : LegacyFields) (mode size : Bytes) (flag : ℕ)
      → AreFields names
      → length mode ≡ 8
      → length size ≡ 12
      → widths (pax_fields f h names mode size flag) ≡ ustar_widths
  unfolding pax_fields
  widths-pax_fields h names mode size flag (a, b) c d =
      rw
        (
          a,
          b,
          c,
          d,
          length-gnu_or_zeros 32 h.unix_uid 8 (omega arith),
          length-gnu_or_zeros 32 h.unix_gid 8 (omega arith),
          length-header_mtime h,
          length-format_tar_string h.unix_uname 32,
          length-format_tar_string h.unix_gname 32,
          length-gnu_or_zeros 32 h.unix_devmajor 8 (omega arith),
          length-gnu_or_zeros 32 h.unix_devminor 8 (omega arith),
        )
        refl

  pub length-pax_fields :
      (h : TarHeader) (names : LegacyFields) (mode size : Bytes) (flag : ℕ)
      → AreFields names
      → length mode ≡ 8
      → length size ≡ 12
      → length (concat (pax_fields f h names mode size flag)) ≡ 512
  length-pax_fields h names mode size flag a c d =
      length-concat (pax_fields f h names mode size flag)
      ∙ ap sum (widths-pax_fields h names mode size flag a c d)

  pub length-pad_stream : (stream : Bytes) → length (pad_stream f stream) % 512 ≡ 0
  unfolding pad_stream
  length-pad_stream stream = elim (Bool-cases (length stream % 512 == 0)) [
    | inl whole ↦ rw whole ((==_iff (length stream % 512) 0).0 whole)
    | inr part ↦
        let k = 512 - length stream % 512 in
        rw part (omega (arith, length-append stream (replicate k 0), length-replicate {A = ℕ} k 0))
  ]
