-- ===== src/Tar/Ustar/ReadBack.antt =====
-- librapidarchive/src/tar/ustar.rs: what a reader finds in a USTAR header.
use rapidtar.Prelude.{
  ℕ, ◌-◌, ◌*◌, ◌^◌, ◌%◌, ◌<◌, ◌≡◌, refl, sym, ap, ◌∙◌, true, false, Option, none, some, [], ◌∷◌,
  arith, length, replicate, concat, cut, cut-concat, length-concat, sum, get_or, All,
}
use mathlib.Core.Path.{subst, ap₂}
use rapidtar.Io.{Bytes, IoResult, ok, err, ◌>>=◌, ok_or, invalid_data}
use rapidtar.Tar.FileType.{type_flag, is_file_stream}
use rapidtar.Tar.Path.{canonicalized_tar_path}
use rapidtar.Tar.Header.{TarHeader}
use rapidtar.Tar.Numeral.{Formatting, IsSound, format_tar_numeral}
use rapidtar.Tar.Numeral.Octal.{IsOctalField, format_tar_numeral-IsOctalField}
use rapidtar.Tar.LegacyName.{format_pax_legacy_filename}
use rapidtar.Tar.LegacyName.Sizes.{format_pax_legacy_filename-AreFields}
use rapidtar.Tar.LegacyName.ReadBack.{FitsLegacy, ustar_path-format_pax_legacy_filename}
use rapidtar.Tar.LegacyName.Fields.{ustar_path, NonZero}
use rapidtar.Tar.Ustar.{format_tar_filename, numeral_or_zeros, ustar_fields, ustar_header, magic}
use rapidtar.Tar.Ustar.Layout.{ustar_widths, widths-ustar_fields}

-- The field of a header at this place in the layout.
abbrev pub field_at : ℕ → Bytes → Bytes
field_at i header = get_or (cut ustar_widths header) i []

module _ (f : Formatting) (sound : IsSound f) where
  accepts :
      (n size : ℕ)
      → 1 < size
      → 2 * n < 8 ^ (size - 1)
      → (v : Bytes) × (format_tar_numeral f n size ≡ some v)
  unfolding format_tar_numeral
  accepts n size big h =
      let small : f.log_ge 8 n (size - 1) ≡ false = sound.log_above 8 n (size - 1) h in
      rw small (_, refl)

  -- How a header came about.
  record Made (h : TarHeader) (header : Bytes) : Type 0 where
    names : Bytes × Bytes
    mode : Bytes
    named : format_tar_filename h.path h.file_type ≡ ok names
    moded : format_tar_numeral f h.unix_mode 8 ≡ some mode
    whole : concat (ustar_fields f h names mode) ≡ header

  Made-by :
      (h : TarHeader) (x : IoResult (Bytes × Bytes)) (y : Option Bytes) {header : Bytes}
      → format_tar_filename h.path h.file_type ≡ x
      → format_tar_numeral f h.unix_mode 8 ≡ y
      → (x >>= λ names. ok_or y invalid_data >>= λ mode. ok (concat (ustar_fields f h names mode)))
        ≡ ok header
      → Made h header
  Made-by h (err e) y ex ey k = absurd (cc)
  Made-by h (ok names) none ex ey k = absurd (cc)
  Made-by h (ok names) (some mode) ex ey k = record {
    names = names;
    mode = mode;
    named = ex;
    moded = ey;
    whole = cc;
  }

  ustar_header_inv : (h : TarHeader) {header : Bytes} → ustar_header f h ≡ ok header → Made h header
  unfolding ustar_header
  ustar_header_inv h e = Made-by h _ _ refl refl e

  format_tar_filename_inv :
      (h : TarHeader) {names : Bytes × Bytes}
      → format_tar_filename h.path h.file_type ≡ ok names
      → let t = format_pax_legacy_filename (canonicalized_tar_path h.path h.file_type) in
        (t.2 ≡ false) × (t.0 ≡ names.0) × (t.1 ≡ names.1)
  unfolding format_tar_filename
  format_tar_filename_inv h {names} e = ground arith

  Made-cut :
      (h : TarHeader) {header : Bytes} (m : Made h header)
      → (length header ≡ 512) × (cut ustar_widths header ≡ ustar_fields f h m.names m.mode)
  Made-cut h {header} m =
      let (kept, name, prefix) = format_tar_filename_inv h m.named in
      let (a, b) =
        format_pax_legacy_filename-AreFields (canonicalized_tar_path h.path h.file_type) in
      let c = format_tar_numeral-IsOctalField f sound h.unix_mode 8 (omega arith) m.moded in
      let fields = ustar_fields f h m.names m.mode in
      let layout =
        widths-ustar_fields f sound h m.names m.mode (ap length (sym name) ∙ a)
          (ap length (sym prefix) ∙ b) c.size_lem in
      (
        ap length (sym m.whole) ∙ length-concat fields ∙ ap sum layout,
        ap (cut ustar_widths) (sym m.whole)
            ∙ ap (λ w. cut w (concat fields)) (sym layout)
            ∙ cut-concat fields,
      )

  -- Let the logarithm and the padding be as `IsSound` says, and the path have no NUL and fit the
  -- name fields. A header that `ustar_header` returns is one block of 512 bytes. Cut at the places
  -- that POSIX gives, it has the whole path in the name and prefix fields, the mode in octal, spaces
  -- for the checksum, the type flag, and the magic of the format.
  pub ustar_header_lem :
      (h : TarHeader) {header : Bytes}
      → All NonZero (canonicalized_tar_path h.path h.file_type)
      → FitsLegacy (canonicalized_tar_path h.path h.file_type)
      → ustar_header f h ≡ ok header
      → (length header ≡ 512)
        × (ustar_path (field_at 0 header) (field_at 15 header)
            ≡ canonicalized_tar_path h.path h.file_type)
        × IsOctalField 8 h.unix_mode (field_at 1 header)
        × (field_at 6 header ≡ replicate 8 32)
        × (field_at 7 header ≡ (type_flag h.file_type % 256) ∷ [])
        × (field_at 9 header ≡ magic)
  unfolding ustar_fields
  ustar_header_lem h {header} clean fits e =
      let m = ustar_header_inv h e in
      let (size, found) = Made-cut h m in
      let (kept, name, prefix) = format_tar_filename_inv h m.named in
      let at : (i : ℕ) → field_at i header ≡ get_or (ustar_fields f h m.names m.mode) i [] =
        λ i. ap (λ t. get_or t i []) found in
      (
        size,
        ap₂ ustar_path (at 0 ∙ sym name) (at 15 ∙ sym prefix)
            ∙ ustar_path-format_pax_legacy_filename (canonicalized_tar_path h.path h.file_type)
                clean fits kept,
        subst (IsOctalField 8 h.unix_mode) (sym (at 1))
            (format_tar_numeral-IsOctalField f sound h.unix_mode 8 (omega arith) m.moded),
        at 6,
        at 7,
        at 9,
      )

  -- Under the same condition on the logarithm and the padding: the header of a regular file of less
  -- than 4 GiB says its size in octal.
  pub ustar_header-file_size :
      (h : TarHeader) {header : Bytes}
      → is_file_stream h.file_type ≡ true
      → 2 * h.file_size < 8 ^ 11
      → ustar_header f h ≡ ok header
      → IsOctalField 12 h.file_size (field_at 4 header)
  unfolding ustar_fields numeral_or_zeros
  ustar_header-file_size h {header} stream small e =
      let m = ustar_header_inv h e in
      let (size, found) = Made-cut h m in
      let (v, accepted) = accepts h.file_size 12 (omega arith) small in
      let here : field_at 4 header ≡ v =
        ap (λ t. get_or t 4 []) found ∙ (rw (stream, accepted) refl) in
      subst (IsOctalField 12 h.file_size) (sym here)
        (format_tar_numeral-IsOctalField f sound h.file_size 12 (omega arith) accepted)
