-- ===== src/Tests/Headers.antt =====
-- Runs of the definitions for headers, their checksums and their attributes.
use rapidtar.Prelude.{
  ℕ, ◌+◌, ◌-◌, ◌^◌, ◌%◌, ◌<◌, ◌≡◌, refl, arith, none, some, [], ◌∷◌, ◌++◌, length, replicate,
  concat, All, zero, suc, inl, inr, Bool-cases, leb, leb→le, leb_false→lt, ◌≤◌,
}
use rapidtar.Io.{Bytes}
use rapidtar.Tar.Digits.{digits, digits_from, digits_lem, length-digits_ge, exponent_pos}
use rapidtar.Tar.FileType.{file_stream, type_flag, is_file_stream, is_directory}
use rapidtar.Tar.Path.{normal, canonicalized_tar_path, canonical_from, is_root, component_text}
use rapidtar.Tar.Header.{TarHeader, since_epoch}
use rapidtar.Tar.Numeral.Octal.{IsOctalField}
use rapidtar.Tar.Numeral.{HasLog10, format_tar_numeral}
use rapidtar.Tar.LegacyName.{
  format_pax_legacy_filename, legacy_fields, only_ascii, is_ascii, resize,
}
use rapidtar.Tar.Checksum.{checksum_header, pax_checksum_header}
use rapidtar.Tar.Checksum.Sum.{IsByte}
use rapidtar.Tar.Checksum.Field.{Checksummed, checksum_header_lem}
use rapidtar.Tar.Checksum.Blocks.{pax_checksum_header_lem}
use rapidtar.Tar.Ustar.{ustar_header, format_tar_filename, ustar_fields, magic}
use rapidtar.Tar.Ustar.ReadBack.{field_at, ustar_header_lem, ustar_header-file_size}
use rapidtar.Tar.LegacyName.Fields.{ustar_path}
use rapidtar.Tar.Pax.{format_pax_attribute}
use rapidtar.Tar.Pax.Attribute.{format_pax_attribute_lem}
use rapidtar.Io.{IoResult, ok}
use rapidtar.Tar.PaxHeader.{
  pax_header, extended_pairs, time_pair, format_pairs, pax_blocks, extended_header, file_header,
  format_gnu_time,
}
use rapidtar.Tar.PaxHeader.Whole.{IsPaxHeader, pax_header-IsPaxHeader}
use rapidtar.Tar.Numeral.{format_gnu_numeral, format_tar_string}
use rapidtar.Tar.Pax.{format_pax_time, find_number_length, attribute_tail}
use rapidtar.Prelude.{Option}
use rapidtar.Tests.Tar.{formatting, formatting-IsSound}

abbrev block : Bytes
block = replicate 512 65

All-letters : (n : ℕ) → All IsByte (replicate n 65)
All-letters zero = tt
All-letters (suc n) = (omega arith, All-letters n)

checksum_header_lem_example :
    Checksummed formatting formatting-IsSound
      (replicate 200 65)
      (checksum_header formatting (replicate 200 65))
checksum_header_lem_example =
    checksum_header_lem formatting formatting-IsSound (replicate 200 65) (omega arith) (omega arith)
      (All-letters 200)

pax_checksum_header_lem_example :
    (first' last' : Bytes) × (pax_checksum_header formatting (block ++ ((66 ∷ []) ++ block))
      ≡ first' ++ ((66 ∷ []) ++ last'))
    × Checksummed formatting formatting-IsSound block first'
    × Checksummed formatting formatting-IsSound block last'
pax_checksum_header_lem_example =
    pax_checksum_header_lem formatting formatting-IsSound block (66 ∷ []) block refl refl
      (All-letters 512) (All-letters 512)

-- A regular file "a" of 1000 bytes.
abbrev pub header : TarHeader
header = record {
  path = normal (97 ∷ []) ∷ [];
  unix_mode = 420;
  unix_uid = 1000;
  unix_gid = 1000;
  file_size = 1000;
  mtime = some (since_epoch 7);
  file_type = file_stream;
  symlink_path = none;
  unix_uname = 97 ∷ [];
  unix_gname = 97 ∷ [];
  unix_devmajor = 0;
  unix_devminor = 0;
  atime = none;
  birthtime = none;
  recovery_path = none;
  recovery_remaining_size = none;
  recovery_seek_offset = none;
}

abbrev mode : Bytes
mode = 48 ∷ 48 ∷ 48 ∷ 48 ∷ 54 ∷ 52 ∷ 52 ∷ 0 ∷ []

abbrev encoded : Bytes
encoded = concat (ustar_fields formatting header (97 ∷ replicate 99 0, replicate 155 0) mode)

ustar_header_lem_example :
    (length encoded ≡ 512)
    × (ustar_path (field_at 0 encoded) (field_at 15 encoded)
        ≡ canonicalized_tar_path (normal (97 ∷ []) ∷ []) file_stream)
    × IsOctalField 8 420 (field_at 1 encoded)
    × (field_at 6 encoded ≡ replicate 8 32)
    × (field_at 7 encoded ≡ (type_flag file_stream % 256) ∷ [])
    × (field_at 9 encoded ≡ magic)
unfolding ustar_header is_file_stream format_tar_filename format_pax_legacy_filename legacy_fields
    only_ascii canonicalized_tar_path is_directory canonical_from is_root component_text is_ascii
    format_tar_numeral resize digits
ustar_header_lem_example =
    ustar_header_lem formatting formatting-IsSound header {header = encoded} (ground arith)
      (inl (omega arith)) refl

ustar_header-file_size_example : IsOctalField 12 1000 (field_at 4 encoded)
unfolding ustar_header is_file_stream format_tar_filename format_pax_legacy_filename legacy_fields
    only_ascii canonicalized_tar_path is_directory canonical_from is_root component_text is_ascii
    format_tar_numeral resize digits
ustar_header-file_size_example =
    ustar_header-file_size formatting formatting-IsSound header {header = encoded} refl
      (omega arith) refl

count_gt : (n : ℕ) → n < 10 ^ length (digits 10 n)
count_gt n = elim (Bool-cases (leb (10 ^ length (digits 10 n)) n)) [
  | inl more ↦
      absurd (
        omega (arith, length-digits_ge 10 (omega arith) n (length (digits 10 n)) (leb→le _ n more)))
  | inr less ↦ leb_false→lt _ n less
]

count_le : (n : ℕ) → 0 < n → 10 ^ (length (digits 10 n) - 1) ≤ n
count_le n pos =
    let k = length (digits 10 n) - 1 in
    elim (Bool-cases (leb (10 ^ k) n)) [
      | inl more ↦ leb→le (10 ^ k) n more
      | inr less ↦
          let small = leb_false→lt (10 ^ k) n less in
          let some_exponent : 0 < k = exponent_pos 10 (omega arith) n k pos small in
          let (spells, all, fits) = digits_lem 10 (omega arith) n k small some_exponent in
          absurd (omega (arith, fits, some_exponent))
    ]

formatting-HasLog10 : HasLog10 formatting 1000
formatting-HasLog10 = record {
  log10_le = λ n pos small. count_le n pos;
  log10_gt = λ n pos small.
      let some_digit = length-digits_ge 10 (omega arith) n 0 (omega arith) in
      let k : length (digits 10 n) - 1 + 1 ≡ length (digits 10 n) = omega (arith, some_digit) in
      rw k (count_gt n);
}

format_pax_attribute_lem_example :
    (attribute : Bytes) × (format_pax_attribute formatting 2 (120 ∷ []) (121 ∷ []) ≡ some attribute)
    × (attribute
        ≡ digits 10 (length attribute) ++ b' ' ∷ ((120 ∷ []) ++ b'=' ∷ ((121 ∷ []) ++ 10 ∷ [])))
unfolding digits digits_from
format_pax_attribute_lem_example =
    format_pax_attribute_lem formatting 1000 formatting-HasLog10 (120 ∷ []) (121 ∷ []) (omega arith)

abbrev returned : Option (IoResult Bytes) → Bytes
returned (some (ok b)) = b
returned _ = []

-- The same file with a time of its last access, which needs an extended header.
abbrev accessed : TarHeader
accessed = record header { atime = some (since_epoch 7) }

pax_header-IsPaxHeader_example :
    IsPaxHeader formatting formatting-IsSound accessed (returned (pax_header formatting 2 accessed))
unfolding pax_header extended_pairs time_pair format_pax_time format_pairs format_pax_attribute
    find_number_length pax_blocks extended_header file_header format_gnu_numeral format_gnu_time
    format_tar_numeral format_tar_string digits digits_from format_pax_legacy_filename legacy_fields
    only_ascii canonicalized_tar_path is_directory canonical_from is_root component_text is_ascii
    attribute_tail
pax_header-IsPaxHeader_example =
    pax_header-IsPaxHeader formatting formatting-IsSound 2 accessed
      {header = returned (pax_header formatting 2 accessed)} refl
