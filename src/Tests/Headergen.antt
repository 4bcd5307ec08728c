-- ===== src/Tests/Headergen.antt =====
-- Runs of the definitions for the read-ahead, of a file of three bytes that is read in two parts.
use rapidtar.Prelude.{◌≡◌, refl, Option, some, [], ◌∷◌}
use rapidtar.Io.{Bytes, IoResult, ok, err, interrupted}
use rapidtar.Tar.FileType.{ustar}
use rapidtar.Tar.Header.{TarHeader}
use rapidtar.Tar.Recovery.{concrete_tarheader}
use rapidtar.Tar.Ustar.{
  ustar_header, format_tar_filename, format_tar_time, numeral_or_zeros, ustar_fields,
}
use rapidtar.Tar.LegacyName.{
  format_pax_legacy_filename, legacy_fields, only_ascii, chop, find_slash, is_ascii, resize,
  split_at_slash, truncate_prefix,
}
use rapidtar.Tar.Path.{canonicalized_tar_path, canonical_from, component_text, is_anchor, is_root}
use rapidtar.Tar.FileType.{is_directory, is_file_stream, type_flag}
use rapidtar.Tar.Checksum.{blank_checksum, checksum_header, splice, sum_bytes}
use rapidtar.Tar.Digits.{digits, digits_from}
use rapidtar.Tar.Numeral.{format_tar_numeral, format_tar_string}
use rapidtar.Tar.Serialize.{HeaderGenResult}
use rapidtar.Tar.Serialize.Blocks.{file_bytes}
use rapidtar.Tar.Headergen.{headergen, with_header, readahead, cache_file, fill_cache, Reads}
use rapidtar.Tar.Headergen.Prefix.{no_more, chunk, failure, headergen-file_bytes}
use rapidtar.Tests.Blocking.{cursor, cursor-IsHonest}
use rapidtar.Tests.Headers.{header}
use rapidtar.Tests.Tar.{formatting}

abbrev short : TarHeader
short = record header { file_size = 3 }

abbrev bytes_of : Option (IoResult Bytes) → Bytes
bytes_of (some (ok b)) = b
bytes_of _ = []

abbrev result : HeaderGenResult
result = record {
  tar_header = short;
  encoded_header = bytes_of (concrete_tarheader formatting 2 ustar short);
  original_path = [];
  canonical_path = [];
  file_prefix = some (1 ∷ 2 ∷ 3 ∷ []);
}

abbrev reads : Reads
reads = ok (1 ∷ 2 ∷ []) ∷ err interrupted ∷ ok (3 ∷ []) ∷ []

headergen-file_bytes_example :
    file_bytes cursor (λ w. w) cursor-IsHonest result (ok (1 ∷ 2 ∷ 3 ∷ [])) ≡ 1 ∷ 2 ∷ 3 ∷ []
unfolding concrete_tarheader ustar_header format_tar_filename format_pax_legacy_filename
    legacy_fields only_ascii canonicalized_tar_path is_directory blank_checksum checksum_header
    splice sum_bytes digits digits_from is_file_stream type_flag chop find_slash is_ascii resize
    split_at_slash truncate_prefix format_tar_numeral format_tar_string canonical_from
    component_text is_anchor is_root format_tar_time numeral_or_zeros ustar_fields headergen
    with_header readahead cache_file fill_cache
headergen-file_bytes_example =
    headergen-file_bytes cursor (λ w. w) cursor-IsHonest formatting 2 [] short ustar (ok [])
      (ok reads) (1 ∷ 2 ∷ 3 ∷ []) {t = result} refl refl refl
      (chunk 2 (1 ∷ 2 ∷ 3 ∷ []) (err interrupted ∷ ok (3 ∷ []) ∷ [])
        (failure (3 ∷ []) (ok (3 ∷ []) ∷ []) interrupted (chunk 1 (3 ∷ []) [] (no_more []))))
