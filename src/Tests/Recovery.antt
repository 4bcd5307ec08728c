-- ===== src/Tests/Recovery.antt =====
-- Runs of the definitions for recovery, over a writer that has room for a number of bytes.
use rapidtar.Prelude.{
  ℕ, ◌+◌, ◌≡◌, ◌∙◌, refl, sym, ap, arith, Option, some, none, [], ◌∷◌, ◌++◌, length, leb,
  if◌then◌else◌, take_all, Bool-cases, inl, inr,
}
use rapidtar.Io.{Bytes, IoResult, ok, err, write_zero, RecoverableWrite, IsHonest}
use rapidtar.Spanning.Zone.{DataZone}
use rapidtar.Tar.FileType.{ustar, posix}
use rapidtar.Tar.Path.{normal, root_dir}
use rapidtar.Tar.Header.{Metadata, RecoveryEntry, TarHeader}
use rapidtar.Tar.Recovery.{FileSystem, Recovery, recover_data, recovery_header, concrete_tarheader}
use rapidtar.Tar.Recovery.Stream.{RecoveryStream, recover_data-RecoveryStream}
use rapidtar.Tar.Recovery.Torn.{IsTorn, recover_data-IsTorn}
use rapidtar.Tar.Recovery.WholeFile.{IsResumed-whole_file, Completes}
use rapidtar.Tar.Recovery.{
  next_round, recover_zone, with_concrete, break_on_error, copy_file, copy_source, recover_file,
}
use rapidtar.Tar.Header.{with_recovery, abstract_header_for_file, recovery_plan, resume_header}
use rapidtar.Tar.Ustar.{
  ustar_header, format_tar_filename, format_tar_time, numeral_or_zeros, ustar_fields,
}
use rapidtar.Tar.LegacyName.{
  format_pax_legacy_filename, legacy_fields, only_ascii, chop, find_slash, is_ascii, resize,
  split_at_slash, truncate_prefix,
}
use rapidtar.Tar.Path.{
  canonicalized_tar_path, canonical_from, component_text, is_anchor, is_root, normalize,
  normalize_from, normalize_step, push, push_root,
}
use rapidtar.Tar.FileType.{is_directory, is_file_stream, type_flag}
use rapidtar.Tar.Checksum.{blank_checksum, checksum_header, splice, sum_bytes}
use rapidtar.Tar.Digits.{digits, digits_from}
use rapidtar.Tar.Numeral.{format_tar_numeral, format_tar_string}
use rapidtar.Tar.Checksum.{pax_checksum_header}
use rapidtar.Tar.PaxHeader.{
  pax_header, extended_pairs, time_pair, format_pairs, pax_blocks, extended_header, file_header,
  format_gnu_time, with_file_name, file_name, compute_fallback_path, gnu_or_zeros, pad_stream,
  pax_fields, push_all,
}
use rapidtar.Tar.Pax.{format_pax_time, format_pax_attribute, find_number_length, attribute_tail}
use rapidtar.Tar.Numeral.{format_gnu_numeral}
use rapidtar.Tests.Tar.{formatting}
use rapidtar.Tests.Paths.{metadata, entry, resumed, a}

abbrev room_write : ℕ → Bytes → Bytes → IoResult ℕ × Bytes
room_write limit b w =
    if leb (length w + length b) limit then (ok (length b), w ++ b) else (err write_zero, w)

abbrev room_write_all : ℕ → Bytes → Bytes → IoResult (Unit {0}) × Bytes
room_write_all limit b w =
    if leb (length w + length b) limit then (ok tt, w ++ b) else (err write_zero, w)

-- It takes what fits whole, and nothing else.
abbrev pub room : ℕ → RecoverableWrite Bytes RecoveryEntry
room limit = record {
  write = room_write limit;
  write_all = room_write_all limit;
  flush = λ w. (ok tt, w);
  begin_data_zone = λ p w. w;
  resume_data_zone = λ p n w. w;
  end_data_zone = λ w. w;
  uncommitted_writes = λ w. [];
}

ok_inj : {m n : ℕ} → ok m ≡ ok n → m ≡ n
ok_inj h = cc

room_ok :
    (limit : ℕ) (b w : Bytes) {n : ℕ}
    → (room_write limit b w).0 ≡ ok n
    → (length b ≡ n) × ((room_write limit b w).1 ≡ w ++ b)
room_ok limit b w {n} h = elim (Bool-cases (leb (length w + length b) limit)) [
  | inl fits ↦
      let kept : ◌≡◌ {A = IoResult ℕ} (ok (length b)) (ok n) = rw fits at h in
      (ok_inj kept, rw fits refl)
  | inr full ↦
      let refused : ◌≡◌ {A = IoResult ℕ} (err write_zero) (ok n) = rw full at h in absurd (cc)
]

pub room-IsHonest : (limit : ℕ) → IsHonest (room limit) (λ w. w)
room-IsHonest limit = record {
  write_le = λ b w n h. omega (arith, (room_ok limit b w h).0);
  write_ok = λ b w n h.
      (room_ok limit b w h).1
      ∙ ap (λ t. w ++ t) (sym (take_all n b (omega (arith, (room_ok limit b w h).0))));
  write_err = λ b w e h. ground arith;
  write_all_ok = λ b w h. ground arith;
  contents-begin = λ p w. refl;
  contents-resume = λ p n w. refl;
  contents-end = λ w. refl;
}

abbrev source : Bytes
source = 1 ∷ 2 ∷ 3 ∷ []

abbrev short : Metadata
short = record metadata { len = 3 }

abbrev pub files : FileSystem
files = record {
  symlink_metadata = λ p. ok short;
  canonicalize = λ p. ok p;
  open_file = λ p. ok source;
  read_failure = λ p. none;
}

abbrev pub torn_zone : DataZone RecoveryEntry
torn_zone = record {
  ident = some entry;
  length = 515;
  committed_length = 514;
  uncommitted_length = 1;
}

abbrev after : Recovery Bytes → Bytes
after (some (_, w)) = w
after none = []

abbrev run : ℕ → Recovery Bytes
run limit = recover_data files (room limit) formatting 10 ustar (torn_zone ∷ torn_zone ∷ []) []

recover_data-RecoveryStream_example :
    (bytes : Bytes) × RecoveryStream files formatting 10 ustar (torn_zone ∷ torn_zone ∷ []) bytes
    × (after (run 2000) ≡ [] ++ bytes)
unfolding recover_data next_round recover_zone recovery_header with_recovery
    abstract_header_for_file concrete_tarheader with_concrete ustar_header format_tar_filename
    format_pax_legacy_filename legacy_fields only_ascii canonicalized_tar_path is_directory
    recovery_plan resume_header blank_checksum checksum_header splice sum_bytes digits digits_from
    is_file_stream type_flag chop find_slash is_ascii resize split_at_slash truncate_prefix
    format_tar_numeral format_tar_string canonical_from component_text is_anchor is_root normalize
    normalize_from normalize_step push push_root break_on_error copy_file copy_source recover_file
    format_tar_time numeral_or_zeros ustar_fields
recover_data-RecoveryStream_example =
    recover_data-RecoveryStream files (room 2000) (λ w. w) (room-IsHonest 2000) formatting 10 ustar
      (torn_zone ∷ torn_zone ∷ []) [] {w' = after (run 2000)} refl

recover_data-IsTorn_example :
    IsTorn files
      (room 514)
      (λ w. w)
      (room-IsHonest 514)
      formatting
      10
      ustar
      (torn_zone ∷ torn_zone ∷ [])
      []
      (torn_zone ∷ [])
      (after (run 514))
unfolding recover_data next_round recover_zone recovery_header with_recovery
    abstract_header_for_file concrete_tarheader with_concrete ustar_header format_tar_filename
    format_pax_legacy_filename legacy_fields only_ascii canonicalized_tar_path is_directory
    recovery_plan resume_header blank_checksum checksum_header splice sum_bytes digits digits_from
    is_file_stream type_flag chop find_slash is_ascii resize split_at_slash truncate_prefix
    format_tar_numeral format_tar_string canonical_from component_text is_anchor is_root normalize
    normalize_from normalize_step push push_root break_on_error copy_file copy_source recover_file
    format_tar_time numeral_or_zeros ustar_fields
recover_data-IsTorn_example =
    recover_data-IsTorn files (room 514) (λ w. w) (room-IsHonest 514) formatting 10 ustar
      (torn_zone ∷ torn_zone ∷ []) [] {left = torn_zone ∷ []} {w' = after (run 514)} refl

abbrev header_or : IoResult TarHeader → TarHeader → TarHeader
header_or (ok h) d = h
header_or (err e) d = d

abbrev bytes_of : Option (IoResult Bytes) → Bytes
bytes_of (some (ok b)) = b
bytes_of _ = []

abbrev said : TarHeader
said = header_or (recovery_header files entry torn_zone) resumed

abbrev concrete : Bytes
concrete = bytes_of (concrete_tarheader formatting 10 posix (recovery_plan posix said).0)

IsResumed-whole_file_example :
    (plan : TarHeader) × (head : Bytes) × (rest : Bytes) × (concrete_tarheader formatting 10 posix
        plan
      ≡ some (ok head))
    × (concrete ++ 3 ∷ [] ≡ head ++ rest)
    × (plan.file_size ≡ length rest)
    × Completes posix 2 source rest
unfolding recovery_header with_recovery abstract_header_for_file concrete_tarheader
    format_pax_legacy_filename legacy_fields only_ascii canonicalized_tar_path is_directory
    recovery_plan resume_header blank_checksum checksum_header splice sum_bytes digits digits_from
    is_file_stream type_flag is_ascii resize format_tar_numeral format_tar_string canonical_from
    component_text is_anchor is_root normalize normalize_from normalize_step push push_root
    pax_checksum_header pax_header extended_pairs time_pair format_pax_time format_pairs
    format_pax_attribute find_number_length pax_blocks extended_header file_header
    format_gnu_numeral format_gnu_time attribute_tail with_file_name file_name compute_fallback_path
    gnu_or_zeros pad_stream pax_fields push_all
IsResumed-whole_file_example =
    IsResumed-whole_file files formatting 10 posix torn_zone entry short (root_dir ∷ normal a ∷ [])
      source (concrete ++ 3 ∷ []) refl refl refl refl refl refl (omega arith)
      (
        said,
        concrete,
        root_dir ∷ normal a ∷ [],
        3 ∷ [],
        refl,
        refl,
        refl,
        inr (refl, (source, refl, refl)),
        refl,
      )

abbrev concrete_ustar : Bytes
concrete_ustar = bytes_of (concrete_tarheader formatting 10 ustar (recovery_plan ustar said).0)

-- USTAR repeats the file, of which two bytes have been committed.
repeats_ustar :
    (plan : TarHeader) × (head : Bytes) × (rest : Bytes) × (concrete_tarheader formatting 10 ustar
        plan
      ≡ some (ok head))
    × (concrete_ustar ++ source ≡ head ++ rest)
    × (plan.file_size ≡ length rest)
    × Completes ustar 2 source rest
unfolding recover_data next_round recover_zone recovery_header with_recovery
    abstract_header_for_file concrete_tarheader with_concrete ustar_header format_tar_filename
    format_pax_legacy_filename legacy_fields only_ascii canonicalized_tar_path is_directory
    recovery_plan resume_header blank_checksum checksum_header splice sum_bytes digits digits_from
    is_file_stream type_flag chop find_slash is_ascii resize split_at_slash truncate_prefix
    format_tar_numeral format_tar_string canonical_from component_text is_anchor is_root normalize
    normalize_from normalize_step push push_root break_on_error copy_file copy_source recover_file
    format_tar_time numeral_or_zeros ustar_fields
repeats_ustar =
    IsResumed-whole_file files formatting 10 ustar torn_zone entry short (root_dir ∷ normal a ∷ [])
      source (concrete_ustar ++ source) refl refl refl refl refl refl (omega arith)
      (
        said,
        concrete_ustar,
        root_dir ∷ normal a ∷ [],
        source,
        refl,
        refl,
        refl,
        inr (refl, (source, refl, refl)),
        refl,
      )
