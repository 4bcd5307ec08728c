-- ===== src/Tests/Rapidtar.antt =====
-- Runs of the definitions for rapidtar: a recovery over two volumes, of which the first one fills up,
-- and an archive of one file.
use rapidtar.Prelude.{
  ℕ, ◌+◌, ◌≡◌, ◌≢◌, refl, arith, some, none, [], ◌∷◌, ◌++◌, replicate, zero, suc,
}
use rapidtar.Io.{Bytes, IoResult, ok, RecoverableWrite, IsHonest, PadsOnFlush}
use rapidtar.Tar.FileType.{ustar}
use rapidtar.Tar.Header.{RecoveryEntry, since_epoch}
use rapidtar.Tar.Recovery.{Zones, recover_data, recovery_header, concrete_tarheader}
use rapidtar.Tar.Recovery.{
  next_round, recover_zone, with_concrete, break_on_error, copy_file, copy_source, recover_file,
}
use rapidtar.Tar.Header.{with_recovery, abstract_header_for_file, recovery_plan, resume_header}
use rapidtar.Tar.Ustar.{
  ustar_header, format_tar_filename, format_tar_time, numeral_or_zeros, ustar_fields,
}
use rapidtar.Tar.LegacyName.{
  format_pax_legacy_filename, legacy_fields, only_ascii, chop, find_slash, is_ascii, resize,
  split_at_slash, truncate_prefix,
}
use rapidtar.Tar.Path.{
  canonicalized_tar_path, canonical_from, component_text, is_anchor, is_root, normalize,
  normalize_from, normalize_step, push, push_root,
}
use rapidtar.Tar.FileType.{is_directory, is_file_stream, type_flag}
use rapidtar.Tar.Checksum.{blank_checksum, checksum_header, splice, sum_bytes}
use rapidtar.Tar.Digits.{digits, digits_from}
use rapidtar.Tar.Numeral.{format_tar_numeral, format_tar_string}
use rapidtar.Tar.Label.{labelgen, label_with_recovery}
use rapidtar.Tar.Serialize.{
  HeaderGenResult, serialize, write_counted, write_file, write_prefix, stream_needed, copy_rest,
  check_size, pad_blocks,
}
use rapidtar.Rapidtar.{default_parameter, default_result}
use rapidtar.Rapidtar.Exchange.{volume_exchange_cli, ask, answered, answer}
use rapidtar.Rapidtar.Label.{Setting, label_bytes, write_label, label_proc, zone_label, titled}
use rapidtar.Rapidtar.Recover.{
  Session, Exit, returned, hung, Sinks, recovered_to, labelled, with_volume, after_exchange,
  recover_loop, recover_proc,
}
use rapidtar.Rapidtar.Recover.Volumes.{Handed, recover_proc-returns}
use rapidtar.Rapidtar.Recover.Moved.{IsRecovered, recover_proc-IsRecovered}
use rapidtar.Rapidtar.Archive.{
  Pass, begin_entry, after_entry, serialize_entries, after_label, serialize_proc, close_tarball,
  closed, after_pass, with_pass, create,
}
use rapidtar.Rapidtar.Archive.Entries.{Archived}
use rapidtar.Rapidtar.Archive.Created.{create-Archived}
use rapidtar.Tests.Tar.{formatting}
use rapidtar.Tests.Headers.{header}
use rapidtar.Tests.Recovery.{room, room-IsHonest, files, torn_zone}

-- A sink with room for a number of bytes, which reports a zone of a file of which it has all but one
-- byte.
abbrev losing : ℕ → RecoverableWrite Bytes RecoveryEntry
losing limit = record (room limit) { uncommitted_writes = λ w. torn_zone ∷ [] }

losing-IsHonest : (limit : ℕ) → IsHonest (losing limit) (λ w. w)
losing-IsHonest limit = record {
  write_le = (room-IsHonest limit).write_le;
  write_ok = (room-IsHonest limit).write_ok;
  write_err = (room-IsHonest limit).write_err;
  write_all_ok = (room-IsHonest limit).write_all_ok;
  contents-begin = λ p w. refl;
  contents-resume = λ p n w. refl;
  contents-end = λ w. refl;
}

-- A flush adds three zeros.
abbrev padding : ℕ → RecoverableWrite Bytes RecoveryEntry
padding limit = record (losing limit) { flush = λ w. (ok tt, w ++ replicate 3 0) }

padding-IsHonest : (limit : ℕ) → IsHonest (padding limit) (λ w. w)
padding-IsHonest limit = record {
  write_le = (room-IsHonest limit).write_le;
  write_ok = (room-IsHonest limit).write_ok;
  write_err = (room-IsHonest limit).write_err;
  write_all_ok = (room-IsHonest limit).write_all_ok;
  contents-begin = λ p w. refl;
  contents-resume = λ p n w. refl;
  contents-end = λ w. refl;
}

padding-PadsOnFlush : (limit : ℕ) → PadsOnFlush (padding limit) (λ w. w)
padding-PadsOnFlush limit = record { flush_pads = λ w h. (3, refl) }

abbrev setting : Setting
setting = record {
  formatting = formatting;
  fuel = 10;
  now = since_epoch 7;
  process_id = 42;
  files = files;
}

-- The first volume that is opened holds 100 bytes already, so that a header of 512 does not fit.
abbrev volumes : ℕ → IoResult Bytes
volumes zero = ok (replicate 100 0)
volumes (suc n) = ok []

abbrev sinks : Sinks Bytes
sinks = record {
  writer = losing 600;
  open_sink = λ count name tuning limit. volumes count;
  trim = λ b. b;
}

abbrev session : Session
session = record {
  params = record (default_parameter []) { format = ustar };
  result = default_result;
  input = ok (b'y' ∷ 10 ∷ []) ∷ ok (b'?' ∷ 10 ∷ []) ∷ ok (b'y' ∷ 10 ∷ []) ∷ [];
  opened = 0;
}

abbrev session_after : Session
session_after = record session {
  result = record default_result { volume_count = 3 };
  input = [];
  opened = 2;
}

recover_proc-returns_example : recover_proc setting sinks 4 [] session ≢ hung
recover_proc-returns_example = recover_proc-returns setting sinks 4 [] session (omega arith)

abbrev sink_of : Exit Bytes → Bytes
sink_of (returned (ok w) s) = w
sink_of _ = []

recover_proc-IsRecovered_example :
    (last : Zones) × Handed setting sinks (torn_zone ∷ []) last
    × IsRecovered setting sinks
        (λ w. w)
        (losing-IsHonest 600)
        last
        (sink_of (recover_proc setting sinks 4 [] session))
        session_after
unfolding recover_data next_round recover_zone recovery_header with_recovery
    abstract_header_for_file concrete_tarheader with_concrete ustar_header format_tar_filename
    format_pax_legacy_filename legacy_fields only_ascii canonicalized_tar_path is_directory
    recovery_plan resume_header blank_checksum checksum_header splice sum_bytes digits digits_from
    is_file_stream type_flag chop find_slash is_ascii resize split_at_slash truncate_prefix
    format_tar_numeral format_tar_string canonical_from component_text is_anchor is_root normalize
    normalize_from normalize_step push push_root break_on_error copy_file copy_source recover_file
    format_tar_time numeral_or_zeros ustar_fields recover_proc recover_loop volume_exchange_cli ask
    answered answer after_exchange with_volume labelled recovered_to label_proc write_label
    label_bytes zone_label titled labelgen label_with_recovery
recover_proc-IsRecovered_example =
    recover_proc-IsRecovered setting sinks (λ w. w) (losing-IsHonest 600) 4 [] session
      {v = sink_of (recover_proc setting sinks 4 [] session)} {s' = session_after} refl refl

-- A file of three bytes, of which none were read ahead.
abbrev small_file : HeaderGenResult
small_file = record {
  tar_header = record header { file_size = 3 };
  encoded_header = replicate 10 65;
  original_path = [];
  canonical_path = [];
  file_prefix = none;
}

abbrev roomy : Sinks Bytes
roomy = record sinks { writer = padding 5000 }

abbrev pass : Pass Bytes
pass = record {
  outcome = ok tt;
  failed_entry = none;
  unread = [];
  result = record default_result { tarball_size = 13 + 13 };
  tarball = replicate 10 65 ++ (1 ∷ 2 ∷ 3 ∷ replicate 499 0);
}

create-Archived_example :
    (label : Bytes) × (bytes : Bytes) × (zeros : ℕ) × (label_bytes setting none session.params
        session.result
      ≡ some (ok label))
    × Archived (padding 5000) (λ w. w) (padding-IsHonest 5000) files (small_file ∷ []) bytes
    × ((pass.tarball ++ replicate 1024 0) ++ replicate 3 0
        ≡ [] ++ ((label ++ bytes) ++ (replicate 1024 0 ++ replicate zeros 0)))
unfolding serialize write_counted write_file write_prefix stream_needed copy_rest check_size
    pad_blocks is_file_stream create with_pass after_pass closed close_tarball serialize_proc
    after_label serialize_entries after_entry begin_entry label_proc write_label label_bytes
    zone_label titled labelgen label_with_recovery
create-Archived_example =
    create-Archived setting roomy (λ w. w) (padding-IsHonest 5000) (padding-PadsOnFlush 5000) 1 1
      (small_file ∷ []) [] session {p = pass}
      {v = (pass.tarball ++ replicate 1024 0) ++ replicate 3 0}
      {s' = record session { result = record default_result { tarball_size = 26 + 1024 } }} refl
      refl refl refl
