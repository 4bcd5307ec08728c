-- ===== src/Tar/Label.antt =====
-- librapidarchive/src/tar/label.rs, and `pax_label` of librapidarchive/src/tar/pax.rs: the label of a
-- volume.
pub mod Resume
use rapidtar.Prelude.{
  ℕ, ◌-◌, Bool, Option, none, some, List, [], ◌∷◌, ◌++◌, ltb, if◌then◌else◌, length, take, drop,
  replicate, unwrap_or, concat, min,
}
use rapidtar.Io.{Bytes, IoResult, ok, err, ◌>>=◌, ok_or, invalid_data}
use rapidtar.Spanning.Zone.{DataZone}
use rapidtar.Tar.Digits.{digits}
use rapidtar.Tar.FileType.{TarFormat, ustar, posix, TarFileType, file_stream}
use rapidtar.Tar.Path.{PathBuf, root_dir, normal, normalize, canonicalized_tar_path}
use rapidtar.Tar.Header.{SystemTime, Metadata, RecoveryEntry, result_or}
use rapidtar.Tar.Numeral.{Formatting, format_gnu_numeral}
use rapidtar.Tar.LegacyName.{LegacyFields, format_pax_legacy_filename}
use rapidtar.Tar.Checksum.{checksum_header}
use rapidtar.Tar.Ustar.{magic, version}
use rapidtar.Tar.PaxHeader.{Pair, format_pairs, format_gnu_time, gnu_or_zeros, pad_stream}

abbrev pub label_key : Bytes
label_key =
    b'G' ∷ b'N' ∷ b'U' ∷ b'.' ∷ b'v' ∷ b'o' ∷ b'l' ∷ b'u' ∷ b'm' ∷ b'e' ∷ b'.' ∷ b'l' ∷ b'a' ∷ b'b'
    ∷ b'e' ∷ b'l' ∷ []

abbrev pub filename_key : Bytes
filename_key =
    b'G' ∷ b'N' ∷ b'U' ∷ b'.' ∷ b'v' ∷ b'o' ∷ b'l' ∷ b'u' ∷ b'm' ∷ b'e' ∷ b'.' ∷ b'f' ∷ b'i' ∷ b'l'
    ∷ b'e' ∷ b'n' ∷ b'a' ∷ b'm' ∷ b'e' ∷ []

abbrev pub volume_size_key : Bytes
volume_size_key =
    b'G' ∷ b'N' ∷ b'U' ∷ b'.' ∷ b'v' ∷ b'o' ∷ b'l' ∷ b'u' ∷ b'm' ∷ b'e' ∷ b'.' ∷ b's' ∷ b'i' ∷ b'z'
    ∷ b'e' ∷ []

abbrev pub offset_key : Bytes
offset_key =
    b'G' ∷ b'N' ∷ b'U' ∷ b'.' ∷ b'v' ∷ b'o' ∷ b'l' ∷ b'u' ∷ b'm' ∷ b'e' ∷ b'.' ∷ b'o' ∷ b'f' ∷ b'f'
    ∷ b's' ∷ b'e' ∷ b't' ∷ []

abbrev pub tmp : Bytes
tmp = b't' ∷ b'm' ∷ b'p' ∷ []

abbrev pub global_head : Bytes
global_head = b'G' ∷ b'l' ∷ b'o' ∷ b'b' ∷ b'a' ∷ b'l' ∷ b'H' ∷ b'e' ∷ b'a' ∷ b'd' ∷ b'.' ∷ []

pub record TarLabel : Type 0 where
  pub label : Option Bytes
  pub nabla : ℕ
  pub volume_identifier : Option ℕ
  pub recovery_path : Option PathBuf
  pub recovery_file_type : Option TarFileType
  pub recovery_remaining_size : Option ℕ
  pub recovery_seek_offset : Option ℕ

-- `TarLabel::default()` of the process `id`.
unfoldable pub default : ℕ → TarLabel
default id = record {
  label = none;
  nabla = id;
  volume_identifier = none;
  recovery_path = none;
  recovery_file_type = none;
  recovery_remaining_size = none;
  recovery_seek_offset = none;
}

-- `metadata` is what `symlink_metadata` yields for the canonical path of the zone.
unfoldable pub label_with_recovery :
    ℕ → IoResult Metadata → DataZone RecoveryEntry → IoResult TarLabel
label_with_recovery id metadata zone = elim zone.ident [
  | none ↦ ok (default id)
  | some ident ↦
      let offset = zone.committed_length - ident.header_length in
      metadata >>= λ data_of. data_of.file_type >>= λ kind. ok (record (default id) {
        recovery_path = some (normalize ident.original_path);
        recovery_file_type = some kind;
        recovery_remaining_size = some (data_of.len - offset);
        recovery_seek_offset = some (min offset data_of.len);
      })
]

-- `if let Some(v) = field { … format_pax_attribute(key, …) … }`
abbrev pub pair_of : Option Bytes → Bytes → List Pair
pair_of none key = []
pair_of (some val) key = (key, val) ∷ []

abbrev pub text_of_number : Option ℕ → Option Bytes
text_of_number none = none
text_of_number (some n) = some (digits 10 n)

abbrev pub text_of_path : TarFileType → Option PathBuf → Option Bytes
text_of_path kind none = none
text_of_path kind (some path) = some (canonicalized_tar_path path kind)

unfoldable pub label_pairs : TarLabel → List Pair
label_pairs l = pair_of l.label label_key ++ elim l.recovery_file_type [
  | none ↦ []
  | some kind ↦
      pair_of (text_of_path kind l.recovery_path) filename_key
      ++ (pair_of (text_of_number l.recovery_remaining_size) volume_size_key
          ++ pair_of (text_of_number l.recovery_seek_offset) offset_key)
]

-- `/tmp/GlobalHead.{nabla}.{volume}`
unfoldable pub label_path : TarLabel → PathBuf
label_path l =
    root_dir
    ∷ normal tmp
    ∷ normal (
        global_head
        ++ (digits 10 l.nabla ++ b'.' ∷ digits 10 (unwrap_or l.volume_identifier 0 - 1)))
    ∷ []

module _ (f : Formatting) where
  unfoldable pub label_fields : SystemTime → LegacyFields → Bytes → ℕ → List Bytes
  label_fields now (name, prefix, _) mode size =
      name
      ∷ mode
      ∷ gnu_or_zeros f 32 0 8
      ∷ gnu_or_zeros f 32 0 8
      ∷ gnu_or_zeros f 64 size 12
      ∷ result_or (format_gnu_time f now) (replicate 12 0)
      ∷ replicate 8 32
      ∷ (b'g' ∷ [])
      ∷ replicate 100 0
      ∷ magic
      ∷ version
      ∷ replicate 32 0
      ∷ replicate 32 0
      ∷ replicate 8 0
      ∷ replicate 8 0
      ∷ prefix
      ∷ replicate 12 0
      ∷ []

  -- The label around the stream of its attributes; `now` is the time of the call.
  unfoldable pub label_blocks : SystemTime → TarLabel → Bytes → IoResult Bytes
  label_blocks now l stream =
      if ltb 0 (length stream)
      then (ok_or (format_gnu_numeral f 32 420 8) invalid_data >>= λ mode. ok (
          concat (
            label_fields now
              (format_pax_legacy_filename (canonicalized_tar_path (label_path l) file_stream)) mode
              (length stream))
          ++ pad_stream f stream))
      else ok []

  -- None: an attribute takes more than `fuel` rounds.
  unfoldable pub pax_label : ℕ → SystemTime → TarLabel → Option (IoResult Bytes)
  pax_label fuel now l = elim (format_pairs f fuel (label_pairs l)) [
    | none ↦ none
    | some stream ↦ some (label_blocks now l stream)
  ]

  -- `if serial_label.len() > 512 { ustar::checksum_header(&mut serial_label[0..512]); }`
  unfoldable pub checksum_label : Bytes → Bytes
  checksum_label serial_label =
      if ltb 512 (length serial_label)
      then checksum_header f (take 512 serial_label) ++ drop 512 serial_label
      else serial_label

  unfoldable pub labelgen : ℕ → SystemTime → TarFormat → TarLabel → Option (IoResult Bytes)
  labelgen fuel now ustar l = some (ok [])
  labelgen fuel now posix l = elim (pax_label fuel now l) [
    | none ↦ none
    | some result ↦ some (result >>= λ serial_label. ok (checksum_label serial_label))
  ]
