-- ===== src/Tar/PaxHeader.antt =====
-- librapidarchive/src/tar/pax.rs: the header of a file in PAX format.
pub mod Blocks
pub mod Whole
use rapidtar.Prelude.{
  ℕ, ◌+◌, ◌-◌, ◌%◌, Bool, true, false, Option, none, some, List, [], ◌∷◌, ◌++◌, ◌==◌, ltb,
  if◌then◌else◌, length, replicate, unwrap_or, concat,
}
use rapidtar.Io.{Bytes, IoResult, ok, err, ◌>>=◌, ok_or, invalid_data}
use rapidtar.Tar.Digits.{digits}
use rapidtar.Tar.FileType.{TarFileType, type_flag, is_file_stream}
use rapidtar.Tar.Path.{PathBuf, Component, normal, cur_dir, push, pop, canonicalized_tar_path}
use rapidtar.Tar.Header.{TarHeader, SystemTime, since_epoch, before_epoch, to_option}
use rapidtar.Tar.Numeral.{Formatting, format_tar_numeral, format_gnu_numeral, format_tar_string}
use rapidtar.Tar.LegacyName.{LegacyFields, format_pax_legacy_filename}
use rapidtar.Tar.Ustar.{magic, version}
use rapidtar.Tar.Pax.{format_pax_attribute, format_pax_time}

abbrev pub size_key : Bytes
size_key = b's' ∷ b'i' ∷ b'z' ∷ b'e' ∷ []

abbrev pub path_key : Bytes
path_key = b'p' ∷ b'a' ∷ b't' ∷ b'h' ∷ []

abbrev pub mtime_key : Bytes
mtime_key = b'm' ∷ b't' ∷ b'i' ∷ b'm' ∷ b'e' ∷ []

abbrev pub atime_key : Bytes
atime_key = b'a' ∷ b't' ∷ b'i' ∷ b'm' ∷ b'e' ∷ []

abbrev pub uname_key : Bytes
uname_key = b'u' ∷ b'n' ∷ b'a' ∷ b'm' ∷ b'e' ∷ []

abbrev pub gname_key : Bytes
gname_key = b'g' ∷ b'n' ∷ b'a' ∷ b'm' ∷ b'e' ∷ []

abbrev pub creationtime_key : Bytes
creationtime_key =
    b'L' ∷ b'I' ∷ b'B' ∷ b'A' ∷ b'R' ∷ b'C' ∷ b'H' ∷ b'I' ∷ b'V' ∷ b'E' ∷ b'.' ∷ b'c' ∷ b'r' ∷ b'e'
    ∷ b'a' ∷ b't' ∷ b'i' ∷ b'o' ∷ b'n' ∷ b't' ∷ b'i' ∷ b'm' ∷ b'e' ∷ []

abbrev pub pax_headers : Bytes
pax_headers = b'P' ∷ b'a' ∷ b'x' ∷ b'H' ∷ b'e' ∷ b'a' ∷ b'd' ∷ b'e' ∷ b'r' ∷ b's' ∷ []

-- `Path::file_name`
unfoldable pub file_name : PathBuf → Option Component
file_name [] = none
file_name (normal name ∷ []) = some (normal name)
file_name (c ∷ []) = none
file_name (c ∷ d ∷ cs) = file_name (d ∷ cs)

-- `Path::with_file_name`
unfoldable pub with_file_name : Component → PathBuf → PathBuf
with_file_name name path = elim (file_name path) [
  | none ↦ push name path
  | some _ ↦ push name (pop path)
]

-- `PathBuf::push` of a path, component by component.
unfoldable pub push_all : PathBuf → PathBuf → PathBuf
push_all path [] = path
push_all path (c ∷ cs) = push_all (push c path) cs

unfoldable pub compute_fallback_path : PathBuf → TarFileType → LegacyFields
compute_fallback_path path filetype = format_pax_legacy_filename (
    canonicalized_tar_path
      (if ltb 1 (length path)
        then push (unwrap_or (file_name path) cur_dir) (with_file_name (normal pax_headers) path)
        else push_all (cur_dir ∷ normal pax_headers ∷ []) path)
      filetype)

-- A key and its value.
abbrev pub Pair : Type 0
Pair = Bytes × Bytes

-- `if let None = field { … format_pax_attribute(key, val) … }`
abbrev pub pair_unless : Option Bytes → Bytes → Bytes → List Pair
pair_unless none key val = (key, val) ∷ []
pair_unless (some _) key val = []

-- `if let Some(t) = time { … format_pax_attribute(key, &format_pax_time(&t)?) … }`
unfoldable pub time_pair : Bytes → Option SystemTime → IoResult (List Pair)
time_pair key none = ok []
time_pair key (some t) = format_pax_time t >>= λ val. ok ((key, val) ∷ [])

module _ (f : Formatting) where
  unfoldable pub format_gnu_time : SystemTime → IoResult Bytes
  format_gnu_time (since_epoch secs) = ok_or (format_gnu_numeral f 64 secs 12) invalid_data
  format_gnu_time before_epoch = err invalid_data

  -- `ustar_mtime`
  abbrev pub header_mtime : TarHeader → Option Bytes
  header_mtime h = to_option (format_gnu_time (unwrap_or h.mtime (since_epoch 0)))

  -- What goes into the extended header, in order.
  unfoldable pub extended_pairs : TarHeader → Bytes → Bool → IoResult (List Pair)
  extended_pairs h canonical_path legacy_format_truncated =
      time_pair mtime_key (elim (header_mtime h) [ none ↦ h.mtime | some _ ↦ none ]) >>= λ mtime.
      time_pair atime_key h.atime >>= λ atime.
      time_pair creationtime_key h.birthtime >>= λ birthtime. ok (
        pair_unless (format_tar_numeral f h.file_size 12) size_key (digits 10 h.file_size)
        ++ ((if legacy_format_truncated then (path_key, canonical_path) ∷ [] else [])
            ++ (mtime
                ++ (atime
                    ++ (pair_unless (format_tar_string h.unix_uname 32) uname_key h.unix_uname
                        ++ (pair_unless (format_tar_string h.unix_gname 32) gname_key h.unix_gname
                            ++ birthtime))))))

  -- None: one of the attributes takes more than `fuel` rounds.
  unfoldable pub format_pairs : ℕ → List Pair → Option Bytes
  format_pairs fuel [] = some []
  format_pairs fuel ((key, val) ∷ pairs) = elim (format_pax_attribute f fuel key val) [
    | none ↦ none
    | some attribute ↦ elim (format_pairs fuel pairs) [
      | none ↦ none
      | some rest ↦ some (attribute ++ rest)
    ]
  ]

  -- `format_gnu_numeral(number, size).unwrap_or(vec![0; size])` of a number of `width` bits.
  unfoldable pub gnu_or_zeros : ℕ → ℕ → ℕ → Bytes
  gnu_or_zeros width number size =
      unwrap_or (format_gnu_numeral f width number size) (replicate size 0)

  -- What both blocks are extended with: the size and the flag differ, and the names.
  unfoldable pub pax_fields : TarHeader → LegacyFields → Bytes → Bytes → ℕ → List Bytes
  pax_fields h (name, prefix, _) mode size flag =
      name
      ∷ mode
      ∷ gnu_or_zeros 32 h.unix_uid 8
      ∷ gnu_or_zeros 32 h.unix_gid 8
      ∷ size
      ∷ unwrap_or (header_mtime h) (replicate 12 0)
      ∷ replicate 8 32
      ∷ (flag ∷ [])
      ∷ replicate 100 0
      ∷ magic
      ∷ version
      ∷ unwrap_or (format_tar_string h.unix_uname 32) (replicate 32 0)
      ∷ unwrap_or (format_tar_string h.unix_gname 32) (replicate 32 0)
      ∷ gnu_or_zeros 32 h.unix_devmajor 8
      ∷ gnu_or_zeros 32 h.unix_devminor 8
      ∷ prefix
      ∷ replicate 12 0
      ∷ []

  -- The extended stream, filled up to whole blocks.
  unfoldable pub pad_stream : Bytes → Bytes
  pad_stream stream =
      if length stream % 512 == 0 then stream else stream ++ replicate (512 - length stream % 512) 0

  -- The block of the extended header, and its stream.
  unfoldable pub extended_header : TarHeader → Bytes → Bytes → IoResult Bytes
  extended_header h mode stream =
      ok_or (format_gnu_numeral f 64 (length stream) 12) invalid_data >>= λ size. ok (
        concat (pax_fields h (compute_fallback_path h.path h.file_type) mode size b'x')
        ++ pad_stream stream)

  unfoldable pub file_header : TarHeader → LegacyFields → Bytes → Bytes
  file_header h names mode = concat (
      pax_fields h names mode
        (if is_file_stream h.file_type
          then gnu_or_zeros 64 h.file_size 12
          else gnu_or_zeros 32 0 12)
        (type_flag h.file_type % 256))

  unfoldable pub pax_blocks : TarHeader → LegacyFields → Bytes → IoResult Bytes
  pax_blocks h names stream = ok_or (format_gnu_numeral f 32 h.unix_mode 8) invalid_data >>= λ mode.
      if ltb 0 (length stream)
      then (extended_header h mode stream >>= λ extended. ok (extended ++ file_header h names mode))
      else ok (file_header h names mode)

  -- None: an attribute takes more than `fuel` rounds.
  unfoldable pub pax_header : ℕ → TarHeader → Option (IoResult Bytes)
  pax_header fuel h =
      let canonical_path = canonicalized_tar_path h.path h.file_type in
      let names = format_pax_legacy_filename canonical_path in
      elim (extended_pairs h canonical_path names.2) [
        | err e ↦ some (err e)
        | ok pairs ↦ elim (format_pairs fuel pairs) [
          | none ↦ none
          | some stream ↦ some (pax_blocks h names stream)
        ]
      ]
