-- ===== src/Tar/Headergen.antt =====
-- librapidarchive/src/tar/header.rs: `headergen`, which makes the header of a file and reads its start
-- ahead.
pub mod Prefix
use rapidtar.Prelude.{
  ℕ, ◌-◌, Bool, true, false, Option, none, some, List, [], ◌∷◌, ◌++◌, ◌==◌, ◌||◌, if◌then◌else◌,
  length, take, min,
}
use rapidtar.Io.{
  Bytes, IoResult, ok, err, write_zero, invalid_data, invalid_input, interrupted, other,
}
use rapidtar.Tar.FileType.{TarFormat, is_file_stream}
use rapidtar.Tar.Path.{PathBuf}
use rapidtar.Tar.Header.{TarHeader}
use rapidtar.Tar.Numeral.{Formatting}
use rapidtar.Tar.Recovery.{concrete_tarheader}
use rapidtar.Tar.Serialize.{HeaderGenResult}

-- What the reads of an open file yield, one after the other; behind them, a read yields no bytes.
abbrev pub Reads : Type 0
Reads = List (IoResult Bytes)

-- The loop that fills the cache of `cache_len` bytes, which holds `cached`. A read is handed the rest of
-- the cache, and takes no more of it.
unfoldable pub fill_cache : ℕ → Bytes → Reads → Bytes
fill_cache cache_len cached [] = cached
fill_cache cache_len cached (ok chunk ∷ reads) =
    let got = take (cache_len - length cached) chunk in
    let filled = cached ++ got in
    let more = fill_cache cache_len filled reads in
    if (length got == 0) || (length filled == cache_len) then filled else more
fill_cache cache_len cached (err interrupted ∷ reads) = fill_cache cache_len cached reads
fill_cache cache_len cached (err write_zero ∷ reads) = cached
fill_cache cache_len cached (err invalid_data ∷ reads) = cached
fill_cache cache_len cached (err invalid_input ∷ reads) = cached
fill_cache cache_len cached (err other ∷ reads) = cached

-- `opened` is what `File::open` yields: the reads of the file.
unfoldable pub cache_file : TarHeader → IoResult Reads → Option Bytes
cache_file header (ok reads) = some (fill_cache (min header.file_size 65536) [] reads)
cache_file header (err e) = none

unfoldable pub readahead : TarHeader → IoResult Reads → Option Bytes
readahead header opened = if is_file_stream header.file_type then cache_file header opened else none

-- A header and what was read; a path that cannot be made canonical panics.
pub data Generated : Type 0 where
  generated : IoResult HeaderGenResult → Generated
  panicked : Generated

unfoldable pub with_header :
    PathBuf → TarHeader → IoResult Bytes → IoResult PathBuf → IoResult Reads → Generated
with_header archival_path header (err e) canonical opened = generated (err e)
with_header archival_path header (ok concrete) (err e) opened = panicked
with_header archival_path header (ok concrete) (ok canonical_path) opened = generated (
    ok (record {
      tar_header = header;
      encoded_header = concrete;
      original_path = archival_path;
      canonical_path = canonical_path;
      file_prefix = readahead header opened;
    }))

-- `canonical` is what `fs::canonicalize` yields of the path to read. None: an attribute of a PAX header
-- takes more rounds than the fuel.
unfoldable pub headergen :
    Formatting
    → ℕ
    → PathBuf
    → TarHeader
    → TarFormat
    → IoResult PathBuf
    → IoResult Reads
    → Option Generated
headergen f fuel archival_path header format canonical opened =
    elim (concrete_tarheader f fuel format header) [
      | none ↦ none
      | some concrete ↦ some (with_header archival_path header concrete canonical opened)
    ]
