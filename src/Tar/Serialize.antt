-- ===== src/Tar/Serialize.antt =====
-- librapidarchive/src/tar/mod.rs: `serialize`, which writes a header and the contents of its file.
-- `HeaderGenResult` is of librapidarchive/src/tar/header.rs.
pub mod Blocks
use rapidtar.Prelude.{
  ℕ, ◌+◌, ◌-◌, ◌%◌, Bool, true, false, Option, none, some, List, [], ◌∷◌, ◌++◌, ◌==◌, leb,
  if◌then◌else◌, length, drop, replicate, add64,
}
use rapidtar.Io.{Bytes, IoResult, ok, err, invalid_data, RecoverableWrite}
use rapidtar.Tar.FileType.{is_file_stream}
use rapidtar.Tar.Path.{PathBuf}
use rapidtar.Tar.Header.{TarHeader}

pub record HeaderGenResult : Type 0 where
  pub tar_header : TarHeader
  pub encoded_header : Bytes
  pub original_path : PathBuf
  pub canonical_path : PathBuf
  pub file_prefix : Option Bytes

-- A call on the writer: its result, and the writer after it.
abbrev pub Effect : Type 0 → Type 0 → Type 0
Effect W A = W → IoResult A × W

module _ {W : Type 0} where
  -- The `?` operator: the result of the first call, if it is Ok, goes to the second.
  abbrev pub continue : {A B : Type 0} → IoResult A × W → (A → Effect W B) → IoResult B × W
  continue (ok a, w) next = next a w
  continue (err e, w) next = (err e, w)

module _ {W P : Type 0} (o : RecoverableWrite W P) where
  -- `tarball_size += bytes.len(); tarball.write_all(&bytes)?`
  unfoldable pub write_counted : ℕ → Bytes → Effect W ℕ
  write_counted size bytes w =
      continue (o.write_all bytes w) (λ _ w'. (ok (add64 size (length bytes)), w'))

  -- The cached start of the file, if there is one: the size after it.
  unfoldable pub write_prefix : ℕ → Option Bytes → Effect W ℕ
  write_prefix size none w = (ok size, w)
  write_prefix size (some readahead) w = write_counted size readahead w

  abbrev pub prefix_bytes : Option Bytes → Bytes
  prefix_bytes none = []
  prefix_bytes (some readahead) = readahead

  -- `stream_needed`
  unfoldable pub stream_needed : Option Bytes → ℕ → Bool
  stream_needed none file_size = true
  stream_needed (some readahead) file_size =
      if leb file_size (length readahead) then false else true

  -- The rest of the file, which `File::open` finds to hold `source`, from `stream_start` on.
  -- `io::copy` writes all that it reads, and returns how much that was.
  unfoldable pub copy_rest : ℕ → IoResult Bytes → ℕ → Effect W ℕ
  unfolding write_counted
  copy_rest size (err e) stream_start w = (err e, w)
  copy_rest size (ok source) stream_start w = write_counted size (drop stream_start source) w

  unfoldable pub check_size : ℕ → ℕ → Effect W ℕ
  check_size expected_size size w =
      if size == expected_size then (ok size, w) else (err invalid_data, w)

  -- The contents of a regular file, with the check of the size.
  unfoldable pub write_file : ℕ → HeaderGenResult → IoResult Bytes → Effect W ℕ
  write_file size traversal source w =
      continue (write_prefix size traversal.file_prefix w) (λ size' w'.
        continue
          (if stream_needed traversal.file_prefix traversal.tar_header.file_size
            then copy_rest size' source (length (prefix_bytes traversal.file_prefix)) w'
            else (ok size', w'))
          (λ size'' w''.
            check_size (add64 (length traversal.encoded_header) traversal.tar_header.file_size)
              size'' w''))

  -- The padding to whole blocks, and the size that is returned.
  unfoldable pub pad_blocks : ℕ → Effect W ℕ
  pad_blocks size w =
      let padding_needed = size % 512 in
      if padding_needed == 0
      then (ok size, w)
      else continue (o.write_all (replicate (512 - padding_needed) 0) w)
          (λ _ w'. (ok (add64 size padding_needed), w'))

  unfoldable pub serialize : HeaderGenResult → IoResult Bytes → Effect W ℕ
  serialize traversal source w = continue (write_counted 0 traversal.encoded_header w) (λ size w'.
      continue
        (if is_file_stream traversal.tar_header.file_type
          then write_file size traversal source w'
          else (ok size, w'))
        (λ size' w''. pad_blocks size' w''))
