-- ===== src/Tar/FileType.antt =====
-- librapidarchive/src/tar/header.rs: `TarFormat` and `TarFileType`.
use rapidtar.Prelude.{ℕ, Bool, true, false}

pub data TarFormat : Type 0 where
  ustar posix : TarFormat

pub data TarFileType : Type 0 where
  file_stream hard_link symbolic_link character_device block_device directory fifo_pipe :
      TarFileType
  other : ℕ → TarFileType

-- The characters are ASCII digits; the writers of headers take `Other(f)` as a byte.
unfoldable pub type_flag : TarFileType → ℕ
type_flag file_stream = b'0'
type_flag hard_link = b'1'
type_flag symbolic_link = b'2'
type_flag character_device = b'3'
type_flag block_device = b'4'
type_flag directory = b'5'
type_flag fifo_pipe = b'6'
type_flag (other f) = f

-- `if let TarFileType::FileStream = t`
unfoldable pub is_file_stream : TarFileType → Bool
is_file_stream file_stream = true
is_file_stream _ = false

-- `if let TarFileType::Directory = t`
unfoldable pub is_directory : TarFileType → Bool
is_directory directory = true
is_directory _ = false
