-- ===== src/Fs.antt =====
-- librapidarchive/src/fs: the sinks that are opened, and what is asked of a file.
pub mod Portable
pub mod Unix
pub mod Windows
pub mod Retries
pub mod Owner
use rapidtar.Prelude.{ℕ, Bool}

-- What `fs::metadata` says of a path: the tests of its type, whether it is read-only, its mode, and the
-- numbers of its user and its group.
pub record FileMetadata : Type 0 where
  pub is_block_device : Bool
  pub is_char_device : Bool
  pub is_fifo : Bool
  pub is_socket : Bool
  pub is_dir : Bool
  pub is_file : Bool
  pub is_symlink : Bool
  pub readonly : Bool
  pub mode : ℕ
  pub uid : ℕ
  pub gid : ℕ

-- How a sink is put together: a file or a tape, and the writers around it.
pub data Sink (T F : Type 0) : Type 0 where
  file_sink : F → Sink T F
  tape_sink : T → Sink T F
  concurrent : Sink T F → ℕ → Sink T F
  blocking : Sink T F → ℕ → Sink T F
  limiting : Sink T F → ℕ → Sink T F
