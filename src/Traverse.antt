-- ===== src/Traverse.antt =====
-- librapidarchive/src/traverse.rs: the walk of a directory tree, whose entries are tasks of a pool.
pub mod Schedule
pub mod Tree
use rapidtar.Prelude.{ℕ, Bool, false, Option, none, some, List, [], ◌∷◌, ◌==◌, ◌&&◌, if◌then◌else◌}
use rapidtar.Io.{Bytes, ErrorKind, IoResult, ok, err}
use rapidtar.Tar.Path.{Component, PathBuf, normal, push}
use rapidtar.Fs.{FileMetadata}

pub data TraversalError : Type 0 where
  traversal_cancelled : TraversalError
  io_error : ErrorKind → TraversalError

-- The result of `traverse` and of `archive_header_fn`: None is Ok.
abbrev pub Result : Type 0
Result = Option TraversalError

pub record DirEntry : Type 0 where
  pub path : PathBuf
  pub file_name : Bytes

-- What `fs` answers.
pub record FileTree : Type 0 where
  pub symlink_metadata : PathBuf → IoResult FileMetadata
  pub read_dir : PathBuf → IoResult (List (IoResult DirEntry))
  pub canonicalize : PathBuf → IoResult PathBuf

-- A call of `traverse` that is to run.
pub record Task : Type 0 where
  pub path : PathBuf
  pub relative_path : PathBuf

-- A call of `archive_header_fn`.
pub record Call : Type 0 where
  pub path : PathBuf
  pub relative_path : PathBuf
  pub metadata : FileMetadata

-- What a task does: its calls, what it returns, and the tasks that it spawns, none of them where an
-- `unwrap` panics.
pub record Visit : Type 0 where
  pub calls : List Call
  pub result : Result
  pub spawned : Option (List Task)

-- `"."` or `".."`
unfoldable pub is_self_or_parent : Bytes → Bool
is_self_or_parent (c ∷ []) = c == b'.'
is_self_or_parent (c ∷ d ∷ []) = (c == b'.') && (d == b'.')
is_self_or_parent _ = false

unfoldable pub name_of : Component → Option Bytes
name_of (normal name) = some name
name_of _ = none

-- The last component.
unfoldable pub last_name : Component → PathBuf → Option Bytes
last_name c [] = name_of c
last_name c (d ∷ cs) = last_name d cs

-- `Path::file_name`
unfoldable pub file_name : PathBuf → Option Bytes
file_name [] = none
file_name (c ∷ cs) = last_name c cs

unfoldable pub child : IoResult PathBuf → Option Bytes → PathBuf → Option Task
child (ok child_path) (some path_filename) my_relative_path =
    some
      (record { path = child_path; relative_path = push (normal path_filename) my_relative_path })
child _ _ _ = none

unfoldable pub spawn : Option Task → Option (List Task) → Option (List Task)
spawn (some t) (some ts) = some (t ∷ ts)
spawn _ _ = none

module _ (fs : FileTree) (archive_header_fn : PathBuf → PathBuf → FileMetadata → Result) where
  -- The loop over the entries of a directory.
  unfoldable pub spawn_entries : PathBuf → List (IoResult DirEntry) → Option (List Task)
  spawn_entries my_relative_path [] = some []
  spawn_entries my_relative_path (err e ∷ paths) = spawn_entries my_relative_path paths
  spawn_entries my_relative_path (ok entry ∷ paths) =
      let rest = spawn_entries my_relative_path paths in
      if is_self_or_parent entry.file_name
      then rest
      else spawn (child (fs.canonicalize entry.path) (file_name entry.path) my_relative_path) rest

  unfoldable pub spawn_directory :
      PathBuf → IoResult (List (IoResult DirEntry)) → Option (List Task)
  spawn_directory my_relative_path (ok paths) = spawn_entries my_relative_path paths
  spawn_directory my_relative_path (err e) = none

  -- What follows the call of `archive_header_fn`.
  unfoldable pub after_call : Task → FileMetadata → Result → Visit
  after_call t m (some e) = record {
    calls = record { path = t.path; relative_path = t.relative_path; metadata = m } ∷ [];
    result = some e;
    spawned = some [];
  }
  after_call t m none = record {
    calls = record { path = t.path; relative_path = t.relative_path; metadata = m } ∷ [];
    result = none;
    spawned = if m.is_dir then spawn_directory t.relative_path (fs.read_dir t.path) else some [];
  }

  unfoldable pub after_metadata : Task → IoResult FileMetadata → Visit
  after_metadata t (err e) = record { calls = []; result = some (io_error e); spawned = some [] }
  after_metadata t (ok m) = after_call t m (archive_header_fn t.path t.relative_path m)

  unfoldable pub visit : Task → Visit
  visit t = after_metadata t (fs.symlink_metadata t.path)

-- The task that a call of `traverse` is.
unfoldable pub traverse : PathBuf → Option PathBuf → Task
traverse path none = record { path = path; relative_path = path }
traverse path (some relative_path) = record { path = path; relative_path = relative_path }
