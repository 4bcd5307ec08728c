-- ===== src/Tests/Traverse.antt =====
-- Runs of the definitions for the traversal, over two directories and a file in each and beside them.
use mathlib.Core.List.{Permᴰ}
use mathlib.Core.List.Permᴰ
use rapidtar.Prelude.{true, false, none, some, List, [], ◌∷◌, ◌==◌, if◌then◌else◌}
use rapidtar.Io.{Bytes, IoResult, ok}
use rapidtar.Tar.Path.{PathBuf, root_dir, normal}
use rapidtar.Fs.{FileMetadata}
use rapidtar.Traverse.{FileTree, DirEntry, Result, traversal_cancelled, Task, Call}
use rapidtar.Traverse.Tree.{Contents, empty_directory, file, directory, join, entries, call_of}
use rapidtar.Tests.Fs.{regular}

abbrev folder : FileMetadata
folder = record {
  is_block_device = false;
  is_char_device = false;
  is_fifo = false;
  is_socket = false;
  is_dir = true;
  is_file = false;
  is_symlink = false;
  readonly = false;
  mode = 493;
  uid = 1000;
  gid = 100;
}

abbrev a : Bytes
a = b'a' ∷ []

abbrev b : Bytes
b = b'b' ∷ []

abbrev c : Bytes
c = b'c' ∷ []

abbrev in_root : Bytes → PathBuf
in_root name = root_dir ∷ normal name ∷ []

abbrev below : Bytes → PathBuf
below name = root_dir ∷ normal name ∷ normal b ∷ []

-- Directories a and c, and a file b in each and beside them. They are walked from the relative path
-- that is empty.
abbrev contents : Contents
contents = directory a (in_root a) folder (file b (below a) regular empty_directory) (
    directory c (in_root c) folder (file b (below c) regular empty_directory)
      (file b (in_root b) regular empty_directory))

abbrev metadata_of : PathBuf → IoResult FileMetadata
metadata_of [] = ok folder
metadata_of (root_dir ∷ normal (name ∷ []) ∷ []) = if name == b'b' then ok regular else ok folder
metadata_of _ = ok regular

abbrev listing : PathBuf → IoResult (List (IoResult DirEntry))
listing [] = ok (entries [] contents)
listing path = ok (entries path (file b (join path b) regular empty_directory))

abbrev absolute : PathBuf → IoResult PathBuf
absolute (root_dir ∷ path) = ok (root_dir ∷ path)
absolute path = ok (root_dir ∷ path)

abbrev tree : FileTree
tree = record { symlink_metadata = metadata_of; read_dir = listing; canonicalize = absolute }

-- The call for c returns an error.
abbrev header_fn : PathBuf → PathBuf → FileMetadata → Result
header_fn (root_dir ∷ normal (name ∷ []) ∷ []) _ _ =
    if name == b'c' then some traversal_cancelled else none
header_fn _ _ _ = none

abbrev task : PathBuf → PathBuf → Task
task path relative = record { path = path; relative_path = relative }

abbrev of_a : Task
of_a = task (in_root a) (normal a ∷ [])

abbrev of_ab : Task
of_ab = task (below a) (normal a ∷ normal b ∷ [])

abbrev of_b : Task
of_b = task (in_root b) (normal b ∷ [])

abbrev of_c : Task
of_c = task (in_root c) (normal c ∷ [])

abbrev call : Task → FileMetadata → Call
call t m = call_of t.path t.relative_path m
