-- ===== src/Traverse/Tree.antt =====
-- librapidarchive/src/traverse.rs: the walk of a tree of files and directories.
use rapidtar.Prelude.{◌≡◌, true, false, none, some, List, [], ◌∷◌, ◌++◌}
use rapidtar.Io.{Bytes, IoResult, ok}
use rapidtar.Tar.Path.{PathBuf, normal}
use rapidtar.Fs.{FileMetadata}
use rapidtar.Traverse.{FileTree, DirEntry, Result, Task, Call, file_name, is_self_or_parent}

-- What a directory contains: its entries, each with its name, the canonical path of what it names, and
-- the metadata there; and those that name a directory, with what that contains.
pub data Contents : Type 0 where
  empty_directory : Contents
  file : Bytes → PathBuf → FileMetadata → Contents → Contents
  directory : Bytes → PathBuf → FileMetadata → Contents → Contents → Contents

abbrev pub join : PathBuf → Bytes → PathBuf
join path name = path ++ normal name ∷ []

abbrev pub entry : PathBuf → Bytes → IoResult DirEntry
entry path name = ok (record { path = join path name; file_name = name })

-- What `read_dir` yields of a directory.
abbrev pub entries : PathBuf → Contents → List (IoResult DirEntry)
entries path empty_directory = []
entries path (file name _ _ rest) = entry path name ∷ entries path rest
entries path (directory name _ _ _ rest) = entry path name ∷ entries path rest

abbrev task_of : PathBuf → PathBuf → Task
task_of path relative = record { path = path; relative_path = relative }

abbrev tasks : PathBuf → Contents → List Task
tasks relative empty_directory = []
tasks relative (file name canonical _ rest) =
    task_of canonical (join relative name) ∷ tasks relative rest
tasks relative (directory name canonical _ _ rest) =
    task_of canonical (join relative name) ∷ tasks relative rest

abbrev pub call_of : PathBuf → PathBuf → FileMetadata → Call
call_of path relative m = record { path = path; relative_path = relative; metadata = m }

-- What is below a directory, unless its own call has returned an error.
abbrev pub unless_error : Result → List Call → List Call
unless_error none below = below
unless_error (some e) below = []

module _ (fn : PathBuf → PathBuf → FileMetadata → Result) where
  -- One call for each entry, and for each entry of a directory whose own call returns Ok.
  abbrev pub calls : PathBuf → Contents → List Call
  calls relative empty_directory = []
  calls relative (file name canonical m rest) =
      call_of canonical (join relative name) m ∷ calls relative rest
  calls relative (directory name canonical m below rest) =
      call_of canonical (join relative name) m
      ∷ (unless_error (fn canonical (join relative name) m) (calls (join relative name) below)
          ++ calls relative rest)

module _ (fs : FileTree) where
  -- The path is a directory with these contents.
  pub record IsDirectory (path : PathBuf) (m : FileMetadata) (contents : Contents) : Type 0 where
    pub found : fs.symlink_metadata path ≡ ok m
    pub is_dir : m.is_dir ≡ true
    pub listed : fs.read_dir path ≡ ok (entries path contents)

  -- The name is neither `.` nor `..`, and names what is at the canonical path.
  pub record IsEntry (path : PathBuf) (name : Bytes) (canonical : PathBuf) : Type 0 where
    pub leads : fs.canonicalize (join path name) ≡ ok canonical
    pub proper : is_self_or_parent name ≡ false

  -- The file system holds the contents, at this path.
  pub data Holds : PathBuf → Contents → Type 0 where
    nothing : (path : PathBuf) → Holds path empty_directory
    a_file :
        (path : PathBuf) (name : Bytes) (canonical : PathBuf) (m : FileMetadata) (rest : Contents)
        → IsEntry path name canonical
        → fs.symlink_metadata canonical ≡ ok m
        → m.is_dir ≡ false
        → Holds path rest
        → Holds path (file name canonical m rest)
    a_directory :
        (path : PathBuf) (name : Bytes) (canonical : PathBuf) (m : FileMetadata)
        (below rest : Contents)
        → IsEntry path name canonical
        → IsDirectory canonical m below
        → Holds canonical below
        → Holds path rest
        → Holds path (directory name canonical m below rest)

module _ (fs : FileTree) (fn : PathBuf → PathBuf → FileMetadata → Result) where
  -- The tasks below a directory, unless its own call has returned an error.
  abbrev tasks_below : Result → PathBuf → Contents → List Task
  tasks_below none relative contents = tasks relative contents
  tasks_below (some e) relative contents = []
