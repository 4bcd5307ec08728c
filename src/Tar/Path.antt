-- ===== src/Tar/Path.antt =====
-- Paths: `normalize` of librapidarchive/src/normalize.rs and `canonicalized_tar_path` of
-- librapidarchive/src/tar/mod.rs.
pub mod Normalized
pub mod Split
use rapidtar.Prelude.{ℕ, ◌+◌, Bool, true, false, List, [], ◌∷◌, ◌++◌, leb, if◌then◌else◌, ◌&&◌}
use rapidtar.Io.{Bytes}
use rapidtar.Tar.LegacyName.{slash}
use rapidtar.Tar.FileType.{TarFileType, is_directory}

-- `path::Prefix`
pub data Prefix : Type 0 where
  verbatim device_ns : Bytes → Prefix
  verbatim_unc unc : Bytes → Bytes → Prefix
  verbatim_disk disk : ℕ → Prefix

-- `path::Component`. A name is the text that `to_string_lossy` makes of it, in UTF-8.
pub data Component : Type 0 where
  prefix : Prefix → Component
  root_dir cur_dir parent_dir : Component
  normal : Bytes → Component

-- A path is what its `components()` yields.
abbrev pub PathBuf : Type 0
PathBuf = List Component

-- `PathBuf::push` of a root: it keeps the prefix of the path and drops all else.
unfoldable pub push_root : PathBuf → PathBuf
push_root (prefix p ∷ _) = prefix p ∷ root_dir ∷ []
push_root _ = root_dir ∷ []

-- `PathBuf::push` of one component. A prefix replaces the path, and a `.` behind other components is
-- none.
unfoldable pub push : Component → PathBuf → PathBuf
unfolding push_root
push (prefix p) path = prefix p ∷ []
push root_dir path = push_root path
push cur_dir [] = cur_dir ∷ []
push cur_dir (c ∷ cs) = c ∷ cs
push parent_dir path = path ++ parent_dir ∷ []
push (normal name) path = path ++ normal name ∷ []

-- Whether the component is a prefix or a root, which `pop` leaves.
unfoldable pub is_anchor : Component → Bool
is_anchor (prefix _) = true
is_anchor root_dir = true
is_anchor cur_dir = false
is_anchor parent_dir = false
is_anchor (normal _) = false

-- `PathBuf::pop`
unfoldable pub pop : PathBuf → PathBuf
pop [] = []
pop (c ∷ []) = if is_anchor c then c ∷ [] else []
pop (c ∷ d ∷ cs) = c ∷ pop (d ∷ cs)

-- A round of the loop of `normalize`.
unfoldable pub normalize_step : Component → PathBuf → PathBuf
normalize_step cur_dir outpath = outpath
normalize_step parent_dir outpath = pop outpath
normalize_step root_dir outpath = push root_dir outpath
normalize_step (prefix p) outpath = push (prefix p) outpath
normalize_step (normal name) outpath = push (normal name) outpath

unfoldable pub normalize_from : PathBuf → PathBuf → PathBuf
normalize_from outpath [] = outpath
normalize_from outpath (c ∷ cs) = normalize_from (normalize_step c outpath) cs

unfoldable pub normalize : PathBuf → PathBuf
normalize inpath = normalize_from [] inpath

unfoldable pub to_ascii_lowercase : ℕ → ℕ
to_ascii_lowercase c = if leb 65 c && leb c 90 then c + 32 else c

unfoldable pub prefix_text : Prefix → Bytes
prefix_text (verbatim rootpath) = rootpath
prefix_text (verbatim_unc server share) = server ++ slash ∷ share
prefix_text (verbatim_disk letter) = to_ascii_lowercase letter ∷ []
prefix_text (device_ns devicename) = devicename
prefix_text (unc server share) = server ++ slash ∷ share
prefix_text (disk letter) = to_ascii_lowercase letter ∷ []

unfoldable pub component_text : Component → Bytes
component_text (prefix p) = prefix_text p
component_text (normal name) = name
component_text cur_dir = b'.' ∷ []
component_text parent_dir = b'.' ∷ b'.' ∷ []
component_text root_dir = []

-- `if let path::Component::RootDir = component`
unfoldable pub is_root : Component → Bool
is_root root_dir = true
is_root (prefix _) = false
is_root cur_dir = false
is_root parent_dir = false
is_root (normal _) = false

-- The loop over the components.
unfoldable pub canonical_from : Bool → PathBuf → Bytes
canonical_from first [] = []
canonical_from first (c ∷ cs) =
    let skipped = canonical_from first cs in
    let rest = component_text c ++ canonical_from false cs in
    if is_root c then skipped else if first then rest else slash ∷ rest

unfoldable pub canonicalized_tar_path : PathBuf → TarFileType → Bytes
canonicalized_tar_path dirpath filetype =
    if is_directory filetype
    then canonical_from true dirpath ++ slash ∷ []
    else canonical_from true dirpath
