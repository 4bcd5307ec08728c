-- ===== src/Tests/Paths.antt =====
-- Runs of the definitions for paths and for resumed files.
use rapidtar.Prelude.{◌+◌, ◌-◌, ◌≡◌, refl, arith, none, some, [], ◌∷◌, ◌++◌, if◌then◌else◌, min}
use rapidtar.Io.{Bytes, ok, err, other}
use rapidtar.Spanning.Zone.{DataZone}
use rapidtar.Tar.FileType.{posix, file_stream, directory, is_directory}
use rapidtar.Tar.Path.{
  PathBuf, prefix, root_dir, cur_dir, parent_dir, normal, normalize, normalize_from, normalize_step,
  pop, push, canonicalized_tar_path, disk, is_root, is_anchor, to_ascii_lowercase, component_text,
  prefix_text,
}
use rapidtar.Tar.Path.Normalized.{normalize_resolves}
use rapidtar.Tar.Path.Split.{words, names, words-canonicalized_tar_path}
use rapidtar.Tar.Header.{
  Metadata, RecoveryEntry, TarHeader, since_epoch, with_recovery, recovery_plan,
  abstract_header_for_file, resume_header,
}
use rapidtar.Tar.Header.Resume.{recovery_plan-with_recovery}

abbrev pub a : Bytes
a = 97 ∷ []

abbrev b : Bytes
b = 98 ∷ []

-- /a/../b/./a
abbrev winding : PathBuf
winding = root_dir ∷ normal a ∷ parent_dir ∷ normal b ∷ cur_dir ∷ normal a ∷ []

normalize-winding : normalize winding ≡ root_dir ∷ normal b ∷ normal a ∷ []
unfolding normalize normalize_from normalize_step pop push is_anchor
normalize-winding = refl

normalize_resolves_example :
    (normalize ((root_dir ∷ []) ++ normal a ∷ parent_dir ∷ normal b ∷ [])
      ≡ normalize ((root_dir ∷ []) ++ normal b ∷ []))
    × (normalize ((root_dir ∷ []) ++ cur_dir ∷ normal b ∷ [])
        ≡ normalize ((root_dir ∷ []) ++ normal b ∷ []))
normalize_resolves_example = normalize_resolves (root_dir ∷ []) (normal b ∷ []) a

-- C:\a, a directory
words-canonicalized_tar_path_example :
    words (canonicalized_tar_path (prefix (disk 67) ∷ root_dir ∷ normal a ∷ []) directory)
    ≡ names (prefix (disk 67) ∷ root_dir ∷ normal a ∷ [])
      ++ (if is_directory directory then [] ∷ [] else [])
unfolding names is_root component_text prefix_text to_ascii_lowercase
words-canonicalized_tar_path_example =
    words-canonicalized_tar_path (prefix (disk 67) ∷ root_dir ∷ normal a ∷ []) directory
      (ground arith) (omega arith)

abbrev pub metadata : Metadata
metadata = record {
  len = 5000;
  modified = ok (since_epoch 7);
  accessed = err other;
  created = err other;
  unix_mode = ok 420;
  file_type = ok file_stream;
  unix_owner = ok (1000, a);
  unix_group = err other;
}

abbrev pub entry : RecoveryEntry
entry = record {
  original_path = normal a ∷ [];
  canonical_path = root_dir ∷ normal a ∷ [];
  header_length = 512;
}

abbrev pub lost : DataZone RecoveryEntry
lost = record {
  ident = some entry;
  length = 5512;
  committed_length = 2512;
  uncommitted_length = 3000;
}

abbrev pub resumed : TarHeader
resumed = record {
  path = normal a ∷ [];
  unix_mode = 420;
  unix_uid = 1000;
  unix_gid = 65534;
  file_size = 3000;
  mtime = some (since_epoch 7);
  file_type = file_stream;
  symlink_path = none;
  unix_uname = a;
  unix_gname = 110 ∷ 111 ∷ 103 ∷ 114 ∷ 111 ∷ 117 ∷ 112 ∷ [];
  unix_devmajor = 0;
  unix_devminor = 0;
  atime = none;
  birthtime = none;
  recovery_path = some (normal a ∷ []);
  recovery_remaining_size = some 5000;
  recovery_seek_offset = some 2000;
}

recovery_plan-with_recovery_example :
    (2000 + 3000 ≡ 5000)
    × (2000 ≡ min (2512 - 512) 5000)
    × (resumed.path ≡ normalize (normal a ∷ []))
    × (resumed.recovery_path ≡ some (normalize (normal a ∷ [])))
unfolding with_recovery abstract_header_for_file resume_header recovery_plan normalize
    normalize_from normalize_step push
recovery_plan-with_recovery_example =
    recovery_plan-with_recovery (normal a ∷ []) metadata lost entry posix {header = resumed}
      (omega arith) refl refl
