-- ===== src/Tar/LegacyName.antt =====
-- librapidarchive/src/tar/pax.rs: `format_pax_legacy_filename`, which fits a path into the name and
-- the prefix field of a USTAR header.
pub mod Sizes
pub mod Search
pub mod Fields
pub mod ReadBack
use rapidtar.Prelude.{
  ℕ, zero, suc, ◌+◌, ◌-◌, ◌≤◌, ◌<◌, ◌≡◌, Bool, true, false, not, ◌&&◌, ◌||◌, Option, none, some,
  List, [], ◌∷◌, ◌++◌, ◌==◌, ltb, leb, if◌then◌else◌, length, get_or, take, drop, replicate,
}
use rapidtar.Io.{Bytes}

abbrev pub slash : ℕ
slash = b'/'

-- `Vec::resize(n, 0)`
unfoldable pub resize : ℕ → Bytes → Bytes
resize n b = take n b ++ replicate (n - length b) 0

-- `is_ascii` of a text, given by its UTF-8 bytes: those of a character that is not ASCII are 128 or
-- more.
unfoldable pub is_ascii : Bytes → Bool
is_ascii [] = true
is_ascii (c ∷ cs) = ltb c 128 && is_ascii cs

-- `replace(|c| !c.is_ascii(), "")`
unfoldable pub only_ascii : Bytes → Bytes
only_ascii [] = []
only_ascii (c ∷ cs) = if ltb c 128 then c ∷ only_ascii cs else only_ascii cs

-- `for i in (1..hi + 1).rev()`: the first i with a slash i bytes before the end.
unfoldable pub find_slash : ℕ → Bytes → Option ℕ
find_slash zero b = none
find_slash (suc i) b =
    let rest = find_slash i b in
    if get_or b (length b - suc i) 0 == slash then some (suc i) else rest

-- The name field, the prefix field, and whether the path was truncated or is otherwise invalid.
abbrev pub LegacyFields : Type 0
LegacyFields = Bytes × Bytes × Bool

-- The prefix is too long, and is cut at another slash if it has one.
unfoldable pub truncate_prefix : Bytes → Bytes → LegacyFields
truncate_prefix oldname_part relapath = elim (find_slash 156 relapath) [
  | some j ↦ (oldname_part, resize 155 (drop (length relapath - j + 1) relapath), true)
  | none ↦ (oldname_part, resize 155 relapath, true)
]

-- The slash stands i bytes before the end. Behind it is the name, before it the prefix.
unfoldable pub split_at_slash : Bytes → Bool → ℕ → LegacyFields
split_at_slash relapath ascii i =
    let splitpoint = length relapath - i in
    let oldname_part = resize 100 (drop (splitpoint + 1) relapath) in
    let newname_part = take splitpoint relapath in
    if ltb 155 (length newname_part)
    then truncate_prefix oldname_part newname_part
    else (oldname_part, resize 155 newname_part, not ascii)

-- No slash in reach of the name field.
unfoldable pub chop : Bytes → Bool → LegacyFields
chop relapath ascii =
    let truncation_point = length relapath - 100 in
    let second_truncation_point = truncation_point - 155 in
    if ltb (length relapath) 155 then (replicate 100 0, resize 155 relapath, not ascii) else (
      resize 100 (drop truncation_point relapath),
      resize 155 (
          take (truncation_point - second_truncation_point)
            (drop second_truncation_point relapath)),
      true,
    )

-- The fields of the encoded path, which ends in a NUL.
unfoldable pub legacy_fields : Bytes → Bool → LegacyFields
legacy_fields relapath ascii =
    if leb (length relapath) 100
    then (resize 100 relapath, replicate 155 0, not ascii)
    else elim (find_slash 99 relapath) [
      | some i ↦ split_at_slash relapath ascii i
      | none ↦ chop relapath ascii
    ]

-- The source wraps the fields in `Ok`, always.
unfoldable pub format_pax_legacy_filename : Bytes → LegacyFields
format_pax_legacy_filename canonical_path =
    legacy_fields (only_ascii canonical_path ++ 0 ∷ []) (is_ascii canonical_path)
