-- ===== src/Tar/Path/Split.antt =====
-- librapidarchive/src/tar/mod.rs: a canonical path is the texts of the components, joined by
-- slashes.
use rapidtar.Prelude.{
  ℕ, true, false, List, [], ◌∷◌, ◌++◌, ◌≡◌, ◌≢◌, refl, sym, ap, ◌∙◌, ◌==◌, if◌then◌else◌, All,
  append_assoc, append-nil, length, ◌<◌, arith, Bool-cases, inl, inr,
}
use rapidtar.Io.{Bytes}
use rapidtar.Tar.LegacyName.{slash}
use rapidtar.Tar.FileType.{TarFileType, is_directory}
use rapidtar.Tar.Path.{PathBuf, component_text, is_root, canonical_from, canonicalized_tar_path}

-- The byte goes to the front of the first word.
abbrev pub extend_first : ℕ → List Bytes → List Bytes
extend_first c [] = (c ∷ []) ∷ []
extend_first c (w ∷ ws) = (c ∷ w) ∷ ws

-- The words between the slashes of a text, as a reader of the archive takes them.
unfoldable pub words : Bytes → List Bytes
words [] = [] ∷ []
words (c ∷ cs) = let rest = words cs in if c == slash then [] ∷ rest else extend_first c rest

abbrev pub NoSlash : Bytes → Type 0
NoSlash w = All (λ c. c ≢ slash) w

-- The texts of the components, without those of roots.
unfoldable pub names : PathBuf → List Bytes
names [] = []
names (c ∷ cs) = let rest = names cs in if is_root c then rest else component_text c ∷ rest

words-append : (w rest : Bytes) → NoSlash w → words (w ++ slash ∷ rest) ≡ w ∷ words rest
unfolding words
words-append [] rest h = refl
words-append (c ∷ w) rest (hc, h) = ground (arith, words-append w rest h)

words_one : (w : Bytes) → NoSlash w → words w ≡ w ∷ []
unfolding words
words_one [] h = refl
words_one (c ∷ w) (hc, h) = ground (arith, words_one w h)

-- Behind a word, the text `tail` ends it and goes on with the words `ws`.
abbrev Closes : Bytes → List Bytes → Type 0
Closes tail ws = (w : Bytes) → NoSlash w → words (w ++ tail) ≡ w ∷ ws

canonical_from-Closes :
    (path : PathBuf) (tail : Bytes) (ws : List Bytes)
    → Closes tail ws
    → All NoSlash (names path)
    → Closes (canonical_from false path ++ tail) (names path ++ ws)
unfolding canonical_from names
canonical_from-Closes [] tail ws v h w hw = v w hw
canonical_from-Closes (c ∷ cs) tail ws v h w hw = elim (Bool-cases (is_root c)) [
  | inl root ↦ rw root (canonical_from-Closes cs tail ws v (rw root at h) w hw)
  | inr named ↦
      let (hc, hs) = rw named at h in
      let text = component_text c in
      rw named (
        words-append w ((text ++ canonical_from false cs) ++ tail) hw
        ∙ ap (λ t. w ∷ words t) (append_assoc text (canonical_from false cs) tail)
        ∙ ap (λ t. w ∷ t) (canonical_from-Closes cs tail ws v hs text hc))
]

words-canonical_from :
    (path : PathBuf) (tail : Bytes) (ws : List Bytes)
    → Closes tail ws
    → All NoSlash (names path)
    → 0 < length (names path)
    → words (canonical_from true path ++ tail) ≡ names path ++ ws
unfolding canonical_from names
words-canonical_from [] tail ws v h some_name = absurd (omega arith)
words-canonical_from (c ∷ cs) tail ws v h some_name = elim (Bool-cases (is_root c)) [
  | inl root ↦ rw root (words-canonical_from cs tail ws v (rw root at h) (rw root at some_name))
  | inr named ↦
      let (hc, hs) = rw named at h in
      let text = component_text c in
      rw named (
        ap words (append_assoc text (canonical_from false cs) tail)
        ∙ canonical_from-Closes cs tail ws v hs text hc)
]

nothing-Closes : Closes [] []
nothing-Closes w h = ap words (append-nil w) ∙ words_one w h

slash-Closes : Closes (slash ∷ []) ([] ∷ [])
unfolding words
slash-Closes w h = words-append w [] h

-- Take a path with a component other than a root, no component of which has a slash in its text.
-- Cut at its slashes, the canonical path gives back the texts of these components, in order, and
-- one empty word behind them exactly for a directory.
pub words-canonicalized_tar_path :
    (path : PathBuf) (filetype : TarFileType)
    → All NoSlash (names path)
    → 0 < length (names path)
    → words (canonicalized_tar_path path filetype)
      ≡ names path ++ (if is_directory filetype then [] ∷ [] else [])
unfolding canonicalized_tar_path
words-canonicalized_tar_path path filetype h some_name = elim (Bool-cases (is_directory filetype)) [
  | inl dir ↦ rw dir (words-canonical_from path (slash ∷ []) ([] ∷ []) slash-Closes h some_name)
  | inr file ↦ rw file (
      ap words (sym (append-nil (canonical_from true path)))
      ∙ words-canonical_from path [] [] nothing-Closes h some_name)
]
