-- ===== src/Tar/Path/Normalized.antt =====
-- librapidarchive/src/normalize.rs: `normalize` resolves every `.` and `..`, once for all.
use rapidtar.Prelude.{
  Bool, true, false, Option, none, some, List, [], ◌∷◌, ◌++◌, ◌≡◌, refl, sym, ap, ◌∙◌, drop_last,
  append_assoc, append-nil, map, map-append,
}
use mathlib.Core.Path.{subst}
use rapidtar.Io.{Bytes}
use rapidtar.Tar.Path.{
  PathBuf, Component, Prefix, prefix, root_dir, cur_dir, parent_dir, normal, push, push_root, pop,
  is_anchor, normalize_step, normalize_from, normalize,
}

-- A prefix or none, and then a root or none.
abbrev pub anchor : Option Prefix → Bool → PathBuf
anchor none false = []
anchor none true = root_dir ∷ []
anchor (some p) false = prefix p ∷ []
anchor (some p) true = prefix p ∷ root_dir ∷ []

-- A prefix or none, a root or none, and then names only.
pub record IsNormalized (path : PathBuf) : Type 0 where
  pub volume : Option Prefix
  pub rooted : Bool
  pub names : List Bytes
  pub whole : anchor volume rooted ++ map normal names ≡ path

pop_names : (ns : List Bytes) → pop (map normal ns) ≡ map normal (drop_last ns)
unfolding pop is_anchor
pop_names [] = refl
pop_names (n ∷ []) = refl
pop_names (n ∷ m ∷ ns) = ap (λ t. normal n ∷ t) (pop_names (m ∷ ns))

pop-anchor :
    (v : Option Prefix) (r : Bool) (ns : List Bytes)
    → pop (anchor v r ++ map normal ns) ≡ anchor v r ++ map normal (drop_last ns)
unfolding pop is_anchor
pop-anchor none false ns = pop_names ns
pop-anchor none true [] = refl
pop-anchor none true (n ∷ ns) = ap (λ t. root_dir ∷ t) (pop_names (n ∷ ns))
pop-anchor (some p) false [] = refl
pop-anchor (some p) false (n ∷ ns) = ap (λ t. prefix p ∷ t) (pop_names (n ∷ ns))
pop-anchor (some p) true [] = refl
pop-anchor (some p) true (n ∷ ns) = ap (λ t. prefix p ∷ root_dir ∷ t) (pop_names (n ∷ ns))

pop-append : (path : PathBuf) (name : Bytes) → pop (path ++ normal name ∷ []) ≡ path
unfolding pop is_anchor
pop-append [] name = refl
pop-append (c ∷ []) name = refl
pop-append (c ∷ d ∷ cs) name = ap (λ t. c ∷ t) (pop-append (d ∷ cs) name)

only_anchor : (v : Option Prefix) (r : Bool) → IsNormalized (anchor v r)
only_anchor v r = record { volume = v; rooted = r; names = []; whole = append-nil (anchor v r) }

push_root-IsNormalized : (path : PathBuf) → IsNormalized (push_root path)
unfolding push_root
push_root-IsNormalized (prefix p ∷ cs) = only_anchor (some p) true
push_root-IsNormalized [] = only_anchor none true
push_root-IsNormalized (root_dir ∷ cs) = only_anchor none true
push_root-IsNormalized (cur_dir ∷ cs) = only_anchor none true
push_root-IsNormalized (parent_dir ∷ cs) = only_anchor none true
push_root-IsNormalized (normal n ∷ cs) = only_anchor none true

step-IsNormalized :
    (c : Component) (path : PathBuf) → IsNormalized path → IsNormalized (normalize_step c path)
unfolding normalize_step push
step-IsNormalized (prefix p) path v = only_anchor (some p) false
step-IsNormalized root_dir path v = push_root-IsNormalized path
step-IsNormalized cur_dir path v = v
step-IsNormalized parent_dir path v = record {
  volume = v.volume;
  rooted = v.rooted;
  names = drop_last v.names;
  whole = sym (pop-anchor v.volume v.rooted v.names) ∙ ap pop v.whole;
}
step-IsNormalized (normal n) path v = record {
  volume = v.volume;
  rooted = v.rooted;
  names = v.names ++ n ∷ [];
  whole =
      ap (λ t. anchor v.volume v.rooted ++ t) (map-append normal v.names (n ∷ []))
      ∙ sym (append_assoc (anchor v.volume v.rooted) (map normal v.names) (normal n ∷ []))
      ∙ ap (λ t. t ++ normal n ∷ []) v.whole;
}

normalize_from-IsNormalized :
    (out cs : PathBuf) → IsNormalized out → IsNormalized (normalize_from out cs)
unfolding normalize_from
normalize_from-IsNormalized out [] v = v
normalize_from-IsNormalized out (c ∷ cs) v =
    normalize_from-IsNormalized (normalize_step c out) cs (step-IsNormalized c out v)

-- A normalized path is a prefix or none, a root or none, and then names only: no `.` and no `..`.
pub normalize-IsNormalized : (path : PathBuf) → IsNormalized (normalize path)
unfolding normalize
normalize-IsNormalized path = normalize_from-IsNormalized [] path (only_anchor none false)

normalize_from_names :
    (out : PathBuf) (ns : List Bytes) → normalize_from out (map normal ns) ≡ out ++ map normal ns
unfolding normalize_from normalize_step push
normalize_from_names out [] = sym (append-nil out)
normalize_from_names out (n ∷ ns) =
    normalize_from_names (out ++ normal n ∷ []) ns
    ∙ append_assoc out (normal n ∷ []) (map normal ns)

normalize_anchored :
    (v : Option Prefix) (r : Bool) (ns : List Bytes)
    → normalize (anchor v r ++ map normal ns) ≡ anchor v r ++ map normal ns
unfolding normalize normalize_from normalize_step push push_root
normalize_anchored none false ns = normalize_from_names [] ns
normalize_anchored none true ns = normalize_from_names (root_dir ∷ []) ns
normalize_anchored (some p) false ns = normalize_from_names (prefix p ∷ []) ns
normalize_anchored (some p) true ns = normalize_from_names (prefix p ∷ root_dir ∷ []) ns

-- Normalizing a normalized path changes nothing.
pub normalize-normalize : (path : PathBuf) → normalize (normalize path) ≡ normalize path
normalize-normalize path =
    let v = normalize-IsNormalized path in
    subst (λ p. normalize p ≡ p) v.whole (normalize_anchored v.volume v.rooted v.names)

normalize_from-append :
    (out p q : PathBuf) → normalize_from out (p ++ q) ≡ normalize_from (normalize_from out p) q
unfolding normalize_from
normalize_from-append out [] q = refl
normalize_from-append out (c ∷ p) q = normalize_from-append (normalize_step c out) p q

-- A name and a `..` behind it cancel wherever they stand, and a `.` counts for nothing.
pub normalize_resolves :
    (p q : PathBuf) (name : Bytes)
    → (normalize (p ++ normal name ∷ parent_dir ∷ q) ≡ normalize (p ++ q))
      × (normalize (p ++ cur_dir ∷ q) ≡ normalize (p ++ q))
unfolding normalize normalize_from normalize_step push
normalize_resolves p q name =
    let back = sym (normalize_from-append [] p q) in
    (
      normalize_from-append [] p (normal name ∷ parent_dir ∷ q)
          ∙ ap (λ t. normalize_from t q) (pop-append (normalize_from [] p) name)
          ∙ back,
      normalize_from-append [] p (cur_dir ∷ q) ∙ back,
    )
