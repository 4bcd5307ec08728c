-- ===== src/Tar/LegacyName/ReadBack.antt =====
-- librapidarchive/src/tar/pax.rs: a path whose fields are not marked as truncated is read back.
use rapidtar.Prelude.{
  ℕ, zero, suc, ◌+◌, ◌-◌, ◌≤◌, ◌<◌, ◌≡◌, ◌≢◌, ◌⊎◌, inl, inr, refl, sym, ap, ◌∙◌, true, false,
  Option, none, some, List, [], ◌∷◌, ◌++◌, ltb, leb, arith, length, take, drop, replicate, get_or,
  All, Bool-cases, length-append, append_assoc, take-append_le, drop-append_le, length-take,
  length-drop, leb_false→lt, leb→le, ltb_false→le,
}
use rapidtar.Io.{Bytes}
use rapidtar.Tar.LegacyName.{
  slash, resize, LegacyFields, is_ascii, only_ascii, find_slash, truncate_prefix, split_at_slash,
  chop, legacy_fields, format_pax_legacy_filename,
}
use rapidtar.Tar.LegacyName.Search.{find_slash-some, find_slash_within, cut_at}
use rapidtar.Tar.LegacyName.Fields.{
  NonZero, text, ustar_path, text-resize, text-resize_end, text-zeros, ustar_path-join,
  ustar_path-name,
}

only_ascii-eq : (path : List ℕ) → is_ascii path ≡ true → only_ascii path ≡ path
unfolding only_ascii is_ascii
only_ascii-eq [] h = refl
only_ascii-eq (c ∷ cs) h = ground (arith, only_ascii-eq cs)

All-take : (n : ℕ) (b : Bytes) → All NonZero b → All NonZero (take n b)
All-take zero b h = tt
All-take (suc n) [] h = tt
All-take (suc n) (c ∷ cs) (hc, h) = (hc, All-take n cs h)

All-drop : (n : ℕ) (b : Bytes) → All NonZero b → All NonZero (drop n b)
All-drop zero b h = h
All-drop (suc n) [] h = tt
All-drop (suc n) (c ∷ cs) (hc, h) = All-drop n cs h

-- An index at which the path with its NUL has a slash lies in the path.
slash_inside : (path : Bytes) (k : ℕ) → get_or (path ++ 0 ∷ []) k 0 ≡ slash → k < length path
slash_inside [] zero h = absurd (omega arith)
slash_inside [] (suc k) h = absurd (omega arith)
slash_inside (c ∷ cs) zero h = omega arith
slash_inside (c ∷ cs) (suc k) h = omega (arith, slash_inside cs k h)

nonempty_take :
    (n : ℕ) (b : Bytes) → 0 < n → n ≤ length b → (c : ℕ) × (p : Bytes) × (take n b ≡ c ∷ p)
nonempty_take zero b h le = absurd (omega arith)
nonempty_take (suc n) [] h le = absurd (omega arith)
nonempty_take (suc n) (c ∷ cs) h le = (c, take n cs, refl)

get_or_front : (k : ℕ) (b q : Bytes) → k < length b → get_or (b ++ q) k 0 ≡ get_or b k 0
get_or_front k [] q h = absurd (omega arith)
get_or_front zero (c ∷ cs) q h = refl
get_or_front (suc k) (c ∷ cs) q h = get_or_front k cs q (omega arith)

truncate_marks : (oldname b : Bytes) → (truncate_prefix oldname b).2 ≢ false
unfolding truncate_prefix
truncate_marks oldname b = ground arith

module _ (path : Bytes) (clean : All NonZero path) where
  -- The fields that a split at index k gives.
  read_split :
      (k : ℕ)
      → get_or (path ++ 0 ∷ []) k 0 ≡ slash
      → 0 < k
      → k ≤ 155
      → length path ≤ k + 99
      → ustar_path
          (resize 100 (drop (k + 1) (path ++ 0 ∷ [])))
          (resize 155 (take k (path ++ 0 ∷ [])))
        ≡ path
  read_split k at pos short near =
      let inside = slash_inside path k at in
      let front = take-append_le k path (0 ∷ []) (omega arith) in
      let back = drop-append_le (k + 1) path (0 ∷ []) (omega arith) in
      let (c, p, split) = nonempty_take k path pos (omega arith) in
      let name = drop (k + 1) path in
      let prefix_text : text (resize 155 (take k path)) ≡ c ∷ p =
        text-resize 155 (take k path) (All-take k path clean) (omega (arith, length-take k path))
        ∙ split in
      let name_text : text (resize 100 (name ++ 0 ∷ [])) ≡ name =
        text-resize_end 100 name (All-drop (k + 1) path clean)
          (omega (arith, length-drop (k + 1) path)) in
      rw (front, back)
        (ustar_path-join c p name (resize 155 (take k path)) (resize 100 (name ++ 0 ∷ []))
            prefix_text name_text
          ∙ ap (λ t. t ++ slash ∷ name) (sym split)
          ∙ (cut_at k path (sym (get_or_front k path (0 ∷ []) inside) ∙ at)).0)

  split_lem :
      (i : ℕ)
      → find_slash 99 (path ++ 0 ∷ []) ≡ some i
      → 100 < length (path ++ 0 ∷ [])
      → (split_at_slash (path ++ 0 ∷ []) true i).2 ≡ false
      → ustar_path
          (split_at_slash (path ++ 0 ∷ []) true i).0
          (split_at_slash (path ++ 0 ∷ []) true i).1
        ≡ path
  unfolding split_at_slash
  split_lem i found long kept =
      let r = path ++ 0 ∷ [] in
      let size = length-append path (0 ∷ []) in
      let (pos, le, at) = find_slash-some 99 i r found in
      elim (Bool-cases (ltb 155 (length (take (length r - i) r)))) [
        | inl cut ↦
            let marked : (truncate_prefix (resize 100 (drop (length r - i + 1) r))
                  (take (length r - i) r)).2
                ≡ false =
              rw cut at kept in
            absurd (truncate_marks _ _ marked)
        | inr fits ↦ rw fits (
            read_split (length r - i) at (omega (arith, le))
              (omega (arith, ltb_false→le _ _ fits, length-take (length r - i) r))
              (omega (arith, size, le)))
      ]

  search_lem :
      (found : Option ℕ)
      → find_slash 99 (path ++ 0 ∷ []) ≡ found
      → found ≢ none
      → 100 < length (path ++ 0 ∷ [])
      → let t = elim found as (λ _. LegacyFields) [
        | some i ↦ split_at_slash (path ++ 0 ∷ []) true i
        | none ↦ chop (path ++ 0 ∷ []) true
      ] in
        t.2 ≡ false → ustar_path t.0 t.1 ≡ path
  search_lem none e some_found long kept = absurd (some_found refl)
  search_lem (some i) e some_found long kept = split_lem i e long kept

  short_lem : length path < 100 → ustar_path (resize 100 (path ++ 0 ∷ [])) (replicate 155 0) ≡ path
  short_lem short =
      ustar_path-name path (replicate 155 0) (resize 100 (path ++ 0 ∷ [])) (text-zeros 155)
        (text-resize_end 100 path clean short)

-- The path is short, or one of its last 98 bytes is a slash.
abbrev pub FitsLegacy : List ℕ → Type 0
FitsLegacy path =
    (length path < 100)
    ⊎ ((pre : Bytes) × (post : Bytes) × (pre ++ slash ∷ post ≡ path) × (length post < 98))

found_of_fits :
    (path : Bytes) → 100 ≤ length path → FitsLegacy path → find_slash 99 (path ++ 0 ∷ []) ≢ none
found_of_fits path long (inl short) e = absurd (omega arith)
found_of_fits path long (inr (pre, post, whole, near)) e =
    let (i, found) =
      find_slash_within 99 pre (post ++ 0 ∷ []) (omega (arith, length-append post (0 ∷ []))) in
    let same : pre ++ slash ∷ (post ++ 0 ∷ []) ≡ path ++ 0 ∷ [] =
      sym (append_assoc pre (slash ∷ post) (0 ∷ [])) ∙ ap (λ t. t ++ 0 ∷ []) whole in
    let missed : find_slash 99 (pre ++ slash ∷ (post ++ 0 ∷ [])) ≡ none = rw same e in cc

split_marks : (r : Bytes) (i : ℕ) → (split_at_slash r false i).2 ≢ false
unfolding split_at_slash truncate_prefix
split_marks r i = ground arith

chop_marks : (r : Bytes) → (chop r false).2 ≢ false
unfolding chop
chop_marks r = ground arith

search_marks :
    (r : Bytes) (found : Option ℕ)
    → (elim found as (λ _. LegacyFields) [
      | some i ↦ split_at_slash r false i
      | none ↦ chop r false
    ]).2
      ≢ false
search_marks r none = chop_marks r
search_marks r (some i) = split_marks r i

fields_marks : (r : Bytes) → (legacy_fields r false).2 ≢ false
unfolding legacy_fields
fields_marks r = elim (Bool-cases (leb (length r) 100)) [
  | inl short ↦ rw short (λ h. cc)
  | inr long ↦ rw long (search_marks r (find_slash 99 r))
]

fields_lem :
    (path : List ℕ)
    → All NonZero path
    → FitsLegacy path
    → (legacy_fields (path ++ 0 ∷ []) true).2 ≡ false
    → ustar_path (legacy_fields (path ++ 0 ∷ []) true).0 (legacy_fields (path ++ 0 ∷ []) true).1
      ≡ path
unfolding legacy_fields
fields_lem path clean fits kept =
    let r = path ++ 0 ∷ [] in
    let size = length-append path (0 ∷ []) in
    elim (Bool-cases (leb (length r) 100)) [
      | inl short ↦
          rw short (short_lem path clean (omega (arith, size, leb→le (length r) 100 short)))
      | inr long ↦ rw long (
          search_lem path clean (find_slash 99 r) refl
            (found_of_fits path (omega (arith, size, leb_false→lt (length r) 100 long)) fits)
            (leb_false→lt _ _ long) (rw long at kept))
    ]

pub ustar_path-format_pax_legacy_filename :
    (path : List ℕ)
    → All NonZero path
    → FitsLegacy path
    → (format_pax_legacy_filename path).2 ≡ false
    → ustar_path (format_pax_legacy_filename path).0 (format_pax_legacy_filename path).1 ≡ path
unfolding format_pax_legacy_filename
ustar_path-format_pax_legacy_filename path clean fits kept = elim (Bool-cases (is_ascii path)) [
  | inl ascii ↦
      let same = only_ascii-eq path ascii in
      rw (same, ascii) (fields_lem path clean fits (rw (same, ascii) at kept))
  | inr other ↦ absurd (fields_marks (only_ascii path ++ 0 ∷ []) (rw other at kept))
]
