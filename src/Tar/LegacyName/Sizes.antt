-- ===== src/Tar/LegacyName/Sizes.antt =====
-- librapidarchive/src/tar/pax.rs: the sizes of the two name fields.
use rapidtar.Prelude.{
  ℕ, ◌+◌, ◌-◌, ◌≡◌, Bool, Option, none, some, List, [], ◌∷◌, ◌++◌, arith, leb, ltb, length, take,
  drop, replicate, length-append, length-take, length-replicate, Bool-cases, inl, inr,
}
use rapidtar.Io.{Bytes}
use rapidtar.Tar.LegacyName.{
  resize, LegacyFields, truncate_prefix, split_at_slash, chop, legacy_fields,
  format_pax_legacy_filename, only_ascii, is_ascii, find_slash,
}

pub length-resize : (n : ℕ) (b : Bytes) → length (resize n b) ≡ n
unfolding resize
length-resize n b = omega (
  arith,
  length-append (take n b) (replicate (n - length b) 0),
  length-take n b,
  length-replicate {A = ℕ} (n - length b) 0,
)

-- The name field of a header has 100 bytes, and the prefix field 155.
abbrev pub AreFields : LegacyFields → Type 0
AreFields t = (length t.0 ≡ 100) × (length t.1 ≡ 155)

truncate_prefix-AreFields :
    (oldname b : Bytes) → length oldname ≡ 100 → AreFields (truncate_prefix oldname b)
unfolding truncate_prefix
truncate_prefix-AreFields oldname b h = grind (arith, length-resize)

split_at_slash-AreFields : (r : Bytes) (ascii : Bool) (i : ℕ) → AreFields (split_at_slash r ascii i)
unfolding split_at_slash
split_at_slash-AreFields r ascii i =
    let old = resize 100 (drop (length r - i + 1) r) in
    let new = take (length r - i) r in
    elim (Bool-cases (ltb 155 (length new))) [
      | inl long ↦ rw long (truncate_prefix-AreFields old new (length-resize 100 _))
      | inr short ↦ rw short (length-resize 100 _, length-resize 155 new)
    ]

chop-AreFields : (r : Bytes) (ascii : Bool) → AreFields (chop r ascii)
unfolding chop
chop-AreFields r ascii = elim (Bool-cases (ltb (length r) 155)) [
  | inl short ↦ rw short (length-replicate {A = ℕ} 100 0, length-resize 155 r)
  | inr long ↦ rw long (length-resize 100 _, length-resize 155 _)
]

search-AreFields :
    (r : Bytes) (ascii : Bool) (found : Option ℕ)
    → AreFields (elim found as (λ _. LegacyFields) [
      | some i ↦ split_at_slash r ascii i
      | none ↦ chop r ascii
    ])
search-AreFields r ascii none = chop-AreFields r ascii
search-AreFields r ascii (some i) = split_at_slash-AreFields r ascii i

-- Whatever the path, the name field has 100 bytes and the prefix field 155: the assertions of the
-- header writers on these sizes hold.
pub format_pax_legacy_filename-AreFields :
    (path : List ℕ) → AreFields (format_pax_legacy_filename path)
unfolding format_pax_legacy_filename legacy_fields
format_pax_legacy_filename-AreFields path =
    let r = only_ascii path ++ 0 ∷ [] in
    elim (Bool-cases (leb (length r) 100)) [
      | inl short ↦ rw short (length-resize 100 r, length-replicate {A = ℕ} 155 0)
      | inr long ↦ rw long (search-AreFields r (is_ascii path) (find_slash 99 r))
    ]
