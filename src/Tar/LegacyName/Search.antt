-- ===== src/Tar/LegacyName/Search.antt =====
-- librapidarchive/src/tar/pax.rs: the searches for a slash near the end of a path.
use rapidtar.Prelude.{
  ℕ, zero, suc, ◌+◌, ◌-◌, ◌≤◌, ◌<◌, ◌≡◌, ◌≢◌, refl, sym, ap, Option, none, some, [], ◌∷◌, ◌++◌,
  ◌==◌, ==_iff, Bool-cases, Option-cases, inl, inr, arith, length, get_or, take, drop,
  length-append,
}
use rapidtar.Io.{Bytes}
use rapidtar.Tar.LegacyName.{slash, find_slash}

-- A found slash is within reach and stands where the search says.
pub find_slash-some :
    (hi i : ℕ) (b : Bytes)
    → find_slash hi b ≡ some i
    → (0 < i) × (i ≤ hi) × (get_or b (length b - i) 0 ≡ slash)
unfolding find_slash
find_slash-some zero i b h = cc
find_slash-some (suc hi) i b h = elim (Bool-cases (get_or b (length b - suc hi) 0 == slash)) [
  | inl here ↦
      let e : suc hi ≡ i = ground arith in
      (omega (arith, e), omega (arith, e), rw (← e) ((==_iff _ _).0 here))
  | inr later ↦
      let (pos, le, at) = find_slash-some hi i b (rw later at h) in (pos, omega (arith, le), at)
]

-- A search that fails has seen no slash.
pub find_slash-none :
    (hi i : ℕ) (b : Bytes)
    → find_slash hi b ≡ none
    → 0 < i
    → i ≤ hi
    → get_or b (length b - i) 0 ≢ slash
unfolding find_slash
find_slash-none zero i b h pos le = absurd (omega arith)
find_slash-none (suc hi) i b h pos le =
    elim (Bool-cases (get_or b (length b - suc hi) 0 == slash)) [
      | inl here ↦ let found : ◌≡◌ {A = Option ℕ} (some (suc hi)) none = rw here at h in cc
      | inr later ↦ elim (Bool-cases (i == suc hi)) [
        | inl last ↦ let e : i ≡ suc hi = (==_iff _ _).0 last in rw e (λ at. absurd (ground arith))
        | inr other ↦ find_slash-none hi i b (rw later at h) pos (ground arith)
      ]
    ]

-- A list with a slash at an index is its front, the slash, and the rest.
pub cut_at :
    (k : ℕ) (b : Bytes)
    → get_or b k 0 ≡ slash
    → (take k b ++ slash ∷ drop (k + 1) b ≡ b) × (k < length b)
cut_at k [] h = absurd (omega arith)
cut_at zero (c ∷ cs) h = (ap (λ x. x ∷ cs) (sym h), omega arith)
cut_at (suc k) (c ∷ cs) h =
    let (e, lt) = cut_at k cs h in
    let n : suc k + 1 ≡ suc (k + 1) = omega arith in rw n (ap (λ t. c ∷ t) e, omega (arith, lt))

pub get_or-middle : (p q : Bytes) (c : ℕ) → get_or (p ++ c ∷ q) (length p) 0 ≡ c
get_or-middle [] q c = refl
get_or-middle (x ∷ p) q c = get_or-middle p q c

pub find_slash_within :
    (hi : ℕ) (p q : Bytes) → length q < hi → (i : ℕ) × (find_slash hi (p ++ slash ∷ q) ≡ some i)
find_slash_within hi p q h =
    let b = p ++ slash ∷ q in
    let size : length b - (length q + 1) ≡ length p = omega (arith, length-append p (slash ∷ q)) in
    elim (Option-cases (find_slash hi b)) [
      | inl missed ↦ absurd (
          find_slash-none hi (length q + 1) b missed (omega arith) (omega arith)
            (rw size (get_or-middle p q slash)))
      | inr found ↦ found
    ]
