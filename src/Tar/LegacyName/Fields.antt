-- ===== src/Tar/LegacyName/Fields.antt =====
-- How a reader of the USTAR format takes a path from the name and the prefix field (POSIX, pax,
-- "ustar Interchange Format"), and what it reads from the fields that `resize` fills.
use rapidtar.Prelude.{
  ℕ, zero, suc, ◌-◌, ◌≤◌, ◌<◌, ◌≡◌, ◌≢◌, refl, ap, ◌∙◌, [], ◌∷◌, ◌++◌, ◌==◌, if◌then◌else◌, arith,
  length, replicate, All, append-nil, append_assoc, take_all, length-append,
}
use rapidtar.Io.{Bytes}
use rapidtar.Tar.LegacyName.{slash, resize}

abbrev pub NonZero : ℕ → Type 0
NonZero c = c ≢ 0

-- The bytes before the first NUL.
unfoldable pub text : Bytes → Bytes
text [] = []
text (c ∷ cs) = if c == 0 then [] else c ∷ text cs

abbrev join_fields : Bytes → Bytes → Bytes
join_fields [] name = name
join_fields (c ∷ cs) name = (c ∷ cs) ++ slash ∷ name

unfoldable pub ustar_path : Bytes → Bytes → Bytes
ustar_path name prefix = join_fields (text prefix) (text name)

text-append : (p q : Bytes) → All NonZero p → text (p ++ q) ≡ p ++ text q
unfolding text
text-append [] q h = refl
text-append (c ∷ p) q (hc, h) = ground (arith, text-append p q h)

text-nul : (q : Bytes) → text (0 ∷ q) ≡ []
unfolding text
text-nul q = refl

pub text-zeros : (k : ℕ) → text (replicate k 0) ≡ []
unfolding text
text-zeros zero = refl
text-zeros (suc k) = refl

pub text-resize : (n : ℕ) (p : Bytes) → All NonZero p → length p ≤ n → text (resize n p) ≡ p
unfolding resize
text-resize n p h fits = rw (take_all n p fits) (
    text-append p (replicate (n - length p) 0) h
    ∙ ap (λ t. p ++ t) (text-zeros (n - length p))
    ∙ append-nil p)

pub text-resize_end :
    (n : ℕ) (p : Bytes) → All NonZero p → length p < n → text (resize n (p ++ 0 ∷ [])) ≡ p
unfolding resize
text-resize_end n p h fits =
    rw (take_all n (p ++ 0 ∷ []) (omega (arith, length-append p (0 ∷ [])))) (
      ap text (append_assoc p (0 ∷ []) (replicate (n - length (p ++ 0 ∷ [])) 0))
      ∙ text-append p (0 ∷ replicate (n - length (p ++ 0 ∷ [])) 0) h
      ∙ ap (λ t. p ++ t) (text-nul _)
      ∙ append-nil p)

pub ustar_path-join :
    (c : ℕ) (p q : Bytes) (prefix name : Bytes)
    → text prefix ≡ c ∷ p
    → text name ≡ q
    → ustar_path name prefix ≡ (c ∷ p) ++ slash ∷ q
unfolding ustar_path
ustar_path-join c p q prefix name e f = rw (e, f)

pub ustar_path-name :
    (q prefix name : Bytes) → text prefix ≡ [] → text name ≡ q → ustar_path name prefix ≡ q
unfolding ustar_path
ustar_path-name q prefix name e f = rw (e, f)
