-- ===== src/Prelude/Fields.antt =====
-- Lists put together from fields, and cut into fields of given widths.
use Prim.Native.Nat.{ℕ, ◌+◌}
use mathlib.Core.Path.{◌≡◌, refl, ap, ◌∙◌}
use mathlib.Core.List.{List, [], ◌∷◌, ◌++◌}
use rapidtar.Prelude.Lists.{length, take, drop, take_front, drop_front, length-append}

module _ {ℓ} {A : Type ℓ} where
  abbrev pub concat : List (List A) → List A
  concat [] = []
  concat (x ∷ xs) = x ++ concat xs

  abbrev pub widths : List (List A) → List ℕ
  widths [] = []
  widths (x ∷ xs) = length x ∷ widths xs

  -- The list cut into fields of these widths.
  abbrev pub cut : List ℕ → List A → List (List A)
  cut [] xs = []
  cut (n ∷ ns) xs = take n xs ∷ cut ns (drop n xs)

  pub cut-concat : (xs : List (List A)) → cut (widths xs) (concat xs) ≡ xs
  cut-concat [] = refl
  cut-concat (x ∷ xs) =
      rw (take_front (length x) x (concat xs) refl, drop_front (length x) x (concat xs) refl)
        (ap (λ t. x ∷ t) (cut-concat xs))

abbrev pub sum : List ℕ → ℕ
sum [] = 0
sum (n ∷ ns) = n + sum ns

module _ {ℓ} {A : Type ℓ} where
  pub length-concat : (xs : List (List A)) → length (concat xs) ≡ sum (widths xs)
  length-concat [] = refl
  length-concat (x ∷ xs) =
      length-append {ℓ} x (concat xs) ∙ ap (λ n. length x + n) (length-concat xs)
