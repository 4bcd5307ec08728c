-- ===== src/Tar/Numeral/Octal.antt =====
-- librapidarchive/src/tar/ustar.rs, gnu.rs: a number that is written in octal is read back.
use rapidtar.Prelude.{
  ℕ, zero, suc, ◌+◌, ◌-◌, ◌^◌, ◌<◌, ◌≡◌, refl, ◌∙◌, some, [], ◌∷◌, ◌++◌, arith, length, take,
  replicate, All, All-append, Bool-cases, inl, inr, length-append, length-replicate, take_front,
}
use mathlib.Core.Path.{subst}
use rapidtar.Io.{Bytes}
use rapidtar.Tar.Digits.{digits, digits_lem, value, value_zeros, IsDigit}
use rapidtar.Tar.Numeral.{Formatting, IsSound, format_tar_numeral}

-- A field of `size` bytes: octal digits that spell n, and a NUL.
pub record IsOctalField (size n : ℕ) (field : Bytes) : Type 0 where
  pub size_lem : length field ≡ size
  pub spells : value 8 0 (take (size - 1) field) ≡ n
  pub all_digits : All (IsDigit 8) (take (size - 1) field)
  pub ends : (front : Bytes) × (field ≡ front ++ 0 ∷ [])

All-zeros : (k : ℕ) → All (IsDigit 8) (replicate k 48)
All-zeros zero = tt
All-zeros (suc k) = (omega arith, All-zeros k)

module _ (f : Formatting) (sound : IsSound f) where
  padded :
      (n k : ℕ)
      → n < 8 ^ k
      → 0 < k
      → (length (f.pad (digits 8 n) k) ≡ k)
        × (value 8 0 (f.pad (digits 8 n) k) ≡ n)
        × All (IsDigit 8) (f.pad (digits 8 n) k)
  padded n k h pos =
      let (spells, all_digits, short) = digits_lem 8 (omega arith) n k h pos in
      let zeros = k - length (digits 8 n) in
      rw (sound.pad_short (digits 8 n) k short) (
        omega (
          arith,
          short,
          length-append (replicate zeros 48) (digits 8 n),
          length-replicate {A = ℕ} zeros 48,
        ),
        value_zeros 8 zeros (digits 8 n) ∙ spells,
        All-append (IsDigit 8) (replicate zeros 48) (digits 8 n) (All-zeros zeros) all_digits,
      )

  octal_field :
      (n k : ℕ) → n < 8 ^ k → 0 < k → IsOctalField (k + 1) n (f.pad (digits 8 n) k ++ 0 ∷ [])
  octal_field n k h pos =
      let (size, spells, all_digits) = padded n k h pos in
      let field = f.pad (digits 8 n) k in
      let front : take (k + 1 - 1) (field ++ 0 ∷ []) ≡ field =
        take_front (k + 1 - 1) field (0 ∷ []) (omega (arith, size)) in
      record {
        size_lem = omega (arith, size, length-append field (0 ∷ []));
        spells = rw front spells;
        all_digits = rw front all_digits;
        ends = (field, refl);
      }

  -- Let the logarithm and the padding be as `IsSound` says. Every number that
  -- `format_tar_numeral` accepts for a field of at least two bytes becomes a field of exactly that
  -- size, octal digits and a NUL, that spells the number.
  pub format_tar_numeral-IsOctalField :
      (n size : ℕ) {v : Bytes}
      → 1 < size
      → format_tar_numeral f n size ≡ some v
      → IsOctalField size n v
  unfolding format_tar_numeral
  format_tar_numeral-IsOctalField n size {v} h e = elim (Bool-cases (f.log_ge 8 n (size - 1))) [
    | inl large ↦ absurd (ground arith)
    | inr small ↦
        let below = sound.log_below 8 n (size - 1) small in
        let field = octal_field n (size - 1) below (omega arith) in
        let whole : size - 1 + 1 ≡ size = omega arith in
        let same : f.pad (digits 8 n) (size - 1) ++ 0 ∷ [] ≡ v = ground arith in
        subst (IsOctalField size n) same (rw whole at field)
  ]
