-- ===== src/Tests/Tar.antt =====
-- Runs of the definitions for librapidarchive/src/tar.
use rapidtar.Prelude.{
  ℕ, ◌-◌, ◌^◌, refl, arith, List, [], ◌∷◌, ◌++◌, length, replicate, leb, leb_false→lt,
}
use rapidtar.Tar.Digits.{digits}
use rapidtar.Tar.Numeral.{Formatting, IsSound, format_tar_numeral}
use rapidtar.Tar.Numeral.Octal.{IsOctalField, format_tar_numeral-IsOctalField}

-- A logarithm and a padding without error.
abbrev pub formatting : Formatting
formatting = record {
  log_ge = λ b n k. leb (b ^ k) n;
  floor_log10 = λ n. length (digits 10 n) - 1;
  pad = λ s w. replicate (w - length s) 48 ++ s;
}

pub formatting-IsSound : IsSound formatting
formatting-IsSound = record {
  log_below = λ b n k h. leb_false→lt (b ^ k) n h;
  log_above = λ b n k h. ground arith;
  pad_short = λ s w h. refl;
}

-- `format_tar_numeral(0o755, 8)` is "0000755\0".
format_tar_numeral-IsOctalField_example :
    IsOctalField 8 493 (48 ∷ 48 ∷ 48 ∷ 48 ∷ 55 ∷ 53 ∷ 53 ∷ 0 ∷ [])
unfolding format_tar_numeral digits
format_tar_numeral-IsOctalField_example =
    format_tar_numeral-IsOctalField formatting formatting-IsSound 493 8 (omega arith) refl

abbrev long_path : List ℕ
long_path = replicate 60 97 ++ 47 ∷ replicate 70 98
