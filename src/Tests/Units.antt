-- ===== src/Tests/Units.antt =====
-- Runs of the definitions for units, from the repository's own tests.
use rapidtar.Prelude.{◌+◌, ◌*◌, ◌≡◌, refl, [], ◌∷◌, arith}
use rapidtar.Tar.Digits.{digits, digits_from}
use rapidtar.Units.{split_duration, write_part, fmt}
use rapidtar.Units.ReadBack.{duration_of, duration_of-fmt}

-- `time_hours`: 12h30m14s
prints_half_past : fmt 45014 0 ≡ b'1' ∷ b'2' ∷ b'h' ∷ b'3' ∷ b'0' ∷ b'm' ∷ b'1' ∷ b'4' ∷ b's' ∷ []
unfolding fmt split_duration write_part digits digits_from
prints_half_past = refl

duration_of-fmt_example : duration_of (fmt 45014 123) ≡ 45014 * 1000000000 + 123
duration_of-fmt_example = duration_of-fmt 45014 123 (omega arith)
