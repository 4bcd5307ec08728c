-- ===== src/Tape/Seek.antt =====
-- `io::SeekFrom`, and the integers it holds. `as_i32` is the cast `pos as i32`.
use rapidtar.Prelude.{ℕ, zero, suc, ◌-◌, ◌%◌, ◌<◌, ◌≡◌, ltb, if◌then◌else◌, arith}

-- The integers, over the native numbers: `negsuc n` is - (n + 1).
pub data ℤ : Type 0 where
  pos : ℕ → ℤ
  negsuc : ℕ → ℤ

-- A u64 or an i64, which are in range.
pub data SeekFrom : Type 0 where
  start : ℕ → SeekFrom
  current : ℤ → SeekFrom
  end : ℤ → SeekFrom

-- The two's complement of a word of 32 bits.
abbrev pub signed32 : ℕ → ℤ
signed32 word = if ltb word 2147483648 then pos word else negsuc (4294967295 - word)

unfoldable pub as_i32 : ℤ → ℤ
as_i32 (pos n) = signed32 (n % 4294967296)
as_i32 (negsuc n) = signed32 (4294967295 - n % 4294967296)

-- The cast keeps what fits.
pub as_i32_pos : (n : ℕ) → n < 2147483648 → as_i32 (pos n) ≡ pos n
unfolding as_i32
as_i32_pos n small = ground arith

pub as_i32_negsuc : (n : ℕ) → n < 2147483648 → as_i32 (negsuc n) ≡ negsuc n
unfolding as_i32
as_i32_negsuc n small = ground arith

-- `count * -1`
abbrev pub negate : ℤ → ℤ
negate (pos zero) = pos 0
negate (pos (suc n)) = negsuc n
negate (negsuc n) = pos (suc n)

-- `count as u64` and `count as u32`
abbrev pub as_u64 : ℤ → ℕ
as_u64 (pos n) = n
as_u64 (negsuc n) = 18446744073709551615 - n

abbrev pub as_u32 : ℤ → ℕ
as_u32 count = as_u64 count % 4294967296
