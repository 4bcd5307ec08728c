-- ===== src/Tar/Numeral.antt =====
-- The numbers and texts of a header's fields: `format_tar_numeral` and `format_tar_string` of
-- librapidarchive/src/tar/ustar.rs, `format_gnu_numeral` of librapidarchive/src/tar/gnu.rs.
pub mod Octal
use rapidtar.Prelude.{
  ℕ, zero, suc, ◌+◌, ◌-◌, ◌*◌, ◌/◌, ◌%◌, ◌^◌, ◌≤◌, ◌<◌, ◌≡◌, Bool, true, false, Option, none, some,
  List, [], ◌∷◌, ◌++◌, ltb, if◌then◌else◌, unwrap_or, length, replicate, set,
}
use rapidtar.Io.{Bytes}
use rapidtar.Tar.Digits.{digits}

-- Code that is not in this repository. `log_ge b n k` is the test `n.to_f32()?.log(b) >= k` and
-- `floor_log10 n` is `(n as f32).log(10.0).floor() as usize`, both in `f32`; `pad s w` is `s.pad(w, '0', Alignment::Right, true)` of the crate `pad`.
pub record Formatting : Type 0 where
  pub log_ge : ℕ → ℕ → ℕ → Bool
  pub floor_log10 : ℕ → ℕ
  pub pad : Bytes → ℕ → Bytes

-- What the formats rely on: the logarithm never says that a number of more than k digits has at
-- most k, it says so of every number below half of the first that has more, and a text that fits
-- is padded on the left.
pub record IsSound (f : Formatting) : Type 0 where
  pub log_below : (b n k : ℕ) → f.log_ge b n k ≡ false → n < b ^ k
  pub log_above : (b n k : ℕ) → 2 * n < b ^ k → f.log_ge b n k ≡ false
  pub pad_short : (s : Bytes) (w : ℕ) → length s ≤ w → f.pad s w ≡ replicate (w - length s) 48 ++ s

-- The decimal logarithm is right for positive numbers below `bound`.
pub record HasLog10 (f : Formatting) (bound : ℕ) : Type 0 where
  pub log10_le : (n : ℕ) → 0 < n → n < bound → 10 ^ f.floor_log10 n ≤ n
  pub log10_gt : (n : ℕ) → 0 < n → n < bound → n < 10 ^ (f.floor_log10 n + 1)

module _ (f : Formatting) where
  unfoldable pub format_tar_numeral : ℕ → ℕ → Option Bytes
  format_tar_numeral number field_size =
      if f.log_ge 8 number (field_size - 1)
      then none
      else some (f.pad (digits 8 number) (field_size - 1) ++ 0 ∷ [])

  -- `number.checked_shr(s)` for a type of `width` bits.
  unfoldable pub checked_shr : ℕ → ℕ → ℕ → Option ℕ
  checked_shr width number s = if ltb s width then some (number / 2 ^ s) else none

  -- The loop over i in 0..(field_size - 1): `left` rounds from `i` on.
  unfoldable pub write_base256 : ℕ → ℕ → ℕ → ℕ → ℕ → Bytes → Bytes
  unfolding checked_shr
  write_base256 width number field_size zero i result = result
  write_base256 width number field_size (suc left) i result =
      let byte = unwrap_or (checked_shr width number (i * 8)) 0 % 256 in
      write_base256 width number field_size left (i + 1) (set result (field_size - i - 1) byte)

  unfoldable pub format_gnu_numeral : ℕ → ℕ → ℕ → Option Bytes
  unfolding write_base256
  format_gnu_numeral width number field_size =
      if f.log_ge 256 number (field_size - 1)
      then none
      else if f.log_ge 8 number (field_size - 1)
      then some (
          write_base256 width number field_size (field_size - 1) 0
            (set (replicate field_size 0) 0 0x80))
      else some (f.pad (digits 8 number) (field_size - 1) ++ 0 ∷ [])

unfoldable pub format_tar_string : Bytes → ℕ → Option Bytes
format_tar_string the_string field_size =
    if ltb (length the_string) field_size
    then some (the_string ++ replicate (field_size - length the_string) 0)
    else none
