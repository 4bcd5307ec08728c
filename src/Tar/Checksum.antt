-- ===== src/Tar/Checksum.antt =====
-- `checksum_header` of librapidarchive/src/tar/ustar.rs and of librapidarchive/src/tar/pax.rs.
pub mod Sum
pub mod Field
pub mod Blocks
use rapidtar.Prelude.{
  ℕ, ◌+◌, ◌-◌, ◌%◌, ◌^◌, Option, none, some, List, [], ◌∷◌, ◌++◌, ltb, leb, if◌then◌else◌, length,
  take, drop, replicate, add64,
}
use rapidtar.Io.{Bytes}
use rapidtar.Tar.Numeral.{Formatting, format_tar_numeral}

-- `header[at..at + v.len()].clone_from_slice(v)`, inside the header
unfoldable pub splice : ℕ → Bytes → Bytes → Bytes
splice at v header = take at header ++ (v ++ drop (at + length v) header)

-- The loop that adds the bytes up in `u64`.
unfoldable pub sum_bytes : ℕ → Bytes → ℕ
sum_bytes checksum [] = checksum
sum_bytes checksum (c ∷ cs) = sum_bytes (add64 checksum c) cs

-- `header[148..156].clone_from_slice("        ".as_bytes())`
unfoldable pub blank_checksum : Bytes → Bytes
unfolding splice
blank_checksum header = splice 148 (replicate 8 32) header

module _ (f : Formatting) where
  -- `checksum & 0o777777` is the remainder by 2^18.
  unfoldable pub checksum_header : Bytes → Bytes
  unfolding blank_checksum splice
  checksum_header header =
      if ltb (length header) 157
      then header
      else let blank = blank_checksum header in
        elim (format_tar_numeral f (sum_bytes 0 blank % 2 ^ 18) 7) [
          | some checksum_val ↦ splice 148 checksum_val blank
          | none ↦ blank
        ]

  -- `pax::checksum_header`: the first 512 bytes, and the last if there are two blocks or more.
  unfoldable pub pax_checksum_header : Bytes → Bytes
  pax_checksum_header header =
      if ltb (length header) 512
      then header
      else let first = checksum_header (take 512 header) ++ drop 512 header in
        if leb 1024 (length first)
        then take (length first - 512) first ++ checksum_header (drop (length first - 512) first)
        else first
