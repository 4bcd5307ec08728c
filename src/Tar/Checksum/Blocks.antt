-- ===== src/Tar/Checksum/Blocks.antt =====
-- librapidarchive/src/tar/pax.rs: `checksum_header` puts a checksum into the first and into the last
-- block of a header.
use rapidtar.Prelude.{
  ℕ, ◌-◌, ◌≤◌, ◌≡◌, sym, ◌++◌, arith, length, take, drop, All, take_front, drop_front,
  length-append, ltb, le→leb, false, append_assoc,
}
use rapidtar.Io.{Bytes}
use rapidtar.Tar.Numeral.{Formatting, IsSound}
use rapidtar.Tar.Checksum.{checksum_header, pax_checksum_header}
use rapidtar.Tar.Checksum.Sum.{IsByte}
use rapidtar.Tar.Checksum.Field.{Checksummed, checksum_header_lem}

not_short : (n : ℕ) → 512 ≤ n → ltb n 512 ≡ false
not_short n h = ground arith

last_block :
    (a b : Bytes)
    → length b ≡ 512
    → (take (length (a ++ b) - 512) (a ++ b) ≡ a) × (drop (length (a ++ b) - 512) (a ++ b) ≡ b)
last_block a b h =
    let front : length a ≡ length (a ++ b) - 512 = omega (arith, length-append a b, h) in
    (take_front (length (a ++ b) - 512) a b front, drop_front (length (a ++ b) - 512) a b front)

module _ (f : Formatting) (sound : IsSound f) where
  -- A header of two blocks or more, between which stands `middle`: both blocks are checksummed as
  -- `checksum_header` of USTAR does it, and what stands between them stays.
  pub pax_checksum_header_lem :
      (first middle last : Bytes)
      → length first ≡ 512
      → length last ≡ 512
      → All IsByte first
      → All IsByte last
      → (first' last' : Bytes) × (pax_checksum_header f (first ++ (middle ++ last))
          ≡ first' ++ (middle ++ last'))
        × Checksummed f sound first first'
        × Checksummed f sound last last'
  unfolding pax_checksum_header
  pax_checksum_header_lem first middle last h k bytes bytes' =
      let first' = checksum_header f first in
      let last' = checksum_header f last in
      let checked = checksum_header_lem f sound first (omega (arith, h)) (omega (arith, h)) bytes in
      let checked' =
        checksum_header_lem f sound last (omega (arith, k)) (omega (arith, k)) bytes' in
      let size = length-append first (middle ++ last) in
      let size' = length-append first' (middle ++ last) in
      let sizes = length-append middle last in
      let long = not_short (length (first ++ (middle ++ last))) (omega (arith, size, h)) in
      let two =
        le→leb 1024 (length (first' ++ (middle ++ last)))
          (omega (arith, size', sizes, checked.same_length, h, k)) in
      let (front, back) = last_block (first' ++ middle) last k in
      let apart = append_assoc first' middle last in
      (
        first',
        last',
        rw
            (
              long,
              take_front 512 first (middle ++ last) h,
              drop_front 512 first (middle ++ last) h,
              two,
              sym apart,
              front,
              back,
            )
            (append_assoc first' middle last'),
        checked,
        checked',
      )
