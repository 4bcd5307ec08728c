-- ===== src/Tar/Checksum/Field.antt =====
-- librapidarchive/src/tar/ustar.rs: the checksum that `checksum_header` writes is the one that a
-- reader of the archive computes.
use rapidtar.Prelude.{
  ℕ, zero, suc, ◌+◌, ◌%◌, ◌^◌, ◌<◌, ◌≤◌, ◌≡◌, refl, sym, ◌∙◌, ap, some, [], ◌∷◌, ◌++◌, arith,
  length, take, drop, replicate, All, All-append, take_front, drop_front, take-append-drop,
  take-append_le, length-append, length-take, length-drop, ltb, false, drop-drop, append_assoc,
}
use mathlib.Core.Path.{subst}
use rapidtar.Io.{Bytes}
use rapidtar.Tar.Digits.{value, IsDigit}
use rapidtar.Tar.Numeral.{Formatting, IsSound, format_tar_numeral}
use rapidtar.Tar.Numeral.Octal.{IsOctalField, format_tar_numeral-IsOctalField}
use rapidtar.Tar.Checksum.{splice, sum_bytes, blank_checksum, checksum_header}
use rapidtar.Tar.Checksum.Sum.{IsByte, total, total_bound, sum_bytes_lem}

-- A header in three parts: what is before the checksum field, the field, and what is behind it.
pub record InParts (header : Bytes) : Type 0 where
  pub before : Bytes
  pub field : Bytes
  pub behind : Bytes
  pub whole : before ++ (field ++ behind) ≡ header
  pub start : length before ≡ 148
  pub width : length field ≡ 8

parts : (header : Bytes) → 156 ≤ length header → InParts header
parts header h = record {
  before = take 148 header;
  field = take 8 (drop 148 header);
  behind = drop 8 (drop 148 header);
  whole =
      ap (λ t. take 148 header ++ t) (take-append-drop 8 (drop 148 header))
      ∙ take-append-drop 148 header;
  start = omega (arith, length-take 148 header);
  width = omega (arith, length-take 8 (drop 148 header), length-drop 148 header);
}

splice_front :
    (n : ℕ) (before field behind v : Bytes)
    → length before ≡ n
    → length field ≡ length v
    → splice n v (before ++ (field ++ behind)) ≡ before ++ (v ++ behind)
unfolding splice
splice_front n before field behind v h k =
    let at : n + length v ≡ n + length field = omega (arith, k) in
    let rest : drop (n + length v) (before ++ (field ++ behind)) ≡ behind =
      ap (λ m. drop m (before ++ (field ++ behind))) at
      ∙ sym (drop-drop n (length field) (before ++ (field ++ behind)))
      ∙ ap (drop (length field)) (drop_front n before (field ++ behind) h)
      ∙ drop_front (length field) field behind refl in
    rw (take_front n before (field ++ behind) h, rest)

blank_parts :
    (before field behind : Bytes)
    → length before ≡ 148
    → length field ≡ 8
    → blank_checksum (before ++ (field ++ behind)) ≡ before ++ (replicate 8 32 ++ behind)
unfolding blank_checksum
blank_parts before field behind h k = splice_front 148 before field behind (replicate 8 32) h k

-- What a reader of the archive finds in `result`: six octal digits, a NUL and a space, and the
-- digits spell the sum of all bytes, those of the field taken for spaces.
pub record IsChecked (result : Bytes) : Type 0 where
  pub spells : value 8 0 (take 6 (drop 148 result)) ≡ total (blank_checksum result)
  pub all_digits : All (IsDigit 8) (take 6 (drop 148 result))
  pub ends : take 2 (drop 154 result) ≡ 0 ∷ 32 ∷ []

IsChecked-parts :
    (before v behind : Bytes) (n : ℕ)
    → length before ≡ 148
    → IsOctalField 7 n v
    → n ≡ total (before ++ (replicate 8 32 ++ behind))
    → IsChecked (before ++ (v ++ 32 ∷ behind))
IsChecked-parts before v behind n h o e =
    let result = before ++ (v ++ 32 ∷ behind) in
    let here : drop 148 result ≡ v ++ 32 ∷ behind = drop_front 148 before (v ++ 32 ∷ behind) h in
    let digits : take 6 (v ++ 32 ∷ behind) ≡ take 6 v =
      take-append_le 6 v (32 ∷ behind) (omega (arith, o.size_lem)) in
    let blank : blank_checksum result ≡ before ++ (replicate 8 32 ++ behind) =
      ap (λ t. blank_checksum (before ++ t)) (sym (append_assoc v (32 ∷ []) behind))
      ∙ blank_parts before (v ++ 32 ∷ []) behind h
          (omega (arith, o.size_lem, length-append v (32 ∷ []))) in
    let (front, whole) = o.ends in
    let six : length front ≡ 6 =
      omega (arith, o.size_lem, ap length whole, length-append front (0 ∷ [])) in
    record {
      spells = rw (here, digits, blank) (o.spells ∙ e);
      all_digits = rw (here, digits) o.all_digits;
      ends = ap (take 2) (
          sym (drop-drop 148 6 result)
          ∙ ap (drop 6)
              (here ∙ ap (λ t. t ++ 32 ∷ behind) whole ∙ append_assoc front (0 ∷ []) (32 ∷ behind))
          ∙ drop_front 6 front (0 ∷ 32 ∷ behind) six);
    }

All-take : (n : ℕ) (b : Bytes) → All IsByte b → All IsByte (take n b)
All-take zero b h = tt
All-take (suc n) [] h = tt
All-take (suc n) (c ∷ b) (hc, h) = (hc, All-take n b h)

All-drop : (n : ℕ) (b : Bytes) → All IsByte b → All IsByte (drop n b)
All-drop zero b h = h
All-drop (suc n) [] h = tt
All-drop (suc n) (c ∷ b) (hc, h) = All-drop n b h

blank-IsByte :
    (before behind : Bytes)
    → All IsByte before
    → All IsByte behind
    → All IsByte (before ++ (replicate 8 32 ++ behind))
blank-IsByte before behind h k =
    let spaces : All IsByte (replicate 8 32) = omega arith in
    All-append IsByte before (replicate 8 32 ++ behind) h
      (All-append IsByte (replicate 8 32) behind spaces k)

-- Every number below 2^17 has a checksum field.
accepts :
    (f : Formatting)
    → IsSound f
    → (n : ℕ) → n < 2 ^ 17
    → (v : Bytes) × (format_tar_numeral f n 7 ≡ some v)
unfolding format_tar_numeral
accepts f sound n h =
    let small : f.log_ge 8 n 6 ≡ false = sound.log_above 8 n 6 (omega arith) in rw small (_, refl)

sum_small :
    (b : Bytes)
    → All IsByte b
    → length b ≤ 512
    → (sum_bytes 0 b % 2 ^ 18 ≡ total b) × (total b < 2 ^ 17)
sum_small b h k =
    let bound = total_bound b h in
    let exact = sum_bytes_lem 0 b h (omega (arith, k)) in
    (omega (arith, exact, bound, k), omega (arith, bound, k))

same_size :
    (before a b behind : Bytes)
    → length a ≡ length b
    → length (before ++ (a ++ behind)) ≡ length (before ++ (b ++ behind))
same_size before a b behind h = omega (
  arith,
  h,
  length-append before (a ++ behind),
  length-append before (b ++ behind),
  length-append a behind,
  length-append b behind,
)

module _ (f : Formatting) (sound : IsSound f) where
  -- The checksum is right, and only the field has changed.
  pub record Checksummed (header result : Bytes) : Type 0 where
    pub checked : IsChecked result
    pub same_blank : blank_checksum result ≡ blank_checksum header
    pub same_length : length result ≡ length header

  checksum_parts :
      (before field behind : Bytes)
      → length before ≡ 148
      → length field ≡ 8
      → All IsByte (before ++ (replicate 8 32 ++ behind))
      → 157 ≤ length (before ++ (field ++ behind))
      → length (before ++ (field ++ behind)) ≤ 512
      → Checksummed (before ++ (field ++ behind)) (checksum_header f (before ++ (field ++ behind)))
  unfolding checksum_header
  checksum_parts before field behind h k all low high =
      let header = before ++ (field ++ behind) in
      let long : ltb (length header) 157 ≡ false = ground arith in
      let blank = before ++ (replicate 8 32 ++ behind) in
      let blanked = blank_parts before field behind h k in
      let same : length blank ≡ length header =
        same_size before (replicate 8 32) field behind (sym k) in
      let (exact, small) = sum_small blank all (omega (arith, same, high)) in
      let (v, accepted) = accepts f sound (total blank) small in
      let o = format_tar_numeral-IsOctalField f sound (total blank) 7 (omega arith) accepted in
      let result = before ++ (v ++ 32 ∷ behind) in
      let spliced : splice 148 v (blank_checksum header) ≡ result =
        ap (splice 148 v) blanked
        ∙ splice_front 148 before (replicate 7 32) (32 ∷ behind) v h (sym o.size_lem) in
      let wide : length (v ++ 32 ∷ []) ≡ 8 = omega (arith, o.size_lem, length-append v (32 ∷ [])) in
      let apart : before ++ ((v ++ 32 ∷ []) ++ behind) ≡ result =
        ap (λ t. before ++ t) (append_assoc v (32 ∷ []) behind) in
      let done : Checksummed header result = record {
        checked = IsChecked-parts before v behind (total blank) h o refl;
        same_blank =
            ap blank_checksum (sym apart)
            ∙ blank_parts before (v ++ 32 ∷ []) behind h wide
            ∙ sym blanked;
        same_length =
            ap length (sym apart) ∙ same_size before (v ++ 32 ∷ []) field behind (wide ∙ sym k);
      } in
      rw (long, blanked, exact, accepted, spliced) done

  -- Let the logarithm and the padding be as `IsSound` says. In a header of 157 to 512 bytes,
  -- `checksum_header` changes the checksum field only, which then holds six octal digits, a NUL and
  -- a space; the digits spell the sum of all bytes of the header, those of the field taken for
  -- spaces. A second call therefore finds the same sum.
  pub checksum_header_lem :
      (header : Bytes)
      → 157 ≤ length header
      → length header ≤ 512
      → All IsByte header
      → Checksummed header (checksum_header f header)
  unfolding parts
  checksum_header_lem header low high bytes =
      let p = parts header (omega arith) in
      let whole = sym p.whole in
      let spaced =
        blank-IsByte p.before p.behind (All-take 148 header bytes)
          (All-drop 8 (drop 148 header) (All-drop 148 header bytes)) in
      subst (λ t. Checksummed t (checksum_header f t)) p.whole
        (checksum_parts p.before p.field p.behind p.start p.width spaced (rw whole at low)
          (rw whole at high))
