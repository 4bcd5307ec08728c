-- ===== src/Tar/Pax/Attribute.antt =====
-- librapidarchive/src/tar/pax.rs: `format_pax_attribute` finds the length that counts itself.
use rapidtar.Prelude.{
  ℕ, zero, suc, ◌+◌, ◌^◌, ◌≤◌, ◌<◌, ◌≡◌, refl, sym, ap, false, some, [], ◌∷◌, ◌++◌, arith, ltb,
  length, length-append, Bool-cases, inl, inr, ltb_false→le,
}
use native.Mathlib.Nat.{pow-suc, pow-zero, pow-le-pow_right}
use rapidtar.Io.{Bytes}
use rapidtar.Tar.Digits.{digits, digits_lem, length-digits_ge}
use rapidtar.Tar.Numeral.{Formatting, HasLog10}
use rapidtar.Tar.Pax.{attribute_tail, find_number_length, format_pax_attribute}

-- 10 ^ k leaves room for a number of k digits and k + 1 more.
room : (k : ℕ) → 10 ^ k + suc k ≤ 10 ^ suc k
room zero = omega (arith, pow-zero 10, pow-suc 10 0)
room (suc k) = omega (arith, room k, pow-suc 10 k, pow-suc 10 (suc k))

-- Between two powers.
exponent_lt : (a b n : ℕ) → 10 ^ a ≤ n → n < 10 ^ b → a < b
exponent_lt a b n h k = elim (Bool-cases (ltb a b)) [
  | inl less ↦ ground arith
  | inr more ↦
      absurd (
        omega (arith, h, k, pow-le-pow_right {n = 10} (omega arith) {i = b} {j = a} (ground arith)))
]

ltb_refl : (a b : ℕ) → a ≡ b → ltb a b ≡ false
ltb_refl a b h = ground arith

length-tail :
    (key val : Bytes) → length (attribute_tail key val) ≡ 1 + length key + 1 + length val + 1
unfolding attribute_tail
length-tail key val =
    omega (arith, length-append key (b'=' ∷ (val ++ 10 ∷ [])), length-append val (10 ∷ []))

module _ (f : Formatting) (bound : ℕ) (log10 : HasLog10 f bound) where
  -- The number of digits of n.
  digit_count : (n : ℕ) → 0 < n → n < bound → length (digits 10 n) ≡ f.floor_log10 n + 1
  digit_count n pos small =
      let low =
        length-digits_ge 10 (omega arith) n (f.floor_log10 n) (log10.log10_le n pos small) in
      let (spells, all, high) =
        digits_lem 10 (omega arith) n (f.floor_log10 n + 1) (log10.log10_gt n pos small)
          (omega arith) in
      omega (arith, low, high)

  -- The logarithm grows with the number.
  log10_mono : (m n : ℕ) → 0 < m → m ≤ n → n < bound → f.floor_log10 m ≤ f.floor_log10 n
  log10_mono m n pos h small =
      let low = log10.log10_le m pos (omega arith) in
      let high = log10.log10_gt n (omega arith) small in
      omega
        (arith, exponent_lt (f.floor_log10 m) (f.floor_log10 n + 1) m low (omega (arith, high, h)))

  -- One digit more in the length adds at most one digit to the whole.
  one_more :
      (m : ℕ)
      → 0 < m
      → m + f.floor_log10 m + 2 < bound
      → f.floor_log10 (f.floor_log10 m + 2 + m) ≤ f.floor_log10 m + 1
  one_more m pos small =
      let d = f.floor_log10 m in
      let whole = d + 2 + m in
      let low = log10.log10_le whole (omega arith) (omega arith) in
      let space = room (d + 1) in
      let next : suc (d + 1) ≡ d + 2 = omega arith in
      let high : whole < 10 ^ (d + 2) =
        omega (arith, log10.log10_gt m pos (omega arith), rw next at space) in
      omega (arith, exponent_lt (f.floor_log10 whole) (d + 2) whole low high)

  -- The loop ends in two rounds, with the number of digits of the whole.
  find_number_length_lem :
      (m : ℕ)
      → 0 < m
      → m + f.floor_log10 m + 2 < bound
      → (n : ℕ) × (find_number_length f 2 m (f.floor_log10 m + 1) ≡ some n)
        × (n ≤ f.floor_log10 m + 2)
        × (f.floor_log10 (m + n) + 1 ≡ n)
  unfolding find_number_length
  find_number_length_lem m pos small =
      let d = f.floor_log10 m in
      let comm : (k : ℕ) → f.floor_log10 (m + k) ≡ f.floor_log10 (k + m) =
        λ k. ap f.floor_log10 (omega arith) in
      elim (Bool-cases (ltb (d + 1) (f.floor_log10 ((d + 1) + m) + 1))) [
        | inl more ↦
            let below = one_more m pos small in
            let above =
              log10_mono (d + 1 + m) (d + 2 + m) (omega arith) (omega arith) (omega arith) in
            let first : d + 1 < f.floor_log10 (d + 1 + m) + 1 = ground arith in
            let same : f.floor_log10 (d + 2 + m) ≡ d + 1 = omega (arith, below, above, first) in
            let next : d + 1 + 1 ≡ d + 2 = omega arith in
            let stop : ltb (d + 2) (f.floor_log10 (d + 2 + m) + 1) ≡ false =
              ltb_refl (d + 2) (f.floor_log10 (d + 2 + m) + 1) (omega (arith, same)) in
            (d + 2, rw (more, next, stop) refl, omega arith, omega (arith, comm (d + 2), same))
        | inr done ↦
            let above = log10_mono m (d + 1 + m) pos (omega arith) (omega arith) in
            let last = ltb_false→le (d + 1) (f.floor_log10 (d + 1 + m) + 1) done in
            (d + 1, rw done refl, omega arith, omega (arith, comm (d + 1), above, last))
      ]

  -- Let the decimal logarithm be right for positive numbers below a bound, and the key and the value
  -- short enough for it. Two rounds of the loop are then enough, and the attribute that
  -- `format_pax_attribute` returns is its own length in decimal, a space, the key, an equals sign,
  -- the value and a newline.
  pub format_pax_attribute_lem :
      (key val : Bytes)
      → let m = 1 + length key + 1 + length val + 1 in
        m + f.floor_log10 m + 2 < bound
        → (attribute : Bytes) × (format_pax_attribute f 2 key val ≡ some attribute)
          × (attribute ≡ digits 10 (length attribute) ++ b' ' ∷ (key ++ b'=' ∷ (val ++ 10 ∷ [])))
  unfolding format_pax_attribute attribute_tail
  format_pax_attribute_lem key val small =
      let m = 1 + length key + 1 + length val + 1 in
      let (n, found, fits, count) = find_number_length_lem m (omega arith) small in
      let tail = attribute_tail key val in
      let attribute = digits 10 (m + n) ++ tail in
      let size : length attribute ≡ m + n = omega (
        arith,
        length-append (digits 10 (m + n)) tail,
        length-tail key val,
        count,
        digit_count (m + n) (omega arith) (omega (arith, fits)),
      ) in
      (attribute, rw (found, format_pax_attribute) refl, ap (λ k. digits 10 k ++ tail) (sym size))
