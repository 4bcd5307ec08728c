-- ===== src/Tar/Digits.antt =====
-- The digits of `format!("{:o}", n)` and `format!("{}", n)`, as bytes, and what they spell.
use rapidtar.Prelude.{
  ℕ, zero, suc, ◌+◌, ◌-◌, ◌*◌, ◌/◌, ◌%◌, ◌^◌, ◌≤◌, ◌<◌, ◌≡◌, refl, ap, ◌∙◌, [], ◌∷◌, ◌++◌, arith,
  ◌==◌, if◌then◌else◌, length, replicate, All, Bool-cases, inl, inr, ==_iff, ◌⊎◌,
}
use native.Mathlib.Nat.{pow-suc, pow-zero, div-lt_iff_lt-mul, pow-le-pow_right}
use rapidtar.Io.{Bytes}

-- Enough fuel is more than n.
unfoldable pub digits_from : ℕ → ℕ → ℕ → Bytes → Bytes
digits_from zero base n out = out
digits_from (suc fuel) base n out =
    let here = (48 + n % base) ∷ out in
    let rest = digits_from fuel base (n / base) here in if n / base == 0 then here else rest

unfoldable pub digits : ℕ → ℕ → Bytes
unfolding digits_from
digits base n = digits_from (suc n) base n []

-- The number that digits spell behind `acc`.
abbrev pub value : ℕ → ℕ → Bytes → ℕ
value base acc [] = acc
value base acc (c ∷ cs) = value base (acc * base + (c - 48)) cs

abbrev pub IsDigit : ℕ → ℕ → Type 0
IsDigit base c = (48 ≤ c) × (c < 48 + base)

module _ (base : ℕ) (big : 1 < base) where
  quotient_lt : (n : ℕ) → 0 < n → n / base < n
  quotient_lt n h = grind arith

  quotient_rem : (n : ℕ) → n / base * base + n % base ≡ n
  quotient_rem n = grind arith

  rem_lt : (n : ℕ) → n % base < base
  rem_lt n = grind arith

  pub exponent_pos : (q k : ℕ) → 0 < q → q < base ^ k → 0 < k
  exponent_pos q zero pos h = absurd (omega (arith, pow-zero base))
  exponent_pos q (suc k) pos h = omega arith

  value-digits_from :
      (fuel n : ℕ) (out : Bytes)
      → n < fuel
      → value base 0 (digits_from fuel base n out) ≡ value base n out
  unfolding digits_from
  value-digits_from zero n out h = absurd (omega arith)
  value-digits_from (suc fuel) n out h = elim (Bool-cases (n / base == 0)) [
    | inl last ↦
        let small : n / base ≡ 0 = (==_iff _ 0).0 last in
        let e : 0 * base + (48 + n % base - 48) ≡ n =
          omega (arith, quotient_rem n, ap (λ (q : ℕ). q * base) small) in
        rw last (ap (λ k. value base k out) e)
    | inr more ↦
        let positive : 0 < n / base = ground arith in
        let e : n / base * base + (48 + n % base - 48) ≡ n = omega (arith, quotient_rem n) in
        let n_pos : 0 < n = grind arith in
        rw more (
          value-digits_from fuel (n / base) ((48 + n % base) ∷ out)
            (omega (arith, quotient_lt n n_pos))
          ∙ ap (λ k. value base k out) e)
  ]

  digits_from-IsDigit :
      (fuel n : ℕ) (out : Bytes)
      → All (IsDigit base) out
      → All (IsDigit base) (digits_from fuel base n out)
  unfolding digits_from
  digits_from-IsDigit zero n out h = h
  digits_from-IsDigit (suc fuel) n out h =
      let here : All (IsDigit base) ((48 + n % base) ∷ out) =
        ((omega arith, omega (arith, rem_lt n)), h) in
      elim (Bool-cases (n / base == 0)) [
        | inl last ↦ rw last here
        | inr more ↦ rw more (digits_from-IsDigit fuel (n / base) ((48 + n % base) ∷ out) here)
      ]

  length-digits_from :
      (fuel n k : ℕ) (out : Bytes)
      → n < base ^ k
      → 0 < k
      → length (digits_from fuel base n out) ≤ k + length out
  unfolding digits_from
  length-digits_from zero n k out h pos = omega arith
  length-digits_from (suc fuel) n zero out h pos = absurd (omega arith)
  length-digits_from (suc fuel) n (suc k) out h pos =
      let below : n / base < base ^ k =
        (div-lt_iff_lt-mul {k = base} {x = n} {y = base ^ k} (omega arith)).1 (rw pow-suc at h) in
      elim (Bool-cases (n / base == 0)) [
        | inl last ↦ rw last (omega arith)
        | inr more ↦
            let positive : 0 < n / base = ground arith in
            rw more (
              omega (
                arith,
                length-digits_from fuel (n / base) k ((48 + n % base) ∷ out) below
                    (exponent_pos (n / base) k positive below),
              ))
      ]

  pow_pos : (k : ℕ) → 0 < base ^ k
  pow_pos k = omega (
    arith,
    pow-zero base,
    pow-le-pow_right {n = base} (omega arith) {i = 0} {j = k} (omega arith),
  )

  nat_cases : (k : ℕ) → (k ≡ 0) ⊎ ((j : ℕ) × (k ≡ suc j))
  nat_cases zero = inl refl
  nat_cases (suc k) = inr (k, refl)

  quotient_ge : (n k : ℕ) → base ^ suc k ≤ n → base ^ k ≤ n / base
  quotient_ge n k h =
      let d = div-lt_iff_lt-mul {k = base} {x = n} {y = base ^ k} (omega arith) in
      let e = pow-suc base k in grind (arith, d, e, h)

  one_digit : (n k : ℕ) → base ^ k ≤ n → n / base ≡ 0 → k ≡ 0
  one_digit n zero h e = refl
  one_digit n (suc k) h e = absurd (omega (arith, quotient_ge n k h, pow_pos k))

  length-digits_from_ge :
      (fuel n k : ℕ) (out : Bytes)
      → n < fuel
      → base ^ k ≤ n
      → k + 1 + length out ≤ length (digits_from fuel base n out)
  unfolding digits_from
  length-digits_from_ge zero n k out enough h = absurd (omega arith)
  length-digits_from_ge (suc fuel) n k out enough h = elim (Bool-cases (n / base == 0)) [
    | inl last ↦
        let single : k ≡ 0 = one_digit n k h ((==_iff (n / base) 0).0 last) in rw last (omega arith)
    | inr more ↦
        let positive : 0 < n / base = ground arith in
        let smaller = quotient_lt n (omega arith) in
        rw more (elim (nat_cases k) [
          | inl none_left ↦ omega (
            arith,
            length-digits_from_ge fuel (n / base) 0 ((48 + n % base) ∷ out) (omega arith)
                (omega (arith, pow-zero base)),
          )
          | inr (j, e) ↦ omega (
            arith,
            length-digits_from_ge fuel (n / base) j ((48 + n % base) ∷ out) (omega arith)
                (quotient_ge n j (rw e at h)),
          )
        ])
  ]

  -- A number from base ^ k on has more than k digits.
  pub length-digits_ge : (n k : ℕ) → base ^ k ≤ n → k + 1 ≤ length (digits base n)
  unfolding digits
  length-digits_ge n k h = omega (arith, length-digits_from_ge (suc n) n k [] (omega arith) h)

  -- The digits of n spell n, are digits, and are at most k for n below base ^ k.
  pub digits_lem :
      (n k : ℕ)
      → n < base ^ k
      → 0 < k
      → (value base 0 (digits base n) ≡ n)
        × All (IsDigit base) (digits base n)
        × (length (digits base n) ≤ k)
  unfolding digits
  digits_lem n k h pos = (
    value-digits_from (suc n) n [] (omega arith),
    digits_from-IsDigit (suc n) n [] tt,
    omega (arith, length-digits_from (suc n) n k [] h pos),
  )

-- Zeros in front change nothing.
pub value_zeros : (base k : ℕ) (cs : Bytes) → value base 0 (replicate k 48 ++ cs) ≡ value base 0 cs
value_zeros base zero cs = refl
value_zeros base (suc k) cs =
    let e : 0 * base + 0 ≡ 0 = omega arith in
    ap (λ n. value base n (replicate k 48 ++ cs)) e ∙ value_zeros base k cs
