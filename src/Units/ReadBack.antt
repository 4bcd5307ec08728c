-- ===== src/Units/ReadBack.antt =====
-- librapidarchive/src/units/time.rs: the text of an `HRDuration` read back.
use rapidtar.Prelude.{
  ℕ, zero, suc, ◌+◌, ◌-◌, ◌*◌, ◌^◌, ◌<◌, ◌≡◌, refl, sym, ap, ◌∙◌, true, false, Bool, [], ◌∷◌, ◌++◌,
  ltb, leb, ◌==◌, ◌&&◌, if◌then◌else◌, arith, length, All, Bool-cases, inl, inr,
}
use mathlib.Core.Path.{subst}
use native.Mathlib.Nat.{pow-suc, pow-zero}
use rapidtar.Io.{Bytes}
use rapidtar.Tar.Digits.{digits, value, IsDigit, digits_lem, length-digits_ge}
use rapidtar.Units.{split_duration, write_part, fmt, split_duration_lem}

-- What stands between a number and the end of its unit: nothing, an `m`, which is a minute unless an `s`
-- follows, or the start of a unit of so many nanoseconds.
pub data Seen : Type 0 where
  nothing an_m : Seen
  start_of : ℕ → Seen

-- A reader of durations: the nanoseconds so far, the number that is being read, and what is behind it.
pub record Reading : Type 0 where
  pub total : ℕ
  pub number : ℕ
  pub seen : Seen

abbrev pub start : ℕ → ℕ → Reading
start t n = record { total = t; number = n; seen = nothing }

-- The number is one of a unit of so many nanoseconds.
abbrev counted : ℕ → ℕ → ℕ → Reading
counted t n size = start (t + n * size) 0

abbrev minute : ℕ
minute = 60000000000

abbrev is_digit : ℕ → Bool
is_digit c = leb 48 c && ltb c 58

abbrev read_plain : ℕ → ℕ → ℕ → Reading
read_plain t n c =
    if is_digit c
    then start t (n * 10 + (c - 48))
    else if c == b'd'
    then counted t n 86400000000000
    else if c == b'h'
    then counted t n 3600000000000
    else if c == b'm'
    then record { total = t; number = n; seen = an_m }
    else if c == b's'
    then counted t n 1000000000
    else if c == 0xBC
    then record { total = t; number = n; seen = start_of 1000 }
    else if c == b'n'
    then record { total = t; number = n; seen = start_of 1 }
    else start t n

abbrev read_after : Seen → ℕ → ℕ → ℕ → Reading
read_after nothing t n c = read_plain t n c
read_after an_m t n c = if c == b's' then counted t n 1000000 else read_plain (t + n * minute) 0 c
read_after (start_of size) t n c = counted t n size

abbrev pub read : Reading → Bytes → Reading
read r [] = r
read r (c ∷ cs) = read (read_after r.seen r.total r.number c) cs

abbrev total_after : Seen → ℕ → ℕ → ℕ
total_after nothing t n = t
total_after an_m t n = t + n * minute
total_after (start_of size) t n = t

-- The nanoseconds that a text says.
abbrev pub duration_of : Bytes → ℕ
duration_of text = let r = read (start 0 0) text in total_after r.seen r.total r.number

-- A reader that has read t nanoseconds, and is in front of a number or at the end.
data Ready : ℕ → Reading → Type 0 where
  fresh : (t : ℕ) → Ready t (start t 0)
  minutes : (t n : ℕ) → Ready (t + n * minute) (record { total = t; number = n; seen = an_m })

read-append : (r : Reading) (a b : Bytes) → read r (a ++ b) ≡ read (read r a) b
read-append r [] b = refl
read-append r (c ∷ a) b = read-append (read_after r.seen r.total r.number c) a b

digit_true : (c : ℕ) → IsDigit 10 c → is_digit c ≡ true
digit_true c (low, high) = ground arith

digit_not_s : (c : ℕ) → IsDigit 10 c → (c == b's') ≡ false
digit_not_s c (low, high) = ground arith

read-digits :
    (t n : ℕ) (cs : Bytes) → All (IsDigit 10) cs → read (start t n) cs ≡ start t (value 10 n cs)
read-digits t n [] h = refl
read-digits t n (c ∷ cs) (d, h) = rw (digit_true c d) (read-digits t (n * 10 + (c - 48)) cs h)

read-number :
    (t : ℕ) (r : Reading) (cs : Bytes)
    → Ready t r
    → All (IsDigit 10) cs
    → 0 < length cs
    → read r cs ≡ start t (value 10 0 cs)
read-number t r [] ready h some_digit = absurd (omega arith)
read-number _ _ (c ∷ cs) (fresh t) h some_digit = read-digits t 0 (c ∷ cs) h
read-number _ _ (c ∷ cs) (minutes t n) h some_digit =
    rw (digit_not_s c h.0, digit_true c h.0)
      (read-digits (t + n * minute) (0 * 10 + (c - 48)) cs h.1)

pow_gt : (n : ℕ) → n < 10 ^ suc n
pow_gt zero = omega (arith, pow-suc 10 0, pow-zero 10)
pow_gt (suc n) = omega (arith, pow_gt n, pow-suc 10 (suc n))

read-part :
    (t n size : ℕ) (r : Reading) (unit : Bytes)
    → Ready t r
    → Ready (t + n * size) (read (start t n) unit)
    → Ready (t + n * size) (read r (write_part n unit))
unfolding write_part
read-part t n size r unit ready behind = elim (Bool-cases (ltb 0 n)) [
  | inl some_part ↦
      let (spells, are_digits, _) =
        digits_lem 10 (omega arith) n (suc n) (pow_gt n) (omega arith) in
      let positive : 0 < n = ground arith in
      let nonempty : 0 < length (digits 10 n) =
        omega (arith, length-digits_ge 10 (omega arith) n 0 (ground arith)) in
      let number : read r (digits 10 n) ≡ start t n =
        read-number t r (digits 10 n) ready are_digits nonempty ∙ ap (start t) spells in
      let whole : read r (digits 10 n ++ unit) ≡ read (start t n) unit =
        read-append r (digits 10 n) unit ∙ ap (λ q. read q unit) number in
      rw some_part (subst (λ q. Ready (t + n * size) q) (sym whole) behind)
  | inr no_part ↦
      let none_left : n ≡ 0 = ground arith in
      let same : t ≡ t + n * size = rw none_left (omega arith) in
      rw no_part (subst (λ u. Ready u r) same ready)
]

read-then :
    (t n size : ℕ) (r : Reading) (unit rest : Bytes)
    → Ready t r
    → Ready (t + n * size) (read (start t n) unit)
    → (q : Reading) × Ready (t + n * size) q × (read r (write_part n unit ++ rest) ≡ read q rest)
read-then t n size r unit rest ready behind = (
  read r (write_part n unit),
  read-part t n size r unit ready behind,
  read-append r (write_part n unit) rest,
)

total-Ready : (t : ℕ) (r : Reading) → Ready t r → total_after r.seen r.total r.number ≡ t
total-Ready _ _ (fresh t) = refl
total-Ready _ _ (minutes t n) = refl

-- For less than a second of nanoseconds, a reader that adds up the numbers of a text, each times its
-- unit, reads of what `fmt` prints exactly the duration, in nanoseconds.
pub duration_of-fmt :
    (total_secs remain_nanos : ℕ)
    → remain_nanos < 1000000000
    → duration_of (fmt total_secs remain_nanos) ≡ total_secs * 1000000000 + remain_nanos
unfolding fmt
duration_of-fmt total_secs remain_nanos small =
    let p = split_duration total_secs remain_nanos in
    let (whole, part, _, _, _, _, _, _) = split_duration_lem total_secs remain_nanos small in
    let (q₁, r₁, e₁) =
      read-then 0 p.days 86400000000000 (start 0 0) (b'd' ∷ []) _ (fresh 0) (fresh _) in
    let (q₂, r₂, e₂) = read-then _ p.hours 3600000000000 q₁ (b'h' ∷ []) _ r₁ (fresh _) in
    let (q₃, r₃, e₃) = read-then _ p.minutes minute q₂ (b'm' ∷ []) _ r₂ (minutes _ p.minutes) in
    let (q₄, r₄, e₄) = read-then _ p.seconds 1000000000 q₃ (b's' ∷ []) _ r₃ (fresh _) in
    let (q₅, r₅, e₅) = read-then _ p.millis 1000000 q₄ (b'm' ∷ b's' ∷ []) _ r₄ (fresh _) in
    let (q₆, r₆, e₆) = read-then _ p.micros 1000 q₅ (0xCE ∷ 0xBC ∷ b's' ∷ []) _ r₅ (fresh _) in
    let q₇ = read q₆ (write_part p.nanos (b'n' ∷ b's' ∷ [])) in
    let r₇ = read-part _ p.nanos 1 q₆ (b'n' ∷ b's' ∷ []) r₆ (fresh _) in
    ap (λ r. total_after r.seen r.total r.number) (e₁ ∙ e₂ ∙ e₃ ∙ e₄ ∙ e₅ ∙ e₆)
    ∙ total-Ready _ q₇ r₇
    ∙ omega (arith, whole, part)
