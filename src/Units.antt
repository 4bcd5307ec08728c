-- ===== src/Units.antt =====
-- librapidarchive/src/units/time.rs: how `HRDuration` prints a duration.
pub mod ReadBack
use rapidtar.Prelude.{ℕ, ◌+◌, ◌-◌, ◌*◌, ◌/◌, ◌<◌, ◌≡◌, [], ◌∷◌, ◌++◌, ltb, if◌then◌else◌, arith}
use rapidtar.Io.{Bytes}
use rapidtar.Tar.Digits.{digits}

-- The numbers that `fmt` computes of the seconds and of the nanoseconds below one.
pub record Parts : Type 0 where
  pub days : ℕ
  pub hours : ℕ
  pub minutes : ℕ
  pub seconds : ℕ
  pub millis : ℕ
  pub micros : ℕ
  pub nanos : ℕ

unfoldable pub split_duration : ℕ → ℕ → Parts
split_duration total_secs remain_nanos =
    let days = total_secs / 86400 in
    let days_remain_secs = total_secs - days * 86400 in
    let hours = days_remain_secs / 3600 in
    let hours_remain_secs = days_remain_secs - hours * 3600 in
    let minutes = hours_remain_secs / 60 in
    let millis = remain_nanos / 1000000 in
    let millis_remain_nanos = remain_nanos - millis * 1000000 in
    let micros = millis_remain_nanos / 1000 in
    record {
      days = days;
      hours = hours;
      minutes = minutes;
      seconds = hours_remain_secs - minutes * 60;
      millis = millis;
      micros = micros;
      nanos = millis_remain_nanos - micros * 1000;
    }

-- `if n > 0 { write!(f, "{}unit", n)?; }`
unfoldable pub write_part : ℕ → Bytes → Bytes
write_part n unit = if ltb 0 n then digits 10 n ++ unit else []

-- The text of a duration in UTF-8, to a writer that does not fail.
unfoldable pub fmt : ℕ → ℕ → Bytes
fmt total_secs remain_nanos =
    let p = split_duration total_secs remain_nanos in
    write_part p.days (b'd' ∷ [])
    ++ (write_part p.hours (b'h' ∷ [])
        ++ (write_part p.minutes (b'm' ∷ [])
            ++ (write_part p.seconds (b's' ∷ [])
                ++ (write_part p.millis (b'm' ∷ b's' ∷ [])
                    ++ (write_part p.micros (0xCE ∷ 0xBC ∷ b's' ∷ [])
                        ++ write_part p.nanos (b'n' ∷ b's' ∷ []))))))

-- For less than a second of nanoseconds, the parts that are printed add up to the duration, and each
-- but the days is less than one of the next larger unit.
pub split_duration_lem :
    (total_secs remain_nanos : ℕ)
    → remain_nanos < 1000000000
    → let p = split_duration total_secs remain_nanos in
      (p.days * 86400 + p.hours * 3600 + p.minutes * 60 + p.seconds ≡ total_secs)
      × (p.millis * 1000000 + p.micros * 1000 + p.nanos ≡ remain_nanos)
      × (p.hours < 24)
      × (p.minutes < 60)
      × (p.seconds < 60)
      × (p.millis < 1000)
      × (p.micros < 1000)
      × (p.nanos < 1000)
unfolding split_duration
split_duration_lem total_secs remain_nanos small = omega arith
