-- ===== src/Fs/Retries.antt =====
-- librapidarchive/src/fs/windows.rs: the rounds in which a tape is opened.
use rapidtar.Prelude.{
  ℕ, ◌+◌, ◌≤◌, ◌<◌, ◌≡◌, refl, Option, none, some, ◌==◌, zero, suc, arith, ltb, Bool-cases, inl,
  inr,
}
use rapidtar.Io.{ErrorKind, IoResult, ok, err}
use rapidtar.Fs.Windows.{
  Opened, device, failed, error_media_changed, retry_changed, after_open_sink, open_changed,
  retry_notfound, after_open_tape, open_tape,
}

module _ {T : Type 0} (open_device : ℕ → Opened T) where
  retry_changed-returns :
      (n : ℕ) (kind : ErrorKind) (code : Option ℕ) (again : Option (IoResult T))
      → (n ≤ 5 → (r : IoResult T) × (again ≡ some r))
      → (r : IoResult T) × (retry_changed open_device n kind code again ≡ some r)
  unfolding retry_changed
  retry_changed-returns n kind none again later = (err kind, refl)
  retry_changed-returns n kind (some errcode) again later =
      elim (Bool-cases (errcode == error_media_changed)) [
        | inr different ↦ (err kind, rw different refl)
        | inl changed ↦ elim (Bool-cases (ltb 5 n)) [
          | inl many ↦ (err kind, rw (changed, many) refl)
          | inr few ↦ let (r, eq) = later (ground arith) in (r, rw (changed, few) eq)
        ]
      ]

  after_open_sink-returns :
      (n : ℕ) (opened : Opened T) (again : Option (IoResult T))
      → (n + 1 ≤ 5 → (r : IoResult T) × (again ≡ some r))
      → (r : IoResult T) × (after_open_sink open_device n opened again ≡ some r)
  unfolding after_open_sink
  after_open_sink-returns n (device tape) again later = (ok tape, refl)
  after_open_sink-returns n (failed e) again later =
      retry_changed-returns (n + 1) e.kind e.raw_os_error again later

  -- The loop of `open_sink` ends in the sixth round, whatever the device answers.
  pub open_changed-returns :
      (fuel n : ℕ)
      → n < 6
      → 6 ≤ fuel + n
      → (r : IoResult T) × (open_changed open_device fuel n ≡ some r)
  unfolding open_changed
  open_changed-returns zero n few enough = absurd (omega arith)
  open_changed-returns (suc fuel) n few enough =
      after_open_sink-returns n (open_device n) (open_changed open_device fuel (n + 1))
        λ more. open_changed-returns fuel (n + 1) (omega (arith, more)) (omega arith)

  -- The loop of `open_tape` goes on as long as the device is not found.
  pub open_tape-hangs :
      ((n : ℕ)
        → (k : ErrorKind) × (open_device n ≡ failed (record { kind = k; raw_os_error = some 2 })))
      → (fuel n : ℕ) → open_tape open_device fuel n ≡ none
  unfolding open_tape after_open_tape retry_notfound
  open_tape-hangs never zero n = refl
  open_tape-hangs never (suc fuel) n = rw ((never n).1) (open_tape-hangs never fuel (n + 1))
