-- ===== src/Tape/Windows/Bounds.antt =====
-- librapidarchive/src/tape/windows.rs: the slices of `read` are in range.
use rapidtar.Prelude.{
  ℕ, ◌-◌, ◌≤◌, ◌<◌, ◌≡◌, ◌⊎◌, inl, inr, refl, sym, ap, ◌∙◌, Option, none, some, [], ◌++◌, ◌==◌,
  ==_iff, leb, ltb, length, drop, arith, zero, suc, Bool-cases, leb→le, leb_false→lt, length-append,
  length-take, length-drop,
}
use rapidtar.Io.{Bytes, IoResult, ok, err}
use rapidtar.Tape.Windows.{Win32, read_command, WindowsTapeDevice, new_command}
use rapidtar.Tape.Windows.Kept.{read_loop_at}
use rapidtar.Tape.Windows.Reading.{
  read_next_block, copy_block, copy_spill, copy_next, read_round, next_copy, at_end, read_from,
  read,
}

-- A block that was read in part has some bytes left.
abbrev pub IsInside : {T : Type 0} → WindowsTapeDevice T → Type 0
IsInside s = (s.block_spill_read_pos ≡ 0) ⊎ (s.block_spill_read_pos < length s.block_spill_buffer)

module _ {T : Type 0} (c : Win32 T) where
  -- A round leaves the device inside, whatever it returns, and copies no more than `remain` bytes.
  abbrev pub InBounds : ℕ → IoResult Bytes → WindowsTapeDevice T → Type 0
  InBounds remain r s = IsInside s × ((b : Bytes) → r ≡ ok b → length b ≤ remain)

  ok_inj : {a b : Bytes} → ok a ≡ ok b → a ≡ b
  ok_inj h = cc

  copied_few :
      (remain : ℕ) {a : Bytes} → length a ≤ remain → (b : Bytes) → ok a ≡ ok b → length b ≤ remain
  copied_few remain few b h = omega (arith, few, ap length (ok_inj h))

  copy_block-InBounds :
      (remain : ℕ) (s : WindowsTapeDevice T)
      → s.block_spill_read_pos ≡ 0
      → InBounds remain (ok (copy_block c remain s).0) (copy_block c remain s).1
  unfolding copy_block
  copy_block-InBounds remain s start =
      elim (Bool-cases (leb (length s.block_spill_buffer) remain)) [
        | inl fits ↦ rw fits (inl start, copied_few remain (leb→le _ _ fits))
        | inr rest ↦ rw rest (
          inr (leb_false→lt _ _ rest),
          copied_few remain (omega (arith, length-take remain s.block_spill_buffer)),
        )
      ]

  copy_spill-InBounds :
      (remain : ℕ) (s : WindowsTapeDevice T)
      → IsInside s
      → InBounds remain (ok (copy_spill c remain s).0) (copy_spill c remain s).1
  unfolding copy_spill
  copy_spill-InBounds remain s inside =
      let at = s.block_spill_read_pos in
      let buffer = s.block_spill_buffer in
      elim (Bool-cases (leb (length buffer - at) remain)) [
        | inl fits ↦
            rw fits
              (inl refl, copied_few remain (omega (arith, leb→le _ _ fits, length-drop at buffer)))
        | inr rest ↦
            let more = leb_false→lt _ _ rest in
            rw rest (
              inr (omega (arith, more)),
              copied_few remain (omega (arith, length-take remain (drop at buffer))),
            )
      ]

  copy_next-InBounds :
      (remain : ℕ) (x : Option (IoResult (Unit {0}) × WindowsTapeDevice T)) {r : IoResult Bytes}
      {s' : WindowsTapeDevice T}
      → ((q : IoResult (Unit {0})) (v : WindowsTapeDevice T)
          → x ≡ some (q, v)
          → v.block_spill_read_pos ≡ 0)
      → copy_next c remain x ≡ some (r, s')
      → InBounds remain r s'
  unfolding copy_next
  copy_next-InBounds remain none start h = absurd (cc)
  copy_next-InBounds remain (some (err e, v)) {r} {s'} start h =
      let same : v ≡ s' = cc in
      let failed : err e ≡ r = cc in
      rw (sym same, sym failed) (inl (start (err e) v refl), λ b h. absurd (cc))
  copy_next-InBounds remain (some (ok u, v)) {r} {s'} start h =
      let same : (copy_block c remain v).1 ≡ s' = cc in
      let copied : ok (copy_block c remain v).0 ≡ r = cc in
      rw (sym same, sym copied) (copy_block-InBounds remain v (start (ok u) v refl))

  read_round-InBounds :
      (fuel remain : ℕ) (s : WindowsTapeDevice T) {r : IoResult Bytes} {s' : WindowsTapeDevice T}
      → IsInside s
      → read_round c fuel remain s ≡ some (r, s')
      → InBounds remain r s'
  unfolding read_round read_next_block new_command
  read_round-InBounds fuel remain s {r} {s'} inside h =
      elim (Bool-cases (s.block_spill_read_pos == 0)) [
        | inl none_read ↦
            let start = (==_iff s.block_spill_read_pos 0).0 none_read in
            copy_next-InBounds remain (read_next_block c fuel s)
              (λ q v h. read_loop_at c fuel (new_command c read_command s) h ∙ start)
              (rw none_read at h)
        | inr some_read ↦
            let copied : ◌≡◌ {A = Option (IoResult Bytes × WindowsTapeDevice T)}
                (some (ok (copy_spill c remain s).0, (copy_spill c remain s).1)) (some (r, s')) =
              rw some_read at h in
            let same : (copy_spill c remain s).1 ≡ s' = cc in
            let result : ok (copy_spill c remain s).0 ≡ r = cc in
            rw (sym same, sym result) (copy_spill-InBounds remain s inside)
      ]

  after_copy :
      (wrote : Bytes) (len : ℕ) (x : Option (IoResult Bytes × WindowsTapeDevice T))
      (next : Bytes → WindowsTapeDevice T → Option (IoResult Bytes × WindowsTapeDevice T))
      {r : IoResult Bytes} {s' : WindowsTapeDevice T}
      → length wrote ≤ len
      → ((q : IoResult Bytes) (v : WindowsTapeDevice T)
          → x ≡ some (q, v)
          → InBounds (len - length wrote) q v)
      → ((wrote' : Bytes) (v : WindowsTapeDevice T)
          → length wrote' ≤ len
          → IsInside v
          → next wrote' v ≡ some (r, s')
          → InBounds len r s')
      → next_copy c wrote x next ≡ some (r, s')
      → InBounds len r s'
  unfolding next_copy
  after_copy wrote len none next few round on h = absurd (cc)
  after_copy wrote len (some (err e, v)) next {r} {s'} few round on h =
      let same : v ≡ s' = cc in
      let failed : err e ≡ r = cc in
      rw (sym same, sym failed) ((round (err e) v refl).0, λ b h. absurd (cc))
  after_copy wrote len (some (ok b, v)) next few round on h =
      let (inside, copied) = round (ok b) v refl in
      on (wrote ++ b) v (omega (arith, few, copied b refl, length-append wrote b)) inside h

  stopped :
      (len : ℕ) (wrote : Bytes) (s : WindowsTapeDevice T) {r : IoResult Bytes}
      {s' : WindowsTapeDevice T}
      → IsInside s
      → length wrote ≤ len
      → ◌≡◌ {A = Option (IoResult Bytes × WindowsTapeDevice T)} (some (ok wrote, s)) (some (r, s'))
      → InBounds len r s'
  stopped len wrote s {r} {s'} inside few h =
      let same : s ≡ s' = cc in
      let result : ok wrote ≡ r = cc in rw (sym same, sym result) (inside, copied_few len few)

  read_from-InBounds :
      (fuel inner len : ℕ) (wrote : Bytes) (s : WindowsTapeDevice T) {r : IoResult Bytes}
      {s' : WindowsTapeDevice T}
      → IsInside s
      → length wrote ≤ len
      → read_from c fuel inner len wrote s ≡ some (r, s')
      → InBounds len r s'
  unfolding read_from
  read_from-InBounds zero inner len wrote s inside few h = absurd (cc)
  read_from-InBounds (suc fuel) inner len wrote s inside few h =
      elim (Bool-cases (ltb (length wrote) len)) [
        | inl more ↦ elim (Bool-cases (at_end c s)) [
          | inl ended ↦ stopped len wrote s inside few (rw (more, ended) at h)
          | inr going ↦
              after_copy wrote len (read_round c inner (len - length wrote) s)
                (λ wrote' v. read_from c fuel inner len wrote' v) few
                (λ q v h. read_round-InBounds inner (len - length wrote) s inside h)
                (λ wrote' v few' inside' h'.
                  read_from-InBounds fuel inner len wrote' v inside' few' h')
                (rw (more, going) at h)
        ]
        | inr full ↦ stopped len wrote s inside few (rw full at h)
      ]

  -- Whatever the calls of Win32 answer: a read by a device whose position in the spilled block is 0 or
  -- before the block's end leaves it so, whether it returns Ok or an error, and where it returns Ok, it
  -- has not copied more bytes than the buffer has.
  pub read-InBounds :
      (fuel inner len : ℕ) (s : WindowsTapeDevice T) {r : IoResult Bytes} {s' : WindowsTapeDevice T}
      → IsInside s
      → read c fuel inner len s ≡ some (r, s')
      → InBounds len r s'
  unfolding read
  read-InBounds fuel inner len s inside h =
      read_from-InBounds fuel inner len [] s inside (omega arith) h
