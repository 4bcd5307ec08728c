-- ===== src/Tape/Windows/Kept.antt =====
-- librapidarchive/src/tape/windows.rs: reading a block does not move the
-- position in the block before.
use rapidtar.Prelude.{
  ℕ, ◌*◌, ◌%◌, ◌≡◌, refl, sym, ap, ◌∙◌, Bool, true, false, Option, some, length, zero, suc,
}
use rapidtar.Io.{Bytes, IoResult}
use rapidtar.Tape.Windows.{
  end_of_media, more_data, filemark_detected, setmark_detected, no_data_detected, media_changed,
  other_code, WinResult, granted, denied, Win32, relative_blocks, WindowsTapeDevice,
}
use rapidtar.Tape.Windows.Reading.{
  Round, again, returned, backed, grow_and_back, mark_end, read_result, or_again, unless_ended,
  read_loop,
}

module _ {T : Type 0} (c : Win32 T) where
  -- The position in the spilled block is that of `s`, wherever the round ends.
  abbrev Keeps : ℕ → Round (WindowsTapeDevice T) (Unit {0}) → Type 0
  Keeps at (again s) = s.block_spill_read_pos ≡ at
  Keeps at (returned r s) = s.block_spill_read_pos ≡ at

  backed-Keeps :
      (r : WinResult (Unit {0}) × T) (s : WindowsTapeDevice T)
      → Keeps s.block_spill_read_pos (backed c r s)
  unfolding backed
  backed-Keeps (granted _, tape) s = refl
  backed-Keeps (denied e, tape) s = refl

  grow_and_back-Keeps : (s : WindowsTapeDevice T) → Keeps s.block_spill_read_pos (grow_and_back c s)
  unfolding grow_and_back
  grow_and_back-Keeps s =
      backed-Keeps (c.set_tape_position relative_blocks 0 4294967295 4294967295 s.tape_device)
        (record s {
          capacity = c.reserve (length s.block_spill_buffer) s.capacity (s.capacity * 2);
        })

  read_result-Keeps :
      (r : WinResult Bytes × T) (s : WindowsTapeDevice T)
      → Keeps s.block_spill_read_pos (read_result c r s)
  unfolding read_result mark_end
  read_result-Keeps (granted block, tape) s = refl
  read_result-Keeps (denied filemark_detected, tape) s = refl
  read_result-Keeps (denied setmark_detected, tape) s = refl
  read_result-Keeps (denied no_data_detected, tape) s = refl
  read_result-Keeps (denied more_data, tape) s =
      grow_and_back-Keeps (record s { tape_device = tape })
  read_result-Keeps (denied media_changed, tape) s =
      grow_and_back-Keeps (record s { tape_device = tape })
  read_result-Keeps (denied end_of_media, tape) s = refl
  read_result-Keeps (denied (other_code e), tape) s = refl

  round_at :
      (x : Round (WindowsTapeDevice T) (Unit {0}))
      (next : WindowsTapeDevice T → Option (IoResult (Unit {0}) × WindowsTapeDevice T)) (at : ℕ)
      {r : IoResult (Unit {0})} {s' : WindowsTapeDevice T}
      → Keeps at x
      → ((s : WindowsTapeDevice T)
          → s.block_spill_read_pos ≡ at
          → next s ≡ some (r, s')
          → s'.block_spill_read_pos ≡ at)
      → or_again c x next ≡ some (r, s')
      → s'.block_spill_read_pos ≡ at
  unfolding or_again
  round_at (again s) next at keeps on h = on s keeps h
  round_at (returned q s) next at {r} {s'} keeps on h =
      let same : s ≡ s' = cc in sym (ap (λ s. s.block_spill_read_pos) same) ∙ keeps

  ended_at :
      (ended : Bool) (s : WindowsTapeDevice T)
      (more : Option (IoResult (Unit {0}) × WindowsTapeDevice T)) {r : IoResult (Unit {0})}
      {s' : WindowsTapeDevice T}
      → (more ≡ some (r, s') → s'.block_spill_read_pos ≡ s.block_spill_read_pos)
      → unless_ended c ended s more ≡ some (r, s')
      → s'.block_spill_read_pos ≡ s.block_spill_read_pos
  unfolding unless_ended
  ended_at true s more {r} {s'} on h =
      let same : s ≡ s' = cc in sym (ap (λ s. s.block_spill_read_pos) same)
  ended_at false s more on h = on h

  pub read_loop_at :
      (fuel : ℕ) (s : WindowsTapeDevice T) {r : IoResult (Unit {0})} {s' : WindowsTapeDevice T}
      → read_loop c fuel s ≡ some (r, s')
      → s'.block_spill_read_pos ≡ s.block_spill_read_pos
  unfolding read_loop
  read_loop_at zero s h = absurd (cc)
  read_loop_at (suc fuel) s {r} {s'} h =
      let first = read_result c (c.read_file (s.capacity % 4294967296) s.tape_device) s in
      ended_at s.eof_condition s (or_again c first (λ s'. read_loop c fuel s'))
        (round_at first (λ s'. read_loop c fuel s') s.block_spill_read_pos
          (read_result-Keeps (c.read_file (s.capacity % 4294967296) s.tape_device) s)
          (λ v at h'. read_loop_at fuel v h' ∙ at))
        h
