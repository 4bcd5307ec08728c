-- ===== src/Tape/Windows/Reading.antt =====
-- librapidarchive/src/tape/windows.rs: how `WindowsTapeDevice` reads.
use rapidtar.Prelude.{
  ℕ, ◌+◌, ◌-◌, ◌*◌, ◌%◌, Bool, true, false, Option, none, some, [], ◌++◌, ◌==◌, leb, ltb,
  if◌then◌else◌, length, take, drop, zero, suc,
}
use rapidtar.Io.{Bytes, IoResult, ok, err}
use rapidtar.Tape.Windows.{
  end_of_media, more_data, filemark_detected, setmark_detected, no_data_detected, media_changed,
  other_code, WinResult, granted, denied, Win32, relative_blocks, read_command, WindowsTapeDevice,
  handle_seek_error, new_command,
}

-- A round of a loop: it goes on, or returns.
pub data Round (S A : Type 0) : Type 0 where
  again : S → Round S A
  returned : IoResult A → S → Round S A

module _ {T : Type 0} (c : Win32 T) where
  -- The tape goes back over a block that was too long. Where that fails, the call returns.
  unfoldable pub backed :
      WinResult (Unit {0}) × T → WindowsTapeDevice T → Round (WindowsTapeDevice T) (Unit {0})
  backed (granted _, tape) s = again (record s { tape_device = tape })
  backed (denied e, tape) s =
      returned (handle_seek_error c (denied e)) (record s { tape_device = tape })

  unfoldable pub grow_and_back : WindowsTapeDevice T → Round (WindowsTapeDevice T) (Unit {0})
  grow_and_back s =
      backed (c.set_tape_position relative_blocks 0 4294967295 4294967295 s.tape_device) (record s {
        capacity = c.reserve (length s.block_spill_buffer) s.capacity (s.capacity * 2);
      })

  unfoldable pub mark_end : WindowsTapeDevice T → Round (WindowsTapeDevice T) (Unit {0})
  mark_end s = returned (ok tt) (record s { eof_condition = true; block_spill_buffer = [] })

  -- What follows the read.
  unfoldable pub read_result :
      WinResult Bytes × T → WindowsTapeDevice T → Round (WindowsTapeDevice T) (Unit {0})
  read_result (granted block, tape) s =
      returned (ok tt) (record s { tape_device = tape; block_spill_buffer = take s.capacity block })
  read_result (denied filemark_detected, tape) s = mark_end (record s { tape_device = tape })
  read_result (denied setmark_detected, tape) s = mark_end (record s { tape_device = tape })
  read_result (denied no_data_detected, tape) s = mark_end (record s { tape_device = tape })
  read_result (denied more_data, tape) s = grow_and_back (record s { tape_device = tape })
  read_result (denied media_changed, tape) s = grow_and_back (record s { tape_device = tape })
  read_result (denied end_of_media, tape) s =
      returned (err (c.from_raw_os_error end_of_media)) (record s { tape_device = tape })
  read_result (denied (other_code e), tape) s =
      returned (err (c.from_raw_os_error (other_code e))) (record s { tape_device = tape })

  unfoldable pub or_again :
      Round (WindowsTapeDevice T) (Unit {0})
      → (WindowsTapeDevice T → Option (IoResult (Unit {0}) × WindowsTapeDevice T))
      → Option (IoResult (Unit {0}) × WindowsTapeDevice T)
  or_again (again s) next = next s
  or_again (returned r s) next = some (r, s)

  -- The end of the loop, by the condition.
  unfoldable pub unless_ended :
      Bool
      → WindowsTapeDevice T
      → Option (IoResult (Unit {0}) × WindowsTapeDevice T)
      → Option (IoResult (Unit {0}) × WindowsTapeDevice T)
  unless_ended true s more = some (ok tt, s)
  unless_ended false s more = more

  -- `while !self.eof_condition`. None: more than `fuel` rounds.
  unfoldable pub read_loop :
      ℕ → WindowsTapeDevice T → Option (IoResult (Unit {0}) × WindowsTapeDevice T)
  read_loop zero s = none
  read_loop (suc fuel) s = unless_ended s.eof_condition s (
      or_again (read_result (c.read_file (s.capacity % 4294967296) s.tape_device) s)
        (λ s'. read_loop fuel s'))

  unfoldable pub read_next_block :
      ℕ → WindowsTapeDevice T → Option (IoResult (Unit {0}) × WindowsTapeDevice T)
  read_next_block fuel s = read_loop fuel (new_command c read_command s)

  -- The copies of a round of `read` with `remain` bytes to go.
  unfoldable pub copy_block : ℕ → WindowsTapeDevice T → Bytes × WindowsTapeDevice T
  copy_block remain s =
      if leb (length s.block_spill_buffer) remain
      then (s.block_spill_buffer, s)
      else (take remain s.block_spill_buffer, record s { block_spill_read_pos = remain })

  unfoldable pub copy_spill : ℕ → WindowsTapeDevice T → Bytes × WindowsTapeDevice T
  copy_spill remain s =
      let spill_remain = length s.block_spill_buffer - s.block_spill_read_pos in
      if leb spill_remain remain
      then (drop s.block_spill_read_pos s.block_spill_buffer, record s { block_spill_read_pos = 0 })
      else (
        take remain (drop s.block_spill_read_pos s.block_spill_buffer),
        record s { block_spill_read_pos = s.block_spill_read_pos + remain },
      )

  unfoldable pub copy_next :
      ℕ
      → Option (IoResult (Unit {0}) × WindowsTapeDevice T)
      → Option (IoResult Bytes × WindowsTapeDevice T)
  copy_next remain none = none
  copy_next remain (some (err e, s)) = some (err e, s)
  copy_next remain (some (ok _, s)) = let (b, s') = copy_block remain s in some (ok b, s')

  -- A round of `read` where it does not break.
  unfoldable pub read_round :
      ℕ → ℕ → WindowsTapeDevice T → Option (IoResult Bytes × WindowsTapeDevice T)
  read_round fuel remain s =
      if s.block_spill_read_pos == 0
      then copy_next remain (read_next_block fuel s)
      else let (b, s') = copy_spill remain s in some (ok b, s')

  unfoldable pub next_copy :
      Bytes
      → Option (IoResult Bytes × WindowsTapeDevice T)
      → (Bytes → WindowsTapeDevice T → Option (IoResult Bytes × WindowsTapeDevice T))
      → Option (IoResult Bytes × WindowsTapeDevice T)
  next_copy wrote none next = none
  next_copy wrote (some (err e, s)) next = some (err e, s)
  next_copy wrote (some (ok b, s)) next = next (wrote ++ b) s

  -- The break of the loop: nothing is left of a block, and the end of the file is reached.
  abbrev pub at_end : WindowsTapeDevice T → Bool
  at_end s = if s.block_spill_read_pos == 0 then s.eof_condition else false

  -- `Read::read` into a buffer of `len` bytes, the first of which hold `wrote`.
  unfoldable pub read_from :
      ℕ → ℕ → ℕ → Bytes → WindowsTapeDevice T → Option (IoResult Bytes × WindowsTapeDevice T)
  read_from zero inner len wrote s = none
  read_from (suc fuel) inner len wrote s =
      if ltb (length wrote) len
      then if at_end s
        then some (ok wrote, s)
        else next_copy wrote (read_round inner (len - length wrote) s)
            (λ wrote' s'. read_from fuel inner len wrote' s')
      else some (ok wrote, s)

  unfoldable pub read :
      ℕ → ℕ → ℕ → WindowsTapeDevice T → Option (IoResult Bytes × WindowsTapeDevice T)
  read fuel inner len s = read_from fuel inner len [] s

  unfoldable pub take_block : WindowsTapeDevice T → Bytes × WindowsTapeDevice T
  take_block s = (
    s.block_spill_buffer,
    record s {
      block_spill_buffer = [];
      capacity = c.with_capacity s.capacity;
      block_spill_read_pos = 0;
    },
  )

  unfoldable pub swap_block :
      Option (IoResult (Unit {0}) × WindowsTapeDevice T)
      → Option (IoResult Bytes × WindowsTapeDevice T)
  swap_block none = none
  swap_block (some (err e, s)) = some (err e, s)
  swap_block (some (ok _, s)) = let (b, s') = take_block s in some (ok b, s')

  -- `TapeDevice::read_block`: what it puts into the caller's vector.
  unfoldable pub read_block :
      ℕ → WindowsTapeDevice T → Option (IoResult Bytes × WindowsTapeDevice T)
  read_block fuel s =
      if at_end s
      then some (ok [], s)
      else swap_block
          (if s.block_spill_read_pos == 0 then read_next_block fuel s else some (ok tt, s))
