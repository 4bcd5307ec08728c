-- ===== src/Tests/Windows.antt =====
-- Runs of the definitions for Windows tapes, over a tape with ten units, of which the position and the
-- filemarks written are kept.
use rapidtar.Prelude.{
  ℕ, ◌+◌, ◌*◌, ◌≡◌, refl, arith, false, Option, some, none, [], ◌∷◌, length, inl,
}
use rapidtar.Io.{ok, other}
use rapidtar.Tape.Seek.{pos, negsuc, current, end}
use rapidtar.Tape.Unix.Seek
use rapidtar.Tape.Windows.{
  Win32, WinResult, granted, denied, no_data_detected, Operation, logical_block, relative_blocks,
  end_of_data, filemarks, setmarks, rewind, WindowsTapeDevice, write_command, read_command,
  drop_device, seek_blocks, new_command,
}
use rapidtar.Tape.Windows.Reading.{
  read, read_from, next_copy, read_round, copy_next, copy_block, read_next_block, read_loop,
  unless_ended, or_again, read_result,
}
use rapidtar.Tape.Windows.Bounds.{InBounds, read-InBounds}
use rapidtar.Tape.Windows.Position.{Moves, Locates, displaced, signed64, seek_blocks-Reaches}
use rapidtar.Tape.Windows.Drop.{KeepsMarks, drop_device_lem}
use rapidtar.Tape.Agreement.{seek_blocks_agree}
use rapidtar.Tests.Tape.{counter, records-Moves, at_four}

record Spool : Type 0 where
  at : ℕ
  written : ℕ

abbrev at_of : Spool → ℕ
at_of t = t.at

abbrev written_of : Spool → ℕ
written_of t = t.written

abbrev ten : Spool → ℕ
ten t = 10

abbrev placed : Option ℕ → Spool → WinResult (Unit {0}) × Spool
placed none t = (denied no_data_detected, t)
placed (some n) t = (granted tt, record t { at = n })

abbrev place : Operation → ℕ → ℕ → ℕ → Spool → WinResult (Unit {0}) × Spool
place logical_block partition low high t = placed (some (high * 4294967296 + low)) t
place relative_blocks partition low high t = placed (displaced t.at 10 (signed64 low high)) t
place end_of_data partition low high t = placed (some 10) t
place filemarks partition low high t = placed (displaced t.at 10 (signed64 low high)) t
place setmarks partition low high t = placed (displaced t.at 10 (signed64 low high)) t
place rewind partition low high t = placed (some 0) t

abbrev win : Win32 Spool
win = record {
  read_file = λ room t. (granted (1 ∷ 2 ∷ 3 ∷ []), t);
  write_file = λ b t. (granted (length b), t);
  set_tape_position = place;
  write_tapemark = λ now t. (granted tt, record { at = t.at + 1; written = t.written + 1 });
  get_tape_position = λ t. (granted (t.at, 0), t);
  from_raw_os_error = λ e. other;
  reserve = λ len room more. len + more;
  with_capacity = λ n. n;
}

win-Moves : Moves win at_of ten relative_blocks
win-Moves = record {
  relative_move = λ low high t h. rw h (refl, refl);
  to_end = λ t. ((refl, refl), refl);
}

win-Locates : Locates win at_of ten
win-Locates low high t h = (refl, refl)

win-KeepsMarks : KeepsMarks win at_of ten written_of
win-KeepsMarks = record {
  mark = λ now t. ((refl, refl), refl);
  move = λ low high t h. rw h ((refl, refl), refl);
}

abbrev win_device : WindowsTapeDevice Spool
win_device = record {
  tape_device = record { at = 4; written = 0 };
  block_spill_buffer = [];
  capacity = 8;
  block_spill_read_pos = 0;
  last_command = write_command;
  eof_condition = false;
}

-- Three blocks back.
seek_blocks-Reaches_example :
    ((seek_blocks win (current (negsuc 2)) win_device).0 ≡ ok tt)
    × (at_of (seek_blocks win (current (negsuc 2)) win_device).1.tape_device ≡ 1)
seek_blocks-Reaches_example =
    seek_blocks-Reaches win at_of ten (current (negsuc 2)) win_device {n = 1} win-Moves win-Locates
      (omega arith) refl

seek_blocks_agree_example :
    ((Seek.seek_blocks counter (end (pos 3)) at_four).0 ≡ ok tt)
    × ((seek_blocks win (end (pos 3)) win_device).0 ≡ ok tt)
    × ((Seek.seek_blocks counter (end (pos 3)) at_four).1.tape_device
        ≡ at_of (seek_blocks win (end (pos 3)) win_device).1.tape_device)
seek_blocks_agree_example =
    seek_blocks_agree counter win (λ t. t) (λ t. 10) at_of ten (end (pos 3)) at_four win_device
      {n = 7} records-Moves (λ n t h. (refl, refl)) win-Moves win-Locates refl refl (omega arith)
      refl

drop_device_lem_example :
    (at_of (drop_device win win_device).tape_device ≡ 4 + 1)
    × (written_of (drop_device win win_device).tape_device ≡ 0 + 2)
drop_device_lem_example =
    drop_device_lem win at_of ten written_of win-KeepsMarks win_device (λ h. omega arith)

abbrev read_two : WindowsTapeDevice Spool
read_two = record win_device {
  block_spill_buffer = 1 ∷ 2 ∷ 3 ∷ [];
  block_spill_read_pos = 2;
  last_command = read_command;
}

read-InBounds_example : InBounds win 2 (ok (1 ∷ 2 ∷ [])) read_two
unfolding read read_from next_copy read_round copy_next copy_block read_next_block read_loop
    unless_ended or_again read_result new_command
read-InBounds_example =
    read-InBounds win 4 4 2 win_device {r = ok (1 ∷ 2 ∷ [])} {s' = read_two} (inl refl) refl
