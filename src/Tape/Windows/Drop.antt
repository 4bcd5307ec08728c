-- ===== src/Tape/Windows/Drop.antt =====
-- librapidarchive/src/tape/windows.rs: where dropping a device leaves the tape.
use rapidtar.Prelude.{
  ℕ, ◌+◌, ◌-◌, ◌≤◌, ◌≡◌, refl, ap, ◌∙◌, Bool, true, false, some, arith, leb, le→leb,
}
use rapidtar.Tape.Seek.{pos, negsuc, current}
use rapidtar.Tape.Windows.{
  Win32, filemarks, TapeCommand, write_command, filemark_command, read_command, none_of_the_above,
  WindowsTapeDevice, move_tape, move_by, new_command, new_seek, write_filemark, seek_filemarks,
  skip_file, drop_after, drop_device,
}
use rapidtar.Tape.Windows.Position.{Arrives, displaced, signed64}

-- What is documented of the calls on a tape: a filemark is written behind the position, and a move by
-- filemarks, in either direction, writes none. `marks` counts those that were written.
pub record KeepsMarks {T : Type 0} (c : Win32 T) (position last marks : T → ℕ) : Type 0 where
  pub mark :
      (immediate : Bool) (t : T)
      → Arrives position (c.write_tapemark immediate t) (position t + 1)
        × (marks (c.write_tapemark immediate t).1 ≡ marks t + 1)
  pub move :
      (low high : ℕ) (t : T) {n : ℕ}
      → displaced (position t) (last t) (signed64 low high) ≡ some n
      → Arrives position (c.set_tape_position filemarks 0 low high t) n
        × (marks (c.set_tape_position filemarks 0 low high t).1 ≡ marks t)

-- The filemarks that are written, and the position that is left, by what was done last.
abbrev pub marks_written : TapeCommand → ℕ
marks_written write_command = 2
marks_written filemark_command = 1
marks_written read_command = 0
marks_written none_of_the_above = 0

abbrev pub left_at : TapeCommand → Bool → ℕ → ℕ
left_at write_command eof at = at + 1
left_at filemark_command eof at = at
left_at read_command true at = at
left_at read_command false at = at + 1
left_at none_of_the_above eof at = at

module _ {T : Type 0} (c : Win32 T) (position last marks : T → ℕ)
    (keeps : KeepsMarks c position last marks) where
  -- The device stands at a position, and so many marks have been written.
  abbrev pub Stands : WindowsTapeDevice T → ℕ → ℕ → Type 0
  Stands s at count = (position s.tape_device ≡ at) × (marks s.tape_device ≡ count)

  marked :
      (s : WindowsTapeDevice T) {at count : ℕ}
      → Stands s at count
      → Stands (write_filemark c true s).1 (at + 1) (count + 1)
  unfolding write_filemark new_command
  marked s (at, count) =
      let ((_, next), more) = keeps.mark true s.tape_device in
      (next ∙ ap (λ n. n + 1) at, more ∙ ap (λ n. n + 1) count)

  back_one :
      (s : WindowsTapeDevice T) {at count : ℕ}
      → Stands s (at + 1) count
      → Stands (seek_filemarks c (current (negsuc 0)) s).1 at count
  unfolding seek_filemarks move_by move_tape new_seek
  back_one s {at} {count} (here, written) =
      let inside : leb 1 (at + 1) ≡ true = ground arith in
      let one : at + 1 - 1 ≡ at = omega arith in
      let ((_, next), same) =
        keeps.move 4294967295 4294967295 s.tape_device {n = at} (rw (here, inside, one) refl) in
      (next, same ∙ written)

  on_one :
      (s : WindowsTapeDevice T) {at count : ℕ}
      → position s.tape_device + 1 ≤ last s.tape_device
      → Stands s at count
      → Stands (seek_filemarks c (current (pos 1)) s).1 (at + 1) count
  unfolding seek_filemarks move_by move_tape new_seek
  on_one s {at} {count} within (here, written) =
      let ((_, next), same) =
        keeps.move 1 0 s.tape_device {n = position s.tape_device + 1}
          (rw (le→leb (position s.tape_device + 1) (last s.tape_device) within) refl) in
      (next ∙ ap (λ n. n + 1) here, same ∙ written)

  skipped :
      (eof : Bool) (s : WindowsTapeDevice T)
      → position s.tape_device + 1 ≤ last s.tape_device
      → Stands
          (skip_file c eof s)
          (left_at read_command eof (position s.tape_device))
          (marks s.tape_device)
  unfolding skip_file
  skipped true s within = (refl, refl)
  skipped false s within = on_one s within (refl, refl)

  dropped :
      (command : TapeCommand) (s : WindowsTapeDevice T)
      → (command ≡ read_command → position s.tape_device + 1 ≤ last s.tape_device)
      → Stands
          (drop_after c command s)
          (left_at command s.eof_condition (position s.tape_device))
          (marks s.tape_device + marks_written command)
  unfolding drop_after
  dropped write_command s within =
      let (at, count) =
        back_one (write_filemark c true (write_filemark c true s).1).1
          (marked (write_filemark c true s).1 (marked s (refl, refl))) in
      (at, count ∙ omega arith)
  dropped filemark_command s within = back_one (write_filemark c true s).1 (marked s (refl, refl))
  dropped read_command s within =
      let (at, count) = skipped s.eof_condition s (within refl) in (at, count ∙ omega arith)
  dropped none_of_the_above s within = (refl, omega arith)

  -- Take a tape on which the calls do what is documented of them; if the device has read last, there
  -- is a filemark ahead. Dropping a device that was written to last writes two filemarks and leaves the tape
  -- between them; after a filemark, it writes one more and leaves the tape in front of that one; after
  -- a read it goes on to the next filemark, unless the end of the file was reached; and in all other
  -- cases it does nothing.
  pub drop_device_lem :
      (s : WindowsTapeDevice T)
      → (s.last_command ≡ read_command → position s.tape_device + 1 ≤ last s.tape_device)
      → Stands
          (drop_device c s)
          (left_at s.last_command s.eof_condition (position s.tape_device))
          (marks s.tape_device + marks_written s.last_command)
  unfolding drop_device
  drop_device_lem s within = dropped s.last_command s within
