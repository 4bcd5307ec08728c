-- ===== src/Rapidmt.antt =====
-- rapidtar/src/bin/rapidmt.rs: the commands of rapidmt, over a tape device.
pub mod Marks
use rapidtar.Prelude.{
  ℕ, ◌+◌, ◌%◌, Bool, true, false, Option, none, some, List, [], ◌∷◌, ◌==◌, ◌&&◌, if◌then◌else◌,
  zero, suc,
}
use rapidtar.Io.{Bytes, IoResult, ok, err, invalid_input}
use rapidtar.Tar.Serialize.{Effect, continue}
use rapidtar.Tape.Seek.{ℤ, pos, negsuc, start, current, end, negate, as_u64, as_u32}
use rapidtar.Tape.Device.{TapeDevice}

-- The arms of the match, by their names.
pub data Command : Type 0 where
  fsf_command fsfm_command bsf_command bsfm_command asf_command rewind_command eod_command
        fsr_command bsr_command asr_command tell_command setpartition_command read_command
        write_command weof_command eof_command :
      Command

abbrev bytes_eq : Bytes → Bytes → Bool
bytes_eq [] [] = true
bytes_eq (x ∷ xs) (y ∷ ys) = (x == y) && bytes_eq xs ys
bytes_eq _ _ = false

abbrev names : List (Bytes × Command)
names =
    (b'f' ∷ b's' ∷ b'f' ∷ [], fsf_command)
    ∷ (b'f' ∷ b's' ∷ b'f' ∷ b'm' ∷ [], fsfm_command)
    ∷ (b'b' ∷ b's' ∷ b'f' ∷ [], bsf_command)
    ∷ (b'b' ∷ b's' ∷ b'f' ∷ b'm' ∷ [], bsfm_command)
    ∷ (b'a' ∷ b's' ∷ b'f' ∷ [], asf_command)
    ∷ (b'r' ∷ b'e' ∷ b'w' ∷ b'i' ∷ b'n' ∷ b'd' ∷ [], rewind_command)
    ∷ (b'e' ∷ b'o' ∷ b'd' ∷ [], eod_command)
    ∷ (b'f' ∷ b's' ∷ b'r' ∷ [], fsr_command)
    ∷ (b'b' ∷ b's' ∷ b'r' ∷ [], bsr_command)
    ∷ (b'a' ∷ b's' ∷ b'r' ∷ [], asr_command)
    ∷ (b't' ∷ b'e' ∷ b'l' ∷ b'l' ∷ [], tell_command)
    ∷ (
      b's' ∷ b'e' ∷ b't' ∷ b'p' ∷ b'a' ∷ b'r' ∷ b't' ∷ b'i' ∷ b't' ∷ b'i' ∷ b'o' ∷ b'n' ∷ [],
      setpartition_command,
    )
    ∷ (b'r' ∷ b'e' ∷ b'a' ∷ b'd' ∷ [], read_command)
    ∷ (b'w' ∷ b'r' ∷ b'i' ∷ b't' ∷ b'e' ∷ [], write_command)
    ∷ (b'w' ∷ b'e' ∷ b'o' ∷ b'f' ∷ [], weof_command)
    ∷ (b'e' ∷ b'o' ∷ b'f' ∷ [], eof_command)
    ∷ []

abbrev find_command : List (Bytes × Command) → Bytes → Option Command
find_command [] text = none
find_command ((name, command) ∷ rest) text =
    let found = find_command rest text in if bytes_eq text name then some command else found

-- `match command.as_ref()`
unfoldable pub command_of : Bytes → Option Command
command_of text = find_command names text

-- How often `for _ in 0..count` runs.
abbrev pub times : ℤ → ℕ
times (pos n) = n
times (negsuc n) = 0

module _ {D : Type 0} (t : TapeDevice D) where
  -- `for _ in 0..count { tapedevice.write_filemark(true)? }; Ok(())`
  unfoldable pub write_filemarks : ℕ → Effect D (Unit {0})
  write_filemarks zero d = (ok tt, d)
  write_filemarks (suc n) d = continue (t.write_filemark true d) (λ _ d'. write_filemarks n d')

  -- `copy_from` and `copy_to` copy the tape to the file of the option `-o` or to the standard output,
  -- and back.
  unfoldable pub execute :
      Effect D (Unit {0}) → Effect D (Unit {0}) → Command → ℤ → Effect D (Unit {0})
  execute copy_from copy_to fsf_command count d = t.seek_filemarks (current count) d
  execute copy_from copy_to fsfm_command count d =
      continue (t.seek_filemarks (current count) d)
        (λ _ d'. t.seek_filemarks (current (negsuc 0)) d')
  execute copy_from copy_to bsf_command count d = t.seek_filemarks (current (negate count)) d
  execute copy_from copy_to bsfm_command count d =
      continue (t.seek_filemarks (current (negate count)) d)
        (λ _ d'. t.seek_filemarks (current (pos 1)) d')
  execute copy_from copy_to asf_command count d = t.seek_filemarks (start (as_u64 count)) d
  execute copy_from copy_to rewind_command count d = t.seek_filemarks (start 0) d
  execute copy_from copy_to eod_command count d = t.seek_filemarks (end (pos 0)) d
  execute copy_from copy_to fsr_command count d = t.seek_blocks (current count) d
  execute copy_from copy_to bsr_command count d = t.seek_blocks (current (negate count)) d
  execute copy_from copy_to asr_command count d = t.seek_blocks (start (as_u64 count)) d
  execute copy_from copy_to tell_command count d = continue (t.tell_blocks d) (λ _ d'. (ok tt, d'))
  execute copy_from copy_to setpartition_command count d =
      t.seek_partition ((as_u32 count + 1) % 4294967296) d
  execute copy_from copy_to read_command count d = copy_from d
  execute copy_from copy_to write_command count d = copy_to d
  execute copy_from copy_to weof_command count d = write_filemarks (times count) d
  execute copy_from copy_to eof_command count d = write_filemarks (times count) d

  -- The command line's command.
  unfoldable pub run_command :
      Effect D (Unit {0}) → Effect D (Unit {0}) → Bytes → ℤ → Effect D (Unit {0})
  run_command copy_from copy_to text count d = elim (command_of text) [
    | none ↦ (err invalid_input, d)
    | some command ↦ execute copy_from copy_to command count d
  ]

  -- `main`, behind the parser of its arguments; `opened` is what `open_tape` yields. None: it panics.
  unfoldable pub rapidmt :
      Bytes
      → IoResult D
      → Effect D (Unit {0})
      → Effect D (Unit {0})
      → Bytes
      → ℤ
      → Option (IoResult (Unit {0}))
  rapidmt [] opened copy_from copy_to text count = some (err invalid_input)
  rapidmt (_ ∷ _) (err e) copy_from copy_to text count = none
  rapidmt (_ ∷ _) (ok d) copy_from copy_to text count =
      some (run_command copy_from copy_to text count d).0
