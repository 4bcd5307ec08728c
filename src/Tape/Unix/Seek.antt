-- ===== src/Tape/Unix/Seek.antt =====
-- librapidarchive/src/tape/unix.rs: the seeks, and the operations that they issue.
use rapidtar.Prelude.{ℕ, Bool, false, ltb, if◌then◌else◌}
use rapidtar.Io.{ok}
use rapidtar.Tar.Serialize.{Effect, continue}
use rapidtar.Tape.Seek.{ℤ, pos, negsuc, SeekFrom, start, current, end, as_i32}
use rapidtar.Tape.Unix.{Libc, UnixTapeDevice, mtbsr, issue}

abbrev pub mtfsf : ℕ
mtfsf = 1

abbrev pub mtbsf : ℕ
mtbsf = 2

abbrev pub mtfsr : ℕ
mtfsr = 3

abbrev pub mtweof : ℕ
mtweof = 5

abbrev pub mtrew : ℕ
mtrew = 6

abbrev pub mteom : ℕ
mteom = 12

abbrev pub mtseek : ℕ
mtseek = 22

abbrev pub mtfss : ℕ
mtfss = 25

abbrev pub mtbss : ℕ
mtbss = 26

abbrev pub mtsetpart : ℕ
mtsetpart = 33

-- `pos > 0`
abbrev pub is_positive : ℤ → Bool
is_positive (pos n) = ltb 0 n
is_positive (negsuc n) = false

module _ {T : Type 0} (c : Libc T) where
  unfoldable pub write_filemark : Effect (UnixTapeDevice T) (Unit {0})
  write_filemark s = issue c mtweof (pos 1) s

  unfoldable pub seek_blocks : SeekFrom → Effect (UnixTapeDevice T) (Unit {0})
  seek_blocks (start p) s = issue c mtseek (as_i32 (pos p)) s
  seek_blocks (current p) s = issue c (if is_positive p then mtfsr else mtbsr) (as_i32 p) s
  seek_blocks (end p) s =
      continue (issue c mteom (as_i32 p) s) (λ _ s'. issue c mtbsr (as_i32 p) s')

  unfoldable pub tell_blocks : Effect (UnixTapeDevice T) ℕ
  tell_blocks s = (ok 0, s)

  -- `seek_filemarks` and `seek_setmarks`, which differ in the operations for one mark.
  unfoldable pub seek_marks : ℕ → ℕ → SeekFrom → Effect (UnixTapeDevice T) (Unit {0})
  seek_marks forward back (start p) s =
      continue (issue c mtrew (pos 1) s) (λ _ s'. issue c forward (as_i32 (pos p)) s')
  seek_marks forward back (current p) s =
      issue c (if is_positive p then forward else back) (as_i32 p) s
  seek_marks forward back (end p) s =
      continue (issue c mteom (as_i32 p) s) (λ _ s'. issue c back (as_i32 p) s')

  unfoldable pub seek_filemarks : SeekFrom → Effect (UnixTapeDevice T) (Unit {0})
  seek_filemarks p s = seek_marks mtfsf mtbsf p s

  unfoldable pub seek_setmarks : SeekFrom → Effect (UnixTapeDevice T) (Unit {0})
  seek_setmarks p s = seek_marks mtfss mtbss p s

  unfoldable pub seek_partition : ℕ → Effect (UnixTapeDevice T) (Unit {0})
  seek_partition id s = issue c mtsetpart (as_i32 (pos id)) s
