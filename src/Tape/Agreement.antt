-- ===== src/Tape/Agreement.antt =====
-- librapidarchive/src/tape/unix.rs and windows.rs: both devices seek to the same blocks.
use rapidtar.Prelude.{ℕ, ◌≡◌, sym, ◌∙◌, some, arith}
use rapidtar.Io.{ok}
use rapidtar.Tape.Seek.{pos, negsuc, SeekFrom, start, current, end}
use rapidtar.Tape.Unix.{Libc, UnixTapeDevice, mtbsr}
use rapidtar.Tape.Unix.Seek.{mtfsr}
use rapidtar.Tape.Unix.Seek
use rapidtar.Tape.Unix.Position as UnixPosition
use rapidtar.Tape.Windows
use rapidtar.Tape.Windows.{Win32, WindowsTapeDevice, relative_blocks}
use rapidtar.Tape.Windows.Position as WindowsPosition

-- A count that fits one device fits the other, and leads to the same block.
Fits-both : (from : SeekFrom) → UnixPosition.Fits from → WindowsPosition.Fits from
Fits-both (start p) small = omega (arith, small)
Fits-both (current (pos p)) small = omega (arith, small)
Fits-both (current (negsuc p)) small = omega (arith, small)
Fits-both (end (pos p)) small = omega (arith, small)
Fits-both (end (negsuc p)) small = omega (arith, small)

target_both :
    (from : SeekFrom) (at last : ℕ) {n : ℕ}
    → UnixPosition.target from at last ≡ some n
    → WindowsPosition.target from at last ≡ some n
target_both (start p) at last h = h
target_both (current (pos p)) at last h = h
target_both (current (negsuc p)) at last h = absurd (cc)
target_both (end (pos p)) at last h = h
target_both (end (negsuc p)) at last h = absurd (cc)

-- Take a Unix and a Windows device at the same block of tapes of the same length, whose calls do what is
-- documented of them. A seek by blocks to a block of the tape, by a count that is not negative and is
-- an i32, returns Ok on both, and leaves both at the same block.
pub seek_blocks_agree :
    {T V : Type 0} (c : Libc T) (w : Win32 V) (at_unix last_unix : T → ℕ)
    (at_windows last_windows : V → ℕ) (from : SeekFrom) (s : UnixTapeDevice T)
    (v : WindowsTapeDevice V) {n : ℕ}
    → UnixPosition.Moves c at_unix last_unix mtfsr mtbsr
    → UnixPosition.Locates c at_unix last_unix
    → WindowsPosition.Moves w at_windows last_windows relative_blocks
    → WindowsPosition.Locates w at_windows last_windows
    → at_unix s.tape_device ≡ at_windows v.tape_device
    → last_unix s.tape_device ≡ last_windows v.tape_device
    → UnixPosition.Fits from
    → UnixPosition.target from (at_unix s.tape_device) (last_unix s.tape_device) ≡ some n
    → ((Seek.seek_blocks c from s).0 ≡ ok tt)
      × ((Windows.seek_blocks w from v).0 ≡ ok tt)
      × (at_unix (Seek.seek_blocks c from s).1.tape_device
          ≡ at_windows (Windows.seek_blocks w from v).1.tape_device)
seek_blocks_agree c w at_unix last_unix at_windows last_windows from s v {n} moves locates moves'
      locates' same_at same_last fits h =
    let (good, at) = UnixPosition.seek_blocks_lem c at_unix last_unix from s moves locates fits h in
    let there : WindowsPosition.target from (at_windows v.tape_device) (last_windows v.tape_device)
        ≡ some n =
      target_both from (at_windows v.tape_device) (last_windows v.tape_device)
        (rw (sym same_at, sym same_last) h) in
    let (good', at') =
      WindowsPosition.seek_blocks-Reaches w at_windows last_windows from v moves' locates'
        (Fits-both from fits) there in
    (good, good', at ∙ sym at')
