-- ===== src/Tape/Windows/Position.antt =====
-- librapidarchive/src/tape/windows.rs: the positions that the seeks reach.
use rapidtar.Prelude.{
  ℕ, ◌+◌, ◌-◌, ◌*◌, ◌/◌, ◌%◌, ◌≤◌, ◌<◌, ◌≡◌, refl, ◌∙◌, Bool, true, false, Option, none, some, ltb,
  leb, if◌then◌else◌, arith, leb→le, lt→ltb, le→leb, suc, zero, u64_mod,
}
use rapidtar.Io.{IoResult, ok, err}
use rapidtar.Tar.Serialize.{Effect, continue}
use rapidtar.Tape.Seek.{ℤ, pos, negsuc, SeekFrom, start, current, end, negate, as_u64}
use rapidtar.Tape.Windows.{
  Win32, WinResult, granted, Operation, logical_block, relative_blocks, end_of_data,
  WindowsTapeDevice, handle_seek_error, move_tape, move_by, new_seek, seek_blocks,
}

-- The integer that two halves stand for.
abbrev pub signed64 : ℕ → ℕ → ℤ
signed64 low high =
    if ltb (high * 4294967296 + low) 9223372036854775808
    then pos (high * 4294967296 + low)
    else negsuc (18446744073709551615 - (high * 4294967296 + low))

-- Where a move by a number of units leads to. None: before the start, or behind the end.
abbrev pub displaced : ℕ → ℕ → ℤ → Option ℕ
displaced at last (pos n) = if leb (at + n) last then some (at + n) else none
displaced at last (negsuc n) = if leb (suc n) at then some (at - suc n) else none

-- What is documented of a call on a tape: it succeeds, and leaves the tape at a position.
abbrev pub Arrives : {T : Type 0} → (T → ℕ) → WinResult (Unit {0}) × T → ℕ → Type 0
Arrives position result n = (result.0 ≡ granted tt) × (position result.1 ≡ n)

-- The operation for a relative move takes a number of units with a sign; that for the end of the data
-- goes to the position `last`; that for a block takes the block's number.
pub record Moves {T : Type 0} (c : Win32 T) (position last : T → ℕ) (relative : Operation)
    : Type 0 where
  pub relative_move :
      (low high : ℕ) (t : T) {n : ℕ}
      → displaced (position t) (last t) (signed64 low high) ≡ some n
      → Arrives position (c.set_tape_position relative 0 low high t) n
  pub to_end :
      (t : T)
      → Arrives position (c.set_tape_position end_of_data 0 0 0 t) (last t)
        × (last (c.set_tape_position end_of_data 0 0 0 t).1 ≡ last t)

abbrev pub Locates : {T : Type 0} → Win32 T → (T → ℕ) → (T → ℕ) → Type 0
Locates {T} c position last =
    (low high : ℕ) (t : T)
    → high * 4294967296 + low ≤ last t
    → Arrives position (c.set_tape_position logical_block 0 low high t) (high * 4294967296 + low)

-- The position that a seek is to reach: counted from the start, from the current one in either
-- direction, or back from the end. None where it is not on the tape.
abbrev pub target : SeekFrom → ℕ → ℕ → Option ℕ
target (start p) at last = if leb p last then some p else none
target (current p) at last = displaced at last p
target (end (pos p)) at last = if leb p last then some (last - p) else none
target (end (negsuc p)) at last = none

-- The count is an i64, or a u64.
abbrev pub Fits : SeekFrom → Type 0
Fits (start p) = p < u64_mod
Fits (current (pos p)) = p < 9223372036854775808
Fits (current (negsuc p)) = p < 9223372036854775808
Fits (end (pos p)) = p < 9223372036854775808
Fits (end (negsuc p)) = p < 9223372036854775808

-- The halves of a count stand for the count.
signed64-as_u64 :
    (k : ℤ) → Fits (current k) → signed64 (as_u64 k % 4294967296) (as_u64 k / 4294967296) ≡ k
signed64-as_u64 (pos n) small =
    let whole : n / 4294967296 * 4294967296 + n % 4294967296 ≡ n = omega arith in
    rw (whole, lt→ltb n 9223372036854775808 small) refl
signed64-as_u64 (negsuc n) small =
    let word = 18446744073709551615 - n in
    let whole : word / 4294967296 * 4294967296 + word % 4294967296 ≡ word = omega arith in
    let big : ltb word 9223372036854775808 ≡ false = ground arith in
    let back : 18446744073709551615 - word ≡ n = omega arith in rw (whole, big, back) refl

on_tape : (b : Bool) (m : ℕ) {n : ℕ} → (if b then some m else none) ≡ some n → (b ≡ true) × (m ≡ n)
on_tape true m h = (refl, cc)
on_tape false m h = absurd (cc)

module _ {T : Type 0} (c : Win32 T) (position last : T → ℕ) where
  -- The call returns Ok, and leaves the tape at the position.
  abbrev pub Reaches : IoResult (Unit {0}) × WindowsTapeDevice T → ℕ → Type 0
  Reaches result n = (result.0 ≡ ok tt) × (position result.1.tape_device ≡ n)

  move_tape-Reaches :
      (op : Operation) (partition low high : ℕ) (s : WindowsTapeDevice T) {n : ℕ}
      → Arrives position (c.set_tape_position op partition low high s.tape_device) n
      → Reaches (move_tape c op partition low high s) n
  unfolding move_tape handle_seek_error
  move_tape-Reaches op partition low high s (good, at) = (rw good refl, at)

  after_ok :
      (x : IoResult (Unit {0}) × WindowsTapeDevice T)
      (next : Unit {0} → Effect (WindowsTapeDevice T) (Unit {0})) {n : ℕ}
      → x.0 ≡ ok tt
      → Reaches (next tt x.1) n
      → Reaches (continue x next) n
  after_ok (ok _, s) next good reaches = reaches
  after_ok (err e, s) next good reaches = absurd (cc)

  relative-Reaches :
      (op : Operation) (k : ℤ) (s : WindowsTapeDevice T) {n : ℕ}
      → Moves c position last op
      → Fits (current k)
      → displaced (position s.tape_device) (last s.tape_device) k ≡ some n
      → Reaches (move_by c op k s) n
  unfolding move_by
  relative-Reaches op k s moves small h =
      move_tape-Reaches op 0 (as_u64 k % 4294967296) (as_u64 k / 4294967296) s (
        moves.relative_move (as_u64 k % 4294967296) (as_u64 k / 4294967296) s.tape_device
          (rw (signed64-as_u64 k small) h))

  negate-Fits : (p : ℕ) → p < 9223372036854775808 → Fits (current (negate (pos p)))
  negate-Fits zero small = small
  negate-Fits (suc p) small = omega (arith, small)

  back_from : (at p : ℕ) {m : ℕ} → p ≤ at → at - p ≡ m → displaced at at (negate (pos p)) ≡ some m
  back_from at zero {m} within same =
      let here : leb (at + 0) at ≡ true = ground arith in
      let none_back : at + 0 ≡ m = omega (arith, same) in rw (here, none_back) refl
  back_from at (suc p) within same = rw (le→leb (suc p) at within, same) refl

  -- Take a tape on which the calls do what is documented of them. A seek by blocks to a position on the
  -- tape, by a count of 64 bits in either direction from the current position, from the start, or back
  -- from the end, returns Ok and reaches it.
  pub seek_blocks-Reaches :
      (from : SeekFrom) (s : WindowsTapeDevice T) {n : ℕ}
      → Moves c position last relative_blocks
      → Locates c position last
      → Fits from
      → target from (position s.tape_device) (last s.tape_device) ≡ some n
      → Reaches (seek_blocks c from s) n
  unfolding seek_blocks move_by move_tape new_seek
  seek_blocks-Reaches (start p) s moves locates fits h =
      let (within, same) = on_tape (leb p (last s.tape_device)) p h in
      let whole : p / 4294967296 * 4294967296 + p % 4294967296 ≡ p = omega arith in
      let (good, at) =
        locates (p % 4294967296) (p / 4294967296) s.tape_device
          (omega (arith, whole, leb→le _ _ within)) in
      move_tape-Reaches logical_block 0 (p % 4294967296) (p / 4294967296) (new_seek c s)
        (good, at ∙ whole ∙ same)
  seek_blocks-Reaches (current p) s moves locates fits h =
      relative-Reaches relative_blocks p (new_seek c s) moves fits h
  seek_blocks-Reaches (end (pos p)) s moves locates fits h =
      let end_at = last s.tape_device in
      let (within, same) = on_tape (leb p end_at) (end_at - p) h in
      let (arrives, kept) = moves.to_end s.tape_device in
      let (good, at) = move_tape-Reaches end_of_data 0 0 0 (new_seek c s) arrives in
      after_ok (move_tape c end_of_data 0 0 0 (new_seek c s))
        (λ _ s'. move_by c relative_blocks (negate (pos p)) s') good
        (relative-Reaches relative_blocks (negate (pos p))
          (move_tape c end_of_data 0 0 0 (new_seek c s)).1 moves (negate-Fits p fits)
          (rw (at, kept) (back_from end_at p (leb→le _ _ within) same)))
  seek_blocks-Reaches (end (negsuc p)) s moves locates fits h = absurd (cc)
