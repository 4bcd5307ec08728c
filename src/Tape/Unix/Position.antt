-- ===== src/Tape/Unix/Position.antt =====
-- librapidarchive/src/tape/unix.rs: the positions that the seeks reach.
use rapidtar.Prelude.{
  ℕ, ◌+◌, ◌-◌, ◌≤◌, ◌<◌, ◌≡◌, refl, sym, ap, ◌∙◌, Bool, true, false, Option, none, some, ltb, leb,
  if◌then◌else◌, arith, leb→le, Bool-cases, inl, inr,
}
use rapidtar.Io.{IoResult, ok, err}
use rapidtar.Tar.Serialize.{Effect, continue}
use rapidtar.Tape.Seek.{ℤ, pos, negsuc, SeekFrom, start, current, end, as_i32, as_i32_pos}
use rapidtar.Tape.Unix.{Libc, success, UnixTapeDevice, mtbsr, issue, conv_nix_error}
use rapidtar.Tape.Unix.Seek.{
  mtfsf, mtbsf, mtfsr, mtrew, mteom, mtseek, mtfss, mtbss, is_positive, seek_blocks, seek_marks,
  seek_filemarks, seek_setmarks,
}

-- What is documented of three operations on a tape: one goes forward by a number of units, one back,
-- and MTEOM goes to the end of the data, whatever its count. `position` is in these units, and `last`
-- is that of the end.
pub record Moves {T : Type 0} (c : Libc T) (position last : T → ℕ) (forward back : ℕ) : Type 0 where
  pub goes_forward :
      (n : ℕ) (t : T)
      → position t + n ≤ last t
      → ((c.mt_ioctop forward (pos n) t).0 ≡ success)
        × (position (c.mt_ioctop forward (pos n) t).1 ≡ position t + n)
  pub goes_back :
      (n : ℕ) (t : T)
      → n ≤ position t
      → ((c.mt_ioctop back (pos n) t).0 ≡ success)
        × (position (c.mt_ioctop back (pos n) t).1 ≡ position t - n)
  pub to_end :
      (k : ℤ) (t : T)
      → ((c.mt_ioctop mteom k t).0 ≡ success) × (position (c.mt_ioctop mteom k t).1 ≡ last t)

-- MTREW goes to the start, and the end stays where it is.
abbrev pub Rewinds : {T : Type 0} → Libc T → (T → ℕ) → (T → ℕ) → Type 0
Rewinds {T} c position last =
    (t : T)
    → ((c.mt_ioctop mtrew (pos 1) t).0 ≡ success)
      × (position (c.mt_ioctop mtrew (pos 1) t).1 ≡ 0)
      × (last (c.mt_ioctop mtrew (pos 1) t).1 ≡ last t)

-- MTSEEK goes to a block.
abbrev pub Locates : {T : Type 0} → Libc T → (T → ℕ) → (T → ℕ) → Type 0
Locates {T} c position last =
    (n : ℕ) (t : T)
    → n ≤ last t
    → ((c.mt_ioctop mtseek (pos n) t).0 ≡ success) × (position (c.mt_ioctop mtseek (pos n) t).1 ≡ n)

-- The position that a seek is to reach: counted from the start, on from the current one, or back from
-- the end. None where it is not on the tape, or where the count is negative.
abbrev pub target : SeekFrom → ℕ → ℕ → Option ℕ
target (start p) at last = if leb p last then some p else none
target (current (pos p)) at last = if leb (at + p) last then some (at + p) else none
target (current (negsuc p)) at last = none
target (end (pos p)) at last = if leb p last then some (last - p) else none
target (end (negsuc p)) at last = none

-- The count is an i32.
abbrev pub Fits : SeekFrom → Type 0
Fits (start p) = p < 2147483648
Fits (current (pos p)) = p < 2147483648
Fits (current (negsuc p)) = p < 2147483648
Fits (end (pos p)) = p < 2147483648
Fits (end (negsuc p)) = p < 2147483648

on_tape : (b : Bool) (m : ℕ) {n : ℕ} → (if b then some m else none) ≡ some n → (b ≡ true) × (m ≡ n)
on_tape true m h = (refl, cc)
on_tape false m h = absurd (cc)

module _ {T : Type 0} (c : Libc T) (position last : T → ℕ) where
  -- The call returns Ok, and leaves the tape at the position.
  abbrev pub Reaches : IoResult (Unit {0}) × UnixTapeDevice T → ℕ → Type 0
  Reaches result n = (result.0 ≡ ok tt) × (position result.1.tape_device ≡ n)

  issue-Reaches :
      (op : ℕ) (count : ℤ) (s : UnixTapeDevice T) {n : ℕ}
      → ((c.mt_ioctop op count s.tape_device).0 ≡ success)
        × (position (c.mt_ioctop op count s.tape_device).1 ≡ n)
      → Reaches (issue c op count s) n
  unfolding issue conv_nix_error
  issue-Reaches op count s (good, at) = (rw good refl, at)

  after_ok :
      (x : IoResult (Unit {0}) × UnixTapeDevice T)
      (next : Unit {0} → Effect (UnixTapeDevice T) (Unit {0})) {n : ℕ}
      → x.0 ≡ ok tt
      → Reaches (next tt x.1) n
      → Reaches (continue x next) n
  after_ok (ok _, s) next good reaches = reaches
  after_ok (err e, s) next good reaches = absurd (cc)

  -- A move by a count that fits, which the cast keeps.
  forward-Reaches :
      (fwd back p : ℕ) (s : UnixTapeDevice T)
      → Moves c position last fwd back
      → p < 2147483648
      → position s.tape_device + p ≤ last s.tape_device
      → Reaches (issue c fwd (as_i32 (pos p)) s) (position s.tape_device + p)
  forward-Reaches fwd back p s moves small within =
      rw (as_i32_pos p small)
        (issue-Reaches fwd (pos p) s (moves.goes_forward p s.tape_device within))

  back-Reaches :
      (fwd back p : ℕ) (s : UnixTapeDevice T)
      → Moves c position last fwd back
      → p < 2147483648
      → p ≤ position s.tape_device
      → Reaches (issue c back (as_i32 (pos p)) s) (position s.tape_device - p)
  back-Reaches fwd back p s moves small within =
      rw (as_i32_pos p small)
        (issue-Reaches back (pos p) s (moves.goes_back p s.tape_device within))

  current-Reaches :
      (fwd back p : ℕ) (s : UnixTapeDevice T)
      → Moves c position last fwd back
      → p < 2147483648
      → position s.tape_device + p ≤ last s.tape_device
      → Reaches
          (issue c (if is_positive (pos p) then fwd else back) (as_i32 (pos p)) s)
          (position s.tape_device + p)
  current-Reaches fwd back p s moves small within = elim (Bool-cases (ltb 0 p)) [
    | inl ahead ↦ rw ahead (forward-Reaches fwd back p s moves small within)
    | inr here ↦
        let (good, at) = back-Reaches fwd back p s moves small (ground arith) in
        rw here (good, at ∙ ground arith)
  ]

  end-Reaches :
      (fwd back p : ℕ) (s : UnixTapeDevice T)
      → Moves c position last fwd back
      → p < 2147483648
      → p ≤ last s.tape_device
      → Reaches
          (continue (issue c mteom (as_i32 (pos p)) s) (λ _ s'. issue c back (as_i32 (pos p)) s'))
          (last s.tape_device - p)
  end-Reaches fwd back p s moves small within =
      let (good, at) =
        issue-Reaches mteom (as_i32 (pos p)) s (moves.to_end (as_i32 (pos p)) s.tape_device) in
      let s' = (issue c mteom (as_i32 (pos p)) s).1 in
      let (good', at') = back-Reaches fwd back p s' moves small (omega (arith, at)) in
      after_ok (issue c mteom (as_i32 (pos p)) s) (λ _ s'. issue c back (as_i32 (pos p)) s') good
        (good', at' ∙ ap (λ n. n - p) at)

  -- Take a tape on which the operations do what is documented of them. A seek by blocks to a position
  -- on the tape, by a count that is not negative and is an i32, returns Ok and reaches it, whether it
  -- counts from the start, from the current position or from the end.
  pub seek_blocks_lem :
      (from : SeekFrom) (s : UnixTapeDevice T) {n : ℕ}
      → Moves c position last mtfsr mtbsr
      → Locates c position last
      → Fits from
      → target from (position s.tape_device) (last s.tape_device) ≡ some n
      → Reaches (seek_blocks c from s) n
  unfolding seek_blocks
  seek_blocks_lem (start p) s moves locates fits h =
      let (within, same) = on_tape (leb p (last s.tape_device)) p h in
      rw (as_i32_pos p fits, sym same)
        (issue-Reaches mtseek (pos p) s (locates p s.tape_device (leb→le _ _ within)))
  seek_blocks_lem (current (pos p)) s moves locates fits h =
      let at = position s.tape_device in
      let (within, same) = on_tape (leb (at + p) (last s.tape_device)) (at + p) h in
      rw (sym same) (current-Reaches mtfsr mtbsr p s moves fits (leb→le _ _ within))
  seek_blocks_lem (current (negsuc p)) s moves locates fits h = absurd (cc)
  seek_blocks_lem (end (pos p)) s moves locates fits h =
      let end_at = last s.tape_device in
      let (within, same) = on_tape (leb p end_at) (end_at - p) h in
      rw (sym same) (end-Reaches mtfsr mtbsr p s moves fits (leb→le _ _ within))
  seek_blocks_lem (end (negsuc p)) s moves locates fits h = absurd (cc)

  rewound :
      (fwd back p : ℕ) (s : UnixTapeDevice T)
      → Moves c position last fwd back
      → Rewinds c position last
      → p < 2147483648
      → p ≤ last s.tape_device
      → Reaches (continue (issue c mtrew (pos 1) s) (λ _ s'. issue c fwd (as_i32 (pos p)) s')) p
  unfolding issue
  rewound fwd back p s moves rewinds small within =
      let (done, at_start, kept) = rewinds s.tape_device in
      let (good, at) = issue-Reaches mtrew (pos 1) s (done, at_start) in
      let s' = (issue c mtrew (pos 1) s).1 in
      let (good', at') =
        forward-Reaches fwd back p s' moves small (omega (arith, at, kept, within)) in
      after_ok (issue c mtrew (pos 1) s) (λ _ s'. issue c fwd (as_i32 (pos p)) s') good
        (good', at' ∙ ap (λ n. n + p) at ∙ omega arith)

  -- The same of a seek by marks of one kind, where a seek from the start rewinds first.
  seek_marks-Reaches :
      (fwd back : ℕ) (from : SeekFrom) (s : UnixTapeDevice T) {n : ℕ}
      → Moves c position last fwd back
      → Rewinds c position last
      → Fits from
      → target from (position s.tape_device) (last s.tape_device) ≡ some n
      → Reaches (seek_marks c fwd back from s) n
  unfolding seek_marks
  seek_marks-Reaches fwd back (start p) s moves rewinds fits h =
      let (within, same) = on_tape (leb p (last s.tape_device)) p h in
      rw (sym same) (rewound fwd back p s moves rewinds fits (leb→le _ _ within))
  seek_marks-Reaches fwd back (current (pos p)) s moves rewinds fits h =
      let at = position s.tape_device in
      let (within, same) = on_tape (leb (at + p) (last s.tape_device)) (at + p) h in
      rw (sym same) (current-Reaches fwd back p s moves fits (leb→le _ _ within))
  seek_marks-Reaches fwd back (current (negsuc p)) s moves rewinds fits h = absurd (cc)
  seek_marks-Reaches fwd back (end (pos p)) s moves rewinds fits h =
      let end_at = last s.tape_device in
      let (within, same) = on_tape (leb p end_at) (end_at - p) h in
      rw (sym same) (end-Reaches fwd back p s moves fits (leb→le _ _ within))
  seek_marks-Reaches fwd back (end (negsuc p)) s moves rewinds fits h = absurd (cc)

  -- Take a tape on which the operations do what is documented of them, with positions in filemarks. A
  -- seek by filemarks to a position on the tape, by a count that is not negative and is an i32,
  -- returns Ok and reaches it.
  pub seek_filemarks_lem :
      (from : SeekFrom) (s : UnixTapeDevice T) {n : ℕ}
      → Moves c position last mtfsf mtbsf
      → Rewinds c position last
      → Fits from
      → target from (position s.tape_device) (last s.tape_device) ≡ some n
      → Reaches (seek_filemarks c from s) n
  unfolding seek_filemarks
  seek_filemarks_lem from s moves rewinds fits h =
      seek_marks-Reaches mtfsf mtbsf from s moves rewinds fits h

  -- The same of setmarks.
  seek_setmarks_lem :
      (from : SeekFrom) (s : UnixTapeDevice T) {n : ℕ}
      → Moves c position last mtfss mtbss
      → Rewinds c position last
      → Fits from
      → target from (position s.tape_device) (last s.tape_device) ≡ some n
      → Reaches (seek_setmarks c from s) n
  unfolding seek_setmarks
  seek_setmarks_lem from s moves rewinds fits h =
      seek_marks-Reaches mtfss mtbss from s moves rewinds fits h
