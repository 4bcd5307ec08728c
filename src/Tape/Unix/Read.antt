-- ===== src/Tape/Unix/Read.antt =====
-- librapidarchive/src/tape/unix.rs: `read` returns the bytes of a tape in order, and `read_block` a
-- block.
use rapidtar.Prelude.{
  ℕ, ◌+◌, ◌-◌, ◌≤◌, ◌<◌, ◌≡◌, ◌⊎◌, inl, inr, refl, sym, ap, ◌∙◌, some, List, [], ◌∷◌, ◌++◌, ◌==◌,
  ==_iff, length, take, drop, concat, All, arith, zero, suc, Bool-cases, ltb, append_assoc,
  append-nil, length-append, take-append_ge, drop-append_ge,
}
use rapidtar.Io.{Bytes, ok}
use rapidtar.Tape.Unix.{
  Libc, UnixTapeDevice, read_next_block, read_block, swap_block, take_block, next_copy, read_from,
  read,
}
use rapidtar.Tape.Unix.Stream.{pending, rounds, IsSpill, read_round_lem, spill_none, spill_some}
use rapidtar.Tape.Unix.Blocks.{IsTape, read_next_block_lem}

-- A round leaves fuel for those that are left.
still_enough :
    (len wrote copied rounds rounds' fuel : ℕ)
    → ((wrote ≡ len) × (0 < suc fuel)) ⊎ (rounds + 1 < suc fuel)
    → wrote < len
    → (copied ≡ len - wrote) ⊎ (rounds' < rounds)
    → ((wrote + copied ≡ len) × (0 < fuel)) ⊎ (rounds' + 1 < fuel)
still_enough len wrote copied rounds rounds' fuel (inl (all, _)) more fewer = absurd (omega arith)
still_enough len wrote copied rounds rounds' fuel (inr enough) more (inl fills) =
    inl (omega arith, omega arith)
still_enough len wrote copied rounds rounds' fuel (inr enough) more (inr fewer) = inr (omega arith)

take_on :
    (wrote b p : Bytes) (remain : ℕ)
    → length b ≤ remain
    → (wrote ++ b) ++ take (remain - length b) p ≡ wrote ++ take remain (b ++ p)
take_on wrote b p remain few =
    append_assoc wrote b (take (remain - length b) p)
    ∙ ap (λ x. wrote ++ x) (sym (take-append_ge remain b p few))

module _ {T : Type 0} (blocks : T → List Bytes) (c : Libc T) (tape : IsTape c blocks) where
  read_from_lem :
      (fuel inner len : ℕ) (wrote : Bytes) (s : UnixTapeDevice T)
      → 0 < inner
      → IsSpill blocks s
      → All (λ x. length x ≤ inner) (blocks s.tape_device)
      → length wrote ≤ len
      → len - length wrote ≤ length (pending blocks s)
      → ((length wrote ≡ len) × (0 < fuel)) ⊎ (rounds blocks s + 1 < fuel)
      → (s' : UnixTapeDevice T) × (read_from c fuel inner len wrote s
          ≡ some (ok (wrote ++ take (len - length wrote) (pending blocks s)), s'))
        × IsSpill blocks s'
        × (pending blocks s' ≡ drop (len - length wrote) (pending blocks s))
  unfolding read_from next_copy
  read_from_lem zero inner len wrote s some_fuel ready small within enough rest =
      absurd (elim rest [ inl (_, h) ↦ omega arith | inr h ↦ omega arith ])
  read_from_lem (suc fuel) inner len wrote s some_fuel ready small within enough rest =
      elim (Bool-cases (ltb (length wrote) len)) [
        | inl more ↦
            let remain = len - length wrote in
            let (b, s₁, round, copied) =
              read_round_lem blocks c tape inner remain s some_fuel (ground arith) enough ready
                small in
            let size = ap length copied.split ∙ length-append b (pending blocks s₁) in
            let left : len - length (wrote ++ b) ≡ remain - length b =
              omega (arith, length-append wrote b) in
            let (s₂, reads, ready', after) =
              read_from_lem fuel inner len (wrote ++ b) s₁ some_fuel copied.spilled copied.bounded
                (omega (arith, length-append wrote b, copied.few))
                (omega (arith, left, size, enough))
                (rw (length-append wrote b) (
                  still_enough len (length wrote) (length b) (rounds blocks s) (rounds blocks s₁)
                    fuel rest (ground arith) copied.fewer)) in
            (
              s₂,
              rw (more, round)
                  (reads
                    ∙ ap (λ x. some (ok x, s₂))
                        (ap (λ n. (wrote ++ b) ++ take n (pending blocks s₁)) left
                          ∙ take_on wrote b (pending blocks s₁) remain copied.few
                          ∙ ap (λ x. wrote ++ take remain x) (sym copied.split))),
              ready',
              after
                  ∙ ap (λ n. drop n (pending blocks s₁)) left
                  ∙ sym (drop-append_ge remain b (pending blocks s₁) copied.few)
                  ∙ ap (drop remain) (sym copied.split),
            )
        | inr done ↦
            let full : len - length wrote ≡ 0 = ground arith in
            (
              s,
              rw (done, full) (ap (λ x. some (ok x, s)) (sym (append-nil wrote))),
              ready,
              rw full refl,
            )
      ]

  -- Take a tape that answers as documented, and a device with room to read, whose buffer holds unread
  -- bytes if it was read in part. Where `len` bytes are ahead, a read of `len` bytes returns exactly
  -- the next `len` of them, across the bounds of the blocks, and leaves the others ahead. Enough fuel
  -- is one round for each block ahead and three more, and one for each byte of the longest block.
  pub read_lem :
      (fuel inner len : ℕ) (s : UnixTapeDevice T)
      → 0 < inner
      → IsSpill blocks s
      → All (λ x. length x ≤ inner) (blocks s.tape_device)
      → len ≤ length (pending blocks s)
      → length (blocks s.tape_device) + 2 < fuel
      → (s' : UnixTapeDevice T) × (read c fuel inner len s
          ≡ some (ok (take len (pending blocks s)), s'))
        × IsSpill blocks s'
        × (pending blocks s' ≡ drop len (pending blocks s))
  unfolding read
  read_lem fuel inner len s some_fuel ready small enough rest =
      let whole : len - length {A = ℕ} [] ≡ len = omega arith in
      let (s', reads, ready', after) =
        read_from_lem fuel inner len [] s some_fuel ready small (omega arith)
          (omega (arith, enough)) (inr (ground (arith, rest))) in
      (
        s',
        reads ∙ ap (λ n. some (ok (take n (pending blocks s)), s')) whole,
        ready',
        after ∙ ap (λ n. drop n (pending blocks s)) whole,
      )

  emptied : (s : UnixTapeDevice T) → 0 < s.capacity → IsSpill blocks (take_block c s).1
  unfolding take_block
  emptied s some_room = record {
    room = omega (arith, some_room, tape.with_capacity_ge s.capacity);
    inside = inl refl;
  }

  block_taken :
      (fuel : ℕ) (s : UnixTapeDevice T) (ahead : List Bytes)
      → 0 < fuel
      → IsSpill blocks s
      → s.block_spill_read_pos ≡ 0
      → blocks s.tape_device ≡ ahead
      → All (λ x. length x ≤ fuel) ahead
      → 0 < length (pending blocks s)
      → (b : Bytes) × (s' : UnixTapeDevice T) × (swap_block c (read_next_block c fuel s)
          ≡ some (ok b, s'))
        × IsSpill blocks s'
        × (s'.block_spill_read_pos ≡ 0)
        × (pending blocks s ≡ b ++ pending blocks s')
  unfolding swap_block take_block
  block_taken fuel s [] some_fuel ready start at small enough =
      absurd (omega (arith, ap length (spill_none blocks s start ∙ ap concat at)))
  block_taken fuel s (b ∷ bs) some_fuel ready start at (fits, small) enough =
      let (s₁, reads, has) =
        read_next_block_lem c blocks tape fuel s b bs at ready.room some_fuel
          (omega (arith, fits, ready.room)) in
      (
        s₁.block_spill_buffer,
        (take_block c s₁).1,
        rw reads refl,
        emptied s₁ (omega (arith, ready.room, has.room)),
        refl,
        spill_none blocks s start
            ∙ ap concat at
            ∙ sym (
                ap (λ x. s₁.block_spill_buffer ++ concat x) has.ahead
                ∙ ap (λ x. x ++ concat bs) has.buffer),
      )

  -- Take a device as for `read`, with bytes ahead. `read_block` returns a block, of which earlier
  -- reads returned the first `block_spill_read_pos` bytes; the others are the next bytes ahead.
  pub read_block_lem :
      (fuel : ℕ) (s : UnixTapeDevice T)
      → 0 < fuel
      → IsSpill blocks s
      → All (λ x. length x ≤ fuel) (blocks s.tape_device)
      → 0 < length (pending blocks s)
      → (b : Bytes) × (s' : UnixTapeDevice T) × (read_block c fuel s ≡ some (ok b, s'))
        × IsSpill blocks s'
        × (s'.block_spill_read_pos ≡ 0)
        × (pending blocks s ≡ drop s.block_spill_read_pos b ++ pending blocks s')
  unfolding read_block swap_block take_block
  read_block_lem fuel s some_fuel ready small enough =
      elim (Bool-cases (s.block_spill_read_pos == 0)) [
        | inl none_read ↦
            let start = (==_iff s.block_spill_read_pos 0).0 none_read in
            let (b, s', reads, ready', at, split) =
              block_taken fuel s (blocks s.tape_device) some_fuel ready start refl small enough in
            (
              b,
              s',
              rw none_read reads,
              ready',
              at,
              split ∙ ap (λ n. drop n b ++ pending blocks s') (sym start),
            )
        | inr some_read ↦ (
          s.block_spill_buffer,
          (take_block c s).1,
          rw some_read refl,
          emptied s ready.room,
          refl,
          spill_some blocks s (ground arith),
        )
      ]
