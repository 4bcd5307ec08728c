-- ===== src/Tape/Unix/Blocks.antt =====
-- librapidarchive/src/tape/unix.rs: a block is read whole, however long it is.
use rapidtar.Prelude.{
  ℕ, ◌+◌, ◌*◌, ◌≤◌, ◌<◌, ◌≡◌, inl, inr, refl, ap, ◌∙◌, none, some, List, ◌∷◌, ◌==◌, length, arith,
  zero, suc, Bool-cases, leb, leb→le, leb_false→lt, true, ==_iff,
}
use rapidtar.Io.{Bytes, ok}
use rapidtar.Tape.Seek.{pos}
use rapidtar.Tape.Unix.{
  Libc, SysResult, done, errno, success, UnixTapeDevice, mtbsr, conv_nix_error, issue,
  grow_and_back, keep_going, or_again, read_result, read_next_block,
}

-- What is documented of the calls, for a tape whose blocks ahead are `blocks`: a read with room for
-- the next block yields it; one with less room fails with ENOMEM, and MTBSR goes back to the start of
-- that block. A vector has room for what was reserved.
pub record IsTape {T : Type 0} (c : Libc T) (blocks : T → List Bytes) : Type 0 where
  pub read_fits :
      (room : ℕ) (t : T) (b : Bytes) (bs : List Bytes)
      → blocks t ≡ b ∷ bs
      → length b ≤ room
      → ((c.read room t).0 ≡ done b) × (blocks (c.read room t).1 ≡ bs)
  pub read_short :
      (room : ℕ) (t : T) (b : Bytes) (bs : List Bytes)
      → blocks t ≡ b ∷ bs
      → room < length b
      → ((c.read room t).0 ≡ errno c.enomem)
        × ((c.mt_ioctop mtbsr (pos 1) (c.read room t).1).0 ≡ success)
        × (blocks (c.mt_ioctop mtbsr (pos 1) (c.read room t).1).1 ≡ b ∷ bs)
  pub reserve_ge : (len room more : ℕ) → len + more ≤ c.reserve len room more
  pub with_capacity_ge : (n : ℕ) → n ≤ c.with_capacity n

done_inj : {A : Type 0} {a b : A} → done a ≡ done b → a ≡ b
done_inj h = cc

module _ {T : Type 0} (c : Libc T) (blocks : T → List Bytes) (tape : IsTape c blocks) where
  -- The block `b` has been read, and the blocks `bs` are ahead.
  pub record HasRead (s : UnixTapeDevice T) (b : Bytes) (bs : List Bytes) (s' : UnixTapeDevice T)
      : Type 0 where
    pub buffer : s'.block_spill_buffer ≡ b
    pub ahead : blocks s'.tape_device ≡ bs
    pub position : s'.block_spill_read_pos ≡ s.block_spill_read_pos
    pub room : s.capacity ≤ s'.capacity

  backed :
      (s : UnixTapeDevice T) (r : SysResult Bytes × T) (b : Bytes) (bs : List Bytes)
      → r.0 ≡ errno c.enomem
      → (c.mt_ioctop mtbsr (pos 1) r.1).0 ≡ success
      → blocks (c.mt_ioctop mtbsr (pos 1) r.1).1 ≡ b ∷ bs
      → (s' : UnixTapeDevice T) × (read_result c r s ≡ (none, s'))
        × (blocks s'.tape_device ≡ b ∷ bs)
        × (s'.block_spill_read_pos ≡ s.block_spill_read_pos)
        × (s.capacity * 2 ≤ s'.capacity)
  unfolding read_result grow_and_back issue conv_nix_error keep_going
  backed s (done x, t) b bs short back at = absurd (cc)
  backed s (errno e, t) b bs short back at =
      let more = tape.reserve_ge (length s.block_spill_buffer) s.capacity (s.capacity * 2) in
      let same : (e == c.enomem) ≡ true = (==_iff e c.enomem).1 (cc) in
      (
        record s {
          tape_device = (c.mt_ioctop mtbsr (pos 1) t).1;
          capacity = c.reserve (length s.block_spill_buffer) s.capacity (s.capacity * 2);
        },
        rw same (rw back refl),
        at,
        refl,
        omega (arith, more),
      )

  -- A round with too little room leaves a larger buffer in front of the same block.
  grown :
      (s : UnixTapeDevice T) (b : Bytes) (bs : List Bytes)
      → blocks s.tape_device ≡ b ∷ bs
      → s.capacity < length b
      → (s' : UnixTapeDevice T) × (read_result c (c.read s.capacity s.tape_device) s ≡ (none, s'))
        × (blocks s'.tape_device ≡ b ∷ bs)
        × (s'.block_spill_read_pos ≡ s.block_spill_read_pos)
        × (s.capacity * 2 ≤ s'.capacity)
  grown s b bs at short =
      let (small, back, again) = tape.read_short s.capacity s.tape_device b bs at short in
      backed s (c.read s.capacity s.tape_device) b bs small back again

  -- A round with room enough ends the loop.
  fitted :
      (s : UnixTapeDevice T) (r : SysResult Bytes × T) (b : Bytes)
      → r.0 ≡ done b
      → read_result c r s ≡ (some (ok tt), record s { tape_device = r.1; block_spill_buffer = b })
  unfolding read_result
  fitted s (done x, t) b has =
      let same : x ≡ b = done_inj has in
      ap (λ x. (some (ok tt), record s { tape_device = t; block_spill_buffer = x })) same
  fitted s (errno e, t) b has = absurd (cc)

  pub read_next_block_lem :
      (fuel : ℕ) (s : UnixTapeDevice T) (b : Bytes) (bs : List Bytes)
      → blocks s.tape_device ≡ b ∷ bs
      → 0 < s.capacity
      → 0 < fuel
      → length b < fuel + s.capacity
      → (s' : UnixTapeDevice T) × (read_next_block c fuel s ≡ some (ok tt, s')) × HasRead s b bs s'
  unfolding read_next_block or_again
  read_next_block_lem zero s b bs at room some_fuel enough = absurd (omega arith)
  read_next_block_lem (suc fuel) s b bs at room some_fuel enough =
      elim (Bool-cases (leb (length b) s.capacity)) [
        | inl fits ↦
            let (got, ahead) = tape.read_fits s.capacity s.tape_device b bs at (leb→le _ _ fits) in
            let r = c.read s.capacity s.tape_device in
            (
              record s { tape_device = r.1; block_spill_buffer = b },
              rw (fitted s r b got) refl,
              record { buffer = refl; ahead = ahead; position = refl; room = omega arith },
            )
        | inr short ↦
            let long = leb_false→lt (length b) s.capacity short in
            let (s₁, grows, at₁, position₁, room₁) = grown s b bs at long in
            let (s₂, reads, has) =
              read_next_block_lem fuel s₁ b bs at₁ (omega (arith, room₁)) (omega arith)
                (omega (arith, room₁)) in
            (
              s₂,
              rw grows reads,
              record {
                buffer = has.buffer;
                ahead = has.ahead;
                position = has.position ∙ position₁;
                room = omega (arith, has.room, room₁);
              },
            )
      ]
