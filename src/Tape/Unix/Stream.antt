-- ===== src/Tape/Unix/Stream.antt =====
-- librapidarchive/src/tape/unix.rs: `read` makes one stream of bytes of the blocks of a tape.
use rapidtar.Prelude.{
  ℕ, ◌+◌, ◌-◌, ◌≤◌, ◌<◌, ◌≡◌, ◌⊎◌, inl, inr, refl, sym, ap, ◌∙◌, some, List, [], ◌∷◌, ◌++◌, ◌==◌,
  ==_iff, length, take, drop, concat, All, arith, suc, Bool-cases, leb, leb→le, leb_false→lt, false,
  if◌then◌else◌, append_assoc, length-drop, length-take, take-append-drop, drop-drop,
}
use rapidtar.Io.{Bytes, ok}
use rapidtar.Tape.Unix.{
  Libc, UnixTapeDevice, read_next_block, copy_block, copy_spill, copy_next, read_round,
}
use rapidtar.Tape.Unix.Blocks.{IsTape, HasRead, read_next_block_lem}

module _ {T : Type 0} (blocks : T → List Bytes) where
  -- The rest of a block that was read in part.
  abbrev pub spill : UnixTapeDevice T → Bytes
  spill s =
      if s.block_spill_read_pos == 0 then [] else drop s.block_spill_read_pos s.block_spill_buffer

  -- The bytes ahead.
  abbrev pub pending : UnixTapeDevice T → Bytes
  pending s = spill s ++ concat (blocks s.tape_device)

  -- There is room to read at all, and a block that was read in part has some bytes left.
  pub record IsSpill (s : UnixTapeDevice T) : Type 0 where
    pub room : 0 < s.capacity
    pub inside :
        (s.block_spill_read_pos ≡ 0) ⊎ (s.block_spill_read_pos < length s.block_spill_buffer)

  -- The rounds that the bytes ahead may take.
  abbrev pub rounds : UnixTapeDevice T → ℕ
  rounds s = length (blocks s.tape_device) + (if s.block_spill_read_pos == 0 then 0 else 1)

  -- A round that copies `b` of at most `remain` bytes, and either fills the buffer or makes progress.
  pub record Copied (inner remain : ℕ) (s : UnixTapeDevice T) (b : Bytes) (s' : UnixTapeDevice T)
      : Type 0 where
    pub spilled : IsSpill s'
    pub few : length b ≤ remain
    pub split : pending s ≡ b ++ pending s'
    pub fewer : (length b ≡ remain) ⊎ (rounds s' < rounds s)
    pub no_more : rounds s' ≤ rounds s
    pub bounded : All (λ x. length x ≤ inner) (blocks s'.tape_device)

  pub spill_none :
      (s : UnixTapeDevice T)
      → s.block_spill_read_pos ≡ 0
      → pending s ≡ concat (blocks s.tape_device)
  spill_none s h = rw ((==_iff s.block_spill_read_pos 0).1 h) refl

  pub spill_some :
      (s : UnixTapeDevice T)
      → 0 < s.block_spill_read_pos
      → pending s
        ≡ drop s.block_spill_read_pos s.block_spill_buffer ++ concat (blocks s.tape_device)
  spill_some s h =
      let some_read : (s.block_spill_read_pos == 0) ≡ false = ground arith in rw some_read refl

  rounds_none :
      (s : UnixTapeDevice T) → s.block_spill_read_pos ≡ 0 → rounds s ≡ length (blocks s.tape_device)
  rounds_none s h = rw ((==_iff s.block_spill_read_pos 0).1 h) (omega arith)

  rounds_some :
      (s : UnixTapeDevice T)
      → 0 < s.block_spill_read_pos
      → rounds s ≡ length (blocks s.tape_device) + 1
  rounds_some s h =
      let some_read : (s.block_spill_read_pos == 0) ≡ false = ground arith in rw some_read refl

  copy_spill_lem :
      (c : Libc T) (inner remain : ℕ) (s : UnixTapeDevice T)
      → 0 < remain
      → 0 < s.block_spill_read_pos
      → IsSpill s
      → All (λ x. length x ≤ inner) (blocks s.tape_device)
      → Copied inner remain s (copy_spill c remain s).0 (copy_spill c remain s).1
  unfolding copy_spill
  copy_spill_lem c inner remain s some_bytes inside ready small =
      let at = s.block_spill_read_pos in
      let buffer = s.block_spill_buffer in
      elim (Bool-cases (leb (length buffer - at) remain)) [
        | inl fits ↦ rw fits (record {
          spilled = record { room = ready.room; inside = inl refl };
          few = omega (arith, leb→le _ _ fits, length-drop at buffer);
          split = spill_some s inside;
          fewer = inr (omega (arith, rounds_some s inside));
          no_more = omega (arith, rounds_some s inside);
          bounded = small;
        })
        | inr rest ↦
            let more = leb_false→lt _ _ rest in
            let s' = record s { block_spill_read_pos = at + remain } in
            rw rest (record {
              spilled = record { room = ready.room; inside = inr (omega (arith, more)) };
              few = omega (arith, length-take remain (drop at buffer));
              split =
                  spill_some s inside
                  ∙ ap (λ x. x ++ concat (blocks s.tape_device))
                      (sym (take-append-drop remain (drop at buffer)))
                  ∙ append_assoc (take remain (drop at buffer)) _ _
                  ∙ ap (λ x. take remain (drop at buffer) ++ (x ++ concat (blocks s.tape_device)))
                      (drop-drop at remain buffer)
                  ∙ ap (λ x. take remain (drop at buffer) ++ x)
                      (sym (spill_some s' (omega (arith, inside))));
              fewer =
                  inl (
                    omega
                      (arith, more, length-take remain (drop at buffer), length-drop at buffer));
              no_more = omega (arith, rounds_some s inside, rounds_some s' (omega (arith, inside)));
              bounded = small;
            })
      ]

  -- The round that reads a block, whose tape and buffer are `HasRead`.
  copy_block_lem :
      (c : Libc T) (tape : IsTape c blocks) (inner remain : ℕ) (s s' : UnixTapeDevice T) (b : Bytes)
      (bs : List Bytes)
      → 0 < remain
      → s.block_spill_read_pos ≡ 0
      → IsSpill s
      → blocks s.tape_device ≡ b ∷ bs
      → All (λ x. length x ≤ inner) bs
      → HasRead c blocks tape s b bs s'
      → Copied inner remain s (copy_block c remain s').0 (copy_block c remain s').1
  unfolding copy_block
  copy_block_lem c tape inner remain s s' b bs some_bytes none_read ready at small has =
      let full : pending s ≡ b ++ concat bs = spill_none s none_read ∙ ap concat at in
      let count : rounds s ≡ suc (length bs) = rounds_none s none_read ∙ ap length at in
      let ready' : 0 < s'.capacity = omega (arith, ready.room, has.room) in
      let start : s'.block_spill_read_pos ≡ 0 = has.position ∙ none_read in
      elim (Bool-cases (leb (length s'.block_spill_buffer) remain)) [
        | inl fits ↦ rw fits (record {
          spilled = record { room = ready'; inside = inl start };
          few = leb→le _ _ fits;
          split =
              full
              ∙ sym (
                  ap (λ x. x ++ pending s') has.buffer
                  ∙ ap (λ x. b ++ x) (spill_none s' start ∙ ap concat has.ahead));
          fewer = inr (omega (arith, count, rounds_none s' start ∙ ap length has.ahead));
          no_more = omega (arith, count, rounds_none s' start ∙ ap length has.ahead);
          bounded = rw has.ahead small;
        })
        | inr rest ↦
            let buffer = s'.block_spill_buffer in
            let more = leb_false→lt _ _ rest in
            let s₁ = record s' { block_spill_read_pos = remain } in
            rw rest (record {
              spilled = record { room = ready'; inside = inr more };
              few = omega (arith, length-take remain buffer);
              split =
                  full
                  ∙ sym (ap (λ x. x ++ concat bs) has.buffer)
                  ∙ ap (λ x. x ++ concat bs) (sym (take-append-drop remain buffer))
                  ∙ append_assoc (take remain buffer) (drop remain buffer) (concat bs)
                  ∙ ap (λ x. take remain buffer ++ (drop remain buffer ++ concat x)) (sym has.ahead)
                  ∙ ap (λ x. take remain buffer ++ x) (sym (spill_some s₁ some_bytes));
              fewer = inl (omega (arith, more, length-take remain buffer));
              no_more =
                  omega
                    (arith, count, rounds_some s₁ some_bytes ∙ ap (λ x. length x + 1) has.ahead);
              bounded = rw has.ahead small;
            })
      ]

  -- A round with at least one byte to go, where there are bytes ahead.
  pub read_round_lem :
      (c : Libc T) (tape : IsTape c blocks) (inner remain : ℕ) (s : UnixTapeDevice T)
      → 0 < inner
      → 0 < remain
      → remain ≤ length (pending s)
      → IsSpill s
      → All (λ x. length x ≤ inner) (blocks s.tape_device)
      → (b : Bytes) × (s' : UnixTapeDevice T) × (read_round c inner remain s ≡ some (ok b, s'))
        × Copied inner remain s b s'
  unfolding read_round copy_next
  read_round_lem c tape inner remain s some_fuel some_bytes enough ready small =
      elim (Bool-cases (s.block_spill_read_pos == 0)) [
        | inl none_read ↦
            let start = (==_iff s.block_spill_read_pos 0).0 none_read in
            rw none_read (by_block (blocks s.tape_device) refl start small enough)
        | inr some_read ↦ (
          (copy_spill c remain s).0,
          (copy_spill c remain s).1,
          rw some_read refl,
          copy_spill_lem c inner remain s some_bytes (ground arith) ready small,
        )
      ]
    where
      by_block :
          (ahead : List Bytes)
          → blocks s.tape_device ≡ ahead
          → s.block_spill_read_pos ≡ 0
          → All (λ x. length x ≤ inner) ahead
          → remain ≤ length (pending s)
          → (b : Bytes) × (s' : UnixTapeDevice T) × (copy_next c remain (read_next_block c inner s)
              ≡ some (ok b, s'))
            × Copied inner remain s b s'
      by_block [] at start small enough =
          absurd (omega (arith, ap length (spill_none s start ∙ ap concat at)))
      by_block (b ∷ bs) at start (fits, small) enough =
          let (s', reads, has) =
            read_next_block_lem c blocks tape inner s b bs at ready.room some_fuel
              (omega (arith, fits, ready.room)) in
          (
            (copy_block c remain s').0,
            (copy_block c remain s').1,
            rw reads refl,
            copy_block_lem c tape inner remain s s' b bs some_bytes start ready at small has,
          )
