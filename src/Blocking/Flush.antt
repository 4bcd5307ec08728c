-- ===== src/Blocking/Flush.antt =====
-- librapidarchive/src/blocking.rs: `flush` writes the block out, padded with zeros.
use rapidtar.Prelude.{
  ℕ, ltb_false→le, ◌-◌, ◌≡◌, refl, sym, ap, ◌∙◌, [], ◌++◌, ltb, length, take, replicate, arith,
  Bool-cases, inl, inr, append-nil, append_assoc, length-append, length-replicate,
}
use mathlib.Core.Path.{ap₂}
use rapidtar.Io.{Bytes, ok, RecoverableWrite, IsHonest, KeepsOnFlush}
use rapidtar.Blocking.{BlockingWriter, empty_block, pad_block, flush, end_data_zone}
use rapidtar.Blocking.Content.{IsSized, block_accepted}

module _ {W P : Type 0} (o : RecoverableWrite W P) (contents : W → Bytes)
    (honest : IsHonest o contents) (keeps : KeepsOnFlush o contents) where
  pad_block_lem :
      (b : BlockingWriter W P)
      → IsSized b
      → ((pad_block o b).block ≡ b.block ++ replicate (b.blocking_factor - length b.block) 0)
        × (length (pad_block o b).block ≡ b.blocking_factor)
        × ((pad_block o b).inner ≡ b.inner)
        × ((pad_block o b).blocking_factor ≡ b.blocking_factor)
  unfolding pad_block
  pad_block_lem b v =
      let room = b.blocking_factor - length b.block in
      let size = length-append b.block (replicate room 0) in
      elim (Bool-cases (ltb (length b.block) b.blocking_factor)) [
        | inl short ↦
            rw short
              (refl, omega (arith, size, length-replicate {A = ℕ} room 0, v.fits), refl, refl)
        | inr full ↦
            let nothing : room ≡ 0 = omega (arith, ltb_false→le _ _ full) in
            rw (full, nothing)
              (sym (append-nil b.block), omega (arith, ltb_false→le _ _ full, v.fits), refl, refl)
      ]

  -- A full block is written, whatever the zones are.
  empty_full :
      (b : BlockingWriter W P)
      → length b.block ≡ b.blocking_factor
      → (empty_block o b).0 ≡ ok tt
      → (contents (empty_block o b).1.inner ≡ contents b.inner ++ b.block)
        × ((empty_block o b).1.block ≡ [])
        × ((empty_block o b).1.blocking_factor ≡ b.blocking_factor)
  unfolding empty_block
  empty_full b full h =
      let inner' = (o.write_all (take b.blocking_factor b.block) b.inner).1 in
      ground (arith, block_accepted o contents honest b (omega arith), append-nil (contents inner'))

  flush_ok_inv :
      (b : BlockingWriter W P)
      → (flush o b).0 ≡ ok tt
      → let e = empty_block o (pad_block o (end_data_zone o b)) in
        (e.0 ≡ ok tt)
        × ((flush o b).1.inner ≡ (o.flush e.1.inner).1)
        × ((flush o b).1.block ≡ e.1.block)
        × ((flush o b).1.blocking_factor ≡ e.1.blocking_factor)
  unfolding flush
  flush_ok_inv b h = ground arith

  -- Over an inner writer that keeps to the contract of `io::Write` and whose own flush adds nothing, with a
  -- positive blocking
  -- factor and a block within it: a flush that returns Ok has handed the block on, followed by as
  -- many zeros as it was short of the blocking factor; the block is empty and the factor the same.
  pub flush_lem :
      (b : BlockingWriter W P)
      → IsSized b
      → (flush o b).0 ≡ ok tt
      → (contents (flush o b).1.inner
          ≡ contents b.inner ++ (b.block ++ replicate (b.blocking_factor - length b.block) 0))
        × ((flush o b).1.block ≡ [])
        × ((flush o b).1.blocking_factor ≡ b.blocking_factor)
  unfolding end_data_zone
  flush_lem b v h =
      let (emptied, inner, block, factor) = flush_ok_inv b h in
      let closed = end_data_zone o b in
      let (padded, full, same_inner, same_factor) =
        pad_block_lem closed
          (record { positive = v.positive; bounded = v.bounded; fits = v.fits }) in
      let (written, gone, same) =
        empty_full (pad_block o closed) (full ∙ sym same_factor) emptied in
      (
        ap contents inner
            ∙ keeps.contents-flush (empty_block o (pad_block o closed)).1.inner
            ∙ written
            ∙ ap₂ (λ w k. contents w ++ k) same_inner padded
            ∙ ap (λ c. c ++ (b.block ++ replicate (b.blocking_factor - length b.block) 0))
                (honest.contents-end b.inner),
        block ∙ gone,
        factor ∙ same ∙ same_factor,
      )

  -- So a flush that returns Ok adds zeros at most to what a `BlockingWriter` has accepted.
  flush_pads :
      (b : BlockingWriter W P)
      → IsSized b
      → (flush o b).0 ≡ ok tt
      → (zeros : ℕ) × (contents (flush o b).1.inner ++ (flush o b).1.block
          ≡ (contents b.inner ++ b.block) ++ replicate zeros 0)
  flush_pads b v h =
      let zeros = b.blocking_factor - length b.block in
      let (written, gone, _) = flush_lem b v h in
      (
        zeros,
        ap₂ (λ c d. c ++ d) written gone
            ∙ append-nil (contents b.inner ++ (b.block ++ replicate zeros 0))
            ∙ sym (append_assoc (contents b.inner) b.block (replicate zeros 0)),
      )
