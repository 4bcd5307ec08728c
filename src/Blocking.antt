-- ===== src/Blocking.antt =====
-- librapidarchive/src/blocking.rs: `BlockingWriter`, which hands its inner writer buffers of one
-- size only.
pub mod Content
pub mod Flush
pub mod Returns
pub mod Shortcircuit
use rapidtar.Prelude.{
  ℕ, zero, suc, ◌+◌, ◌-◌, ◌*◌, ◌≡◌, Option, none, some, List, [], ◌∷◌, ◌++◌, ◌==◌, ltb, leb,
  if◌then◌else◌, length, take, drop, replicate, sub64, mul64, ◌&&◌,
}
use rapidtar.Spanning.Zone.{DataZone, PartialEq}
use rapidtar.Spanning.Stream
use rapidtar.Spanning.Stream.{DataZoneStream}
use rapidtar.Io.{Bytes, IoResult, ok, err, RecoverableWrite}

pub record BlockingWriter (W P : Type 0) : Type 0 where
  pub blocking_factor : ℕ
  pub inner : W
  pub block : Bytes
  pub datazone_stream : DataZoneStream P

-- A call returns its result and the writer after it.
abbrev pub Outcome : Type 0 → Type 0 → Type 0 → Type 0
Outcome A W P = IoResult A × BlockingWriter W P

module _ {W P : Type 0} where
  unfoldable pub new_with_factor : W → ℕ → BlockingWriter W P
  new_with_factor inner factor = record {
    blocking_factor = mul64 factor 512;
    inner = inner;
    block = [];
    datazone_stream = Stream.new;
  }

  unfoldable pub new : W → BlockingWriter W P
  new inner = record {
    blocking_factor = 20 * 512;
    inner = inner;
    block = [];
    datazone_stream = Stream.new;
  }

  -- The writer after the call, and the bytes that did not fit.
  unfoldable pub fill_block : Bytes → BlockingWriter W P → BlockingWriter W P × Option Bytes
  fill_block buf b =
      let block_space = sub64 b.blocking_factor (length b.block) in
      if leb (length buf) block_space
      then (
        record b {
          block = b.block ++ buf;
          datazone_stream = Stream.write_buffered (length buf) b.datazone_stream;
        },
        none,
      )
      else (
        record b {
          block = b.block ++ take block_space buf;
          datazone_stream = Stream.write_buffered block_space b.datazone_stream;
        },
        some (drop block_space buf),
      )

  module _ (o : RecoverableWrite W P) where
    -- The block after `write_all` returned.
    unfoldable pub block_written : Outcome (Unit {0}) W P → Outcome (Unit {0}) W P
    block_written (err e, b) = (err e, b)
    block_written (ok _, b) = (
      ok tt,
      record b {
        block = [];
        datazone_stream = (Stream.write_committed b.blocking_factor b.datazone_stream).0;
      },
    )

    unfoldable pub empty_block : BlockingWriter W P → Outcome (Unit {0}) W P
    unfolding block_written
    empty_block b =
        let (result, inner') = o.write_all (take b.blocking_factor b.block) b.inner in
        if leb b.blocking_factor (length b.block)
        then block_written (result, record b { inner = inner' })
        else (ok tt, b)

    -- What a round of the loop does with the inner writer's answer, and then the next rounds.
    unfoldable pub shortcircuit_round :
        (ℕ → BlockingWriter W P → Option (Outcome ℕ W P))
        → ℕ
        → IoResult ℕ × W
        → BlockingWriter W P
        → Option (Outcome ℕ W P)
    shortcircuit_round next done (err e, inner') b = some (err e, record b { inner = inner' })
    shortcircuit_round next done (ok blk_write, inner') b = next (done + blk_write) (record b {
      inner = inner';
      datazone_stream = Stream.write_through blk_write b.datazone_stream;
    })

    -- The loop that hands on slices of `buf`, from `done` on. None: no result in `fuel` rounds.
    unfoldable pub shortcircuit : ℕ → Bytes → ℕ → BlockingWriter W P → Option (Outcome ℕ W P)
    unfolding shortcircuit_round
    shortcircuit zero buf done b = none
    shortcircuit (suc fuel) buf done b =
        let slice = take b.blocking_factor (drop done buf) in
        let round = shortcircuit_round (shortcircuit fuel buf) done (o.write slice b.inner) b in
        if leb done (length buf - b.blocking_factor) then round else some (ok done, b)

    -- `assert!(count > 0); Ok(count)`; None: the assertion fails.
    unfoldable pub assert_positive : Outcome ℕ W P → Option (Outcome ℕ W P)
    assert_positive (err e, b) = some (err e, b)
    assert_positive (ok count, b) = if ltb 0 count then some (ok count, b) else none

    -- The normal path: what was buffered of `buf`.
    unfoldable pub buffer : Bytes → BlockingWriter W P → Outcome ℕ W P
    buffer buf b =
        let (b', remain) = fill_block buf b in
        (ok (length buf - elim remain [ none ↦ 0 | some rest ↦ length rest ]), b')

    -- `write`, after its first call of `empty_block`.
    unfoldable pub write_emptied : ℕ → Bytes → BlockingWriter W P → Option (Outcome ℕ W P)
    write_emptied fuel buf b =
        if length buf == 0
        then some (ok 0, b)
        else if (length b.block == 0) && leb b.blocking_factor (length buf)
        then elim (shortcircuit fuel buf 0 b) [ none ↦ none | some r ↦ assert_positive r ]
        else assert_positive (buffer buf b)

    -- None: the call does not return in `fuel` rounds of its loop, or panics.
    unfoldable pub write : ℕ → Bytes → BlockingWriter W P → Option (Outcome ℕ W P)
    write fuel buf b =
        let (result, b') = empty_block b in
        elim result [ err e ↦ some (err e, b') | ok _ ↦ write_emptied fuel buf b' ]

    unfoldable pub begin_data_zone : P → BlockingWriter W P → BlockingWriter W P
    begin_data_zone ident b = record b {
      datazone_stream = Stream.begin_data_zone ident b.datazone_stream;
      inner = o.begin_data_zone ident b.inner;
    }

    unfoldable pub resume_data_zone : P → ℕ → BlockingWriter W P → BlockingWriter W P
    resume_data_zone ident committed b = record b {
      datazone_stream = Stream.resume_data_zone ident committed b.datazone_stream;
      inner = o.resume_data_zone ident committed b.inner;
    }

    unfoldable pub end_data_zone : BlockingWriter W P → BlockingWriter W P
    end_data_zone b = record b {
      datazone_stream = Stream.end_data_zone b.datazone_stream;
      inner = o.end_data_zone b.inner;
    }

    unfoldable pub uncommitted_writes : ⦃e : PartialEq P⦄ → BlockingWriter W P → List (DataZone P)
    uncommitted_writes b =
        Stream.uncommitted_writes b.datazone_stream (some (o.uncommitted_writes b.inner))

    -- `if self.block.len() < self.blocking_factor { self.block.resize(self.blocking_factor, 0); }`
    unfoldable pub pad_block : BlockingWriter W P → BlockingWriter W P
    pad_block b =
        if ltb (length b.block) b.blocking_factor
        then record b { block = b.block ++ replicate (b.blocking_factor - length b.block) 0 }
        else b

    unfoldable pub flush : BlockingWriter W P → Outcome (Unit {0}) W P
    flush b =
        let (result, b') = empty_block (pad_block (end_data_zone b)) in
        let (flushed, inner') = o.flush b'.inner in
        elim result [ err e ↦ (err e, b') | ok _ ↦ (flushed, record b' { inner = inner' }) ]
