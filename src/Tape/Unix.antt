-- ===== src/Tape/Unix.antt =====
-- librapidarchive/src/tape/unix.rs: `UnixTapeDevice`, which reads and writes a tape through the
-- system calls of Linux.
pub mod Blocks
pub mod Stream
pub mod Read
pub mod Seek
pub mod Position
use rapidtar.Prelude.{
  ℕ, ◌+◌, ◌-◌, ◌*◌, ◌<◌, ◌≡◌, Option, none, some, [], ◌∷◌, ◌++◌, ◌==◌, leb, ltb, if◌then◌else◌,
  length, take, drop, zero, suc,
}
use rapidtar.Io.{Bytes, ErrorKind, IoResult, ok, err, other}
use rapidtar.Tar.Serialize.{Effect, continue}
use rapidtar.Tape.Seek.{ℤ, pos}

abbrev pub mtbsr : ℕ
mtbsr = 4

-- What a system call returns: its value, or the `errno` that it leaves.
pub data SysResult (A : Type 0) : Type 0 where
  done : A → SysResult A
  errno : ℕ → SysResult A

-- The errors of the crate `nix`.
pub data NixError : Type 0 where
  sys : ℕ → NixError
  invalid_path invalid_utf8 unsupported_operation : NixError

pub data NixResult : Type 0 where
  success : NixResult
  nix_error : NixError → NixResult

-- The parts of libc, nix and the standard library that the device uses, over a tape of type T. `read`
-- takes the size of the buffer, `mt_ioctop` the two fields of `mtop`. `reserve` is the capacity that
-- a vector of some length and capacity has after a call with some number; `from_raw_os_error` yields
-- the kind of an errno.
pub record Libc (T : Type 0) : Type 0 where
  pub read : ℕ → T → SysResult Bytes × T
  pub write : Bytes → T → SysResult ℕ × T
  pub mt_ioctop : ℕ → ℤ → T → NixResult × T
  pub enomem : ℕ
  pub from_raw_os_error : ℕ → ErrorKind
  pub reserve : ℕ → ℕ → ℕ → ℕ
  pub with_capacity : ℕ → ℕ

pub record UnixTapeDevice (T : Type 0) : Type 0 where
  pub tape_device : T
  pub block_spill_buffer : Bytes
  pub capacity : ℕ
  pub block_spill_read_pos : ℕ

module _ {T : Type 0} (c : Libc T) where
  unfoldable pub conv_nix_error : NixResult → IoResult (Unit {0})
  conv_nix_error (nix_error (sys e)) = err (c.from_raw_os_error e)
  conv_nix_error (nix_error invalid_path) = err other
  conv_nix_error (nix_error invalid_utf8) = err other
  conv_nix_error (nix_error unsupported_operation) = err other
  conv_nix_error success = ok tt

  unfoldable pub from_file_descriptor : T → UnixTapeDevice T
  from_file_descriptor fd = record {
    tape_device = fd;
    block_spill_buffer = [];
    capacity = c.with_capacity 1024;
    block_spill_read_pos = 0;
  }

  -- `conv_nix_error(mt_ioctop(self.tape_device, &op))`
  unfoldable pub issue : ℕ → ℤ → Effect (UnixTapeDevice T) (Unit {0})
  issue op count s =
      let (result, tape) = c.mt_ioctop op count s.tape_device in
      (conv_nix_error result, record s { tape_device = tape })

  -- A round that finds the buffer too short: it grows, and the tape goes back over the block.
  unfoldable pub grow_and_back : Effect (UnixTapeDevice T) (Unit {0})
  grow_and_back s =
      let larger = c.reserve (length s.block_spill_buffer) s.capacity (s.capacity * 2) in
      issue mtbsr (pos 1) (record s { capacity = larger })

  -- `?`: none where the loop goes on.
  unfoldable pub keep_going : IoResult (Unit {0}) → Option (IoResult (Unit {0}))
  keep_going (ok _) = none
  keep_going (err e) = some (err e)

  -- What follows the read: none where the loop goes on.
  unfoldable pub read_result :
      SysResult Bytes × T → UnixTapeDevice T → Option (IoResult (Unit {0})) × UnixTapeDevice T
  read_result (done block, tape) s =
      (some (ok tt), record s { tape_device = tape; block_spill_buffer = block })
  read_result (errno e, tape) s =
      let (result, s') = grow_and_back (record s { tape_device = tape }) in
      if e == c.enomem
      then (keep_going result, s')
      else (some (err (c.from_raw_os_error e)), record s { tape_device = tape })

  -- The end of the loop, or its next round.
  unfoldable pub or_again :
      Option (IoResult (Unit {0})) × UnixTapeDevice T
      → (UnixTapeDevice T → Option (IoResult (Unit {0}) × UnixTapeDevice T))
      → Option (IoResult (Unit {0}) × UnixTapeDevice T)
  or_again (none, s) again = again s
  or_again (some r, s) again = some (r, s)

  -- None: more than `fuel` rounds.
  unfoldable pub read_next_block :
      ℕ → UnixTapeDevice T → Option (IoResult (Unit {0}) × UnixTapeDevice T)
  read_next_block zero s = none
  read_next_block (suc fuel) s =
      or_again (read_result (c.read s.capacity s.tape_device) s) (λ s'. read_next_block fuel s')

  -- `Write::write` and `Write::flush`
  unfoldable pub write : Bytes → Effect (UnixTapeDevice T) ℕ
  write bytes s =
      let (result, tape) = c.write bytes s.tape_device in
      (
        elim result [ done n ↦ ok n | errno e ↦ err (c.from_raw_os_error e) ],
        record s { tape_device = tape },
      )

  unfoldable pub flush : Effect (UnixTapeDevice T) (Unit {0})
  flush s = (ok tt, s)

  -- The copies of a round of `read` with `remain` bytes to go: what it puts into the caller's buffer.
  -- First with the block that was just read.
  unfoldable pub copy_block : ℕ → UnixTapeDevice T → Bytes × UnixTapeDevice T
  copy_block remain s =
      if leb (length s.block_spill_buffer) remain
      then (s.block_spill_buffer, s)
      else (take remain s.block_spill_buffer, record s { block_spill_read_pos = remain })

  -- Then with the rest of a block that an earlier round left.
  unfoldable pub copy_spill : ℕ → UnixTapeDevice T → Bytes × UnixTapeDevice T
  copy_spill remain s =
      let spill_remain = length s.block_spill_buffer - s.block_spill_read_pos in
      if leb spill_remain remain
      then (drop s.block_spill_read_pos s.block_spill_buffer, record s { block_spill_read_pos = 0 })
      else (
        take remain (drop s.block_spill_read_pos s.block_spill_buffer),
        record s { block_spill_read_pos = s.block_spill_read_pos + remain },
      )

  unfoldable pub copy_next :
      ℕ
      → Option (IoResult (Unit {0}) × UnixTapeDevice T)
      → Option (IoResult Bytes × UnixTapeDevice T)
  copy_next remain none = none
  copy_next remain (some (err e, s)) = some (err e, s)
  copy_next remain (some (ok _, s)) = let (b, s') = copy_block remain s in some (ok b, s')

  unfoldable pub read_round : ℕ → ℕ → UnixTapeDevice T → Option (IoResult Bytes × UnixTapeDevice T)
  read_round fuel remain s =
      if s.block_spill_read_pos == 0
      then copy_next remain (read_next_block fuel s)
      else let (b, s') = copy_spill remain s in some (ok b, s')

  unfoldable pub next_copy :
      Bytes
      → Option (IoResult Bytes × UnixTapeDevice T)
      → (Bytes → UnixTapeDevice T → Option (IoResult Bytes × UnixTapeDevice T))
      → Option (IoResult Bytes × UnixTapeDevice T)
  next_copy wrote none next = none
  next_copy wrote (some (err e, s)) next = some (err e, s)
  next_copy wrote (some (ok b, s)) next = next (wrote ++ b) s

  -- `Read::read` into a buffer of `len` bytes, the first of which hold `wrote`: the bytes it has
  -- then. Each loop is on fuel.
  unfoldable pub read_from :
      ℕ → ℕ → ℕ → Bytes → UnixTapeDevice T → Option (IoResult Bytes × UnixTapeDevice T)
  read_from zero inner len wrote s = none
  read_from (suc fuel) inner len wrote s =
      if ltb (length wrote) len
      then next_copy wrote (read_round inner (len - length wrote) s)
          (λ wrote' s'. read_from fuel inner len wrote' s')
      else some (ok wrote, s)

  unfoldable pub read : ℕ → ℕ → ℕ → UnixTapeDevice T → Option (IoResult Bytes × UnixTapeDevice T)
  read fuel inner len s = read_from fuel inner len [] s

  -- `mem::swap` with the caller's vector, and an empty buffer of the last capacity.
  unfoldable pub take_block : UnixTapeDevice T → Bytes × UnixTapeDevice T
  take_block s = (
    s.block_spill_buffer,
    record s {
      block_spill_buffer = [];
      capacity = c.with_capacity s.capacity;
      block_spill_read_pos = 0;
    },
  )

  unfoldable pub swap_block :
      Option (IoResult (Unit {0}) × UnixTapeDevice T) → Option (IoResult Bytes × UnixTapeDevice T)
  swap_block none = none
  swap_block (some (err e, s)) = some (err e, s)
  swap_block (some (ok _, s)) = let (b, s') = take_block s in some (ok b, s')

  -- `TapeDevice::read_block`: what it puts into the caller's vector.
  unfoldable pub read_block : ℕ → UnixTapeDevice T → Option (IoResult Bytes × UnixTapeDevice T)
  read_block fuel s =
      swap_block (if s.block_spill_read_pos == 0 then read_next_block fuel s else some (ok tt, s))
