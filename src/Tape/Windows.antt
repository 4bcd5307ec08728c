-- ===== src/Tape/Windows.antt =====
-- librapidarchive/src/tape/windows.rs: `WindowsTapeDevice`, which reads and writes a tape through the
-- calls of Win32.
pub mod Reading
pub mod Kept
pub mod Bounds
pub mod Position
pub mod Drop
use rapidtar.Prelude.{
  ℕ, ◌+◌, ◌-◌, ◌*◌, ◌/◌, ◌%◌, Bool, true, false, Option, none, some, [], ◌++◌, ◌==◌, leb, ltb,
  if◌then◌else◌, length, take, drop, zero, suc,
}
use rapidtar.Io.{Bytes, ErrorKind, IoResult, ok, err}
use rapidtar.Tar.Serialize.{Effect, continue}
use rapidtar.Tape.Seek.{ℤ, pos, negsuc, SeekFrom, start, current, end, negate, as_u64}

-- The codes of winerror.h that the device tells apart; `other_code` is any other.
pub data WinError : Type 0 where
  end_of_media more_data filemark_detected setmark_detected no_data_detected media_changed :
      WinError
  other_code : ℕ → WinError

pub data WinResult (A : Type 0) : Type 0 where
  granted : A → WinResult A
  denied : WinError → WinResult A

-- The operations TAPE_LOGICAL_BLOCK, TAPE_SPACE_RELATIVE_BLOCKS and so on of `SetTapePosition`.
pub data Operation : Type 0 where
  logical_block relative_blocks end_of_data filemarks setmarks rewind : Operation

-- The calls of Win32 and the parts of the standard library that the device uses, over a tape of type
-- T. `set_tape_position` takes the operation, the partition, and the lower and the upper half of the
-- offset; `write_tapemark` takes `bImmediate`; `get_tape_position` yields both halves of a position.
pub record Win32 (T : Type 0) : Type 0 where
  pub read_file : ℕ → T → WinResult Bytes × T
  pub write_file : Bytes → T → WinResult ℕ × T
  pub set_tape_position : Operation → ℕ → ℕ → ℕ → T → WinResult (Unit {0}) × T
  pub write_tapemark : Bool → T → WinResult (Unit {0}) × T
  pub get_tape_position : T → WinResult (ℕ × ℕ) × T
  pub from_raw_os_error : WinError → ErrorKind
  pub reserve : ℕ → ℕ → ℕ → ℕ
  pub with_capacity : ℕ → ℕ

pub data TapeCommand : Type 0 where
  write_command filemark_command read_command none_of_the_above : TapeCommand

pub record WindowsTapeDevice (T : Type 0) : Type 0 where
  pub tape_device : T
  pub block_spill_buffer : Bytes
  pub capacity : ℕ
  pub block_spill_read_pos : ℕ
  pub last_command : TapeCommand
  pub eof_condition : Bool

module _ {T : Type 0} (c : Win32 T) where
  unfoldable pub from_device_handle : T → WindowsTapeDevice T
  from_device_handle handle = record {
    tape_device = handle;
    block_spill_buffer = [];
    capacity = c.with_capacity 1024;
    block_spill_read_pos = 0;
    last_command = none_of_the_above;
    eof_condition = false;
  }

  -- `if error != NO_ERROR { self.handle_seek_error(error)?; }`
  unfoldable pub handle_seek_error : WinResult (Unit {0}) → IoResult (Unit {0})
  handle_seek_error (granted _) = ok tt
  handle_seek_error (denied filemark_detected) = ok tt
  handle_seek_error (denied setmark_detected) = ok tt
  handle_seek_error (denied no_data_detected) = ok tt
  handle_seek_error (denied media_changed) = ok tt
  handle_seek_error (denied e) = err (c.from_raw_os_error e)

  -- `SetTapePosition` with the offset in two halves, and the check of its error.
  unfoldable pub move_tape : Operation → ℕ → ℕ → ℕ → Effect (WindowsTapeDevice T) (Unit {0})
  move_tape operation partition low high s =
      let (result, tape) = c.set_tape_position operation partition low high s.tape_device in
      (handle_seek_error result, record s { tape_device = tape })

  -- `(target & 0xFFFFFFFF) as DWORD, (target >> 32) as DWORD`
  unfoldable pub move_by : Operation → ℤ → Effect (WindowsTapeDevice T) (Unit {0})
  move_by operation target s =
      move_tape operation 0 (as_u64 target % 4294967296) (as_u64 target / 4294967296) s

  unfoldable pub new_command : TapeCommand → WindowsTapeDevice T → WindowsTapeDevice T
  new_command command s = record s { last_command = command }

  unfoldable pub new_seek : WindowsTapeDevice T → WindowsTapeDevice T
  new_seek s = record s { last_command = none_of_the_above; eof_condition = false }

  -- `Write::write` and `Write::flush`
  unfoldable pub write_result : WinResult ℕ → IoResult ℕ
  write_result (granted n) = ok n
  write_result (denied end_of_media) = ok 0
  write_result (denied e) = err (c.from_raw_os_error e)

  unfoldable pub write : Bytes → Effect (WindowsTapeDevice T) ℕ
  write bytes s =
      let (result, tape) = c.write_file (take (length bytes % 4294967296) bytes) s.tape_device in
      (write_result result, record (new_command write_command s) { tape_device = tape })

  unfoldable pub flush : Effect (WindowsTapeDevice T) (Unit {0})
  flush s = (ok tt, s)

  unfoldable pub write_filemark : Bool → Effect (WindowsTapeDevice T) (Unit {0})
  write_filemark blocking s =
      let (result, tape) = c.write_tapemark blocking s.tape_device in
      (handle_seek_error result, record (new_command filemark_command s) { tape_device = tape })

  unfoldable pub seek_blocks : SeekFrom → Effect (WindowsTapeDevice T) (Unit {0})
  seek_blocks (start target) s = move_by logical_block (pos target) (new_seek s)
  seek_blocks (current target) s = move_by relative_blocks target (new_seek s)
  seek_blocks (end target) s =
      continue (move_tape end_of_data 0 0 0 (new_seek s))
        (λ _ s'. move_by relative_blocks (negate target) s')

  unfoldable pub tell_blocks : Effect (WindowsTapeDevice T) ℕ
  tell_blocks s =
      let (result, tape) = c.get_tape_position s.tape_device in
      let s' = record s { tape_device = tape } in
      elim result [
        | granted (low, high) ↦ (ok (high * 4294967296 + low), s')
        | denied e ↦ continue (handle_seek_error (denied e), s') (λ _ s''. (ok 0, s''))
      ]

  unfoldable pub seek_filemarks : SeekFrom → Effect (WindowsTapeDevice T) (Unit {0})
  seek_filemarks (start target) s =
      continue (move_tape rewind 0 0 0 (new_seek s)) (λ _ s'. move_by filemarks (pos target) s')
  seek_filemarks (current target) s = move_by filemarks target (new_seek s)
  seek_filemarks (end target) s =
      continue (move_tape end_of_data 0 0 0 (new_seek s))
        (λ _ s'. move_by filemarks (negate target) s')

  unfoldable pub seek_setmarks : SeekFrom → Effect (WindowsTapeDevice T) (Unit {0})
  seek_setmarks (start target) s =
      continue (move_tape rewind 0 0 0 (new_seek s)) (λ _ s'. move_by setmarks (pos target) s')
  seek_setmarks (current target) s = move_by setmarks target (new_seek s)
  seek_setmarks (end target) s =
      continue (move_tape end_of_data 0 0 0 (new_seek s)) (λ _ s'. move_by setmarks target s')

  unfoldable pub seek_partition : ℕ → Effect (WindowsTapeDevice T) (Unit {0})
  seek_partition id s = move_tape logical_block id 0 0 (new_seek s)

  -- `if !self.eof_condition`
  unfoldable pub skip_file : Bool → WindowsTapeDevice T → WindowsTapeDevice T
  skip_file true s = s
  skip_file false s = (seek_filemarks (current (pos 1)) s).1

  unfoldable pub drop_after : TapeCommand → WindowsTapeDevice T → WindowsTapeDevice T
  drop_after write_command s =
      (seek_filemarks (current (negsuc 0)) (write_filemark true (write_filemark true s).1).1).1
  drop_after filemark_command s = (seek_filemarks (current (negsuc 0)) (write_filemark true s).1).1
  drop_after read_command s = skip_file s.eof_condition s
  drop_after none_of_the_above s = s

  -- `Drop::drop`, which ignores the results; the handle is closed after it.
  unfoldable pub drop_device : WindowsTapeDevice T → WindowsTapeDevice T
  drop_device s = drop_after s.last_command s
