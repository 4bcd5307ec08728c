-- ===== src/Tests/Tape.antt =====
-- Runs of the definitions for tapes, over a tape that is a list of blocks with a number of those read.
use rapidtar.Prelude.{
  ℕ, ◌+◌, ◌-◌, ◌≤◌, ◌<◌, ◌≡◌, refl, arith, some, List, [], ◌∷◌, ◌++◌, ◌==◌, ◌||◌, length, leb, drop,
  if◌then◌else◌, inl, inr, le→leb, false,
}
use rapidtar.Io.{Bytes, ok, other}
use rapidtar.Tape.Seek.{ℤ, pos, negsuc}
use rapidtar.Tape.Unix.{
  Libc, SysResult, done, errno, NixResult, success, UnixTapeDevice, mtbsr, read, read_block,
}
use rapidtar.Tape.Unix.Blocks.{IsTape}
use rapidtar.Tape.Unix.Stream.{pending, IsSpill}
use rapidtar.Tape.Unix.Read.{read_lem, read_block_lem}
use rapidtar.Tape.Unix.Seek.{mteom, mtfsr, mtseek, mtrew, mtfsf, mtweof}
use rapidtar.Tape.Unix.Position.{Moves}

-- The blocks ahead, and the last one, which MTBSR goes back over.
record Reel : Type 0 where
  ahead : List Bytes
  behind : List Bytes

abbrev read_reel : ℕ → Reel → SysResult Bytes × Reel
read_reel room t = elim t.ahead [
  | [] ↦ (errno 5, t)
  | b ∷ bs ↦ (
    if leb (length b) room then done b else errno 12,
    record { ahead = bs; behind = b ∷ t.behind },
  )
]

abbrev back_reel : Reel → NixResult × Reel
back_reel t = elim t.behind [
  | [] ↦ (success, t)
  | b ∷ bs ↦ (success, record { ahead = b ∷ t.ahead; behind = bs })
]

abbrev reel : Libc Reel
reel = record {
  read = read_reel;
  write = λ b t. (done (length b), t);
  mt_ioctop = λ op count t. back_reel t;
  enomem = 12;
  from_raw_os_error = λ e. other;
  reserve = λ len room more. len + more;
  with_capacity = λ n. n;
}

abbrev ahead_of : Reel → List Bytes
ahead_of t = t.ahead

reel_fits :
    (room : ℕ) (t : Reel) (b : Bytes) (bs : List Bytes)
    → t.ahead ≡ b ∷ bs
    → length b ≤ room
    → ((read_reel room t).0 ≡ done b) × (ahead_of (read_reel room t).1 ≡ bs)
reel_fits room t b bs at fits = rw (at, le→leb (length b) room fits) (refl, refl)

reel_short :
    (room : ℕ) (t : Reel) (b : Bytes) (bs : List Bytes)
    → t.ahead ≡ b ∷ bs
    → room < length b
    → ((read_reel room t).0 ≡ errno 12)
      × ((back_reel (read_reel room t).1).0 ≡ success)
      × (ahead_of (back_reel (read_reel room t).1).1 ≡ b ∷ bs)
reel_short room t b bs at short =
    let long : leb (length b) room ≡ false = ground arith in rw (at, long) (refl, refl, refl)

reel-IsTape : IsTape reel ahead_of
reel-IsTape = record {
  read_fits = reel_fits;
  read_short = reel_short;
  reserve_ge = λ len room more. omega arith;
  with_capacity_ge = λ n. omega arith;
}

-- A device with room for two bytes, in front of a block of three and one of two.
abbrev device : UnixTapeDevice Reel
device = record {
  tape_device = record { ahead = (1 ∷ 2 ∷ 3 ∷ []) ∷ (4 ∷ 5 ∷ []) ∷ []; behind = [] };
  block_spill_buffer = [];
  capacity = 2;
  block_spill_read_pos = 0;
}

device-IsSpill : IsSpill ahead_of device
device-IsSpill = record { room = omega arith; inside = inl refl }

read_lem_example :
    (s' : UnixTapeDevice Reel) × (read reel 5 9 4 device ≡ some (ok (1 ∷ 2 ∷ 3 ∷ 4 ∷ []), s'))
    × IsSpill ahead_of s'
    × (pending ahead_of s' ≡ 5 ∷ [])
read_lem_example =
    read_lem ahead_of reel reel-IsTape 5 9 4 device (omega arith) device-IsSpill
      (omega arith, (omega arith, tt)) (omega arith) (omega arith)

-- The same device after a read of one byte.
abbrev device_read : UnixTapeDevice Reel
device_read = record {
  tape_device = record { ahead = (4 ∷ 5 ∷ []) ∷ []; behind = (1 ∷ 2 ∷ 3 ∷ []) ∷ [] };
  block_spill_buffer = 1 ∷ 2 ∷ 3 ∷ [];
  capacity = 4;
  block_spill_read_pos = 1;
}

read_block_lem_example :
    (b : Bytes) × (s' : UnixTapeDevice Reel) × (read_block reel 9 device_read ≡ some (ok b, s'))
    × IsSpill ahead_of s'
    × (s'.block_spill_read_pos ≡ 0)
    × (2 ∷ 3 ∷ 4 ∷ 5 ∷ [] ≡ drop 1 b ++ pending ahead_of s')
read_block_lem_example =
    read_block_lem ahead_of reel reel-IsTape 9 device_read (omega arith)
      (record { room = omega arith; inside = inr (omega arith) }) (omega arith, tt) (omega arith)

-- A tape with ten units, of which only the position is kept.
abbrev counted : ℕ → ℤ → ℕ → NixResult × ℕ
counted op (pos n) t =
    if op == mteom
    then (success, 10)
    else if op == mtseek
    then (success, n)
    else if op == mtrew
    then (success, 0)
    else if (op == mtfsr) || (op == mtfsf)
    then (success, t + n)
    else (success, t - n)
counted op (negsuc n) t = if op == mteom then (success, 10) else (success, t)

abbrev pub counter : Libc ℕ
counter = record {
  read = λ room t. (done [], t);
  write = λ b t. (done (length b), t);
  mt_ioctop = counted;
  enomem = 12;
  from_raw_os_error = λ e. other;
  reserve = λ len room more. len + more;
  with_capacity = λ n. n;
}

counter_end : (k : ℤ) (t : ℕ) → ((counted mteom k t).0 ≡ success) × ((counted mteom k t).1 ≡ 10)
counter_end (pos n) t = (refl, refl)
counter_end (negsuc n) t = (refl, refl)

pub records-Moves : Moves counter (λ t. t) (λ t. 10) mtfsr mtbsr
records-Moves = record {
  goes_forward = λ n t h. (refl, refl);
  goes_back = λ n t h. (refl, refl);
  to_end = counter_end;
}

abbrev pub at_four : UnixTapeDevice ℕ
at_four = record {
  tape_device = 4;
  block_spill_buffer = [];
  capacity = 2;
  block_spill_read_pos = 0;
}

-- A tape that counts its filemarks.
abbrev marked : ℕ → ℤ → ℕ → NixResult × ℕ
marked op (pos n) t = if op == mtweof then (success, t + n) else (success, t)
marked op (negsuc n) t = (success, t)

abbrev marker : Libc ℕ
marker = record counter { mt_ioctop = marked }
