-- ===== src/Io.antt =====
-- The parts of `std::io` that the library uses: results with the kind of an error, and writers.
-- `RecoverableWrite` of librapidarchive/src/spanning.rs extends a writer.
use rapidtar.Prelude.{ℕ, ◌≤◌, ◌<◌, ◌≡◌, Option, none, some, List, ◌++◌, length, take, replicate}
use rapidtar.Spanning.Zone.{DataZone}

-- `io::ErrorKind`, as far as the program names it.
pub data ErrorKind : Type 0 where
  write_zero invalid_data invalid_input interrupted other : ErrorKind

pub data IoResult (A : Type 0) : Type 0 where
  ok : A → IoResult A
  err : ErrorKind → IoResult A

infixl 5 ◌>>=◌
abbrev pub ◌>>=◌ : {A B : Type 0} → IoResult A → (A → IoResult B) → IoResult B
ok a >>= f = f a
err e >>= f = err e

-- `Option::ok_or`
abbrev pub ok_or : {A : Type 0} → Option A → ErrorKind → IoResult A
ok_or none e = err e
ok_or (some a) e = ok a

abbrev pub Bytes : Type 0
Bytes = List ℕ

-- A writer of type W: `io::Write` with its provided method `write_all`, and `RecoverableWrite<P>`.
-- A call returns the writer after it.
pub record RecoverableWrite (W P : Type 0) : Type 0 where
  pub write : Bytes → W → IoResult ℕ × W
  pub write_all : Bytes → W → IoResult (Unit {0}) × W
  pub flush : W → IoResult (Unit {0}) × W
  pub begin_data_zone : P → W → W
  pub resume_data_zone : P → ℕ → W → W
  pub end_data_zone : W → W
  pub uncommitted_writes : W → List (DataZone P)

-- What `io::Write` documents: `contents` are the bytes that the writer has accepted. A call of
-- `write` that returns n has accepted the first n bytes, one that fails has accepted none, and
-- `write_all` accepts all bytes or fails.
pub record IsHonest {W P : Type 0} (o : RecoverableWrite W P) (contents : W → Bytes) : Type 0 where
  pub write_le : (b : Bytes) (w : W) (n : ℕ) → (o.write b w).0 ≡ ok n → n ≤ length b
  pub write_ok :
      (b : Bytes) (w : W) (n : ℕ)
      → (o.write b w).0 ≡ ok n
      → contents (o.write b w).1 ≡ contents w ++ take n b
  pub write_err :
      (b : Bytes) (w : W) (e : ErrorKind)
      → (o.write b w).0 ≡ err e
      → contents (o.write b w).1 ≡ contents w
  pub write_all_ok :
      (b : Bytes) (w : W)
      → (o.write_all b w).0 ≡ ok tt
      → contents (o.write_all b w).1 ≡ contents w ++ b
  pub contents-begin : (p : P) (w : W) → contents (o.begin_data_zone p w) ≡ contents w
  pub contents-resume : (p : P) (n : ℕ) (w : W) → contents (o.resume_data_zone p n w) ≡ contents w
  pub contents-end : (w : W) → contents (o.end_data_zone w) ≡ contents w

-- A flush adds nothing to what has been accepted, as of a file.
pub record KeepsOnFlush {W P : Type 0} (o : RecoverableWrite W P) (contents : W → Bytes)
    : Type 0 where
  pub contents-flush : (w : W) → contents (o.flush w).1 ≡ contents w

-- A flush that succeeds adds zeros at most, as that of a `BlockingWriter` does, which pads its block.
pub record PadsOnFlush {W P : Type 0} (o : RecoverableWrite W P) (contents : W → Bytes)
    : Type 0 where
  pub flush_pads :
      (w : W)
      → (o.flush w).0 ≡ ok tt
      → (zeros : ℕ) × (contents (o.flush w).1 ≡ contents w ++ replicate zeros 0)

-- A writer that takes at least one byte of every buffer that holds one, unless it fails.
abbrev pub MakesProgress : {W P : Type 0} → RecoverableWrite W P → Type 0
MakesProgress {W} o = (b : Bytes) (w : W) (n : ℕ) → (o.write b w).0 ≡ ok n → 0 < length b → 0 < n
