-- ===== src/Concurrent/Run.antt =====
-- librapidarchive/src/concurrentbuf.rs: the runs of a `ConcurrentWriteBuffer`, as sequences of steps of
-- the thread and of the caller in any order, and the bytes that are on their way.
use rapidtar.Prelude.{
  ℕ, ◌+◌, ◌≡◌, sym, ap, ◌∙◌, true, false, List, [], ◌∷◌, ◌++◌, arith, length, append-nil,
  append_assoc,
}
use rapidtar.Io.{Bytes, ok, RecoverableWrite}
use rapidtar.Concurrent.{
  ConcurrentCommand, do_write_all, do_flush, terminate, ConcurrentResponse, did_write_all,
  ConcurrentWriteBuffer, new, send, lacks_space, drain, enqueue, execute, begin_data_zone,
  resume_data_zone, end_data_zone,
}

module _ {P : Type 0} where
  abbrev pub command_bytes : ConcurrentCommand P → Bytes
  command_bytes (do_write_all b) = b
  command_bytes _ = []

  -- The bytes on their way to the thread.
  abbrev pub queued : List (ConcurrentCommand P) → Bytes
  queued [] = []
  queued (c ∷ cs) = command_bytes c ++ queued cs

  pub queued-append :
      (cs : List (ConcurrentCommand P)) (c : ConcurrentCommand P)
      → queued (cs ++ c ∷ []) ≡ queued cs ++ command_bytes c
  queued-append [] c = append-nil (command_bytes c)
  queued-append (d ∷ cs) c =
      ap (λ t. command_bytes d ++ t) (queued-append cs c)
      ∙ sym (append_assoc (command_bytes d) (queued cs) (command_bytes c))

abbrev pub response_size : ConcurrentResponse → ℕ
response_size (did_write_all (ok n)) = n
response_size _ = 0

-- The bytes whose arrival the caller has yet to hear of.
abbrev pub acknowledged : List ConcurrentResponse → ℕ
acknowledged [] = 0
acknowledged (r ∷ rs) = response_size r + acknowledged rs

pub acknowledged-append :
    (rs : List ConcurrentResponse) (r : ConcurrentResponse)
    → acknowledged (rs ++ r ∷ []) ≡ acknowledged rs + response_size r
acknowledged-append [] r = omega arith
acknowledged-append (q ∷ rs) r = omega (arith, acknowledged-append rs r)

module _ {W P : Type 0} (o : RecoverableWrite W P) where
  -- The command is not a write that fails.
  abbrev pub Succeeds : ConcurrentCommand P → W → Type 0
  Succeeds (do_write_all b) w = (o.write_all b w).0 ≡ ok tt
  Succeeds _ w = Unit

  -- The runs of a buffer over `w` in which no write of the thread fails: the states that they reach,
  -- with the bytes that the caller has written. The thread takes a command, the caller takes a
  -- response, or makes a call.
  pub data Run (w : W) (limit : ℕ) : ConcurrentWriteBuffer W P → Bytes → Type 0 where
    start : Run w limit (new w limit) []
    work :
        (s : ConcurrentWriteBuffer W P) (written : Bytes) (c : ConcurrentCommand P)
        (cs : List (ConcurrentCommand P))
        → Run w limit s written
        → s.running ≡ true
        → s.commands ≡ c ∷ cs
        → Succeeds c s.inner
        → Run w limit (execute o c (record s { commands = cs })) written
    wait :
        (s : ConcurrentWriteBuffer W P) (written : Bytes) (r : ConcurrentResponse)
        (rs : List ConcurrentResponse)
        → Run w limit s written
        → s.responses ≡ r ∷ rs
        → Run w limit (drain r (record s { responses = rs })).1 written
    write :
        (s : ConcurrentWriteBuffer W P) (written buf : Bytes)
        → Run w limit s written
        → lacks_space (length buf) s ≡ false
        → Run w limit (enqueue buf s) (written ++ buf)
    flush :
        (s : ConcurrentWriteBuffer W P) (written : Bytes)
        → Run w limit s written
        → Run w limit (send do_flush s) written
    begin :
        (s : ConcurrentWriteBuffer W P) (written : Bytes) (p : P)
        → Run w limit s written
        → Run w limit (begin_data_zone p s) written
    resume :
        (s : ConcurrentWriteBuffer W P) (written : Bytes) (p : P) (n : ℕ)
        → Run w limit s written
        → Run w limit (resume_data_zone p n s) written
    end :
        (s : ConcurrentWriteBuffer W P) (written : Bytes)
        → Run w limit s written
        → Run w limit (end_data_zone s) written
    finish :
        (s : ConcurrentWriteBuffer W P) (written : Bytes)
        → Run w limit s written
        → Run w limit (send terminate s) written
