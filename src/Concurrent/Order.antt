-- ===== src/Concurrent/Order.antt =====
-- librapidarchive/src/concurrentbuf.rs: whatever the order of the steps of the thread and of the
-- caller, bytes reach the inner writer in the order of the calls, and are counted until they do.
use rapidtar.Prelude.{
  ℕ, ◌+◌, ◌≤◌, ◌<◌, ◌≡◌, refl, false, ◌++◌, arith, length, length-append, add64_exact, u64_mod,
}
use rapidtar.Io.{Bytes, RecoverableWrite, IsHonest, KeepsOnFlush}
use rapidtar.Concurrent.{
  do_flush, do_end_data_zone, terminate, do_begin_data_zone, do_resume_data_zone,
  ConcurrentWriteBuffer, new, send, mark_data_buffered, lacks_space, enqueue, begin_data_zone,
  resume_data_zone, end_data_zone,
}
use rapidtar.Concurrent.Run.{
  queued, acknowledged, Run, start, work, wait, write, flush, begin, resume, end, finish,
}
use rapidtar.Concurrent.Steps.{
  InOrder, execute-InOrder, drain-InOrder, send-InOrder, enqueue-InOrder,
}

module _ {W P : Type 0} (o : RecoverableWrite W P) (contents : W → Bytes)
    (honest : IsHonest o contents) (keeps : KeepsOnFlush o contents) where
  -- Over an inner writer that keeps to the contract of `io::Write` and whose flush adds nothing, in every run in which no write
  -- of the thread fails and less than 2^64 bytes are written: the bytes that have reached the inner
  -- writer, followed by those that are queued, are those that the caller has written, in order; and
  -- `buffered_size` counts exactly the bytes of whose arrival the caller has yet to hear.
  pub run-InOrder :
      {w : W} {limit : ℕ} {s : ConcurrentWriteBuffer W P} {written : Bytes}
      → length written < u64_mod
      → Run o w limit s written
      → InOrder contents w s written
  unfolding new send begin_data_zone resume_data_zone end_data_zone
  run-InOrder {w} small start = record { order = refl; count = refl; bounded = omega arith }
  run-InOrder {w} small (work s written c cs run alive e h) =
      execute-InOrder o contents honest keeps w s written c cs e h (run-InOrder small run)
  run-InOrder {w} small (wait s written r rs run e) =
      drain-InOrder o contents honest keeps w s written r rs small e (run-InOrder small run)
  run-InOrder {w} small (write s written buf run space) =
      enqueue-InOrder o contents honest keeps w s written buf small
        (run-InOrder (omega (arith, small, length-append written buf)) run)
  run-InOrder {w} small (flush s written run) =
      send-InOrder o contents honest keeps w s _ written do_flush refl refl refl refl refl
        (run-InOrder small run)
  run-InOrder {w} small (begin s written p run) =
      send-InOrder o contents honest keeps w s _ written (do_begin_data_zone p) refl refl refl refl
        refl (run-InOrder small run)
  run-InOrder {w} small (resume s written p n run) =
      send-InOrder o contents honest keeps w s _ written (do_resume_data_zone p n) refl refl refl
        refl refl (run-InOrder small run)
  run-InOrder {w} small (end s written run) =
      send-InOrder o contents honest keeps w s _ written do_end_data_zone refl refl refl refl refl
        (run-InOrder small run)
  run-InOrder {w} small (finish s written run) =
      send-InOrder o contents honest keeps w s _ written terminate refl refl refl refl refl
        (run-InOrder small run)

  -- After a `write` of less than the limit, in such a run, no more bytes than the limit are on their
  -- way to the inner writer or not yet acknowledged.
  pub write_within_limit :
      {w : W} {limit : ℕ} {s : ConcurrentWriteBuffer W P} {written : Bytes} (buf : Bytes)
      → length (written ++ buf) < u64_mod
      → Run o w limit s written
      → lacks_space (length buf) s ≡ false
      → length buf < s.buffered_limit
      → length (queued (enqueue buf s).commands) + acknowledged (enqueue buf s).responses
        ≤ s.buffered_limit
  unfolding lacks_space mark_data_buffered enqueue send
  write_within_limit {w} {limit} {s} {written} buf small run space short =
      let before = run-InOrder (omega (arith, small, length-append written buf)) run in
      let after = run-InOrder small (write s written buf run space) in
      let exact =
        add64_exact s.buffered_size (length buf)
          (omega (arith, small, before.bounded, length-append written buf)) in
      let room : s.buffered_size + length buf ≤ s.buffered_limit = ground arith in
      omega (arith, after.count, exact, room)
