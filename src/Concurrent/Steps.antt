-- ===== src/Concurrent/Steps.antt =====
-- librapidarchive/src/concurrentbuf.rs: what each step of the thread and of the caller does to the
-- bytes that are on their way.
use rapidtar.Prelude.{
  ℕ, ◌+◌, ◌-◌, ◌≤◌, ◌<◌, ◌≡◌, refl, sym, ap, ◌∙◌, List, [], ◌∷◌, ◌++◌, arith, length, length-append,
  append-nil, append_assoc, add64_exact, sub64_exact, u64_mod,
}
use mathlib.Core.Path.{ap₂}
use rapidtar.Io.{Bytes, IoResult, ok, err, RecoverableWrite, IsHonest, KeepsOnFlush}
use rapidtar.Concurrent.{
  ConcurrentCommand, do_read, do_write_all, do_flush, do_end_data_zone, terminate,
  do_begin_data_zone, do_resume_data_zone, ConcurrentResponse, did_read, did_write_all, did_flush,
  did_begin_data_zone, did_resume_data_zone, did_end_data_zone, terminated, ConcurrentWriteBuffer,
  answer_write_all, send, respond, mark_data_committed, mark_data_buffered, drain, enqueue, execute,
}
use rapidtar.Concurrent.Run.{
  command_bytes, queued, queued-append, response_size, acknowledged, acknowledged-append, Succeeds,
}

module _ {W P : Type 0} (contents : W → Bytes) where
  -- What has reached the inner writer and what is queued is what was written, and the count is that
  -- of the bytes that the caller has yet to hear of.
  pub record InOrder (w : W) (s : ConcurrentWriteBuffer W P) (written : Bytes) : Type 0 where
    pub order : contents s.inner ++ queued s.commands ≡ contents w ++ written
    pub count : s.buffered_size ≡ length (queued s.commands) + acknowledged s.responses
    pub bounded : s.buffered_size ≤ length written

module _ {W P : Type 0} (o : RecoverableWrite W P) (contents : W → Bytes)
    (honest : IsHonest o contents) (keeps : KeepsOnFlush o contents) where
  -- A command moves on to the inner writer, and its response comes behind the others.
  advance :
      (w : W) (s t : ConcurrentWriteBuffer W P) (written : Bytes) (c : ConcurrentCommand P)
      (r : ConcurrentResponse) {cs : List (ConcurrentCommand P)}
      → s.commands ≡ c ∷ cs
      → contents t.inner ≡ contents s.inner ++ command_bytes c
      → response_size r ≡ length (command_bytes c)
      → t.commands ≡ cs
      → t.responses ≡ s.responses ++ r ∷ []
      → t.buffered_size ≡ s.buffered_size
      → InOrder contents w s written
      → InOrder contents w t written
  advance w s t written c r {cs} e moved size commands responses same v =
      let split : queued s.commands ≡ command_bytes c ++ queued cs = ap queued e in
      record {
        order =
            ap₂ (λ x y. x ++ queued y) moved commands
            ∙ append_assoc (contents s.inner) (command_bytes c) (queued cs)
            ∙ ap (λ t. contents s.inner ++ t) (sym split)
            ∙ v.order;
        count = omega (
          arith,
          same,
          v.count,
          ap length split,
          length-append (command_bytes c) (queued cs),
          ap (λ x. length (queued x)) commands,
          ap acknowledged responses,
          acknowledged-append s.responses r,
          size,
        );
        bounded = omega (arith, same, v.bounded);
      }

  answer_size :
      (n : ℕ) (a : IoResult (Unit {0})) → a ≡ ok tt → response_size (answer_write_all n a) ≡ n
  unfolding answer_write_all
  answer_size n (ok x) h = refl
  answer_size n (err e) h = absurd (cc)

  same_contents : {x y : Bytes} → x ≡ y → x ≡ y ++ []
  same_contents h = h ∙ sym (append-nil _)

  pub execute-InOrder :
      (w : W) (s : ConcurrentWriteBuffer W P) (written : Bytes) (c : ConcurrentCommand P)
      (cs : List (ConcurrentCommand P))
      → s.commands ≡ c ∷ cs
      → Succeeds o c s.inner
      → InOrder contents w s written
      → InOrder contents w (execute o c (record s { commands = cs })) written
  unfolding execute respond
  execute-InOrder w s written (do_read n) cs e h v =
      advance w s _ written (do_read n) _ e (same_contents refl) refl refl refl refl v
  execute-InOrder w s written (do_write_all b) cs e h v =
      advance w s _ written (do_write_all b) _ e (honest.write_all_ok b s.inner h)
        (answer_size (length b) (o.write_all b s.inner).0 h) refl refl refl v
  execute-InOrder w s written do_flush cs e h v =
      advance w s _ written do_flush (did_flush (o.flush s.inner).0) e
        (same_contents (keeps.contents-flush s.inner)) refl refl refl refl v
  execute-InOrder w s written (do_begin_data_zone p) cs e h v =
      advance w s _ written (do_begin_data_zone p) _ e
        (same_contents (honest.contents-begin p s.inner)) refl refl refl refl v
  execute-InOrder w s written (do_resume_data_zone p n) cs e h v =
      advance w s _ written (do_resume_data_zone p n) _ e
        (same_contents (honest.contents-resume p n s.inner)) refl refl refl refl v
  execute-InOrder w s written do_end_data_zone cs e h v =
      advance w s _ written do_end_data_zone _ e (same_contents (honest.contents-end s.inner)) refl
        refl refl refl v
  execute-InOrder w s written terminate cs e h v =
      advance w s _ written terminate _ e (same_contents refl) refl refl refl refl v

  -- The caller takes a response off the channel, and its bytes off the count.
  received :
      (w : W) (s t : ConcurrentWriteBuffer W P) (written : Bytes) (r : ConcurrentResponse)
      {rs : List ConcurrentResponse}
      → s.responses ≡ r ∷ rs
      → t.inner ≡ s.inner
      → t.commands ≡ s.commands
      → t.responses ≡ rs
      → t.buffered_size ≡ s.buffered_size - response_size r
      → InOrder contents w s written
      → InOrder contents w t written
  received w s t written r e inner commands responses less v = record {
    order = ap₂ (λ x y. contents x ++ queued y) inner commands ∙ v.order;
    count = omega (
      arith,
      less,
      v.count,
      ap acknowledged e,
      ap acknowledged responses,
      ap (λ x. length (queued x)) commands,
    );
    bounded = omega (arith, less, v.bounded);
  }

  silent :
      (w : W) (s : ConcurrentWriteBuffer W P) (written : Bytes) (r : ConcurrentResponse)
      {rs : List ConcurrentResponse}
      → s.responses ≡ r ∷ rs
      → response_size r ≡ 0
      → InOrder contents w s written
      → InOrder contents w (record s { responses = rs }) written
  silent w s written r {rs} e size v =
      received w s (record s { responses = rs }) written r e refl refl refl (omega (arith, size)) v

  pub drain-InOrder :
      (w : W) (s : ConcurrentWriteBuffer W P) (written : Bytes) (r : ConcurrentResponse)
      (rs : List ConcurrentResponse)
      → length written < u64_mod
      → s.responses ≡ r ∷ rs
      → InOrder contents w s written
      → InOrder contents w (drain r (record s { responses = rs })).1 written
  unfolding drain mark_data_committed
  drain-InOrder w s written (did_write_all (ok n)) rs small e v =
      let fits : n ≤ s.buffered_size = omega (arith, v.count, ap acknowledged e) in
      let exact = sub64_exact s.buffered_size n (omega (arith, small, v.bounded)) fits in
      received w s _ written (did_write_all (ok n)) e refl refl refl exact v
  drain-InOrder w s written (did_write_all (err x)) rs small e v =
      silent w s written (did_write_all (err x)) e refl v
  drain-InOrder w s written (did_read (err x)) rs small e v =
      silent w s written (did_read (err x)) e refl v
  drain-InOrder w s written (did_read (ok x)) rs small e v =
      silent w s written (did_read (ok x)) e refl v
  drain-InOrder w s written (did_flush (err x)) rs small e v =
      silent w s written (did_flush (err x)) e refl v
  drain-InOrder w s written (did_flush (ok x)) rs small e v =
      silent w s written (did_flush (ok x)) e refl v
  drain-InOrder w s written did_begin_data_zone rs small e v =
      silent w s written did_begin_data_zone e refl v
  drain-InOrder w s written did_resume_data_zone rs small e v =
      silent w s written did_resume_data_zone e refl v
  drain-InOrder w s written did_end_data_zone rs small e v =
      silent w s written did_end_data_zone e refl v
  drain-InOrder w s written terminated rs small e v = silent w s written terminated e refl v

  -- A command without bytes goes to the end of the queue.
  pub send-InOrder :
      (w : W) (s t : ConcurrentWriteBuffer W P) (written : Bytes) (c : ConcurrentCommand P)
      → command_bytes c ≡ []
      → t.inner ≡ s.inner
      → t.commands ≡ s.commands ++ c ∷ []
      → t.responses ≡ s.responses
      → t.buffered_size ≡ s.buffered_size
      → InOrder contents w s written
      → InOrder contents w t written
  send-InOrder w s t written c nothing inner commands responses same v =
      let more : queued t.commands ≡ queued s.commands =
        ap queued commands
        ∙ queued-append s.commands c
        ∙ ap (λ b. queued s.commands ++ b) nothing
        ∙ append-nil (queued s.commands) in
      record {
        order = ap₂ (λ x y. contents x ++ y) inner more ∙ v.order;
        count = omega (arith, same, v.count, ap length more, ap acknowledged responses);
        bounded = omega (arith, same, v.bounded);
      }

  pub enqueue-InOrder :
      (w : W) (s : ConcurrentWriteBuffer W P) (written buf : Bytes)
      → length (written ++ buf) < u64_mod
      → InOrder contents w s written
      → InOrder contents w (enqueue buf s) (written ++ buf)
  unfolding enqueue send mark_data_buffered
  enqueue-InOrder w s written buf small v =
      let more = queued-append s.commands (do_write_all buf) in
      let size = length-append written buf in
      let exact =
        add64_exact s.buffered_size (length buf) (omega (arith, size, small, v.bounded)) in
      record {
        order =
            ap (λ t. contents s.inner ++ t) more
            ∙ sym (append_assoc (contents s.inner) (queued s.commands) buf)
            ∙ ap (λ t. t ++ buf) v.order
            ∙ append_assoc (contents w) written buf;
        count =
            omega (arith, exact, v.count, ap length more, length-append (queued s.commands) buf);
        bounded = omega (arith, exact, v.bounded, size);
      }
