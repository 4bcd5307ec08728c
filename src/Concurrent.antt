-- ===== src/Concurrent.antt =====
-- librapidarchive/src/concurrentbuf.rs: `ConcurrentWriteBuffer`, which hands its writes to a thread.
-- The channels are queues, and a run is a sequence of steps of the thread and of the caller.
pub mod Run
pub mod Steps
pub mod Order
use rapidtar.Prelude.{
  ℕ, ◌+◌, ◌-◌, Bool, true, false, Option, none, some, List, [], ◌∷◌, ◌++◌, ltb, if◌then◌else◌, ◌&&◌,
  length, add64, sub64,
}
use rapidtar.Spanning.Zone.{DataZone, PartialEq}
use rapidtar.Spanning.Stream
use rapidtar.Spanning.Stream.{DataZoneStream}
use rapidtar.Io.{Bytes, IoResult, ok, err, ErrorKind, other, RecoverableWrite}

pub data ConcurrentCommand (P : Type 0) : Type 0 where
  do_read : ℕ → ConcurrentCommand P
  do_write_all : Bytes → ConcurrentCommand P
  do_flush do_end_data_zone terminate : ConcurrentCommand P
  do_begin_data_zone : P → ConcurrentCommand P
  do_resume_data_zone : P → ℕ → ConcurrentCommand P

pub data ConcurrentResponse : Type 0 where
  did_read : IoResult Bytes → ConcurrentResponse
  did_write_all : IoResult ℕ → ConcurrentResponse
  did_flush : IoResult (Unit {0}) → ConcurrentResponse
  did_begin_data_zone did_resume_data_zone did_end_data_zone terminated : ConcurrentResponse

-- The buffer, with both channels and the inner writer that it shares with the thread. `running`
-- says whether the thread is still in its loop.
pub record ConcurrentWriteBuffer (W P : Type 0) : Type 0 where
  pub commands : List (ConcurrentCommand P)
  pub responses : List ConcurrentResponse
  pub running : Bool
  pub inner : W
  pub buffered_size : ℕ
  pub buffered_limit : ℕ
  pub datazone_stream : DataZoneStream P

-- What the thread answers to a `DoWriteAll` of this many bytes.
unfoldable pub answer_write_all : ℕ → IoResult (Unit {0}) → ConcurrentResponse
answer_write_all size (ok _) = did_write_all (ok size)
answer_write_all size (err e) = did_write_all (err e)

module _ {W P : Type 0} where
  unfoldable pub new : W → ℕ → ConcurrentWriteBuffer W P
  new inner limit = record {
    commands = [];
    responses = [];
    running = true;
    inner = inner;
    buffered_size = 0;
    buffered_limit = limit;
    datazone_stream = Stream.new;
  }

  unfoldable pub send : ConcurrentCommand P → ConcurrentWriteBuffer W P → ConcurrentWriteBuffer W P
  send c s = record s { commands = s.commands ++ c ∷ [] }

  unfoldable pub respond :
      ConcurrentResponse → ConcurrentWriteBuffer W P → ConcurrentWriteBuffer W P
  respond r s = record s { responses = s.responses ++ r ∷ [] }

  unfoldable pub mark_data_committed : ℕ → ConcurrentWriteBuffer W P → ConcurrentWriteBuffer W P
  mark_data_committed n s = record s {
    datazone_stream = (Stream.write_committed n s.datazone_stream).0;
    buffered_size = sub64 s.buffered_size n;
  }

  unfoldable pub mark_data_buffered : ℕ → ConcurrentWriteBuffer W P → ConcurrentWriteBuffer W P
  mark_data_buffered n s = record s {
    datazone_stream = Stream.write_buffered n s.datazone_stream;
    buffered_size = add64 s.buffered_size n;
  }

  -- Whether `drain_buf_until_space` goes on waiting.
  unfoldable pub lacks_space : ℕ → ConcurrentWriteBuffer W P → Bool
  lacks_space needed_space s =
      ltb needed_space s.buffered_limit && ltb s.buffered_limit (add64 s.buffered_size needed_space)

  -- What the three drains do with a response that they take off the channel: an error ends them.
  unfoldable pub drain :
      ConcurrentResponse
      → ConcurrentWriteBuffer W P
      → IoResult (Unit {0}) × ConcurrentWriteBuffer W P
  drain (did_write_all (ok size)) s = (ok tt, mark_data_committed size s)
  drain (did_write_all (err e)) s = (err e, s)
  drain (did_read (err e)) s = (err e, s)
  drain (did_read (ok _)) s = (ok tt, s)
  drain (did_flush (err e)) s = (err e, s)
  drain (did_flush (ok _)) s = (ok tt, s)
  drain did_begin_data_zone s = (ok tt, s)
  drain did_resume_data_zone s = (ok tt, s)
  drain did_end_data_zone s = (ok tt, s)
  drain terminated s = (ok tt, s)

  -- `write` behind its first call, which waits for space.
  unfoldable pub enqueue : Bytes → ConcurrentWriteBuffer W P → ConcurrentWriteBuffer W P
  enqueue buf s = send (do_write_all buf) (mark_data_buffered (length buf) s)

  module _ (o : RecoverableWrite W P) where
    -- The body of the thread's loop, for the command that it has received.
    unfoldable pub execute :
        ConcurrentCommand P → ConcurrentWriteBuffer W P → ConcurrentWriteBuffer W P
    execute (do_read _) s = respond (did_read (err other)) s
    execute (do_write_all buf) s =
        respond (answer_write_all (length buf) (o.write_all buf s.inner).0)
          (record s { inner = (o.write_all buf s.inner).1 })
    execute do_flush s =
        respond (did_flush (o.flush s.inner).0) (record s { inner = (o.flush s.inner).1 })
    execute (do_begin_data_zone ident) s =
        respond did_begin_data_zone (record s { inner = o.begin_data_zone ident s.inner })
    execute (do_resume_data_zone ident commit) s =
        respond did_resume_data_zone (record s { inner = o.resume_data_zone ident commit s.inner })
    execute do_end_data_zone s =
        respond did_end_data_zone (record s { inner = o.end_data_zone s.inner })
    execute terminate s = respond terminated (record s { running = false })

    unfoldable pub uncommitted_writes :
        ⦃e : PartialEq P⦄ → ConcurrentWriteBuffer W P → List (DataZone P)
    uncommitted_writes s =
        Stream.uncommitted_writes s.datazone_stream (some (o.uncommitted_writes s.inner))

  unfoldable pub begin_data_zone : P → ConcurrentWriteBuffer W P → ConcurrentWriteBuffer W P
  begin_data_zone ident s =
      send (do_begin_data_zone ident)
        (record s { datazone_stream = Stream.begin_data_zone ident s.datazone_stream })

  unfoldable pub resume_data_zone : P → ℕ → ConcurrentWriteBuffer W P → ConcurrentWriteBuffer W P
  resume_data_zone ident committed s =
      send (do_resume_data_zone ident committed)
        (record s { datazone_stream = Stream.resume_data_zone ident committed s.datazone_stream })

  unfoldable pub end_data_zone : ConcurrentWriteBuffer W P → ConcurrentWriteBuffer W P
  end_data_zone s =
      send do_end_data_zone (record s { datazone_stream = Stream.end_data_zone s.datazone_stream })
