-- ===== src/Spanning/Stream/Refines.antt =====
-- librapidarchive/src/spanning.rs: `DataZoneStream` refines a first-in first-out queue of bytes.
use rapidtar.Prelude.{
  ℕ, ◌+◌, ◌<◌, ◌≡◌, refl, ap, ◌∙◌, Option, none, some, List, [], ◌∷◌, ◌++◌, arith, drop, replicate,
  u64_mod,
}
use native.Mathlib.Nat.{add-zero}
use rapidtar.Spanning.Zone
use rapidtar.Spanning.Zone.Laws.{ident-write_committed}
use rapidtar.Spanning.Zone.{DataZone}
use rapidtar.Spanning.Stream.{
  DataZoneStream, on_zone, new, write_buffered, write_through, write_committed, end_data_zone,
  begin_data_zone, resume_data_zone, commit_current,
}
use rapidtar.Spanning.Stream.Fifo.{labels, IsTracked}
use rapidtar.Spanning.Stream.Commit.{labels-write_committed}
use rapidtar.Spanning.Stream.Steps.{
  labels-write_buffered, labels-write_through, labels-zone_change, labels-end_data_zone,
  write_buffered-IsTracked, write_through-IsTracked, end_data_zone-IsTracked,
  begin_data_zone-IsTracked, resume_data_zone-IsTracked, new_labels,
}

-- The calls that a writer makes on its stream.
pub data StreamCall {ℓ} (P : Type ℓ) : Type ℓ where
  buffered through committed : ℕ → StreamCall P
  begin : P → StreamCall P
  resume : P → ℕ → StreamCall P
  finish : StreamCall P

-- The abstract queue: whether a zone is open and under which identifier, and the bytes.
pub record Queue {ℓ} (P : Type ℓ) : Type ℓ where
  pub open_ident : Option (Option P)
  pub bytes : List (Option P)

module _ {ℓ} {P : Type ℓ} where
  abbrev pub call : StreamCall P → DataZoneStream P → DataZoneStream P
  call (buffered n) s = write_buffered n s
  call (through n) s = write_through n s
  call (committed n) s = (write_committed n s).0
  call (begin p) s = begin_data_zone p s
  call (resume p n) s = resume_data_zone p n s
  call finish s = end_data_zone s

  abbrev pub run : List (StreamCall P) → DataZoneStream P → DataZoneStream P
  run [] s = s
  run (c ∷ cs) s = run cs (call c s)

  abbrev pub push : ℕ → Option (Option P) → List (Option P)
  push n none = []
  push n (some ident) = replicate n ident

  abbrev pub queue_call : StreamCall P → Queue P → Queue P
  queue_call (buffered n) q = record q { bytes = q.bytes ++ push n q.open_ident }
  queue_call (through n) q = q
  queue_call (committed n) q = record q { bytes = drop n q.bytes }
  queue_call (begin p) q = record q { open_ident = some (some p) }
  queue_call (resume p n) q = record q { open_ident = some (some p) }
  queue_call finish q = record q { open_ident = some none }

  abbrev pub queue_run : List (StreamCall P) → Queue P → Queue P
  queue_run [] q = q
  queue_run (c ∷ cs) q = queue_run cs (queue_call c q)

  -- The bytes by which a call can lengthen a zone, and the bytes that it names.
  abbrev pub volume : StreamCall P → ℕ
  volume (buffered n) = n
  volume (through n) = n
  volume (resume p n) = n
  volume _ = 0

  abbrev pub InWord : StreamCall P → Type 0
  InWord (committed n) = n < u64_mod
  InWord _ = Unit

  -- The calls commit words, and all that is written adds up to less than 2^64 bytes.
  abbrev pub FitsInWords : ℕ → List (StreamCall P) → Type 0
  FitsInWords bound [] = bound < u64_mod
  FitsInWords bound (c ∷ cs) = InWord c × FitsInWords (bound + volume c) cs

  abbrev pub cur_ident : Option (DataZone P) → Option (Option P)
  cur_ident none = none
  cur_ident (some z) = some z.ident

  -- What the stream stands for.
  abbrev pub view : DataZoneStream P → Queue P
  view s = record { open_ident = cur_ident s.cur_zone; bytes = labels s }

  queue_path : {q r : Queue P} → q.open_ident ≡ r.open_ident → q.bytes ≡ r.bytes → q ≡ r
  queue_path p b = λ i. record { open_ident = p i; bytes = b i }

  cur_ident-write_buffered :
      (n : ℕ) (cur : Option (DataZone P))
      → cur_ident (on_zone (Zone.write_buffered n) cur) ≡ cur_ident cur
  unfolding Zone.write_buffered
  cur_ident-write_buffered n none = refl
  cur_ident-write_buffered n (some z) = refl

  cur_ident-write_through :
      (n : ℕ) (cur : Option (DataZone P))
      → cur_ident (on_zone (Zone.write_through n) cur) ≡ cur_ident cur
  unfolding Zone.write_through
  cur_ident-write_through n none = refl
  cur_ident-write_through n (some z) = refl

  cur_ident-commit :
      (n : ℕ) (cur : Option (DataZone P)) → cur_ident (commit_current n cur).0 ≡ cur_ident cur
  unfolding commit_current
  cur_ident-commit n none = ground arith
  cur_ident-commit n (some z) = ground (arith, ident-write_committed n z)

  push-eq-new_labels :
      (n : ℕ) (cur : Option (DataZone P)) → new_labels n cur ≡ push n (cur_ident cur)
  push-eq-new_labels n none = refl
  push-eq-new_labels n (some z) = refl

  bound_of_fits : (bound : ℕ) (cs : List (StreamCall P)) → FitsInWords bound cs → bound < u64_mod
  bound_of_fits bound [] h = h
  bound_of_fits bound (c ∷ cs) h = omega (arith, bound_of_fits (bound + volume c) cs h.1)

  weaken : (bound : ℕ) {s : DataZoneStream P} → IsTracked bound s → IsTracked (bound + 0) s
  weaken bound {s} v = rw (← add-zero bound) at v

  call_lem :
      (bound : ℕ) (c : StreamCall P) (s : DataZoneStream P)
      → InWord c
      → bound + volume c < u64_mod
      → IsTracked bound s
      → (view (call c s) ≡ queue_call c (view s)) × IsTracked (bound + volume c) (call c s)
  call_lem bound (buffered n) s w h v = (
    queue_path (unfold write_buffered in cur_ident-write_buffered n s.cur_zone) (
        labels-write_buffered n bound s h v
        ∙ ap (λ t. labels s ++ t) (push-eq-new_labels n s.cur_zone)),
    write_buffered-IsTracked n bound s h v,
  )
  call_lem bound (through n) s w h v = (
    queue_path (unfold write_through in cur_ident-write_through n s.cur_zone)
        (labels-write_through n s),
    write_through-IsTracked n bound s h v,
  )
  call_lem bound (committed n) s w h v =
      let done = labels-write_committed n bound s w v in
      (
        queue_path (unfold write_committed in cur_ident-commit _ s.cur_zone) done.0,
        weaken bound done.2,
      )
  call_lem bound (begin p) s w h v = (
    queue_path (unfold begin_data_zone Zone.new in refl) (labels-zone_change bound s v p 0).1,
    weaken bound (begin_data_zone-IsTracked bound s v p),
  )
  call_lem bound (resume p n) s w h v = (
    queue_path (unfold resume_data_zone Zone.for_resumption in refl)
        (labels-zone_change bound s v p n).2,
    resume_data_zone-IsTracked bound s v p n h,
  )
  call_lem bound finish s w h v = (
    queue_path (unfold end_data_zone Zone.slack_zone in refl) (labels-end_data_zone bound s v),
    weaken bound (end_data_zone-IsTracked bound s v),
  )

  run_lem :
      (bound : ℕ) (cs : List (StreamCall P)) (s : DataZoneStream P)
      → FitsInWords bound cs
      → IsTracked bound s
      → view (run cs s) ≡ queue_run cs (view s)
  run_lem bound [] s h v = refl
  run_lem bound (c ∷ cs) s (w, h) v =
      let step = call_lem bound c s w (bound_of_fits (bound + volume c) cs h) v in
      run_lem (bound + volume c) cs (call c s) h step.1 ∙ ap (queue_run cs) step.0

  -- Start a stream empty and make any calls on it that commit words and write, or resume, less
  -- than 2^64 bytes in all: its zones then stand for exactly the queue that the same calls make of
  -- an empty queue, where buffering appends bytes under the open zone's identifier, committing n
  -- takes the first n bytes off, and writing through and opening or ending a zone moves no byte.
  pub stream_refines_queue :
      (cs : List (StreamCall P))
      → FitsInWords 0 cs
      → view (run cs new) ≡ queue_run cs (record { open_ident = none; bytes = [] })
  unfolding new
  stream_refines_queue cs h = run_lem 0 cs new h (record { pending = tt; cur = tt })
