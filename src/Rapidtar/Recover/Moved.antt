-- ===== src/Rapidtar/Recover/Moved.antt =====
-- rapidtar/src/bin/rapidtar.rs: what the volume holds that `recover_proc` returns.
use rapidtar.Prelude.{
  ℕ, ◌+◌, ◌≡◌, ◌⊎◌, inl, inr, refl, sym, ap, ◌∙◌, Bool, true, false, Option, none, some, ◌++◌,
  if◌then◌else◌, zero, suc, append_assoc, if_false,
}
use rapidtar.Io.{Bytes, IoResult, ok, err, other, IsHonest}
use rapidtar.Tar.Recovery.{Zones, Recovery, recover_data}
use rapidtar.Tar.Recovery.Stream.{RecoveryStream, recover_data-RecoveryStream}
use rapidtar.Rapidtar.Exchange.{Exchange, exchanged, broken, panicked, volume_exchange_cli}
use rapidtar.Rapidtar.Label.{Setting, label_bytes, label_proc}
use rapidtar.Rapidtar.Recover.Volumes.{Handed, kept, passed, GoesOn}
use rapidtar.Rapidtar.Label.Written.{label_written}
use rapidtar.Rapidtar.Recover.{
  Session, Exit, returned, Sinks, first_zone, recovered_to, labelled, with_volume, after_exchange,
  recover_loop, recover_proc,
}

module _ {W : Type 0} (e : Setting) (k : Sinks W) (contents : W → Bytes)
    (honest : IsHonest k.writer contents) where
  -- The sink of the session: a new one, with a label and the recovery stream of the lost zones.
  abbrev pub IsRecovered : Zones → W → Session → Type 0
  IsRecovered lost w s =
      (count : ℕ) × (empty : W) × (label : Bytes) × (bytes : Bytes) × (k.open_sink count
          s.params.outfile s.params.perf_tuning s.params.spanning_size_limit
        ≡ ok empty)
      × (label_bytes e (first_zone lost) s.params s.result ≡ some (ok label))
      × RecoveryStream e.files e.formatting e.fuel s.params.format lost bytes
      × (contents w ≡ contents empty ++ (label ++ bytes))

  recovered_to-ok :
      (lost : Zones) (w : W) (s : Session) (again : Zones → Session → Exit W) (r : Recovery W)
      {v : W} {s' : Session}
      → recover_data e.files k.writer e.formatting e.fuel s.params.format lost w ≡ r
      → recovered_to e k r s again ≡ returned (ok v) s'
      → GoesOn e k lost s again (returned (ok v) s')
        ⊎ ((s ≡ s')
            × ((bytes : Bytes) × RecoveryStream e.files e.formatting e.fuel s.params.format lost
                  bytes
                × (contents v ≡ contents w ++ bytes)))
  unfolding recovered_to
  recovered_to-ok lost w s again none made h = absurd (cc)
  recovered_to-ok lost w s again (some (ok none, w')) {v} {s'} made h =
      let same : w' ≡ v = cc in
      inr (
        (cc),
        recover_data-RecoveryStream e.files k.writer contents honest e.formatting e.fuel
            s.params.format lost w (made ∙ ap (λ w. some (ok none, w)) same),
      )
  recovered_to-ok lost w s again (some (ok (some left), w')) made h =
      inl (left, s, refl, λ last on. passed s.params lost left last w w' made on, h)
  recovered_to-ok lost w s again (some (err x, w')) made h = absurd (cc)

  labelled-ok :
      (count : ℕ) (empty : W) (lost : Zones) (s : Session) (again : Zones → Session → Exit W)
      (x : Option (IoResult (Unit {0}) × W)) {v : W} {s' : Session}
      → k.open_sink count s.params.outfile s.params.perf_tuning s.params.spanning_size_limit
        ≡ ok empty
      → label_proc k.writer e (first_zone lost) s.params s.result empty ≡ x
      → labelled e k x lost s again ≡ returned (ok v) s'
      → GoesOn e k lost s again (returned (ok v) s') ⊎ IsRecovered lost v s'
  unfolding labelled label_proc
  labelled-ok count empty lost s again none opened made h = absurd (cc)
  labelled-ok count empty lost s again (some (err x, w)) opened made h = absurd (cc)
  labelled-ok count empty lost s again (some (ok _, w)) {v} {s'} opened made h =
      let (label, wanted, put) =
        label_written k.writer contents honest (label_bytes e (first_zone lost) s.params s.result)
          empty w made in
      elim (recovered_to-ok lost w s again
        (recover_data e.files k.writer e.formatting e.fuel s.params.format lost w) refl h) [
          | inl on ↦ inl on
          | inr (same, (bytes, stream, after)) ↦
              let all : contents v ≡ contents empty ++ (label ++ bytes) =
                after ∙ ap (λ c. c ++ bytes) put ∙ append_assoc (contents empty) label bytes in
              inr (rw (sym same) (count, empty, label, bytes, opened, wanted, stream, all))
        ]

  with_volume-ok :
      (count : ℕ) (lost : Zones) (s : Session) (again : Zones → Session → Exit W) (x : IoResult W)
      {v : W} {s' : Session}
      → k.open_sink count s.params.outfile s.params.perf_tuning s.params.spanning_size_limit ≡ x
      → with_volume e k x lost s again ≡ returned (ok v) s'
      → GoesOn e k lost s again (returned (ok v) s') ⊎ IsRecovered lost v s'
  unfolding with_volume
  with_volume-ok count lost s again (err x) opened h = inl (lost, s, refl, λ last on. on, h)
  with_volume-ok count lost s again (ok empty) opened h =
      let s₁ = record s { result = record s.result { volume_count = s.result.volume_count + 1 } } in
      labelled-ok count empty lost s₁ again
        (label_proc k.writer e (first_zone lost) s₁.params s₁.result empty) opened refl h

  not_cancelled :
      (b : Bool) (t : Session) (out : Exit W) {v : W} {s' : Session}
      → (if b then returned (err other) t else out) ≡ returned (ok v) s'
      → out ≡ returned (ok v) s'
  not_cancelled true t out h = absurd (cc)
  not_cancelled false t out h = h

  after_exchange-ok :
      (x : Exchange) (lost : Zones) (s : Session) (again : Zones → Session → Exit W) {v : W}
      {s' : Session}
      → after_exchange e k x lost s again ≡ returned (ok v) s'
      → ((lost' : Zones) × (s'' : Session) × ((last : Zones)
            → Handed e k lost' last
            → Handed e k lost last)
          × (again lost' s'' ≡ returned (ok v) s'))
        ⊎ IsRecovered lost v s'
  unfolding after_exchange
  after_exchange-ok panicked lost s again h = absurd (cc)
  after_exchange-ok (broken x) lost s again h = absurd (cc)
  after_exchange-ok (exchanged params result input) lost s again h =
      let s₁ = record s { params = params; result = result; input = input } in
      let s₂ = record s₁ { opened = s.opened + 1 } in
      let volume =
        k.open_sink s.opened params.outfile params.perf_tuning params.spanning_size_limit in
      elim (with_volume-ok s.opened lost s₂ again volume refl
        (not_cancelled result.cancelled s₁ (with_volume e k volume lost s₂ again) h)) [
          | inl (lost', s'', _, on, out) ↦ inl (lost', s'', on, out)
          | inr done ↦ inr done
        ]

  recover_loop-IsRecovered :
      (fuel : ℕ) (lost : Zones) (s : Session) {v : W} {s' : Session}
      → recover_loop e k fuel lost s ≡ returned (ok v) s'
      → (last : Zones) × Handed e k lost last × IsRecovered last v s'
  unfolding recover_loop
  recover_loop-IsRecovered zero lost s h = absurd (cc)
  recover_loop-IsRecovered (suc fuel) lost s {v} {s'} h =
      let again : Zones → Session → Exit W = λ lost' s'. recover_loop e k fuel lost' s' in
      let x = volume_exchange_cli k.trim s.params s.result s.input in
      elim (after_exchange-ok x lost s again
        (not_cancelled s.result.cancelled s (after_exchange e k x lost s again) h)) [
          | inl (lost', s'', on, out) ↦
              let (last, handed, done) = recover_loop-IsRecovered fuel lost' s'' out in
              (last, on last handed, done)
          | inr done ↦ (lost, kept lost, done)
        ]

  -- Over sinks that keep to the contract of `io::Write`: where `recover_proc` of an operation that is
  -- not cancelled returns Ok, it returns a sink that has been opened for it, with the label for the
  -- zones that are lost in the end and all of their recovery stream, and nothing else. These zones are
  -- those that the old sink has not committed, as `recover_data` has reported them of each volume in
  -- between.
  pub recover_proc-IsRecovered :
      (fuel : ℕ) (old_tarball : W) (s : Session) {v : W} {s' : Session}
      → s.result.cancelled ≡ false
      → recover_proc e k fuel old_tarball s ≡ returned (ok v) s'
      → (last : Zones) × Handed e k (k.writer.uncommitted_writes old_tarball) last
        × IsRecovered last v s'
  unfolding recover_proc
  recover_proc-IsRecovered fuel old_tarball s going h =
      recover_loop-IsRecovered fuel (k.writer.uncommitted_writes old_tarball) s
        (sym (if_false _ _ _ going) ∙ h)
