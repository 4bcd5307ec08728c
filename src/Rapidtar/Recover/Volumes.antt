-- ===== src/Rapidtar/Recover/Volumes.antt =====
-- rapidtar/src/bin/rapidtar.rs: the volumes that `recover_proc` goes through.
use rapidtar.Prelude.{
  ℕ, ◌+◌, ◌<◌, ◌≡◌, ◌≢◌, inl, inr, refl, sym, ap, ◌∙◌, Bool, true, false, Option, none, some,
  if◌then◌else◌, zero, suc, arith, length, Bool-cases, if_true, if_false,
}
use rapidtar.Io.{IoResult, ok, err, other}
use rapidtar.Tar.Recovery.{Zones, Recovery, recover_data}
use rapidtar.Rapidtar.{TarParameter, TarResult}
use rapidtar.Rapidtar.Exchange.{
  Console, Exchange, exchanged, broken, panicked, volume_exchange_cli, volume_exchange_cli-shorter,
}
use rapidtar.Rapidtar.Label.{Setting, label_proc}
use rapidtar.Rapidtar.Recover.{
  Session, Exit, returned, hung, Sinks, first_zone, recovered_to, labelled, with_volume,
  after_exchange, recover_loop, recover_proc,
}

module _ {W : Type 0} (e : Setting) (k : Sinks W) where
  -- The zones that are lost in the end, by those that are lost at first: each volume in between, at which
  -- `recover_data` breaks off, reports the zones for the next.
  pub data Handed : Zones → Zones → Type 0 where
    kept : (lost : Zones) → Handed lost lost
    passed :
        (params : TarParameter) (lost left last : Zones) (w w' : W)
        → recover_data e.files k.writer e.formatting e.fuel params.format lost w
          ≡ some (ok (some left), w')
        → Handed left last
        → Handed lost last

  -- The call goes on with zones that it hands on, and a session with as much to read.
  abbrev pub GoesOn : Zones → Session → (Zones → Session → Exit W) → Exit W → Type 0
  GoesOn lost s again out =
      (lost' : Zones) × (s' : Session) × (s'.input ≡ s.input)
      × ((last : Zones) → Handed lost' last → Handed lost last)
      × (again lost' s' ≡ out)

  recovered_to-hung :
      (lost : Zones) (w : W) (s : Session) (again : Zones → Session → Exit W) (r : Recovery W)
      → recover_data e.files k.writer e.formatting e.fuel s.params.format lost w ≡ r
      → recovered_to e k r s again ≡ hung
      → GoesOn lost s again hung
  unfolding recovered_to
  recovered_to-hung lost w s again none made h = absurd (cc)
  recovered_to-hung lost w s again (some (ok none, w')) made h = absurd (cc)
  recovered_to-hung lost w s again (some (ok (some left), w')) made h =
      (left, s, refl, λ last on. passed s.params lost left last w w' made on, h)
  recovered_to-hung lost w s again (some (err x, w')) made h = absurd (cc)

  labelled-hung :
      (x : Option (IoResult (Unit {0}) × W)) (lost : Zones) (s : Session)
      (again : Zones → Session → Exit W)
      → labelled e k x lost s again ≡ hung
      → GoesOn lost s again hung
  unfolding labelled
  labelled-hung none lost s again h = absurd (cc)
  labelled-hung (some (err x, w)) lost s again h = absurd (cc)
  labelled-hung (some (ok _, w)) lost s again h =
      recovered_to-hung lost w s again
        (recover_data e.files k.writer e.formatting e.fuel s.params.format lost w) refl h

  with_volume-hung :
      (x : IoResult W) (lost : Zones) (s : Session) (again : Zones → Session → Exit W)
      → with_volume e k x lost s again ≡ hung
      → GoesOn lost s again hung
  unfolding with_volume
  with_volume-hung (err x) lost s again h = (lost, s, refl, λ last on. on, h)
  with_volume-hung (ok w) lost s again h =
      let s' = record s { result = record s.result { volume_count = s.result.volume_count + 1 } } in
      labelled-hung (label_proc k.writer e (first_zone lost) s'.params s'.result w) lost s' again h

  after_exchange-hung :
      (x : Exchange) (lost : Zones) (s : Session) (again : Zones → Session → Exit W)
      → after_exchange e k x lost s again ≡ hung
      → (params : TarParameter) × (result : TarResult) × (input : Console) × (x
          ≡ exchanged params result input)
        × GoesOn lost (record s { params = params; result = result; input = input }) again hung
  unfolding after_exchange
  after_exchange-hung panicked lost s again h = absurd (cc)
  after_exchange-hung (broken x) lost s again h = absurd (cc)
  after_exchange-hung (exchanged params result input) lost s again h =
      let s' = record s {
        params = params;
        result = result;
        input = input;
        opened = s.opened + 1;
      } in
      let volume =
        k.open_sink s.opened params.outfile params.perf_tuning params.spanning_size_limit in
      (
        params,
        result,
        input,
        refl,
        not_cancelled result.cancelled (record s' { opened = s.opened })
            (with_volume e k volume lost s' again) h
            (λ h'. with_volume-hung volume lost s' again h'),
      )
    where
      not_cancelled :
          (b : Bool) (t : Session) (out : Exit W) {A : Type 0}
          → (if b then returned (err other) t else out) ≡ hung
          → (out ≡ hung → A)
          → A
      not_cancelled true t out h on = absurd (cc)
      not_cancelled false t out h on = on h

  recover_loop-returns :
      (fuel : ℕ) (lost : Zones) (s : Session)
      → length s.input < fuel
      → recover_loop e k fuel lost s ≢ hung
  unfolding recover_loop
  recover_loop-returns zero lost s enough h = absurd (omega arith)
  recover_loop-returns (suc fuel) lost s enough h = elim (Bool-cases s.result.cancelled) [
    | inl stopped ↦
        let out : returned (err other) s ≡ hung = sym (if_true _ _ _ stopped) ∙ h in absurd (cc)
    | inr going ↦
        let again : Zones → Session → Exit W = λ lost' s'. recover_loop e k fuel lost' s' in
        let x = volume_exchange_cli k.trim s.params s.result s.input in
        let (params, result, input, answer, (lost', s', same, _, h')) =
          after_exchange-hung x lost s again (sym (if_false _ _ _ going) ∙ h) in
        recover_loop-returns fuel lost' s'
          (omega (
            arith,
            enough,
            ap length same,
            volume_exchange_cli-shorter k.trim s.params s.result s.input going answer,
          ))
          h'
  ]

  -- Where there is one round of fuel for each line of the input and one more, `recover_proc` does not
  -- hang: however often a volume cannot be opened or fills up, it returns, unless it panics or an
  -- attribute of a header takes more rounds than its fuel.
  pub recover_proc-returns :
      (fuel : ℕ) (old_tarball : W) (s : Session)
      → length s.input < fuel
      → recover_proc e k fuel old_tarball s ≢ hung
  unfolding recover_proc
  recover_proc-returns fuel old_tarball s enough h = elim (Bool-cases s.result.cancelled) [
    | inl stopped ↦
        let out : returned (ok old_tarball) s ≡ hung = sym (if_true _ _ _ stopped) ∙ h in
        absurd (cc)
    | inr going ↦
        recover_loop-returns fuel (k.writer.uncommitted_writes old_tarball) s enough
          (sym (if_false _ _ _ going) ∙ h)
  ]
