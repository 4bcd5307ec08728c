-- ===== src/Rapidtar/Archive/Created.antt =====
-- rapidtar/src/bin/rapidtar.rs: the archive that one volume holds.
use rapidtar.Prelude.{
  ℕ, ◌≡◌, refl, sym, ap, ◌∙◌, false, Option, none, some, List, ◌++◌, replicate, append_assoc,
  if_false, suc,
}
use rapidtar.Io.{Bytes, IoResult, ok, err, RecoverableWrite, IsHonest, PadsOnFlush}
use rapidtar.Tar.Header.{RecoveryEntry}
use rapidtar.Tar.Serialize.{HeaderGenResult, continue}
use rapidtar.Rapidtar.{TarParameter, TarResult}
use rapidtar.Rapidtar.Label.{Setting, label_bytes, label_proc}
use rapidtar.Rapidtar.Label.Written.{label_written}
use rapidtar.Rapidtar.Recover.{Session, Exit, returned, Sinks}
use rapidtar.Rapidtar.Archive.{
  Pass, serialize_entries, after_label, serialize_proc, close_tarball, closed, after_pass,
  with_pass, create,
}
use rapidtar.Rapidtar.Archive.Entries.{Archived, entries_done}

module _ {W : Type 0} (o : RecoverableWrite W RecoveryEntry) (contents : W → Bytes)
    (honest : IsHonest o contents) where
  labelled_entries :
      (e : Setting) (params : TarParameter) (entries : List HeaderGenResult) (result : TarResult)
      (w : W) (x : Option (IoResult (Unit {0}) × W)) {p : Pass W}
      → label_proc o e none params result w ≡ x
      → after_label o x e.files params entries result ≡ some p
      → p.outcome ≡ ok tt
      → (label : Bytes) × (bytes : Bytes) × (label_bytes e none params result ≡ some (ok label))
        × Archived o contents honest e.files entries bytes
        × (contents p.tarball ≡ contents w ++ (label ++ bytes))
  unfolding after_label label_proc
  labelled_entries e params entries result w none made h good = absurd (cc)
  labelled_entries e params entries result w (some (err x, v)) made h good = absurd (cc)
  labelled_entries e params entries result w (some (ok _, v)) {p} made h good =
      let pass = serialize_entries o e.files params.spanning entries result v in
      let same : pass ≡ p = cc in
      let (label, wanted, put) =
        label_written o contents honest (label_bytes e none params result) w v made in
      let (bytes, stream, after) =
        entries_done o contents honest e.files params.spanning entries result v
          (ap (λ p. p.outcome) same ∙ good) in
      (
        label,
        bytes,
        wanted,
        stream,
        sym (ap (λ p. contents p.tarball) same)
            ∙ after
            ∙ ap (λ c. c ++ bytes) put
            ∙ append_assoc (contents w) label bytes,
      )

  -- Over a sink that keeps to the contract of `io::Write`: where `serialize_proc` returns Ok, it has
  -- written the label of the volume and all entries that the receiver yields, in their order, each with
  -- its header, its file and the rest of its last block, and nothing else.
  pub serialize_proc-Archived :
      (e : Setting) (params : TarParameter) (entries : List HeaderGenResult) (result : TarResult)
      (w : W) {p : Pass W}
      → serialize_proc o e params entries result w ≡ some p
      → p.outcome ≡ ok tt
      → (label : Bytes) × (bytes : Bytes) × (label_bytes e none params result ≡ some (ok label))
        × Archived o contents honest e.files entries bytes
        × (contents p.tarball ≡ contents w ++ (label ++ bytes))
  unfolding serialize_proc
  serialize_proc-Archived e params entries result w h good =
      labelled_entries e params entries result w (label_proc o e none params result w) refl h good

  module _ (pads : PadsOnFlush o contents) where
    flushed :
        (x : IoResult (Unit {0}) × W)
        → (continue x (λ _ w'. o.flush w')).0 ≡ ok tt
        → (x.0 ≡ ok tt)
          × ((zeros : ℕ) × (contents (continue x (λ _ w'. o.flush w')).1
                ≡ contents x.1 ++ replicate zeros 0))
    flushed (ok _, w) h = (refl, pads.flush_pads w h)
    flushed (err e, w) h = absurd (cc)

    zeros_written :
        (w : W)
        → (close_tarball o w).0 ≡ ok tt
        → (zeros : ℕ) × (contents (close_tarball o w).1
            ≡ contents w ++ (replicate 1024 0 ++ replicate zeros 0))
    unfolding close_tarball
    zeros_written w h =
        let (good, (zeros, padded)) = flushed (o.write_all (replicate 1024 0) w) h in
        (
          zeros,
          padded
              ∙ ap (λ c. c ++ replicate zeros 0) (honest.write_all_ok (replicate 1024 0) w good)
              ∙ append_assoc (contents w) (replicate 1024 0) (replicate zeros 0),
        )

module _ {W : Type 0} (e : Setting) (k : Sinks W) (contents : W → Bytes)
    (honest : IsHonest k.writer contents) (pads : PadsOnFlush k.writer contents) where
  closed_inv :
      (x : IoResult (Unit {0}) × W) (s : Session) {v : W} {s' : Session}
      → closed e k x s ≡ returned (ok (some v)) s'
      → (x.0 ≡ ok tt) × (x.1 ≡ v)
  unfolding closed
  closed_inv (ok _, w) s h = (refl, cc)
  closed_inv (err x, w) s h = absurd (cc)

  passed_ok :
      (fuel : ℕ) (r : IoResult (Unit {0})) (p : Pass W) (s : Session)
      (next : List HeaderGenResult → W → Session → Exit (Option W)) {v : W} {s' : Session}
      → r ≡ ok tt
      → after_pass e k fuel r p s next ≡ returned (ok (some v)) s'
      → (zeros : ℕ) × (contents v ≡ contents p.tarball ++ (replicate 1024 0 ++ replicate zeros 0))
  unfolding after_pass
  passed_ok fuel (ok _) p s next good h =
      let (done, same) = closed_inv (close_tarball k.writer p.tarball) _ h in
      let (zeros, after) = zeros_written k.writer contents honest pads p.tarball done in
      (zeros, sym (ap contents same) ∙ after)
  passed_ok fuel (err x) p s next good h = absurd (cc)

  -- Over a sink that keeps to the contract of `io::Write` and whose flush adds zeros at most: where the
  -- first pass of an operation that is not cancelled returns Ok, and the archive is closed, the sink has
  -- got the label of the volume, all entries that the receiver yields, in their order, 1024 zeros and
  -- those that the flush has added, and nothing else.
  pub create-Archived :
      (fuel recoveries : ℕ) (entries : List HeaderGenResult) (w : W) (s : Session) {p : Pass W}
      {v : W} {s' : Session}
      → s.result.cancelled ≡ false
      → serialize_proc k.writer e s.params entries s.result w ≡ some p
      → p.outcome ≡ ok tt
      → create e k (suc fuel) recoveries entries w s ≡ returned (ok (some v)) s'
      → (label : Bytes) × (bytes : Bytes) × (zeros : ℕ) × (label_bytes e none s.params s.result
          ≡ some (ok label))
        × Archived k.writer contents honest e.files entries bytes
        × (contents v ≡ contents w ++ ((label ++ bytes) ++ (replicate 1024 0 ++ replicate zeros 0)))
  unfolding create with_pass
  create-Archived fuel recoveries entries w s {p} {v} {s'} going pass good h =
      let next : List HeaderGenResult → W → Session → Exit (Option W) =
        λ entries' w' s'. create e k fuel recoveries entries' w' s' in
      let (label, bytes, wanted, stream, put) =
        serialize_proc-Archived k.writer contents honest e s.params entries s.result w pass good in
      let out : with_pass e k recoveries (some p) s next ≡ returned (ok (some v)) s' =
        sym (if_false _ _ _ going ∙ ap (λ x. with_pass e k recoveries x s next) pass) ∙ h in
      let (zeros, after) =
        passed_ok recoveries p.outcome p (record s { result = p.result }) next good out in
      (
        label,
        bytes,
        zeros,
        wanted,
        stream,
        after
            ∙ ap (λ c. c ++ (replicate 1024 0 ++ replicate zeros 0)) put
            ∙ append_assoc (contents w) (label ++ bytes) (replicate 1024 0 ++ replicate zeros 0),
      )
