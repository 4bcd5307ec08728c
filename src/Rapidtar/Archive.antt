-- ===== src/Rapidtar/Archive.antt =====
-- rapidtar/src/bin/rapidtar.rs: `serialize_proc`, `close_tarball`, and the loop of `main` that creates
-- an archive.
pub mod Entries
pub mod Created
use rapidtar.Prelude.{
  ℕ, ◌+◌, Bool, true, false, Option, none, some, List, [], ◌∷◌, if◌then◌else◌, zero, suc, length,
  add64, replicate,
}
use rapidtar.Io.{
  Bytes, ErrorKind, write_zero, invalid_data, invalid_input, interrupted, other, IoResult, ok, err,
  RecoverableWrite,
}
use rapidtar.Tar.Header.{RecoveryEntry}
use rapidtar.Tar.Recovery.{FileSystem, new_from_headergen}
use rapidtar.Tar.Serialize.{HeaderGenResult, continue, serialize}
use rapidtar.Rapidtar.{TarOperation, TarParameter, TarResult}
use rapidtar.Rapidtar.Label.{Setting, label_proc}
use rapidtar.Rapidtar.Recover.{
  Session, Exit, returned, crashed, short_of_fuel, hung, Sinks, recover_proc,
}

-- What a call of `serialize_proc` leaves: its result, the failed entry, what the receiver has yet to
-- yield, the results of the run, and the sink.
pub record Pass (W : Type 0) : Type 0 where
  pub outcome : IoResult (Unit {0})
  pub failed_entry : Option HeaderGenResult
  pub unread : List HeaderGenResult
  pub result : TarResult
  pub tarball : W

module _ {W : Type 0} (o : RecoverableWrite W RecoveryEntry) where
  -- `if tarparams.spanning { … tarball.begin_data_zone(…) }`
  unfoldable pub begin_entry : Bool → HeaderGenResult → W → W
  begin_entry true entry w =
      o.begin_data_zone (new_from_headergen entry (length entry.encoded_header)) w
  begin_entry false entry w = w

  -- `match tar::serialize(&entry, tarball)`
  unfoldable pub after_entry :
      IoResult ℕ × W
      → HeaderGenResult
      → List HeaderGenResult
      → TarResult
      → (TarResult → W → Pass W)
      → Pass W
  after_entry (ok size, w) entry rest result next =
      next (record result { tarball_size = add64 result.tarball_size size }) w
  after_entry (err e, w) entry rest result next = record {
    outcome = err e;
    failed_entry = some entry;
    unread = rest;
    result = result;
    tarball = w;
  }

  -- `while let Ok(entry) = receiver.recv()`, over all that the receiver yields.
  unfoldable pub serialize_entries :
      FileSystem → Bool → List HeaderGenResult → TarResult → W → Pass W
  serialize_entries fs spanning [] result w = record {
    outcome = ok tt;
    failed_entry = none;
    unread = [];
    result = result;
    tarball = w;
  }
  serialize_entries fs spanning (entry ∷ rest) result w =
      after_entry
        (serialize o entry (fs.open_file entry.canonical_path) (begin_entry spanning entry w)) entry
        rest result (λ result' w'. serialize_entries fs spanning rest result' w')

  unfoldable pub after_label :
      Option (IoResult (Unit {0}) × W)
      → FileSystem
      → TarParameter
      → List HeaderGenResult
      → TarResult
      → Option (Pass W)
  after_label none fs params entries result = none
  after_label (some (err e, w)) fs params entries result = some (record {
    outcome = err e;
    failed_entry = none;
    unread = entries;
    result = result;
    tarball = w;
  })
  after_label (some (ok _, w)) fs params entries result =
      some (serialize_entries fs params.spanning entries result w)

  unfoldable pub serialize_proc :
      Setting → TarParameter → List HeaderGenResult → TarResult → W → Option (Pass W)
  serialize_proc e params entries result w =
      after_label (label_proc o e none params result w) e.files params entries result

  -- `close_tarball`, whose sink is dropped after it.
  unfoldable pub close_tarball : W → IoResult (Unit {0}) × W
  close_tarball w = continue (o.write_all (replicate 1024 0) w) (λ _ w'. o.flush w')

module _ {W : Type 0} (e : Setting) (k : Sinks W) where
  -- The archive is closed, and its sink yielded.
  unfoldable pub closed : IoResult (Unit {0}) × W → Session → Exit (Option W)
  closed (ok _, w) s = returned (ok (some w)) s
  closed (err x, w) s = returned (err x) s

  -- After a recovery: the next round of the loop, or its end.
  unfoldable pub after_recovery : Exit W → (W → Session → Exit (Option W)) → Exit (Option W)
  after_recovery (returned (ok w) s) next = next w s
  after_recovery (returned (err x) s) next = returned (ok none) s
  after_recovery crashed next = crashed
  after_recovery short_of_fuel next = short_of_fuel
  after_recovery hung next = hung

  -- `last_error_entry.unwrap()`
  unfoldable pub named_entry : Option HeaderGenResult → Exit (Option W) → Exit (Option W)
  named_entry none next = crashed
  named_entry (some entry) next = next

  -- The match on the result of `serialize_proc`; `next` is the next round of the loop.
  unfoldable pub after_pass :
      ℕ
      → IoResult (Unit {0})
      → Pass W
      → Session
      → (List HeaderGenResult → W → Session → Exit (Option W))
      → Exit (Option W)
  after_pass fuel (ok _) p s next =
      closed (close_tarball k.writer p.tarball)
        (record s { result = record s.result { tarball_size = add64 s.result.tarball_size 1024 } })
  after_pass fuel (err write_zero) p s next =
      if s.params.spanning
      then after_recovery (recover_proc e k fuel p.tarball s) (λ w s'. next p.unread w s')
      else named_entry p.failed_entry (returned (ok none) s)
  after_pass fuel (err invalid_data) p s next =
      named_entry p.failed_entry (next p.unread p.tarball s)
  after_pass fuel (err invalid_input) p s next =
      named_entry p.failed_entry (next p.unread p.tarball s)
  after_pass fuel (err interrupted) p s next =
      named_entry p.failed_entry (next p.unread p.tarball s)
  after_pass fuel (err other) p s next = named_entry p.failed_entry (next p.unread p.tarball s)

  unfoldable pub with_pass :
      ℕ
      → Option (Pass W)
      → Session
      → (List HeaderGenResult → W → Session → Exit (Option W))
      → Exit (Option W)
  with_pass fuel none s next = short_of_fuel
  with_pass fuel (some p) s next = after_pass fuel p.outcome p (record s { result = p.result }) next

  -- The loop of `main`; `recoveries` is the fuel of each call of `recover_proc`.
  unfoldable pub create : ℕ → ℕ → List HeaderGenResult → W → Session → Exit (Option W)
  create zero recoveries entries w s = hung
  create (suc fuel) recoveries entries w s =
      if s.result.cancelled
      then returned (ok none) s
      else with_pass recoveries (serialize_proc k.writer e s.params entries s.result w) s
          (λ entries' w' s'. create fuel recoveries entries' w' s')

  -- The match on the operation in `main`, over all that the traversal yields.
  unfoldable pub run :
      ℕ → ℕ → Option TarOperation → List HeaderGenResult → Session → Exit (Option W)
  run fuel recoveries none entries s = returned (err invalid_input) s
  run fuel recoveries (some TarOperation.create) entries s =
      elim (k.open_sink s.opened s.params.outfile s.params.perf_tuning
        s.params.spanning_size_limit) [
          | err x ↦ returned (err x) s
          | ok w ↦ create fuel recoveries entries w (record s { opened = s.opened + 1 })
        ]
  run fuel recoveries (some _) entries s = returned (ok none) s
