-- ===== src/Rapidtar/Recover.antt =====
-- rapidtar/src/bin/rapidtar.rs: `recover_proc`, which moves what a full volume has lost to the next
-- volumes.
pub mod Volumes
pub mod Moved
use rapidtar.Prelude.{
  ℕ, ◌+◌, Bool, true, false, Option, none, some, List, [], ◌∷◌, if◌then◌else◌, zero, suc,
}
use rapidtar.Io.{Bytes, ErrorKind, IoResult, ok, err, other, RecoverableWrite}
use rapidtar.Spanning.Zone.{DataZone}
use rapidtar.Tar.Header.{RecoveryEntry}
use rapidtar.Tar.Recovery.{Zones, Recovery, recover_data}
use rapidtar.Rapidtar.{Configuration, TarParameter, TarResult}
use rapidtar.Rapidtar.Exchange.{Console, Exchange, exchanged, broken, panicked, volume_exchange_cli}
use rapidtar.Rapidtar.Label.{Setting, label_proc}

-- The state of the run: the parameters, the result, what is left to read, and the calls of `open_sink`.
pub record Session : Type 0 where
  pub params : TarParameter
  pub result : TarResult
  pub input : Console
  pub opened : ℕ

-- How a call ends: it returns, it panics, an attribute takes more rounds than its fuel, or the loop
-- more than its own.
pub data Exit (A : Type 0) : Type 0 where
  returned : IoResult A → Session → Exit A
  crashed : Exit A
  short_of_fuel : Exit A
  hung : Exit A

-- The sinks: how one is written to, and what `open_sink` yields by the count of its calls.
pub record Sinks (W : Type 0) : Type 0 where
  pub writer : RecoverableWrite W RecoveryEntry
  pub open_sink : ℕ → Bytes → Configuration → Option ℕ → IoResult W
  pub trim : Bytes → Bytes

-- The first zone that has an identifier.
abbrev pub first_zone : Zones → Option (DataZone RecoveryEntry)
first_zone [] = none
first_zone (zone ∷ zones) =
    let rest = first_zone zones in elim zone.ident [ none ↦ rest | some _ ↦ some zone ]

module _ {W : Type 0} (e : Setting) (k : Sinks W) where
  -- What follows the recovery: the next volume for what is lost again, or the end.
  unfoldable pub recovered_to : Recovery W → Session → (Zones → Session → Exit W) → Exit W
  recovered_to none s again = short_of_fuel
  recovered_to (some (ok none, w)) s again = returned (ok w) s
  recovered_to (some (ok (some zones), w)) s again = again zones s
  recovered_to (some (err x, w)) s again = returned (err x) s

  -- What follows the label.
  unfoldable pub labelled :
      Option (IoResult (Unit {0}) × W) → Zones → Session → (Zones → Session → Exit W) → Exit W
  labelled none lost s again = short_of_fuel
  labelled (some (err x, w)) lost s again = returned (err x) s
  labelled (some (ok _, w)) lost s again =
      recovered_to (recover_data e.files k.writer e.formatting e.fuel s.params.format lost w) s
        again

  -- A new volume, which is labelled for the first zone with an identifier.
  unfoldable pub with_volume : IoResult W → Zones → Session → (Zones → Session → Exit W) → Exit W
  with_volume (err x) lost s again = again lost s
  with_volume (ok w) lost s again =
      let s' = record s { result = record s.result { volume_count = s.result.volume_count + 1 } } in
      labelled (label_proc k.writer e (first_zone lost) s'.params s'.result w) lost s' again

  -- From the answer of the user on.
  unfoldable pub after_exchange : Exchange → Zones → Session → (Zones → Session → Exit W) → Exit W
  after_exchange panicked lost s again = crashed
  after_exchange (broken x) lost s again = returned (err x) s
  after_exchange (exchanged params result input) lost s again =
      let s' = record s { params = params; result = result; input = input } in
      if result.cancelled
      then returned (err other) s'
      else with_volume
          (k.open_sink s.opened params.outfile params.perf_tuning params.spanning_size_limit) lost
          (record s' { opened = s.opened + 1 }) again

  -- The loop over the volumes; at its end, nothing was exchanged.
  unfoldable pub recover_loop : ℕ → Zones → Session → Exit W
  recover_loop zero lost s = hung
  recover_loop (suc fuel) lost s =
      if s.result.cancelled
      then returned (err other) s
      else after_exchange (volume_exchange_cli k.trim s.params s.result s.input) lost s
          (λ lost' s'. recover_loop fuel lost' s')

  unfoldable pub recover_proc : ℕ → W → Session → Exit W
  recover_proc fuel old_tarball s =
      if s.result.cancelled
      then returned (ok old_tarball) s
      else recover_loop fuel (k.writer.uncommitted_writes old_tarball) s
