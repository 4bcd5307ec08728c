-- ===== src/Tar/Recovery/Torn.antt =====
-- librapidarchive/src/tar/recovery.rs: what `recover_data` reports where the new volume fills up, too.
use rapidtar.Prelude.{
  ◌⊎◌, ◌≡◌, refl, sym, ap, ◌∙◌, Option, none, some, [], ◌∷◌, ◌++◌, append-nil, append_assoc, inl,
  inr, Option-cases, ℕ,
}
use rapidtar.Io.{Bytes, ok, RecoverableWrite, IsHonest}
use rapidtar.Spanning.Zone.{DataZone}
use rapidtar.Tar.FileType.{TarFormat}
use rapidtar.Tar.Header.{RecoveryEntry}
use rapidtar.Tar.Numeral.{Formatting}
use rapidtar.Tar.Recovery.{
  FileSystem, Round, recovered, torn, failed, Zones, Recovery, recover_zone, recovery_header,
  next_round, recover_data,
}
use rapidtar.Tar.Recovery.Cause.{WriteFailed, ReadFailed, zone_torn}
use rapidtar.Tar.Recovery.Stream.{RecoveryStream, finished, slack, resumption, zone_recovered}

module _ {W : Type 0} (fs : FileSystem) (o : RecoverableWrite W RecoveryEntry) where
  -- A round that tears, or one that is followed by the rounds that do.
  torn_by :
      (r : Option (Round W)) (rest : Zones) (next : W → Recovery W) {left : Zones} {w' : W}
      → next_round fs o r rest next ≡ some (ok (some left), w')
      → ((v : W) × (r ≡ some (recovered v)) × (next v ≡ some (ok (some left), w')))
        ⊎ ((r ≡ some (torn w')) × (left ≡ o.uncommitted_writes w' ++ rest))
  unfolding next_round
  torn_by none rest next h = absurd (cc)
  torn_by (some (recovered v)) rest next h = inl (v, refl, h)
  torn_by (some (torn v)) rest next {left} {w'} h =
      let same : v ≡ w' = cc in
      let reported : o.uncommitted_writes v ++ rest ≡ left = cc in
      inr
        (ap (λ v. some (torn v)) same, sym reported ∙ ap (λ v. o.uncommitted_writes v ++ rest) same)
  torn_by (some (failed e v)) rest next h = absurd (cc)

  module _ (contents : W → Bytes) (honest : IsHonest o contents) where
    -- The lost zones fall into three: those that are recovered, the one whose round tears, and those
    -- that are not reached.
    abbrev pub IsTorn : Formatting → ℕ → TarFormat → Zones → W → Zones → W → Type 0
    IsTorn f fuel format lost w left w' =
        (whole : Zones) × (zone : DataZone RecoveryEntry) × (ident : RecoveryEntry) × (rest : Zones)
        × (bytes : Bytes) × (v : W) × (lost ≡ whole ++ zone ∷ rest)
        × RecoveryStream fs f fuel format whole bytes
        × (contents v ≡ contents w ++ bytes)
        × (zone.ident ≡ some ident)
        × (recover_zone fs o f fuel format ident zone (recovery_header fs ident zone) v
            ≡ some (torn w'))
        × (WriteFailed fs o w' ⊎ ReadFailed fs o w')
        × (left ≡ o.uncommitted_writes w' ++ rest)

    -- Over a writer that keeps to the contract of `io::Write`: where `recover_data` returns
    -- Ok(Some(zones)), the lost zones before one have been recovered in full; a write of that one, or a
    -- read of its file, has failed; and the report is what the writer has not committed, and then all
    -- zones behind that one.
    pub recover_data-IsTorn :
        (f : Formatting) (fuel : ℕ) (format : TarFormat) (lost : Zones) (w : W) {left : Zones}
        {w' : W}
        → recover_data fs o f fuel format lost w ≡ some (ok (some left), w')
        → IsTorn f fuel format lost w left w'
    unfolding recover_data
    recover_data-IsTorn f fuel format [] w h = absurd (cc)
    recover_data-IsTorn f fuel format (zone ∷ zones) w h = elim (Option-cases zone.ident) [
      | inl no_ident ↦
          let (whole, at, ident, rest, bytes, v, split, stream, put, has, round, cause, report) =
            recover_data-IsTorn f fuel format zones w (rw no_ident at h) in
          (
            zone ∷ whole,
            at,
            ident,
            rest,
            bytes,
            v,
            ap (λ z. zone ∷ z) split,
            slack zone whole bytes no_ident stream,
            put,
            has,
            round,
            cause,
            report,
          )
      | inr (ident, has) ↦
          let said = recovery_header fs ident zone in
          elim (torn_by (recover_zone fs o f fuel format ident zone said w) zones
            (λ v. recover_data fs o f fuel format zones v) (rw has at h)) [
              | inl (v, round, h') ↦
                  let (first, resumed, after) =
                    zone_recovered fs o contents honest f fuel format ident zone said w round in
                  let (
                    whole, at, ident', rest, bytes, v', split, stream, put, has', torn', cause,
                    report,
                  ) =
                    recover_data-IsTorn f fuel format zones v h' in
                  (
                    zone ∷ whole,
                    at,
                    ident',
                    rest,
                    first ++ bytes,
                    v',
                    ap (λ z. zone ∷ z) split,
                    resumption zone ident whole first bytes has resumed stream,
                    put ∙ ap (λ c. c ++ bytes) after ∙ append_assoc (contents w) first bytes,
                    has',
                    torn',
                    cause,
                    report,
                  )
              | inr (round, report) ↦ (
                [],
                zone,
                ident,
                zones,
                [],
                w,
                refl,
                finished,
                sym (append-nil (contents w)),
                has,
                round,
                zone_torn fs o f fuel format ident zone said w round,
                report,
              )
            ]
    ]
