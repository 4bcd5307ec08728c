-- ===== src/Tar/Recovery/Stream.antt =====
-- librapidarchive/src/tar/recovery.rs: the recovery stream, and what is reported when it tears.
use rapidtar.Prelude.{
  Option-cases, ℕ, ◌-◌, ◌≡◌, ◌⊎◌, refl, sym, ap, ◌∙◌, Bool-cases, inl, inr, true, false, Option,
  none, some, [], ◌∷◌, ◌++◌, length, drop, append_assoc, append-nil,
}
use rapidtar.Io.{Bytes, IoResult, ok, err, RecoverableWrite, IsHonest}
use rapidtar.Spanning.Zone.{DataZone}
use rapidtar.Tar.FileType.{TarFormat, is_file_stream}
use rapidtar.Tar.Path.{PathBuf}
use rapidtar.Tar.Header.{TarHeader, RecoveryEntry, recovery_plan}
use rapidtar.Tar.Numeral.{Formatting}
use rapidtar.Tar.Recovery.{
  FileSystem, Round, recovered, torn, failed, Zones, Recovery, concrete_tarheader, break_on_error,
  copy_source, copy_file, recover_file, with_concrete, recover_zone, recovery_header, next_round,
  recover_data, new_entry,
}

-- The rest of a file from the offset on, if it is a regular one.
abbrev pub RestOf : FileSystem → TarHeader → PathBuf → ℕ → Bytes → Type 0
RestOf fs header canonical_path offset rest =
    ((is_file_stream header.file_type ≡ false) × (rest ≡ []))
    ⊎ ((is_file_stream header.file_type ≡ true)
        × ((source : Bytes) × (fs.open_file canonical_path ≡ ok source)
            × (rest ≡ drop offset source)))

-- What a zone with the identifier `ident` puts into the recovery stream: the header of the plan, and
-- the rest of the file that the plan says.
abbrev pub IsResumed :
    FileSystem → Formatting → ℕ → TarFormat → RecoveryEntry → IoResult TarHeader → Bytes → Type 0
IsResumed fs f fuel format ident said bytes =
    (resumed : TarHeader) × (concrete : Bytes) × (canonical : PathBuf) × (rest : Bytes) × (said
      ≡ ok resumed)
    × (concrete_tarheader f fuel format (recovery_plan format resumed).0 ≡ some (ok concrete))
    × (fs.canonicalize ident.canonical_path ≡ ok canonical)
    × RestOf fs (recovery_plan format resumed).0 canonical (recovery_plan format resumed).1 rest
    × (bytes ≡ concrete ++ rest)

-- The recovery stream of a list of zones: those with no identifier put nothing into it.
pub data RecoveryStream (fs : FileSystem) (f : Formatting) (fuel : ℕ) (format : TarFormat)
    : Zones → Bytes → Type 0 where
  finished : RecoveryStream fs f fuel format [] []
  slack :
      (zone : DataZone RecoveryEntry) (zones : Zones) (rest : Bytes)
      → zone.ident ≡ none
      → RecoveryStream fs f fuel format zones rest
      → RecoveryStream fs f fuel format (zone ∷ zones) rest
  resumption :
      (zone : DataZone RecoveryEntry) (ident : RecoveryEntry) (zones : Zones) (bytes rest : Bytes)
      → zone.ident ≡ some ident
      → IsResumed fs f fuel format ident (recovery_header fs ident zone) bytes
      → RecoveryStream fs f fuel format zones rest
      → RecoveryStream fs f fuel format (zone ∷ zones) (bytes ++ rest)

module _ {W : Type 0} where
  pub recovered_inj : {w v : W} → recovered w ≡ recovered v → w ≡ v
  recovered_inj h = cc

module _ {W : Type 0} (fs : FileSystem) (o : RecoverableWrite W RecoveryEntry)
    (contents : W → Bytes) (honest : IsHonest o contents) where
  written :
      (b : Bytes) (w : W) (r : IoResult (Unit {0}) × W) {w' : W}
      → o.write_all b w ≡ r
      → break_on_error r ≡ recovered w'
      → contents w' ≡ contents w ++ b
  unfolding break_on_error
  written b w (ok _, v) e same =
      sym (ap contents (ap (λ r. r.1) e ∙ recovered_inj same))
      ∙ honest.write_all_ok b w (ap (λ r. r.0) e)
  written b w (err x, v) e same = absurd (cc)

  source_copied :
      (found : IoResult Bytes) (failure : Option ℕ) (offset : ℕ) (w : W) {w' : W}
      → copy_source fs o found failure offset w ≡ recovered w'
      → (source : Bytes) × (found ≡ ok source) × (contents w' ≡ contents w ++ drop offset source)
  unfolding copy_source
  source_copied (ok source) none offset w h =
      (source, refl, written (drop offset source) w (o.write_all (drop offset source) w) refl h)
  source_copied (ok source) (some position) offset w h = absurd (cc)
  source_copied (err e) failure offset w h = absurd (cc)

  file_copied :
      (header : TarHeader) (canonical : PathBuf) (offset : ℕ) (concrete : Bytes) (w : W)
      (r : IoResult (Unit {0}) × W) {w' : W}
      → o.write_all concrete w ≡ r
      → copy_file fs o header canonical offset r ≡ recovered w'
      → (rest : Bytes) × RestOf fs header canonical offset rest
        × (contents w' ≡ contents w ++ (concrete ++ rest))
  unfolding copy_file
  file_copied header canonical offset concrete w (ok _, v) {w'} e h =
      let put : contents v ≡ contents w ++ concrete =
        sym (ap (λ r. contents r.1) e) ∙ honest.write_all_ok concrete w (ap (λ r. r.0) e) in
      elim (Bool-cases (is_file_stream header.file_type)) [
        | inl stream ↦
            let (source, found, after) =
              source_copied (fs.open_file canonical) (fs.read_failure canonical) offset v
                (rw stream at h) in
            (
              drop offset source,
              inr (stream, (source, found, refl)),
              after
                  ∙ ap (λ c. c ++ drop offset source) put
                  ∙ append_assoc (contents w) concrete (drop offset source),
            )
        | inr other ↦
            let kept : recovered v ≡ recovered w' = rw other at h in
            (
              [],
              inl (other, refl),
              sym (ap contents (recovered_inj kept))
                  ∙ put
                  ∙ sym (ap (λ c. contents w ++ c) (append-nil concrete)),
            )
      ]
  file_copied header canonical offset concrete w (err x, v) e h = absurd (cc)

  file_recovered :
      (ident : RecoveryEntry) (zone : DataZone RecoveryEntry) (header : TarHeader) (offset : ℕ)
      (concrete : Bytes) (path : IoResult PathBuf) (w : W) {w' : W}
      → recover_file fs o ident zone header offset concrete path w ≡ recovered w'
      → (canonical : PathBuf) × (rest : Bytes) × (path ≡ ok canonical)
        × RestOf fs header canonical offset rest
        × (contents w' ≡ contents w ++ (concrete ++ rest))
  unfolding recover_file
  file_recovered ident zone header offset concrete (ok canonical) w {w'} h =
      let new_ident = new_entry ident.original_path ident.canonical_path (length concrete) in
      let committed = zone.committed_length - ident.header_length in
      let v = o.resume_data_zone new_ident committed w in
      let (rest, found, after) =
        file_copied header canonical offset concrete v (o.write_all concrete v) refl h in
      (
        canonical,
        rest,
        refl,
        found,
        after ∙ ap (λ c. c ++ (concrete ++ rest)) (honest.contents-resume new_ident committed w),
      )
  file_recovered ident zone header offset concrete (err e) w h = absurd (cc)

  concrete_recovered :
      (ident : RecoveryEntry) (zone : DataZone RecoveryEntry) (header : TarHeader) (offset : ℕ)
      (made : IoResult Bytes) (w : W) {w' : W}
      → with_concrete fs o ident zone header offset made w ≡ recovered w'
      → (concrete : Bytes) × (canonical : PathBuf) × (rest : Bytes) × (made ≡ ok concrete)
        × (fs.canonicalize ident.canonical_path ≡ ok canonical)
        × RestOf fs header canonical offset rest
        × (contents w' ≡ contents w ++ (concrete ++ rest))
  unfolding with_concrete
  concrete_recovered ident zone header offset (ok concrete) w h =
      let (canonical, rest, path, found, after) =
        file_recovered ident zone header offset concrete (fs.canonicalize ident.canonical_path) w
          h in
      (concrete, canonical, rest, refl, path, found, after)
  concrete_recovered ident zone header offset (err e) w h = absurd (cc)

  pub zone_recovered :
      (f : Formatting) (fuel : ℕ) (format : TarFormat) (ident : RecoveryEntry)
      (zone : DataZone RecoveryEntry) (said : IoResult TarHeader) (w : W) {w' : W}
      → recover_zone fs o f fuel format ident zone said w ≡ some (recovered w')
      → (bytes : Bytes) × IsResumed fs f fuel format ident said bytes
        × (contents w' ≡ contents w ++ bytes)
  unfolding recover_zone
  zone_recovered f fuel format ident zone (ok resumed) w {w'} h =
      let (header, offset) = recovery_plan format resumed in
      plan_recovered (concrete_tarheader f fuel format header) refl h
    where
      plan_recovered :
          (made : Option (IoResult Bytes))
          → concrete_tarheader f fuel format (recovery_plan format resumed).0 ≡ made
          → elim made [
            | none ↦ none
            | some concrete ↦ some (
                with_concrete fs o ident zone
                  (recovery_plan format resumed).0
                  (recovery_plan format resumed).1
                  concrete
                  w)
          ]
            ≡ some (recovered w')
          → (bytes : Bytes) × IsResumed fs f fuel format ident (ok resumed) bytes
            × (contents w' ≡ contents w ++ bytes)
      plan_recovered none e same = absurd (cc)
      plan_recovered (some made) e same =
          let (concrete, canonical, rest, good, path, found, after) =
            concrete_recovered ident zone (recovery_plan format resumed).0
              (recovery_plan format resumed).1 made w (cc) in
          (
            concrete ++ rest,
            (resumed, concrete, canonical, rest, refl, e ∙ ap some good, path, found, refl),
            after,
          )
  zone_recovered f fuel format ident zone (err e) w h = absurd (cc)

  round_ended :
      (r : Option (Round W)) (rest : Zones) (next : W → Recovery W) {w' : W}
      → next_round fs o r rest next ≡ some (ok none, w')
      → (v : W) × (r ≡ some (recovered v)) × (next v ≡ some (ok none, w'))
  unfolding next_round
  round_ended none rest next h = absurd (cc)
  round_ended (some (recovered v)) rest next h = (v, refl, h)
  round_ended (some (torn v)) rest next h = absurd (cc)
  round_ended (some (failed e v)) rest next h = absurd (cc)

  -- Over a writer that keeps to the contract of `io::Write`: where `recover_data` returns Ok(None), it
  -- has put the recovery stream of all lost zones behind what the writer held, and nothing else.
  pub recover_data-RecoveryStream :
      (f : Formatting) (fuel : ℕ) (format : TarFormat) (lost : Zones) (w : W) {w' : W}
      → recover_data fs o f fuel format lost w ≡ some (ok none, w')
      → (bytes : Bytes) × RecoveryStream fs f fuel format lost bytes
        × (contents w' ≡ contents w ++ bytes)
  unfolding recover_data
  recover_data-RecoveryStream f fuel format [] w {w'} h =
      let same : w ≡ w' = cc in
      ([], finished, sym (ap contents same) ∙ sym (append-nil (contents w)))
  recover_data-RecoveryStream f fuel format (zone ∷ zones) w {w'} h =
      elim (Option-cases zone.ident) [
        | inl slack_zone ↦
            let (rest, stream, after) =
              recover_data-RecoveryStream f fuel format zones w (rw slack_zone at h) in
            (rest, slack zone zones rest slack_zone stream, after)
        | inr (ident, has) ↦
            let said = recovery_header fs ident zone in
            let (v, round, h') =
              round_ended (recover_zone fs o f fuel format ident zone said w) zones
                (λ v. recover_data fs o f fuel format zones v) (rw has at h) in
            let (bytes, put, after) = zone_recovered f fuel format ident zone said w round in
            let (rest, stream, after') = recover_data-RecoveryStream f fuel format zones v h' in
            (
              bytes ++ rest,
              resumption zone ident zones bytes rest has put stream,
              after' ∙ ap (λ c. c ++ rest) after ∙ append_assoc (contents w) bytes rest,
            )
      ]
