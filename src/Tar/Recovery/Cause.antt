-- ===== src/Tar/Recovery/Cause.antt =====
-- librapidarchive/src/tar/recovery.rs: why a round of `recover_data` tears.
use rapidtar.Prelude.{
  ◌⊎◌, ◌≡◌, refl, ap, ◌∙◌, Option, none, some, inl, inr, ℕ, ◌-◌, length, drop, take, Bool-cases,
}
use rapidtar.Io.{Bytes, ErrorKind, IoResult, ok, err, RecoverableWrite}
use rapidtar.Spanning.Zone.{DataZone}
use rapidtar.Tar.FileType.{TarFormat, is_file_stream}
use rapidtar.Tar.Path.{PathBuf}
use rapidtar.Tar.Header.{TarHeader, RecoveryEntry, recovery_plan}
use rapidtar.Tar.Numeral.{Formatting}
use rapidtar.Tar.Recovery.{
  FileSystem, torn, concrete_tarheader, break_on_error, copy_source, copy_file, recover_file,
  with_concrete, recover_zone, new_entry,
}

module _ {W : Type 0} where
  pub torn_inj : {w v : W} → torn w ≡ torn v → w ≡ v
  torn_inj h = cc

module _ {W : Type 0} (fs : FileSystem) (o : RecoverableWrite W RecoveryEntry) where
  -- A write has failed, and left the writer `w`.
  abbrev pub WriteFailed : W → Type 0
  WriteFailed w = (b : Bytes) × (v : W) × (e : ErrorKind) × (o.write_all b v ≡ (err e, w))

  -- A read of a regular file has failed, and what came before has gone to the writer `w`.
  abbrev pub ReadFailed : W → Type 0
  ReadFailed w =
      (path : PathBuf) × (source : Bytes) × (position : ℕ) × (offset : ℕ) × (v : W) × (fs.open_file
          path
        ≡ ok source)
      × (fs.read_failure path ≡ some position)
      × ((o.write_all (drop offset (take position source)) v).1 ≡ w)

  write_torn :
      (b : Bytes) (v : W) (r : IoResult (Unit {0}) × W) {w : W}
      → o.write_all b v ≡ r
      → break_on_error r ≡ torn w
      → WriteFailed w
  unfolding break_on_error
  write_torn b v (ok _, v') e h = absurd (cc)
  write_torn b v (err x, v') e h = (b, v, x, e ∙ ap (λ u. (err x, u)) (torn_inj h))

  source_torn :
      (path : PathBuf) (found : IoResult Bytes) (failure : Option ℕ) (offset : ℕ) (v : W) {w : W}
      → fs.open_file path ≡ found
      → fs.read_failure path ≡ failure
      → copy_source fs o found failure offset v ≡ torn w
      → WriteFailed w ⊎ ReadFailed w
  unfolding copy_source
  source_torn path (ok source) none offset v e f h =
      inl (write_torn (drop offset source) v (o.write_all (drop offset source) v) refl h)
  source_torn path (ok source) (some position) offset v e f h =
      inr (path, source, position, offset, v, e, f, torn_inj h)
  source_torn path (err x) failure offset v e f h = absurd (cc)

  file_torn :
      (header : TarHeader) (path : PathBuf) (offset : ℕ) (b : Bytes) (v : W)
      (r : IoResult (Unit {0}) × W) {w : W}
      → o.write_all b v ≡ r
      → copy_file fs o header path offset r ≡ torn w
      → WriteFailed w ⊎ ReadFailed w
  unfolding copy_file
  file_torn header path offset b v (ok _, v') e h =
      elim (Bool-cases (is_file_stream header.file_type)) [
        | inl stream ↦
            source_torn path (fs.open_file path) (fs.read_failure path) offset v' refl refl
              (rw stream at h)
        | inr other ↦ absurd (let no = rw other at h in cc)
      ]
  file_torn header path offset b v (err x, v') e h =
      inl (b, v, x, e ∙ ap (λ u. (err x, u)) (torn_inj h))

  recovery_torn :
      (ident : RecoveryEntry) (zone : DataZone RecoveryEntry) (header : TarHeader) (offset : ℕ)
      (concrete : Bytes) (path : IoResult PathBuf) (v : W) {w : W}
      → recover_file fs o ident zone header offset concrete path v ≡ torn w
      → WriteFailed w ⊎ ReadFailed w
  unfolding recover_file
  recovery_torn ident zone header offset concrete (ok path) v h =
      let v' =
        o.resume_data_zone (new_entry ident.original_path ident.canonical_path (length concrete))
          (zone.committed_length - ident.header_length) v in
      file_torn header path offset concrete v' (o.write_all concrete v') refl h
  recovery_torn ident zone header offset concrete (err x) v h = absurd (cc)

  concrete_torn :
      (ident : RecoveryEntry) (zone : DataZone RecoveryEntry) (header : TarHeader) (offset : ℕ)
      (made : IoResult Bytes) (v : W) {w : W}
      → with_concrete fs o ident zone header offset made v ≡ torn w
      → WriteFailed w ⊎ ReadFailed w
  unfolding with_concrete
  concrete_torn ident zone header offset (ok concrete) v h =
      recovery_torn ident zone header offset concrete (fs.canonicalize ident.canonical_path) v h
  concrete_torn ident zone header offset (err x) v h = absurd (cc)

  made_torn :
      (ident : RecoveryEntry) (zone : DataZone RecoveryEntry) (header : TarHeader) (offset : ℕ)
      (made : Option (IoResult Bytes)) (v : W) {w : W}
      → elim made [
        | none ↦ none
        | some concrete ↦ some (with_concrete fs o ident zone header offset concrete v)
      ]
        ≡ some (torn w)
      → WriteFailed w ⊎ ReadFailed w
  made_torn ident zone header offset none v h = absurd (cc)
  made_torn ident zone header offset (some made) v h =
      concrete_torn ident zone header offset made v (cc)

  pub zone_torn :
      (f : Formatting) (fuel : ℕ) (format : TarFormat) (ident : RecoveryEntry)
      (zone : DataZone RecoveryEntry) (said : IoResult TarHeader) (v : W) {w : W}
      → recover_zone fs o f fuel format ident zone said v ≡ some (torn w)
      → WriteFailed w ⊎ ReadFailed w
  unfolding recover_zone
  zone_torn f fuel format ident zone (ok resumed) v h =
      let (header, offset) = recovery_plan format resumed in
      made_torn ident zone header offset (concrete_tarheader f fuel format header) v h
  zone_torn f fuel format ident zone (err x) v h = absurd (cc)
