-- ===== src/Rapidtar/Label.antt =====
-- rapidtar/src/bin/rapidtar.rs: `label_proc`, which labels a volume.
pub mod Written
use rapidtar.Prelude.{ℕ, Bool, Option, none, some, if◌then◌else◌}
use rapidtar.Io.{Bytes, IoResult, ok, err, ◌>>=◌, RecoverableWrite}
use rapidtar.Spanning.Zone.{DataZone}
use rapidtar.Tar.FileType.{TarFormat}
use rapidtar.Tar.Header.{SystemTime, RecoveryEntry}
use rapidtar.Tar.Label.{TarLabel, default, label_with_recovery, labelgen}
use rapidtar.Tar.Numeral.{Formatting}
use rapidtar.Tar.Recovery.{FileSystem}
use rapidtar.Rapidtar.{TarParameter, TarResult}

-- What does not change during a run: how numbers are formatted, the rounds that an attribute may take,
-- the time of a label, the number of the process, and the files.
pub record Setting : Type 0 where
  pub formatting : Formatting
  pub fuel : ℕ
  pub now : SystemTime
  pub process_id : ℕ
  pub files : FileSystem

module _ (e : Setting) where
  -- `symlink_metadata` of the file of the zone, as `TarLabel::with_recovery` asks for it.
  unfoldable pub zone_label : Option (DataZone RecoveryEntry) → IoResult TarLabel
  zone_label none = ok (default e.process_id)
  zone_label (some zone) = elim zone.ident [
    | none ↦ ok (default e.process_id)
    | some ident ↦
        label_with_recovery e.process_id (e.files.symlink_metadata ident.canonical_path) zone
  ]

  unfoldable pub titled : TarParameter → TarResult → TarLabel → TarLabel
  titled params result label = record label {
    label = params.label_title;
    volume_identifier = if params.spanning then some result.volume_count else none;
  }

  -- The bytes of the label. None: an attribute takes more rounds than the fuel.
  unfoldable pub label_bytes :
      Option (DataZone RecoveryEntry) → TarParameter → TarResult → Option (IoResult Bytes)
  label_bytes zone params result = elim (zone_label zone) [
    | err x ↦ some (err x)
    | ok label ↦ labelgen e.formatting e.fuel e.now params.format (titled params result label)
  ]

module _ {W : Type 0} (o : RecoverableWrite W RecoveryEntry) where
  unfoldable pub write_label : Option (IoResult Bytes) → W → Option (IoResult (Unit {0}) × W)
  write_label none w = none
  write_label (some (err e)) w = some (err e, w)
  write_label (some (ok label)) w = some (o.write_all label w)

  unfoldable pub label_proc :
      Setting
      → Option (DataZone RecoveryEntry)
      → TarParameter
      → TarResult
      → W
      → Option (IoResult (Unit {0}) × W)
  label_proc e zone params result w = write_label (label_bytes e zone params result) w
