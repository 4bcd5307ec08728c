-- ===== src/Tar/Label/Resume.antt =====
-- librapidarchive/src/tar/label.rs: the label of a volume that resumes a file.
use rapidtar.Prelude.{ℕ, ◌+◌, ◌-◌, ◌≡◌, refl, some, min, arith}
use rapidtar.Io.{ok}
use rapidtar.Spanning.Zone.{DataZone}
use rapidtar.Tar.Path.{normalize}
use rapidtar.Tar.Header.{Metadata, RecoveryEntry}
use rapidtar.Tar.Label.{TarLabel, default, label_with_recovery}

-- The label for a zone with an identifier, where there is one, names the file of the zone; its offset
-- and its remaining size add up to the length of the file, and the offset is the number of file bytes
-- that the zone has committed, or the length if they are more.
pub label_with_recovery_lem :
    (id : ℕ) (metadata : Metadata) (zone : DataZone RecoveryEntry) (ident : RecoveryEntry)
    {label : TarLabel}
    → zone.ident ≡ some ident
    → label_with_recovery id (ok metadata) zone ≡ ok label
    → (offset : ℕ) × (remaining : ℕ) × (label.recovery_seek_offset ≡ some offset)
      × (label.recovery_remaining_size ≡ some remaining)
      × (offset + remaining ≡ metadata.len)
      × (offset ≡ min (zone.committed_length - ident.header_length) metadata.len)
      × (label.recovery_path ≡ some (normalize ident.original_path))
unfolding label_with_recovery default
label_with_recovery_lem id metadata zone ident {label} e h =
    let offset = zone.committed_length - ident.header_length in
    (
      min offset metadata.len,
      metadata.len - offset,
      ground arith,
      ground arith,
      omega arith,
      refl,
      ground arith,
    )
