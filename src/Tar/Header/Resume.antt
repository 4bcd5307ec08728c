-- ===== src/Tar/Header/Resume.antt =====
-- librapidarchive/src/tar/header.rs and recovery.rs: a resumed file is neither torn nor repeated.
use rapidtar.Prelude.{◌+◌, ◌-◌, ◌<◌, ◌≡◌, some, min, arith, u64_mod}
use rapidtar.Io.{ok}
use rapidtar.Spanning.Zone.{DataZone}
use rapidtar.Tar.FileType.{TarFormat, ustar, posix}
use rapidtar.Tar.Path.{PathBuf, normalize}
use rapidtar.Tar.Header.{
  Metadata, TarHeader, RecoveryEntry, abstract_header_for_file, resume_header, with_recovery,
  recovery_plan,
}

-- Take a zone with an identifier, and a file of less than 2^64 bytes. If `with_recovery` makes a
-- header, the plan for either format reads the file from its offset exactly to its end, and the
-- header says as many bytes. For POSIX, the offset is the number of file bytes that the zone has
-- committed, or the file's end if they are more; for USTAR it is the start of the file.
pub recovery_plan-with_recovery :
    (path : PathBuf) (metadata : Metadata) (zone : DataZone RecoveryEntry) (ident : RecoveryEntry)
    (format : TarFormat) {header : TarHeader}
    → metadata.len < u64_mod
    → zone.ident ≡ some ident
    → with_recovery path metadata zone ≡ ok header
    → let (plan, offset) = recovery_plan format header in
      (offset + plan.file_size ≡ metadata.len)
      × (offset ≡ elim format [
        | ustar ↦ 0
        | posix ↦ min (zone.committed_length - ident.header_length) metadata.len
      ])
      × (plan.path ≡ normalize path)
      × (plan.recovery_path ≡ some (normalize ident.original_path))
unfolding recovery_plan with_recovery abstract_header_for_file resume_header
recovery_plan-with_recovery path metadata zone ident format {header} small e h = ground arith
