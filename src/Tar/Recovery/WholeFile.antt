-- ===== src/Tar/Recovery/WholeFile.antt =====
-- librapidarchive/src/tar/recovery.rs: a file that a full volume cuts is whole over both volumes.
use mathlib.Core.Path.{subst}
use rapidtar.Prelude.{
  [], drop_all, leb, leb→le, leb_false→lt, Bool-cases, refl, append-nil, take_all, ◌≡◌, ◌<◌, ◌-◌,
  sym, ap, ◌∙◌, some, ◌++◌, length, take, drop, inl, inr, ℕ, min, u64_mod, length-drop,
  take-append-drop, arith, true, false,
}
use rapidtar.Io.{Bytes, ok}
use rapidtar.Spanning.Zone.{DataZone}
use rapidtar.Tar.FileType.{TarFormat, ustar, posix, file_stream, is_file_stream}
use rapidtar.Tar.Path.{PathBuf}
use rapidtar.Tar.Header.{
  Metadata, TarHeader, RecoveryEntry, abstract_header_for_file, resume_header, with_recovery,
  recovery_plan,
}
use rapidtar.Tar.Header.Resume.{recovery_plan-with_recovery}
use rapidtar.Tar.Numeral.{Formatting}
use rapidtar.Tar.Recovery.{FileSystem, concrete_tarheader, recovery_header}
use rapidtar.Tar.Recovery.Stream.{IsResumed}

recovery_plan-file_type :
    (path : PathBuf) (metadata : Metadata) (zone : DataZone RecoveryEntry) (format : TarFormat)
    {header : TarHeader}
    → metadata.file_type ≡ ok file_stream
    → with_recovery path metadata zone ≡ ok header
    → (recovery_plan format header).0.file_type ≡ file_stream
unfolding recovery_plan with_recovery abstract_header_for_file resume_header
recovery_plan-file_type path metadata zone format {header} kind h = ground arith

-- What the rest of a file behind a header must be, where the zone before has committed so many bytes
-- of the file: a USTAR file cannot be split, and is there from its start again, whatever has been
-- committed; a POSIX file goes on behind the committed bytes.
abbrev pub Completes : TarFormat → ℕ → Bytes → Bytes → Type 0
Completes ustar committed source rest = rest ≡ source
Completes posix committed source rest = take committed source ++ rest ≡ source

-- The offset that the plan starts at.
abbrev start_of : TarFormat → ℕ → ℕ → ℕ
start_of ustar committed len = 0
start_of posix committed len = min committed len

start-plan :
    (format : TarFormat) (committed len : ℕ) {offset : ℕ}
    → offset ≡ elim format [ ustar ↦ 0 | posix ↦ min committed len ]
    → offset ≡ start_of format committed len
start-plan ustar committed len h = h
start-plan posix committed len h = h

completed :
    (format : TarFormat) (committed : ℕ) (source : Bytes)
    → Completes format committed source (drop (start_of format committed (length source)) source)
completed ustar committed source = refl
completed posix committed source = elim (Bool-cases (leb committed (length source))) [
  | inl within ↦
      let few : min committed (length source) ≡ committed =
        omega (arith, leb→le committed (length source) within) in
      rw few (take-append-drop committed source)
  | inr over ↦
      let more = leb_false→lt committed (length source) over in
      let all : min committed (length source) ≡ length source = omega (arith, more) in
      let whole : take committed source ≡ source =
        take_all committed source (omega (arith, more)) in
      let none_left : drop (length source) source ≡ [] =
        drop_all (length source) source (omega arith) in
      rw (all, whole, none_left) (append-nil source)
]

-- Take a zone of a regular file that has not changed its length, of less than 2^64 bytes. What it puts into the recovery
-- stream is the header of some plan and the bytes of
-- the file that the plan announces: for POSIX, those behind the bytes of the file that the zone has
-- committed, so that both together are the whole file; for USTAR, which cannot split a file, the whole
-- file once more. The size in the plan is the number of bytes that follow the header.
pub IsResumed-whole_file :
    (fs : FileSystem) (f : Formatting) (fuel : ℕ) (format : TarFormat)
    (zone : DataZone RecoveryEntry) (ident : RecoveryEntry) (metadata : Metadata)
    (canonical : PathBuf) (source bytes : Bytes)
    → zone.ident ≡ some ident
    → fs.symlink_metadata ident.canonical_path ≡ ok metadata
    → fs.canonicalize ident.canonical_path ≡ ok canonical
    → fs.open_file canonical ≡ ok source
    → metadata.file_type ≡ ok file_stream
    → metadata.len ≡ length source
    → length source < u64_mod
    → IsResumed fs f fuel format ident (recovery_header fs ident zone) bytes
    → (plan : TarHeader) × (concrete : Bytes) × (rest : Bytes) × (concrete_tarheader f fuel format
          plan
        ≡ some (ok concrete))
      × (bytes ≡ concrete ++ rest)
      × (plan.file_size ≡ length rest)
      × Completes format (zone.committed_length - ident.header_length) source rest
unfolding recovery_header is_file_stream
IsResumed-whole_file fs f fuel format zone ident metadata canonical source bytes has known path
      found kind same small (resumed, concrete, canonical', rest, said, made, path', read, put) =
    let said' : with_recovery ident.original_path metadata zone ≡ ok resumed = rw known at said in
    let offset = (recovery_plan format resumed).1 in
    let (sum, start, _, _) =
      recovery_plan-with_recovery ident.original_path metadata zone ident format
        (omega (arith, same, small)) has said' in
    let kind' = recovery_plan-file_type ident.original_path metadata zone format kind said' in
    elim read [
      | inl (other, _) ↦ let no : false ≡ true = sym other ∙ ap is_file_stream kind' in absurd (cc)
      | inr (_, (source', found', cut)) ↦
          let one : canonical' ≡ canonical = cc in
          let cut' : rest ≡ drop offset source = cc in
          (
            (recovery_plan format resumed).0,
            concrete,
            rest,
            made,
            put,
            omega (arith, sum, ap length cut', length-drop offset source, same),
            let committed = zone.committed_length - ident.header_length in
                let starts : offset ≡ start_of format committed (length source) =
                  start-plan format committed metadata.len start
                  ∙ ap (start_of format committed) same in
                subst (λ r. Completes format committed source r)
                  (sym (cut' ∙ ap (λ n. drop n source) starts)) (completed format committed source),
          )
    ]
