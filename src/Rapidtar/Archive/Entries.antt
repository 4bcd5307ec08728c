-- ===== src/Rapidtar/Archive/Entries.antt =====
-- rapidtar/src/bin/rapidtar.rs: what `serialize_proc` writes into an archive.
use rapidtar.Prelude.{
  ℕ, ◌+◌, ◌%◌, ◌<◌, ◌≡◌, refl, sym, ap, ◌∙◌, Bool, true, false, List, [], ◌∷◌, ◌++◌, length, add64,
  replicate, append_assoc, append-nil,
}
use rapidtar.Io.{Bytes, IoResult, ok, err, RecoverableWrite, IsHonest}
use rapidtar.Tar.Header.{RecoveryEntry}
use rapidtar.Tar.Recovery.{FileSystem, new_from_headergen}
use rapidtar.Tar.Serialize.{HeaderGenResult, serialize}
use rapidtar.Tar.Serialize.Blocks.{payload, serialize_lem}
use rapidtar.Rapidtar.{TarResult}
use rapidtar.Rapidtar.Archive.{Pass, begin_entry, after_entry, serialize_entries}

module _ {W : Type 0} (o : RecoverableWrite W RecoveryEntry) (contents : W → Bytes)
    (honest : IsHonest o contents) where
  -- The archive of some entries: of each, its header, its file, and zeros that fill its last block.
  pub data Archived (fs : FileSystem) : List HeaderGenResult → Bytes → Type 0 where
    nothing : Archived fs [] []
    archived :
        (entry : HeaderGenResult) (entries : List HeaderGenResult) (pad : ℕ) (rest : Bytes)
        → pad < 512
        → (length entry.encoded_header
              + length (payload o contents honest entry (fs.open_file entry.canonical_path))
              + pad)
            % 512
          ≡ 0
        → Archived fs entries rest
        → Archived fs (entry ∷ entries) (
            (entry.encoded_header
              ++ (payload o contents honest entry (fs.open_file entry.canonical_path)
                  ++ replicate pad 0))
            ++ rest)

  begun :
      (spanning : Bool) (entry : HeaderGenResult) (w : W)
      → contents (begin_entry o spanning entry w) ≡ contents w
  unfolding begin_entry
  begun true entry w =
      honest.contents-begin (new_from_headergen entry (length entry.encoded_header)) w
  begun false entry w = refl

  -- A round that does not end the loop with an error.
  entry_done :
      (x : IoResult ℕ × W) (entry : HeaderGenResult) (rest : List HeaderGenResult)
      (result : TarResult) (next : TarResult → W → Pass W)
      → (after_entry o x entry rest result next).outcome ≡ ok tt
      → (size : ℕ) × (result' : TarResult) × (x.0 ≡ ok size)
        × (after_entry o x entry rest result next ≡ next result' x.1)
  unfolding after_entry
  entry_done (ok size, w) entry rest result next h =
      (size, record result { tarball_size = add64 result.tarball_size size }, refl, refl)
  entry_done (err e, w) entry rest result next h = absurd (cc)

  pub entries_done :
      (fs : FileSystem) (spanning : Bool) (entries : List HeaderGenResult) (result : TarResult)
      (w : W)
      → (serialize_entries o fs spanning entries result w).outcome ≡ ok tt
      → (bytes : Bytes) × Archived fs entries bytes
        × (contents (serialize_entries o fs spanning entries result w).tarball
            ≡ contents w ++ bytes)
  unfolding serialize_entries
  entries_done fs spanning [] result w h = ([], nothing, sym (append-nil (contents w)))
  entries_done fs spanning (entry ∷ entries) result w h =
      let source = fs.open_file entry.canonical_path in
      let v = begin_entry o spanning entry w in
      let next : TarResult → W → Pass W =
        λ result' w'. serialize_entries o fs spanning entries result' w' in
      let (size, result', good, out) =
        entry_done (serialize o entry source v) entry entries result next h in
      let (pad, put, whole, few) = serialize_lem o contents honest entry source v good in
      let w₁ = (serialize o entry source v).1 in
      let (rest, stream, after) =
        entries_done fs spanning entries result' w₁ (sym (ap (λ p. p.outcome) out) ∙ h) in
      let block =
        entry.encoded_header ++ (payload o contents honest entry source ++ replicate pad 0) in
      (
        block ++ rest,
        archived entry entries pad rest few whole stream,
        ap (λ p. contents p.tarball) out
            ∙ after
            ∙ ap (λ c. c ++ rest) (put ∙ ap (λ c. c ++ block) (begun spanning entry w))
            ∙ append_assoc (contents w) block rest,
      )
