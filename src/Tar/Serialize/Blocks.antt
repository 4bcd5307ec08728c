-- ===== src/Tar/Serialize/Blocks.antt =====
-- librapidarchive/src/tar/mod.rs: what `serialize` puts into the archive is whole blocks.
use rapidtar.Prelude.{
  ℕ, ◌+◌, ◌-◌, ◌%◌, ◌<◌, ◌≡◌, refl, sym, ap, ◌∙◌, Bool, true, false, Option, none, some, [], ◌++◌,
  ◌==◌, if◌then◌else◌, arith, length, drop, replicate, add64, u64_mod, length-append, append_assoc,
  append-nil, Bool-cases, inl, inr, ==_iff,
}
use rapidtar.Io.{Bytes, IoResult, ok, err, invalid_data, RecoverableWrite, IsHonest}
use rapidtar.Tar.FileType.{is_file_stream}
use rapidtar.Tar.Serialize.{
  HeaderGenResult, Effect, continue, write_counted, write_prefix, prefix_bytes, stream_needed,
  copy_rest, check_size, write_file, pad_blocks, serialize,
}

-- The bytes of the file that are read behind its cached start.
abbrev pub rest_bytes : Bool → IoResult Bytes → ℕ → Bytes
rest_bytes true (ok source) from = drop from source
rest_bytes true (err e) from = []
rest_bytes false source from = []

module _ {W P : Type 0} (o : RecoverableWrite W P) (contents : W → Bytes)
    (honest : IsHonest o contents) where
  ok_inj : {m n : ℕ} → ok m ≡ ok n → m ≡ n
  ok_inj h = cc

  continue_inv :
      {A B : Type 0} (x : IoResult A × W) (next : A → Effect W B) {b : B}
      → (continue x next).0 ≡ ok b
      → (a : A) × (x.0 ≡ ok a) × ((next a x.1).0 ≡ ok b) × ((continue x next).1 ≡ (next a x.1).1)
  continue_inv (ok a, w) next h = (a, refl, h, refl)
  continue_inv (err e, w) next h = absurd (cc)

  write_counted_lem :
      (size : ℕ) (bytes : Bytes) (w : W) {n : ℕ}
      → (write_counted o size bytes w).0 ≡ ok n
      → (n ≡ add64 size (length bytes))
        × (contents (write_counted o size bytes w).1 ≡ contents w ++ bytes)
  unfolding write_counted
  write_counted_lem size bytes w {n} h =
      let (u, written, counted, after) = continue_inv (o.write_all bytes w) _ h in
      (cc, ap contents after ∙ honest.write_all_ok bytes w (written))

  pad_blocks_lem :
      (size : ℕ) (w : W) {n : ℕ}
      → (pad_blocks o size w).0 ≡ ok n
      → (pad : ℕ) × (contents (pad_blocks o size w).1 ≡ contents w ++ replicate pad 0)
        × ((size + pad) % 512 ≡ 0)
        × (pad < 512)
  unfolding pad_blocks
  pad_blocks_lem size w {n} h = elim (Bool-cases (size % 512 == 0)) [
    | inl whole ↦
        let none_needed = (==_iff (size % 512) 0).0 whole in
        (0, rw whole (sym (append-nil (contents w))), omega arith, omega arith)
    | inr part ↦
        let zeros = replicate (512 - size % 512) 0 in
        let (u, written, counted, after) =
          continue_inv (o.write_all zeros w) (λ _ w'. (ok (add64 size (size % 512)), w'))
            (rw part at h) in
        (
          512 - size % 512,
          rw part (ap contents after ∙ honest.write_all_ok zeros w written),
          omega arith,
          ground arith,
        )
  ]

  write_prefix_lem :
      (size : ℕ) (prefix : Option Bytes) (w : W) {n : ℕ}
      → size < u64_mod
      → (write_prefix o size prefix w).0 ≡ ok n
      → (n ≡ add64 size (length (prefix_bytes o prefix)))
        × (contents (write_prefix o size prefix w).1 ≡ contents w ++ prefix_bytes o prefix)
  unfolding write_prefix
  write_prefix_lem size none w small h = (omega (arith, ok_inj h), sym (append-nil (contents w)))
  write_prefix_lem size (some readahead) w small h = write_counted_lem size readahead w h

  rest_lem :
      (needed : Bool) (size : ℕ) (source : IoResult Bytes) (from : ℕ) (w : W) {n : ℕ}
      → size < u64_mod
      → (if needed then copy_rest o size source from w else (ok size, w)).0 ≡ ok n
      → (n ≡ add64 size (length (rest_bytes needed source from)))
        × (contents (if needed then copy_rest o size source from w else (ok size, w)).1
            ≡ contents w ++ rest_bytes needed source from)
  unfolding copy_rest
  rest_lem true size (ok source) from w small h = write_counted_lem size (drop from source) w h
  rest_lem true size (err e) from w small h = absurd (cc)
  rest_lem false size source from w small h =
      (omega (arith, ok_inj h), sym (append-nil (contents w)))

  check_size_lem :
      (expected size : ℕ) (w : W) {n : ℕ}
      → (check_size o expected size w).0 ≡ ok n
      → (size ≡ expected) × (n ≡ size) × ((check_size o expected size w).1 ≡ w)
  unfolding check_size
  check_size_lem expected size w {n} h = elim (Bool-cases (size == expected)) [
    | inl same ↦
        let kept : ◌≡◌ {A = IoResult ℕ} (ok size) (ok n) = rw same at h in
        ((==_iff size expected).0 same, sym (ok_inj kept), rw same refl)
    | inr other ↦
        let failed : ◌≡◌ {A = IoResult ℕ} (err invalid_data) (ok n) = rw other at h in absurd (cc)
  ]

  -- What is read of the file, cached or not.
  abbrev pub file_bytes : HeaderGenResult → IoResult Bytes → Bytes
  file_bytes t source =
      prefix_bytes o t.file_prefix
      ++ rest_bytes (stream_needed o t.file_prefix t.tar_header.file_size) source
          (length (prefix_bytes o t.file_prefix))

  write_file_lem :
      (size : ℕ) (t : HeaderGenResult) (source : IoResult Bytes) (w : W) {n : ℕ}
      → size < u64_mod
      → (write_file o size t source w).0 ≡ ok n
      → (n ≡ add64 size (length (file_bytes t source)))
        × (n ≡ add64 (length t.encoded_header) t.tar_header.file_size)
        × (contents (write_file o size t source w).1 ≡ contents w ++ file_bytes t source)
  unfolding write_file
  write_file_lem size t source w {n} small h =
      let prefix = prefix_bytes o t.file_prefix in
      let needed = stream_needed o t.file_prefix t.tar_header.file_size in
      let rest = rest_bytes needed source (length prefix) in
      let (n₁, e₁, h₁, after₁) = continue_inv (write_prefix o size t.file_prefix w) _ h in
      let w₁ = (write_prefix o size t.file_prefix w).1 in
      let (size₁, put₁) = write_prefix_lem size t.file_prefix w small e₁ in
      let (n₂, e₂, h₂, after₂) =
        continue_inv (if needed then copy_rest o n₁ source (length prefix) w₁ else (ok n₁, w₁)) _
          h₁ in
      let w₂ = (if needed then copy_rest o n₁ source (length prefix) w₁ else (ok n₁, w₁)).1 in
      let (size₂, put₂) = rest_lem needed n₁ source (length prefix) w₁ (omega (arith, size₁)) e₂ in
      let (whole, same, after₃) =
        check_size_lem (add64 (length t.encoded_header) t.tar_header.file_size) n₂ w₂ h₂ in
      (
        omega (arith, size₁, size₂, same, length-append prefix rest),
        omega (arith, whole, same),
        ap contents (after₁ ∙ after₂ ∙ after₃)
            ∙ put₂
            ∙ ap (λ c. c ++ rest) put₁
            ∙ append_assoc (contents w) prefix rest,
      )

  -- The part of the archive between the header and the padding.
  abbrev pub payload : HeaderGenResult → IoResult Bytes → Bytes
  payload t source = if is_file_stream t.tar_header.file_type then file_bytes t source else []

  payload_lem :
      (size : ℕ) (t : HeaderGenResult) (source : IoResult Bytes) (w : W) {n : ℕ}
      → size < u64_mod
      → (if is_file_stream t.tar_header.file_type
          then write_file o size t source w
          else (ok size, w)).0
        ≡ ok n
      → (n ≡ add64 size (length (payload t source)))
        × (contents
              (if is_file_stream t.tar_header.file_type
                then write_file o size t source w
                else (ok size, w)).1
            ≡ contents w ++ payload t source)
  payload_lem size t source w {n} small h =
      elim (Bool-cases (is_file_stream t.tar_header.file_type)) [
        | inl stream ↦
            let (count, whole, put) = write_file_lem size t source w small (rw stream at h) in
            rw stream (count, put)
        | inr other ↦
            let kept : ◌≡◌ {A = IoResult ℕ} (ok size) (ok n) = rw other at h in
            rw other (omega (arith, ok_inj kept), sym (append-nil (contents w)))
      ]

  -- Over an inner writer that keeps to the contract of `io::Write`: where `serialize` returns Ok, it
  -- has put the header into the archive, the contents of the file, if it is a regular one, and less
  -- than a block of zeros, which make whole blocks of it.
  pub serialize_lem :
      (t : HeaderGenResult) (source : IoResult Bytes) (w : W) {n : ℕ}
      → (serialize o t source w).0 ≡ ok n
      → (pad : ℕ) × (contents (serialize o t source w).1
          ≡ contents w ++ (t.encoded_header ++ (payload t source ++ replicate pad 0)))
        × ((length t.encoded_header + length (payload t source) + pad) % 512 ≡ 0)
        × (pad < 512)
  unfolding serialize
  serialize_lem t source w {n} h =
      let (n₁, e₁, h₁, after₁) = continue_inv (write_counted o 0 t.encoded_header w) _ h in
      let w₁ = (write_counted o 0 t.encoded_header w).1 in
      let (size₁, put₁) = write_counted_lem 0 t.encoded_header w e₁ in
      let body =
        if is_file_stream t.tar_header.file_type
        then write_file o n₁ t source w₁
        else (ok n₁, w₁) in
      let (n₂, e₂, h₂, after₂) = continue_inv body _ h₁ in
      let (size₂, put₂) = payload_lem n₁ t source w₁ (omega (arith, size₁)) e₂ in
      let (pad, put₃, blocks, few) = pad_blocks_lem n₂ body.1 h₂ in
      (
        pad,
        ap contents (after₁ ∙ after₂)
            ∙ put₃
            ∙ ap (λ c. c ++ replicate pad 0) (put₂ ∙ ap (λ c. c ++ payload t source) put₁)
            ∙ append_assoc (contents w ++ t.encoded_header) (payload t source) (replicate pad 0)
            ∙ append_assoc (contents w) t.encoded_header (payload t source ++ replicate pad 0),
        omega (arith, size₁, size₂, blocks),
        few,
      )

  -- Where `serialize` of a regular file returns Ok, it has read exactly as many bytes of the file as
  -- the header says, whatever the file has become since; the sizes are to add up in 64 bits.
  pub serialize-whole_file :
      (t : HeaderGenResult) (source : IoResult Bytes) (w : W) {n : ℕ}
      → is_file_stream t.tar_header.file_type ≡ true
      → length t.encoded_header + length (file_bytes t source) < u64_mod
      → length t.encoded_header + t.tar_header.file_size < u64_mod
      → (serialize o t source w).0 ≡ ok n
      → length (file_bytes t source) ≡ t.tar_header.file_size
  unfolding serialize
  serialize-whole_file t source w {n} stream read said h =
      let (n₁, e₁, h₁, after₁) = continue_inv (write_counted o 0 t.encoded_header w) _ h in
      let w₁ = (write_counted o 0 t.encoded_header w).1 in
      let (size₁, put₁) = write_counted_lem 0 t.encoded_header w e₁ in
      let body =
        if is_file_stream t.tar_header.file_type
        then write_file o n₁ t source w₁
        else (ok n₁, w₁) in
      let (n₂, e₂, h₂, after₂) = continue_inv body _ h₁ in
      let (count, whole, put) =
        write_file_lem n₁ t source w₁ (omega (arith, size₁)) (rw stream at e₂) in
      omega (arith, size₁, count, whole, read, said)
