-- ===== src/Tar/Headergen/Prefix.antt =====
-- librapidarchive/src/tar/header.rs and mod.rs: what `headergen` reads ahead and what `serialize` reads
-- behind it are the file.
use rapidtar.Prelude.{
  ℕ, zero, suc, ◌-◌, ◌≤◌, ◌≡◌, refl, sym, ap, ◌∙◌, Bool, true, false, Option, none, some, [], ◌∷◌,
  ◌++◌, ◌==◌, ◌||◌, length, take, drop, min, arith, append-nil, take-append-drop, length-take,
  length-append, take-drop-append, take_all, drop_all, Bool-cases, inl, inr, leb, leb→le,
  leb_false→lt, drop-drop,
}
use rapidtar.Io.{
  Bytes, ErrorKind, IoResult, ok, err, write_zero, invalid_data, invalid_input, interrupted, other,
  RecoverableWrite, IsHonest,
}
use rapidtar.Tar.FileType.{TarFormat, is_file_stream}
use rapidtar.Tar.Path.{PathBuf}
use rapidtar.Tar.Header.{TarHeader}
use rapidtar.Tar.Numeral.{Formatting}
use rapidtar.Tar.Recovery.{concrete_tarheader}
use rapidtar.Tar.Serialize.{HeaderGenResult, prefix_bytes, stream_needed}
use rapidtar.Tar.Serialize.Blocks.{rest_bytes, file_bytes}
use rapidtar.Tar.Headergen.{
  Reads, fill_cache, cache_file, readahead, generated, with_header, headergen,
}

neither : (b c : Bool) → (b || c) ≡ false → c ≡ false
neither true c h = absurd (cc)
neither false c h = h

-- The reads of a file that holds `source`: each yields the bytes that come next, or fails.
pub data ReadsOf : Bytes → Reads → Type 0 where
  no_more : (source : Bytes) → ReadsOf source []
  chunk :
      (n : ℕ) (source : Bytes) (reads : Reads)
      → ReadsOf (drop n source) reads
      → ReadsOf source (ok (take n source) ∷ reads)
  failure :
      (source : Bytes) (reads : Reads) (e : ErrorKind)
      → ReadsOf source reads
      → ReadsOf source (err e ∷ reads)

take_of_take : (k n : ℕ) (xs : Bytes) → take k (take n xs) ≡ take (length (take k (take n xs))) xs
take_of_take zero n xs = refl
take_of_take (suc k) zero xs = refl
take_of_take (suc k) (suc n) [] = refl
take_of_take (suc k) (suc n) (x ∷ xs) = ap (λ t. x ∷ t) (take_of_take k n xs)

drop-min : (n : ℕ) (xs : Bytes) → drop n xs ≡ drop (min n (length xs)) xs
drop-min n xs = elim (Bool-cases (leb n (length xs))) [
  | inl within ↦
      let all : n ≡ min n (length xs) = omega (arith, leb→le _ _ within) in ap (λ i. drop i xs) all
  | inr over ↦
      let more = leb_false→lt n (length xs) over in
      drop_all n xs (omega (arith, more))
      ∙ sym (drop_all (min n (length xs)) xs (omega (arith, more)))
]

grown :
    (whole cached source : Bytes) (k n : ℕ)
    → source ≡ drop (length cached) whole
    → cached ≡ take (length cached) whole
    → cached ++ take k (take n source) ≡ take (length (cached ++ take k (take n source))) whole
grown whole cached source k n e h =
    let got = take k (take n source) in
    ap (λ c. c ++ got) h
    ∙ ap (λ g. take (length cached) whole ++ g)
        (take_of_take k n source ∙ ap (λ s. take (length got) s) e)
    ∙ take-drop-append (length cached) (length got) whole
    ∙ ap (λ i. take i whole) (sym (length-append cached got))

module _ (cache_len : ℕ) (whole : Bytes) where
  -- The cache holds the start of the file, and no more than it has room for.
  abbrev pub IsStart : Bytes → Type 0
  IsStart cached = (cached ≡ take (length cached) whole) × (length cached ≤ cache_len)

  -- Where the cache is not full, a read has taken all of its chunk.
  left_room :
      (n : ℕ) (source cached : Bytes)
      → length cached ≤ cache_len
      → ((length (take (cache_len - length cached) (take n source)) == 0)
          || (length (cached ++ take (cache_len - length cached) (take n source)) == cache_len))
        ≡ false
      → length (take (cache_len - length cached) (take n source)) ≡ min n (length source)
  left_room n source cached room on =
      let k = cache_len - length cached in
      let not_full =
        neither (length (take k (take n source)) == 0)
          (length (cached ++ take k (take n source)) == cache_len) on in
      ground (
        arith,
        room,
        not_full,
        length-append cached (take k (take n source)),
        length-take k (take n source),
        length-take n source,
      )

  fill_cache-IsStart :
      (cached source : Bytes) (reads : Reads)
      → ReadsOf source reads
      → source ≡ drop (length cached) whole
      → IsStart cached
      → IsStart (fill_cache cache_len cached reads)
  unfolding fill_cache
  fill_cache-IsStart cached source reads (no_more s) e start = start
  fill_cache-IsStart cached source reads (chunk n s more of_rest) e (start, room) =
      let got = take (cache_len - length cached) (take n s) in
      let filled = cached ++ got in
      let start' : IsStart filled = (
        grown whole cached s (cache_len - length cached) n e start,
        omega (
          arith,
          room,
          length-append cached got,
          length-take (cache_len - length cached) (take n s),
        ),
      ) in
      elim (Bool-cases ((length got == 0) || (length filled == cache_len))) [
        | inl stop ↦ rw stop start'
        | inr on ↦
            let same : length got ≡ min n (length s) = left_room n s cached room on in
            rw on (
              fill_cache-IsStart filled (drop n s) more of_rest
                (drop-min n s
                  ∙ ap (λ i. drop i s) (sym same)
                  ∙ ap (drop (length got)) e
                  ∙ drop-drop (length cached) (length got) whole
                  ∙ ap (λ i. drop i whole) (sym (length-append cached got)))
                start')
      ]
  fill_cache-IsStart cached source reads (failure s more write_zero of_rest) e start = start
  fill_cache-IsStart cached source reads (failure s more invalid_data of_rest) e start = start
  fill_cache-IsStart cached source reads (failure s more invalid_input of_rest) e start = start
  fill_cache-IsStart cached source reads (failure s more interrupted of_rest) e start =
      fill_cache-IsStart cached s more of_rest e start
  fill_cache-IsStart cached source reads (failure s more other of_rest) e start = start

-- What a file that holds `source` yields where it is opened: its reads, or an error.
abbrev pub OpensTo : Bytes → IoResult Reads → Type 0
OpensTo source (ok reads) = ReadsOf source reads
OpensTo source (err e) = Unit

-- The cache is a start of the file, or there is none.
abbrev pub IsPrefix : Bytes → Option Bytes → Type 0
IsPrefix source none = Unit
IsPrefix source (some cached) = cached ≡ take (length cached) source

cache_file-IsPrefix :
    (header : TarHeader) (source : Bytes) (opened : IoResult Reads)
    → OpensTo source opened
    → IsPrefix source (cache_file header opened)
unfolding cache_file
cache_file-IsPrefix header source (ok reads) of_source =
    (fill_cache-IsStart (min header.file_size 65536) source [] source reads of_source refl
      (refl, omega arith)).0
cache_file-IsPrefix header source (err e) of_source = tt

made_with :
    (archival_path : PathBuf) (header : TarHeader) (concrete : IoResult Bytes)
    (canonical : IoResult PathBuf) (opened : IoResult Reads) {t : HeaderGenResult}
    → with_header archival_path header concrete canonical opened ≡ generated (ok t)
    → (t.tar_header ≡ header) × (t.file_prefix ≡ readahead header opened)
unfolding with_header
made_with archival_path header (err e) canonical opened h = absurd (cc)
made_with archival_path header (ok concrete) (err e) opened h = absurd (cc)
made_with archival_path header (ok concrete) (ok canonical_path) opened h = (cc, cc)

made_by :
    (archival_path : PathBuf) (header : TarHeader) (concrete : Option (IoResult Bytes))
    (canonical : IoResult PathBuf) (opened : IoResult Reads) {t : HeaderGenResult}
    → elim concrete [
      | none ↦ none
      | some c ↦ some (with_header archival_path header c canonical opened)
    ]
      ≡ some (generated (ok t))
    → (t.tar_header ≡ header) × (t.file_prefix ≡ readahead header opened)
made_by archival_path header none canonical opened h = absurd (cc)
made_by archival_path header (some concrete) canonical opened {t} h =
    made_with archival_path header concrete canonical opened {t = t} (cc)

module _ {W P : Type 0} (o : RecoverableWrite W P) (contents : W → Bytes)
    (honest : IsHonest o contents) where
  with_rest :
      (source : Bytes) (prefix : Option Bytes) (size : ℕ)
      → IsPrefix source prefix
      → length source ≡ size
      → prefix_bytes o prefix
          ++ rest_bytes (stream_needed o prefix size) (ok source) (length (prefix_bytes o prefix))
        ≡ source
  unfolding stream_needed
  with_rest source none size start same = refl
  with_rest source (some cached) size start same = elim (Bool-cases (leb size (length cached))) [
    | inl whole ↦ rw whole (
        append-nil cached
        ∙ start
        ∙ take_all (length cached) source (omega (arith, leb→le _ _ whole, same)))
    | inr part ↦
        rw part (
          ap (λ c. c ++ drop (length cached) source) start
          ∙ take-append-drop (length cached) source)
  ]

  -- Take the header that `headergen` makes for a regular file that holds as many bytes as the header
  -- says, however its reads cut them, and wherever they fail. What is read ahead and what `serialize`
  -- reads behind it are exactly the bytes of the file.
  pub headergen-file_bytes :
      (f : Formatting) (fuel : ℕ) (archival_path : PathBuf) (header : TarHeader)
      (format : TarFormat) (canonical : IoResult PathBuf) (opened : IoResult Reads) (source : Bytes)
      {t : HeaderGenResult}
      → headergen f fuel archival_path header format canonical opened ≡ some (generated (ok t))
      → is_file_stream header.file_type ≡ true
      → length source ≡ header.file_size
      → OpensTo source opened
      → file_bytes o contents honest t (ok source) ≡ source
  unfolding headergen readahead
  headergen-file_bytes f fuel archival_path header format canonical opened source h stream same
        of_source =
      let (head, prefix) =
        made_by archival_path header (concrete_tarheader f fuel format header) canonical opened h in
      let cached = cache_file header opened in
      rw (head, prefix, stream)
        (with_rest source cached header.file_size
          (cache_file-IsPrefix header source opened of_source) same)
