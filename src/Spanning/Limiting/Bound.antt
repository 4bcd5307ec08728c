-- ===== src/Spanning/Limiting/Bound.antt =====
-- librapidarchive/src/spanning.rs: a `LimitingWriter` keeps to its limit, and to the contract of
-- `io::Write`.
use rapidtar.Prelude.{
  ℕ, ◌+◌, ◌-◌, ◌≤◌, ◌<◌, ◌≡◌, refl, sym, ap, ◌∙◌, List, [], ◌∷◌, ◌++◌, arith, ltb, if◌then◌else◌,
  length, take, u64_mod, Bool-cases, inl, inr, append-nil, length-append, length-take, ltb_false→le,
  sub64_exact,
}
use rapidtar.Io.{Bytes, IoResult, ok, err, RecoverableWrite, IsHonest, KeepsOnFlush}
use rapidtar.Spanning.Limiting.{LimitingWriter, wrap, refused, write}

-- The bytes of the buffer that a result says were taken.
abbrev pub taken : IoResult ℕ → Bytes → Bytes
taken (ok n) buf = take n buf
taken (err e) buf = []

-- The calls of `write` with these buffers, whatever they return.
module _ {W P : Type 0} (o : RecoverableWrite W P) where
  abbrev pub write_each : List Bytes → LimitingWriter W → LimitingWriter W
  write_each [] s = s
  write_each (buf ∷ bufs) s = write_each bufs (write o buf s).1

module _ {W P : Type 0} (o : RecoverableWrite W P) (contents : W → Bytes)
    (honest : IsHonest o contents) (keeps : KeepsOnFlush o contents) where
  refused-contents :
      (buf : Bytes) (r : IoResult (Unit {0})) (inner : W) (s : LimitingWriter W)
      → (contents (refused o (r, inner) s).1.inner
          ≡ contents inner ++ taken (refused o (r, inner) s).0 buf)
        × ((refused o (r, inner) s).1.remain ≡ s.remain)
        × (taken (refused o (r, inner) s).0 buf ≡ [])
  unfolding refused
  refused-contents buf (ok x) inner s = (sym (append-nil (contents inner)), refl, refl)
  refused-contents buf (err e) inner s = (sym (append-nil (contents inner)), refl, refl)

  inner-contents :
      (buf : Bytes) (w : W) (r : IoResult ℕ)
      → (o.write buf w).0 ≡ r
      → contents (o.write buf w).1 ≡ contents w ++ taken r buf
  inner-contents buf w (ok n) e = honest.write_ok buf w n e
  inner-contents buf w (err x) e = honest.write_err buf w x e ∙ sym (append-nil (contents w))

  -- Over an inner writer that keeps to the contract of `io::Write` and whose flush adds nothing, so does a `LimitingWriter`: it has
  -- taken exactly the bytes that it says it has. A buffer that is longer than what remains is
  -- refused whole and leaves what remains as it is, and any other takes its length off it.
  pub limited_write_lem :
      (buf : Bytes) (s : LimitingWriter W)
      → s.remain < u64_mod
      → (contents (write o buf s).1.inner ≡ contents s.inner ++ taken (write o buf s).0 buf)
        × ((write o buf s).1.remain
            ≡ (if ltb s.remain (length buf) then s.remain else s.remain - length buf))
  unfolding write
  limited_write_lem buf s small = elim (Bool-cases (ltb s.remain (length buf))) [
    | inl long ↦
        let (kept, same, nothing) =
          refused-contents buf (o.flush s.inner).0 (o.flush s.inner).1 s in
        rw long (
          kept
              ∙ ap (λ t. t ++ taken (refused o (o.flush s.inner) s).0 buf)
                  (keeps.contents-flush s.inner),
          same,
        )
    | inr fits ↦ rw fits (
      inner-contents buf s.inner (o.write buf s.inner).0 refl,
      sub64_exact s.remain (length buf) small (ltb_false→le s.remain (length buf) fits),
    )
  ]

  length-taken : (r : IoResult ℕ) (buf : Bytes) → length (taken r buf) ≤ length buf
  length-taken (ok n) buf = omega (arith, length-take n buf)
  length-taken (err e) buf = omega arith

  -- A write adds no more bytes than it takes off what remains.
  write_bound :
      (buf : Bytes) (s : LimitingWriter W)
      → s.remain < u64_mod
      → (length (contents (write o buf s).1.inner) + (write o buf s).1.remain
          ≤ length (contents s.inner) + s.remain)
        × ((write o buf s).1.remain ≤ s.remain)
  unfolding write
  write_bound buf s small = elim (Bool-cases (ltb s.remain (length buf))) [
    | inl long ↦
        let (kept, same, nothing) =
          refused-contents buf (o.flush s.inner).0 (o.flush s.inner).1 s in
        let whole = ap length kept in
        let none_taken = ap length nothing in
        let flushed = ap length (keeps.contents-flush s.inner) in
        let size =
          length-append (contents (o.flush s.inner).1)
            (taken (refused o (o.flush s.inner) s).0 buf) in
        rw long (omega (arith, whole, none_taken, flushed, size, same), omega (arith, same))
    | inr fits ↦
        let added = ap length (inner-contents buf s.inner (o.write buf s.inner).0 refl) in
        let size = length-append (contents s.inner) (taken (o.write buf s.inner).0 buf) in
        let few = length-taken (o.write buf s.inner).0 buf in
        let enough = ltb_false→le s.remain (length buf) fits in
        let exact = sub64_exact s.remain (length buf) small enough in
        rw fits (omega (arith, added, size, few, enough, exact), omega (arith, exact))
  ]

  write_each_bound :
      (bufs : List Bytes) (s : LimitingWriter W)
      → s.remain < u64_mod
      → length (contents (write_each o bufs s).inner) ≤ length (contents s.inner) + s.remain
  write_each_bound [] s small = omega arith
  write_each_bound (buf ∷ bufs) s small =
      let (sum, less) = write_bound buf s small in
      omega (arith, sum, write_each_bound bufs (write o buf s).1 (omega (arith, less)))

  -- Over an inner writer that keeps to the contract of `io::Write` and whose flush adds nothing, whatever
  -- is written and whatever the calls return, the inner writer accepts no more bytes than the limit.
  pub limit_holds :
      (bufs : List Bytes) (w : W) (limit : ℕ)
      → limit < u64_mod
      → length (contents (write_each o bufs (wrap w limit)).inner) ≤ length (contents w) + limit
  unfolding wrap
  limit_holds bufs w limit small = write_each_bound bufs (wrap w limit) small
