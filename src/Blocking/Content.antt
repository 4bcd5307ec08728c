-- ===== src/Blocking/Content.antt =====
-- librapidarchive/src/blocking.rs: the bytes that a `BlockingWriter` has taken are those that its
-- inner writer has accepted and then those of its block.
use rapidtar.Prelude.{
  ℕ, ==_iff, min, eq-nil_of_length, ◌-◌, ◌≤◌, ◌<◌, ◌≡◌, refl, sym, ap, ◌∙◌, Option, none, some, [],
  ◌++◌, ◌==◌, leb, length, take, drop, sub64, arith, u64_mod, Bool-cases, inl, inr, append-nil,
  append_assoc, length-append, length-take, length-drop, take_all, leb→le, leb_false→lt, ◌&&◌,
}
use mathlib.Core.Path.{subst₂, ap₂}
use native.Mathlib.Nat.{le_refl}
use rapidtar.Io.{Bytes, ok, err, RecoverableWrite, IsHonest}
use rapidtar.Blocking.Shortcircuit.{shortcircuit_lem}
use rapidtar.Blocking.{
  BlockingWriter, Outcome, fill_block, empty_block, shortcircuit, assert_positive, buffer,
  write_emptied, write,
}

-- The block fits in the blocking factor, which is a positive word.
pub record IsSized {W P : Type 0} (b : BlockingWriter W P) : Type 0 where
  pub positive : 0 < b.blocking_factor
  pub bounded : b.blocking_factor < u64_mod
  pub fits : length b.block ≤ b.blocking_factor

module _ {W P : Type 0} (o : RecoverableWrite W P) (contents : W → Bytes)
    (honest : IsHonest o contents) where
  abbrev pub taken : BlockingWriter W P → Bytes
  taken b = contents b.inner ++ b.block

  pub block_accepted :
      (b : BlockingWriter W P)
      → length b.block ≤ b.blocking_factor
      → (o.write_all (take b.blocking_factor b.block) b.inner).0 ≡ ok tt
      → contents (o.write_all (take b.blocking_factor b.block) b.inner).1 ++ [] ≡ taken b
  block_accepted b fits h =
      append-nil (contents (o.write_all (take b.blocking_factor b.block) b.inner).1)
      ∙ honest.write_all_ok (take b.blocking_factor b.block) b.inner h
      ∙ ap (λ t. contents b.inner ++ t) (take_all b.blocking_factor b.block fits)

  -- After a call that returned ok, the factor is the same and the block has room.
  pub empty_block_lem :
      (b : BlockingWriter W P)
      → IsSized b
      → (empty_block o b).0 ≡ ok tt
      → (taken (empty_block o b).1 ≡ taken b)
        × ((empty_block o b).1.blocking_factor ≡ b.blocking_factor)
        × (length (empty_block o b).1.block < b.blocking_factor)
  unfolding empty_block
  empty_block_lem b v h = ground (arith, block_accepted b v.fits)

  pub buffer_lem :
      (buf : Bytes) (b : BlockingWriter W P)
      → IsSized b
      → let n = min (length buf) (b.blocking_factor - length b.block) in
        ((buffer o buf b).0 ≡ ok n)
        × ((buffer o buf b).1.block ≡ b.block ++ take n buf)
        × ((buffer o buf b).1.inner ≡ b.inner)
        × ((buffer o buf b).1.blocking_factor ≡ b.blocking_factor)
  unfolding buffer fill_block
  buffer_lem buf b v =
      let space = b.blocking_factor - length b.block in
      let e : sub64 b.blocking_factor (length b.block) ≡ space = omega arith in
      rw e (elim (Bool-cases (leb (length buf) space)) [
        | inl all ↦
            let whole : min (length buf) space ≡ length buf = omega (arith, leb→le _ _ all) in
            let n : length buf - 0 ≡ length buf = omega arith in
            rw (all, whole, n)
              (refl, ap (λ t. b.block ++ t) (sym (take_all _ buf (le_refl _))), refl, refl)
        | inr part ↦
            let cut : min (length buf) space ≡ space = omega (arith, leb_false→lt _ _ part) in
            let n : length buf - length (drop space buf) ≡ space =
              omega (arith, length-drop space buf, leb_false→lt _ _ part) in
            rw (part, cut, n) (refl, refl, refl, refl)
      ])

  assert_positive_lem :
      (x : Outcome ℕ W P) (r : ℕ) (b' : BlockingWriter W P)
      → assert_positive o x ≡ some (ok r, b')
      → (x ≡ (ok r, b')) × (0 < r)
  unfolding assert_positive
  assert_positive_lem (err e, b) r b' h = cc
  assert_positive_lem (ok n, b) r b' h = ground arith

  assert_loop_lem :
      (x : Option (Outcome ℕ W P)) (r : ℕ) (b' : BlockingWriter W P)
      → elim x as (λ _. Option (Outcome ℕ W P)) [ none ↦ none | some a ↦ assert_positive o a ]
        ≡ some (ok r, b')
      → (x ≡ some (ok r, b')) × (0 < r)
  assert_loop_lem none r b' h = cc
  assert_loop_lem (some a) r b' h = let (e, pos) = assert_positive_lem a r b' h in (ap some e, pos)

  -- A call of `write` that returned r has taken the first r bytes of `buf`, and at least one if
  -- there is one.
  pub record Wrote (buf : Bytes) (b : BlockingWriter W P) (r : ℕ) (b' : BlockingWriter W P)
      : Type 0 where
    pub inside : r ≤ length buf
    pub progress : 0 < length buf → 0 < r
    pub content : taken b' ≡ taken b ++ take r buf
    pub sized : IsSized b'
    pub same_factor : b'.blocking_factor ≡ b.blocking_factor

  Wrote-nothing :
      (buf : Bytes) (b : BlockingWriter W P) → IsSized b → length buf ≡ 0 → Wrote buf b 0 b
  Wrote-nothing buf b v e = record {
    inside = omega arith;
    progress = λ h. absurd (omega arith);
    content = sym (append-nil (taken b));
    sized = v;
    same_factor = refl;
  }

  Wrote-slices :
      (fuel r : ℕ) (buf : Bytes) (b b' : BlockingWriter W P)
      → IsSized b
      → length b.block ≡ 0
      → b.blocking_factor ≤ length buf
      → 0 < r
      → shortcircuit o fuel buf 0 b ≡ some (ok r, b')
      → Wrote buf b r b'
  Wrote-slices fuel r buf b b' v empty long pos h =
      let t = shortcircuit_lem o contents honest buf fuel 0 r b b' long (omega arith) h in
      let no_block : b.block ≡ [] = eq-nil_of_length b.block empty in
      let all : r - 0 ≡ r = omega arith in
      record {
        inside = t.inside;
        progress = λ _. pos;
        content =
            ap₂ (λ c k. c ++ k) t.accepted (t.same_block ∙ no_block)
            ∙ append-nil (contents b.inner ++ take (r - 0) buf)
            ∙ ap (λ k. contents b.inner ++ take k buf) all
            ∙ ap (λ c. c ++ take r buf)
                (sym (ap (λ k. contents b.inner ++ k) no_block ∙ append-nil (contents b.inner)));
        sized = record {
          positive = rw t.same_factor v.positive;
          bounded = rw t.same_factor v.bounded;
          fits = rw (t.same_factor, t.same_block) v.fits;
        };
        same_factor = t.same_factor;
      }

  Wrote-buffer :
      (r : ℕ) (buf : Bytes) (b b' : BlockingWriter W P)
      → IsSized b
      → 0 < r
      → buffer o buf b ≡ (ok r, b')
      → Wrote buf b r b'
  Wrote-buffer r buf b b' v pos h =
      let n = min (length buf) (b.blocking_factor - length b.block) in
      let (count, block, inner, factor) = rw h at (buffer_lem buf b v) in
      let same : r ≡ n = cc in
      let small : r ≤ b.blocking_factor - length b.block = omega (arith, same) in
      let size = length-append b.block (take n buf) in
      let part = length-take n buf in
      record {
        inside = omega (arith, same);
        progress = λ _. pos;
        content =
            ap₂ (λ c k. contents c ++ k) inner block
            ∙ sym (append_assoc (contents b.inner) b.block (take n buf))
            ∙ ap (λ k. taken b ++ take k buf) (sym same);
        sized = record {
          positive = rw factor v.positive;
          bounded = rw factor v.bounded;
          fits = rw (factor, block) (omega (arith, size, part, v.fits));
        };
        same_factor = factor;
      }

  write_emptied_lem :
      (fuel r : ℕ) (buf : Bytes) (b b' : BlockingWriter W P)
      → IsSized b
      → write_emptied o fuel buf b ≡ some (ok r, b')
      → Wrote buf b r b'
  unfolding write_emptied
  write_emptied_lem fuel r buf b b' v h = elim (Bool-cases (length buf == 0)) [
    | inl none_given ↦
        let ended : ◌≡◌ {A = Option (Outcome ℕ W P)} (some (ok 0, b)) (some (ok r, b')) =
          rw none_given at h in
        subst₂ (Wrote buf b) (cc) (cc) (Wrote-nothing buf b v ((==_iff _ 0).0 none_given))
    | inr given ↦ elim (Bool-cases ((length b.block == 0) && leb b.blocking_factor (length buf))) [
      | inl direct ↦
          let (loop, pos) =
            assert_loop_lem (shortcircuit o fuel buf 0 b) r b' (rw (given, direct) at h) in
          Wrote-slices fuel r buf b b' v (ground arith) (ground arith) pos loop
      | inr normal ↦
          let (count, pos) = assert_positive_lem (buffer o buf b) r b' (rw (given, normal) at h) in
          Wrote-buffer r buf b b' v pos count
    ]
  ]

  write_ok_inv :
      (fuel r : ℕ) (buf : Bytes) (b b' : BlockingWriter W P)
      → write o fuel buf b ≡ some (ok r, b')
      → ((empty_block o b).0 ≡ ok tt)
        × (write_emptied o fuel buf (empty_block o b).1 ≡ some (ok r, b'))
  unfolding write
  write_ok_inv fuel r buf b b' h = ground arith

  pub empty_block-IsSized :
      (b : BlockingWriter W P)
      → IsSized b
      → (empty_block o b).0 ≡ ok tt
      → IsSized (empty_block o b).1
  empty_block-IsSized b v h =
      let (content, factor, room) = empty_block_lem b v h in
      record {
        positive = rw factor v.positive;
        bounded = rw factor v.bounded;
        fits = omega (arith, factor, room);
      }

  -- Over an inner writer that keeps to the contract of `io::Write`, with a positive blocking
  -- factor and a block within it: a call of `write` that returns Ok(r) has taken exactly the first
  -- r bytes of `buf`, in order, behind all that was taken before; r is positive if `buf` is not
  -- empty; and the factor is unchanged and the block within it.
  pub write_lem :
      (fuel r : ℕ) (buf : Bytes) (b b' : BlockingWriter W P)
      → IsSized b
      → write o fuel buf b ≡ some (ok r, b')
      → Wrote buf b r b'
  write_lem fuel r buf b b' v h =
      let (emptied, rest) = write_ok_inv fuel r buf b b' h in
      let (content, factor, room) = empty_block_lem b v emptied in
      let w =
        write_emptied_lem fuel r buf (empty_block o b).1 b' (empty_block-IsSized b v emptied)
          rest in
      record {
        inside = w.inside;
        progress = w.progress;
        content = w.content ∙ ap (λ c. c ++ take r buf) content;
        sized = w.sized;
        same_factor = w.same_factor ∙ factor;
      }
