-- ===== src/Blocking/Returns.antt =====
-- librapidarchive/src/blocking.rs: `write` returns, and its assertions hold.
use rapidtar.Prelude.{
  ℕ, lt→ltb, min, zero, suc, ◌+◌, ◌-◌, ◌≤◌, ◌<◌, ◌≡◌, refl, sym, ap, ◌∙◌, Option, none, some, ◌==◌,
  leb, length, take, drop, arith, Bool-cases, inl, inr, length-take, length-drop, leb→le,
  leb_false→lt, ◌&&◌,
}
use rapidtar.Io.{Bytes, IoResult, ok, err, RecoverableWrite, IsHonest, MakesProgress}
use rapidtar.Spanning.Stream
use rapidtar.Blocking.{
  BlockingWriter, Outcome, empty_block, shortcircuit, shortcircuit_round, assert_positive, buffer,
  write_emptied, write,
}
use rapidtar.Blocking.Content.{IsSized, empty_block_lem, empty_block-IsSized, buffer_lem}

module _ {W P : Type 0} (o : RecoverableWrite W P) (contents : W → Bytes)
    (honest : IsHonest o contents) (progress : MakesProgress o) where
  module _ (buf : Bytes) where
    -- The loop ended with an error, or behind the last whole slice.
    record Ended (b : BlockingWriter W P) (x : Option (Outcome ℕ W P)) : Type 0 where
      outcome : Outcome ℕ W P
      returned : x ≡ some outcome
      whole : (r : ℕ) → outcome.0 ≡ ok r → length buf - b.blocking_factor < r

    round_returns :
        (next : ℕ → BlockingWriter W P → Option (Outcome ℕ W P)) (done : ℕ) (b : BlockingWriter W P)
        (a : IoResult ℕ × W)
        → ((n : ℕ) → a.0 ≡ ok n → 0 < n)
        → ((n : ℕ) (b₁ : BlockingWriter W P)
            → b₁.blocking_factor ≡ b.blocking_factor
            → done < n
            → Ended b₁ (next n b₁))
        → Ended b (shortcircuit_round o next done a b)
    unfolding shortcircuit_round
    round_returns next done b (err e, w) pos ih = record {
      outcome = (err e, record b { inner = w });
      returned = refl;
      whole = λ r h. cc;
    }
    round_returns next done b (ok n, w) pos ih =
        let t =
          ih (done + n)
            (record b { inner = w; datazone_stream = Stream.write_through n b.datazone_stream })
            refl (omega (arith, pos n refl)) in
        record { outcome = t.outcome; returned = t.returned; whole = t.whole }

    shortcircuit_returns :
        (fuel done : ℕ) (b : BlockingWriter W P)
        → 0 < b.blocking_factor
        → b.blocking_factor ≤ length buf
        → length buf - done < fuel
        → Ended b (shortcircuit o fuel buf done b)
    unfolding shortcircuit
    shortcircuit_returns zero done b pos long enough = absurd (omega arith)
    shortcircuit_returns (suc fuel) done b pos long enough =
        let slice = take b.blocking_factor (drop done buf) in
        let size = length-take b.blocking_factor (drop done buf) in
        let rest = length-drop done buf in
        elim (Bool-cases (leb done (length buf - b.blocking_factor))) [
          | inl more ↦
              let room : done ≤ length buf - b.blocking_factor = leb→le _ _ more in
              rw more (
                round_returns (shortcircuit o fuel buf) done b (o.write slice b.inner)
                  (λ n e. progress slice b.inner n e (omega (arith, size, rest, room)))
                  (λ n b₁ same further.
                    shortcircuit_returns fuel n b₁ (rw same pos) (rw same long)
                      (omega (arith, room, further))))
          | inr stop ↦ rw stop (record {
            outcome = (ok done, b);
            returned = refl;
            whole = λ r e. let same : done ≡ r = cc in omega (arith, same, leb_false→lt _ _ stop);
          })
        ]

  assert_returns :
      (x : Outcome ℕ W P) → ((r : ℕ) → x.0 ≡ ok r → 0 < r) → assert_positive o x ≡ some x
  unfolding assert_positive
  assert_returns (err e, b) pos = refl
  assert_returns (ok n, b) pos = rw (lt→ltb 0 n (pos n refl))

  loop_returns :
      (buf : Bytes) (b : BlockingWriter W P) (x : Option (Outcome ℕ W P))
      → Ended buf b x
      → (y : Outcome ℕ W P) × (elim x as (λ _. Option (Outcome ℕ W P)) [
        | none ↦ none
        | some a ↦ assert_positive o a
      ]
          ≡ some y)
  loop_returns buf b none t = absurd (cc (t.returned))
  loop_returns buf b (some a) t =
      let same : a ≡ t.outcome = cc (t.returned) in
      (a, assert_returns a (λ r e. omega (arith, t.whole r (ap (λ x. x.0) (sym same) ∙ e))))

  write_emptied_returns :
      (fuel : ℕ) (buf : Bytes) (b : BlockingWriter W P)
      → IsSized b
      → length b.block < b.blocking_factor
      → length buf < fuel
      → (x : Outcome ℕ W P) × (write_emptied o fuel buf b ≡ some x)
  unfolding write_emptied
  write_emptied_returns fuel buf b v room enough = elim (Bool-cases (length buf == 0)) [
    | inl nothing ↦ ((ok 0, b), rw nothing)
    | inr given ↦ elim (Bool-cases ((length b.block == 0) && leb b.blocking_factor (length buf))) [
      | inl direct ↦
          rw (given, direct)
            (loop_returns buf b (shortcircuit o fuel buf 0 b)
              (shortcircuit_returns buf fuel 0 b v.positive (ground arith) (omega arith)))
      | inr normal ↦
          let (count, _, _, _) = buffer_lem o contents honest buf b v in
          rw (given, normal)
            (
              buffer o buf b,
              assert_returns (buffer o buf b) (λ r e.
                  let same : min (length buf) (b.blocking_factor - length b.block) ≡ r = cc in
                  ground arith),
            )
    ]
  ]

  emptied_returns :
      (fuel : ℕ) (buf : Bytes) (e : IoResult (Unit {0})) (b : BlockingWriter W P)
      → (e ≡ ok tt → (x : Outcome ℕ W P) × (write_emptied o fuel buf b ≡ some x))
      → (x : Outcome ℕ W P) × (elim e as (λ _. Option (Outcome ℕ W P)) [
        | err k ↦ some (err k, b)
        | ok _ ↦ write_emptied o fuel buf b
      ]
          ≡ some x)
  emptied_returns fuel buf (err k) b h = ((err k, b), refl)
  emptied_returns fuel buf (ok _) b h = h refl

  -- Over an inner writer that keeps to the contract of `io::Write` and takes at least one byte of
  -- every buffer that holds one, with a positive blocking factor and a block within it: every call
  -- of `write` returns, with Ok or Err, and its assertions hold; more rounds of its loop than
  -- `buf` has bytes are enough.
  pub write_returns :
      (fuel : ℕ) (buf : Bytes) (b : BlockingWriter W P)
      → IsSized b
      → length buf < fuel
      → (x : Outcome ℕ W P) × (write o fuel buf b ≡ some x)
  unfolding write
  write_returns fuel buf b v enough =
      emptied_returns fuel buf (empty_block o b).0 (empty_block o b).1 λ e.
        let (content, factor, room) = empty_block_lem o contents honest b v e in
        write_emptied_returns fuel buf (empty_block o b).1
          (empty_block-IsSized o contents honest b v e) (rw factor room) enough
