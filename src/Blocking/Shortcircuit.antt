-- ===== src/Blocking/Shortcircuit.antt =====
-- librapidarchive/src/blocking.rs: the loop of `write` that hands slices of the caller's buffer on
-- without copying them.
use rapidtar.Prelude.{
  ℕ, zero, suc, ◌+◌, ◌-◌, ◌≤◌, ◌≡◌, refl, sym, ap, ◌∙◌, Option, some, ◌++◌, leb, length, take, drop,
  arith, Bool-cases, inl, inr, append-nil, append_assoc, length-take, length-drop, drop-drop,
  take-drop-append, take-take,
}
use mathlib.Core.Path.{subst₂}
use rapidtar.Io.{Bytes, IoResult, ok, err, RecoverableWrite, IsHonest}
use rapidtar.Spanning.Stream
use rapidtar.Blocking.{BlockingWriter, Outcome, shortcircuit, shortcircuit_round}

module _ {W P : Type 0} (o : RecoverableWrite W P) (contents : W → Bytes)
    (honest : IsHonest o contents) where
  module _ (buf : Bytes) where
    -- A run of the loop takes what it says it has taken, and leaves the block as it is.
    pub record Took (done : ℕ) (b : BlockingWriter W P) (r : ℕ) (b' : BlockingWriter W P)
        : Type 0 where
      pub progress : done ≤ r
      pub inside : r ≤ length buf
      pub accepted : contents b'.inner ≡ contents b.inner ++ take (r - done) (drop done buf)
      pub same_block : b'.block ≡ b.block
      pub same_factor : b'.blocking_factor ≡ b.blocking_factor

    -- A slice of at most `size` bytes from `done`, and what follows it.
    slices :
        (done n m size : ℕ)
        → n ≤ size
        → take n (take size (drop done buf)) ++ take m (drop (done + n) buf)
          ≡ take (n + m) (drop done buf)
    slices done n m size h =
        rw (take-take n size (drop done buf) h, ← drop-drop done n buf)
          (take-drop-append n m (drop done buf))

    round_lem :
        (next : ℕ → BlockingWriter W P → Option (Outcome ℕ W P)) (done r : ℕ)
        (b b' : BlockingWriter W P) (a : IoResult ℕ × W)
        → ((n : ℕ)
            → a.0 ≡ ok n
            → (n ≤ length (take b.blocking_factor (drop done buf)))
              × (contents a.1
                  ≡ contents b.inner ++ take n (take b.blocking_factor (drop done buf))))
        → ((n : ℕ) (b₁ : BlockingWriter W P)
            → b₁.blocking_factor ≡ b.blocking_factor
            → n ≤ length buf
            → next n b₁ ≡ some (ok r, b')
            → Took n b₁ r b')
        → done ≤ length buf
        → shortcircuit_round o next done a b ≡ some (ok r, b')
        → Took done b r b'
    unfolding shortcircuit_round
    round_lem next done r b b' (err e, w) answer ih inside h = cc
    round_lem next done r b b' (ok n, w) answer ih inside h =
        let (small, grown) = answer n refl in
        let size = length-take b.blocking_factor (drop done buf) in
        let rest = length-drop done buf in
        let t =
          ih (done + n)
            (record b { inner = w; datazone_stream = Stream.write_through n b.datazone_stream })
            refl (omega (arith, size, rest)) h in
        let total : n + (r - (done + n)) ≡ r - done = omega (arith, t.progress) in
        record {
          progress = omega (arith, t.progress);
          inside = t.inside;
          accepted =
              t.accepted
              ∙ ap (λ c. c ++ take (r - (done + n)) (drop (done + n) buf)) grown
              ∙ append_assoc (contents b.inner) _ _
              ∙ ap (λ c. contents b.inner ++ c)
                  (slices done n (r - (done + n)) b.blocking_factor (omega (arith, size))
                    ∙ ap (λ k. take k (drop done buf)) total);
          same_block = t.same_block;
          same_factor = t.same_factor;
        }

    Took-refl : (done : ℕ) (b : BlockingWriter W P) → done ≤ length buf → Took done b done b
    Took-refl done b h = record {
      progress = omega arith;
      inside = h;
      accepted =
          let none_left : done - done ≡ 0 = omega arith in
          rw none_left (sym (append-nil (contents b.inner)));
      same_block = refl;
      same_factor = refl;
    }

    pub shortcircuit_lem :
        (fuel done r : ℕ) (b b' : BlockingWriter W P)
        → b.blocking_factor ≤ length buf
        → done ≤ length buf
        → shortcircuit o fuel buf done b ≡ some (ok r, b')
        → Took done b r b'
    unfolding shortcircuit
    shortcircuit_lem zero done r b b' fits inside h = cc
    shortcircuit_lem (suc fuel) done r b b' fits inside h =
        let slice = take b.blocking_factor (drop done buf) in
        elim (Bool-cases (leb done (length buf - b.blocking_factor))) [
          | inl more ↦
              round_lem (shortcircuit o fuel buf) done r b b' (o.write slice b.inner)
                (λ n e. (honest.write_le slice b.inner n e, honest.write_ok slice b.inner n e))
                (λ n b₁ same ins. shortcircuit_lem fuel n r b₁ b' (rw same fits) ins) inside
                (rw more at h)
          | inr stop ↦
              let ended : ◌≡◌ {A = Option (Outcome ℕ W P)} (some (ok done, b)) (some (ok r, b')) =
                rw stop at h in
              subst₂ (Took done b) (cc) (cc) (Took-refl done b inside)
        ]
