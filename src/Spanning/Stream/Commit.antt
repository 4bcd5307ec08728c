-- ===== src/Spanning/Stream/Commit.antt =====
-- librapidarchive/src/spanning.rs: `DataZoneStream::write_committed` on the queue of bytes.
use mathlib.Core.Path.{ap₂}
use rapidtar.Prelude.{
  ℕ, ◌+◌, ◌-◌, ◌≤◌, ◌<◌, ◌≡◌, refl, sym, ap, ◌∙◌, true, false, Option, none, some, List, [], ◌∷◌,
  ◌++◌, arith, ◌==◌, ltb, leb, if◌then◌else◌, length, drop, All, length-append, drop-append_le,
  drop-append_ge, drop-replicate, u64_mod, Bool-cases, leb→le, inl, inr, drop-nil, leb_false→lt,
  drop-append, ltb_false→le,
}
use rapidtar.Spanning.Zone
use rapidtar.Spanning.Zone.{DataZone, IsBalanced}
use rapidtar.Spanning.Zone.Laws.{
  write_committed-IsBalanced, uncommitted-write_committed, overhang-write_committed,
  ident-write_committed, write_committed_lem,
}
use rapidtar.Spanning.Stream.{DataZoneStream, write_committed, commit_pending, commit_current}
use rapidtar.Spanning.Stream.Fifo.{
  zone_labels, pending_labels, cur_labels, labels, CurFits, IsTracked, length-zone_labels,
}

-- What a queue of `size` bytes returns for a commit of n bytes.
abbrev excess : ℕ → ℕ → Option ℕ
excess n size = if leb n size then none else some (n - size)

excess_sub : (n a b : ℕ) → excess (n - a) b ≡ excess n (a + b)
excess_sub n a b = ground arith

module _ {ℓ} {P : Type ℓ} where
  labels-commit_zone :
      (n : ℕ) (z : DataZone P)
      → n < u64_mod
      → IsBalanced z
      → zone_labels (Zone.write_committed n z).0 ≡ drop n (zone_labels z)
  labels-commit_zone n z h v =
      rw (ident-write_committed n z, uncommitted-write_committed n z h v)
        (sym (drop-replicate n z.uncommitted_length z.ident))

  commit_pending_stay :
      (n : ℕ) (z : DataZone P) (zs : List (DataZone P))
      → n < u64_mod
      → leb n z.uncommitted_length ≡ true
      → commit_pending n (z ∷ zs) ≡ ((Zone.write_committed n z).0 ∷ zs, 0)
  unfolding commit_pending
  commit_pending_stay n z zs h e = rw (overhang-write_committed n z h, e)

  commit_pending_pop :
      (n : ℕ) (z : DataZone P) (zs : List (DataZone P))
      → n < u64_mod
      → leb n z.uncommitted_length ≡ false
      → commit_pending n (z ∷ zs) ≡ commit_pending (n - z.uncommitted_length) zs
  unfolding commit_pending
  commit_pending_pop n z zs h e =
      let more : ((n - z.uncommitted_length) == 0) ≡ false = ground arith in
      rw (overhang-write_committed n z h, e, more)

  commit_pending_lem :
      (n : ℕ) (zs : List (DataZone P))
      → n < u64_mod
      → All IsBalanced zs
      → (pending_labels (commit_pending n zs).0 ≡ drop n (pending_labels zs))
        × ((commit_pending n zs).1 ≡ n - length (pending_labels zs))
        × All IsBalanced (commit_pending n zs).0
  commit_pending_lem n [] h v = unfold commit_pending in (sym (drop-nil n), omega arith, tt)
  commit_pending_lem n (z ∷ zs) h (vz, v) = elim (Bool-cases (leb n z.uncommitted_length)) [
    | inl e ↦
        let le : n ≤ length (zone_labels z) = omega (arith, length-zone_labels z, leb→le _ _ e) in
        rw (commit_pending_stay n z zs h e) (
          rw (labels-commit_zone n z h vz) (sym (drop-append_le n _ _ le)),
          omega (arith, le, length-append {ℓ} (zone_labels z) (pending_labels zs)),
          (write_committed-IsBalanced n z h vz, v),
        )
    | inr e ↦
        let rest = commit_pending_lem (n - z.uncommitted_length) zs (omega arith) v in
        let ge : length (zone_labels z) ≤ n =
          omega (arith, length-zone_labels z, leb_false→lt _ _ e) in
        let step : drop (n - length (zone_labels z)) (pending_labels zs)
            ≡ drop (n - z.uncommitted_length) (pending_labels zs) =
          ap (λ k. drop (n - k) (pending_labels zs)) (length-zone_labels z) in
        rw (commit_pending_pop n z zs h e) (
          rest.0 ∙ sym (drop-append_ge n (zone_labels z) (pending_labels zs) ge ∙ step),
          omega (
            arith,
            rest.1,
            length-zone_labels z,
            length-append {ℓ} (zone_labels z) (pending_labels zs),
          ),
          rest.2,
        )
  ]

  commit_current_zone :
      (n bound : ℕ) (z : DataZone P)
      → n < u64_mod
      → IsBalanced z
      → z.length ≤ bound
      → (zone_labels (Zone.write_committed n z).0 ≡ drop n (zone_labels z))
        × ((Zone.write_committed n z).1
            ≡ (if leb n (length (zone_labels z)) then none else some (n - length (zone_labels z))))
        × CurFits bound (some (Zone.write_committed n z).0)
  commit_current_zone n bound z h v fits = (
    labels-commit_zone n z h v,
    rw (length-zone_labels z) (overhang-write_committed n z h),
    (write_committed-IsBalanced n z h v, rw (← (write_committed_lem n z h v).0) at fits),
  )

  commit_current_lem :
      (n bound : ℕ) (cur : Option (DataZone P))
      → n < u64_mod
      → CurFits bound cur
      → (cur_labels (commit_current n cur).0 ≡ drop n (cur_labels cur))
        × ((commit_current n cur).1 ≡ (
            if leb n (length (cur_labels cur)) then none else some (n - length (cur_labels cur))))
        × CurFits bound (commit_current n cur).0
  unfolding commit_current
  commit_current_lem n bound none h v = elim (Bool-cases (ltb 0 n)) [
    | inl some_left ↦ rw some_left (sym (drop-nil n), ground arith, tt)
    | inr nothing ↦ rw nothing (sym (drop-nil n), ground arith, tt)
  ]
  commit_current_lem n bound (some z) h (v, fits) = elim (Bool-cases (ltb 0 n)) [
    | inl some_left ↦ rw some_left (commit_current_zone n bound z h v fits)
    | inr nothing ↦
        let e : n ≡ 0 = omega (arith, ltb_false→le 0 n nothing) in
        rw (nothing, e) (refl, ground arith, (v, fits))
  ]

  -- Let the counts of all zones add up and n be a word. Committing n bytes takes the first n bytes
  -- off the queue, over as many zones as they span; the call returns None exactly when the queue
  -- held n bytes, else the excess; and the counts of all zones still add up.
  pub labels-write_committed :
      (n bound : ℕ) (s : DataZoneStream P)
      → n < u64_mod
      → IsTracked bound s
      → (labels (write_committed n s).0 ≡ drop n (labels s))
        × ((write_committed n s).1
            ≡ (if leb n (length (labels s)) then none else some (n - length (labels s))))
        × IsTracked bound (write_committed n s).0
  unfolding write_committed
  labels-write_committed n bound s h v =
      let front = commit_pending_lem n s.pending_zones h v.pending in
      let left = (commit_pending n s.pending_zones).1 in
      let back = commit_current_lem left bound s.cur_zone (omega (arith, front.1)) v.cur in
      let size = length-append {ℓ} (pending_labels s.pending_zones) (cur_labels s.cur_zone) in
      (
        ap₂ (λ p c. p ++ c) front.0 (back.0 ∙ ap (λ k. drop k (cur_labels s.cur_zone)) front.1)
            ∙ sym (drop-append n (pending_labels s.pending_zones) (cur_labels s.cur_zone)),
        back.1
            ∙ ap (λ k. excess k (length (cur_labels s.cur_zone))) front.1
            ∙ excess_sub n (length (pending_labels s.pending_zones))
                (length (cur_labels s.cur_zone))
            ∙ ap (excess n) (sym size),
        record { pending = front.2; cur = back.2 },
      )
