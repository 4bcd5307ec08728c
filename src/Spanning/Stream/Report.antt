-- ===== src/Spanning/Stream/Report.antt =====
-- librapidarchive/src/spanning.rs: what `DataZoneStream::uncommitted_writes` reports.
use rapidtar.Prelude.{
  ℕ, suc, ◌+◌, ◌<◌, ◌≤◌, ◌⊎◌, ◌≡◌, refl, sym, ap, ◌∙◌, Option, none, some, List, [], ◌∷◌, ◌++◌,
  arith, ltb, length, get_elem?, drop_last, drop_last-append, sub64, u64_mod, All, append-nil,
  append_assoc, Bool-cases, inl, inr, true, false, All-append, length-append,
}
use rapidtar.Spanning.Zone.{DataZone, PartialEq, option_eq, IsBalanced}
use rapidtar.Spanning.Stream.{
  DataZoneStream, uncommitted_writes, push_zone, trim_slack, trim_last, first_ident, find_start,
  merge_chain, merge_first, merge_current,
}
use rapidtar.Spanning.Stream.Fifo.{
  zone_labels, pending_labels, cur_labels, labels, CurFits, IsTracked, pending_labels-append,
}

module _ {ℓ} {P : Type ℓ} where
  pending_labels-push_zone :
      (cur : Option (DataZone P)) (zs : List (DataZone P))
      → pending_labels (push_zone cur zs) ≡ pending_labels zs ++ cur_labels cur
  unfolding push_zone
  pending_labels-push_zone none zs = sym (append-nil (pending_labels zs))
  pending_labels-push_zone (some z) zs =
      pending_labels-append zs (z ∷ [])
      ∙ ap (λ t. pending_labels zs ++ t) (append-nil (zone_labels z))

  trim_last-cases :
      (a : DataZone P) (zs : List (DataZone P))
      → (trim_last a zs ≡ zs) ⊎ ((a.length ≡ 0) × (trim_last a zs ≡ drop_last zs))
  unfolding trim_last
  trim_last-cases a zs = ground arith

  trim_slack_at :
      (a : DataZone P) (zs : List (DataZone P))
      → get_elem? zs (sub64 (length zs) 1) ≡ some a
      → trim_slack zs ≡ trim_last a zs
  unfolding trim_slack
  trim_slack_at a zs e = rw (e, trim_slack)

  uncommitted_of_empty : (a : DataZone P) → IsBalanced a → a.length ≡ 0 → a.uncommitted_length ≡ 0
  uncommitted_of_empty a b h = omega arith

  trim_slack-cases :
      (z : DataZone P) (zs : List (DataZone P))
      → length zs + 1 < u64_mod
      → (a : DataZone P) × (drop_last (z ∷ zs) ++ a ∷ [] ≡ z ∷ zs)
        × ((trim_slack (z ∷ zs) ≡ z ∷ zs)
            ⊎ ((a.length ≡ 0) × (trim_slack (z ∷ zs) ≡ drop_last (z ∷ zs))))
  trim_slack-cases z zs h =
      let (a, at, whole) = drop_last-append z zs in
      let e : sub64 (suc (length zs)) 1 ≡ length zs = omega arith in
      (a, whole, rw (trim_slack_at a (z ∷ zs) (rw e at)) (trim_last-cases a (z ∷ zs)))

  All-last :
      (xs : List (DataZone P)) (a : DataZone P) → All IsBalanced (xs ++ a ∷ []) → IsBalanced a
  All-last [] a h = h.0
  All-last (x ∷ xs) a h = All-last xs a h.1

  pending_labels-trim_slack :
      (zs : List (DataZone P))
      → length zs < u64_mod
      → All IsBalanced zs
      → pending_labels (trim_slack zs) ≡ pending_labels zs
  pending_labels-trim_slack [] h v = unfold trim_slack in refl
  pending_labels-trim_slack (z ∷ zs) h v =
      let (a, whole, cases) = trim_slack-cases z zs (omega arith) in
      elim cases [
        | inl e ↦ ap pending_labels e
        | inr (empty, e) ↦
            let b : IsBalanced a = All-last (drop_last (z ∷ zs)) a (rw whole v) in
            let nothing : zone_labels a ≡ [] = rw (uncommitted_of_empty a b empty) in
            ap pending_labels e
            ∙ sym (append-nil (pending_labels (drop_last (z ∷ zs))))
            ∙ ap (λ t. pending_labels (drop_last (z ∷ zs)) ++ t)
                (sym (append-nil (zone_labels a) ∙ nothing))
            ∙ sym (pending_labels-append (drop_last (z ∷ zs)) (a ∷ []))
            ∙ ap pending_labels whole
      ]

  push_zone-IsBalanced :
      (bound : ℕ) (cur : Option (DataZone P)) (zs : List (DataZone P))
      → CurFits bound cur
      → All IsBalanced zs
      → All IsBalanced (push_zone cur zs) × (length (push_zone cur zs) ≤ length zs + 1)
  unfolding push_zone
  push_zone-IsBalanced bound none zs v vs = (vs, omega arith)
  push_zone-IsBalanced bound (some z) zs (v, fits) vs =
      (All-append IsBalanced zs (z ∷ []) vs (v, tt), omega (arith, length-append {ℓ} zs (z ∷ [])))

  module _ ⦃e : PartialEq P⦄ where
    find_start-none :
        (ident : Option P) (i : ℕ) (zs : List (DataZone P))
        → All (λ z. option_eq z.ident ident ≡ false) zs
        → find_start ident i zs ≡ none
    unfolding find_start
    find_start-none ident i [] h = refl
    find_start-none ident i (z ∷ zs) (h, hs) = rw (h, find_start-none ident (i + 1) zs hs)

    find_start-some :
        (ident : Option P) (i : ℕ) (before : List (DataZone P)) (z : DataZone P)
        (after : List (DataZone P))
        → option_eq z.ident ident ≡ true
        → (start : ℕ) × (find_start ident i (before ++ z ∷ after) ≡ some start)
    unfolding find_start
    find_start-some ident i [] z after h = (i, rw h)
    find_start-some ident i (b ∷ before) z after h = elim (Bool-cases (option_eq b.ident ident)) [
      | inl here ↦ (i, rw here)
      | inr later ↦
          let (start, found) = find_start-some ident (i + 1) before z after h in
          (start, rw later found)
    ]

    -- Let the counts of the stream and of the chained list add up, in less than 2^64 zones, and
    -- let no zone of the chained list have the identifier of the stream's first zone. Then the
    -- report holds every uncommitted byte of the chained list and then every one of the stream.
    pub labels-uncommitted_writes :
        (bound : ℕ) (s : DataZoneStream P) (chain : List (DataZone P)) (ident : Option P)
        → IsTracked bound s
        → All IsBalanced chain
        → length chain + length s.pending_zones + 1 < u64_mod
        → first_ident s ≡ some ident
        → All (λ z. option_eq z.ident ident ≡ false) chain
        → pending_labels (uncommitted_writes s (some chain)) ≡ pending_labels chain ++ labels s
    unfolding uncommitted_writes
    labels-uncommitted_writes bound s chain ident v vc size first apart =
        let all = All-append IsBalanced chain s.pending_zones vc v.pending in
        let whole = push_zone-IsBalanced bound s.cur_zone (chain ++ s.pending_zones) v.cur all in
        rw (first, uncommitted_writes, find_start-none ident 0 chain apart)
          (pending_labels-trim_slack (push_zone s.cur_zone (chain ++ s.pending_zones))
              (omega (arith, whole.1, length-append {ℓ} chain s.pending_zones)) whole.0
            ∙ pending_labels-push_zone s.cur_zone (chain ++ s.pending_zones)
            ∙ ap (λ t. t ++ cur_labels s.cur_zone) (pending_labels-append chain s.pending_zones)
            ∙ append_assoc (pending_labels chain) _ _)

    merge_first-one_round :
        (chain : List (DataZone P)) (start : ℕ) (mine : DataZone P) (rest : List (DataZone P))
        → (merge_first chain start (mine ∷ rest) ≡ merge_first chain start (mine ∷ []))
          × ((merge_first chain start (mine ∷ [])).1 ≤ 1)
    unfolding merge_first
    merge_first-one_round chain start mine rest = (refl, ground arith)

    merge_chain_first :
        (cur : Option (DataZone P)) (mine : DataZone P) (rest : List (DataZone P)) (start : ℕ)
        (chain : List (DataZone P))
        → merge_chain (record { cur_zone = cur; pending_zones = mine ∷ rest }) start chain
          ≡ merge_current
              (start + (merge_first chain start (mine ∷ [])).1)
              cur
              (merge_first chain start (mine ∷ [])).0
    unfolding merge_chain
    merge_chain_first cur mine rest start chain =
        let (same, once) = merge_first-one_round chain start mine rest in
        let few : ltb (suc (length rest)) (merge_first chain start (mine ∷ [])).1 ≡ false =
          ground arith in
        rw (same, few)

    -- If the chained list has a zone with the identifier of the first pending zone, the report is
    -- the same whatever zones wait behind that one: their uncommitted bytes are not reported.
    pub report_ignores_later_zones :
        (cur : Option (DataZone P)) (mine : DataZone P) (rest rest' : List (DataZone P))
        (before : List (DataZone P)) (z : DataZone P) (after : List (DataZone P))
        → option_eq z.ident mine.ident ≡ true
        → uncommitted_writes
            (record { cur_zone = cur; pending_zones = mine ∷ rest })
            (some (before ++ z ∷ after))
          ≡ uncommitted_writes
              (record { cur_zone = cur; pending_zones = mine ∷ rest' })
              (some (before ++ z ∷ after))
    unfolding uncommitted_writes first_ident
    report_ignores_later_zones cur mine rest rest' before z after h =
        let (start, found) = find_start-some mine.ident 0 before z after h in
        rw (found, uncommitted_writes)
          (ap trim_slack (
            merge_chain_first cur mine rest start _
            ∙ sym (merge_chain_first cur mine rest' start _)))
