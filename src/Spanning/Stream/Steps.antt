-- ===== src/Spanning/Stream/Steps.antt =====
-- librapidarchive/src/spanning.rs: what the other operations of `DataZoneStream` do to the queue of
-- bytes, and that the counts stay right.
use rapidtar.Prelude.{
  ℕ, ◌+◌, ◌≤◌, ◌<◌, ◌≡◌, refl, sym, ap, ◌∙◌, Option, none, some, List, [], ◌∷◌, ◌++◌, append-nil,
  append_assoc, arith, replicate, All, All-append, replicate-add, u64_mod, inl, inr, ◌%◌, ◌⊎◌,
}
use rapidtar.Spanning.Zone
use rapidtar.Spanning.Zone.{DataZone, IsBalanced}
use rapidtar.Spanning.Stream.{
  DataZoneStream, on_zone, write_buffered, write_through, end_data_zone, begin_data_zone,
  resume_data_zone, push_current,
}
use rapidtar.Spanning.Stream.Fifo.{
  zone_labels, pending_labels, cur_labels, labels, CurFits, IsTracked, pending_labels-append,
}

module _ {ℓ} {P : Type ℓ} where
  -- Buffering and writing through.
  on_zone_lem :
      (f : DataZone P → DataZone P) (bound n : ℕ) (cur : Option (DataZone P))
      → ((z : DataZone P)
          → IsBalanced z
          → z.length ≤ bound
          → IsBalanced (f z) × ((f z).length ≤ bound + n))
      → CurFits bound cur
      → CurFits (bound + n) (on_zone f cur)
  on_zone_lem f bound n none h v = tt
  on_zone_lem f bound n (some z) h (v, fits) = h z v fits

  pub write_buffered-IsTracked :
      (n bound : ℕ) (s : DataZoneStream P)
      → bound + n < u64_mod
      → IsTracked bound s
      → IsTracked (bound + n) (write_buffered n s)
  unfolding write_buffered
  write_buffered-IsTracked n bound s h v = record {
    pending = v.pending;
    cur =
        on_zone_lem (Zone.write_buffered n) bound n s.cur_zone
          (λ z b fits. unfold Zone.write_buffered in omega arith) v.cur;
  }

  pub write_through-IsTracked :
      (n bound : ℕ) (s : DataZoneStream P)
      → bound + n < u64_mod
      → IsTracked bound s
      → IsTracked (bound + n) (write_through n s)
  unfolding write_through
  write_through-IsTracked n bound s h v = record {
    pending = v.pending;
    cur =
        on_zone_lem (Zone.write_through n) bound n s.cur_zone
          (λ z b fits. unfold Zone.write_through in omega arith) v.cur;
  }

  -- The bytes that `write_buffered` adds.
  abbrev pub new_labels : ℕ → Option (DataZone P) → List (Option P)
  new_labels n none = []
  new_labels n (some z) = replicate n z.ident

  cur_labels-write_buffered :
      (n bound : ℕ) (cur : Option (DataZone P))
      → bound + n < u64_mod
      → CurFits bound cur
      → cur_labels (on_zone (Zone.write_buffered n) cur) ≡ cur_labels cur ++ new_labels n cur
  unfolding Zone.write_buffered
  cur_labels-write_buffered n bound none h v = refl
  cur_labels-write_buffered n bound (some z) h (v, fits) =
      let e : (z.uncommitted_length + n) % u64_mod ≡ z.uncommitted_length + n = omega arith in
      rw e (replicate-add z.uncommitted_length n z.ident)

  -- In a stream whose counts add up and whose current zone has room for n more bytes, buffering n
  -- bytes appends n bytes of the current zone to the queue (none, if there is no current zone).
  pub labels-write_buffered :
      (n bound : ℕ) (s : DataZoneStream P)
      → bound + n < u64_mod
      → IsTracked bound s
      → labels (write_buffered n s) ≡ labels s ++ new_labels n s.cur_zone
  unfolding write_buffered
  labels-write_buffered n bound s h v =
      rw (cur_labels-write_buffered n bound s.cur_zone h v.cur)
        (sym (append_assoc (pending_labels s.pending_zones) _ _))

  pub labels-write_through : (n : ℕ) (s : DataZoneStream P) → labels (write_through n s) ≡ labels s
  unfolding write_through Zone.write_through
  labels-write_through n s = ground arith

  push_current-cases :
      (z : DataZone P) (zs : List (DataZone P))
      → (push_current (some z) zs ≡ zs ++ z ∷ [])
        ⊎ ((push_current (some z) zs ≡ zs) × (z.length ≡ 0))
  unfolding push_current
  push_current-cases z zs = ground arith

  push_current_lem :
      (bound : ℕ) (cur : Option (DataZone P)) (zs : List (DataZone P))
      → CurFits bound cur
      → All IsBalanced zs
      → (pending_labels (push_current cur zs) ≡ pending_labels zs ++ cur_labels cur)
        × All IsBalanced (push_current cur zs)
  push_current_lem bound none zs v vs =
      unfold push_current in (sym (append-nil (pending_labels zs)), vs)
  push_current_lem bound (some z) zs (v, fits) vs = elim (push_current-cases z zs) [
    | inl e ↦ rw e (
      pending_labels-append zs (z ∷ [])
          ∙ ap (λ t. pending_labels zs ++ t) (append-nil (zone_labels z)),
      All-append IsBalanced zs (z ∷ []) vs (v, tt),
    )
    | inr (e, empty) ↦
        let nothing : z.uncommitted_length ≡ 0 = omega arith in
        rw e (rw nothing (sym (append-nil (pending_labels zs))), vs)
  ]

  -- Whatever zone is opened next, closing the current zone leaves the queue as it is.
  labels-reopen :
      (bound : ℕ) (s : DataZoneStream P) (z : DataZone P)
      → z.uncommitted_length ≡ 0
      → IsTracked bound s
      → pending_labels (push_current s.cur_zone s.pending_zones) ++ zone_labels z ≡ labels s
  labels-reopen bound s z empty v = rw empty (
      append-nil (pending_labels (push_current s.cur_zone s.pending_zones))
      ∙ (push_current_lem bound s.cur_zone s.pending_zones v.cur v.pending).0)

  module _ (bound : ℕ) (s : DataZoneStream P) (v : IsTracked bound s) where
    pub labels-end_data_zone : labels (end_data_zone s) ≡ labels s
    unfolding end_data_zone Zone.slack_zone
    labels-end_data_zone = labels-reopen bound s Zone.slack_zone refl v

    -- In a stream whose counts add up, ending the zone, or opening one anew or for resumption,
    -- changes no byte of the queue.
    pub labels-zone_change :
        (p : P) (committed : ℕ)
        → (labels (end_data_zone s) ≡ labels s)
          × (labels (begin_data_zone p s) ≡ labels s)
          × (labels (resume_data_zone p committed s) ≡ labels s)
    unfolding begin_data_zone resume_data_zone end_data_zone Zone.slack_zone Zone.new
        Zone.for_resumption
    labels-zone_change p committed = (
      labels-reopen bound s Zone.slack_zone refl v,
      labels-reopen bound s (Zone.new p) refl v,
      labels-reopen bound s (Zone.for_resumption p committed) refl v,
    )

    pub end_data_zone-IsTracked : IsTracked bound (end_data_zone s)
    unfolding end_data_zone Zone.slack_zone
    end_data_zone-IsTracked = record {
      pending = (push_current_lem bound s.cur_zone s.pending_zones v.cur v.pending).1;
      cur = omega arith;
    }

    pub begin_data_zone-IsTracked : (p : P) → IsTracked bound (begin_data_zone p s)
    unfolding begin_data_zone end_data_zone Zone.new
    begin_data_zone-IsTracked p = record {
      pending = (push_current_lem bound s.cur_zone s.pending_zones v.cur v.pending).1;
      cur = omega arith;
    }

    pub resume_data_zone-IsTracked :
        (p : P) (committed : ℕ)
        → bound + committed < u64_mod
        → IsTracked (bound + committed) (resume_data_zone p committed s)
    unfolding resume_data_zone end_data_zone Zone.for_resumption
    resume_data_zone-IsTracked p committed h = record {
      pending = (push_current_lem bound s.cur_zone s.pending_zones v.cur v.pending).1;
      cur = omega arith;
    }
