-- ===== src/Spanning/Stream/Fifo.antt =====
-- librapidarchive/src/spanning.rs: `DataZoneStream` as a queue of the bytes that are buffered and
-- not yet committed, each under the identifier of its zone.
use rapidtar.Prelude.{
  ℕ, ◌≤◌, ◌≡◌, refl, sym, Option, none, some, List, [], ◌∷◌, ◌++◌, append_assoc, length, replicate,
  All, length-replicate,
}
use rapidtar.Spanning.Zone.{DataZone, IsBalanced}
use rapidtar.Spanning.Stream.{DataZoneStream}

module _ {ℓ} {P : Type ℓ} where
  -- The uncommitted bytes of a zone.
  abbrev pub zone_labels : DataZone P → List (Option P)
  zone_labels z = replicate z.uncommitted_length z.ident

  abbrev pub pending_labels : List (DataZone P) → List (Option P)
  pending_labels [] = []
  pending_labels (z ∷ zs) = zone_labels z ++ pending_labels zs

  abbrev pub cur_labels : Option (DataZone P) → List (Option P)
  cur_labels none = []
  cur_labels (some z) = zone_labels z

  -- The uncommitted bytes of the stream, the first to reach the device at the head.
  abbrev pub labels : DataZoneStream P → List (Option P)
  labels s = pending_labels s.pending_zones ++ cur_labels s.cur_zone

  -- The counts of the current zone add up, and its length is at most `bound`.
  abbrev pub CurFits : ℕ → Option (DataZone P) → Type 0
  CurFits bound none = Unit
  CurFits bound (some z) = IsBalanced z × (z.length ≤ bound)

  -- The counts of every zone add up, and the current zone is at most `bound` long.
  pub record IsTracked (bound : ℕ) (s : DataZoneStream P) : Type 0 where
    pub pending : All IsBalanced s.pending_zones
    pub cur : CurFits bound s.cur_zone

  pub pending_labels-append :
      (xs ys : List (DataZone P))
      → pending_labels (xs ++ ys) ≡ pending_labels xs ++ pending_labels ys
  pending_labels-append [] ys = refl
  pending_labels-append (x ∷ xs) ys =
      rw (pending_labels-append xs ys) (sym (append_assoc (zone_labels x) _ _))

  pub length-zone_labels : (z : DataZone P) → length (zone_labels z) ≡ z.uncommitted_length
  length-zone_labels z = length-replicate z.uncommitted_length z.ident
