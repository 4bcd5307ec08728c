-- ===== src/Spanning/Stream.antt =====
-- librapidarchive/src/spanning.rs: `DataZoneStream`, the zones of a buffered stream in the order in
-- which their bytes reach the device.
pub mod Fifo
pub mod Commit
pub mod Steps
pub mod Refines
pub mod Report
use rapidtar.Prelude.{
  ℕ, ◌+◌, Option, none, some, List, [], ◌∷◌, ◌++◌, ◌==◌, ltb, if◌then◌else◌, unwrap_or, length,
  get_elem?, set, drop, drop_last, sub64,
}
use rapidtar.Spanning.Zone
use rapidtar.Spanning.Zone.{DataZone, PartialEq, option_eq, merge_zone}

-- The front of the queue is the head of the list.
pub record DataZoneStream {ℓ} (P : Type ℓ) : Type ℓ where
  pub cur_zone : Option (DataZone P)
  pub pending_zones : List (DataZone P)

module _ {ℓ} {P : Type ℓ} where
  unfoldable pub new : DataZoneStream P
  new = record { cur_zone = none; pending_zones = [] }

  -- `if let Some(ref mut zone) = self.cur_zone { … }`
  abbrev pub on_zone : (DataZone P → DataZone P) → Option (DataZone P) → Option (DataZone P)
  on_zone f none = none
  on_zone f (some z) = some (f z)

  unfoldable pub write_buffered : ℕ → DataZoneStream P → DataZoneStream P
  write_buffered n s = record s { cur_zone = on_zone (Zone.write_buffered n) s.cur_zone }

  unfoldable pub write_through : ℕ → DataZoneStream P → DataZoneStream P
  write_through n s = record s { cur_zone = on_zone (Zone.write_through n) s.cur_zone }

  -- The `while let` loop: the queue that is left, and the bytes that no zone of it took. Where the
  -- loop returns from the function, they are 0 and the zone that took the last byte stays.
  unfoldable pub commit_pending : ℕ → List (DataZone P) → List (DataZone P) × ℕ
  commit_pending remain [] = ([], remain)
  commit_pending remain (zone ∷ zones) =
      let (zone', overhang) = Zone.write_committed remain zone in
      let remain' = unwrap_or overhang 0 in
      let rest = commit_pending remain' zones in if remain' == 0 then (zone' ∷ zones, 0) else rest

  -- What follows the loop.
  unfoldable pub commit_current : ℕ → Option (DataZone P) → Option (DataZone P) × Option ℕ
  commit_current remain cur =
      if ltb 0 remain
      then elim cur [
        | none ↦ (none, some remain)
        | some zone ↦
            (some (Zone.write_committed remain zone).0, (Zone.write_committed remain zone).1)
      ]
      else (cur, none)

  unfoldable pub write_committed : ℕ → DataZoneStream P → DataZoneStream P × Option ℕ
  write_committed n s =
      let (zones, remain) = commit_pending n s.pending_zones in
      let (cur, excess) = commit_current remain s.cur_zone in
      (record { cur_zone = cur; pending_zones = zones }, excess)

  -- What `end_data_zone` does to the queue.
  unfoldable pub push_current : Option (DataZone P) → List (DataZone P) → List (DataZone P)
  push_current none zones = zones
  push_current (some zone) zones = elim zone.ident [
    | some _ ↦ zones ++ zone ∷ []
    | none ↦ if ltb 0 zone.length then zones ++ zone ∷ [] else zones
  ]

  unfoldable pub end_data_zone : DataZoneStream P → DataZoneStream P
  unfolding push_current
  end_data_zone s = record {
    cur_zone = some Zone.slack_zone;
    pending_zones = push_current s.cur_zone s.pending_zones;
  }

  unfoldable pub begin_data_zone : P → DataZoneStream P → DataZoneStream P
  unfolding end_data_zone
  begin_data_zone ident s = record (end_data_zone s) { cur_zone = some (Zone.new ident) }

  unfoldable pub resume_data_zone : P → ℕ → DataZoneStream P → DataZoneStream P
  unfolding end_data_zone
  resume_data_zone ident committed s = record (end_data_zone s) {
    cur_zone = some (Zone.for_resumption ident committed);
  }

  -- `if let Some(cur_zone) = &self.cur_zone { zonelist.push(cur_zone.clone()); }`
  unfoldable pub push_zone : Option (DataZone P) → List (DataZone P) → List (DataZone P)
  push_zone none zones = zones
  push_zone (some zone) zones = zones ++ zone ∷ []

  -- The identifier of the first zone of the stream.
  unfoldable pub first_ident : DataZoneStream P → Option (Option P)
  first_ident s = elim s.pending_zones [
    | zone ∷ _ ↦ some zone.ident
    | [] ↦ elim s.cur_zone [ some zone ↦ some zone.ident | none ↦ none ]
  ]

  -- `zone` is the last of the report; an empty slack zone is taken off.
  unfoldable pub trim_last : DataZone P → List (DataZone P) → List (DataZone P)
  trim_last zone zones = elim zone.ident [
    | some _ ↦ zones
    | none ↦ if zone.length == 0 then drop_last zones else zones
  ]

  -- The end of the call. The index of the last zone is computed in `usize`, and wraps around for
  -- an empty report.
  unfoldable pub trim_slack : List (DataZone P) → List (DataZone P)
  unfolding trim_last
  trim_slack zones = elim (get_elem? zones (sub64 (length zones) 1)) [
    | none ↦ zones
    | some zone ↦ trim_last zone zones
  ]

  module _ ⦃e : PartialEq P⦄ where
    -- The loop that looks for the first zone of the list with this identifier.
    unfoldable pub find_start : Option P → ℕ → List (DataZone P) → Option ℕ
    find_start ident i [] = none
    find_start ident i (zone ∷ zones) =
        let rest = find_start ident (i + 1) zones in
        if option_eq zone.ident ident then some i else rest

    -- One round of the merge loop, which leaves the loop in its first round: the list and
    -- `merge_count`.
    unfoldable pub merge_first : List (DataZone P) → ℕ → List (DataZone P) → List (DataZone P) × ℕ
    merge_first chain start [] = (chain, 0)
    merge_first chain start (mine ∷ _) = elim (get_elem? chain start) [
      | none ↦ (chain, 0)
      | some inner ↦ elim (merge_zone inner mine) [
        | some merged ↦ (set chain start merged, 1)
        | none ↦ (chain, 0)
      ]
    ]

    -- The current zone is merged into the zone at this index, or goes to the end.
    unfoldable pub merge_current : ℕ → Option (DataZone P) → List (DataZone P) → List (DataZone P)
    merge_current i none chain = chain
    merge_current i (some cur) chain = elim (get_elem? chain i) [
      | none ↦ chain ++ cur ∷ []
      | some inner ↦ elim (merge_zone inner cur) [
        | some merged ↦ set chain i merged
        | none ↦ chain ++ cur ∷ []
      ]
    ]

    -- The branch with a match at index `start`.
    unfoldable pub merge_chain : DataZoneStream P → ℕ → List (DataZone P) → List (DataZone P)
    merge_chain s start chain =
        let (chain', merge_count) = merge_first chain start s.pending_zones in
        if ltb (length s.pending_zones) merge_count
        then push_zone s.cur_zone (chain' ++ drop merge_count s.pending_zones)
        else merge_current (start + merge_count) s.cur_zone chain'

    unfoldable pub uncommitted_writes :
        DataZoneStream P → Option (List (DataZone P)) → List (DataZone P)
    uncommitted_writes s none = push_zone s.cur_zone s.pending_zones
    uncommitted_writes s (some chain) = elim (first_ident s) [
      | none ↦ trim_slack chain
      | some ident ↦ elim (find_start ident 0 chain) [
        | some start ↦ trim_slack (merge_chain s start chain)
        | none ↦ trim_slack (push_zone s.cur_zone (chain ++ s.pending_zones))
      ]
    ]
