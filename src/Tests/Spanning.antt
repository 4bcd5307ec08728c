-- ===== src/Tests/Spanning.antt =====
-- Runs of the definitions for librapidarchive/src/spanning.rs.
use rapidtar.Prelude.{
  ℕ, ◌+◌, ◌≡◌, refl, arith, Option, none, some, List, [], ◌∷◌, ◌++◌, ◌==◌, drop, length,
  if◌then◌else◌, leb, ◌-◌,
}
use rapidtar.Spanning.Zone
use rapidtar.Spanning.Zone.{DataZone, IsBalanced, PartialEq, option_eq}
use rapidtar.Spanning.Stream
use rapidtar.Spanning.Stream.{DataZoneStream, uncommitted_writes}
use rapidtar.Spanning.Stream.Fifo.{labels, IsTracked, pending_labels}
use rapidtar.Spanning.Stream.Commit.{labels-write_committed}
use rapidtar.Spanning.Stream.Report.{labels-uncommitted_writes, report_ignores_later_zones}
use rapidtar.Spanning.Stream.Refines.{
  StreamCall, buffered, committed, begin, finish, run, queue_run, view, stream_refines_queue,
}

abbrev zone : Option ℕ → ℕ → ℕ → DataZone ℕ
zone p done held = record {
  ident = p;
  length = done + held;
  committed_length = done;
  uncommitted_length = held;
}

-- `datazone_write_committed_overhang`
committed_overhang :
    Zone.write_committed 1024 (Zone.write_buffered 512 (Zone.new 0))
    ≡ (zone (some 0) 512 0, some 512)
unfolding Zone.write_committed Zone.write_buffered Zone.new
committed_overhang = refl

abbrev calls : List (StreamCall ℕ)
calls = begin 1 ∷ buffered 512 ∷ finish ∷ begin 2 ∷ buffered 300 ∷ committed 600 ∷ []

stream_refines_queue_example :
    view (run calls Stream.new) ≡ queue_run calls (record { open_ident = none; bytes = [] })
stream_refines_queue_example = stream_refines_queue calls (omega arith)

abbrev two_zones : DataZoneStream ℕ
two_zones = record { cur_zone = some (zone (some 3) 5 7); pending_zones = zone (some 2) 0 4 ∷ [] }

two_zones-IsTracked : IsTracked 12 two_zones
two_zones-IsTracked = record { pending = omega arith; cur = omega arith }

labels-write_committed_example :
    (labels (Stream.write_committed 6 two_zones).0 ≡ drop 6 (labels two_zones))
    × ((Stream.write_committed 6 two_zones).1 ≡ (
        if leb 6 (length (labels two_zones)) then none else some (6 - length (labels two_zones))))
    × IsTracked 12 (Stream.write_committed 6 two_zones).0
labels-write_committed_example =
    labels-write_committed 6 12 two_zones (omega arith) two_zones-IsTracked

abbrev number_eq : PartialEq ℕ
number_eq = record { eq = λ a b. a == b }

labels-uncommitted_writes_example :
    pending_labels (uncommitted_writes ⦃e = number_eq⦄ two_zones (some (zone (some 1) 0 2 ∷ [])))
    ≡ pending_labels (zone (some 1) 0 2 ∷ []) ++ labels two_zones
unfolding Stream.first_ident
labels-uncommitted_writes_example =
    labels-uncommitted_writes ⦃e = number_eq⦄ 12 two_zones (zone (some 1) 0 2 ∷ []) (some 2)
      two_zones-IsTracked (omega arith) (omega arith) refl (refl, tt)

report_ignores_later_zones_example :
    uncommitted_writes ⦃e = number_eq⦄
      (record { cur_zone = none; pending_zones = zone (some 2) 0 4 ∷ zone (some 3) 0 5 ∷ [] })
      (some ([] ++ zone (some 2) 0 1 ∷ []))
    ≡ uncommitted_writes ⦃e = number_eq⦄
        (record { cur_zone = none; pending_zones = zone (some 2) 0 4 ∷ [] })
        (some ([] ++ zone (some 2) 0 1 ∷ []))
report_ignores_later_zones_example =
    report_ignores_later_zones ⦃e = number_eq⦄ none (zone (some 2) 0 4) (zone (some 3) 0 5 ∷ []) []
      [] (zone (some 2) 0 1) [] refl
