-- ===== src/Spanning/Zone/Laws.antt =====
-- librapidarchive/src/spanning.rs: what the operations of `DataZone` do to its three counts.
use rapidtar.Prelude.{
  ℕ, ◌+◌, ◌-◌, ◌≤◌, ◌<◌, min, max, ◌≡◌, none, some, arith, leb, if◌then◌else◌, u64_mod,
}
use rapidtar.Spanning.Zone.{
  PartialEq, DataZone, IsBalanced, new, for_resumption, slack_zone, write_through, write_buffered,
  write_committed, merge_zone,
}

module _ {ℓ} {P : Type ℓ} where
  pub new-IsBalanced : (p : P) → IsBalanced (new p)
  unfolding new
  new-IsBalanced p = omega arith

  pub for_resumption-IsBalanced :
      (p : P) (committed : ℕ) → committed < u64_mod → IsBalanced (for_resumption p committed)
  unfolding for_resumption
  for_resumption-IsBalanced p committed h = omega arith

  pub slack_zone-IsBalanced : IsBalanced (slack_zone {P = P})
  unfolding slack_zone
  slack_zone-IsBalanced = omega arith

  pub write_through-IsBalanced :
      (n : ℕ) (z : DataZone P)
      → IsBalanced z
      → z.length + n < u64_mod
      → IsBalanced (write_through n z)
  unfolding write_through
  write_through-IsBalanced n z v h = omega arith

  pub write_buffered-IsBalanced :
      (n : ℕ) (z : DataZone P)
      → IsBalanced z
      → z.length + n < u64_mod
      → IsBalanced (write_buffered n z)
  unfolding write_buffered
  write_buffered-IsBalanced n z v h = omega arith

  pub write_committed-IsBalanced :
      (n : ℕ) (z : DataZone P) → n < u64_mod → IsBalanced z → IsBalanced (write_committed n z).0
  unfolding write_committed
  write_committed-IsBalanced n z h v = ground arith

  pub uncommitted-write_buffered :
      (n : ℕ) (z : DataZone P)
      → IsBalanced z
      → z.length + n < u64_mod
      → (write_buffered n z).uncommitted_length ≡ z.uncommitted_length + n
  unfolding write_buffered
  uncommitted-write_buffered n z v h = omega arith

  pub uncommitted-write_committed :
      (n : ℕ) (z : DataZone P)
      → n < u64_mod
      → IsBalanced z
      → (write_committed n z).0.uncommitted_length ≡ z.uncommitted_length - n
  unfolding write_committed
  uncommitted-write_committed n z h v = ground arith

  pub overhang-write_committed :
      (n : ℕ) (z : DataZone P)
      → n < u64_mod
      → (write_committed n z).1
        ≡ (if leb n z.uncommitted_length then none else some (n - z.uncommitted_length))
  unfolding write_committed
  overhang-write_committed n z h = ground arith

  pub ident-write_committed : (n : ℕ) (z : DataZone P) → (write_committed n z).0.ident ≡ z.ident
  unfolding write_committed
  ident-write_committed n z = ground arith

  -- For a zone whose counts add up, and a word n: committing n bytes moves the smaller of n and
  -- the uncommitted count from the uncommitted to the committed count, leaves the identifier and
  -- the length, and returns None exactly when the zone held n bytes, else the excess.
  pub write_committed_lem :
      (n : ℕ) (z : DataZone P)
      → n < u64_mod
      → IsBalanced z
      → ((write_committed n z).0.length ≡ z.length)
        × ((write_committed n z).0.ident ≡ z.ident)
        × ((write_committed n z).0.committed_length
            ≡ z.committed_length + min n z.uncommitted_length)
        × ((write_committed n z).0.uncommitted_length ≡ z.uncommitted_length - n)
        × ((write_committed n z).1
            ≡ (if leb n z.uncommitted_length then none else some (n - z.uncommitted_length)))
  unfolding write_committed
  write_committed_lem n z h v = ground arith

  module _ ⦃e : PartialEq P⦄ where
    -- Two zones whose counts add up merge, when they merge, into one that has the first's
    -- identifier and whose counts add up; its uncommitted range starts no later and ends no
    -- earlier than that of either zone, and one of the two gives each end.
    pub merge_zone-covers :
        (z other : DataZone P) {m : DataZone P}
        → IsBalanced z
        → IsBalanced other
        → merge_zone z other ≡ some m
        → (m.ident ≡ z.ident)
          × IsBalanced m
          × (m.committed_length ≡ min z.committed_length other.committed_length)
          × (m.length ≡ max z.length other.length)
          × (z.uncommitted_length ≤ m.uncommitted_length)
          × (other.uncommitted_length ≤ m.uncommitted_length)
    unfolding merge_zone
    merge_zone-covers z other v w h = ground arith
