-- ===== src/Spanning/Zone.antt =====
-- librapidarchive/src/spanning.rs: `DataZone`, the record of how much of one source has reached
-- the device.
pub mod Laws
use rapidtar.Prelude.{
  ℕ, ◌+◌, ◌-◌, ◌%◌, ◌≤◌, ◌<◌, min, max, ◌≡◌, refl, Bool, true, false, Option, none, some, arith,
  ltb, leb, if◌then◌else◌, u64_mod, add64, sub64,
}

-- `PartialEq`, with no law.
pub record PartialEq {ℓ} (A : Type ℓ) : Type ℓ where
  pub eq : A → A → Bool

-- `PartialEq` of `Option`.
abbrev pub option_eq {ℓ} : {A : Type ℓ} ⦃e : PartialEq A⦄ → Option A → Option A → Bool
option_eq none none = true
option_eq ⦃e⦄ (some a) (some b) = e.eq a b
option_eq _ _ = false

pub record DataZone {ℓ} (P : Type ℓ) : Type ℓ where
  pub ident : Option P
  pub length : ℕ
  pub committed_length : ℕ
  pub uncommitted_length : ℕ

module _ {ℓ} {P : Type ℓ} where
  unfoldable pub new : P → DataZone P
  new p = record { ident = some p; length = 0; committed_length = 0; uncommitted_length = 0 }

  unfoldable pub for_resumption : P → ℕ → DataZone P
  for_resumption p committed = record {
    ident = some p;
    length = committed;
    committed_length = committed;
    uncommitted_length = 0;
  }

  unfoldable pub slack_zone : DataZone P
  slack_zone = record { ident = none; length = 0; committed_length = 0; uncommitted_length = 0 }

  unfoldable pub write_through : ℕ → DataZone P → DataZone P
  write_through n z = record z {
    length = add64 z.length n;
    committed_length = add64 z.committed_length n;
  }

  unfoldable pub write_buffered : ℕ → DataZone P → DataZone P
  write_buffered n z = record z {
    length = add64 z.length n;
    uncommitted_length = add64 z.uncommitted_length n;
  }

  -- The zone after the call, and the bytes that were committed past its end.
  unfoldable pub write_committed : ℕ → DataZone P → DataZone P × Option ℕ
  write_committed n z =
      if leb n z.uncommitted_length
      then (
        record z {
          committed_length = add64 z.committed_length n;
          uncommitted_length = sub64 z.uncommitted_length n;
        },
        none,
      )
      else let overhang = sub64 n z.uncommitted_length in
        (
          record z {
            committed_length = add64 z.committed_length (sub64 n overhang);
            uncommitted_length = 0;
          },
          some overhang,
        )

  unfoldable pub merge_zone : ⦃e : PartialEq P⦄ → DataZone P → DataZone P → Option (DataZone P)
  merge_zone z other =
      let merged_length = max z.length other.length in
      let merged_commit = min z.committed_length other.committed_length in
      if option_eq z.ident other.ident
      then some (record {
        ident = z.ident;
        length = merged_length;
        committed_length = merged_commit;
        uncommitted_length = sub64 merged_length merged_commit;
      })
      else none

-- The counts are words, and the parts add up to the whole with no wrap-around.
pub record IsBalanced {ℓ} {P : Type ℓ} (z : DataZone P) : Type 0 where
  pub parts : z.committed_length + z.uncommitted_length ≡ z.length
  pub bounded : z.length < u64_mod
