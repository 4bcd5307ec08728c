-- ===== src/Spanning/Limiting.antt =====
-- librapidarchive/src/spanning.rs: `LimitingWriter`, which refuses what would exceed its limit, and
-- `UnbufferedWriter`.
pub mod Bound
use rapidtar.Prelude.{ℕ, ◌-◌, Bool, List, [], ◌∷◌, ltb, if◌then◌else◌, length, sub64}
use rapidtar.Spanning.Zone.{DataZone}
use rapidtar.Io.{Bytes, IoResult, ok, err, RecoverableWrite}

pub record LimitingWriter (W : Type 0) : Type 0 where
  pub remain : ℕ
  pub inner : W

pub record UnbufferedWriter (W : Type 0) : Type 0 where
  pub inner : W

module _ {W : Type 0} where
  unfoldable pub wrap : W → ℕ → LimitingWriter W
  wrap inner limit = record { inner = inner; remain = limit }

  module _ {P : Type 0} (o : RecoverableWrite W P) where
    -- The answer to a buffer that is refused, once the inner writer was flushed.
    unfoldable pub refused :
        IoResult (Unit {0}) × W → LimitingWriter W → IoResult ℕ × LimitingWriter W
    refused (err e, inner') s = (err e, record s { inner = inner' })
    refused (ok _, inner') s = (ok 0, record s { inner = inner' })

    unfoldable pub write : Bytes → LimitingWriter W → IoResult ℕ × LimitingWriter W
    write buf s =
        let (result, inner') = o.write buf s.inner in
        if ltb s.remain (length buf)
        then refused (o.flush s.inner) s
        else (result, record { remain = sub64 s.remain (length buf); inner = inner' })

    unfoldable pub flush : LimitingWriter W → IoResult (Unit {0}) × LimitingWriter W
    flush s = let (result, inner') = o.flush s.inner in (result, record s { inner = inner' })

    unfoldable pub begin_data_zone : P → LimitingWriter W → LimitingWriter W
    begin_data_zone ident s = record s { inner = o.begin_data_zone ident s.inner }

    unfoldable pub resume_data_zone : P → ℕ → LimitingWriter W → LimitingWriter W
    resume_data_zone ident committed s = record s {
      inner = o.resume_data_zone ident committed s.inner;
    }

    unfoldable pub end_data_zone : LimitingWriter W → LimitingWriter W
    end_data_zone s = record s { inner = o.end_data_zone s.inner }

    unfoldable pub uncommitted_writes : LimitingWriter W → List (DataZone P)
    uncommitted_writes s = o.uncommitted_writes s.inner

    unfoldable pub unbuffered_write : Bytes → UnbufferedWriter W → IoResult ℕ × UnbufferedWriter W
    unbuffered_write buf s =
        let (result, inner') = o.write buf s.inner in (result, record { inner = inner' })
