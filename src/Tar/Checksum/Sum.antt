-- ===== src/Tar/Checksum/Sum.antt =====
-- The sum of a header's bytes, as a reader computes it, and the checksum field that it reads.
use rapidtar.Prelude.{ℕ, ◌+◌, ◌*◌, ◌<◌, ◌≤◌, ◌≡◌, ◌∙◌, [], ◌∷◌, arith, length, All, add64, u64_mod}
use rapidtar.Io.{Bytes}
use rapidtar.Tar.Checksum.{sum_bytes}

abbrev pub IsByte : ℕ → Type 0
IsByte c = c < 256

abbrev pub total : Bytes → ℕ
total [] = 0
total (c ∷ cs) = c + total cs

pub total_bound : (b : Bytes) → All IsByte b → total b ≤ 255 * length b
total_bound [] h = omega arith
total_bound (c ∷ b) (hc, h) = omega (arith, total_bound b h)

pub sum_bytes_lem :
    (checksum : ℕ) (b : Bytes)
    → All IsByte b
    → checksum + 255 * length b < u64_mod
    → sum_bytes checksum b ≡ checksum + total b
unfolding sum_bytes
sum_bytes_lem checksum [] h k = omega arith
sum_bytes_lem checksum (c ∷ b) (hc, h) k =
    let e : add64 checksum c ≡ checksum + c = omega arith in
    rw e (sum_bytes_lem (checksum + c) b h (omega arith) ∙ (omega arith))
