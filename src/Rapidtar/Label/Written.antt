-- ===== src/Rapidtar/Label/Written.antt =====
-- rapidtar/src/bin/rapidtar.rs: what `label_proc` writes.
use rapidtar.Prelude.{◌≡◌, refl, sym, ap, ◌∙◌, Option, none, some, ◌++◌}
use rapidtar.Io.{Bytes, IoResult, ok, err, RecoverableWrite, IsHonest}
use rapidtar.Tar.Header.{RecoveryEntry}
use rapidtar.Rapidtar.Label.{write_label}

module _ {W : Type 0} (o : RecoverableWrite W RecoveryEntry) (contents : W → Bytes)
    (honest : IsHonest o contents) where
  pub label_written :
      (label : Option (IoResult Bytes)) (w w' : W)
      → write_label o label w ≡ some (ok tt, w')
      → (bytes : Bytes) × (label ≡ some (ok bytes)) × (contents w' ≡ contents w ++ bytes)
  unfolding write_label
  label_written none w w' h = absurd (cc)
  label_written (some (err x)) w w' h = absurd (cc)
  label_written (some (ok b)) w w' h =
      let out : o.write_all b w ≡ (ok tt, w') = cc in
      (b, refl, sym (ap (λ r. contents r.1) out) ∙ honest.write_all_ok b w (ap (λ r. r.0) out))
