-- ===== src/Rapidmt/Marks.antt =====
-- rapidtar/src/bin/rapidmt.rs: the filemarks that the commands write.
use rapidtar.Prelude.{[], ◌∷◌}
use rapidtar.Io.{Bytes}

abbrev pub weof : Bytes
weof = b'w' ∷ b'e' ∷ b'o' ∷ b'f' ∷ []
