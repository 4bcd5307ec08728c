-- ===== src/Tests/Blocking.antt =====
-- Runs of the definitions for librapidarchive/src/blocking.rs, over a cursor on a vector.
use rapidtar.Prelude.{
  ℕ, ◌≡◌, refl, arith, some, [], ◌∷◌, ◌++◌, length, sym, take_all, ap, replicate, ◌-◌,
}
use rapidtar.Io.{Bytes, ok, RecoverableWrite, IsHonest, KeepsOnFlush, MakesProgress}
use rapidtar.Spanning.Stream
use rapidtar.Spanning.Stream.{DataZoneStream}
use rapidtar.Blocking
use rapidtar.Blocking.{BlockingWriter, Outcome}
use rapidtar.Blocking.Content.{IsSized, Wrote, write_lem}
use rapidtar.Blocking.Returns.{write_returns}
use rapidtar.Blocking.Flush.{flush_lem}

-- `io::Cursor<Vec<u8>>`: it takes all that it is given.
abbrev pub cursor : RecoverableWrite Bytes ℕ
cursor = record {
  write = λ b w. (ok (length b), w ++ b);
  write_all = λ b w. (ok tt, w ++ b);
  flush = λ w. (ok tt, w);
  begin_data_zone = λ p w. w;
  resume_data_zone = λ p n w. w;
  end_data_zone = λ w. w;
  uncommitted_writes = λ w. [];
}

cursor_ok : {m n : ℕ} → ok m ≡ ok n → m ≡ n
cursor_ok h = cc

pub cursor-IsHonest : IsHonest cursor (λ w. w)
cursor-IsHonest = record {
  write_le = λ b w n h. omega (arith, cursor_ok h);
  write_ok = λ b w n h. ap (λ t. w ++ t) (sym (take_all n b (omega (arith, cursor_ok h))));
  write_err = λ b w e h. absurd (cc);
  write_all_ok = λ b w h. refl;
  contents-begin = λ p w. refl;
  contents-resume = λ p n w. refl;
  contents-end = λ w. refl;
}

pub cursor-KeepsOnFlush : KeepsOnFlush cursor (λ w. w)
cursor-KeepsOnFlush = record { contents-flush = λ w. refl }

cursor-MakesProgress : MakesProgress cursor
cursor-MakesProgress b w n h pos = omega (arith, cursor_ok h)

abbrev half_full : BlockingWriter Bytes ℕ
half_full = record {
  blocking_factor = 4;
  inner = 9 ∷ [];
  block = 1 ∷ 2 ∷ [];
  datazone_stream = Stream.new;
}

abbrev full : BlockingWriter Bytes ℕ
full = record {
  blocking_factor = 4;
  inner = 9 ∷ [];
  block = 1 ∷ 2 ∷ 3 ∷ 4 ∷ [];
  datazone_stream = Stream.new;
}

half_full-IsSized : IsSized half_full
half_full-IsSized = omega arith

-- The block takes two of the three bytes.
write_lem_example : Wrote cursor (λ w. w) cursor-IsHonest (3 ∷ 4 ∷ 5 ∷ []) half_full 2 full
unfolding Blocking.write Blocking.empty_block Blocking.write_emptied Blocking.buffer
    Blocking.fill_block Blocking.assert_positive Stream.new Stream.write_buffered
write_lem_example =
    write_lem cursor (λ w. w) cursor-IsHonest 4 2 (3 ∷ 4 ∷ 5 ∷ []) half_full full half_full-IsSized
      refl

write_returns_example :
    (x : Outcome ℕ Bytes ℕ) × (Blocking.write cursor 4 (3 ∷ 4 ∷ 5 ∷ []) half_full ≡ some x)
write_returns_example =
    write_returns cursor (λ w. w) cursor-IsHonest cursor-MakesProgress 4 (3 ∷ 4 ∷ 5 ∷ []) half_full
      half_full-IsSized (omega arith)

flush_lem_example :
    ((Blocking.flush cursor half_full).1.inner ≡ (9 ∷ []) ++ ((1 ∷ 2 ∷ []) ++ replicate (4 - 2) 0))
    × ((Blocking.flush cursor half_full).1.block ≡ [])
    × ((Blocking.flush cursor half_full).1.blocking_factor ≡ 4)
unfolding Blocking.flush Blocking.empty_block Blocking.block_written Blocking.pad_block
    Blocking.end_data_zone
flush_lem_example =
    flush_lem cursor (λ w. w) cursor-IsHonest cursor-KeepsOnFlush half_full half_full-IsSized refl
