-- ===== src/Tests/Writers.antt =====
-- Runs of the definitions for the limited and the concurrent writer, and for `serialize`.
use rapidtar.Prelude.{
  ℕ, ◌+◌, ◌%◌, ◌≤◌, ◌<◌, ◌≡◌, refl, arith, some, [], ◌∷◌, ◌++◌, length, replicate,
}
use rapidtar.Io.{Bytes, IoResult, ok}
use rapidtar.Spanning.Limiting.{LimitingWriter, wrap}
use rapidtar.Spanning.Limiting.Bound.{write_each, limit_holds}
use rapidtar.Concurrent
use rapidtar.Concurrent.{ConcurrentWriteBuffer, new, enqueue, execute, do_write_all, lacks_space}
use rapidtar.Concurrent.Run.{Run, start, write, queued, acknowledged}
use rapidtar.Concurrent.Steps.{InOrder}
use rapidtar.Concurrent.Order.{run-InOrder, write_within_limit}
use rapidtar.Tar.Serialize.{
  HeaderGenResult, serialize, write_counted, write_file, write_prefix, stream_needed, copy_rest,
  check_size, pad_blocks,
}
use rapidtar.Tar.FileType.{is_file_stream}
use rapidtar.Tar.Serialize.Blocks.{payload, file_bytes, serialize_lem, serialize-whole_file}
use rapidtar.Tests.Blocking.{cursor, cursor-IsHonest, cursor-KeepsOnFlush}
use rapidtar.Tests.Headers.{header}

abbrev limited : LimitingWriter Bytes
limited = record { remain = 3; inner = 9 ∷ [] }

limit_holds_example :
    length (write_each cursor ((1 ∷ 2 ∷ []) ∷ (3 ∷ 4 ∷ []) ∷ []) (wrap (9 ∷ []) 3)).inner ≤ 1 + 3
limit_holds_example =
    limit_holds cursor (λ w. w) cursor-IsHonest cursor-KeepsOnFlush
      ((1 ∷ 2 ∷ []) ∷ (3 ∷ 4 ∷ []) ∷ []) (9 ∷ []) 3 (omega arith)

abbrev fresh : ConcurrentWriteBuffer Bytes ℕ
fresh = new (9 ∷ []) 10

-- The caller writes two bytes, the thread hands them on, and the caller writes one more.
one_write : Run cursor (9 ∷ []) 10 (enqueue (1 ∷ 2 ∷ []) fresh) ([] ++ 1 ∷ 2 ∷ [])
unfolding lacks_space new
one_write = write fresh [] (1 ∷ 2 ∷ []) start refl

run-InOrder_example : InOrder (λ w. w) (9 ∷ []) (enqueue (1 ∷ 2 ∷ []) fresh) ([] ++ 1 ∷ 2 ∷ [])
run-InOrder_example =
    run-InOrder cursor (λ w. w) cursor-IsHonest cursor-KeepsOnFlush (omega arith) one_write

write_within_limit_example :
    length (queued (enqueue (3 ∷ []) (enqueue (1 ∷ 2 ∷ []) fresh)).commands)
      + acknowledged (enqueue (3 ∷ []) (enqueue (1 ∷ 2 ∷ []) fresh)).responses
    ≤ 10
unfolding new enqueue lacks_space Concurrent.mark_data_buffered Concurrent.send
write_within_limit_example =
    write_within_limit cursor (λ w. w) cursor-IsHonest cursor-KeepsOnFlush (3 ∷ []) (omega arith)
      one_write refl (omega arith)

-- A file of five bytes, of which the first three were read ahead.
abbrev traversal : HeaderGenResult
traversal = record {
  tar_header = record header { file_size = 5 };
  encoded_header = replicate 10 65;
  original_path = [];
  canonical_path = [];
  file_prefix = some (replicate 3 66);
}

abbrev source : IoResult Bytes
source = ok (replicate 5 66)

serialize_lem_example :
    (pad : ℕ) × ((serialize cursor traversal source []).1
      ≡ []
        ++ (replicate 10 65
            ++ (payload cursor (λ w. w) cursor-IsHonest traversal source ++ replicate pad 0)))
    × ((10 + length (payload cursor (λ w. w) cursor-IsHonest traversal source) + pad) % 512 ≡ 0)
    × (pad < 512)
unfolding serialize write_counted write_file write_prefix stream_needed copy_rest check_size
    pad_blocks is_file_stream
serialize_lem_example =
    serialize_lem cursor (λ w. w) cursor-IsHonest traversal source [] {n = 30} refl

serialize-whole_file_example :
    length (file_bytes cursor (λ w. w) cursor-IsHonest traversal source) ≡ 5
unfolding serialize write_counted write_file write_prefix stream_needed copy_rest check_size
    pad_blocks is_file_stream
serialize-whole_file_example =
    serialize-whole_file cursor (λ w. w) cursor-IsHonest traversal source [] {n = 30} refl
      (omega arith) (omega arith) refl
