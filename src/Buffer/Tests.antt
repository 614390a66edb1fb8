-- ===== src/Buffer/Tests.antt =====
-- Runs of the buffer, and its theorems at concrete inputs.
use chitcp.Base.{◌+◌, ◌-◌, ◌^◌, ◌≡◌, refl, true, false, [], ◌∷◌, arith, replicate}
use chitcp.Types.{ewouldblock}
use chitcp.Buffer.{
  Buffer, WriteOutcome, ReadOutcome, wrote, got, init, set_seq_initial, write, write_loop, put,
  towrite, read, read_resume, read_copy, copy_out, toread, available, count, first, next,
}
use chitcp.Buffer.Valid.{IsValid, contents, init-IsValid}
use chitcp.Buffer.Put.{contents-put}
use chitcp.Buffer.Write.{Appended}
use chitcp.Buffer.Reads.{Consumed, read_lem, read-empty}
use chitcp.Buffer.Blocking.{reads, closes, calls, run_write}
use chitcp.Buffer.Blocking.Flow.{Flows, run_write-Flows}
use chitcp.Buffer.Blocking.Progress.{IsDone, steady, run_write-IsDone}
use chitcp.Buffer.Writes.{
  write-fits, available-add-count, next-eq-first-add-count, set_seq_initial-IsValid,
}

-- The eight-byte buffer of buffer.h: four bytes at the end of the array and two at its start.
abbrev wrapped : Buffer
wrapped = record {
  bytes = 15 ∷ 16 ∷ 0 ∷ 0 ∷ 11 ∷ 12 ∷ 13 ∷ 14 ∷ [];
  seq_initial = 100;
  seq_start = 111;
  seq_end = 117;
  start = 4;
  end = 2;
  count = 6;
  closed = false;
  maxsize = 8;
}

abbrev fresh : Buffer
fresh = record {
  bytes = replicate 4 0;
  seq_initial = 0;
  seq_start = 0;
  seq_end = 0;
  start = 0;
  end = 0;
  count = 0;
  closed = false;
  maxsize = 4;
}

abbrev wrapping_numbers : Buffer
wrapping_numbers = record wrapped { seq_start = 2 ^ 32 - 2; seq_end = 4 }

wrapped-IsValid : IsValid wrapped
wrapped-IsValid = ground arith

fresh-IsValid : IsValid fresh
fresh-IsValid = ground arith

contents-wrapped : contents wrapped ≡ 11 ∷ 12 ∷ 13 ∷ 14 ∷ 15 ∷ 16 ∷ []
contents-wrapped = refl

fill_wrapped : write wrapped (1 ∷ 2 ∷ 3 ∷ []) 3 false ≡ WriteOutcome.failed ewouldblock wrapped
unfolding write
fill_wrapped = refl

-- Three bytes go in while the writer sleeps once; the reader gets the oldest four.
sleepy_write :
    (run_write ((reads 4 ∷ []) ∷ []) wrapped (1 ∷ 2 ∷ 3 ∷ []) 3 0).1 ≡ 11 ∷ 12 ∷ 13 ∷ 14 ∷ []
unfolding run_write calls write_loop put towrite read read_resume read_copy copy_out toread
sleepy_write = refl

init-IsValid_example : IsValid (init (replicate 4 0) 4)
init-IsValid_example = init-IsValid (replicate 4 0) 4 refl (omega arith) (omega arith)

contents-put_example :
    contents (put wrapped (1 ∷ 2 ∷ []) 0 2) ≡ 11 ∷ 12 ∷ 13 ∷ 14 ∷ 15 ∷ 16 ∷ 1 ∷ 2 ∷ []
contents-put_example = contents-put wrapped (1 ∷ 2 ∷ []) 0 2 (ground (arith, wrapped-IsValid))

read_lem_example :
    (c : Buffer) × (read wrapped true 4 true ≡ got 4 (11 ∷ 12 ∷ 13 ∷ 14 ∷ []) c)
    × Consumed wrapped 4 c
read_lem_example = read_lem wrapped 4 true wrapped-IsValid (omega arith) (omega arith)

read-empty_example : read fresh true 3 true ≡ ReadOutcome.waits fresh
read-empty_example = read-empty fresh 3 true refl

write-fits_example :
    (c : Buffer) × (write wrapped (1 ∷ 2 ∷ []) 2 false ≡ wrote 2 c)
    × Appended wrapped (1 ∷ 2 ∷ []) 0 2 c
write-fits_example =
    write-fits wrapped (1 ∷ 2 ∷ []) 2 wrapped-IsValid (omega arith) (omega arith) (omega arith)
      false refl (omega arith)

run_write-Flows_example :
    Flows wrapped
      (1 ∷ 2 ∷ 3 ∷ [])
      3
      0
      (run_write ((reads 4 ∷ closes ∷ []) ∷ []) wrapped (1 ∷ 2 ∷ 3 ∷ []) 3 0)
run_write-Flows_example =
    run_write-Flows (1 ∷ 2 ∷ 3 ∷ []) 3 (omega arith) ((reads 4 ∷ closes ∷ []) ∷ []) wrapped 0
      wrapped-IsValid (omega arith) (omega arith)

run_write-IsDone_example :
    IsDone 3 (run_write (steady (0 ∷ 1 ∷ 0 ∷ 5 ∷ [])) wrapped (1 ∷ 2 ∷ 3 ∷ []) 3 0).0
run_write-IsDone_example =
    run_write-IsDone (1 ∷ 2 ∷ 3 ∷ []) 3 (omega arith) 0 (1 ∷ 0 ∷ 5 ∷ []) wrapped wrapped-IsValid
      (omega arith) refl (omega arith)

available-add-count_example : available wrapped + count wrapped ≡ 8
available-add-count_example = available-add-count wrapped wrapped-IsValid

next-eq-first-add-count_example : next wrapped ≡ 117
unfolding first count
next-eq-first-add-count_example = next-eq-first-add-count wrapped wrapped-IsValid

set_seq_initial-IsValid_example : IsValid (set_seq_initial fresh 7)
set_seq_initial-IsValid_example =
    set_seq_initial-IsValid fresh 7 fresh-IsValid (omega arith) refl refl
