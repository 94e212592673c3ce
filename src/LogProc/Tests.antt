-- ===== src/LogProc/Tests.antt =====
-- Runs of the queue and of the rotation of xutil/src/logproc.cpp.
use netpool.Base.{
  ℕ, Bool, true, false, Option, none, ◌+◌, ◌-◌, ◌^◌, ◌%◌, ◌≡◌, refl, some, List, [], ◌∷◌, ◌++◌,
  arith,
}
use netpool.LogProc.{
  LogQueue, init_queue, put_char, queue_in, queue_out, drained, drain, logger_write, Reopen, Writer,
  put_out, reopen_file, after_put, file_size_check, ring_size,
}
use netpool.LogProc.Ring.{IsRing, contents, Call, write, read, run, run_list, queue_run_refines}
use netpool.LogProc.Drain.{Drains, drain-logger_write}
use netpool.LogProc.Rotate.{rotations, file_size_check-turn}

abbrev empty : LogQueue
empty = record { front = ring_size - 1; rear = ring_size - 1; cells = λ i. 0 }

empty-IsRing : IsRing empty
empty-IsRing = record { front_in = omega arith; rear_in = omega arith }

-- Round the end of the array; the second of three characters is the one with which the count reaches 2^20.
abbrev writer : Writer
writer = record {
  written = 96 ∷ [];
  count = 2 ^ 20 - 2;
  turns = 0;
  cur_files_cnt = 3;
  is_open = true;
  queue = empty;
}

abbrev three_chars : List ℕ
three_chars = 97 ∷ 98 ∷ 99 ∷ []

-- The file is found at its full size, and fopen() succeeds.
abbrev reopens : ℕ → Reopen
reopens turn = record { size = 8388608; opened = true }

abbrev fails : ℕ → Reopen
fails turn = record { size = 8388608; opened = false }

abbrev view : Option Writer → Option (List ℕ × ℕ × ℕ × Bool)
view none = none
view (some s) = some (s.written, s.turns, s.cur_files_cnt, s.is_open)

drain_run :
    view (drain 8192 8 reopens 4 (record writer { queue = queue_in empty three_chars }))
    ≡ some (96 ∷ 97 ∷ 98 ∷ 99 ∷ [], 1, 4, true)
unfolding drain drained after_put put_out reopen_file queue_out queue_in put_char file_size_check
drain_run = refl

-- Where fopen() fails, the loop breaks, and the third character stays.
break_run :
    view (drain 8192 8 fails 4 (record writer { queue = queue_in empty three_chars }))
    ≡ some (96 ∷ 97 ∷ 98 ∷ [], 1, 4, false)
unfolding drain drained after_put put_out reopen_file queue_out queue_in put_char file_size_check
break_run = refl

abbrev calls : List Call
calls = write (97 ∷ 98 ∷ []) ∷ read ∷ write (99 ∷ []) ∷ read ∷ read ∷ read ∷ []

queue_run_refines_example : run calls (init_queue (λ i. 0)) ≡ run_list calls []
queue_run_refines_example = queue_run_refines calls (λ i. 0)

drain-logger_write_example :
    (s' : Writer) × (drain 8192 8 reopens 9
        (record writer { queue = logger_write 1 2 empty three_chars })
      ≡ some s')
    × Drains 8192 8 reopens writer (contents empty ++ three_chars) s'
drain-logger_write_example =
    drain-logger_write 8192 8 reopens 1 2 9 writer three_chars empty-IsRing refl (omega arith)
      (omega arith) (omega arith)

file_size_check-turn_example :
    (file_size_check 8192 8 8388608 (rotations 8192 8 8388608 11)).0 ≡ some (11 % 8 + 1)
file_size_check-turn_example =
    file_size_check-turn 8192 8 8388608 (omega arith) (omega arith) (omega arith) 11
