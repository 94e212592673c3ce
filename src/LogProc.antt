-- ===== src/LogProc.antt =====
-- The queue of characters between the callers and the writing thread of xutil/src/logproc.cpp, the
-- rotation of its files, and the test of the level. What the file system answers is a parameter; the
-- clock and the formats of a line are left out.
pub mod Ring
pub mod Drain
pub mod Rotate
mod Tests
use netpool.Base.{
  ℕ, zero, suc, ◌+◌, ◌-◌, ◌/◌, ◌%◌, ◌^◌, Bool, true, false, Option, none, some, List, [], ◌∷◌, ◌++◌,
  ltb, leb, ◌==◌, if◌then◌else◌,
}

-- RING_SIZE.
abbrev pub ring_size : ℕ
ring_size = 0x800000

-- `log_queue`; the array is a function of the index.
pub record LogQueue : Type 0 where
  pub front : ℕ
  pub rear : ℕ
  pub cells : ℕ → ℕ

-- `init_queue`, on memory with any contents.
pub init_queue : (ℕ → ℕ) → LogQueue
init_queue mem = record { front = 0; rear = 0; cells = mem }

-- `lq->data[lq->rear] = data[pos]` and the step of `rear`.
pub put_char : LogQueue → ℕ → LogQueue
put_char lq c = record lq {
  cells = λ i. if i == lq.rear then c else lq.cells i;
  rear = (lq.rear + 1) % ring_size;
}

-- `queue_in`: what does not fit is dropped.
pub queue_in : LogQueue → List ℕ → LogQueue
queue_in lq [] = lq
queue_in lq (c ∷ cs) =
    let rest = queue_in (put_char lq c) cs in
    if lq.front == (lq.rear + 1) % ring_size then lq else rest

-- `queue_out`; `none` is the result -1.
pub queue_out : LogQueue → Option ℕ × LogQueue
queue_out lq =
    if lq.front == lq.rear
    then (none, lq)
    else (some (lq.cells lq.front), record lq { front = (lq.front + 1) % ring_size })

-- The asynchronous branch of `logger_write` and `logger_char_write`: a line below the level is dropped.
pub logger_write : (log_level level : ℕ) → LogQueue → List ℕ → LogQueue
logger_write log_level level lq line = if ltb level log_level then lq else queue_in lq line

-- `file_size_check`, on the size of the file: the number that the old file is renamed to, if it is, and
-- g_cur_files_cnt afterwards.
pub file_size_check : (max_kb max_cnt size cur_files_cnt : ℕ) → Option ℕ × ℕ
file_size_check max_kb max_cnt size cur_files_cnt =
    let cnt = if leb max_cnt cur_files_cnt then 0 else cur_files_cnt in
    if leb max_kb (size / 1024)
    then (some ((cnt + 1) % 2 ^ 32), (cnt + 1) % 2 ^ 32)
    else (none, cur_files_cnt)

-- What comes of closing and opening the file again: the size that file_size_check() reads, and whether fopen()
-- succeeds.
pub record Reopen : Type 0 where
  pub size : ℕ
  pub opened : Bool

-- The writing thread in the inner loop of `async_fputs`: what it has written, its count, how often it
-- has opened the file again, g_cur_files_cnt, and whether the file is open.
pub record Writer : Type 0 where
  pub written : List ℕ
  pub count : ℕ
  pub turns : ℕ
  pub cur_files_cnt : ℕ
  pub is_open : Bool
  pub queue : LogQueue

-- `fputc` and `count++`, for a character that has left the queue.
pub put_out : Writer → ℕ → LogQueue → Writer
put_out s c lq = record s { written = s.written ++ c ∷ []; count = s.count + 1; queue = lq }

module _ (max_kb max_cnt : ℕ) (reopen : (turn : ℕ) → Reopen) where
  -- fclose(), file_size_check() and fopen().
  pub reopen_file : Writer → Writer
  reopen_file s = record s {
    turns = s.turns + 1;
    cur_files_cnt = (file_size_check max_kb max_cnt (reopen s.turns).size s.cur_files_cnt).1;
    is_open = (reopen s.turns).opened;
  }

  -- The test of the count after a character, and the break where fopen() fails.
  pub after_put : Writer → (Writer → Option Writer) → Option Writer
  after_put s continue =
      let next = if s.count % 2 ^ 20 == 0 then reopen_file s else s in
      let rest = continue next in if next.is_open then rest else some next

  -- Without a character the loop ends.
  pub drained : Writer → Option ℕ × LogQueue → (Writer → Option Writer) → Option Writer
  drained s (none, lq) continue = some (record s { queue = lq })
  drained s (some c, lq) continue = after_put (put_out s c lq) continue

  -- The inner loop of `async_fputs`, from an open file on; `none` is a loop that needs more fuel.
  pub drain : ℕ → Writer → Option Writer
  drain zero s = none
  drain (suc fuel) s = drained s (queue_out s.queue) (drain fuel)
