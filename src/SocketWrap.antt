-- ===== src/SocketWrap.antt =====
-- Blocking reads and writes of xutil/src/socketwrap.cpp (the Linux branches). What the kernel answers
-- to select(), send() and recv() is a script that the functions consume; `none` means that the
-- script has ended, so the call is still waiting.
pub mod Write
pub mod Reading
pub mod Lines
mod Tests
use netpool.Base.{
  ℕ, zero, suc, ◌+◌, ◌-◌, ◌%◌, ◌^◌, ◌≡◌, Bool, true, false, ◌&&◌, ◌||◌, Option, none, some, List,
  [], ◌∷◌, ◌++◌, ◌==◌, if◌then◌else◌, length, take, drop,
}

-- The errno values that the code tells apart; on Linux EWOULDBLOCK is EAGAIN.
pub data Errno : Type 0 where
  ebadf eintr eagain other : Errno

abbrev pub is_ebadf : Errno → Bool
is_ebadf ebadf = true
is_ebadf _ = false

abbrev pub is_eintr : Errno → Bool
is_eintr eintr = true
is_eintr _ = false

abbrev pub is_eagain : Errno → Bool
is_eagain eagain = true
is_eagain _ = false

-- What select() answers: the descriptor is set, another one is, the time ran out, or an error.
pub data SelectResult : Type 0 where
  ready not_set timeout : SelectResult
  select_failed : Errno → SelectResult

-- What send() answers: it has taken at most so many bytes, or an error.
pub data SendResult : Type 0 where
  accepts : ℕ → SendResult
  send_failed : Errno → SendResult

-- The results 1, 0 and -1.
pub data Ready : Type 0 where
  is_ready not_ready bad_fd : Ready

-- `sock_writeable`: it asks again after EINTR and EAGAIN.
unfoldable pub sock_writeable : List SelectResult → Option Ready
sock_writeable [] = none
sock_writeable (ready ∷ rs) = some is_ready
sock_writeable (not_set ∷ rs) = some not_ready
sock_writeable (timeout ∷ rs) = some not_ready
sock_writeable (select_failed ebadf ∷ rs) = some bad_fd
sock_writeable (select_failed eintr ∷ rs) = sock_writeable rs
sock_writeable (select_failed eagain ∷ rs) = sock_writeable rs
sock_writeable (select_failed other ∷ rs) = some not_ready

-- The answers to one round of the loop of `sock_write_timeout`.
pub record Round : Type 0 where
  pub selects : List SelectResult
  pub answer : SendResult

-- How `sock_write_timeout` left: its result, the bytes that the kernel has taken so far, and the
-- answers that are still to come.
pub record Written : Type 0 where
  pub ret : ℕ
  pub wire : List ℕ
  pub rest : List Round

-- The condition under which the code goes on after an error of send().
pub retries : Errno → Bool
retries e = is_eintr e && is_eagain e && is_eagain e

-- What a round of the loop comes to: it still waits, it takes so many bytes and goes on, it fails,
-- or it breaks.
pub data Progress : Type 0 where
  waits : Progress
  takes : ℕ → Progress
  fails stops : Progress

unfoldable pub round_progress : Option Ready → SendResult → Progress
round_progress none a = waits
round_progress (some is_ready) (accepts n) = takes n
round_progress (some is_ready) (send_failed e) = if retries e then takes 0 else fails
round_progress (some not_ready) a = stops
round_progress (some bad_fd) a = stops

unfoldable pub after_round :
    Progress → (ℕ → Option Written) → (failed stopped : Written) → Option Written
after_round waits continue failed stopped = none
after_round (takes n) continue failed stopped = continue n
after_round fails continue failed stopped = some failed
after_round stops continue failed stopped = some stopped

-- The loop, with `send_len`, the bytes still to send and the wire so far.
unfoldable pub sock_write_loop : ℕ → List Round → List ℕ → List ℕ → Option Written
sock_write_loop send_len rounds [] wire =
    some (record { ret = send_len; wire = wire; rest = rounds })
sock_write_loop send_len [] (b ∷ buf) wire = none
sock_write_loop send_len (r ∷ rounds) (b ∷ buf) wire =
    after_round (round_progress (sock_writeable r.selects) r.answer)
      (λ n. sock_write_loop send_len rounds (drop n (b ∷ buf)) (wire ++ take n (b ∷ buf)))
      (record { ret = 0; wire = wire; rest = rounds })
      (record { ret = send_len - length (b ∷ buf); wire = wire; rest = rounds })

unfoldable pub sock_write_timeout : List Round → List ℕ → List ℕ → Option Written
sock_write_timeout rounds buf wire = sock_write_loop (length buf) rounds buf wire

-- `sock_readable`: it asks again after EINTR and EAGAIN.
unfoldable pub sock_readable : List SelectResult → Option Ready
sock_readable [] = none
sock_readable (ready ∷ rs) = some is_ready
sock_readable (not_set ∷ rs) = some not_ready
sock_readable (timeout ∷ rs) = some not_ready
sock_readable (select_failed ebadf ∷ rs) = some bad_fd
sock_readable (select_failed eintr ∷ rs) = sock_readable rs
sock_readable (select_failed eagain ∷ rs) = sock_readable rs
sock_readable (select_failed other ∷ rs) = some not_ready

-- What recv() answers: it has at most so many bytes of the stream for the caller, or an error. No byte is the
-- end of the stream.
pub data RecvResult : Type 0 where
  delivers : ℕ → RecvResult
  recv_failed : Errno → RecvResult

-- The answers to one round of the loop of `sock_read_timeout`.
pub record ReadRound : Type 0 where
  pub selects : List SelectResult
  pub answer : RecvResult

-- How `sock_read_timeout` left: its result, what it has written to the buffer, the bytes that are still to be
-- received, and the answers that are still to come.
pub record Read : Type 0 where
  pub ret : ℕ
  pub buf : List ℕ
  pub stream : List ℕ
  pub rest : List ReadRound

-- What a round of the loop comes to: it still waits, recv() is called and has at most so many bytes,
-- recv() fails, or it breaks.
pub data ReadProgress : Type 0 where
  still_waits : ReadProgress
  receives : ℕ → ReadProgress
  asks_again read_fails breaks : ReadProgress

unfoldable pub read_progress : Option Ready → RecvResult → ReadProgress
read_progress none a = still_waits
read_progress (some is_ready) (delivers n) = receives n
read_progress (some is_ready) (recv_failed e) = if retries e then asks_again else read_fails
read_progress (some not_ready) a = breaks
read_progress (some bad_fd) a = breaks

-- The loop, with the bytes that are in the buffer and the stream.
unfoldable pub sock_read_loop : (len : ℕ) → List ReadRound → (got stream : List ℕ) → Option Read
sock_read_loop len [] got stream = none
sock_read_loop len (r ∷ rounds) got stream =
    let again = sock_read_loop len rounds got stream in
    elim (read_progress (sock_readable r.selects) r.answer) [
      | still_waits ↦ none
      | receives n ↦
          let bytes = take n (take (len - length got) stream) in
          let buf = got ++ bytes in
          let left = drop (length bytes) stream in
          let more = sock_read_loop len rounds buf left in
          if length bytes == 0
          then some (record { ret = 0; buf = buf; stream = left; rest = rounds })
          else if length buf == len
          then some (record { ret = len; buf = buf; stream = left; rest = rounds })
          else more
      | asks_again ↦ again
      | read_fails ↦ some (record { ret = 0; buf = got; stream = stream; rest = rounds })
      | breaks ↦ some (record { ret = length got; buf = got; stream = stream; rest = rounds })
    ]

unfoldable pub sock_read_timeout : (len : ℕ) → List ReadRound → (stream : List ℕ) → Option Read
sock_read_timeout len rounds stream = sock_read_loop len rounds [] stream

-- RECV_OK, RECV_ERROR and RECV_TIMEOUT; the last one is not used.
pub data RecvLine : Type 0 where
  recv_ok recv_error recv_timeout : RecvLine

-- How `sock_recv_line` left: its result, what stands in the buffer before the terminating NUL, and what
-- is still to come.
pub record Line : Type 0 where
  pub ret : RecvLine
  pub buf : List ℕ
  pub stream : List ℕ
  pub rest : List ReadRound

-- The byte in *buf; where recv() has stored none, the result of the call is not 1.
abbrev first : List ℕ → ℕ
first [] = 0
first (c ∷ cs) = c

-- What `sock_recv_line` does with the byte in *buf: it is the NUL, ends the line, is left out, or is kept.
pub data LineByte : Type 0 where
  is_nul is_newline is_return is_kept : LineByte

unfoldable pub line_byte : ℕ → LineByte
line_byte c =
    if c == 0
    then is_nul
    else if c == 10
    then is_newline
    else if c == 13
    then is_return
    else is_kept

-- The loop of `sock_recv_line`, with the bytes that are stored and the room that is left. Each turn reads an
-- answer, so that more fuel than there are answers is never used up.
unfoldable pub recv_line_loop :
    (fuel bufsiz : ℕ) → List ReadRound → (buf stream : List ℕ) → Option Line
recv_line_loop zero bufsiz rounds buf stream = none
recv_line_loop (suc fuel) zero rounds buf stream =
    some (record { ret = recv_error; buf = buf; stream = stream; rest = rounds })
recv_line_loop (suc fuel) (suc bufsiz) rounds buf stream =
    elim (sock_read_timeout 1 rounds stream) [
      | none ↦ none
      | some r ↦
          let c = first r.buf in
          let stored = buf ++ c ∷ [] in
          let ok : Line = record { ret = recv_ok; buf = buf; stream = r.stream; rest = r.rest } in
          let skips = recv_line_loop fuel (suc bufsiz) r.rest buf r.stream in
          let keeps = recv_line_loop fuel bufsiz r.rest stored r.stream in
          if r.ret == 1
          then elim (line_byte c) [
            | is_nul ↦ some ok
            | is_newline ↦ some ok
            | is_return ↦ skips
            | is_kept ↦ keeps
          ]
          else some (record { ret = recv_error; buf = buf; stream = r.stream; rest = r.rest })
    ]

-- `sock_recv_line`: `bufsiz` is a size_t.
unfoldable pub sock_recv_line : (bufsiz : ℕ) → List ReadRound → (stream : List ℕ) → Option Line
sock_recv_line bufsiz rounds stream =
    recv_line_loop (length rounds + 1) ((bufsiz + (2 ^ 64 - 1)) % 2 ^ 64) rounds [] stream
