-- ===== src/SocketWrap/Tests.antt =====
-- Runs of xutil/src/socketwrap.cpp on given answers of the kernel.
use netpool.Base.{
  ℕ, ◌≡◌, refl, ◌⊎◌, some, List, [], ◌∷◌, ◌++◌, length, ◌+◌, ◌≤◌, All, arith, take, drop,
}
use netpool.SocketWrap.{
  is_ready, not_ready, delivers, ReadRound, read_progress, sock_readable, sock_read_loop,
  sock_read_timeout, sock_recv_line, recv_ok, eintr, ready, timeout, select_failed, accepts,
  send_failed, Round, Written, retries, sock_writeable, round_progress, after_round,
  sock_write_loop, sock_write_timeout,
}
use netpool.SocketWrap.Write.{Advances, Tells, sock_write_timeout_returns}
use netpool.SocketWrap.Reading.{Decides, ReadsFrom, sock_read_timeout-ReadsFrom}
use netpool.SocketWrap.Lines.{Serves, no_returns, CutShort, sock_recv_line_reads}

abbrev three_bytes : List ℕ
three_bytes = 1 ∷ 2 ∷ 3 ∷ []

-- An interrupted select(), then two bytes, then the rest.
abbrev two_rounds : List Round
two_rounds =
    record { selects = select_failed eintr ∷ ready ∷ []; answer = accepts 2 }
    ∷ record { selects = ready ∷ []; answer = accepts 9 }
    ∷ []

abbrev all_written : Written
all_written = record { ret = 3; wire = 7 ∷ 1 ∷ 2 ∷ 3 ∷ []; rest = [] }

two_rounds_run : sock_write_timeout two_rounds three_bytes (7 ∷ []) ≡ some all_written
unfolding sock_write_timeout sock_write_loop after_round round_progress sock_writeable
two_rounds_run = refl

-- A send() that is interrupted ends the call, with the result 0.
interrupted_run :
    sock_write_timeout
      (record { selects = ready ∷ []; answer = send_failed eintr } ∷ [])
      three_bytes
      []
    ≡ some (record { ret = 0; wire = []; rest = [] })
unfolding sock_write_timeout sock_write_loop after_round round_progress sock_writeable retries
interrupted_run = refl

-- Two bytes and then a time-out: the result is the number of bytes sent.
timeout_run :
    sock_write_timeout
      (record { selects = ready ∷ []; answer = accepts 2 }
        ∷ record { selects = timeout ∷ []; answer = accepts 9 }
        ∷ [])
      three_bytes
      []
    ≡ some (record { ret = 2; wire = 1 ∷ 2 ∷ []; rest = [] })
unfolding sock_write_timeout sock_write_loop after_round round_progress sock_writeable
timeout_run = refl

two_rounds_advance : All Advances two_rounds
unfolding sock_writeable
two_rounds_advance = (
  ((is_ready, refl), λ n e. ground (arith, e)),
  (((is_ready, refl), λ n e. ground (arith, e)), tt),
)

sock_write_timeout_returns_example :
    (w : Written) × (sock_write_timeout two_rounds (1 ∷ 2 ∷ []) (7 ∷ []) ≡ some w)
    × (sent : List ℕ) × (rest : List ℕ) × (1 ∷ 2 ∷ [] ≡ sent ++ rest)
    × (w.wire ≡ (7 ∷ []) ++ sent)
    × Tells two_rounds sent rest w
sock_write_timeout_returns_example =
    sock_write_timeout_returns two_rounds (1 ∷ 2 ∷ []) (7 ∷ []) two_rounds_advance (omega arith)

-- Two bytes, and one more.
abbrev arriving : List ReadRound
arriving =
    record { selects = select_failed eintr ∷ ready ∷ []; answer = delivers 2 }
    ∷ record { selects = ready ∷ []; answer = delivers 9 }
    ∷ record { selects = timeout ∷ []; answer = delivers 9 }
    ∷ []

arriving_decide : All (λ (r : ReadRound). Decides r.selects) arriving
unfolding sock_readable
arriving_decide = ((is_ready, refl), ((is_ready, refl), ((not_ready, refl), tt)))

read_run :
    sock_read_timeout 3 arriving (1 ∷ 2 ∷ 3 ∷ 4 ∷ [])
    ≡ some (record {
      ret = 3;
      buf = three_bytes;
      stream = 4 ∷ [];
      rest = record { selects = timeout ∷ []; answer = delivers 9 } ∷ [];
    })
unfolding sock_read_timeout sock_read_loop read_progress sock_readable
read_run = refl

-- The other side closes after two bytes: the result is 0.
closed_run :
    sock_read_timeout 3 arriving (1 ∷ 2 ∷ [])
    ≡ some (record {
      ret = 0;
      buf = 1 ∷ 2 ∷ [];
      stream = [];
      rest = record { selects = timeout ∷ []; answer = delivers 9 } ∷ [];
    })
unfolding sock_read_timeout sock_read_loop read_progress sock_readable
closed_run = refl

sock_read_timeout-ReadsFrom_example :
    ReadsFrom 3 [] (1 ∷ 2 ∷ 3 ∷ 4 ∷ []) (sock_read_timeout 3 arriving (1 ∷ 2 ∷ 3 ∷ 4 ∷ []))
sock_read_timeout-ReadsFrom_example =
    sock_read_timeout-ReadsFrom 3 arriving (1 ∷ 2 ∷ 3 ∷ 4 ∷ []) arriving_decide (omega arith)
      (omega arith)

-- The line "ab\r\n" and one more byte, which arrive one by one.
abbrev one_byte : ReadRound
one_byte = record { selects = ready ∷ []; answer = delivers 1 }

abbrev line_rounds : List ReadRound
line_rounds = one_byte ∷ one_byte ∷ one_byte ∷ one_byte ∷ one_byte ∷ []

one_byte-Serves : Serves one_byte
unfolding sock_readable
one_byte-Serves = (refl, 0, refl)

sock_recv_line_reads_example :
    let result = sock_recv_line 8 line_rounds (97 ∷ 98 ∷ 13 ∷ 10 ∷ 99 ∷ []) in
    ((length (no_returns (97 ∷ 98 ∷ 13 ∷ [])) + 2 ≤ 8)
      × (result
          ≡ some (record {
            ret = recv_ok;
            buf = no_returns (97 ∷ 98 ∷ 13 ∷ []);
            stream = 99 ∷ [];
            rest = drop 4 line_rounds;
          })))
    ⊎ ((8 ≤ length (no_returns (97 ∷ 98 ∷ 13 ∷ [])) + 1)
        × CutShort (99 ∷ []) (take 7 (no_returns (97 ∷ 98 ∷ 13 ∷ []))) result)
sock_recv_line_reads_example =
    sock_recv_line_reads 8 line_rounds (97 ∷ 98 ∷ 13 ∷ []) (99 ∷ []) (omega arith) (omega arith)
      ((refl, refl), ((refl, refl), ((refl, refl), tt)))
      (
        one_byte-Serves,
        (one_byte-Serves, (one_byte-Serves, (one_byte-Serves, (one_byte-Serves, tt)))),
      )
      (omega arith)
