-- ===== src/JobIo/Tests.antt =====
-- Runs of the read handlers of netpool/src/CJobIo.cpp.
use netpool.Base.{ℕ, suc, ◌≡◌, refl, Bool, List, [], ◌∷◌, leb}
use netpool.SocketWrap.{eintr, eagain, other}
use netpool.JobIo.{
  accepted, accept_failed, RecvResult, received, recv_failed, accept_loop, call_then, stopped,
  tcp_answer, tcp_read, udp_answer, udp_read,
}
use netpool.JobIo.Accept.{Accepts, accept_loop-Accepts}
use netpool.JobIo.Deliver.{Delivers, Blocks, Interrupts, tcp_read-Delivers, udp_read-Delivers}

-- The state counts the calls; the third one deletes the job.
abbrev count_call : List ℕ → ℕ → ℕ
count_call bs n = suc n

abbrev deleted : ℕ → Bool
deleted n = leb 3 n

abbrev answers : List RecvResult
answers = received (1 ∷ 2 ∷ []) ∷ recv_failed eintr ∷ received (3 ∷ []) ∷ recv_failed eagain ∷ []

tcp_run :
    tcp_read deleted count_call answers 0
    ≡ (record { calls = (1 ∷ 2 ∷ []) ∷ (3 ∷ []) ∷ []; rest = []; state = 2 })
unfolding tcp_read tcp_answer call_then stopped
tcp_run = refl

-- The same answers leave a byte behind in a datagram socket.
udp_run : udp_read deleted count_call answers 0 ≡ (record {
  calls = (1 ∷ 2 ∷ []) ∷ [];
  rest = received (3 ∷ []) ∷ recv_failed eagain ∷ [];
  state = 1;
})
unfolding udp_read udp_answer call_then stopped
udp_run = refl

deleted_run : (tcp_read deleted count_call answers 2).calls ≡ (1 ∷ 2 ∷ []) ∷ []
unfolding tcp_read tcp_answer call_then stopped
deleted_run = refl

accept_run : accept_loop (accepted 7 ∷ accept_failed eintr ∷ accepted 8 ∷ []) ≡ (7 ∷ 8 ∷ [], [])
unfolding accept_loop
accept_run = refl

tcp_read-Delivers_example :
    Delivers deleted count_call
      (Blocks deleted count_call)
      answers
      0
      (tcp_read deleted count_call answers 0)
tcp_read-Delivers_example = tcp_read-Delivers deleted count_call answers 0

udp_read-Delivers_example :
    Delivers deleted count_call
      (Interrupts deleted count_call)
      answers
      0
      (udp_read deleted count_call answers 0)
udp_read-Delivers_example = udp_read-Delivers deleted count_call answers 0

accept_loop-Accepts_example :
    Accepts
      (accepted 7 ∷ accept_failed other ∷ [])
      (accept_loop (accepted 7 ∷ accept_failed other ∷ []))
accept_loop-Accepts_example = accept_loop-Accepts (accepted 7 ∷ accept_failed other ∷ [])
