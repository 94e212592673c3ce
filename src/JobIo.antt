-- ===== src/JobIo.antt =====
-- The handlers of read events of netpool/src/CJobIo.cpp (the Linux branches). What the kernel answers to
-- accept(), recv() and recvfrom() is a script; a script that has ended stands for EAGAIN. The callback is a
-- parameter over a state of the program's own, from which m_is_want_delete is read, since a callback may
-- delete its job.
pub mod Deliver
pub mod Accept
mod Tests
use netpool.Base.{ℕ, Bool, true, false, ◌==◌, List, [], ◌∷◌, if◌then◌else◌}
use netpool.SocketWrap.{Errno, ebadf, eintr, eagain, other}

-- What accept() answers.
pub data AcceptResult : Type 0 where
  accepted : ℕ → AcceptResult
  accept_failed : Errno → AcceptResult

-- What recv() and recvfrom() answer: the bytes, none of them for 0, or an error.
pub data RecvResult : Type 0 where
  received : List ℕ → RecvResult
  recv_failed : Errno → RecvResult

-- The descriptors that `CListenJob::read_evt_handle` hands to the callback, and what is left of the script.
pub accept_loop : List AcceptResult → List ℕ × List AcceptResult
accept_loop [] = ([], [])
accept_loop (accepted conn_fd ∷ rs) =
    let (fds, rest) = accept_loop rs in if conn_fd == 0 then ([], rs) else (conn_fd ∷ fds, rest)
accept_loop (accept_failed eintr ∷ rs) = accept_loop rs
accept_loop (accept_failed _ ∷ rs) = ([], rs)

module _ {S : Type 0} (is_want_delete : S → Bool) (read_func : List ℕ → S → S) where
  -- How a read handler leaves: what it has handed to the callback, call by call, the rest of the script,
  -- and the state.
  pub record Handled : Type 0 where
    pub calls : List (List ℕ)
    pub rest : List RecvResult
    pub state : S

  -- A call of the callback before the rest of the loop.
  pub call_then : List ℕ → Handled → Handled
  call_then buf h = record h { calls = buf ∷ h.calls }

  -- The end of the loop without a call.
  pub stopped : List RecvResult → S → Handled
  stopped rest s = record { calls = []; rest = rest; state = s }

  -- The last call of the callback.
  pub call_last : List ℕ → List RecvResult → S → Handled
  call_last buf rest s = record { calls = buf ∷ []; rest = rest; state = read_func buf s }

  -- What an answer of recv() leads to in `CTcpJob::read_evt_handle`.
  pub tcp_answer : RecvResult → List RecvResult → S → (continue : S → Handled) → Handled
  tcp_answer (received []) rs s continue = call_last [] rs s
  tcp_answer (received (b ∷ bs)) rs s continue =
      call_then (b ∷ bs) (continue (read_func (b ∷ bs) s))
  tcp_answer (recv_failed eagain) rs s continue = stopped rs s
  tcp_answer (recv_failed eintr) rs s continue = continue s
  tcp_answer (recv_failed _) rs s continue = call_last [] rs s

  -- `CTcpJob::read_evt_handle`.
  pub tcp_read : List RecvResult → S → Handled
  tcp_read [] s = stopped [] s
  tcp_read (r ∷ rs) s =
      if is_want_delete s then stopped (r ∷ rs) s else tcp_answer r rs s (tcp_read rs)

  -- What an answer of recvfrom() leads to in `CUdpJob::read_evt_handle`: EINTR ends the loop.
  pub udp_answer : RecvResult → List RecvResult → S → (continue : S → Handled) → Handled
  udp_answer (received []) rs s continue = call_last [] rs s
  udp_answer (received (b ∷ bs)) rs s continue =
      call_then (b ∷ bs) (continue (read_func (b ∷ bs) s))
  udp_answer (recv_failed eagain) rs s continue = stopped rs s
  udp_answer (recv_failed eintr) rs s continue = stopped rs s
  udp_answer (recv_failed _) rs s continue = call_last [] rs s

  -- `CUdpJob::read_evt_handle`, without the address of the sender.
  pub udp_read : List RecvResult → S → Handled
  udp_read [] s = stopped [] s
  udp_read (r ∷ rs) s =
      if is_want_delete s then stopped (r ∷ rs) s else udp_answer r rs s (udp_read rs)
