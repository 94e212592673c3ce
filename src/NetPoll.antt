-- ===== src/NetPoll.antt =====
-- The jobs on descriptors of netpool/src/CNetPoll.cpp, with the list that netpool/src/CJobIoMgr.cpp
-- keeps of them (the Linux branches). epoll_ctl is a parameter, over a state of the kernel's own. A
-- pointer to a job is its address; `none` as the result of an operation is an access behind the end of
-- m_epfd.
pub mod Jobs
pub mod Find
pub mod Add
pub mod Ops
pub mod Sync
pub mod Handle
pub mod Held
pub mod Calls
pub mod Result
pub mod Engine
pub mod Loop
pub mod Life
mod Tests
use netpool.Base.{
  ℕ, ◌+◌, ◌%◌, ◌^◌, Bool, true, false, ◌&&◌, not, Option, none, some, List, [], ◌∷◌, ◌++◌, leb,
  ◌==◌, if◌then◌else◌, get_elem?,
}

pub data JobKind : Type 0 where
  listen_job tcp_job udp_job : JobKind

-- `CIoJob` and what its subclasses add, with its address; the two flags are the bits of m_now_event.
pub record IoJob : Type 0 where
  pub addr : ℕ
  pub kind : JobKind
  pub fd : ℕ
  pub param1 : ℕ
  pub thrd_index : ℕ
  pub event_read : Bool
  pub event_write : Bool
  pub is_want_delete : Bool
  pub read_func : ℕ
  pub write_func : ℕ
  pub free_func : ℕ
  pub cache_len : ℕ

-- The fields of g_NetPoll that the calls read or write, g_IoJobMgr's list and g_ThreadPoolMgr's count of
-- threads. In m_epfd, `none` is -1.
pub record NetPoll : Type 0 where
  pub epfds : List (Option ℕ)
  pub cur_thrd_index : ℕ
  pub worker_thrd_cnt : ℕ
  pub io_jobs : List IoJob

-- A struct epoll_event: EPOLLIN, EPOLLOUT and EPOLLET in its events, and its data.ptr.
pub record Events : Type 0 where
  pub epollin : Bool
  pub epollout : Bool
  pub epollet : Bool
  pub ptr : ℕ

pub data CtlOp : Type 0 where
  ctl_add ctl_mod : Events → CtlOp
  ctl_del : CtlOp

abbrev pub in_et : (ptr : ℕ) → Events
in_et ptr = record { epollin = true; epollout = false; epollet = true; ptr = ptr }

abbrev pub out_et : (ptr : ℕ) → Events
out_et ptr = record { epollin = false; epollout = true; epollet = true; ptr = ptr }

abbrev pub out_only : (ptr : ℕ) → Events
out_only ptr = record { epollin = false; epollout = true; epollet = false; ptr = ptr }

abbrev pub in_out_et : (ptr : ℕ) → Events
in_out_et ptr = record { epollin = true; epollout = true; epollet = true; ptr = ptr }

-- `find_io_job`: the jobs before the one it finds, that job, and those behind it. The first job with the
-- descriptor decides.
unfoldable pub find_io_job : (fd : ℕ) → List IoJob → Option (List IoJob × IoJob × List IoJob)
find_io_job fd [] = none
find_io_job fd (j ∷ js) =
    let rest = find_io_job fd js in
    if j.fd == fd
    then if j.is_want_delete then none else some ([], j, js)
    else elim rest [ none ↦ none | some (before, k, after) ↦ some (j ∷ before, k, after) ]

-- `add_io_job`.
unfoldable pub add_io_job : IoJob → NetPoll → NetPoll
add_io_job j p = record p { io_jobs = p.io_jobs ++ j ∷ [] }

-- The loop of `handle_deling_job`: the jobs that stay in the list, and those that are deleted.
unfoldable pub handle_deling_job : (thrd_index : ℕ) → List IoJob → List IoJob × List IoJob
handle_deling_job thrd_index [] = ([], [])
handle_deling_job thrd_index (j ∷ js) =
    let (stay, deleted) = handle_deling_job thrd_index js in
    if j.thrd_index == thrd_index && j.is_want_delete
    then (stay, j ∷ deleted)
    else (j ∷ stay, deleted)

-- `get_next_thrd_index`.
pub get_next_thrd_index : NetPoll → ℕ × NetPoll
get_next_thrd_index p =
    let next = (p.cur_thrd_index + 1) % 2 ^ 32 in
    let index = if leb p.worker_thrd_cnt next then 0 else next in
    (index, record p { cur_thrd_index = index })

-- The index that a new job gets for the one that was asked for.
unfoldable pub pick_thrd_index : (thrd_index : ℕ) → NetPoll → ℕ × NetPoll
pick_thrd_index thrd_index p =
    if leb p.worker_thrd_cnt thrd_index then get_next_thrd_index p else (thrd_index, p)

-- A job as the constructors of CIoJob and its subclasses leave it, with default_free_handle as the
-- address 0.
unfoldable pub new_job : (addr : ℕ) → JobKind → (fd param1 : ℕ) → IoJob
new_job addr kind fd param1 = record {
  addr = addr;
  kind = kind;
  fd = fd;
  param1 = param1;
  thrd_index = 0;
  event_read = false;
  event_write = false;
  is_want_delete = false;
  read_func = 0;
  write_func = 0;
  free_func = 0;
  cache_len = 0;
}

-- `init_recv_buf`; a listening job has no buffer.
unfoldable pub init_recv_buf : IoJob → (buffer_size : ℕ) → IoJob
init_recv_buf j buffer_size = elim j.kind [
  | listen_job ↦ j
  | tcp_job ↦ record j { cache_len = if buffer_size == 0 then 1500 else buffer_size }
  | udp_job ↦ record j { cache_len = if buffer_size == 0 then 1500 else buffer_size }
]

-- `set_write_callback`; a listening job has none.
pub set_write_callback : IoJob → (callback : ℕ) → IoJob
set_write_callback j callback = elim j.kind [
  | listen_job ↦ j
  | tcp_job ↦ record j { write_func = callback }
  | udp_job ↦ record j { write_func = callback }
]

abbrev pub kind_of : (is_tcp : Bool) → JobKind
kind_of true = tcp_job
kind_of false = udp_job
