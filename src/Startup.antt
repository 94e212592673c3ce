-- ===== src/Startup.antt =====
-- Starting and stopping the loops: netpool/src/CThreadPoolMgr.cpp over the thread pools of ThreadPool,
-- and init_event_fds, start and wait_stop of netpool/src/CNetPoll.cpp. epoll_create() is a parameter,
-- over a state of the kernel's own. The pointer to a pool is its address.
pub mod Opening
pub mod Loops
pub mod Crew
mod Tests
use netpool.Base.{
  ℕ, zero, suc, ◌+◌, ◌-◌, ◌%◌, ◌^◌, Bool, true, false, Option, none, some, List, [], ◌∷◌, ltb, leb,
  ◌==◌, if◌then◌else◌, length, set,
}
use netpool.ThreadPool.{ThreadPool, init, aged_worker}

-- The fields of CThreadPoolMgr; m_evt_thrd_pools is a list in the order of addresses.
pub record ThreadPoolMgr : Type 0 where
  pub evt_thrd_pools : List (ℕ × ThreadPool)
  pub worker_thrd_pool : Option ThreadPool
  pub worker_thrd_cnt : ℕ

-- A pool as its constructor leaves it; the fields that it does not set are 0.
abbrev pub new_pool : ThreadPool
new_pool = record {
  workers = [];
  tasks = [];
  is_run = false;
  enable_insert_task = false;
  quick_free = false;
  min_threads = 0;
  max_threads = 0;
  max_pending_tasks = 0;
  cur_core_id = 0;
  start_core_id = 0;
  use_core_cnt = 0;
}

-- `init_worker_thrds`, with what the pool's `new` returns.
unfoldable pub init_worker_thrds :
    (fresh : ℕ → ℕ) (now max_thrd_cnt start_core core_cnt : ℕ)
    → ThreadPoolMgr
    → Bool × ThreadPoolMgr
init_worker_thrds fresh now max_thrd_cnt start_core core_cnt m =
    if max_thrd_cnt == 0
    then (false, m)
    else elim (init fresh now 1 max_thrd_cnt start_core core_cnt) [
      | none ↦ (false, record m { worker_thrd_pool = some new_pool })
      | some p ↦ (true, record m { worker_thrd_pool = some p; worker_thrd_cnt = max_thrd_cnt })
    ]

-- `m_evt_thrd_pools.insert(newPool)` and `m_evt_thrd_pools.erase(thrdPool)`.
unfoldable pub insert_pool : ℕ → ThreadPool → List (ℕ × ThreadPool) → List (ℕ × ThreadPool)
insert_pool addr p [] = (addr, p) ∷ []
insert_pool addr p ((b, q) ∷ ps) =
    let rest = insert_pool addr p ps in
    if ltb addr b then (addr, p) ∷ (b, q) ∷ ps else if addr == b then (b, q) ∷ ps else (b, q) ∷ rest

unfoldable pub erase_pool : ℕ → List (ℕ × ThreadPool) → List (ℕ × ThreadPool)
erase_pool addr [] = []
erase_pool addr ((b, q) ∷ ps) =
    let rest = erase_pool addr ps in if addr == b then ps else (b, q) ∷ rest

-- `init_evt_thrds`: the pointer that it returns, or NULL; the pool is put at the address `addr`.
unfoldable pub init_evt_thrds :
    (addr : ℕ) (fresh : ℕ → ℕ) (now max_thrd_cnt start_core core_cnt : ℕ)
    → ThreadPoolMgr
    → Option ℕ × ThreadPoolMgr
init_evt_thrds addr fresh now max_thrd_cnt start_core core_cnt m =
    if ltb max_thrd_cnt 1
    then (none, m)
    else elim (init fresh now 1 max_thrd_cnt start_core core_cnt) [
      | none ↦ (none, m)
      | some p ↦ (some addr, record m { evt_thrd_pools = insert_pool addr p m.evt_thrd_pools })
    ]

-- `free_evt_thrds`, after its call of Terminate(), which ThreadPool has: the pool itself is deleted.
unfoldable pub free_evt_thrds : (thrd_pool : Option ℕ) → ThreadPoolMgr → ThreadPoolMgr
free_evt_thrds none m = m
free_evt_thrds (some addr) m = record m { evt_thrd_pools = erase_pool addr m.evt_thrd_pools }

-- The timer's callback, every 30 seconds: THRD_AGE_TIME is 10, and the times are 64-bit numbers.
unfoldable pub age_pools : (agetime : ℕ) → List (ℕ × ThreadPool) → List (ℕ × ThreadPool)
age_pools agetime [] = []
age_pools agetime ((b, q) ∷ ps) = (b, aged_worker agetime q) ∷ age_pools agetime ps

unfoldable pub poll_timer_callback : (now : ℕ) → ThreadPoolMgr → ThreadPoolMgr
poll_timer_callback now m = record m {
  evt_thrd_pools = age_pools ((now + 2 ^ 64 - 10) % 2 ^ 64) m.evt_thrd_pools;
}

-- How `init_event_fds` ends: it returns, it makes an access behind the end of m_epfd, or the assert(0) after a
-- failure of epoll_create() aborts the program.
pub data Outcome (E : Type 0) : Type 0 where
  opens : List (Option ℕ) → E → Outcome E
  overruns aborts : Outcome E

-- What follows the test of a descriptor.
unfoldable pub after_create : {E : Type 0} → Option ℕ → Outcome E → Outcome E
after_create none rest = aborts
after_create (some _) rest = rest

-- The loop of `init_event_fds`, from the index `i`.
module _ {E : Type 0} (epoll_create : E → Option ℕ × E) where
  unfoldable pub open_from : (more i : ℕ) → List (Option ℕ) → E → Outcome E
  open_from zero i epfds e = opens epfds e
  open_from (suc more) i epfds e =
      let (fd, e') = epoll_create e in
      let rest = open_from more (i + 1) (set epfds i fd) e' in
      if ltb i (length epfds) then after_create fd rest else overruns

  -- `init_event_fds`, given m_worker_thrd_cnt.
  unfoldable pub init_event_fds : (worker_thrd_cnt : ℕ) → List (Option ℕ) → E → Outcome E
  init_event_fds worker_thrd_cnt epfds e =
      open_from (if ltb 0 worker_thrd_cnt then worker_thrd_cnt else 1) 0 epfds e

-- The loop of `wait_stop`, over the values that it reads of m_cur_worker_thrds: what it reads after the
-- first 0, or `none` if it still waits.
unfoldable pub wait_loops : (cur_worker_thrds : List ℕ) → Option (List ℕ)
wait_loops [] = none
wait_loops (n ∷ ns) = let rest = wait_loops ns in if n == 0 then some ns else rest

-- The descriptors that `wait_stop` closes, and what it leaves in m_epfd.
unfoldable pub close_epfds : List (Option ℕ) → List ℕ × List (Option ℕ)
close_epfds [] = ([], [])
close_epfds (none ∷ epfds) = let (closed, left) = close_epfds epfds in (closed, none ∷ left)
close_epfds (some fd ∷ epfds) = let (closed, left) = close_epfds epfds in (fd ∷ closed, none ∷ left)

unfoldable pub wait_stop :
    (cur_worker_thrds : List ℕ) → List (Option ℕ) → Option (List ℕ × List (Option ℕ))
wait_stop cur_worker_thrds epfds = elim (wait_loops cur_worker_thrds) [
  | none ↦ none
  | some _ ↦ some (close_epfds epfds)
]
