-- ===== src/Startup/Tests.antt =====
-- Runs of the start and the end of the loops of netpool/src/CNetPoll.cpp.
use netpool.Base.{
  ℕ, zero, suc, ◌+◌, ◌≡◌, ◌≤◌, ◌<◌, ◌⊎◌, inl, refl, true, false, Option, none, some, List, [], ◌∷◌,
  arith, length, replicate, ltb, if◌then◌else◌,
}
use netpool.ThreadPool.{
  worker_started, Worker, ThreadPool, new_worker, insert_worker, get_new_core, add_worker,
  add_workers, set_up, init, is_all_worker_busy, wants_worker, execute,
}
use netpool.ThreadPool.Tasks.{in_hand}
use netpool.Startup.{
  ThreadPoolMgr, init_worker_thrds, opens, overruns, aborts, after_create, init_event_fds,
  open_from, wait_stop,
}
use netpool.Startup.Loops.{Step, Reach}
use netpool.Startup.Crew.{Reach-HasWorkers}
use netpool.Startup.Opening.{given, loops, init_event_fds-wait_stop}

abbrev no_pools : ThreadPoolMgr
no_pools = record { evt_thrd_pools = []; worker_thrd_pool = none; worker_thrd_cnt = 0 }

abbrev fresh_addr : ℕ → ℕ
fresh_addr i = i + 100

-- A pool for two loops, with its first worker.
abbrev worker : Worker
worker = new_worker 100 0

abbrev two_loops : ThreadPool
two_loops = record {
  workers = worker ∷ [];
  tasks = [];
  is_run = true;
  enable_insert_task = true;
  quick_free = false;
  min_threads = 1;
  max_threads = 2;
  max_pending_tasks = 0;
  cur_core_id = 0;
  start_core_id = 0;
  use_core_cnt = 0;
}

abbrev with_pool : ThreadPoolMgr
with_pool = record no_pools { worker_thrd_pool = some two_loops; worker_thrd_cnt = 2 }

init_run : init_worker_thrds fresh_addr 0 2 0 0 no_pools ≡ (true, with_pool)
unfolding init_worker_thrds init add_workers add_worker set_up insert_worker get_new_core new_worker
init_run = refl

abbrev one_task : ThreadPool
one_task = record two_loops { tasks = 7 ∷ [] }

first_turn : execute 101 0 (some 7) two_loops ≡ (true, one_task)
unfolding execute wants_worker is_all_worker_busy new_worker
first_turn = refl

abbrev two_tasks : ThreadPool
two_tasks = record two_loops { workers = worker ∷ new_worker 101 0 ∷ []; tasks = 7 ∷ 8 ∷ [] }

second_turn : execute 101 0 (some 8) one_task ≡ (true, two_tasks)
unfolding execute wants_worker is_all_worker_busy add_worker insert_worker get_new_core new_worker
second_turn = refl

both_begun :
    Reach 2 (record { pool = two_loops; index = 0 }) (record { pool = two_tasks; index = 2 })
unfolding new_worker
both_begun =
    Reach.next
      (Reach.next Reach.here (
        Step.submit 101 0 7 true one_task (omega arith) ((λ e. ground (arith, e)), tt)
          (inl refl, tt) first_turn))
      (Step.submit 101 0 8 true two_tasks (omega arith) ((λ e. ground (arith, e)), tt)
        (inl refl, tt) second_turn)

Reach-HasWorkers_example :
    length two_tasks.tasks + length (in_hand two_tasks.workers) ≤ length two_tasks.workers
Reach-HasWorkers_example =
    Reach-HasWorkers fresh_addr 0 2 0 0 no_pools with_pool two_loops
      {s = record { pool = two_tasks; index = 2 }} init_run refl both_begun

-- The first worker has taken the first loop, and is about to set m_isBusy: the second loop gets no worker.
abbrev taken : ThreadPool
taken = record two_loops {
  workers = record worker { status = worker_started; is_entered = true; task = some 7 } ∷ [];
}

starved_run : execute 101 0 (some 8) taken ≡ (true, record taken { tasks = 8 ∷ [] })
unfolding execute wants_worker is_all_worker_busy new_worker
starved_run = refl

-- An epoll_create() that counts from 4, and has only so many descriptors.
abbrev create : ℕ → ℕ → Option ℕ × ℕ
create zero e = (none, e)
create (suc most) e = (if ltb e (suc most) then some (e + 4) else none, e + 1)

init_event_fds-wait_stop_example :
    let out = init_event_fds (create 9) 3 (replicate 4 none) 0 in
    ((out ≡ aborts) × (k : ℕ) × (k ≤ loops 3) × (k ≤ 4) × (given (create 9) k 0 ≡ none))
    ⊎ (((out ≡ overruns)
          × (4 < loops 3)
          × (fds : List ℕ) × (e' : ℕ) × (given (create 9) 4 0 ≡ some (fds, e')))
        ⊎ ((loops 3 ≤ 4)
            × (fds : List ℕ) × (e' : ℕ) × (given (create 9) (loops 3) 0 ≡ some (fds, e'))
            × (epfds : List (Option ℕ)) × (out ≡ opens epfds e')
            × (wait_stop (2 ∷ 1 ∷ 0 ∷ []) epfds ≡ some (fds, replicate 4 none))))
init_event_fds-wait_stop_example = init_event_fds-wait_stop (create 9) 3 4 0 (2 ∷ 1 ∷ []) []

-- Three calls of it, and the loop over them.
given_run : given (create 9) 3 0 ≡ some (4 ∷ 5 ∷ 6 ∷ [], 3)
given_run = refl

open_run :
    init_event_fds (create 9) 3 (replicate 4 none) 0
    ≡ opens (some 4 ∷ some 5 ∷ some 6 ∷ none ∷ []) 3
unfolding init_event_fds open_from after_create
open_run = refl

-- The third call fails, and the assert(0) aborts.
abort_run : init_event_fds (create 2) 3 (replicate 4 none) 0 ≡ aborts
unfolding init_event_fds open_from after_create
abort_run = refl

-- 33 worker threads and the 32 places of m_epfd.
crowded_run : init_event_fds (λ e. (some e, e + 1)) 33 (replicate 32 none) 0 ≡ overruns
unfolding init_event_fds open_from after_create
crowded_run = refl
