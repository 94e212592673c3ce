-- ===== src/ThreadPool.antt =====
-- The thread pool of netpool/src/CThreadPool.cpp. Pointers are numbers; a std::set of workers is a list
-- in the order of their addresses. Times and counters are not bounded, core numbers are uint32.
pub mod Cores
pub mod Aging
pub mod Spawn
pub mod Tasks
pub mod Progress
pub mod Hands
pub mod Ended
pub mod Once
pub mod Moves
mod Tests
use netpool.Base.{
  ℕ, zero, suc, ◌+◌, ◌-◌, ◌%◌, ◌^◌, Bool, true, false, not, ◌&&◌, ◌||◌, Option, none, some, List,
  [], ◌∷◌, ◌++◌, ltb, leb, ◌==◌, if◌then◌else◌, length, map,
}

-- m_workerStatus.
pub data Status : Type 0 where
  worker_init worker_started worker_stopping worker_stopped : Status

-- `CWorker`; `task` is the local pTask of its Run(), and the last two fields say how far its thread is:
-- whether it has set the status to WORKER_STARTED, and whether it has left the loop.
pub record Worker : Type 0 where
  pub addr : ℕ
  pub is_busy : Bool
  pub run_cnt : ℕ
  pub update_time : ℕ
  pub status : Status
  pub is_entered : Bool
  pub is_ended : Bool
  pub task : Option ℕ

pub record ThreadPool : Type 0 where
  pub workers : List Worker
  pub tasks : List ℕ
  pub is_run : Bool
  pub enable_insert_task : Bool
  pub quick_free : Bool
  pub min_threads : ℕ
  pub max_threads : ℕ
  pub max_pending_tasks : ℕ
  pub cur_core_id : ℕ
  pub start_core_id : ℕ
  pub use_core_cnt : ℕ

-- NO_SPEC_CORE.
abbrev pub no_spec_core : ℕ
no_spec_core = 0xffff

-- The constructor of CWorker, at a time.
unfoldable pub new_worker : (addr now : ℕ) → Worker
new_worker addr now = record {
  addr = addr;
  is_busy = false;
  run_cnt = 0;
  update_time = now;
  status = worker_init;
  is_entered = false;
  is_ended = false;
  task = none;
}

-- `m_ThreadPool.insert(pWorker)`.
unfoldable pub insert_worker : Worker → List Worker → List Worker
insert_worker w [] = w ∷ []
insert_worker w (v ∷ vs) =
    if ltb w.addr v.addr
    then w ∷ v ∷ vs
    else if w.addr == v.addr
    then v ∷ vs
    else v ∷ insert_worker w vs

-- `get_new_core`, in unsigned arithmetic.
unfoldable pub get_new_core : ThreadPool → ℕ × ThreadPool
get_new_core p =
    let since = (p.cur_core_id + 2 ^ 32 - p.start_core_id) % 2 ^ 32 in
    let core = (p.start_core_id + since % p.use_core_cnt) % 2 ^ 32 in
    if p.use_core_cnt == 0
    then (no_spec_core, p)
    else (core, record p { cur_core_id = (core + 1) % 2 ^ 32 })

-- A new worker, at the address that `new` returns, is inserted and is given a core. The thread that
-- Start() creates shows in the steps of the worker.
unfoldable pub add_worker : (addr now : ℕ) → ThreadPool → ThreadPool
add_worker addr now p =
    (get_new_core (record p { workers = insert_worker (new_worker addr now) p.workers })).1

-- The loop of `Init`, with the addresses that `new` returns.
unfoldable pub add_workers : List ℕ → (now : ℕ) → ThreadPool → ThreadPool
add_workers [] now p = p
add_workers (addr ∷ addrs) now p = add_workers addrs now (add_worker addr now p)

-- The constructor of CThreadPool, and what Init() sets before its loop.
unfoldable pub set_up : (min_threads max_threads start_core core_cnt : ℕ) → ThreadPool
set_up min_threads max_threads start_core core_cnt = record {
  workers = [];
  tasks = [];
  is_run = true;
  enable_insert_task = true;
  quick_free = false;
  min_threads = min_threads;
  max_threads = max_threads;
  max_pending_tasks = 0;
  cur_core_id = start_core;
  start_core_id = start_core;
  use_core_cnt = core_cnt;
}

abbrev take_addrs : (ℕ → ℕ) → ℕ → ℕ → List ℕ
take_addrs fresh i zero = []
take_addrs fresh i (suc n) = fresh i ∷ take_addrs fresh (i + 1) n

-- `Init` on a new pool; `fresh i` is what the i-th `new` returns. `none` is the result false.
unfoldable pub init :
    (fresh : ℕ → ℕ) (now min_threads max_threads start_core core_cnt : ℕ) → Option ThreadPool
init fresh now min_threads max_threads start_core core_cnt =
    if min_threads == 0
    then none
    else if ltb max_threads min_threads
    then none
    else some (
        add_workers (take_addrs fresh 0 min_threads) now
          (set_up min_threads max_threads start_core core_cnt))

-- `IsAllWorkerBusy`.
unfoldable pub is_all_worker_busy : List Worker → Bool
is_all_worker_busy [] = true
is_all_worker_busy (w ∷ ws) = if not w.is_busy then false else is_all_worker_busy ws

-- The two tests of `Execute` under which it starts a worker.
unfoldable pub wants_worker : ThreadPool → Bool
wants_worker p =
    (is_all_worker_busy p.workers || ltb 0 (length p.tasks)) && ltb (length p.workers) p.max_threads

-- `Execute`, with the address of a new worker; the task is NULL or an address.
unfoldable pub execute : (addr now : ℕ) → Option ℕ → ThreadPool → Bool × ThreadPool
execute addr now none p = (false, p)
execute addr now (some runnable) p =
    let q = if wants_worker p then add_worker addr now p else p in
    if not p.enable_insert_task
    then (false, p)
    else (true, record q { tasks = q.tasks ++ runnable ∷ [] })

-- `GetOneTask`.
pub pop_task : List ℕ → Option ℕ × List ℕ
pop_task [] = (none, [])
pop_task (t ∷ ts) = (some t, ts)

pub get_one_task : ThreadPool → Option ℕ × ThreadPool
get_one_task p = ((pop_task p.tasks).0, record p { tasks = (pop_task p.tasks).1 })

-- What a step of a worker's thread does with a task.
pub data Event : Type 0 where
  silent : Event
  took ran dropped : ℕ → Event

-- A round that finds no task waits; one that finds one has it in hand.
pub start_round : Worker → Option ℕ × ThreadPool → Worker × ThreadPool × Event
start_round w (none, p) = (w, p, silent)
start_round w (some t, p) = (record w { task = some t }, p, took t)

-- The end of a round: the task is run unless m_bQuickFree is set, and deleted.
pub end_round : (now : ℕ) → ThreadPool → Worker → (t : ℕ) → Worker × ThreadPool × Event
end_round now p w t = (
  record w { task = none; run_cnt = w.run_cnt + 1; update_time = now; is_busy = false },
  p,
  if p.quick_free then dropped t else ran t,
)

-- At the head of the loop: the status decides whether the thread leaves it.
pub loop_head : ThreadPool → Worker → Status → Worker × ThreadPool × Event
loop_head p w worker_started = start_round w (get_one_task p)
loop_head p w _ = (record w { is_ended = true }, p, silent)

-- With a task in hand: m_isBusy is set, and then the round ends.
pub in_round : (now : ℕ) → ThreadPool → Worker → Option ℕ → Worker × ThreadPool × Event
in_round now p w none = loop_head p w w.status
in_round now p w (some t) =
    if w.is_busy then end_round now p w t else (record w { is_busy = true }, p, silent)

-- The next step of `CWorker::Run`.
pub run_step : (now : ℕ) → ThreadPool → Worker → Worker × ThreadPool × Event
run_step now p w =
    if w.is_ended
    then (w, p, silent)
    else if w.is_entered
    then in_round now p w w.task
    else (record w { status = worker_started; is_entered = true }, p, silent)

-- `CWorker::TellExit`.
pub tell_exit : Worker → Worker
tell_exit w = record w { status = worker_stopping }

-- `CWorker::Aged`: idle, and last used at `agetime` or before.
pub aged : (agetime : ℕ) → Worker → Bool
aged agetime w = not w.is_busy && leb w.update_time agetime

-- The loop of `aged_worker`, with the size of the set: the workers that stay.
pub age_loop : (agetime min_threads size : ℕ) → List Worker → List Worker
age_loop agetime min_threads size [] = []
age_loop agetime min_threads size (w ∷ ws) =
    let rest = age_loop agetime min_threads (size - 1) ws in
    let others = age_loop agetime min_threads size ws in
    if leb size min_threads then w ∷ ws else if aged agetime w then rest else w ∷ others

-- `aged_worker`; the workers that do not stay are told to exit, joined and deleted.
pub aged_worker : (agetime : ℕ) → ThreadPool → ThreadPool
aged_worker agetime p = record p {
  workers = age_loop agetime p.min_threads (length p.workers) p.workers;
}

-- `Terminate` up to its waiting loop, and after it: every worker is told to exit, joined and deleted.
pub terminate_begin : (quick : Bool) → ThreadPool → ThreadPool
terminate_begin quick p = record p { quick_free = quick; enable_insert_task = false }

pub terminate_end : ThreadPool → ThreadPool
terminate_end p = record p {
  is_run = false;
  min_threads = 0;
  max_threads = 0;
  max_pending_tasks = 0;
  workers = [];
}
