-- ===== src/ThreadPool/Tests.antt =====
-- Runs of the thread pool of netpool/src/CThreadPool.cpp.
use netpool.Base.{
  ℕ, suc, ◌+◌, ◌≤◌, ◌<◌, ◌≡◌, refl, ◌⊎◌, true, false, none, some, [], ◌∷◌, ◌++◌, arith, min, length,
  count,
}
use netpool.ThreadPool.{
  worker_init, worker_stopping, worker_started, Worker, ThreadPool, new_worker, insert_worker,
  get_new_core, add_worker, add_workers, init, set_up, is_all_worker_busy, wants_worker, execute,
  pop_task, get_one_task, silent, took, ran, end_round, tell_exit, start_round, loop_head, in_round,
  run_step, aged, age_loop, aged_worker,
}
use netpool.ThreadPool.Aging.{recent_workers, aged_worker-keeps}
use netpool.ThreadPool.Spawn.{Fresh, Supplies, Needs, NeedsNone, execute-spawns}
use netpool.ThreadPool.Progress.{IsReady, AllRun, run_steps, run_steps-AllRun}
use netpool.ThreadPool.Tasks.{
  System, submit, member, leaver, erase, join, Reach, here, next, in_hand,
}
use netpool.ThreadPool.Once.{start_system, Reach-once}

-- A worker that has done two tasks, the last at 50, and one that is at work.
abbrev idle_worker : Worker
idle_worker = record {
  addr = 3;
  is_busy = false;
  run_cnt = 2;
  update_time = 50;
  status = worker_started;
  is_entered = true;
  is_ended = false;
  task = none;
}

abbrev busy_worker : Worker
busy_worker = record {
  addr = 8;
  is_busy = true;
  run_cnt = 0;
  update_time = 40;
  status = worker_started;
  is_entered = true;
  is_ended = false;
  task = some 70;
}

abbrev two_workers : ThreadPool
two_workers = record {
  workers = idle_worker ∷ busy_worker ∷ [];
  tasks = 71 ∷ [];
  is_run = true;
  enable_insert_task = true;
  quick_free = false;
  min_threads = 1;
  max_threads = 4;
  max_pending_tasks = 0;
  cur_core_id = 2;
  start_core_id = 2;
  use_core_cnt = 3;
}

aged_run : (aged_worker 60 two_workers).workers ≡ busy_worker ∷ []
unfolding aged_worker age_loop aged
aged_run = refl

-- The task at the end of the queue makes `Execute` start a worker, which stands by its address.
execute_run :
    (execute 5 90 (some 72) two_workers).1.workers
    ≡ idle_worker ∷ new_worker 5 90 ∷ busy_worker ∷ []
unfolding execute wants_worker is_all_worker_busy add_worker insert_worker get_new_core new_worker
execute_run = refl

Fresh-five : Fresh 5 two_workers.workers
Fresh-five = (λ e. omega arith, (λ e. omega arith, tt))

execute-spawns_example :
    let (done, q) = execute 5 90 (some 72) two_workers in
    ((two_workers.enable_insert_task ≡ false)
      × (done ≡ false)
      × (q.tasks ≡ two_workers.tasks)
      × (length q.workers ≡ length two_workers.workers))
    ⊎ ((two_workers.enable_insert_task ≡ true)
        × (done ≡ true)
        × (q.tasks ≡ two_workers.tasks ++ 72 ∷ [])
        × ((Needs two_workers × (length q.workers ≡ suc (length two_workers.workers)))
            ⊎ (NeedsNone two_workers × (length q.workers ≡ length two_workers.workers))))
execute-spawns_example = execute-spawns 5 90 72 two_workers Fresh-five

aged_worker-keeps_example :
    let q = aged_worker 60 two_workers in
    (min two_workers.min_threads (length two_workers.workers) ≤ length q.workers)
    × ((two_workers.min_threads < length two_workers.workers) ⊎ (q.workers ≡ two_workers.workers))
    × (recent_workers 60 q.workers ≡ recent_workers 60 two_workers.workers)
    × ((length q.workers ≤ two_workers.min_threads) ⊎ (recent_workers 60 q.workers ≡ q.workers))
aged_worker-keeps_example = aged_worker-keeps 60 two_workers

abbrev new_addr : ℕ → ℕ
new_addr i = i + 100

Supplies-new_addr : Supplies new_addr
Supplies-new_addr = λ i j h e. omega arith

abbrev two : ℕ
two = 2

-- A pool as `Init` makes it, with a worker at 100, has accepted the task 71; its worker enters its
-- loop, takes the task, runs it, is told to exit, ends and is joined.
abbrev entered_worker : Worker
entered_worker = record {
  addr = 100;
  is_busy = false;
  run_cnt = 0;
  update_time = 90;
  status = worker_started;
  is_entered = true;
  is_ended = false;
  task = none;
}

abbrev starting_worker : Worker
starting_worker = record entered_worker { status = worker_init; is_entered = false }

abbrev made : ThreadPool
made = record {
  workers = starting_worker ∷ [];
  tasks = [];
  is_run = true;
  enable_insert_task = true;
  quick_free = false;
  min_threads = 1;
  max_threads = 1;
  max_pending_tasks = 0;
  cur_core_id = 1;
  start_core_id = 0;
  use_core_cnt = 8;
}

abbrev submitted : ThreadPool
submitted = record made { tasks = 71 ∷ [] }

abbrev entered : ThreadPool
entered = record submitted { workers = entered_worker ∷ [] }

abbrev taking_worker : Worker
taking_worker = record entered_worker { task = some 71 }

abbrev busy_now : Worker
busy_now = record taking_worker { is_busy = true }

abbrev done_worker : Worker
done_worker = record entered_worker { run_cnt = 1; update_time = 94 }

abbrev leaving_worker : Worker
leaving_worker = record done_worker { status = worker_stopping }

abbrev no_crew : ThreadPool
no_crew = record made { workers = [] }

abbrev joined_system : System
joined_system = record {
  pool = no_crew;
  trash = [];
  accepted = 71 ∷ [];
  taken = 71 ∷ [];
  run = 71 ∷ [];
  unrun = [];
}

init_run : init new_addr 90 1 1 0 8 ≡ some made
unfolding init set_up add_workers add_worker insert_worker get_new_core new_worker
init_run = refl

submit_run : execute 7 90 (some 71) made ≡ (true, submitted)
unfolding execute wants_worker is_all_worker_busy
submit_run = refl

enter_run : run_step 91 submitted starting_worker ≡ (entered_worker, submitted, silent)
unfolding run_step
enter_run = refl

take_run :
    run_step 92 entered entered_worker ≡ (taking_worker, record entered { tasks = [] }, took 71)
unfolding run_step in_round loop_head start_round get_one_task pop_task
take_run = refl

abbrev at_work : Worker → ThreadPool
at_work w = record made { workers = w ∷ [] }

busy_run :
    run_step 93 (at_work taking_worker) taking_worker ≡ (busy_now, at_work taking_worker, silent)
unfolding run_step in_round
busy_run = refl

finish_run : run_step 94 (at_work busy_now) busy_now ≡ (done_worker, at_work busy_now, ran 71)
unfolding run_step in_round end_round
finish_run = refl

end_run :
    run_step 95 no_crew leaving_worker
    ≡ (record leaving_worker { is_ended = true }, no_crew, silent)
unfolding run_step in_round loop_head
end_run = refl

Reach-joined : Reach (start_system made) joined_system
unfolding tell_exit
Reach-joined =
    let accepted = next here (submit 7 90 71 true submitted submit_run) in
    let entering =
      next accepted
        (member 91 [] starting_worker [] entered_worker submitted silent refl enter_run) in
    let taking =
      next entering (member 92 [] entered_worker [] taking_worker _ (took 71) refl take_run) in
    let working =
      next taking
        (member 93 [] taking_worker [] busy_now (at_work taking_worker) silent refl busy_run) in
    let idle =
      next working
        (member 94 [] busy_now [] done_worker (at_work busy_now) (ran 71) refl finish_run) in
    let told = next idle (erase [] done_worker [] refl) in
    let ended = next told (leaver 95 [] leaving_worker [] _ no_crew silent refl end_run) in
    next ended (join [] (record leaving_worker { is_ended = true }) [] refl refl)

Reach-once_example :
    (joined_system.taken ++ joined_system.pool.tasks ≡ joined_system.accepted)
    × ((a : ℕ)
        → count a joined_system.taken
          ≡ count a joined_system.run
            + count a joined_system.unrun
            + count a (in_hand joined_system.pool.workers)
            + count a (in_hand joined_system.trash))
Reach-once_example = Reach-once new_addr 90 1 1 0 8 init_run Reach-joined

-- Three tasks for one worker.
abbrev loaded : ThreadPool
loaded = record submitted { workers = entered_worker ∷ []; tasks = 71 ∷ 72 ∷ 71 ∷ [] }

entered_worker-IsReady : IsReady entered_worker
entered_worker-IsReady = record {
  entered = refl;
  not_ended = refl;
  started = refl;
  free = refl;
  idle = refl;
}

run_steps-AllRun_example : AllRun loaded entered_worker (run_steps 9 93 loaded entered_worker)
run_steps-AllRun_example = run_steps-AllRun 93 loaded entered_worker entered_worker-IsReady refl
