-- ===== src/ThreadPool/Ended.antt =====
-- The workers of netpool/src/CThreadPool.cpp whose thread has ended: they have no task in hand, so that none
-- is lost when they are joined and deleted.
use netpool.Base.{
  ℕ, ◌≡◌, refl, sym, ◌∙◌, subst, Bool, true, false, not, Option, none, some, List, [], ◌∷◌, ◌++◌,
  arith, All, All-append, All-split, ltb, ◌==◌, if_cases,
}
use netpool.ThreadPool.{
  Status, worker_init, worker_started, worker_stopping, worker_stopped, Worker, ThreadPool,
  new_worker, insert_worker, add_worker, add_workers, set_up, take_addrs, init, execute, pop_task,
  get_one_task, Event, wants_worker, start_round, end_round, loop_head, in_round, run_step,
  tell_exit, terminate_begin,
}
use netpool.ThreadPool.Spawn.{workers-add_worker}
use netpool.ThreadPool.Hands.{add_worker_hands, run_step-Carries}
use netpool.ThreadPool.Tasks.{in_hand, System, Step, submit, member, leaver, erase, join, terminate}

-- If the thread of the worker has ended, the worker has no task in hand.
abbrev pub EndsIdle : Worker → Type 0
EndsIdle w = w.is_ended ≡ true → w.task ≡ none

start_round-EndsIdle :
    (p : ThreadPool) (w : Worker) (o : Option ℕ)
    → w.is_ended ≡ false
    → EndsIdle (start_round w (o, p)).0
unfolding start_round
start_round-EndsIdle p w none live h = absurd (ground (arith, live, h))
start_round-EndsIdle p w (some t) live h = absurd (ground (arith, live, h))

loop_head-EndsIdle :
    (p : ThreadPool) (w : Worker) (status : Status)
    → w.is_ended ≡ false
    → w.task ≡ none
    → EndsIdle (loop_head p w status).0
unfolding loop_head get_one_task
loop_head-EndsIdle p w worker_started live idle h =
    start_round-EndsIdle (record p { tasks = (pop_task p.tasks).1 }) w (pop_task p.tasks).0 live h
loop_head-EndsIdle p w worker_init live idle h = idle
loop_head-EndsIdle p w worker_stopping live idle h = idle
loop_head-EndsIdle p w worker_stopped live idle h = idle

in_round-EndsIdle :
    (now : ℕ) (p : ThreadPool) (w : Worker) (held : Option ℕ)
    → w.is_ended ≡ false
    → w.task ≡ held
    → EndsIdle (in_round now p w held).0
unfolding in_round end_round
in_round-EndsIdle now p w none live e = loop_head-EndsIdle p w w.status live e
in_round-EndsIdle now p w (some t) live e =
    if_cases (λ (r : Worker × ThreadPool × Event). EndsIdle r.0) w.is_busy (λ busy h. refl)
      (λ free h. absurd (ground (arith, live, h)))

pub run_step-EndsIdle :
    (now : ℕ) (p : ThreadPool) (w : Worker) → EndsIdle w → EndsIdle (run_step now p w).0
unfolding run_step
run_step-EndsIdle now p w idle =
    if_cases (λ (r : Worker × ThreadPool × Event). EndsIdle r.0) w.is_ended (λ _. idle)
      (λ live.
        if_cases (λ (r : Worker × ThreadPool × Event). EndsIdle r.0) w.is_entered
          (λ _. in_round-EndsIdle now p w w.task live refl)
          (λ _ h. absurd (ground (arith, live, h))))

insert_worker-All :
    (P : Worker → Type 0) (w : Worker) (ws : List Worker)
    → P w
    → All P ws
    → All P (insert_worker w ws)
unfolding insert_worker
insert_worker-All P w [] h all = (h, tt)
insert_worker-All P w (v ∷ vs) h all =
    if_cases (All P) (ltb w.addr v.addr) (λ _. (h, all))
      (λ _.
        if_cases (All P) (w.addr == v.addr) (λ _. all)
          (λ _. (all.0, insert_worker-All P w vs h all.1)))

new_worker-EndsIdle : (addr now : ℕ) → EndsIdle (new_worker addr now)
unfolding new_worker
new_worker-EndsIdle addr now h = refl

add_worker-EndsIdle :
    (addr now : ℕ) (p : ThreadPool)
    → All EndsIdle p.workers
    → All EndsIdle (add_worker addr now p).workers
add_worker-EndsIdle addr now p all =
    subst (All EndsIdle) (sym (workers-add_worker addr now p))
      (insert_worker-All EndsIdle _ p.workers (new_worker-EndsIdle addr now) all)

pub execute-EndsIdle :
    (addr now t : ℕ) (p : ThreadPool)
    → All EndsIdle p.workers
    → All EndsIdle (execute addr now (some t) p).1.workers
unfolding execute
execute-EndsIdle addr now t p all =
    if_cases (λ (r : Bool × ThreadPool). All EndsIdle r.1.workers) (not p.enable_insert_task)
      (λ _. all)
      (λ _.
        if_cases (λ (q : ThreadPool). All EndsIdle q.workers) (wants_worker p)
          (λ _. add_worker-EndsIdle addr now p all) (λ _. all))

-- What a pool is like after its start: no task waits or is in hand, and no worker has ended with one.
pub record IsFresh (p : ThreadPool) : Type 0 where
  pub tasks : p.tasks ≡ []
  pub hands : in_hand p.workers ≡ []
  pub ends : All EndsIdle p.workers

add_workers-IsFresh :
    (addrs : List ℕ) (now : ℕ) (p : ThreadPool) → IsFresh p → IsFresh (add_workers addrs now p)
unfolding add_workers
add_workers-IsFresh [] now p h = h
add_workers-IsFresh (addr ∷ addrs) now p h =
    let (hands, tasks) = add_worker_hands addr now p in
    add_workers-IsFresh addrs now (add_worker addr now p) (record {
      tasks = tasks ∙ h.tasks;
      hands = hands ∙ h.hands;
      ends = add_worker-EndsIdle addr now p h.ends;
    })

set_up-IsFresh : (least most core cnt : ℕ) → IsFresh (set_up least most core cnt)
unfolding set_up
set_up-IsFresh least most core cnt = record { tasks = refl; hands = refl; ends = tt }

pub init-IsFresh :
    (fresh : ℕ → ℕ) (now least most core cnt : ℕ) {p : ThreadPool}
    → init fresh now least most core cnt ≡ some p
    → IsFresh p
unfolding init
init-IsFresh fresh now least most core cnt {p} run =
    let made = add_workers (take_addrs fresh 0 least) now (set_up least most core cnt) in
    if_cases (λ o. o ≡ some p → IsFresh p) (least == 0) (λ _ e. absurd (ground (arith, e)))
      (λ _.
        if_cases (λ o. o ≡ some p → IsFresh p) (ltb most least) (λ _ e. absurd (ground (arith, e)))
          (λ _ e.
            let same : made ≡ p = cc in
            subst IsFresh same (
              add_workers-IsFresh (take_addrs fresh 0 least) now _
                (set_up-IsFresh least most core cnt))))
      run

All-at :
    (P : Worker → Type 0) (before : List Worker) (w : Worker) (after : List Worker)
    {ws : List Worker}
    → ws ≡ before ++ w ∷ after
    → All P ws
    → All P before × P w × All P after
All-at P before w after at all =
    let (front, back) = All-split P before (w ∷ after) (subst (All P) at all) in
    (front, back.0, back.1)

-- No worker of the system has ended with a task in hand.
pub record AllEndIdle (s : System) : Type 0 where
  pub crew : All EndsIdle s.pool.workers
  pub leaving : All EndsIdle s.trash

pub Step-AllEndIdle : {s u : System} → Step s u → AllEndIdle s → AllEndIdle u
unfolding tell_exit terminate_begin
Step-AllEndIdle {s} (submit addr now t done p e) h = record {
  crew =
      subst (λ (r : Bool × ThreadPool). All EndsIdle r.1.workers) e
        (execute-EndsIdle addr now t s.pool h.crew);
  leaving = h.leaving;
}
Step-AllEndIdle {s} (member now before w after w' p ev at e) h =
    let (front, here, back) = All-at EndsIdle before w after at h.crew in
    let idle =
      subst (λ (r : Worker × ThreadPool × Event). EndsIdle r.0) e
        (run_step-EndsIdle now s.pool w here) in
    record {
      crew = All-append EndsIdle before (w' ∷ after) front (idle, back);
      leaving = h.leaving;
    }
Step-AllEndIdle {s} (leaver now before w after w' p ev at e) h =
    let (front, here, back) = All-at EndsIdle before w after at h.leaving in
    let idle =
      subst (λ (r : Worker × ThreadPool × Event). EndsIdle r.0) e
        (run_step-EndsIdle now s.pool w here) in
    let same : p.workers ≡ s.pool.workers =
      subst (λ (r : Worker × ThreadPool × Event). r.1.workers ≡ s.pool.workers) e
        (run_step-Carries now s.pool w).crew in
    record {
      crew = subst (All EndsIdle) (sym same) h.crew;
      leaving = All-append EndsIdle before (w' ∷ after) front (idle, back);
    }
Step-AllEndIdle (erase before w after at) h =
    let (front, here, back) = All-at EndsIdle before w after at h.crew in
    record { crew = All-append EndsIdle before after front back; leaving = (here, h.leaving) }
Step-AllEndIdle (join before w after at ended) h =
    let (front, _, back) = All-at EndsIdle before w after at h.leaving in
    record { crew = h.crew; leaving = All-append EndsIdle before after front back }
Step-AllEndIdle (terminate quick) h = record { crew = h.crew; leaving = h.leaving }

-- A worker in the trash whose thread has ended has no task in hand.
pub AllEndIdle-none :
    (s : System) (before : List Worker) (w : Worker) (after : List Worker)
    → AllEndIdle s
    → s.trash ≡ before ++ w ∷ after
    → w.is_ended ≡ true
    → w.task ≡ none
AllEndIdle-none s before w after h at ended =
    let (_, here, _) = All-at EndsIdle before w after at h.leaving in here ended
