-- ===== src/ThreadPool/Progress.antt =====
-- A worker of netpool/src/CThreadPool.cpp that is in its loop runs the tasks of the queue.
use netpool.Base.{
  ℕ, zero, suc, ◌+◌, ◌*◌, ◌≡◌, refl, sym, ap, subst, subst₂, ◌∙◌, true, false, none, List, [], ◌∷◌,
  ◌++◌, arith, length,
}
use netpool.ThreadPool.{
  worker_started, Worker, ThreadPool, run_step, in_round, loop_head, start_round, end_round,
  get_one_task, pop_task,
}
use netpool.ThreadPool.Tasks.{ran_of}

-- The worker's thread is in the loop of `Run`, with no task in hand, and has not been told to exit.
pub record IsReady (w : Worker) : Type 0 where
  pub entered : w.is_entered ≡ true
  pub not_ended : w.is_ended ≡ false
  pub started : w.status ≡ worker_started
  pub free : w.task ≡ none
  pub idle : w.is_busy ≡ false

-- So many steps of a worker alone: the tasks that it runs, in order.
pub run_steps : ℕ → (now : ℕ) → ThreadPool → Worker → Worker × ThreadPool × List ℕ
run_steps zero now p w = (w, p, [])
run_steps (suc n) now p w =
    let (w', p', ev) = run_step now p w in
    let (w'', p'', tasks) = run_steps n now p' w' in (w'', p'', ran_of ev ++ tasks)

-- A worker that is ready, with the number of tasks that it has run, and the pool with a queue of tasks.
abbrev ready_worker : Worker → (run_cnt update_time : ℕ) → Worker
ready_worker w run_cnt update_time = record w {
  is_entered = true;
  is_ended = false;
  status = worker_started;
  task = none;
  is_busy = false;
  run_cnt = run_cnt;
  update_time = update_time;
}

abbrev with_tasks : ThreadPool → List ℕ → ThreadPool
with_tasks p ts = record p { tasks = ts; quick_free = false }

steps_all :
    (now : ℕ) (p : ThreadPool) (w : Worker) (ts : List ℕ) (cnt time : ℕ)
    → (last : ℕ) × (run_steps (length ts * 3) now (with_tasks p ts) (ready_worker w cnt time)
        ≡ (ready_worker w (cnt + length ts) last, with_tasks p [], ts))
unfolding run_steps run_step in_round loop_head start_round end_round get_one_task pop_task
steps_all now p w [] cnt time =
    let same : cnt + 0 ≡ cnt = omega arith in
    (time, ap (λ k. (ready_worker w k time, with_tasks p [], [])) (sym same))
steps_all now p w (t ∷ ts) cnt time =
    let (last, rest) = steps_all now p w ts (cnt + 1) now in
    let same : cnt + suc (length ts) ≡ cnt + 1 + length ts = omega arith in
    let three : suc (length ts) * 3 ≡ suc (suc (suc (length ts * 3))) = omega arith in
    (
      last,
      ap (λ k. run_steps k now (with_tasks p (t ∷ ts)) (ready_worker w cnt time)) three
          ∙ ap (λ (r : Worker × ThreadPool × List ℕ). (r.0, r.1, t ∷ r.2)) rest
          ∙ ap (λ k. (ready_worker w k last, with_tasks p [], t ∷ ts)) (sym same),
    )

-- What the steps have done: the queue is empty, its tasks have been run, and the worker is ready again.
abbrev pub AllRun : ThreadPool → Worker → Worker × ThreadPool × List ℕ → Type 0
AllRun p w (w', p', tasks) =
    (tasks ≡ p.tasks) × (p'.tasks ≡ []) × IsReady w' × (w'.run_cnt ≡ w.run_cnt + length p.tasks)

-- A worker whose thread is in its loop with no task in hand, and which has not been told to exit, runs all
-- tasks of the queue, in order and each once, in three steps for each task, if the pool is not to be
-- freed quickly and no other thread takes a step. After them the queue is empty and the worker is as ready
-- as before.
pub run_steps-AllRun :
    (now : ℕ) (p : ThreadPool) (w : Worker)
    → IsReady w
    → p.quick_free ≡ false
    → AllRun p w (run_steps (length p.tasks * 3) now p w)
run_steps-AllRun now p w ready keep =
    let as_ready : ready_worker w w.run_cnt w.update_time ≡ w = λ i. record w {
      is_entered = sym ready.entered i;
      is_ended = sym ready.not_ended i;
      status = sym ready.started i;
      task = sym ready.free i;
      is_busy = sym ready.idle i;
    } in
    let as_pool : with_tasks p p.tasks ≡ p = λ i. record p { quick_free = sym keep i } in
    let (last, run) = steps_all now p w p.tasks w.run_cnt w.update_time in
    let steps : run_steps (length p.tasks * 3) now p w
        ≡ (ready_worker w (w.run_cnt + length p.tasks) last, with_tasks p [], p.tasks) =
      subst₂
        (λ q v.
          run_steps (length p.tasks * 3) now q v
          ≡ (ready_worker w (w.run_cnt + length p.tasks) last, with_tasks p [], p.tasks))
        as_pool as_ready run in
    subst (AllRun p w) (sym steps) (
      refl,
      refl,
      record { entered = refl; not_ended = refl; started = refl; free = refl; idle = refl },
      refl,
    )
