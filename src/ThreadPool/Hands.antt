-- ===== src/ThreadPool/Hands.antt =====
-- What single calls of netpool/src/CThreadPool.cpp do to the tasks in the queue and in the hands of workers.
use netpool.Base.{
  ℕ, ◌+◌, ◌≡◌, refl, sym, ap, inl, inr, Bool, not, Option, none, some, List, [], ◌∷◌, ◌++◌, arith,
  ltb, ◌==◌, if◌then◌else◌, count, count-append, if_cases, Bool-cases,
}
use netpool.ThreadPool.{
  Status, worker_init, worker_started, worker_stopping, worker_stopped, Worker, ThreadPool,
  new_worker, insert_worker, get_new_core, add_worker, execute, pop_task, get_one_task, Event,
  start_round, end_round, loop_head, in_round, run_step,
}
use netpool.ThreadPool.Tasks.{took_of, ran_of, dropped_of, hand, in_hand}

pub count-in_hand :
    (a : ℕ) (before after : List Worker)
    → count a (in_hand (before ++ after)) ≡ count a (in_hand before) + count a (in_hand after)
count-in_hand a [] after = omega arith
count-in_hand a (w ∷ before) after = omega (
  arith,
  count-in_hand a before after,
  count-append a (hand w.task) (in_hand before),
  count-append a (hand w.task) (in_hand (before ++ after)),
)

pub count-in_hand_at :
    (a : ℕ) (before : List Worker) (w : Worker) (after : List Worker)
    → count a (in_hand (before ++ w ∷ after))
      ≡ count a (hand w.task) + count a (in_hand (before ++ after))
count-in_hand_at a before w after = omega (
  arith,
  count-in_hand a before (w ∷ after),
  count-in_hand a before after,
  count-append a (hand w.task) (in_hand after),
)

-- What a step of a thread does to the tasks.
pub record Carries (p : ThreadPool) (w : Worker) (out : Worker × ThreadPool × Event) : Type 0 where
  pub queue : took_of out.2 ++ out.1.tasks ≡ p.tasks
  pub crew : out.1.workers ≡ p.workers
  pub kept :
      (a : ℕ)
      → count a (hand w.task) + count a (took_of out.2)
        ≡ count a (hand out.0.task) + count a (ran_of out.2) + count a (dropped_of out.2)

pub pop_round-Carries :
    (p : ThreadPool) (w : Worker) (ts : List ℕ)
    → p.tasks ≡ ts
    → w.task ≡ none
    → Carries p w (start_round w ((pop_task ts).0, record p { tasks = (pop_task ts).1 }))
unfolding start_round pop_task
pop_round-Carries p w [] e idle = record { queue = sym e; crew = refl; kept = λ a. omega arith }
pop_round-Carries p w (t ∷ ts) e idle = record {
  queue = sym e;
  crew = refl;
  kept = λ a. ground (arith, ap (λ o. count a (hand o)) idle);
}

pub loop_head-Carries :
    (p : ThreadPool) (w : Worker) (status : Status)
    → w.task ≡ none
    → Carries p w (loop_head p w status)
unfolding loop_head get_one_task
loop_head-Carries p w worker_started e = pop_round-Carries p w p.tasks refl e
loop_head-Carries p w worker_init e = record { queue = refl; crew = refl; kept = λ a. omega arith }
loop_head-Carries p w worker_stopping e = record {
  queue = refl;
  crew = refl;
  kept = λ a. omega arith;
}
loop_head-Carries p w worker_stopped e = record {
  queue = refl;
  crew = refl;
  kept = λ a. omega arith;
}

pub end_round-Carries :
    (now : ℕ) (p : ThreadPool) (w : Worker) (t : ℕ)
    → w.task ≡ some t
    → Carries p w (end_round now p w t)
unfolding end_round
end_round-Carries now p w t e = elim (Bool-cases p.quick_free) [
  | inl quick ↦ record {
    queue = ground arith;
    crew = refl;
    kept = λ a. ground (arith, ap (λ o. count a (hand o)) e);
  }
  | inr slow ↦ record {
    queue = ground arith;
    crew = refl;
    kept = λ a. ground (arith, ap (λ o. count a (hand o)) e);
  }
]

pub in_round-Carries :
    (now : ℕ) (p : ThreadPool) (w : Worker) (held : Option ℕ)
    → w.task ≡ held
    → Carries p w (in_round now p w held)
unfolding in_round
in_round-Carries now p w none e = loop_head-Carries p w w.status e
in_round-Carries now p w (some t) e =
    if_cases (Carries p w) w.is_busy (λ _. end_round-Carries now p w t e)
      (λ _. record { queue = refl; crew = refl; kept = λ a. omega arith })

pub run_step-Carries : (now : ℕ) (p : ThreadPool) (w : Worker) → Carries p w (run_step now p w)
unfolding run_step
run_step-Carries now p w =
    if_cases (Carries p w) w.is_ended
      (λ _. record { queue = refl; crew = refl; kept = λ a. omega arith })
      (λ _.
        if_cases (Carries p w) w.is_entered (λ _. in_round-Carries now p w w.task refl)
          (λ _. record { queue = refl; crew = refl; kept = λ a. omega arith }))

pub in_hand-insert_worker :
    (w : Worker) (ws : List Worker) → w.task ≡ none → in_hand (insert_worker w ws) ≡ in_hand ws
unfolding insert_worker
in_hand-insert_worker w [] e = cc
in_hand-insert_worker w (v ∷ vs) e =
    if_cases (λ ws. in_hand ws ≡ in_hand (v ∷ vs)) (ltb w.addr v.addr) (λ _. cc)
      (λ _.
        if_cases (λ ws. in_hand ws ≡ in_hand (v ∷ vs)) (w.addr == v.addr) (λ _. refl)
          (λ _. ap (λ t. hand v.task ++ t) (in_hand-insert_worker w vs e)))

-- A call of `Execute` leaves what the workers have in hand, and puts the task at the end if it accepts it.
pub record Submits (p : ThreadPool) (t : ℕ) (out : Bool × ThreadPool) : Type 0 where
  pub crew : in_hand out.1.workers ≡ in_hand p.workers
  pub queue : out.1.tasks ≡ (if out.0 then p.tasks ++ t ∷ [] else p.tasks)

pub add_worker_hands :
    (addr now : ℕ) (p : ThreadPool)
    → (in_hand (add_worker addr now p).workers ≡ in_hand p.workers)
      × ((add_worker addr now p).tasks ≡ p.tasks)
unfolding add_worker get_new_core new_worker
add_worker_hands addr now p =
    ground (arith, in_hand-insert_worker (new_worker addr now) p.workers refl)

pub execute-Submits : (addr now t : ℕ) (p : ThreadPool) → Submits p t (execute addr now (some t) p)
unfolding execute
execute-Submits addr now t p =
    let (hands, tasks) = add_worker_hands addr now p in
    if_cases (Submits p t) (not p.enable_insert_task) (λ _. record { crew = refl; queue = refl })
      (λ _. record { crew = ground (arith, hands); queue = ground (arith, tasks) })
