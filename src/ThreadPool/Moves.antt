-- ===== src/ThreadPool/Moves.antt =====
-- How many tasks are in the queue and in the hands of workers (netpool/src/CThreadPool.cpp), and how
-- many workers there are.
use netpool.Base.{
  ℕ, suc, ◌+◌, ◌≤◌, ◌≡◌, refl, sym, ap, subst, ◌∙◌, ◌⊎◌, inl, inr, true, false, Option, none, some,
  List, [], ◌∷◌, ◌++◌, arith, length, length-append, All, ltb, if_cases, Bool-cases,
}
use netpool.ThreadPool.{
  Status, worker_init, worker_started, worker_stopping, worker_stopped, Worker, ThreadPool,
  add_worker, set_up, init, add_workers, is_all_worker_busy, wants_worker, execute, pop_task,
  get_one_task, Event, start_round, end_round, loop_head, in_round, run_step,
}
use netpool.ThreadPool.Spawn.{Fresh, execute-wants_worker, add_worker_rest}
use netpool.ThreadPool.Hands.{execute-Submits, add_worker_hands}
use netpool.ThreadPool.Tasks.{hand, in_hand}

-- A step of a worker's thread: tasks move from the queue to its hand, or end.
pub record Moves (p : ThreadPool) (w : Worker) (out : Worker × ThreadPool × Event) : Type 0 where
  pub total : length out.1.tasks + length (hand out.0.task) ≤ length p.tasks + length (hand w.task)
  pub most : out.1.max_threads ≡ p.max_threads

pop_round-Moves :
    (p : ThreadPool) (w : Worker) (ts : List ℕ)
    → p.tasks ≡ ts
    → w.task ≡ none
    → Moves p w (start_round w ((pop_task ts).0, record p { tasks = (pop_task ts).1 }))
unfolding start_round pop_task
pop_round-Moves p w [] e idle = record { total = omega arith; most = refl }
pop_round-Moves p w (t ∷ ts) e idle = record { total = omega (arith, ap length e); most = refl }

loop_head-Moves :
    (p : ThreadPool) (w : Worker) (status : Status)
    → w.task ≡ none
    → Moves p w (loop_head p w status)
unfolding loop_head get_one_task
loop_head-Moves p w worker_started e = pop_round-Moves p w p.tasks refl e
loop_head-Moves p w worker_init e = record { total = omega arith; most = refl }
loop_head-Moves p w worker_stopping e = record { total = omega arith; most = refl }
loop_head-Moves p w worker_stopped e = record { total = omega arith; most = refl }

in_round-Moves :
    (now : ℕ) (p : ThreadPool) (w : Worker) (held : Option ℕ)
    → w.task ≡ held
    → Moves p w (in_round now p w held)
unfolding in_round end_round
in_round-Moves now p w none e = loop_head-Moves p w w.status e
in_round-Moves now p w (some t) e =
    if_cases (Moves p w) w.is_busy (λ _. record { total = omega arith; most = refl })
      (λ _. record { total = omega arith; most = refl })

pub run_step-Moves : (now : ℕ) (p : ThreadPool) (w : Worker) → Moves p w (run_step now p w)
unfolding run_step
run_step-Moves now p w =
    if_cases (Moves p w) w.is_ended (λ _. record { total = omega arith; most = refl })
      (λ _.
        if_cases (Moves p w) w.is_entered (λ _. in_round-Moves now p w w.task refl)
          (λ _. record { total = omega arith; most = refl }))

length-in_hand :
    (before after : List Worker)
    → length (in_hand (before ++ after)) ≡ length (in_hand before) + length (in_hand after)
length-in_hand [] after = omega arith
length-in_hand (w ∷ before) after = omega (
  arith,
  length-in_hand before after,
  length-append (hand w.task) (in_hand before),
  length-append (hand w.task) (in_hand (before ++ after)),
)

pub length-in_hand_at :
    (before : List Worker) (w : Worker) (after : List Worker)
    → length (in_hand (before ++ w ∷ after))
      ≡ length (in_hand before) + length (hand w.task) + length (in_hand after)
length-in_hand_at before w after =
    omega (arith, length-in_hand before (w ∷ after), length-append (hand w.task) (in_hand after))

one_hand : (o : Option ℕ) → length (hand o) ≤ 1
one_hand none = omega arith
one_hand (some t) = omega arith

all_hands : (ws : List Worker) → length (in_hand ws) ≤ length ws
all_hands [] = omega arith
all_hands (w ∷ ws) =
    omega (arith, all_hands ws, one_hand w.task, length-append (hand w.task) (in_hand ws))

-- The worker has set m_isBusy, if it has a task.
abbrev pub Settled : Worker → Type 0
Settled w = (w.task ≡ none) ⊎ (w.is_busy ≡ true)

-- Where a settled worker is not busy, there is a free one.
free_hand :
    (ws : List Worker)
    → All Settled ws
    → is_all_worker_busy ws ≡ false
    → length (in_hand ws) + 1 ≤ length ws
unfolding is_all_worker_busy
free_hand [] all h = absurd (ground (arith, h))
free_hand (w ∷ ws) (settled, all) h =
    let split = length-append (hand w.task) (in_hand ws) in
    elim settled [
      | inl idle ↦
          let none_held : length (hand w.task) ≡ 0 = ap (λ o. length (hand o)) idle in
          omega (arith, none_held, split, all_hands ws)
      | inr busy ↦
          let rest : is_all_worker_busy ws ≡ false = ground (arith, h, busy) in
          omega (arith, one_hand w.task, split, free_hand ws all rest)
    ]

-- As many workers as tasks, or as many as there may be.
abbrev pub HasCrew : ThreadPool → Type 0
HasCrew p =
    (length p.tasks + length (in_hand p.workers) ≤ length p.workers)
    ⊎ (p.max_threads ≤ length p.workers)

-- No worker is wanted: there is a free one and no task waits, or there are as many as there may be.
wants_none :
    (p : ThreadPool)
    → All Settled p.workers
    → wants_worker p ≡ false
    → (length p.tasks + length (in_hand p.workers) + 1 ≤ length p.workers)
      ⊎ (p.max_threads ≤ length p.workers)
unfolding wants_worker
wants_none p settled h = elim (Bool-cases (is_all_worker_busy p.workers)) [
  | inl busy ↦ inr (ground (arith, h, busy))
  | inr free ↦ let room = free_hand p.workers settled free in ground (arith, h, free, room)
]

-- What a call leaves of the queue and of the workers, where it may add some tasks.
pub record Crews (p : ThreadPool) (more : ℕ) (out : ThreadPool) : Type 0 where
  pub total :
      length out.tasks + length (in_hand out.workers)
      ≤ length p.tasks + length (in_hand p.workers) + more
  pub most : out.max_threads ≡ p.max_threads
  pub crew : HasCrew p → HasCrew out

execute-max_threads :
    (addr now t : ℕ) (p : ThreadPool) → (execute addr now (some t) p).1.max_threads ≡ p.max_threads
unfolding execute
execute-max_threads addr now t p =
    let (_, most, _, _) = add_worker_rest addr now p in ground (arith, most)

pub execute-Crews :
    (addr now t : ℕ) (p : ThreadPool)
    → Fresh addr p.workers
    → All Settled p.workers
    → Crews p 1 (execute addr now (some t) p).1
execute-Crews addr now t p fresh settled =
    let out = (execute addr now (some t) p).1 in
    let hands : length (in_hand out.workers) ≡ length (in_hand p.workers) =
      ap length (execute-Submits addr now t p).crew in
    let most = execute-max_threads addr now t p in
    let (_, queue, grown, _) = execute-wants_worker addr now t p fresh in
    let longer = length-append p.tasks (t ∷ []) in
    elim (Bool-cases p.enable_insert_task) [
      | inr closed ↦
          let same : length out.tasks ≡ length p.tasks = ap length (queue ∙ rw closed refl) in
          let crew : length out.workers ≡ length p.workers = ground (arith, grown, closed) in
          record {
            total = omega (arith, hands, same);
            most = most;
            crew = λ h. ground (arith, h, hands, same, crew, most);
          }
      | inl taking ↦
          let more : length out.tasks ≡ length p.tasks + 1 =
            ap length (queue ∙ rw taking refl) ∙ longer in
          record {
            total = omega (arith, hands, more);
            most = most;
            crew = elim (Bool-cases (wants_worker p)) [
              | inl wanted ↦
                  let crew : length out.workers ≡ suc (length p.workers) =
                    ground (arith, grown, taking, wanted) in
                  λ h. ground (arith, h, hands, more, crew, most)
              | inr enough ↦
                  let crew : length out.workers ≡ length p.workers =
                    ground (arith, grown, taking, enough) in
                  let room = wants_none p settled enough in
                  λ h. ground (arith, room, hands, more, crew, most)
            ];
          }
    ]

-- A step of a member of the set.
pub member-Crews :
    (now : ℕ) (p : ThreadPool) (before : List Worker) (w : Worker) (after : List Worker)
    (w' : Worker) (q : ThreadPool) (ev : Event)
    → p.workers ≡ before ++ w ∷ after
    → run_step now p w ≡ (w', q, ev)
    → Crews p 0 (record q { workers = before ++ w' ∷ after })
member-Crews now p before w after w' q ev at run =
    let moves = subst (Moves p w) run (run_step-Moves now p w) in
    let held : length (in_hand p.workers)
        ≡ length (in_hand before) + length (hand w.task) + length (in_hand after) =
      ap (λ ws. length (in_hand ws)) at ∙ length-in_hand_at before w after in
    let now_held = length-in_hand_at before w' after in
    let size : length (before ++ w' ∷ after) ≡ length p.workers =
      length-append before (w' ∷ after) ∙ sym (ap length at ∙ length-append before (w ∷ after)) in
    let fewer = moves.total in
    let most = moves.most in
    record {
      total = omega (arith, fewer, held, now_held);
      most = most;
      crew = λ h. ground (arith, h, fewer, held, now_held, size, most);
    }

-- A new pool with one worker.
pub init-HasCrew :
    (fresh : ℕ → ℕ) (now most core cnt : ℕ)
    → 1 ≤ most
    → (p : ThreadPool) × (init fresh now 1 most core cnt ≡ some p)
      × (length p.tasks + length (in_hand p.workers) ≡ 0)
      × (p.max_threads ≡ most)
      × HasCrew p
unfolding init add_workers set_up
init-HasCrew fresh now most core cnt room =
    let test : ltb most 1 ≡ false = ground (arith, room) in
    let p0 = set_up 1 most core cnt in
    let p = add_worker (fresh 0) now p0 in
    let (held, waiting) = add_worker_hands (fresh 0) now p0 in
    let (_, limit, _, _) = add_worker_rest (fresh 0) now p0 in
    let none_held : length (in_hand p.workers) ≡ 0 = ap length held in
    let none_waiting : length p.tasks ≡ 0 = ap length waiting in
    (
      p,
      rw test refl,
      omega (arith, none_held, none_waiting),
      limit,
      inl (omega (arith, none_held, none_waiting)),
    )
