-- ===== src/ThreadPool/Spawn.antt =====
-- How many workers `Init` and `Execute` (netpool/src/CThreadPool.cpp) start.
use native.Mathlib.Decide.{dec_lt}
use netpool.Base.{
  ℕ, zero, suc, ◌+◌, ◌≤◌, ◌<◌, ◌≡◌, ◌≢◌, refl, sym, ap, ◌⊎◌, inl, inr, true, ◌&&◌, none, some, List,
  [], ◌∷◌, ◌++◌, arith, ltb, ◌==◌, if◌then◌else◌, length, All, subst, if_cases, ◌∙◌, Bool-cases,
  false,
}
use netpool.ThreadPool.{
  Worker, ThreadPool, new_worker, insert_worker, get_new_core, add_worker, add_workers, set_up,
  take_addrs, init, wants_worker, execute, is_all_worker_busy,
}

-- An address that no worker of the list has.
abbrev pub Fresh : ℕ → List Worker → Type 0
Fresh addr = All (λ w. addr ≢ w.addr)

length-insert_worker-le :
    (w : Worker) (ws : List Worker) → length (insert_worker w ws) ≤ suc (length ws)
unfolding insert_worker
length-insert_worker-le w [] = omega arith
length-insert_worker-le w (v ∷ vs) = ground (arith, length-insert_worker-le w vs)

length-insert_worker :
    (w : Worker) (ws : List Worker)
    → Fresh w.addr ws
    → length (insert_worker w ws) ≡ suc (length ws)
unfolding insert_worker
length-insert_worker w [] f = refl
length-insert_worker w (v ∷ vs) f = ground (arith, length-insert_worker w vs f.1)

pub workers-add_worker :
    (addr now : ℕ) (p : ThreadPool)
    → (add_worker addr now p).workers ≡ insert_worker (new_worker addr now) p.workers
unfolding add_worker get_new_core
workers-add_worker addr now p = ground arith

-- What a new worker leaves alone.
pub add_worker_rest :
    (addr now : ℕ) (p : ThreadPool)
    → let q = add_worker addr now p in
      (q.tasks ≡ p.tasks)
      × (q.max_threads ≡ p.max_threads)
      × (q.min_threads ≡ p.min_threads)
      × (q.enable_insert_task ≡ p.enable_insert_task)
unfolding add_worker get_new_core
add_worker_rest addr now p = ground arith

pub wants_room : (p : ThreadPool) → wants_worker p ≡ true → length p.workers < p.max_threads
unfolding wants_worker
wants_room p e = ground arith

pub length-insert_new :
    (addr now : ℕ) (ws : List Worker)
    → Fresh addr ws
    → length (insert_worker (new_worker addr now) ws) ≡ suc (length ws)
unfolding new_worker
length-insert_new addr now ws f = length-insert_worker _ ws f

-- What a call of `Execute` with a task does, by its own test for a worker.
pub execute-wants_worker :
    (addr now t : ℕ) (p : ThreadPool)
    → Fresh addr p.workers
    → let (done, q) = execute addr now (some t) p in
      (done ≡ p.enable_insert_task)
      × (q.tasks ≡ (if p.enable_insert_task then p.tasks ++ t ∷ [] else p.tasks))
      × (length q.workers ≡ (
          if p.enable_insert_task && wants_worker p
          then suc (length p.workers)
          else length p.workers))
      × ((length q.workers ≡ length p.workers) ⊎ (length q.workers ≤ p.max_threads))
unfolding execute
execute-wants_worker addr now t p f =
    let (tasks, most, least, taking) = add_worker_rest addr now p in
    let grown = workers-add_worker addr now p in
    let more = length-insert_new addr now p.workers f in
    (
      ground arith,
      ground (arith, tasks),
      ground (arith, grown, more),
      ground (arith, grown, more, wants_room p),
    )

-- Every worker is busy, or one of them is not.
abbrev pub AllBusy : List Worker → Type 0
AllBusy = All (λ w. w.is_busy ≡ true)

abbrev pub SomeIdle : List Worker → Type 0
SomeIdle [] = true ≡ false
SomeIdle (w ∷ ws) = (w.is_busy ≡ false) ⊎ SomeIdle ws

is_all_worker_busy-AllBusy :
    (ws : List Worker)
    → ((is_all_worker_busy ws ≡ true) × AllBusy ws)
      ⊎ ((is_all_worker_busy ws ≡ false) × SomeIdle ws)
unfolding is_all_worker_busy
is_all_worker_busy-AllBusy [] = inl (refl, tt)
is_all_worker_busy-AllBusy (w ∷ ws) = elim (Bool-cases w.is_busy) [
  | inr idle ↦ inr (rw idle refl, inl idle)
  | inl busy ↦ elim (is_all_worker_busy-AllBusy ws) [
    | inl (all, each) ↦ inl (rw busy all, (busy, each))
    | inr (free, one) ↦ inr (rw busy free, inr one)
  ]
]

-- `Execute` needs a worker and may start one; or it does not, or may not.
abbrev pub Needs : ThreadPool → Type 0
Needs p = (AllBusy p.workers ⊎ (0 < length p.tasks)) × (length p.workers < p.max_threads)

abbrev pub NeedsNone : ThreadPool → Type 0
NeedsNone p = (SomeIdle p.workers × (length p.tasks ≡ 0)) ⊎ (p.max_threads ≤ length p.workers)

wants_worker-Needs :
    (p : ThreadPool)
    → ((wants_worker p ≡ true) × Needs p) ⊎ ((wants_worker p ≡ false) × NeedsNone p)
unfolding wants_worker
wants_worker-Needs p = elim (dec_lt (length p.workers) p.max_threads) [
  | no full ↦ inr (ground (arith, full), inr (omega arith))
  | yes room ↦ elim (dec_lt 0 (length p.tasks)) [
    | yes waiting ↦ inl (ground (arith, room, waiting), (inr waiting, room))
    | no empty ↦ elim (is_all_worker_busy-AllBusy p.workers) [
      | inl (all, each) ↦ inl (ground (arith, room, all), (inl each, room))
      | inr (free, one) ↦ inr (ground (arith, room, empty, free), inl (one, omega (arith, empty)))
    ]
  ]
]

-- A call of `Execute` with a task, where the address of a new worker is fresh, does one of three things.
-- If m_bEnableInsertTask is not set, it returns false, and the queue and the number of workers stay. Else
-- it returns true and the task is put at the end of the queue: if every worker is busy or tasks wait,
-- and there are fewer than m_maxThreads workers, there is one worker more; if one worker is idle and no
-- task waits, or there are at least m_maxThreads, the number of workers stays.
pub execute-spawns :
    (addr now t : ℕ) (p : ThreadPool)
    → Fresh addr p.workers
    → let (done, q) = execute addr now (some t) p in
      ((p.enable_insert_task ≡ false)
        × (done ≡ false)
        × (q.tasks ≡ p.tasks)
        × (length q.workers ≡ length p.workers))
      ⊎ ((p.enable_insert_task ≡ true)
          × (done ≡ true)
          × (q.tasks ≡ p.tasks ++ t ∷ [])
          × ((Needs p × (length q.workers ≡ suc (length p.workers)))
              ⊎ (NeedsNone p × (length q.workers ≡ length p.workers))))
execute-spawns addr now t p f =
    let (done, queue, crew, _) = execute-wants_worker addr now t p f in
    elim (Bool-cases p.enable_insert_task) [
      | inr closed ↦ inl (closed, done ∙ closed, queue ∙ rw closed refl, crew ∙ rw closed refl)
      | inl taking ↦ inr (
        taking,
        done ∙ taking,
        queue ∙ rw taking refl,
        elim (wants_worker-Needs p) [
          | inl (wanted, needs) ↦ inl (needs, ground (arith, crew, taking, wanted))
          | inr (enough, none_needed) ↦ inr (none_needed, ground (arith, crew, taking, enough))
        ],
      )
    ]

no_workers : (a least most core cnt : ℕ) → Fresh a (set_up least most core cnt).workers
unfolding set_up
no_workers a least most core cnt = tt

pub length-set_up : (least most core cnt : ℕ) → length (set_up least most core cnt).workers ≡ 0
unfolding set_up
length-set_up least most core cnt = refl

-- The addresses that `new` returns are new ones.
abbrev pub Supplies : (ℕ → ℕ) → Type 0
Supplies fresh = (i j : ℕ) → i < j → fresh i ≢ fresh j

Fresh-insert_worker :
    (a : ℕ) (w : Worker) (ws : List Worker) → a ≢ w.addr → Fresh a ws → Fresh a (insert_worker w ws)
unfolding insert_worker
Fresh-insert_worker a w [] h f = (h, tt)
Fresh-insert_worker a w (v ∷ vs) h f =
    if_cases (Fresh a) (ltb w.addr v.addr) (λ _. (h, f))
      (λ _.
        if_cases (Fresh a) (w.addr == v.addr) (λ _. f)
          (λ _. (f.0, Fresh-insert_worker a w vs h f.1)))

Fresh-insert_new :
    (a addr now : ℕ) (ws : List Worker)
    → a ≢ addr
    → Fresh a ws
    → Fresh a (insert_worker (new_worker addr now) ws)
unfolding new_worker
Fresh-insert_new a addr now ws h f = Fresh-insert_worker a _ ws h f

add_workers-length :
    (fresh : ℕ → ℕ) (now n i : ℕ) (p : ThreadPool)
    → Supplies fresh
    → ((j : ℕ) → i ≤ j → Fresh (fresh j) p.workers)
    → length (add_workers (take_addrs fresh i n) now p).workers ≡ length p.workers + n
unfolding add_workers
add_workers-length fresh now zero i p s f = omega arith
add_workers-length fresh now (suc n) i p s f =
    let grown = workers-add_worker (fresh i) now p in
    let more = length-insert_new (fresh i) now p.workers (f i (omega arith)) in
    let later : (j : ℕ) → i + 1 ≤ j → Fresh (fresh j) (add_worker (fresh i) now p).workers = λ j h.
      subst (Fresh (fresh j)) (sym grown) (
        Fresh-insert_new (fresh j) (fresh i) now p.workers (λ e. s i j (omega arith) (sym e))
          (f j (omega arith))) in
    omega (
      arith,
      add_workers-length fresh now n (i + 1) (add_worker (fresh i) now p) s later,
      ap length grown,
      more,
    )

-- `Init` refuses exactly a minimum of 0 and a maximum below the minimum; else, at new addresses, it
-- starts exactly the minimum of workers.
pub init-starts :
    (fresh : ℕ → ℕ) (now least most core cnt : ℕ)
    → Supplies fresh
    → ((init fresh now least most core cnt ≡ none) × ((least ≡ 0) ⊎ (most < least)))
      ⊎ ((p : ThreadPool) × (init fresh now least most core cnt ≡ some p)
          × (length p.workers ≡ least)
          × (0 < least)
          × (least ≤ most))
unfolding init
init-starts fresh now least most core cnt s =
    let p0 = set_up least most core cnt in
    let p = add_workers (take_addrs fresh 0 least) now p0 in
    let count =
      add_workers-length fresh now least 0 p0 s (λ j h. no_workers (fresh j) least most core cnt) in
    let start = length-set_up least most core cnt in
    elim (dec_lt 0 least) [
      | no h ↦ inl (ground arith, inl (omega arith))
      | yes h ↦ elim (dec_lt most least) [
        | yes h' ↦ inl (ground arith, inr h')
        | no h' ↦ inr (p, ground arith, omega (arith, count, start), h, omega arith)
      ]
    ]
