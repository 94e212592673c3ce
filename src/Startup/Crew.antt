-- ===== src/Startup/Crew.antt =====
-- How many workers the loops have that CNetPoll::start (netpool/src/CNetPoll.cpp) begins.
use netpool.Base.{
  ℕ, ◌+◌, ◌≤◌, ◌≡◌, refl, sym, ap, subst, ◌∙◌, inl, inr, Bool, true, false, some, arith, length,
  ◌==◌, Bool-cases,
}
use netpool.ThreadPool.{ThreadPool}
use netpool.ThreadPool.Moves.{HasCrew, Crews, execute-Crews, member-Crews, init-HasCrew}
use netpool.ThreadPool.Tasks.{in_hand}
use netpool.Startup.{ThreadPoolMgr, init_worker_thrds}
use netpool.Startup.Loops.{Startup, Step, Reach}

-- The pool that init_worker_thrds() has made.
init_worker_thrds-HasCrew :
    (fresh : ℕ → ℕ) (now cnt core core_cnt : ℕ) (m m' : ThreadPoolMgr) (p : ThreadPool)
    → init_worker_thrds fresh now cnt core core_cnt m ≡ (true, m')
    → m'.worker_thrd_pool ≡ some p
    → (length p.tasks + length (in_hand p.workers) ≡ 0) × (p.max_threads ≡ cnt) × HasCrew p
unfolding init_worker_thrds
init_worker_thrds-HasCrew fresh now cnt core core_cnt m m' p run made =
    elim (Bool-cases (cnt == 0)) [
      | inl zero_cnt ↦
          let refused : init_worker_thrds fresh now cnt core core_cnt m ≡ (false, m) =
            rw (init_worker_thrds, zero_cnt) refl in
          absurd (ground (arith, refused, run))
      | inr some_cnt ↦
          let (q, start, empty, most, crew) =
            init-HasCrew fresh now cnt core core_cnt (ground (arith, some_cnt)) in
          let done : init_worker_thrds fresh now cnt core core_cnt m
              ≡ (true, record m { worker_thrd_pool = some q; worker_thrd_cnt = cnt }) =
            rw (init_worker_thrds, some_cnt, start) refl in
          let same : q ≡ p = cc (ap (λ t. t.1.worker_thrd_pool) (sym done ∙ run), made) in
          subst
            (λ p.
              (length p.tasks + length (in_hand p.workers) ≡ 0) × (p.max_threads ≡ cnt) × HasCrew p)
            same (empty, most, crew)
    ]

module _ (cnt : ℕ) where
  -- The invariant: not more tasks than turns of the loop, and a crew for them.
  record Safe (s : Startup) : Type 0 where
    total : length s.pool.tasks + length (in_hand s.pool.workers) ≤ s.index
    turns : s.index ≤ cnt
    most : s.pool.max_threads ≡ cnt
    crew : HasCrew s.pool

  Step-Safe : {s t : Startup} → Step cnt s t → Safe s → Safe t
  Step-Safe {s} (Step.submit addr now t done p turn fresh settled run) h =
      let crews =
        subst (λ (out : Bool × ThreadPool). Crews s.pool 1 out.1) run
          (execute-Crews addr now t s.pool fresh settled) in
      record {
        total = omega (arith, crews.total, h.total);
        turns = omega (arith, turn);
        most = crews.most ∙ h.most;
        crew = crews.crew h.crew;
      }
  Step-Safe {s} (Step.member now before w after w' p ev at run) h =
      let crews = member-Crews now s.pool before w after w' p ev at run in
      record {
        total = omega (arith, crews.total, h.total);
        turns = h.turns;
        most = crews.most ∙ h.most;
        crew = crews.crew h.crew;
      }

  Reach-Safe : {s t : Startup} → Reach cnt s t → Safe s → Safe t
  Reach-Safe Reach.here h = h
  Reach-Safe (Reach.next r step) h = Step-Safe step (Reach-Safe r h)

-- From the pool that `init_worker_thrds` makes, in every interleaving of the loop of `start` with the steps of
-- the workers, if no turn of the loop falls between a worker's GetOneTask() and its setting of m_isBusy: the
-- tasks that wait or are in the hand of a worker are never more than the workers, so that no
-- epoll loop has to wait for another one to end.
pub Reach-HasWorkers :
    (fresh : ℕ → ℕ) (now cnt core core_cnt : ℕ) (m m' : ThreadPoolMgr) (p : ThreadPool)
    {s : Startup}
    → init_worker_thrds fresh now cnt core core_cnt m ≡ (true, m')
    → m'.worker_thrd_pool ≡ some p
    → Reach cnt (record { pool = p; index = 0 }) s
    → length s.pool.tasks + length (in_hand s.pool.workers) ≤ length s.pool.workers
Reach-HasWorkers fresh now cnt core core_cnt m m' p {s} run made r =
    let (empty, most, crew) =
      init_worker_thrds-HasCrew fresh now cnt core core_cnt m m' p run made in
    let safe =
      Reach-Safe cnt r
        (record { total = omega (arith, empty); turns = omega arith; most = most; crew = crew }) in
    let total = safe.total in
    let turns = safe.turns in
    let most_now = safe.most in
    let crew_now = safe.crew in ground (arith, total, turns, most_now, crew_now)
