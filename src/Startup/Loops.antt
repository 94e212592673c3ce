-- ===== src/Startup/Loops.antt =====
-- The loop of CNetPoll::start (netpool/src/CNetPoll.cpp), which gives a pool one task for each worker thread,
-- interleaved with the steps of the pool's threads.
use netpool.Base.{ℕ, ◌+◌, ◌≡◌, ◌<◌, Bool, some, List, ◌∷◌, ◌++◌, All}
use netpool.ThreadPool.{Worker, ThreadPool, execute, Event, run_step}
use netpool.ThreadPool.Spawn.{Fresh}
use netpool.ThreadPool.Moves.{Settled}

-- The pool, and the index of the loop.
pub record Startup : Type 0 where
  pub pool : ThreadPool
  pub index : ℕ

module _ (worker_thrd_cnt : ℕ) where
  pub data Step (s : Startup) : Startup → Type 0 where
    -- a turn of the loop; no worker is between GetOneTask() and m_isBusy
    submit :
        (addr now t : ℕ) (done : Bool) (p : ThreadPool)
        → s.index < worker_thrd_cnt
        → Fresh addr s.pool.workers
        → All Settled s.pool.workers
        → execute addr now (some t) s.pool ≡ (done, p)
        → Step s (record { pool = p; index = s.index + 1 })
    -- a step of a worker's thread
    member :
        (now : ℕ) (before : List Worker) (w : Worker) (after : List Worker) (w' : Worker)
        (p : ThreadPool) (ev : Event)
        → s.pool.workers ≡ before ++ w ∷ after
        → run_step now s.pool w ≡ (w', p, ev)
        → Step s (record s { pool = record p { workers = before ++ w' ∷ after } })

  pub data Reach (s : Startup) : Startup → Type 0 where
    here : Reach s s
    next : {t u : Startup} → Reach s t → Step t u → Reach s u
