-- ===== src/ThreadPool/Tasks.antt =====
-- What becomes of the tasks of a pool (netpool/src/CThreadPool.cpp) while threads call `Execute`, workers take
-- tasks and run them, and workers are told to exit and are joined, in any interleaving.
use netpool.Base.{true, ℕ, ◌≡◌, Bool, Option, none, some, List, [], ◌∷◌, ◌++◌, if◌then◌else◌}
use netpool.ThreadPool.{
  Worker, ThreadPool, execute, Event, took, ran, dropped, run_step, tell_exit, terminate_begin,
}

-- The pool, the workers that are out of its set and not yet joined, and what has happened to tasks:
-- those that `Execute` accepted, those that workers took, ran, and deleted without running.
pub record System : Type 0 where
  pub pool : ThreadPool
  pub trash : List Worker
  pub accepted : List ℕ
  pub taken : List ℕ
  pub run : List ℕ
  pub unrun : List ℕ

abbrev pub took_of : Event → List ℕ
took_of (took t) = t ∷ []
took_of _ = []

abbrev pub ran_of : Event → List ℕ
ran_of (ran t) = t ∷ []
ran_of _ = []

abbrev pub dropped_of : Event → List ℕ
dropped_of (dropped t) = t ∷ []
dropped_of _ = []

abbrev pub note : System → Event → System
note s e = record s {
  taken = s.taken ++ took_of e;
  run = s.run ++ ran_of e;
  unrun = s.unrun ++ dropped_of e;
}

-- The steps. A member or a worker in the trash goes on with its Run(); a worker that is told to exit
-- leaves the set; the join of a worker returns when its thread has ended,
-- and the worker is deleted with what it has in hand.
pub data Step (s : System) : System → Type 0 where
  submit :
      (addr now t : ℕ) (done : Bool) (p : ThreadPool)
      → execute addr now (some t) s.pool ≡ (done, p)
      → Step s (record s { pool = p; accepted = if done then s.accepted ++ t ∷ [] else s.accepted })
  member :
      (now : ℕ) (before : List Worker) (w : Worker) (after : List Worker) (w' : Worker)
      (p : ThreadPool) (ev : Event)
      → s.pool.workers ≡ before ++ w ∷ after
      → run_step now s.pool w ≡ (w', p, ev)
      → Step s (note (record s { pool = record p { workers = before ++ w' ∷ after } }) ev)
  leaver :
      (now : ℕ) (before : List Worker) (w : Worker) (after : List Worker) (w' : Worker)
      (p : ThreadPool) (ev : Event)
      → s.trash ≡ before ++ w ∷ after
      → run_step now s.pool w ≡ (w', p, ev)
      → Step s (note (record s { pool = p; trash = before ++ w' ∷ after }) ev)
  erase :
      (before : List Worker) (w : Worker) (after : List Worker)
      → s.pool.workers ≡ before ++ w ∷ after
      → Step s (record s {
        pool = record s.pool { workers = before ++ after };
        trash = tell_exit w ∷ s.trash;
      })
  join :
      (before : List Worker) (w : Worker) (after : List Worker)
      → s.trash ≡ before ++ w ∷ after
      → w.is_ended ≡ true
      → Step s (record s { trash = before ++ after })
  terminate : (quick : Bool) → Step s (record s { pool = terminate_begin quick s.pool })

pub data Reach (s : System) : System → Type 0 where
  here : Reach s s
  next : {t u : System} → Reach s t → Step t u → Reach s u

abbrev pub hand : Option ℕ → List ℕ
hand none = []
hand (some t) = t ∷ []

-- The tasks that workers have in hand.
abbrev pub in_hand : List Worker → List ℕ
in_hand [] = []
in_hand (w ∷ ws) = hand w.task ++ in_hand ws
