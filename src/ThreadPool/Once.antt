-- ===== src/ThreadPool/Once.antt =====
-- Each task of a pool (netpool/src/CThreadPool.cpp) is taken in its turn, and ended once.
use netpool.Base.{
  ℕ, ◌+◌, ◌≡◌, refl, ap, Bool, true, false, List, [], ◌∷◌, ◌++◌, append_assoc, arith, if◌then◌else◌,
  count, count-append, subst, some,
}
use netpool.ThreadPool.{Worker, ThreadPool, Event, tell_exit, terminate_begin, init}
use netpool.ThreadPool.Ended.{AllEndIdle, Step-AllEndIdle, AllEndIdle-none, IsFresh, init-IsFresh}
use netpool.ThreadPool.Tasks.{
  System, took_of, ran_of, dropped_of, Step, submit, member, leaver, erase, join, terminate, Reach,
  here, next, hand, in_hand,
}
use netpool.ThreadPool.Hands.{count-in_hand_at, Carries, run_step-Carries, Submits, execute-Submits}

-- Tasks are taken in the order in which they were accepted, and each one that was taken is in hand or has
-- been ended, once.
pub record Tracks (s : System) : Type 0 where
  pub order : s.taken ++ s.pool.tasks ≡ s.accepted
  pub once :
      (a : ℕ)
      → count a s.taken
        ≡ count a s.run
          + count a s.unrun
          + count a (in_hand s.pool.workers)
          + count a (in_hand s.trash)

-- A thread step of one worker, in the set or in the trash.
note-Tracks :
    (s u : System) (w : Worker) (out : Worker × ThreadPool × Event)
    → Carries s.pool w out
    → Tracks s
    → u.pool.tasks ≡ out.1.tasks
    → u.accepted ≡ s.accepted
    → u.taken ≡ s.taken ++ took_of out.2
    → u.run ≡ s.run ++ ran_of out.2
    → u.unrun ≡ s.unrun ++ dropped_of out.2
    → ((a : ℕ)
        → count a (in_hand u.pool.workers) + count a (in_hand u.trash) + count a (hand w.task)
          ≡ count a (in_hand s.pool.workers)
            + count a (in_hand s.trash)
            + count a (hand out.0.task))
    → Tracks u
note-Tracks s u w out c h tasks same taken run unrun hands = record {
  order = cc (append_assoc s.taken (took_of out.2) out.1.tasks, c.queue, h.order);
  once = λ a. omega (
    arith,
    c.kept a,
    h.once a,
    hands a,
    ap (count a) taken,
    ap (count a) run,
    ap (count a) unrun,
    count-append a s.taken (took_of out.2),
    count-append a s.run (ran_of out.2),
    count-append a s.unrun (dropped_of out.2),
  );
}

submitted_order :
    (s : System) (done : Bool) (t : ℕ) {tasks : List ℕ}
    → s.taken ++ s.pool.tasks ≡ s.accepted
    → tasks ≡ (if done then s.pool.tasks ++ t ∷ [] else s.pool.tasks)
    → s.taken ++ tasks ≡ (if done then s.accepted ++ t ∷ [] else s.accepted)
submitted_order s true t h e = cc (append_assoc s.taken s.pool.tasks (t ∷ []))
submitted_order s false t h e = cc

Step-Tracks : {s u : System} → Step s u → AllEndIdle s → Tracks s → Tracks u
unfolding tell_exit terminate_begin
Step-Tracks {s} (submit addr now t done p e) ends h =
    let c = subst (Submits s.pool t) e (execute-Submits addr now t s.pool) in
    record {
      order = submitted_order s done t h.order c.queue;
      once = λ a. omega (arith, h.once a, ap (count a) c.crew);
    }
Step-Tracks {s} (member now before w after w' p ev at e) ends h =
    let c = subst (Carries s.pool w) e (run_step-Carries now s.pool w) in
    note-Tracks s _ w (w', p, ev) c h refl refl refl refl refl
      (λ a. omega (
        arith,
        count-in_hand_at a before w' after,
        count-in_hand_at a before w after,
        ap (λ ws. count a (in_hand ws)) at,
      ))
Step-Tracks {s} (leaver now before w after w' p ev at e) ends h =
    let c = subst (Carries s.pool w) e (run_step-Carries now s.pool w) in
    note-Tracks s _ w (w', p, ev) c h refl refl refl refl refl
      (λ a. omega (
        arith,
        count-in_hand_at a before w' after,
        count-in_hand_at a before w after,
        ap (λ ws. count a (in_hand ws)) at,
        ap (λ ws. count a (in_hand ws)) c.crew,
      ))
Step-Tracks {s} (erase before w after at) ends h = record {
  order = h.order;
  once = λ a. omega (
    arith,
    h.once a,
    count-in_hand_at a before w after,
    ap (λ ws. count a (in_hand ws)) at,
    count-append a (hand w.task) (in_hand s.trash),
  );
}
Step-Tracks {s} (join before w after at ended) ends h = record {
  order = h.order;
  once = λ a. omega (
    arith,
    h.once a,
    count-in_hand_at a before w after,
    ap (λ ws. count a (in_hand ws)) at,
    ap (λ o. count a (hand o)) (AllEndIdle-none s before w after ends at ended),
  );
}
Step-Tracks {s} (terminate quick) ends h = record { order = h.order; once = h.once }

-- The invariant of the whole system.
record Sound (s : System) : Type 0 where
  tracks : Tracks s
  ends : AllEndIdle s

Reach-Sound : {s u : System} → Reach s u → Sound s → Sound u
Reach-Sound here h = h
Reach-Sound (next r st) h =
    let m = Reach-Sound r h in
    record { tracks = Step-Tracks st m.ends m.tracks; ends = Step-AllEndIdle st m.ends }

-- A pool before any task.
abbrev pub start_system : ThreadPool → System
start_system p = record { pool = p; trash = []; accepted = []; taken = []; run = []; unrun = [] }

start-Sound : (p : ThreadPool) → IsFresh p → Sound (start_system p)
start-Sound p h = record {
  tracks = record { order = h.tasks; once = λ a. omega (arith, ap (count a) h.hands) };
  ends = record { crew = h.ends; leaving = tt };
}

-- From a pool on that `Init` has made, with the workers that it has started, however the calls of `Execute`,
-- the steps of the workers, the removal of workers that are told to exit, the joins of those that have
-- ended and the begin of `Terminate` interleave: the tasks that workers have taken, followed by those in
-- the queue, are the tasks that `Execute` has accepted, in that order; and each task that was taken was
-- run once, deleted without running once, or is in the hand of one worker that has not been joined.
pub Reach-once :
    (fresh : ℕ → ℕ) (now least most core cnt : ℕ) {p : ThreadPool} {s : System}
    → init fresh now least most core cnt ≡ some p
    → Reach (start_system p) s
    → (s.taken ++ s.pool.tasks ≡ s.accepted)
      × ((a : ℕ)
          → count a s.taken
            ≡ count a s.run
              + count a s.unrun
              + count a (in_hand s.pool.workers)
              + count a (in_hand s.trash))
Reach-once fresh now least most core cnt {p} made r =
    let h = Reach-Sound r (start-Sound p (init-IsFresh fresh now least most core cnt made)) in
    (h.tracks.order, h.tracks.once)
