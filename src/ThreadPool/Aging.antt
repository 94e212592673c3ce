-- ===== src/ThreadPool/Aging.antt =====
-- Which workers `aged_worker` (netpool/src/CThreadPool.cpp) lets go.
use native.Mathlib.Decide.{dec_lt}
use netpool.Base.{
  ℕ, ◌+◌, ◌-◌, ◌≤◌, ◌<◌, ◌≡◌, ◌⊎◌, inl, inr, min, refl, ap, List, [], ◌∷◌, arith, leb,
  if◌then◌else◌, length, if_cases, ltb, ◌||◌,
}
use netpool.ThreadPool.{Worker, ThreadPool, aged, age_loop, aged_worker}

-- The workers of a list that are busy, or were last used after `agetime`.
abbrev pub recent_workers : (agetime : ℕ) → List Worker → List Worker
recent_workers agetime [] = []
recent_workers agetime (w ∷ ws) =
    let rest = recent_workers agetime ws in
    if w.is_busy || ltb agetime w.update_time then w ∷ rest else rest

-- What the loop leaves of a set of `size` workers, of which it still has to see the list.
record Ages (agetime least size : ℕ) (ws kept : List Worker) : Type 0 where
  enough : least ≤ size → least + length ws ≤ length kept + size
  few : size ≤ least → kept ≡ ws
  recent : recent_workers agetime kept ≡ recent_workers agetime ws
  done : least + length ws < length kept + size → recent_workers agetime kept ≡ kept

age_loop-Ages :
    (agetime least size : ℕ) (ws : List Worker)
    → Ages agetime least size ws (age_loop agetime least size ws)
unfolding age_loop aged
age_loop-Ages agetime least size [] = record {
  enough = λ h. omega arith;
  few = λ h. refl;
  recent = refl;
  done = λ h. refl;
}
age_loop-Ages agetime least size (w ∷ ws) =
    let rest = age_loop-Ages agetime least (size - 1) ws in
    let others = age_loop-Ages agetime least size ws in
    if_cases (Ages agetime least size (w ∷ ws)) (leb size least)
      (λ low. record {
        enough = λ h. omega arith;
        few = λ h. refl;
        recent = refl;
        done = λ h. absurd (ground arith);
      })
      (λ low.
        if_cases (Ages agetime least size (w ∷ ws)) (aged agetime w)
          (λ old. record {
            enough = λ h. ground (arith, rest.enough);
            few = λ h. absurd (ground arith);
            recent = ground (arith, rest.recent);
            done = λ h. rest.done (ground arith);
          })
          (λ young. record {
            enough = λ h. ground (arith, others.enough);
            few = λ h. absurd (ground arith);
            recent = ground (arith, others.recent);
            done = λ h. ground (arith, young, others.done (ground arith));
          }))

-- `aged_worker` leaves at least m_minThreads workers where there were as many, and lets none go where
-- there were no more; every worker that is busy or was last used after `agetime` stays, in its order;
-- and where more than m_minThreads workers are left, each of them is such a worker.
pub aged_worker-keeps :
    (agetime : ℕ) (p : ThreadPool)
    → let q = aged_worker agetime p in
      (min p.min_threads (length p.workers) ≤ length q.workers)
      × ((p.min_threads < length p.workers) ⊎ (q.workers ≡ p.workers))
      × (recent_workers agetime q.workers ≡ recent_workers agetime p.workers)
      × ((length q.workers ≤ p.min_threads) ⊎ (recent_workers agetime q.workers ≡ q.workers))
unfolding aged_worker
aged_worker-keeps agetime p =
    let a = age_loop-Ages agetime p.min_threads (length p.workers) p.workers in
    let kept = age_loop agetime p.min_threads (length p.workers) p.workers in
    (
      enough a,
      elim (dec_lt p.min_threads (length p.workers)) [
        | yes h ↦ inl h
        | no h ↦ inr (a.few (omega arith))
      ],
      a.recent,
      elim (dec_lt p.min_threads (length kept)) [
        | yes h ↦ inr (a.done (omega arith))
        | no h ↦ inl (omega arith)
      ],
    )
  where
    enough :
        {ws kept : List Worker}
        → Ages agetime p.min_threads (length ws) ws kept
        → min p.min_threads (length ws) ≤ length kept
    enough {ws} {kept} a = elim (dec_lt p.min_threads (length ws)) [
      | yes h ↦ omega (arith, a.enough (omega arith))
      | no h ↦ omega (arith, ap length (a.few (omega arith)))
    ]
