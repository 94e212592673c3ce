-- ===== src/TimeJob/Remove.antt =====
-- What `del_time_job` (netpool/src/CJobTime.cpp) takes out of the list of timers.
use netpool.Base.{
  ℕ, ◌≡◌, refl, ap, ◌⊎◌, inl, inr, Bool, true, false, Option, none, some, List, [], ◌∷◌, ◌++◌, All,
  if_cases,
}
use netpool.TimeJob.{TimeJob, is_self, find_time_jobs, del_found, del_time_job}

-- The search has found nothing, or the first job with that function and that parameter.
abbrev Finds :
    (expire_func param1 : ℕ)
    → List TimeJob
    → Option (List TimeJob × TimeJob × List TimeJob)
    → Type 0
Finds f a jobs none = All (λ k. is_self k f a ≡ false) jobs
Finds f a jobs (some (before, j, after)) =
    (jobs ≡ before ++ j ∷ after) × (is_self j f a ≡ true) × All (λ k. is_self k f a ≡ false) before

find_more :
    (f a : ℕ) (j : TimeJob) (js : List TimeJob)
    (found : Option (List TimeJob × TimeJob × List TimeJob))
    → is_self j f a ≡ false
    → Finds f a js found
    → Finds f a
        (j ∷ js)
        (elim found [ none ↦ none | some (before, k, after) ↦ some (j ∷ before, k, after) ])
find_more f a j js none other v = (other, v)
find_more f a j js (some (before, k, after)) other (split, is, others) =
    (ap (λ t. j ∷ t) split, is, (other, others))

find_time_jobs-Finds : (f a : ℕ) (jobs : List TimeJob) → Finds f a jobs (find_time_jobs f a jobs)
unfolding find_time_jobs
find_time_jobs-Finds f a [] = tt
find_time_jobs-Finds f a (j ∷ js) =
    if_cases (Finds f a (j ∷ js)) (is_self j f a) (λ is. (refl, is, tt))
      (λ other. find_more f a j js _ other (find_time_jobs-Finds f a js))

-- Nothing was to be taken out, or the first such job is.
abbrev pub Removes : (expire_func param1 : ℕ) → List TimeJob → Bool × List TimeJob → Type 0
Removes f a jobs (done, jobs') =
    ((done ≡ false) × (jobs' ≡ jobs) × All (λ k. is_self k f a ≡ false) jobs)
    ⊎ ((done ≡ true)
        × (before : List TimeJob) × (j : TimeJob) × (after : List TimeJob) × (jobs
            ≡ before ++ j ∷ after)
        × (is_self j f a ≡ true)
        × All (λ k. is_self k f a ≡ false) before
        × (jobs' ≡ before ++ after))

del_found-Removes :
    (f a : ℕ) (jobs : List TimeJob) (found : Option (List TimeJob × TimeJob × List TimeJob))
    → Finds f a jobs found
    → Removes f a jobs (del_found jobs found)
unfolding del_found
del_found-Removes f a jobs none v = inl (refl, refl, v)
del_found-Removes f a jobs (some (before, j, after)) (split, is, others) =
    inr (refl, before, j, after, split, is, others, refl)

-- `del_time_job` returns false and leaves the list exactly where no job has that function and that first
-- parameter; else it returns true and takes out the first such job, the others staying in their order.
pub del_time_job-Removes :
    (f a : ℕ) (jobs : List TimeJob) → Removes f a jobs (del_time_job f a jobs)
unfolding del_time_job
del_time_job-Removes f a jobs = del_found-Removes f a jobs _ (find_time_jobs-Finds f a jobs)
