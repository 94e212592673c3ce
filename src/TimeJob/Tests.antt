-- ===== src/TimeJob/Tests.antt =====
-- Runs of the timers of netpool/src/CJobTime.cpp.
use netpool.Base.{
  ℕ, suc, ◌+◌, ◌<◌, ◌≡◌, refl, Bool, true, false, some, List, [], ◌∷◌, ◌++◌, arith, if◌then◌else◌,
  length, All,
}
use netpool.TimeJob.{
  TimeJob, update_expired_time, is_expired, is_self, find_time_jobs, del_found, del_time_job, kept,
  doit, walk, time_job_walk,
}
use netpool.TimeJob.Walk.{Waits, left_of, calls, Later, time_job_walk-fires}
use netpool.TimeJob.Remove.{Removes, del_time_job-Removes}

-- A job that comes once, and has expired at 8; one that comes every 10; and one that waits.
abbrev once_job : TimeJob
once_job = record {
  job_func = 100;
  param1 = 1;
  param2 = 0;
  param3 = 0;
  param4 = 0;
  time_value = 5;
  is_once = true;
  expire_time = 5;
}

abbrev periodic_job : TimeJob
periodic_job = record {
  job_func = 100;
  param1 = 2;
  param2 = 0;
  param3 = 0;
  param4 = 0;
  time_value = 10;
  is_once = false;
  expire_time = 8;
}

abbrev waiting_job : TimeJob
waiting_job = record {
  job_func = 200;
  param1 = 1;
  param2 = 0;
  param3 = 0;
  param4 = 0;
  time_value = 10;
  is_once = false;
  expire_time = 9;
}

abbrev jobs : List TimeJob
jobs = once_job ∷ periodic_job ∷ waiting_job ∷ []

-- Each callback is counted; the one of a job that comes once adds the job that waits.
abbrev counting : TimeJob → ℕ → List TimeJob × ℕ
counting j n = (if j.is_once then waiting_job ∷ [] else [], suc n)

counting-Later : Later counting 8
unfolding is_expired
counting-Later = λ j n. if_waits j.is_once
  where
    if_waits : (b : Bool) → All (Waits 8) (if b then waiting_job ∷ [] else [])
    if_waits true = (refl, tt)
    if_waits false = tt

few_added : length jobs + length (calls counting 8 jobs 0).0 < 5
unfolding doit is_expired update_expired_time
few_added = omega arith

walk_run :
    time_job_walk counting 5 8 jobs 0
    ≡ some (record periodic_job { expire_time = 18 } ∷ waiting_job ∷ waiting_job ∷ [], 2)
unfolding time_job_walk walk kept doit is_expired update_expired_time
walk_run = refl

del_run : del_time_job 100 2 jobs ≡ (true, once_job ∷ waiting_job ∷ [])
unfolding del_time_job del_found find_time_jobs is_self
del_run = refl

time_job_walk-fires_example :
    let (added, s') = calls counting 8 jobs 0 in
    time_job_walk counting 5 8 jobs 0 ≡ some (left_of 8 jobs ++ added, s')
time_job_walk-fires_example = time_job_walk-fires counting 8 5 jobs 0 counting-Later few_added

del_time_job-Removes_example : Removes 100 2 jobs (del_time_job 100 2 jobs)
del_time_job-Removes_example = del_time_job-Removes 100 2 jobs
