-- ===== src/TimeJob.antt =====
-- The timers of netpool/src/CJobTime.cpp. The list m_time_jobs holds its jobs in order; a pointer to a job
-- is its place in the list, since each job is an allocation of its own. What a callback does is a
-- parameter: it changes a state of the program's own, and may add jobs by add_time_job, which takes no
-- lock. A callback that calls del_time_job waits for the lock for ever and is left out.
pub mod Walk
pub mod Remove
mod Tests
use netpool.Base.{
  ℕ, zero, suc, ◌+◌, ◌-◌, ◌%◌, ◌^◌, Bool, true, false, ◌&&◌, not, Option, none, some, List, [], ◌∷◌,
  ◌++◌, leb, ◌==◌, if◌then◌else◌,
}

-- `CTimeJob`, with the function and its parameters as addresses. Times are unsigned long long.
pub record TimeJob : Type 0 where
  pub job_func : ℕ
  pub param1 : ℕ
  pub param2 : ℕ
  pub param3 : ℕ
  pub param4 : ℕ
  pub time_value : ℕ
  pub is_once : Bool
  pub expire_time : ℕ

-- `update_expired_time`.
pub update_expired_time : TimeJob → (nowtime : ℕ) → TimeJob
update_expired_time j nowtime = record j { expire_time = (nowtime + j.time_value) % 2 ^ 64 }

-- `is_expired`.
pub is_expired : TimeJob → (nowtime : ℕ) → Bool
is_expired j nowtime = leb j.expire_time nowtime

-- `is_self`.
pub is_self : TimeJob → (expire_func param1 : ℕ) → Bool
is_self j expire_func param1 = j.job_func == expire_func && param1 == j.param1

-- The constructor of CTimeJob, at the time that util_get_cur_time() gives.
pub new_time_job :
    (now expire_func param1 param2 param3 param4 time_value : ℕ) (is_once : Bool) → TimeJob
new_time_job now expire_func param1 param2 param3 param4 time_value is_once = record {
  job_func = expire_func;
  param1 = param1;
  param2 = param2;
  param3 = param3;
  param4 = param4;
  time_value = time_value;
  is_once = is_once;
  expire_time = (now + time_value) % 2 ^ 64;
}

-- `add_time_job`: the job goes to the end of the list.
pub add_time_job :
    (now expire_func param1 param2 param3 param4 time_value : ℕ) (is_once : Bool)
    → List TimeJob
    → Bool × List TimeJob
add_time_job now expire_func param1 param2 param3 param4 time_value is_once jobs =
    let job = new_time_job now expire_func param1 param2 param3 param4 time_value is_once in
    (true, jobs ++ job ∷ [])

-- `find_time_jobs`: the jobs before the one it finds, that job, and those behind it.
pub find_time_jobs :
    (expire_func param1 : ℕ) → List TimeJob → Option (List TimeJob × TimeJob × List TimeJob)
find_time_jobs expire_func param1 [] = none
find_time_jobs expire_func param1 (j ∷ js) =
    let rest = find_time_jobs expire_func param1 js in
    if is_self j expire_func param1
    then some ([], j, js)
    else elim rest [ none ↦ none | some (before, k, after) ↦ some (j ∷ before, k, after) ]

-- `del_time_job`, once the search is over.
pub del_found : List TimeJob → Option (List TimeJob × TimeJob × List TimeJob) → Bool × List TimeJob
del_found jobs none = (false, jobs)
del_found jobs (some (before, j, after)) = (true, before ++ after)

-- `del_time_job`.
pub del_time_job : (expire_func param1 : ℕ) → List TimeJob → Bool × List TimeJob
del_time_job expire_func param1 jobs = del_found jobs (find_time_jobs expire_func param1 jobs)

-- What is left in the list of a job that the walk has come by.
pub kept : (nowtime : ℕ) → TimeJob → List TimeJob
kept nowtime j =
    if is_expired j nowtime
    then if j.is_once then [] else update_expired_time j nowtime ∷ []
    else j ∷ []

module _ {S : Type 0} (callback : TimeJob → S → List TimeJob × S) where
  -- What a job does when the walk comes by it: the jobs that its callback adds, and the state.
  pub doit : (nowtime : ℕ) → TimeJob → S → List TimeJob × S
  doit nowtime j s =
      if is_expired j nowtime then callback (update_expired_time j nowtime) s else ([], s)

  -- The loop of `time_job_walk`, with the jobs behind the iterator and those from it on; `none` means that
  -- the fuel has run out. The iterator moves on before the callback, so at the last job it already
  -- stands at the end, and the jobs that are added then are not visited.
  pub walk : ℕ → (nowtime : ℕ) → List TimeJob → List TimeJob → S → Option (List TimeJob × S)
  walk zero nowtime seen jobs s = none
  walk (suc fuel) nowtime seen [] s = some (seen, s)
  walk (suc fuel) nowtime seen (j ∷ []) s =
      let (added, s') = doit nowtime j s in some ((seen ++ kept nowtime j) ++ added, s')
  walk (suc fuel) nowtime seen (j ∷ k ∷ js) s =
      let (added, s') = doit nowtime j s in
      walk fuel nowtime (seen ++ kept nowtime j) (k ∷ js ++ added) s'

  pub time_job_walk : ℕ → (nowtime : ℕ) → List TimeJob → S → Option (List TimeJob × S)
  time_job_walk fuel nowtime jobs s = walk fuel nowtime [] jobs s

  -- `run`; the time since `begin` is an unsigned int.
  pub run :
      ℕ → (thrd_index nowtime latest_expire_time : ℕ) → List TimeJob → S → Option (List TimeJob × S)
  run fuel thrd_index nowtime latest_expire_time jobs s =
      let eclapse_time = (nowtime + 2 ^ 64 - latest_expire_time) % 2 ^ 64 % 2 ^ 32 in
      if not (thrd_index == 0)
      then some (jobs, s)
      else if leb 1 eclapse_time
      then time_job_walk fuel nowtime jobs s
      else some (jobs, s)
