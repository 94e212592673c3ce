-- ===== src/NetPoll/Jobs.antt =====
-- The list of jobs of netpool/src/CJobIoMgr.cpp: which jobs `handle_deling_job` takes out of it.
use netpool.Base.{
  ℕ, ◌≡◌, refl, ap, inl, inr, Bool, true, false, ◌&&◌, List, [], ◌∷◌, ◌++◌, ◌==◌, All, if_cases,
  Bool-cases,
}
use netpool.NetPoll.{IoJob, handle_deling_job}

-- A job that is to be deleted by the thread.
abbrev pub condemned : (thrd_index : ℕ) → IoJob → Bool
condemned thrd_index j = j.thrd_index == thrd_index && j.is_want_delete

-- `whole` is a merge of the other two lists.
pub data Merge {A : Type 0} : List A → List A → List A → Type 0 where
  done : Merge [] [] []
  left : (x : A) {xs ys zs : List A} → Merge xs ys zs → Merge (x ∷ xs) ys (x ∷ zs)
  right : (y : A) {xs ys zs : List A} → Merge xs ys zs → Merge xs (y ∷ ys) (y ∷ zs)

-- `handle_deling_job` splits the list in two, each in its order, so that no job is lost and none is freed
-- twice: the jobs that it frees are those of the thread that have the deleting flag, and no such
-- job stays in the list.
pub handle_deling_job-sweeps :
    (thrd_index : ℕ) (jobs : List IoJob)
    → let (stay, deleted) = handle_deling_job thrd_index jobs in
      Merge stay deleted jobs
      × All (λ j. condemned thrd_index j ≡ false) stay
      × All (λ j. condemned thrd_index j ≡ true) deleted
unfolding handle_deling_job
handle_deling_job-sweeps thrd_index [] = (done, tt, tt)
handle_deling_job-sweeps thrd_index (j ∷ js) =
    let (merge, stays, goes) = handle_deling_job-sweeps thrd_index js in
    if_cases
      (λ (t : List IoJob × List IoJob).
        Merge t.0 t.1 (j ∷ js)
        × All (λ j. condemned thrd_index j ≡ false) t.0
        × All (λ j. condemned thrd_index j ≡ true) t.1)
      (condemned thrd_index j) (λ e. (right j merge, stays, (e, goes)))
      (λ e. (left j merge, (e, stays), goes))

-- What the sweep takes out of a list, it takes out of its parts.
pub handle_deling_job-append :
    (thrd_index : ℕ) (before : List IoJob) (j : IoJob) (after : List IoJob)
    → condemned thrd_index j ≡ true
    → (handle_deling_job thrd_index (before ++ j ∷ after)).1
      ≡ (handle_deling_job thrd_index before).1 ++ j ∷ (handle_deling_job thrd_index after).1
unfolding handle_deling_job
handle_deling_job-append thrd_index [] j after h = rw h refl
handle_deling_job-append thrd_index (b ∷ before) j after h =
    let rest = handle_deling_job-append thrd_index before j after h in
    elim (Bool-cases (condemned thrd_index b)) [
      | inl e ↦ rw e (ap (λ t. b ∷ t) rest)
      | inr e ↦ rw e rest
    ]
