-- ===== src/NetPoll/Find.antt =====
-- What `find_io_job` (netpool/src/CJobIoMgr.cpp) finds.
use netpool.Base.{
  ℕ, ◌≡◌, refl, ap, subst, Bool, true, false, Option, none, some, List, [], ◌∷◌, ◌++◌, ◌==◌,
  if◌then◌else◌, All, if_cases,
}
use netpool.NetPoll.{IoJob, find_io_job}

-- The job is none that a search for the descriptor stops at.
abbrev pub Passes : (fd : ℕ) → IoJob → Type 0
Passes fd j = (j.fd == fd) ≡ false

abbrev then_put :
    IoJob → Option (List IoJob × IoJob × List IoJob) → Option (List IoJob × IoJob × List IoJob)
then_put k none = none
then_put k (some (before, j, after)) = some (k ∷ before, j, after)

-- A search stops at the first job with the descriptor.
pub find_io_job-append :
    (fd : ℕ) (before : List IoJob) (j : IoJob) (after : List IoJob)
    → All (Passes fd) before
    → (j.fd == fd) ≡ true
    → find_io_job fd (before ++ j ∷ after)
      ≡ (if j.is_want_delete then none else some (before, j, after))
unfolding find_io_job
find_io_job-append fd [] j after passes hit = rw hit refl
find_io_job-append fd (b ∷ before) j after (p, ps) hit =
    rw (p, find_io_job-append fd before j after ps hit) (behind j.is_want_delete)
  where
    behind :
        (gone : Bool)
        → then_put b (if gone then none else some (before, j, after))
          ≡ (if gone then none else some (b ∷ before, j, after))
    behind true = refl
    behind false = refl

pub find_io_job-none :
    (fd : ℕ) (jobs : List IoJob) → All (Passes fd) jobs → find_io_job fd jobs ≡ none
unfolding find_io_job
find_io_job-none fd [] passes = refl
find_io_job-none fd (j ∷ js) (p, ps) = rw (p, find_io_job-none fd js ps) refl

-- Where the job that a search has found stands.
pub record Stands (fd : ℕ) (jobs before : List IoJob) (j : IoJob) (after : List IoJob)
    : Type 0 where
  pub passed : All (Passes fd) before
  pub hit : (j.fd == fd) ≡ true
  pub wanted : j.is_want_delete ≡ false
  pub splits : jobs ≡ before ++ j ∷ after

abbrev Sound : (fd : ℕ) → List IoJob → Option (List IoJob × IoJob × List IoJob) → Type 0
Sound fd jobs none = Unit
Sound fd jobs (some (before, j, after)) = Stands fd jobs before j after

Sound-behind :
    (fd : ℕ) (k : IoJob) (js : List IoJob)
    → Passes fd k
    → (o : Option (List IoJob × IoJob × List IoJob)) → Sound fd js o
    → Sound fd (k ∷ js) (then_put k o)
Sound-behind fd k js p none s = tt
Sound-behind fd k js p (some (before, j, after)) s = record {
  passed = (p, s.passed);
  hit = s.hit;
  wanted = s.wanted;
  splits = ap (λ t. k ∷ t) s.splits;
}

find_io_job-Sound : (fd : ℕ) (jobs : List IoJob) → Sound fd jobs (find_io_job fd jobs)
unfolding find_io_job
find_io_job-Sound fd [] = tt
find_io_job-Sound fd (k ∷ js) =
    let P = Sound fd (k ∷ js) in
    let behind : Passes fd k → P _ =
      λ e. Sound-behind fd k js e (find_io_job fd js) (find_io_job-Sound fd js) in
    if_cases P (k.fd == fd)
      (λ e.
        if_cases P k.is_want_delete (λ w. tt)
          (λ w. record { passed = tt; hit = e; wanted = w; splits = refl }))
      behind

-- What is found has the descriptor and is not to be deleted, and no job before it has the descriptor.
pub find_io_job-Stands :
    (fd : ℕ) (jobs : List IoJob) {before : List IoJob} {j : IoJob} {after : List IoJob}
    → find_io_job fd jobs ≡ some (before, j, after)
    → Stands fd jobs before j after
find_io_job-Stands fd jobs h = subst (Sound fd jobs) h (find_io_job-Sound fd jobs)
