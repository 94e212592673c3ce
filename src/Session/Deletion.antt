-- ===== src/Session/Deletion.antt =====
-- What del_read_job() and del_write_job() of netpool/src/CNetPoll.cpp do to the job that they find, whatever
-- epoll_ctl answers.
use netpool.Base.{
  ℕ, ◌≡◌, refl, Bool, true, false, Option, none, some, List, ◌∷◌, ◌++◌, if◌then◌else◌, get_elem?,
  Bool-cases, inl, inr,
}
use netpool.NetPoll.{IoJob, NetPoll, CtlOp, ctl_del, ctl_mod, in_et, out_et, find_io_job}
use netpool.NetPoll.Ops.{
  after_ctl, ctl, del_read_from, del_write_from, del_read_job, del_write_job, put_back,
}

-- The job after `del_read_job`, and after `del_write_job`.
abbrev pub without_read : (free_func : ℕ) → IoJob → IoJob
without_read free_func j = record j {
  free_func = free_func;
  event_read = false;
  is_want_delete = if j.event_write then j.is_want_delete else true;
}

abbrev pub without_write : (free_func : ℕ) → IoJob → IoJob
without_write free_func j = record j {
  free_func = free_func;
  event_write = false;
  is_want_delete = if j.event_read then j.is_want_delete else true;
}

module _ {E : Type 0} (epoll_ctl : CtlOp → Option ℕ → (fd : ℕ) → E → Bool × E) (p : NetPoll) where
  -- The thread of the job has a place in m_epfd, which may hold -1.
  abbrev pub InRange : IoJob → Type 0
  InRange j = (epfd : Option ℕ) × (get_elem? p.epfds j.thrd_index ≡ some epfd)

  after_ctl_same :
      {X : Type 0} (index : ℕ) (op : CtlOp) (fd : ℕ) (e : E) (next : E → X) {epfd : Option ℕ}
      → get_elem? p.epfds index ≡ some epfd
      → (e' : E) × (after_ctl (ctl epoll_ctl p index op fd e) next next ≡ some (next e'))
  unfolding after_ctl ctl
  after_ctl_same index op fd e next {epfd} at = rw (at, ctl) (same (epoll_ctl op epfd fd e))
    where
      same : (r : Bool × E) → (e' : E) × (after_ctl (some r) next next ≡ some (next e'))
      same (true, e) = (e, refl)
      same (false, e) = (e, refl)

  pub del_read_from_lem :
      (free_func : ℕ) (j : IoJob) (e : E)
      → InRange j
      → (e' : E) × (del_read_from epoll_ctl free_func p j e
          ≡ some (true, without_read free_func j, e'))
  unfolding del_read_from
  del_read_from_lem free_func j e (epfd, at) = elim (Bool-cases j.event_write) [
    | inl w ↦ rw w (after_ctl_same j.thrd_index (ctl_mod (out_et j.addr)) j.fd e _ at)
    | inr w ↦ elim (Bool-cases j.event_read) [
      | inl r ↦ rw (w, r) (after_ctl_same j.thrd_index ctl_del j.fd e _ at)
      | inr r ↦ rw (w, r) (e, refl)
    ]
  ]

  pub del_write_from_lem :
      (free_func : ℕ) (j : IoJob) (e : E)
      → InRange j
      → (e' : E) × (del_write_from epoll_ctl free_func p j e
          ≡ some (true, without_write free_func j, e'))
  unfolding del_write_from
  del_write_from_lem free_func j e (epfd, at) = elim (Bool-cases j.event_read) [
    | inl r ↦ rw r (after_ctl_same j.thrd_index (ctl_mod (in_et j.addr)) j.fd e _ at)
    | inr r ↦ elim (Bool-cases j.event_write) [
      | inl w ↦ rw (w, r) (after_ctl_same j.thrd_index ctl_del j.fd e _ at)
      | inr w ↦ rw (w, r) (e, refl)
    ]
  ]

  -- The session with a job put back in its place.
  abbrev pub with_jobs : List IoJob → NetPoll
  with_jobs jobs = record p { io_jobs = jobs }

  pub del_read_job_found :
      (fd free_func : ℕ) (e : E) {before : List IoJob} {j : IoJob} {after : List IoJob}
      → find_io_job fd p.io_jobs ≡ some (before, j, after)
      → InRange j
      → (e' : E) × (del_read_job epoll_ctl fd free_func p e
          ≡ some (true, with_jobs (before ++ without_read free_func j ∷ after), e'))
  unfolding del_read_job put_back
  del_read_job_found fd free_func e {before} {j} {after} found at =
      let (e', run) = del_read_from_lem free_func j e at in (e', rw (found, del_read_job, run) refl)

  pub del_write_job_found :
      (fd free_func : ℕ) (e : E) {before : List IoJob} {j : IoJob} {after : List IoJob}
      → find_io_job fd p.io_jobs ≡ some (before, j, after)
      → InRange j
      → (e' : E) × (del_write_job epoll_ctl fd free_func p e
          ≡ some (true, with_jobs (before ++ without_write free_func j ∷ after), e'))
  unfolding del_write_job put_back
  del_write_job_found fd free_func e {before} {j} {after} found at =
      let (e', run) = del_write_from_lem free_func j e at in
      (e', rw (found, del_write_job, run) refl)

  pub del_write_job-none :
      (fd free_func : ℕ) (e : E)
      → find_io_job fd p.io_jobs ≡ none
      → del_write_job epoll_ctl fd free_func p e ≡ some (true, p, e)
  unfolding del_write_job
  del_write_job-none fd free_func e found = rw (found, del_write_job) refl
