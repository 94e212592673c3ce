-- ===== src/Session/Free.antt =====
-- What `free` of netpool/outclass/CNetRecv.cpp does to the job of the connection in the list of
-- netpool/src/CJobIoMgr.cpp.
use netpool.Base.{
  ℕ, ◌≡◌, refl, sym, ap, subst, ◌∙◌, Bool, true, false, ◌||◌, Option, some, List, ◌∷◌, ◌++◌, arith,
  ◌==◌, Bool-cases, inl, inr, if_cases,
}
use netpool.NetPoll.{IoJob, CtlOp, find_io_job}
use netpool.NetPoll.Find.{Stands, find_io_job-append}
use netpool.Session.{Session, free_callback, after_np, and_then, unregister_read, free_write, free}
use netpool.Session.Deletion.{without_read, without_write, InRange, del_read_job_found}
use netpool.Session.Calls.{Registered, Untouched, Leads, Missing, free_write_none, free_write_found}

module _ {E : Type 0} (epoll_ctl : CtlOp → Option ℕ → (fd : ℕ) → E → Bool × E) where
  -- The job of the connection after `free`: it stands where it stood, it is to be deleted by the thread that it
  -- had, and _free_callback() will be called for it.
  pub record Condemned (before : List IoJob) (j : IoJob) (after : List IoJob) (s' : Session E)
      : Type 0 where
    pub job : IoJob
    pub at : s'.poll.io_jobs ≡ before ++ job ∷ after
    pub is_same : (job.addr ≡ j.addr) × (job.fd ≡ j.fd) × (job.thrd_index ≡ j.thrd_index)
    pub is_marked : job.is_want_delete ≡ true
    pub will_free : job.free_func ≡ free_callback

  -- `free` has been called, and another call would change neither the jobs nor the kernel.
  abbrev pub Freed : (before : List IoJob) → IoJob → (after : List IoJob) → Session E → Type 0
  Freed before j after s' =
      Condemned before j after s' × Leads epoll_ctl (Untouched epoll_ctl s') (free epoll_ctl s')

  abbrev closing : Session E → Session E
  closing s = record s { conn = record s.conn { is_freed = true } }

  free_cases :
      (P : Option (Session E) → Type 0) (s : Session E)
      → (s.conn.is_register_read ≡ true
          → P (and_then (unregister_read epoll_ctl (closing s)) (free_write epoll_ctl)))
      → (s.conn.is_register_read ≡ false → P (free_write epoll_ctl (closing s)))
      → P (free epoll_ctl s)
  unfolding free and_then
  free_cases P s read unread =
      if_cases (λ o. P (and_then o (free_write epoll_ctl))) s.conn.is_register_read read unread

  -- With a job that is to be deleted, and no registration to read, `free` does nothing.
  free_again :
      (s : Session E)
      → s.conn.is_register_read ≡ false
      → Missing epoll_ctl s
      → Leads epoll_ctl (Untouched epoll_ctl s) (free epoll_ctl s)
  free_again s unread h =
      free_cases (Leads epoll_ctl (Untouched epoll_ctl s)) s (λ r. absurd (ground arith))
        (λ r. free_write_none epoll_ctl (closing s) h)

  module _ (s : Session E) (before : List IoJob) (j : IoJob) (after : List IoJob)
      (stands : Stands s.conn.fd s.poll.io_jobs before j after) where
    abbrev pub IsFreed : Session E → Type 0
    IsFreed = Freed before j after

    -- A job in this place that is to be deleted hides those behind it.
    missing :
        (t : Session E) (k : IoJob)
        → t.poll.io_jobs ≡ before ++ k ∷ after
        → t.conn.fd ≡ s.conn.fd
        → k.fd ≡ j.fd
        → k.is_want_delete ≡ true
        → Missing epoll_ctl t
    missing t k at fd same gone =
        let hit : (k.fd == s.conn.fd) ≡ true =
          subst (λ n. (n == s.conn.fd) ≡ true) (sym same) stands.hit in
        rw (at, fd, find_io_job-append s.conn.fd before k after stands.passed hit, gone) refl

    is_freed :
        (t : Session E) (k : IoJob)
        → t.poll.io_jobs ≡ before ++ k ∷ after
        → t.conn.fd ≡ s.conn.fd
        → t.conn.is_register_read ≡ false
        → (k.addr ≡ j.addr) × (k.fd ≡ j.fd) × (k.thrd_index ≡ j.thrd_index)
        → k.is_want_delete ≡ true
        → k.free_func ≡ free_callback
        → IsFreed t
    is_freed t k at fd unread same gone frees = (
      record { job = k; at = at; is_same = same; is_marked = gone; will_free = frees },
      free_again t unread (missing t k at fd same.1 gone),
    )

    -- The job is marked already when the write event is unregistered.
    free_write_marked :
        (t : Session E) (k : IoJob)
        → t.poll.io_jobs ≡ before ++ k ∷ after
        → t.conn.fd ≡ s.conn.fd
        → t.conn.is_register_read ≡ false
        → (k.addr ≡ j.addr) × (k.fd ≡ j.fd) × (k.thrd_index ≡ j.thrd_index)
        → k.is_want_delete ≡ true
        → k.free_func ≡ free_callback
        → Leads epoll_ctl IsFreed (free_write epoll_ctl t)
    free_write_marked t k at fd unread same gone frees =
        let (t', run, (poll, kernel, fd', unread')) =
          free_write_none epoll_ctl t (missing t k at fd same.1 gone) in
        (
          t',
          run,
          is_freed t' k (ap (λ p. p.io_jobs) poll ∙ at) (fd' ∙ fd) (unread' ∙ unread) same gone
              frees,
        )

    -- The job is marked when the write event is unregistered.
    free_write_marks :
        (t : Session E) (k : IoJob)
        → t.poll.io_jobs ≡ before ++ k ∷ after
        → t.poll.epfds ≡ s.poll.epfds
        → t.conn.fd ≡ s.conn.fd
        → t.conn.is_register_read ≡ false
        → (k.addr ≡ j.addr) × (k.fd ≡ j.fd) × (k.thrd_index ≡ j.thrd_index)
        → InRange epoll_ctl s.poll j
        → k.is_want_delete ≡ false
        → k.event_read ≡ false
        → (t.conn.is_register_write || t.conn.is_register_connect) ≡ true
        → Leads epoll_ctl IsFreed (free_write epoll_ctl t)
    free_write_marks t k at epfds fd unread same (epfd, range) stays deaf flag =
        let hit : (k.fd == s.conn.fd) ≡ true =
          subst (λ n. (n == s.conn.fd) ≡ true) (sym same.1) stands.hit in
        let found : find_io_job t.conn.fd t.poll.io_jobs ≡ some (before, k, after) =
          rw (at, fd, find_io_job-append s.conn.fd before k after stands.passed hit, stays) refl in
        let (t', run, (jobs, fd', unread')) =
          free_write_found epoll_ctl t found (epfd, rw (epfds, same.2) range) flag in
        (
          t',
          run,
          is_freed t' (without_write free_callback k) jobs (fd' ∙ fd) (unread' ∙ unread) same
              (rw deaf refl) refl,
        )

    -- `unregister_read` on the job of the connection.
    abbrev unread_session : E → Session E
    unread_session e' = record s {
      poll = record s.poll { io_jobs = before ++ without_read free_callback j ∷ after };
      kernel = e';
      conn = record s.conn { is_freed = true; is_register_read = false };
    }

    unregister_read_found :
        InRange epoll_ctl s.poll j
        → (e' : E) × (unregister_read epoll_ctl (closing s) ≡ some (unread_session e'))
    unfolding unregister_read after_np
    unregister_read_found range =
        let found : find_io_job s.conn.fd s.poll.io_jobs ≡ some (before, j, after) =
          rw
            (
              stands.splits,
              find_io_job-append s.conn.fd before j after stands.passed stands.hit,
              stands.wanted,
            )
            refl in
        let (e', run) =
          del_read_job_found epoll_ctl s.poll s.conn.fd free_callback s.kernel found range in
        (e', rw run refl)

    -- If the first job with the descriptor of the connection is not marked for deletion, has no event but those
    -- that the connection has registered, at least one, and its thread has a place in m_epfd, then
    -- `free` returns, whatever epoll_ctl answers; after it the job is marked for deletion in the thread that
    -- it had, with _free_callback() as its callback, and the other jobs are as they were. A second call
    -- returns too, and changes neither the jobs nor the kernel.
    pub free-Condemns :
        InRange epoll_ctl s.poll j
        → Registered s.conn j
        → Leads epoll_ctl IsFreed (free epoll_ctl s)
    unfolding and_then
    free-Condemns range registered =
        free_cases (Leads epoll_ctl IsFreed) s
          (λ r.
            let (e', run) = unregister_read_found range in
            let t = unread_session e' in
            let k = without_read free_callback j in
            subst (λ o. Leads epoll_ctl IsFreed (and_then o (free_write epoll_ctl))) (sym run)
              (elim (Bool-cases j.event_write) [
                | inl w ↦
                    free_write_marks t k refl refl refl refl (refl, refl, refl) range
                      (rw w stands.wanted) refl (registered.writes w)
                | inr w ↦ free_write_marked t k refl refl refl (refl, refl, refl) (rw w refl) refl
              ]))
          (λ r.
            free_write_marks (closing s) j stands.splits refl refl r (refl, refl, refl) range
              stands.wanted (not_reading r) (ground (arith, registered.registers, r)))
      where
        not_reading : s.conn.is_register_read ≡ false → j.event_read ≡ false
        not_reading r = elim (Bool-cases j.event_read) [
          | inl e ↦ absurd (ground (arith, registered.reads e, r))
          | inr e ↦ e
        ]
