-- ===== src/Session/Calls.antt =====
-- What the parts of `free` of netpool/outclass/CNetRecv.cpp do, with and without a job that is to stay.
use netpool.Base.{
  ℕ, ◌≡◌, refl, Bool, true, false, ◌||◌, Option, none, some, List, ◌∷◌, ◌++◌, arith, if_cases,
}
use netpool.NetPoll.{IoJob, CtlOp, find_io_job}
use netpool.Session.{
  Conn, Session, free_callback, after_np, unregister_write, unregister_connect, free_write,
}
use netpool.Session.Deletion.{without_write, InRange, del_write_job_found, del_write_job-none}

-- The events of the job are those that the connection has registered, and it has registered one.
pub record Registered (c : Conn) (j : IoJob) : Type 0 where
  pub reads : j.event_read ≡ true → c.is_register_read ≡ true
  pub writes : j.event_write ≡ true → (c.is_register_write || c.is_register_connect) ≡ true
  pub registers : (c.is_register_read || (c.is_register_write || c.is_register_connect)) ≡ true

module _ {E : Type 0} (epoll_ctl : CtlOp → Option ℕ → (fd : ℕ) → E → Bool × E) where
  -- The same jobs and the same kernel.
  abbrev pub Untouched : Session E → Session E → Type 0
  Untouched s s' =
      (s'.poll ≡ s.poll)
      × (s'.kernel ≡ s.kernel)
      × (s'.conn.fd ≡ s.conn.fd)
      × (s'.conn.is_register_read ≡ s.conn.is_register_read)

  -- A step that is taken, and what holds of the session after it.
  abbrev pub Leads : (Session E → Type 0) → Option (Session E) → Type 0
  Leads P o = (s' : Session E) × (o ≡ some s') × P s'

  abbrev pub Missing : Session E → Type 0
  Missing s = find_io_job s.conn.fd s.poll.io_jobs ≡ none

  pub unregister_write_none :
      (s : Session E) → Missing s → Leads (Untouched s) (unregister_write epoll_ctl s)
  unfolding unregister_write after_np
  unregister_write_none s h = (
    record s { conn = record s.conn { is_register_write = false } },
    rw (del_write_job-none epoll_ctl s.poll s.conn.fd free_callback s.kernel h) refl,
    (refl, refl, refl, refl),
  )

  pub unregister_connect_none :
      (s : Session E) → Missing s → Leads (Untouched s) (unregister_connect epoll_ctl s)
  unfolding unregister_connect after_np
  unregister_connect_none s h = (
    record s { conn = record s.conn { is_register_connect = false } },
    rw (del_write_job-none epoll_ctl s.poll s.conn.fd free_callback s.kernel h) refl,
    (refl, refl, refl, refl),
  )

  -- Without a job that is to stay, `free` has nothing to unregister.
  pub free_write_none : (s : Session E) → Missing s → Leads (Untouched s) (free_write epoll_ctl s)
  unfolding free_write
  free_write_none s h =
      if_cases (Leads (Untouched s)) s.conn.is_register_write (λ w. unregister_write_none s h)
        (λ w.
          if_cases (Leads (Untouched s)) s.conn.is_register_connect
            (λ c. unregister_connect_none s h) (λ c. (s, refl, (refl, refl, refl, refl))))

  -- The jobs are these, and the connection is the same but for its other flags.
  abbrev pub Has : Session E → List IoJob → Session E → Type 0
  Has s jobs s' =
      (s'.poll.io_jobs ≡ jobs)
      × (s'.conn.fd ≡ s.conn.fd)
      × (s'.conn.is_register_read ≡ s.conn.is_register_read)

  module _ (s : Session E) {before : List IoJob} {k : IoJob} {after : List IoJob}
      (found : find_io_job s.conn.fd s.poll.io_jobs ≡ some (before, k, after))
      (range : InRange epoll_ctl s.poll k) where
    abbrev pub Unwritten : Session E → Type 0
    Unwritten = Has s (before ++ without_write free_callback k ∷ after)

    pub unregister_write_found : Leads Unwritten (unregister_write epoll_ctl s)
    unfolding unregister_write after_np
    unregister_write_found =
        let (e', run) =
          del_write_job_found epoll_ctl s.poll s.conn.fd free_callback s.kernel found range in
        (
          record s {
            poll = record s.poll { io_jobs = before ++ without_write free_callback k ∷ after };
            kernel = e';
            conn = record s.conn { is_register_write = false };
          },
          rw run refl,
          (refl, refl, refl),
        )

    pub unregister_connect_found : Leads Unwritten (unregister_connect epoll_ctl s)
    unfolding unregister_connect after_np
    unregister_connect_found =
        let (e', run) =
          del_write_job_found epoll_ctl s.poll s.conn.fd free_callback s.kernel found range in
        (
          record s {
            poll = record s.poll { io_jobs = before ++ without_write free_callback k ∷ after };
            kernel = e';
            conn = record s.conn { is_register_connect = false };
          },
          rw run refl,
          (refl, refl, refl),
        )

    pub free_write_found :
        (s.conn.is_register_write || s.conn.is_register_connect) ≡ true
        → Leads Unwritten (free_write epoll_ctl s)
    unfolding free_write
    free_write_found some_flag =
        if_cases (Leads Unwritten) s.conn.is_register_write (λ w. unregister_write_found)
          (λ w.
            if_cases (Leads Unwritten) s.conn.is_register_connect (λ c. unregister_connect_found)
              (λ c. absurd (ground arith)))
