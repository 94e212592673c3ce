-- ===== src/Session/Sweep.antt =====
-- The life of the job of a connection: registered by `register_read`, given up by `free`
-- (netpool/outclass/CNetRecv.cpp), and taken out of the list by `handle_deling_job`
-- (netpool/src/CJobIoMgr.cpp).
use netpool.Base.{
  ℕ, ◌≡◌, refl, sym, ap, subst, ◌∙◌, Bool, true, false, Option, none, some, List, [], ◌∷◌, ◌++◌,
  arith, ◌==◌, ==_refl, if◌then◌else◌, All, if_cases,
}
use netpool.NetPoll.{IoJob, NetPoll, CtlOp, handle_deling_job}
use netpool.NetPoll.Ops.{add_read_job}
use netpool.NetPoll.Find.{Stands, Passes, find_io_job-none}
use netpool.NetPoll.Add.{add_read_job-adds}
use netpool.NetPoll.Jobs.{condemned, handle_deling_job-append}
use netpool.Session.{Session, no_fd, recv_callback, free_callback, after_np, register_read, free}
use netpool.Session.Deletion.{InRange}
use netpool.Session.Calls.{Registered}
use netpool.Session.Free.{free-Condemns}

module _ {E : Type 0} (epoll_ctl : CtlOp → Option ℕ → (fd : ℕ) → E → Bool × E) where
  -- The sweep of the thread of `j` takes a job with the address of `j` out of the list, whose callback is
  -- _free_callback().
  abbrev pub Swept : IoJob → Session E → Type 0
  Swept j s =
      (job : IoJob) × (first : List IoJob) × (last : List IoJob) × ((handle_deling_job j.thrd_index
          s.poll.io_jobs).1
        ≡ first ++ job ∷ last)
      × (job.addr ≡ j.addr)
      × (job.free_func ≡ free_callback)

  -- If the first job with the descriptor of the connection is not marked for deletion, has no event but those
  -- that the connection has registered, at least one, and its thread has a place in m_epfd, then
  -- `free` returns, and a sweep of that thread then takes a job with the same address out of the list,
  -- whose callback is _free_callback().
  pub free-Swept :
      (s : Session E) (before : List IoJob) (j : IoJob) (after : List IoJob)
      → Stands s.conn.fd s.poll.io_jobs before j after
      → InRange epoll_ctl s.poll j
      → Registered s.conn j
      → (s' : Session E) × (free epoll_ctl s ≡ some s') × Swept j s'
  free-Swept s before j after stands range registered =
      let (s', run, (gone, again)) =
        free-Condemns epoll_ctl s before j after stands range registered in
      let marked : condemned j.thrd_index gone.job ≡ true =
        rw (gone.is_same.2, ==_refl j.thrd_index, gone.is_marked) refl in
      (
        s',
        run,
        (
          gone.job,
          _,
          _,
          ap (λ jobs. (handle_deling_job j.thrd_index jobs).1) gone.at
              ∙ handle_deling_job-append j.thrd_index before gone.job after marked,
          gone.is_same.0,
          gone.will_free,
        ),
      )

  reading : Session E → NetPoll → E → Session E
  reading s p e = record s {
    conn = record s.conn { is_register_read = true };
    poll = p;
    kernel = e;
  }

  -- The answer of np_add_read_job where `register_read` returns 0.
  abbrev AnswersTrue : (s s' : Session E) → Option (Bool × NetPoll × E) → Type 0
  AnswersTrue s s' answer =
      (p : NetPoll) × (e : E) × (answer ≡ some (true, p, e)) × (s' ≡ reading s p e)

  abbrev read_next : Session E → Bool → Session E → Bool × Session E
  read_next s done t =
      (done, if done then record t { conn = record s.conn { is_register_read = true } } else t)

  after_np-true :
      (s s' : Session E) (answer : Option (Bool × NetPoll × E))
      → after_np s answer (read_next s) ≡ some (true, s')
      → AnswersTrue s s' answer
  unfolding after_np reading
  after_np-true s s' none h = absurd (ground arith)
  after_np-true s s' (some (true, p, e)) h = (p, e, refl, cc)
  after_np-true s s' (some (false, p, e)) h = absurd (ground arith)

  register_read-true :
      (addr : ℕ) (s s' : Session E)
      → register_read epoll_ctl addr s ≡ some (true, s')
      → AnswersTrue s s' (
          add_read_job epoll_ctl addr recv_callback s.conn.fd s.conn.self s.conn.thrd_index 0 true
            s.poll s.kernel)
  unfolding register_read
  register_read-true addr s s' run =
      let answer =
        add_read_job epoll_ctl addr recv_callback s.conn.fd s.conn.self s.conn.thrd_index 0 true
          s.poll s.kernel in
      if_cases (λ o. o ≡ some (true, s') → AnswersTrue s s' answer) (s.conn.fd == no_fd)
        (λ h r. absurd (ground arith)) (λ h r. after_np-true s s' answer r) run

  -- The session has a job for its connection behind the jobs that it had.
  abbrev pub HasJob : (before : List IoJob) → Session E → Type 0
  HasJob before s =
      (j : IoJob) × Stands s.conn.fd s.poll.io_jobs before j []
      × InRange epoll_ctl s.poll j
      × Registered s.conn j
      × (j.param1 ≡ s.conn.self)
      × (j.event_read ≡ true)
      × (j.event_write ≡ false)
      × (s.conn.is_register_read ≡ true)

  -- If no job has the descriptor of the connection and `register_read` returns 0, the list has one more job, at
  -- its end, which belongs to the connection and is the one that a search for the descriptor finds; it waits
  -- for reading and not for writing, the connection has noted that it has registered for reading, and
  -- its thread has a place in m_epfd.
  pub register_read-HasJob :
      (addr : ℕ) (s s' : Session E)
      → All (Passes s.conn.fd) s.poll.io_jobs
      → register_read epoll_ctl addr s ≡ some (true, s')
      → HasJob s.poll.io_jobs s'
  unfolding reading
  register_read-HasJob addr s s' passed run =
      let (p, e, answer, same) = register_read-true addr s s' run in
      let added =
        add_read_job-adds epoll_ctl addr recv_callback s.conn.fd s.conn.self s.conn.thrd_index 0
          true s.poll s.kernel (find_io_job-none s.conn.fd s.poll.io_jobs passed) answer in
      subst (HasJob s.poll.io_jobs) (sym same) (
        added.job,
        record {
          passed = passed;
          hit = rw (added.has_fd, ==_refl s.conn.fd) refl;
          wanted = added.is_wanted;
          splits = added.at;
        },
        (added.epfd, rw (added.same_epfds, added.in_range) refl),
        record {
          reads = λ r. refl;
          writes = λ w. absurd (ground (arith, w, added.writes_not));
          registers = refl;
        },
        added.has_param1,
        added.reads,
        added.writes_not,
        refl,
      )
