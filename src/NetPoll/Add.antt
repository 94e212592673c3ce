-- ===== src/NetPoll/Add.antt =====
-- What add_read_job() of netpool/src/CNetPoll.cpp adds for a descriptor that has no job.
use netpool.Base.{
  ℕ, ◌≡◌, refl, sym, ap, subst, ◌∙◌, Bool, true, false, Option, none, some, [], ◌∷◌, ◌++◌, arith,
  ◌==◌, if◌then◌else◌, get_elem?, Option-cases, inl, inr, if_cases, leb,
}
use netpool.NetPoll.{
  IoJob, NetPoll, listen_job, tcp_job, udp_job, CtlOp, ctl_add, Events, find_io_job, add_io_job,
  pick_thrd_index, get_next_thrd_index, init_recv_buf, new_job, kind_of, in_et,
}
use netpool.NetPoll.Ops.{add_read_job, register, after_ctl, ctl}

-- A job that `add_read_job` adds.
pub record Added (fd param1 : ℕ) (p p' : NetPoll) : Type 0 where
  pub job : IoJob
  pub at : p'.io_jobs ≡ p.io_jobs ++ job ∷ []
  pub same_epfds : p'.epfds ≡ p.epfds
  pub has_fd : job.fd ≡ fd
  pub has_param1 : job.param1 ≡ param1
  pub is_wanted : job.is_want_delete ≡ false
  pub reads : job.event_read ≡ true
  pub writes_not : job.event_write ≡ false
  pub epfd : Option ℕ
  pub in_range : get_elem? p.epfds job.thrd_index ≡ some epfd

init_recv_buf_cache :
    (j : IoJob) (n : ℕ) → (c : ℕ) × (init_recv_buf j n ≡ (record j { cache_len = c }))
unfolding init_recv_buf
init_recv_buf_cache j n =
    elim j.kind
      as (λ kind.
        (c : ℕ) × (elim kind [
          | listen_job ↦ j
          | tcp_job ↦ record j { cache_len = if n == 0 then 1500 else n }
          | udp_job ↦ record j { cache_len = if n == 0 then 1500 else n }
        ]
          ≡ (record j { cache_len = c }))) [
            | listen_job ↦ (j.cache_len, refl)
            | tcp_job ↦ (_, refl)
            | udp_job ↦ (_, refl)
          ]

module _ {E : Type 0} (epoll_ctl : CtlOp → Option ℕ → (fd : ℕ) → E → Bool × E) where
  -- The call of epoll_ctl, given what m_epfd holds at the index; and that `register` returns true on its
  -- answer.
  abbrev answer_at : IoJob → Events → E → Option (Option ℕ) → Option (Bool × E)
  answer_at j ev e none = none
  answer_at j ev e (some epfd) = some (epoll_ctl (ctl_add ev) epfd j.fd e)

  abbrev Succeeds : NetPoll → IoJob → NetPoll → E → Option (Bool × E) → Type 0
  Succeeds p j p' e' answer =
      let done : E → Bool × NetPoll × E = λ e'. (true, add_io_job j p, e') in
      let failed : E → Bool × NetPoll × E = λ e'. (false, p, e') in
      after_ctl answer done failed ≡ some (true, p', e')

  ctl-answer_at :
      (p : NetPoll) (j : IoJob) (ev : Events) (e : E)
      → ctl epoll_ctl p j.thrd_index (ctl_add ev) j.fd e
        ≡ answer_at j ev e (get_elem? p.epfds j.thrd_index)
  unfolding ctl
  ctl-answer_at p j ev e = elim (Option-cases (get_elem? p.epfds j.thrd_index)) [
    | inl n ↦ rw (n, ctl) refl
    | inr (epfd, at) ↦ rw (at, ctl) refl
  ]

  answered :
      (p : NetPoll) (j : IoJob) (p' : NetPoll) (e' : E) (r : Bool × E)
      → Succeeds p j p' e' (some r)
      → p' ≡ add_io_job j p
  unfolding after_ctl
  answered p j p' e' (true, e) h = cc
  answered p j p' e' (false, e) h = absurd (ground arith)

  register-adds :
      (p : NetPoll) (j : IoJob) (ev : Events) (e : E) {p' : NetPoll} {e' : E}
      → register epoll_ctl p j ev e ≡ some (true, p', e')
      → (p' ≡ add_io_job j p) × (epfd : Option ℕ) × (get_elem? p.epfds j.thrd_index ≡ some epfd)
  unfolding register after_ctl
  register-adds p j ev e {p'} {e'} run =
      let run' = subst (Succeeds p j p' e') (ctl-answer_at p j ev e) run in
      elim (Option-cases (get_elem? p.epfds j.thrd_index)) [
        | inl n ↦
            absurd (ground (arith, subst (λ o. Succeeds p j p' e' (answer_at j ev e o)) n run'))
        | inr (epfd, at) ↦ (
          answered p j p' e' (epoll_ctl (ctl_add ev) epfd j.fd e)
              (subst (λ o. Succeeds p j p' e' (answer_at j ev e o)) at run'),
          epfd,
          at,
        )
      ]

  pub pick_thrd_index_rest :
      (i : ℕ) (p : NetPoll)
      → let (index, p') = pick_thrd_index i p in (p'.io_jobs ≡ p.io_jobs) × (p'.epfds ≡ p.epfds)
  unfolding pick_thrd_index get_next_thrd_index
  pick_thrd_index_rest i p =
      if_cases (λ (t : ℕ × NetPoll). (t.1.io_jobs ≡ p.io_jobs) × (t.1.epfds ≡ p.epfds))
        (leb p.worker_thrd_cnt i) (λ h. (refl, refl)) (λ h. (refl, refl))

  -- If `add_read_job` finds no job with the descriptor and returns true, it has added one at the end of the
  -- list, which reads and does not write, and whose thread has a place in m_epfd.
  pub add_read_job-adds :
      (addr io_func fd param1 thrd_index buffer_size : ℕ) (is_tcp : Bool) (p : NetPoll) (e : E)
      {p' : NetPoll} {e' : E}
      → find_io_job fd p.io_jobs ≡ none
      → add_read_job epoll_ctl addr io_func fd param1 thrd_index buffer_size is_tcp p e
        ≡ some (true, p', e')
      → Added fd param1 p p'
  unfolding add_read_job add_io_job new_job
  add_read_job-adds addr io_func fd param1 thrd_index buffer_size is_tcp p e {p'} {e'} missing run =
      let (index, q) = pick_thrd_index thrd_index p in
      let j = record (new_job addr (kind_of is_tcp) fd param1) {
        read_func = io_func;
        event_read = true;
        thrd_index = index;
      } in
      let (jobs, epfds) = pick_thrd_index_rest thrd_index p in
      let new : add_read_job epoll_ctl addr io_func fd param1 thrd_index buffer_size is_tcp p e
          ≡ register epoll_ctl q (init_recv_buf j buffer_size) (in_et j.addr) e =
        rw (missing, add_read_job) refl in
      let (cache, same) = init_recv_buf_cache j buffer_size in
      let (added, epfd, range) =
        register-adds q (record j { cache_len = cache }) (in_et j.addr) e
          (subst (λ k. register epoll_ctl q k (in_et j.addr) e ≡ some (true, p', e')) same
            (sym new ∙ run)) in
      record {
        job = record j { cache_len = cache };
        at = ap (λ r. r.io_jobs) added ∙ ap (λ js. js ++ record j { cache_len = cache } ∷ []) jobs;
        same_epfds = ap (λ r. r.epfds) added ∙ epfds;
        has_fd = refl;
        has_param1 = refl;
        is_wanted = refl;
        reads = refl;
        writes_not = refl;
        epfd = epfd;
        in_range = subst (λ es. get_elem? es index ≡ some epfd) epfds range;
      }
