-- ===== src/NetPoll/Sync.antt =====
-- The interest that epoll has in the descriptor of a job, and the event flags of the job
-- (netpool/src/CNetPoll.cpp), under the documented behaviour of epoll_ctl.
use netpool.Base.{
  ℕ, ◌≡◌, ◌⊎◌, inl, inr, refl, sym, ◌∙◌, subst, Bool, true, false, not, Option, none, some, arith,
  get_elem?, if_cases,
}
use netpool.NetPoll.{
  IoJob, NetPoll, Events, CtlOp, ctl_add, ctl_mod, ctl_del, in_et, out_only, in_out_et,
  init_recv_buf, set_write_callback,
}
use netpool.NetPoll.Ops.{after_ctl, ctl, add_read_to, add_write_to}

-- What epoll_ctl(2) says of the descriptors that it takes: whether EPOLLIN and EPOLLOUT are asked for, and
-- that a call that fails changes nothing.
pub record Obeys {E : Type 0} (epoll_ctl : CtlOp → Option ℕ → (fd : ℕ) → E → Bool × E)
    (interest : E → (epfd fd : ℕ) → Bool × Bool) : Type 0 where
  pub added :
      (events : Events) (epfd fd : ℕ) (e : E)
      → (epoll_ctl (ctl_add events) (some epfd) fd e).0 ≡ true
      → interest (epoll_ctl (ctl_add events) (some epfd) fd e).1 epfd fd
        ≡ (events.epollin, events.epollout)
  pub modified :
      (events : Events) (epfd fd : ℕ) (e : E)
      → (epoll_ctl (ctl_mod events) (some epfd) fd e).0 ≡ true
      → interest (epoll_ctl (ctl_mod events) (some epfd) fd e).1 epfd fd
        ≡ (events.epollin, events.epollout)
  pub deleted :
      (epfd fd : ℕ) (e : E)
      → (epoll_ctl ctl_del (some epfd) fd e).0 ≡ true
      → interest (epoll_ctl ctl_del (some epfd) fd e).1 epfd fd ≡ (false, false)
  pub failed :
      (op : CtlOp) (epfd fd : ℕ) (e : E)
      → (epoll_ctl op (some epfd) fd e).0 ≡ false
      → interest (epoll_ctl op (some epfd) fd e).1 epfd fd ≡ interest e epfd fd

-- The operation returns, and what it returns is as the predicate says.
abbrev pub Returns : {E : Type 0} → (Bool → IoJob → E → Type 0) → Option (Bool × IoJob × E) → Type 0
Returns Q none = true ≡ false
Returns Q (some (done, j, e)) = Q done j e

after_ctl_cases :
    {E X : Type 0} (P : Option X → Type 0) (r : Bool × E) (ok bad : E → X)
    → (r.0 ≡ true → P (some (ok r.1)))
    → (r.0 ≡ false → P (some (bad r.1)))
    → P (after_ctl (some r) ok bad)
unfolding after_ctl
after_ctl_cases P (true, e) ok bad good wrong = good refl
after_ctl_cases P (false, e) ok bad good wrong = wrong refl

-- What init_recv_buf() leaves alone.
init_recv_buf_rest :
    (j : IoJob) (n : ℕ)
    → let j' = init_recv_buf j n in
      (j'.thrd_index ≡ j.thrd_index)
      × (j'.fd ≡ j.fd)
      × (j'.event_read ≡ j.event_read)
      × (j'.event_write ≡ j.event_write)
unfolding init_recv_buf
init_recv_buf_rest j n = ground arith

set_write_callback_rest :
    (j : IoJob) (f : ℕ)
    → let j' = set_write_callback j f in
      (j'.thrd_index ≡ j.thrd_index)
      × (j'.fd ≡ j.fd)
      × (j'.event_read ≡ j.event_read)
      × (j'.event_write ≡ j.event_write)
unfolding set_write_callback
set_write_callback_rest j f = ground arith

module _ {E : Type 0} (epoll_ctl : CtlOp → Option ℕ → (fd : ℕ) → E → Bool × E)
    (interest : E → (epfd fd : ℕ) → Bool × Bool) (obeys : Obeys epoll_ctl interest) (p : NetPoll)
    (epfd : ℕ) where
  -- The events that epoll waits for are the flags of the job, in the thread of the job.
  abbrev pub InSync : IoJob → E → Type 0
  InSync j e =
      (get_elem? p.epfds j.thrd_index ≡ some (some epfd))
      × (interest e epfd j.fd ≡ (j.event_read, j.event_write))

  ctl_run :
      (index : ℕ) (op : CtlOp) (fd : ℕ) (e : E)
      → get_elem? p.epfds index ≡ some (some epfd)
      → ctl epoll_ctl p index op fd e ≡ some (epoll_ctl op (some epfd) fd e)
  unfolding ctl
  ctl_run index op fd e at = rw (at, ctl) refl

  pub ctl_cases :
      {X : Type 0} (P : Option X → Type 0) (index : ℕ) (op : CtlOp) (fd : ℕ) (e : E)
      (ok bad : E → X)
      → get_elem? p.epfds index ≡ some (some epfd)
      → ((epoll_ctl op (some epfd) fd e).0 ≡ true → P (some (ok (epoll_ctl op (some epfd) fd e).1)))
      → ((epoll_ctl op (some epfd) fd e).0 ≡ false
          → P (some (bad (epoll_ctl op (some epfd) fd e).1)))
      → P (after_ctl (ctl epoll_ctl p index op fd e) ok bad)
  ctl_cases P index op fd e ok bad at good wrong =
      subst (λ c. P (after_ctl c ok bad)) (sym (ctl_run index op fd e at))
        (after_ctl_cases P (epoll_ctl op (some epfd) fd e) ok bad good wrong)

  -- On a job whose flags are what epoll waits for, and with the index of the job's own thread,
  -- `add_read_job` returns and keeps them so, whether epoll_ctl succeeds or not; if it returns true, the
  -- read flag is set, and if false, the job is unchanged.
  pub add_read_to-InSync :
      (io_func thrd_index buffer_size : ℕ) (j : IoJob) (e : E)
      → InSync j e
      → thrd_index ≡ j.thrd_index
      → Returns
          (λ done j' e'.
            InSync j' e'
            × (((done ≡ true) × (j'.event_read ≡ true) × (j'.event_write ≡ j.event_write))
                ⊎ ((done ≡ false) × (j' ≡ j))))
          (add_read_to epoll_ctl io_func thrd_index buffer_size p j e)
  unfolding add_read_to
  add_read_to-InSync io_func thrd_index buffer_size j e (at, now) own =
      let P = Returns (λ done j' e'.
        InSync j' e'
        × (((done ≡ true) × (j'.event_read ≡ true) × (j'.event_write ≡ j.event_write))
            ⊎ ((done ≡ false) × (j' ≡ j)))) in
      let (index, fd, reads, writes) =
        init_recv_buf_rest (record j { read_func = io_func; event_read = true }) buffer_size in
      if_cases P j.event_write
        (λ w.
          ctl_cases P j.thrd_index (ctl_mod (in_out_et j.addr)) j.fd e _ _ at
            (λ h. (
              (cc, cc (obeys.modified (in_out_et j.addr) epfd j.fd e h)),
              inl (refl, reads, writes),
            ))
            (λ h. (
              (at, obeys.failed (ctl_mod (in_out_et j.addr)) epfd j.fd e h ∙ now),
              inr (refl, refl),
            )))
        (λ w.
          if_cases P (not j.event_read)
            (λ r.
              ctl_cases P thrd_index (ctl_add (in_et j.addr)) j.fd e _ _ (cc)
                (λ h.
                  ((cc, cc (obeys.added (in_et j.addr) epfd j.fd e h)), inl (refl, reads, writes)))
                (λ h. (
                  (at, obeys.failed (ctl_add (in_et j.addr)) epfd j.fd e h ∙ now),
                  inr (refl, refl),
                )))
            (λ r. ((cc, ground arith), inl (refl, reads, writes))))

  -- What add_write_job() leaves of a job.
  abbrev pub WriteAdded : IoJob → E → Bool → IoJob → E → Type 0
  WriteAdded j e done j' e' =
      (j'.event_write ≡ true)
      × (j'.event_read ≡ j.event_read)
      × (((done ≡ true) × InSync j' e')
          ⊎ ((done ≡ false) × (interest e' epfd j.fd ≡ (j.event_read, false))))

  -- On a job whose flags are what epoll waits for, and with the index of the job's own thread,
  -- `add_write_job` returns, and the write flag of the job is set in any case. If it returns true, the flags
  -- are what epoll waits for; if false, epoll does not wait for the socket to take bytes.
  pub add_write_to-flags :
      (io_func thrd_index : ℕ) (j : IoJob) (e : E)
      → InSync j e
      → thrd_index ≡ j.thrd_index
      → Returns (WriteAdded j e) (add_write_to epoll_ctl io_func thrd_index p j e)
  unfolding add_write_to
  add_write_to-flags io_func thrd_index j e (at, now) own =
      let P = Returns (WriteAdded j e) in
      let (index, fd, reads, writes) = set_write_callback_rest j io_func in
      if_cases P j.event_write (λ w. (writes ∙ w, reads, inl (refl, (cc, cc))))
        (λ w.
          if_cases P j.event_read
            (λ r.
              ctl_cases P j.thrd_index (ctl_mod (in_out_et j.addr)) j.fd e _ _ at
                (λ h. (
                  refl,
                  reads,
                  inl (refl, (cc, cc (obeys.modified (in_out_et j.addr) epfd j.fd e h))),
                ))
                (λ h. (
                  refl,
                  reads,
                  inr (refl, cc (obeys.failed (ctl_mod (in_out_et j.addr)) epfd j.fd e h)),
                )))
            (λ r.
              ctl_cases P thrd_index (ctl_add (out_only j.addr)) j.fd e _ _ (cc)
                (λ h.
                  (refl, reads, inl (refl, (cc, cc (obeys.added (out_only j.addr) epfd j.fd e h)))))
                (λ h. (
                  refl,
                  reads,
                  inr (refl, cc (obeys.failed (ctl_add (out_only j.addr)) epfd j.fd e h)),
                ))))

  -- Where `add_write_job` has returned false for a job that was in step with epoll, the next call for the
  -- job returns true and makes no call of epoll_ctl, while epoll does not wait for the socket to take
  -- bytes.
  pub add_write_to-stuck :
      (io_func thrd_index : ℕ) (j : IoJob) (e : E) {j' : IoJob} {e' : E}
      → InSync j e
      → thrd_index ≡ j.thrd_index
      → add_write_to epoll_ctl io_func thrd_index p j e ≡ some (false, j', e')
      → (add_write_to epoll_ctl io_func thrd_index p j' e'
          ≡ some (true, set_write_callback j' io_func, e'))
        × (interest e' epfd j.fd ≡ (j.event_read, false))
  unfolding add_write_to
  add_write_to-stuck io_func thrd_index j e {j'} {e'} sync own run =
      let flags =
        subst (Returns (WriteAdded j e)) run (add_write_to-flags io_func thrd_index j e sync own) in
      let (set, reads, ends) = flags in
      (
        again io_func thrd_index j' e' set,
        elim ends [ inl (done, _) ↦ cc | inr (_, unseen) ↦ unseen ],
      )
    where
      again :
          (f i : ℕ) (k : IoJob) (e : E)
          → k.event_write ≡ true
          → add_write_to epoll_ctl f i p k e ≡ some (true, set_write_callback k f, e)
      again f i k e w = rw w refl
