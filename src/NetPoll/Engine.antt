-- ===== src/NetPoll/Engine.antt =====
-- Each whole call of netpool/src/CNetPoll.cpp, as the threads make it, over the list of jobs and the epoll
-- descriptors together.
use netpool.Base.{
  ℕ, ◌≡◌, refl, sym, ap, subst, ◌∙◌, inl, inr, Bool, true, false, ◌||◌, Option, none, some, List,
  [], ◌∷◌, ◌++◌, arith, Option-cases,
}
use netpool.NetPoll.{
  IoJob, NetPoll, Events, CtlOp, ctl_add, in_et, out_et, find_io_job, add_io_job, pick_thrd_index,
  init_recv_buf, set_write_callback, new_job, kind_of, listen_job,
}
use netpool.NetPoll.Ops.{
  unless_failed, put_back, register, add_read_to, add_write_to, del_read_from, del_write_from,
  add_listen_job, add_read_job, del_read_job, add_write_job, del_write_job, write_evt_handle,
}
use netpool.NetPoll.Find.{find_io_job-Stands}
use netpool.NetPoll.Add.{pick_thrd_index_rest}
use netpool.NetPoll.Held.{asked, Keeps, Leaves, Kept, Effect, ctl_effect}
use netpool.NetPoll.Calls.{
  init_recv_buf-Rest, set_write_callback-Rest, add_read_to-Kept, add_write_to-Kept,
  del_read_from-Kept, del_write_from-Kept, write_evt_handle-Kept,
}
use netpool.NetPoll.Result.{
  Has, Has-map, Has-at, Has-append, Alive, Result, Behind, Behind-epfds, Result-same,
  Result-changed,
}

-- If the list has a job with the descriptor that is not to be deleted, the first one is of the thread.
abbrev pub Own : (fd thrd_index : ℕ) → List IoJob → Type 0
Own fd thrd_index jobs =
    (before : List IoJob) (j : IoJob) (after : List IoJob)
    → find_io_job fd jobs ≡ some (before, j, after)
    → thrd_index ≡ j.thrd_index

module _ {E : Type 0} (epoll_ctl : CtlOp → Option ℕ → (fd : ℕ) → E → Bool × E)
    (holds : E → (epfd fd : ℕ) → Option ℕ) (keeps : Keeps epoll_ctl holds) where
  -- What a call that returns leaves.
  abbrev pub Gives : NetPoll → E → Option (Bool × NetPoll × E) → Type 0
  Gives p e none = Unit
  Gives p e (some (done, p', e')) = Result epoll_ctl holds keeps p e p' e'

  put_back-Gives :
      (p : NetPoll) (e : E) (before : List IoJob) (j : IoJob) (after : List IoJob)
      (o : Option (Bool × IoJob × E))
      → p.io_jobs ≡ before ++ j ∷ after
      → Leaves (Kept epoll_ctl holds keeps p j e) o
      → Gives p e (put_back p before after o)
  unfolding put_back
  put_back-Gives p e before j after none at h = tt
  put_back-Gives p e before j after (some (done, j', e')) at h =
      Result-changed epoll_ctl holds keeps p e before j j' after e' at h

  unchanged-Gives : (p : NetPoll) (e : E) → Result epoll_ctl holds keeps p e p e
  unchanged-Gives p e = Result-same epoll_ctl holds keeps p p e e refl refl (λ x y. refl)

  -- A call that looks for a job, and changes the one that it finds.
  found-Gives :
      (fd : ℕ) (p : NetPoll) (e : E) (missing : Option (Bool × NetPoll × E))
      (change : IoJob → Option (Bool × IoJob × E))
      → Gives p e missing
      → ((before : List IoJob) (j : IoJob) (after : List IoJob)
          → find_io_job fd p.io_jobs ≡ some (before, j, after)
          → j.is_want_delete ≡ false
          → Leaves (Kept epoll_ctl holds keeps p j e) (change j))
      → Gives p e (elim (find_io_job fd p.io_jobs) [
        | none ↦ missing
        | some (before, j, after) ↦ put_back p before after (change j)
      ])
  found-Gives fd p e missing change m f = elim (Option-cases (find_io_job fd p.io_jobs)) [
    | inl n ↦ rw n m
    | inr ((before, j, after), found) ↦
        let stands = find_io_job-Stands fd p.io_jobs found in
        rw found (
          put_back-Gives p e before j after (change j) stands.splits
            (f before j after found stands.wanted))
  ]

  -- A job that is put at the end of the list stands behind the entry that it got.
  added-Result :
      (p q : NetPoll) (j : IoJob) (op : CtlOp) (e e' : E)
      → q.io_jobs ≡ p.io_jobs
      → q.epfds ≡ p.epfds
      → asked op ≡ some j.addr
      → j.is_want_delete ≡ false
      → (j.event_read || j.event_write) ≡ true
      → Effect epoll_ctl holds keeps q j.thrd_index op j.fd e e'
      → Result epoll_ctl holds keeps p e (add_io_job j q) e'
  unfolding add_io_job
  added-Result p q j op e e' jobs epfds ask wanted event effect =
      let p' = record q { io_jobs = q.io_jobs ++ j ∷ [] } in
      let B = Behind epoll_ctl holds keeps in
      record {
        epfds = epfds;
        held = λ h x y a now. elim (effect.entries x y) [
          | inl old ↦
              subst (λ js. Has (B p' x y a) (js ++ j ∷ [])) (sym jobs)
                (Has-append (B p' x y a) p.io_jobs (j ∷ []) (
                  Has-map (B p x y a) (B p' x y a) p.io_jobs
                    (λ k b. Behind-epfds epoll_ctl holds keeps p p' x y a k epfds b)
                    (h x y a (sym old ∙ now))))
          | inr (at, ey, new) ↦
              Has-at (B p' x y a) q.io_jobs j []
                (record { addr = cc; fd = sym ey; epfd = at; wanted = wanted; event = event })
        ];
        alive = λ i a h.
            subst (λ js. Alive i a (js ++ j ∷ [])) (sym jobs) (Has-append _ p.io_jobs (j ∷ []) h);
      }

  register-Gives :
      (p q : NetPoll) (j : IoJob) (ev : Events) (e : E)
      → q.io_jobs ≡ p.io_jobs
      → q.epfds ≡ p.epfds
      → ev.ptr ≡ j.addr
      → j.is_want_delete ≡ false
      → (j.event_read || j.event_write) ≡ true
      → Gives p e (register epoll_ctl q j ev e)
  unfolding register
  register-Gives p q j ev e jobs epfds ptr wanted event =
      ctl_effect epoll_ctl holds keeps q (Gives p e) j.thrd_index (ctl_add ev) j.fd e _ _ tt
        (λ e' h.
          added-Result p q j (ctl_add ev) e e' jobs epfds (ap (λ a. some a) ptr) wanted event h)
        (λ e' h u. Result-same epoll_ctl holds keeps p q e e' jobs epfds u)

  unless_failed-Gives :
      (p : NetPoll) (e : E) (o : Option (Bool × NetPoll × E))
      → Gives p e o
      → Gives p e (unless_failed o)
  unfolding unless_failed
  unless_failed-Gives p e none h = tt
  unless_failed-Gives p e (some (true, p', e')) h = h
  unless_failed-Gives p e (some (false, p', e')) h = tt

  pub add_listen_job-Gives :
      (addr io_func fd param1 : ℕ) (p : NetPoll) (e : E)
      → Gives p e (add_listen_job epoll_ctl addr io_func fd param1 p e)
  unfolding add_listen_job new_job
  add_listen_job-Gives addr io_func fd param1 p e = elim (Option-cases (find_io_job fd p.io_jobs)) [
    | inl n ↦
        rw (n, add_listen_job)
          (unless_failed-Gives p e _ (
            register-Gives p p
              (record (new_job addr listen_job fd param1) {
                read_func = io_func;
                event_read = true;
                thrd_index = 0;
              })
              (in_et addr) e refl refl refl refl refl))
    | inr (found, at) ↦ rw (at, add_listen_job) (unchanged-Gives p e)
  ]

  pub del_read_job-Gives :
      (fd free_func : ℕ) (p : NetPoll) (e : E) → Gives p e (del_read_job epoll_ctl fd free_func p e)
  unfolding del_read_job
  del_read_job-Gives fd free_func p e =
      found-Gives fd p e (some (false, p, e)) (λ j. del_read_from epoll_ctl free_func p j e)
        (unchanged-Gives p e)
        (λ before j after found wanted.
          del_read_from-Kept epoll_ctl holds keeps p j e free_func wanted)

  pub del_write_job-Gives :
      (fd free_func : ℕ) (p : NetPoll) (e : E)
      → Gives p e (del_write_job epoll_ctl fd free_func p e)
  unfolding del_write_job
  del_write_job-Gives fd free_func p e =
      found-Gives fd p e (some (true, p, e)) (λ j. del_write_from epoll_ctl free_func p j e)
        (unchanged-Gives p e)
        (λ before j after found wanted.
          del_write_from-Kept epoll_ctl holds keeps p j e free_func wanted)

  pub add_read_job-Gives :
      (addr io_func fd param1 thrd_index buffer_size : ℕ) (is_tcp : Bool) (p : NetPoll) (e : E)
      → Own fd thrd_index p.io_jobs
      → Gives p e (add_read_job epoll_ctl addr io_func fd param1 thrd_index buffer_size is_tcp p e)
  unfolding add_read_job new_job
  add_read_job-Gives addr io_func fd param1 thrd_index buffer_size is_tcp p e own =
      let (index, q) = pick_thrd_index thrd_index p in
      let (jobs, epfds) = pick_thrd_index_rest epoll_ctl thrd_index p in
      let j = record (new_job addr (kind_of is_tcp) fd param1) {
        read_func = io_func;
        event_read = true;
        thrd_index = index;
      } in
      let (at, _, _, want, reads, _) = init_recv_buf-Rest j buffer_size in
      found-Gives fd p e (register epoll_ctl q (init_recv_buf j buffer_size) (in_et addr) e)
        (λ j. add_read_to epoll_ctl io_func thrd_index buffer_size p j e)
        (register-Gives p q (init_recv_buf j buffer_size) (in_et addr) e jobs epfds (sym at) want
          (ground (arith, reads)))
        (λ before j after found wanted.
          add_read_to-Kept epoll_ctl holds keeps p j e io_func thrd_index buffer_size wanted
            (own before j after found))

  pub add_write_job-Gives :
      (addr io_func fd param1 thrd_index : ℕ) (is_tcp : Bool) (p : NetPoll) (e : E)
      → Own fd thrd_index p.io_jobs
      → Gives p e (add_write_job epoll_ctl addr io_func fd param1 thrd_index is_tcp p e)
  unfolding add_write_job new_job
  add_write_job-Gives addr io_func fd param1 thrd_index is_tcp p e own =
      let (index, q) = pick_thrd_index thrd_index p in
      let (jobs, epfds) = pick_thrd_index_rest epoll_ctl thrd_index p in
      let j = record (new_job addr (kind_of is_tcp) fd param1) {
        event_write = true;
        thrd_index = index;
      } in
      let (at, _, _, want, _, writes) = set_write_callback-Rest j io_func in
      found-Gives fd p e (register epoll_ctl q (set_write_callback j io_func) (out_et addr) e)
        (λ j. add_write_to epoll_ctl io_func thrd_index p j e)
        (register-Gives p q (set_write_callback j io_func) (out_et addr) e jobs epfds (sym at) want
          (ground (arith, writes)))
        (λ before j after found wanted.
          add_write_to-Kept epoll_ctl holds keeps p j e io_func thrd_index wanted
            (own before j after found))

  -- A write event of a job of the list.
  pub write_evt_handle-Gives :
      (p : NetPoll) (e : E) (before : List IoJob) (j : IoJob) (after : List IoJob)
      → p.io_jobs ≡ before ++ j ∷ after
      → Gives p e (put_back p before after (write_evt_handle epoll_ctl p j e))
  write_evt_handle-Gives p e before j after at =
      put_back-Gives p e before j after (write_evt_handle epoll_ctl p j e) at
        (write_evt_handle-Kept epoll_ctl holds keeps p j e)
