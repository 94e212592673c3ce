-- ===== src/NetPoll/Calls.antt =====
-- Each operation of netpool/src/CNetPoll.cpp on a job that it finds, and the write event of
-- netpool/src/CJobIo.cpp: no entry of an epoll descriptor is left without its job.
use netpool.Base.{
  ℕ, ◌≡◌, refl, subst, ◌∙◌, Bool, true, false, ◌||◌, Option, none, some, arith, if_cases,
  if◌then◌else◌, not,
}
use netpool.NetPoll.{
  IoJob, NetPoll, CtlOp, ctl_add, ctl_mod, ctl_del, in_et, out_et, out_only, in_out_et,
  init_recv_buf, set_write_callback,
}
use netpool.NetPoll.Ops.{
  add_read_to, add_write_to, del_read_from, del_write_from, del_io_writing_evt, write_evt_handle,
}
use netpool.NetPoll.Held.{
  Keeps, Leaves, asked, Kept, Effect, Same, Unchanged, ctl_effect, set-Kept, delete-Kept,
  Unchanged-Kept,
}

-- What init_recv_buf() and set_write_callback() leave alone.
abbrev pub Rest : IoJob → IoJob → Type 0
Rest j j' =
    (j'.addr ≡ j.addr)
    × (j'.fd ≡ j.fd)
    × (j'.thrd_index ≡ j.thrd_index)
    × (j'.is_want_delete ≡ j.is_want_delete)
    × (j'.event_read ≡ j.event_read)
    × (j'.event_write ≡ j.event_write)

pub init_recv_buf-Rest : (j : IoJob) (n : ℕ) → Rest j (init_recv_buf j n)
unfolding init_recv_buf
init_recv_buf-Rest j n = ground arith

pub set_write_callback-Rest : (j : IoJob) (f : ℕ) → Rest j (set_write_callback j f)
unfolding set_write_callback
set_write_callback-Rest j f = ground arith

module _ {E : Type 0} (epoll_ctl : CtlOp → Option ℕ → (fd : ℕ) → E → Bool × E)
    (holds : E → (epfd fd : ℕ) → Option ℕ) (keeps : Keeps epoll_ctl holds) (p : NetPoll) (j : IoJob)
    (e : E) where
  abbrev Good : IoJob → E → Type 0
  Good j' e' = Kept epoll_ctl holds keeps p j e j' e'

  pub del_read_from-Kept :
      (free_func : ℕ)
      → j.is_want_delete ≡ false
      → Leaves Good (del_read_from epoll_ctl free_func p j e)
  unfolding del_read_from
  del_read_from-Kept free_func wanted =
      let P = Leaves Good in
      let call = ctl_effect epoll_ctl holds keeps p P j.thrd_index in
      if_cases P j.event_write
        (λ w.
          let set = λ (e' : E).
            set-Kept epoll_ctl holds keeps p j
              (record j { free_func = free_func; event_read = false }) (ctl_mod (out_et j.addr)) e
              e' (refl, refl, refl) refl wanted (ground (arith, w)) in
          call (ctl_mod (out_et j.addr)) j.fd e _ _ tt (λ e' h. set e' h wanted)
            (λ e' h _. set e' h wanted))
        (λ w.
          if_cases P j.event_read
            (λ r.
              call ctl_del j.fd e _ _ tt
                (λ e' h. delete-Kept epoll_ctl holds keeps p j _ e e' (refl, refl, refl) h)
                (λ e' h _. delete-Kept epoll_ctl holds keeps p j _ e e' (refl, refl, refl) h))
            (λ r.
              Unchanged-Kept epoll_ctl holds keeps p j _ e e (λ x y. refl) (refl, refl, refl)
                (λ k. absurd (ground (arith, w, r, k)))))

  pub del_write_from-Kept :
      (free_func : ℕ)
      → j.is_want_delete ≡ false
      → Leaves Good (del_write_from epoll_ctl free_func p j e)
  unfolding del_write_from
  del_write_from-Kept free_func wanted =
      let P = Leaves Good in
      let call = ctl_effect epoll_ctl holds keeps p P j.thrd_index in
      if_cases P j.event_read
        (λ r.
          let set = λ (e' : E).
            set-Kept epoll_ctl holds keeps p j
              (record j { free_func = free_func; event_write = false }) (ctl_mod (in_et j.addr)) e
              e' (refl, refl, refl) refl wanted (ground (arith, r)) in
          call (ctl_mod (in_et j.addr)) j.fd e _ _ tt (λ e' h. set e' h wanted)
            (λ e' h _. set e' h wanted))
        (λ r.
          if_cases P j.event_write
            (λ w.
              call ctl_del j.fd e _ _ tt
                (λ e' h. delete-Kept epoll_ctl holds keeps p j _ e e' (refl, refl, refl) h)
                (λ e' h _. delete-Kept epoll_ctl holds keeps p j _ e e' (refl, refl, refl) h))
            (λ w.
              Unchanged-Kept epoll_ctl holds keeps p j _ e e (λ x y. refl) (refl, refl, refl)
                (λ k. absurd (ground (arith, w, r, k)))))

  pub add_read_to-Kept :
      (io_func thrd_index buffer_size : ℕ)
      → j.is_want_delete ≡ false
      → thrd_index ≡ j.thrd_index
      → Leaves Good (add_read_to epoll_ctl io_func thrd_index buffer_size p j e)
  unfolding add_read_to
  add_read_to-Kept io_func thrd_index buffer_size wanted own =
      let P = Leaves Good in
      let k = init_recv_buf (record j { read_func = io_func; event_read = true }) buffer_size in
      let (addr, fd, thrd, want, reads, writes) =
        init_recv_buf-Rest (record j { read_func = io_func; event_read = true }) buffer_size in
      let same : Same epoll_ctl holds keeps p j k = (addr, fd, thrd) in
      let event : (k.event_read || k.event_write) ≡ true = ground (arith, reads) in
      let failed = λ (e' : E) (u : Unchanged epoll_ctl holds keeps p e e').
        Unchanged-Kept epoll_ctl holds keeps p j j e e' u (refl, refl, refl) (λ k. (refl, k)) in
      if_cases P j.event_write
        (λ w.
          ctl_effect epoll_ctl holds keeps p P j.thrd_index (ctl_mod (in_out_et j.addr)) j.fd e _ _
            tt
            (λ e' h.
              set-Kept epoll_ctl holds keeps p j k (ctl_mod (in_out_et j.addr)) e e' same refl
                (want ∙ wanted) event h wanted)
            (λ e' h u. failed e' u))
        (λ w.
          if_cases P (not j.event_read)
            (λ r.
              ctl_effect epoll_ctl holds keeps p P thrd_index (ctl_add (in_et j.addr)) j.fd e _ _ tt
                (λ e' h.
                  set-Kept epoll_ctl holds keeps p j k (ctl_add (in_et j.addr)) e e' same refl
                    (want ∙ wanted) event
                    (subst
                      (λ i. Effect epoll_ctl holds keeps p i (ctl_add (in_et j.addr)) j.fd e e') own
                      h)
                    wanted)
                (λ e' h u. failed e' u))
            (λ r.
              Unchanged-Kept epoll_ctl holds keeps p j k e e (λ x y. refl) same
                (λ _. (want, event))))

  pub add_write_to-Kept :
      (io_func thrd_index : ℕ)
      → j.is_want_delete ≡ false
      → thrd_index ≡ j.thrd_index
      → Leaves Good (add_write_to epoll_ctl io_func thrd_index p j e)
  unfolding add_write_to
  add_write_to-Kept io_func thrd_index wanted own =
      let P = Leaves Good in
      let k = set_write_callback j io_func in
      let (addr, fd, thrd, want, reads, writes) = set_write_callback-Rest j io_func in
      let waiting = record k { event_write = true } in
      let event : (waiting.event_read || true) ≡ true = ground arith in
      let done =
        λ (op : CtlOp) (ask : asked op ≡ some j.addr) (e' : E)
            (h : Effect epoll_ctl holds keeps p j.thrd_index op j.fd e e').
          set-Kept epoll_ctl holds keeps p j waiting op e e' (addr, fd, thrd) ask (want ∙ wanted)
            event h wanted in
      let failed = λ (e' : E) (u : Unchanged epoll_ctl holds keeps p e e').
        Unchanged-Kept epoll_ctl holds keeps p j waiting e e' u (addr, fd, thrd)
          (λ _. (want, event)) in
      if_cases P j.event_write
        (λ w.
          Unchanged-Kept epoll_ctl holds keeps p j k e e (λ x y. refl) (addr, fd, thrd)
            (λ _. (want, ground (arith, writes, w))))
        (λ w.
          if_cases P j.event_read
            (λ r.
              ctl_effect epoll_ctl holds keeps p P j.thrd_index (ctl_mod (in_out_et j.addr)) j.fd e
                _ _ tt (done (ctl_mod (in_out_et j.addr)) refl) (λ e' h u. failed e' u))
            (λ r.
              ctl_effect epoll_ctl holds keeps p P thrd_index (ctl_add (out_only j.addr)) j.fd e _ _
                tt
                (λ e' h. done (ctl_add (out_only j.addr)) refl e' (
                  subst
                    (λ i. Effect epoll_ctl holds keeps p i (ctl_add (out_only j.addr)) j.fd e e')
                    own h))
                (λ e' h u. failed e' u)))

  -- The descriptor of the job after EPOLLOUT is given up.
  unwatched-Kept :
      (reads : Bool) (e' : E)
      → j.event_read ≡ reads
      → j.is_want_delete ≡ false
      → Effect epoll_ctl holds keeps p j.thrd_index
          (if reads then ctl_mod (in_et j.addr) else ctl_del)
          j.fd
          e
          e'
      → Good (record j { event_write = false }) e'
  unwatched-Kept true e' r wanted h =
      set-Kept epoll_ctl holds keeps p j (record j { event_write = false }) (ctl_mod (in_et j.addr))
        e e' (refl, refl, refl) refl wanted (ground (arith, r)) h wanted
  unwatched-Kept false e' r wanted h =
      delete-Kept epoll_ctl holds keeps p j (record j { event_write = false }) e e'
        (refl, refl, refl) h

  pub write_evt_handle-Kept : Leaves Good (write_evt_handle epoll_ctl p j e)
  unfolding write_evt_handle del_io_writing_evt
  write_evt_handle-Kept =
      let P = Leaves Good in
      let op = if j.event_read then ctl_mod (in_et j.addr) else ctl_del in
      if_cases P j.is_want_delete
        (λ gone.
          Unchanged-Kept epoll_ctl holds keeps p j j e e (λ x y. refl) (refl, refl, refl)
            (λ k. (refl, k)))
        (λ stays.
          ctl_effect epoll_ctl holds keeps p
            (λ o. P (elim o [
              | none ↦ none
              | some e' ↦ some (true, record j { event_write = false }, e')
            ]))
            j.thrd_index op j.fd e _ _ tt (λ e' h. unwatched-Kept j.event_read e' refl stays h)
            (λ e' h _. unwatched-Kept j.event_read e' refl stays h))
