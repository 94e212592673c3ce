-- ===== src/NetPoll/Tests.antt =====
-- Runs of the jobs of netpool/src/CNetPoll.cpp over an epoll whose table is a function.
mod Rounds
use netpool.Base.{
  ℕ, zero, suc, ◌≡◌, ◌⊎◌, inl, refl, Bool, true, false, ◌&&◌, Option, none, some, [], ◌∷◌, arith,
  ◌==◌, ==_refl, ap, inr, get_elem?, Bool-cases, if_cases, List, if◌then◌else◌, All,
}
use netpool.NetPoll.{
  tcp_job, IoJob, NetPoll, CtlOp, ctl_add, ctl_mod, ctl_del, init_recv_buf, set_write_callback,
  handle_deling_job, find_io_job, pick_thrd_index, new_job, add_io_job,
}
use netpool.NetPoll.Ops.{
  register, put_back, add_read_job, del_read_job, after_ctl, ctl, add_read_to, add_write_to,
  del_read_from, write_evt_handle,
}
use netpool.NetPoll.Handle.{ReadDeleted, del_read_from-flags, WriteHandled, write_evt_handle-flags}
use netpool.NetPoll.Loop.{Loop, swept, Call, Step, Starts, Reach, handles, sweeps, waits}
use netpool.NetPoll.Held.{asked, Keeps}
use netpool.NetPoll.Result.{Alive}
use netpool.NetPoll.Engine.{Own}
use netpool.NetPoll.Life.{Reach-Alive}
use netpool.NetPoll.Jobs.{Merge, condemned, handle_deling_job-sweeps}
use netpool.NetPoll.Sync.{
  Obeys, Returns, InSync, WriteAdded, add_read_to-InSync, add_write_to-flags, add_write_to-stuck,
}

-- What is asked for, for each epoll descriptor and each descriptor that is registered.
abbrev Table : Type 0
Table = ℕ → ℕ → Option (Bool × Bool)

abbrev put : Table → ℕ → ℕ → Option (Bool × Bool) → Table
put t epfd fd v = λ x y. if x == epfd && y == fd then v else t x y

abbrev interest : Table → ℕ → ℕ → Bool × Bool
interest t epfd fd = elim (t epfd fd) [ none ↦ (false, false) | some v ↦ v ]

-- ENOENT and EEXIST are failures.
abbrev present : Option (Bool × Bool) → Bool
present none = false
present (some _) = true

abbrev table_ctl : CtlOp → Option ℕ → (fd : ℕ) → Table → Bool × Table
table_ctl op none fd t = (false, t)
table_ctl (ctl_add ev) (some epfd) fd t =
    if present (t epfd fd)
    then (false, t)
    else (true, put t epfd fd (some (ev.epollin, ev.epollout)))
table_ctl (ctl_mod ev) (some epfd) fd t =
    if present (t epfd fd)
    then (true, put t epfd fd (some (ev.epollin, ev.epollout)))
    else (false, t)
table_ctl ctl_del (some epfd) fd t =
    if present (t epfd fd) then (true, put t epfd fd none) else (false, t)

put_at : (t : Table) (epfd fd : ℕ) (v : Option (Bool × Bool)) → put t epfd fd v epfd fd ≡ v
put_at t epfd fd v = ground (arith, ==_refl epfd, ==_refl fd)

table_ctl_failed :
    (op : CtlOp) (epfd fd : ℕ) (t : Table)
    → (table_ctl op (some epfd) fd t).0 ≡ false
    → interest (table_ctl op (some epfd) fd t).1 epfd fd ≡ interest t epfd fd
table_ctl_failed (ctl_add ev) epfd fd t h = ground arith
table_ctl_failed (ctl_mod ev) epfd fd t h = ground arith
table_ctl_failed ctl_del epfd fd t h = ground arith

table_ctl-Obeys : Obeys table_ctl interest
table_ctl-Obeys = record {
  added = λ ev epfd fd t h. ground (arith, put_at t epfd fd (some (ev.epollin, ev.epollout)));
  modified = λ ev epfd fd t h. ground (arith, put_at t epfd fd (some (ev.epollin, ev.epollout)));
  deleted = λ epfd fd t h. ground (arith, put_at t epfd fd none);
  failed = table_ctl_failed;
}

-- A connection on the descriptor 9, read by the thread 1, whose epoll descriptor is 5.
abbrev pub reader : IoJob
reader = record {
  addr = 1000;
  kind = tcp_job;
  fd = 9;
  param1 = 0;
  thrd_index = 1;
  event_read = true;
  event_write = false;
  is_want_delete = false;
  read_func = 300;
  write_func = 0;
  free_func = 0;
  cache_len = 1500;
}

abbrev pub poll : NetPoll
poll = record {
  epfds = some 4 ∷ some 5 ∷ none ∷ [];
  cur_thrd_index = 1;
  worker_thrd_cnt = 2;
  io_jobs = reader ∷ [];
}

abbrev registered : Table
registered = put (λ epfd fd. none) 5 9 (some (true, false))

reader-InSync : InSync table_ctl interest table_ctl-Obeys poll 5 reader registered
reader-InSync = (refl, refl)

read_again_run :
    add_read_to table_ctl 301 1 0 poll reader registered
    ≡ some (true, record reader { read_func = 301 }, registered)
unfolding add_read_to init_recv_buf
read_again_run = refl

add_read_to-InSync_example :
    Returns
      (λ done j' (t : Table).
        InSync table_ctl interest table_ctl-Obeys poll 5 j' t
        × (((done ≡ true) × (j'.event_read ≡ true) × (j'.event_write ≡ reader.event_write))
            ⊎ ((done ≡ false) × (j' ≡ reader))))
      (add_read_to table_ctl 301 1 0 poll reader registered)
add_read_to-InSync_example =
    add_read_to-InSync table_ctl interest table_ctl-Obeys poll 5 301 1 0 reader registered
      reader-InSync refl

add_write_to-flags_example :
    Returns
      (WriteAdded table_ctl interest table_ctl-Obeys poll 5 reader registered)
      (add_write_to table_ctl 400 1 poll reader registered)
add_write_to-flags_example =
    add_write_to-flags table_ctl interest table_ctl-Obeys poll 5 400 1 reader registered
      reader-InSync refl

del_read_from-flags_example :
    Returns
      (ReadDeleted table_ctl interest table_ctl-Obeys poll 5 reader registered)
      (del_read_from table_ctl 500 poll reader registered)
del_read_from-flags_example =
    del_read_from-flags table_ctl interest table_ctl-Obeys poll 5 500 reader registered
      reader-InSync

-- The same connection with a write event as well, and with both asked for.
abbrev talker : IoJob
talker = record reader { event_write = true; write_func = 400 }

abbrev both : Table
both = put (λ epfd fd. none) 5 9 (some (true, true))

talker-InSync : InSync table_ctl interest table_ctl-Obeys poll 5 talker both
talker-InSync = (refl, refl)

write_evt_handle-flags_example :
    Returns
      (WriteHandled table_ctl interest table_ctl-Obeys poll 5 talker both)
      (write_evt_handle table_ctl poll talker both)
write_evt_handle-flags_example =
    write_evt_handle-flags table_ctl interest table_ctl-Obeys poll 5 talker both talker-InSync

-- A job without events, whose descriptor is in epoll's table with no event: EPOLL_CTL_ADD fails.
abbrev idle_job : IoJob
idle_job = record reader { event_read = false }

abbrev masked : Table
masked = put (λ epfd fd. none) 5 9 (some (false, false))

idle-InSync : InSync table_ctl interest table_ctl-Obeys poll 5 idle_job masked
idle-InSync = (refl, refl)

add_fails_run :
    add_write_to table_ctl 400 1 poll idle_job masked
    ≡ some (false, record idle_job { write_func = 400; event_write = true }, masked)
unfolding add_write_to set_write_callback after_ctl ctl
add_fails_run = refl

add_write_to-stuck_example :
    (add_write_to table_ctl 400 1 poll
        (record idle_job { write_func = 400; event_write = true })
        masked
      ≡ some (
        true,
        set_write_callback (record idle_job { write_func = 400; event_write = true }) 400,
        masked,
      ))
    × (interest masked 5 idle_job.fd ≡ (idle_job.event_read, false))
add_write_to-stuck_example =
    add_write_to-stuck table_ctl interest table_ctl-Obeys poll 5 400 1 idle_job masked idle-InSync
      refl add_fails_run

-- The thread 1 deletes the job of the descriptor 9, which is marked.
abbrev marked : IoJob
marked = record reader { is_want_delete = true }
