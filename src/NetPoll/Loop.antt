-- ===== src/NetPoll/Loop.antt =====
-- The rounds of CNetPoll::loop_handle (netpool/src/CNetPoll.cpp) in one thread, interleaved with the
-- calls that any thread makes and with the sweeps of the other threads. A job is freed by the sweep at
-- the start of a round of its thread; what epoll_wait reports are the addresses of jobs, which the
-- thread follows one after another.
use netpool.Base.{
  ℕ, ◌≡◌, ◌≢◌, ◌⊎◌, Bool, true, Option, none, some, List, [], ◌∷◌, ◌++◌, All, get_elem?,
}
use netpool.NetPoll.{IoJob, NetPoll, CtlOp, handle_deling_job}
use netpool.NetPoll.Ops.{
  put_back, add_listen_job, add_read_job, del_read_job, add_write_job, del_write_job,
  write_evt_handle,
}
use netpool.NetPoll.Engine.{Own}

-- Where the thread stands in its loop: before handle_deling_job(), before epoll_wait(), or in the loop over the
-- events that are left, each the address of a job.
pub data Place : Type 0 where
  sweeps waits : Place
  handles : (events : List ℕ) → Place

-- The jobs, the kernel's state, and the place.
pub record Loop (E : Type 0) : Type 0 where
  pub poll : NetPoll
  pub kernel : E
  pub place : Place

-- The list of jobs after the sweep of a thread.
abbrev pub swept : (thrd_index : ℕ) → NetPoll → NetPoll
swept i p = record p { io_jobs = (handle_deling_job i p.io_jobs).0 }

module _ {E : Type 0} (epoll_ctl : CtlOp → Option ℕ → (fd : ℕ) → E → Bool × E)
    (holds : E → (epfd fd : ℕ) → Option ℕ) where
  -- A call that any thread makes, and what it returns; add_read_job() and add_write_job() are called with the
  -- thread that the descriptor has already. del_listen_job(), which marks its job in one step and calls
  -- epoll_ctl in a later one, is not among them.
  pub data Call (p : NetPoll) (e : E) : Option (Bool × NetPoll × E) → Type 0 where
    add_listen :
        (addr io_func fd param1 : ℕ)
        → Call p e (add_listen_job epoll_ctl addr io_func fd param1 p e)
    add_read :
        (addr io_func fd param1 thrd_index buffer_size : ℕ) (is_tcp : Bool)
        → Own fd thrd_index p.io_jobs
        → Call p e (add_read_job epoll_ctl addr io_func fd param1 thrd_index buffer_size is_tcp p e)
    del_read : (fd free_func : ℕ) → Call p e (del_read_job epoll_ctl fd free_func p e)
    add_write :
        (addr io_func fd param1 thrd_index : ℕ) (is_tcp : Bool)
        → Own fd thrd_index p.io_jobs
        → Call p e (add_write_job epoll_ctl addr io_func fd param1 thrd_index is_tcp p e)
    del_write : (fd free_func : ℕ) → Call p e (del_write_job epoll_ctl fd free_func p e)
    -- a write event of a job, up to its callback
    write_evt :
        (before : List IoJob) (j : IoJob) (after : List IoJob)
        → p.io_jobs ≡ before ++ j ∷ after
        → Call p e (put_back p before after (write_evt_handle epoll_ctl p j e))
    -- close() of a descriptor that has no duplicate: its entries go, the others stay
    close :
        (fd : ℕ) (e' : E)
        → ((x y : ℕ)
            → ((y ≢ fd) × (holds e' x y ≡ holds e x y)) ⊎ ((y ≡ fd) × (holds e' x y ≡ none)))
        → Call p e (some (true, p, e'))

  module _ (thrd_index : ℕ) where
    pub data Step (s : Loop E) : Loop E → Type 0 where
      -- `handle_deling_job` of this thread
      sweep : s.place ≡ sweeps → Step s (record s { poll = swept thrd_index s.poll; place = waits })
      -- epoll_wait() reports some of what the descriptor of the thread holds
      wait :
          (epfd : ℕ) (events : List ℕ)
          → s.place ≡ waits
          → get_elem? s.poll.epfds thrd_index ≡ some (some epfd)
          → All (λ a. (fd : ℕ) × (holds s.kernel epfd fd ≡ some a)) events
          → Step s (record s { place = handles events })
      -- epoll_wait() has been interrupted: `continue`
      interrupt : s.place ≡ waits → Step s (record s { place = sweeps })
      -- the handlers of an event have returned
      handle :
          (a : ℕ) (events : List ℕ)
          → s.place ≡ handles (a ∷ events)
          → Step s (record s { place = handles events })
      -- the events are used up; the timers have run
      finish : s.place ≡ handles [] → Step s (record s { place = sweeps })
      -- `handle_deling_job` of another thread
      sweep_other : (k : ℕ) → thrd_index ≢ k → Step s (record s { poll = swept k s.poll })
      -- a call of any thread, a handler of this one included
      call :
          (done : Bool) (p' : NetPoll) (e' : E) (o : Option (Bool × NetPoll × E))
          → Call s.poll s.kernel o
          → o ≡ some (done, p', e')
          → Step s (record s { poll = p'; kernel = e' })

    -- The threads have opened their descriptors, and there is no job.
    pub record Starts (epfds : List (Option ℕ)) (s : Loop E) : Type 0 where
      pub opened : s.poll.epfds ≡ epfds
      pub no_jobs : s.poll.io_jobs ≡ []
      pub no_entries : (x y : ℕ) → holds s.kernel x y ≡ none
      pub first : s.place ≡ sweeps

    pub data Reach (epfds : List (Option ℕ)) : Loop E → Type 0 where
      start : (s : Loop E) → Starts epfds s → Reach epfds s
      next : {s t : Loop E} → Reach epfds s → Step s t → Reach epfds t
