-- ===== src/NetPoll/Life.antt =====
-- No event of the loop of netpool/src/CNetPoll.cpp is handled for a job that has been freed.
use netpool.Base.{
  ℕ, ◌≡◌, inl, inr, refl, sym, ◌∙◌, subst, Bool, false, Option, some, List, [], ◌∷◌, All, arith,
  Bool-cases, get_elem?,
}
use netpool.NetPoll.{IoJob, NetPoll, CtlOp, handle_deling_job}
use netpool.NetPoll.Jobs.{condemned}
use netpool.NetPoll.Held.{Keeps}
use netpool.NetPoll.Result.{Has, Has-map, Alive, Held, Behind}
use netpool.NetPoll.Engine.{
  Gives, add_listen_job-Gives, add_read_job-Gives, del_read_job-Gives, add_write_job-Gives,
  del_write_job-Gives, write_evt_handle-Gives,
}
use netpool.NetPoll.Loop.{Place, sweeps, waits, handles, Loop, swept, Call, Step, Reach}

map-All : {P Q : ℕ → Type 0} → ((a : ℕ) → P a → Q a) → (xs : List ℕ) → All P xs → All Q xs
map-All f [] all = tt
map-All f (x ∷ xs) (p, ps) = (f x p, map-All f xs ps)

-- The sweep of a thread leaves the jobs that are not condemned.
Has-sweep :
    (P : IoJob → Type 0) (i : ℕ) (js : List IoJob)
    → ((j : IoJob) → P j → condemned i j ≡ false)
    → Has P js
    → Has P (handle_deling_job i js).0
unfolding handle_deling_job
Has-sweep P i [] stay h = h
Has-sweep P i (j ∷ js) stay h = elim (Bool-cases (condemned i j)) [
  | inl gone ↦ rw gone (elim h [
    | inl p ↦ absurd (ground (arith, gone, stay j p))
    | inr later ↦ Has-sweep P i js stay later
  ])
  | inr stays ↦ rw stays (elim h [ inl p ↦ inl p | inr later ↦ inr (Has-sweep P i js stay later) ])
]

module _ {E : Type 0} (epoll_ctl : CtlOp → Option ℕ → (fd : ℕ) → E → Bool × E)
    (holds : E → (epfd fd : ℕ) → Option ℕ) (keeps : Keeps epoll_ctl holds) where
  Call-Gives :
      (p : NetPoll) (e : E) (o : Option (Bool × NetPoll × E))
      → Call epoll_ctl holds p e o
      → Gives epoll_ctl holds keeps p e o
  Call-Gives p e _ (Call.add_listen addr f fd q) =
      add_listen_job-Gives epoll_ctl holds keeps addr f fd q p e
  Call-Gives p e _ (Call.add_read addr f fd q i n is_tcp own) =
      add_read_job-Gives epoll_ctl holds keeps addr f fd q i n is_tcp p e own
  Call-Gives p e _ (Call.del_read fd f) = del_read_job-Gives epoll_ctl holds keeps fd f p e
  Call-Gives p e _ (Call.add_write addr f fd q i is_tcp own) =
      add_write_job-Gives epoll_ctl holds keeps addr f fd q i is_tcp p e own
  Call-Gives p e _ (Call.del_write fd f) = del_write_job-Gives epoll_ctl holds keeps fd f p e
  Call-Gives p e _ (Call.write_evt before j after at) =
      write_evt_handle-Gives epoll_ctl holds keeps p e before j after at
  Call-Gives p e _ (Call.close fd e' drops) = record {
    epfds = refl;
    held = λ h x y a now. elim (drops x y) [
      | inl (_, same) ↦ h x y a (sym same ∙ now)
      | inr (_, gone) ↦ absurd (ground (arith, gone, now))
    ];
    alive = λ i a h. h;
  }

  module _ (i : ℕ) (epfds : List (Option ℕ))
      (distinct : (k epfd : ℕ)
        → get_elem? epfds i ≡ some (some epfd)
        → get_elem? epfds k ≡ some (some epfd)
        → k ≡ i) where
    abbrev AllAlive : Place → List IoJob → Type 0
    AllAlive sweeps js = Unit
    AllAlive waits js = Unit
    AllAlive (handles events) js = All (λ a. Alive i a js) events

    -- The invariant: the epoll descriptors are the same, every entry has a job behind it, and the
    -- events that are left are of jobs that are alive.
    record Safe (s : Loop E) : Type 0 where
      same_epfds : s.poll.epfds ≡ epfds
      held : Held epoll_ctl holds keeps s.poll s.kernel
      events_alive : AllAlive s.place s.poll.io_jobs

    AllAlive-map :
        (place : Place) (js ks : List IoJob)
        → ((a : ℕ) → Alive i a js → Alive i a ks)
        → AllAlive place js
        → AllAlive place ks
    AllAlive-map sweeps js ks f h = tt
    AllAlive-map waits js ks f h = tt
    AllAlive-map (handles events) js ks f h = map-All f events h

    sweep-Held :
        (k : ℕ) (p : NetPoll) (e : E)
        → Held epoll_ctl holds keeps p e
        → Held epoll_ctl holds keeps (swept k p) e
    sweep-Held k p e h x y a now =
        Has-map (Behind epoll_ctl holds keeps p x y a)
          (Behind epoll_ctl holds keeps (swept k p) x y a) _
          (λ j b. record {
            addr = b.addr;
            fd = b.fd;
            epfd = b.epfd;
            wanted = b.wanted;
            event = b.event;
          })
          (Has-sweep (Behind epoll_ctl holds keeps p x y a) k p.io_jobs
            (λ j b. let w = b.wanted in ground (arith, w)) (h x y a now))

    -- What the descriptor of the thread holds are the addresses of its own jobs.
    reported-Alive :
        (p : NetPoll) (e : E) (epfd a fd : ℕ)
        → p.epfds ≡ epfds
        → Held epoll_ctl holds keeps p e
        → get_elem? p.epfds i ≡ some (some epfd)
        → holds e epfd fd ≡ some a
        → Alive i a p.io_jobs
    reported-Alive p e epfd a fd same h at now =
        let reopen = λ (k : ℕ) (f : get_elem? p.epfds k ≡ some (some epfd)).
          subst (λ es. get_elem? es k ≡ some (some epfd)) same f in
        Has-map (Behind epoll_ctl holds keeps p epfd fd a) _ p.io_jobs
          (λ j b. (b.addr, distinct j.thrd_index epfd (reopen i at) (reopen j.thrd_index b.epfd)))
          (h epfd fd a now)

    Step-Safe : {s t : Loop E} → Step epoll_ctl holds i s t → Safe s → Safe t
    Step-Safe {s} (Step.sweep _) h = record {
      same_epfds = h.same_epfds;
      held = sweep-Held i s.poll s.kernel h.held;
      events_alive = tt;
    }
    Step-Safe {s} (Step.wait epfd events _ at reported) h = record {
      same_epfds = h.same_epfds;
      held = h.held;
      events_alive =
          map-All
            (λ a (fd, now). reported-Alive s.poll s.kernel epfd a fd h.same_epfds h.held at now)
            events reported;
    }
    Step-Safe (Step.interrupt _) h = record {
      same_epfds = h.same_epfds;
      held = h.held;
      events_alive = tt;
    }
    Step-Safe {s} (Step.handle a events here) h = record {
      same_epfds = h.same_epfds;
      held = h.held;
      events_alive = (subst (λ p. AllAlive p s.poll.io_jobs) here h.events_alive).1;
    }
    Step-Safe (Step.finish _) h = record {
      same_epfds = h.same_epfds;
      held = h.held;
      events_alive = tt;
    }
    Step-Safe {s} (Step.sweep_other k other) h = record {
      same_epfds = h.same_epfds;
      held = sweep-Held k s.poll s.kernel h.held;
      events_alive =
          AllAlive-map s.place s.poll.io_jobs (swept k s.poll).io_jobs
            (λ a l.
              Has-sweep (λ j. (j.addr ≡ a) × (j.thrd_index ≡ i)) k s.poll.io_jobs
                (λ j (_, own). ground (arith, own, other)) l)
            h.events_alive;
    }
    Step-Safe {s} (Step.call done p' e' o c returned) h =
        let result =
          subst (Gives epoll_ctl holds keeps s.poll s.kernel) returned
            (Call-Gives s.poll s.kernel o c) in
        record {
          same_epfds = result.epfds ∙ h.same_epfds;
          held = result.held h.held;
          events_alive =
              AllAlive-map s.place s.poll.io_jobs p'.io_jobs (result.alive i) h.events_alive;
        }

    Reach-Safe : {s : Loop E} → Reach epoll_ctl holds i epfds s → Safe s
    Reach-Safe (Reach.start s begins) = record {
      same_epfds = begins.opened;
      held = λ x y a now. absurd (ground (arith, begins.no_entries x y, now));
      events_alive = subst (λ p. AllAlive p s.poll.io_jobs) (sym begins.first) tt;
    }
    Reach-Safe (Reach.next r s) = Step-Safe s (Reach-Safe r)

    -- Under the documented behaviour of epoll_ctl, where EPOLL_CTL_DEL fails only for a descriptor that has
    -- no entry, and where no other thread has the epoll descriptor of this one: in every state that the
    -- loop of a thread reaches from the start, in any interleaving of its rounds with the sweeps of the
    -- other threads, with calls of the operations that add jobs and of `del_read_job` and
    -- `del_write_job` and of the handler of write events, each taken as one step, and with the closing of
    -- descriptors, each event that is still to be handled is of a job of the thread that has not been
    -- freed. There is no call of `del_listen_job`; the calls of `add_read_job` and `add_write_job` pass
    -- the thread that the descriptor has already, if it has one.
    pub Reach-Alive :
        {s : Loop E} (events : List ℕ)
        → Reach epoll_ctl holds i epfds s
        → s.place ≡ handles events
        → All (λ a. Alive i a s.poll.io_jobs) events
    Reach-Alive {s} events r at =
        subst (λ p. AllAlive p s.poll.io_jobs) at (Reach-Safe r).events_alive
