-- ===== src/NetPoll/Tests/Rounds.antt =====
-- A run of the loop of netpool/src/CNetPoll.cpp in which a connection is given up while its event waits.
use netpool.Base.{
  ℕ, zero, suc, ◌≡◌, ◌⊎◌, inl, refl, Bool, true, false, ◌&&◌, Option, none, some, [], ◌∷◌, arith,
  ◌==◌, ==_refl, ap, inr, get_elem?, Bool-cases, Option-cases, if_cases, List, if◌then◌else◌, All,
}
use netpool.NetPoll.{
  NetPoll, CtlOp, ctl_add, ctl_mod, ctl_del, init_recv_buf, handle_deling_job, find_io_job,
  pick_thrd_index, new_job, add_io_job,
}
use netpool.NetPoll.Ops.{
  register, put_back, add_read_job, del_read_job, after_ctl, ctl, del_read_from,
}
use netpool.NetPoll.Loop.{Loop, Call, Step, Reach, handles, sweeps, waits}
use netpool.NetPoll.Held.{asked, Keeps}
use netpool.NetPoll.Result.{Alive}
use netpool.NetPoll.Life.{Reach-Alive}
use netpool.NetPoll.Tests.{reader, poll}

-- The pointers that the epoll descriptors hold.
abbrev Pointers : Type 0
Pointers = ℕ → ℕ → Option ℕ

abbrev held_at : Pointers → ℕ → ℕ → Option ℕ
held_at t = t

abbrev put_ptr : Pointers → ℕ → ℕ → Option ℕ → Pointers
put_ptr t epfd fd v = λ x y. if x == epfd && y == fd then v else t x y

abbrev has_ptr : Option ℕ → Bool
has_ptr none = false
has_ptr (some _) = true

abbrev ptr_ctl : CtlOp → Option ℕ → (fd : ℕ) → Pointers → Bool × Pointers
ptr_ctl op none fd t = (false, t)
ptr_ctl (ctl_add ev) (some epfd) fd t =
    if has_ptr (t epfd fd) then (false, t) else (true, put_ptr t epfd fd (some ev.ptr))
ptr_ctl (ctl_mod ev) (some epfd) fd t =
    if has_ptr (t epfd fd) then (true, put_ptr t epfd fd (some ev.ptr)) else (false, t)
ptr_ctl ctl_del (some epfd) fd t =
    if has_ptr (t epfd fd) then (true, put_ptr t epfd fd none) else (false, t)

put_ptr_changes :
    (t : Pointers) (epfd fd : ℕ) (v : Option ℕ) (x y : ℕ)
    → (put_ptr t epfd fd v x y ≡ t x y) ⊎ ((x ≡ epfd) × (y ≡ fd) × (put_ptr t epfd fd v x y ≡ v))
put_ptr_changes t epfd fd v x y = elim (Bool-cases (x == epfd && y == fd)) [
  | inl hit ↦ inr (ground (arith, hit), ground (arith, hit), rw hit refl)
  | inr other ↦ inl (rw other refl)
]

ptr_ctl_changes :
    (op : CtlOp) (epfd fd : ℕ) (t : Pointers) (x y : ℕ)
    → let t' = (ptr_ctl op (some epfd) fd t).1 in
      (t' x y ≡ t x y) ⊎ ((x ≡ epfd) × (y ≡ fd) × (t' x y ≡ asked op))
ptr_ctl_changes (ctl_add ev) epfd fd t x y =
    if_cases
      (λ (r : Bool × Pointers).
        (r.1 x y ≡ t x y) ⊎ ((x ≡ epfd) × (y ≡ fd) × (r.1 x y ≡ some ev.ptr)))
      (has_ptr (t epfd fd)) (λ h. inl refl) (λ h. put_ptr_changes t epfd fd (some ev.ptr) x y)
ptr_ctl_changes (ctl_mod ev) epfd fd t x y =
    if_cases
      (λ (r : Bool × Pointers).
        (r.1 x y ≡ t x y) ⊎ ((x ≡ epfd) × (y ≡ fd) × (r.1 x y ≡ some ev.ptr)))
      (has_ptr (t epfd fd)) (λ h. put_ptr_changes t epfd fd (some ev.ptr) x y) (λ h. inl refl)
ptr_ctl_changes ctl_del epfd fd t x y =
    if_cases
      (λ (r : Bool × Pointers). (r.1 x y ≡ t x y) ⊎ ((x ≡ epfd) × (y ≡ fd) × (r.1 x y ≡ none)))
      (has_ptr (t epfd fd)) (λ h. put_ptr_changes t epfd fd none x y) (λ h. inl refl)

ptr_ctl_fails :
    (op : CtlOp) (epfd fd : ℕ) (t : Pointers)
    → (ptr_ctl op (some epfd) fd t).0 ≡ false
    → (ptr_ctl op (some epfd) fd t).1 ≡ t
ptr_ctl_fails (ctl_add ev) epfd fd t h = ground (arith, h)
ptr_ctl_fails (ctl_mod ev) epfd fd t h = ground (arith, h)
ptr_ctl_fails ctl_del epfd fd t h = ground (arith, h)

ptr_ctl_deletes :
    (epfd fd : ℕ) (t : Pointers)
    → (ptr_ctl ctl_del (some epfd) fd t).0 ≡ true
    → (ptr_ctl ctl_del (some epfd) fd t).1 epfd fd ≡ none
ptr_ctl_deletes epfd fd t h = ground (arith, h, ==_refl epfd, ==_refl fd)

ptr_ctl_missing :
    (epfd fd : ℕ) (t : Pointers) → (ptr_ctl ctl_del (some epfd) fd t).0 ≡ false → t epfd fd ≡ none
ptr_ctl_missing epfd fd t h = elim (Option-cases (t epfd fd)) [
  | inl n ↦ n
  | inr (a, at) ↦ absurd (ground (arith, h, at))
]

ptr_ctl-Keeps : Keeps ptr_ctl held_at
ptr_ctl-Keeps = record {
  changes = ptr_ctl_changes;
  fails = λ op epfd fd t h x y. ap (λ u. u x y) (ptr_ctl_fails op epfd fd t h);
  deletes = ptr_ctl_deletes;
  missing = ptr_ctl_missing;
  no_epfd = λ op fd t x y. refl;
}

-- The thread 1 has an event of the connection in hand when another thread gives the connection up.
abbrev opened : List (Option ℕ)
opened = some 4 ∷ some 5 ∷ none ∷ []

abbrev empty_poll : NetPoll
empty_poll = record poll { io_jobs = [] }

abbrev begun : Loop Pointers
begun = record { poll = empty_poll; kernel = λ x y. none; place = sweeps }

abbrev with_reader : Pointers
with_reader = put_ptr (λ x y. none) 5 9 (some 1000)

abbrev given_up : Loop Pointers
given_up = record {
  poll = record poll {
    io_jobs = record reader { event_read = false; is_want_delete = true; free_func = 500 } ∷ [];
  };
  kernel = put_ptr with_reader 5 9 none;
  place = handles (1000 ∷ []);
}

distinct_epfds :
    (k epfd : ℕ)
    → get_elem? opened 1 ≡ some (some epfd)
    → get_elem? opened k ≡ some (some epfd)
    → k ≡ 1
distinct_epfds zero epfd mine other = absurd (ground (arith, mine, other))
distinct_epfds (suc zero) epfd mine other = refl
distinct_epfds (suc (suc zero)) epfd mine other = absurd (ground (arith, other))
distinct_epfds (suc (suc (suc k))) epfd mine other = absurd (ground (arith, other))

added_run :
    add_read_job ptr_ctl 1000 300 9 0 1 0 true empty_poll (λ x y. none)
    ≡ some (true, poll, with_reader)
unfolding add_read_job find_io_job pick_thrd_index new_job init_recv_buf register after_ctl ctl
    add_io_job
added_run = refl

deleted_run :
    del_read_job ptr_ctl 9 500 poll with_reader ≡ some (true, given_up.poll, given_up.kernel)
unfolding del_read_job find_io_job put_back del_read_from after_ctl ctl
deleted_run = refl

given_up-Reach : Reach ptr_ctl held_at 1 opened given_up
unfolding handle_deling_job find_io_job
given_up-Reach =
    let started : Reach ptr_ctl held_at 1 opened begun =
      Reach.start begun
        (record { opened = refl; no_jobs = refl; no_entries = λ x y. refl; first = refl }) in
    let added : Reach ptr_ctl held_at 1 opened
        (record begun { poll = poll; kernel = with_reader }) =
      Reach.next started (
        Step.call true poll with_reader _
          (Call.add_read 1000 300 9 0 1 0 true
            (λ before j after found. absurd (ground (arith, found))))
          added_run) in
    let ready : Reach ptr_ctl held_at 1 opened
        (record { poll = poll; kernel = with_reader; place = waits }) =
      Reach.next added (Step.sweep refl) in
    let woken : Reach ptr_ctl held_at 1 opened
        (record { poll = poll; kernel = with_reader; place = handles (1000 ∷ []) }) =
      Reach.next ready (Step.wait 5 (1000 ∷ []) refl refl ((9, refl), tt)) in
    Reach.next woken
      (Step.call true given_up.poll given_up.kernel _ (Call.del_read 9 500) deleted_run)

Reach-Alive_example : All (λ a. Alive 1 a given_up.poll.io_jobs) (1000 ∷ [])
Reach-Alive_example =
    Reach-Alive ptr_ctl held_at ptr_ctl-Keeps 1 opened distinct_epfds {s = given_up} (1000 ∷ [])
      given_up-Reach refl
