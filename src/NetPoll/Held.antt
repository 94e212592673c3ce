-- ===== src/NetPoll/Held.antt =====
-- What the calls of epoll_ctl in netpool/src/CNetPoll.cpp leave in the epoll descriptors, under the documented
-- behaviour of epoll_ctl: which addresses of jobs they hold, and which jobs back them.
use netpool.Base.{
  ℕ, ◌≡◌, ◌⊎◌, refl, sym, ap, subst, subst₂, ◌∙◌, inl, inr, Bool, true, false, ◌||◌, Option, none,
  some, arith, get_elem?, Option-cases, Bool-cases,
}
use netpool.NetPoll.{IoJob, NetPoll, CtlOp, ctl_add, ctl_mod, ctl_del}
use netpool.NetPoll.Ops.{after_ctl, ctl}

-- The data.ptr that an operation asks for; EPOLL_CTL_DEL asks for none.
abbrev pub asked : CtlOp → Option ℕ
asked (ctl_add ev) = some ev.ptr
asked (ctl_mod ev) = some ev.ptr
asked ctl_del = none

-- What epoll_ctl(2) says of the pointers that an epoll descriptor holds: a call changes at most the entry of
-- its descriptors, to what it asks for, and nothing where it fails; after EPOLL_CTL_DEL has succeeded there
-- is no entry; and a call with the epoll descriptor -1 changes nothing. `missing` is about the use of
-- descriptors: with a valid epoll descriptor, EPOLL_CTL_DEL fails with ENOENT where there is no entry, and with
-- EBADF for a closed descriptor, whose entries close() has dropped; it leaves out a descriptor that is
-- closed while a duplicate of it is open, whose entry stays.
pub record Keeps {E : Type 0} (epoll_ctl : CtlOp → Option ℕ → (fd : ℕ) → E → Bool × E)
    (holds : E → (epfd fd : ℕ) → Option ℕ) : Type 0 where
  pub changes :
      (op : CtlOp) (epfd fd : ℕ) (e : E) (x y : ℕ)
      → let e' = (epoll_ctl op (some epfd) fd e).1 in
        (holds e' x y ≡ holds e x y) ⊎ ((x ≡ epfd) × (y ≡ fd) × (holds e' x y ≡ asked op))
  pub fails :
      (op : CtlOp) (epfd fd : ℕ) (e : E)
      → (epoll_ctl op (some epfd) fd e).0 ≡ false
      → (x y : ℕ) → holds (epoll_ctl op (some epfd) fd e).1 x y ≡ holds e x y
  pub deletes :
      (epfd fd : ℕ) (e : E)
      → (epoll_ctl ctl_del (some epfd) fd e).0 ≡ true
      → holds (epoll_ctl ctl_del (some epfd) fd e).1 epfd fd ≡ none
  pub missing :
      (epfd fd : ℕ) (e : E)
      → (epoll_ctl ctl_del (some epfd) fd e).0 ≡ false
      → holds e epfd fd ≡ none
  pub no_epfd :
      (op : CtlOp) (fd : ℕ) (e : E) (x y : ℕ) → holds (epoll_ctl op none fd e).1 x y ≡ holds e x y

-- An operation that returns leaves this behind.
abbrev pub Leaves : {E : Type 0} → (IoJob → E → Type 0) → Option (Bool × IoJob × E) → Type 0
Leaves Q none = Unit
Leaves Q (some (done, j, e)) = Q j e

module _ {E : Type 0} (epoll_ctl : CtlOp → Option ℕ → (fd : ℕ) → E → Bool × E)
    (holds : E → (epfd fd : ℕ) → Option ℕ) (keeps : Keeps epoll_ctl holds) (p : NetPoll) where
  -- The job stands behind an entry: it has the address and the descriptor, the epoll descriptor is that of its
  -- thread, and it is not to be deleted and has an event.
  pub record Backs (x y a : ℕ) (j : IoJob) : Type 0 where
    pub addr : j.addr ≡ a
    pub fd : j.fd ≡ y
    pub epfd : get_elem? p.epfds j.thrd_index ≡ some (some x)
    pub wanted : j.is_want_delete ≡ false
    pub event : (j.event_read || j.event_write) ≡ true

  -- What a call with the descriptor of a thread does to the entries.
  pub record Effect (index : ℕ) (op : CtlOp) (fd : ℕ) (e e' : E) : Type 0 where
    pub entries :
        (x y : ℕ)
        → (holds e' x y ≡ holds e x y)
          ⊎ ((get_elem? p.epfds index ≡ some (some x)) × (y ≡ fd) × (holds e' x y ≡ asked op))
    pub gone :
        op ≡ ctl_del → (x : ℕ) → get_elem? p.epfds index ≡ some (some x) → holds e' x fd ≡ none

  delete_gone : (epfd fd : ℕ) (e : E) → holds (epoll_ctl ctl_del (some epfd) fd e).1 epfd fd ≡ none
  delete_gone epfd fd e = elim (Bool-cases (epoll_ctl ctl_del (some epfd) fd e).0) [
    | inl done ↦ keeps.deletes epfd fd e done
    | inr refused ↦ keeps.fails ctl_del epfd fd e refused epfd fd ∙ keeps.missing epfd fd e refused
  ]

  call-Effect :
      (index : ℕ) (op : CtlOp) (fd : ℕ) (e : E) (epfd : Option ℕ)
      → get_elem? p.epfds index ≡ some epfd
      → Effect index op fd e (epoll_ctl op epfd fd e).1
  call-Effect index op fd e none at = record {
    entries = λ x y. inl (keeps.no_epfd op fd e x y);
    gone = λ d x h. absurd (ground (arith, at, h));
  }
  call-Effect index op fd e (some epfd) at = record {
    entries = λ x y. elim (keeps.changes op epfd fd e x y) [
      | inl same ↦ inl same
      | inr (ex, ey, now) ↦ inr (at ∙ ap (λ k. some (some k)) (sym ex), ey, now)
    ];
    gone = λ d x h.
        let same : x ≡ epfd = cc in
        subst₂ (λ o k. holds (epoll_ctl o (some epfd) fd e).1 k fd ≡ none) (sym d) (sym same)
          (delete_gone epfd fd e);
  }

  -- The entries are the same.
  abbrev pub Unchanged : E → E → Type 0
  Unchanged e e' = (x y : ℕ) → holds e' x y ≡ holds e x y

  call-Unchanged :
      (op : CtlOp) (fd : ℕ) (e : E) (epfd : Option ℕ)
      → (epoll_ctl op epfd fd e).0 ≡ false
      → Unchanged e (epoll_ctl op epfd fd e).1
  call-Unchanged op fd e none h = keeps.no_epfd op fd e
  call-Unchanged op fd e (some epfd) h = keeps.fails op epfd fd e h

  pub ctl_effect :
      {X : Type 0} (P : Option X → Type 0) (index : ℕ) (op : CtlOp) (fd : ℕ) (e : E)
      (ok bad : E → X)
      → P none
      → ((e' : E) → Effect index op fd e e' → P (some (ok e')))
      → ((e' : E) → Effect index op fd e e' → Unchanged e e' → P (some (bad e')))
      → P (after_ctl (ctl epoll_ctl p index op fd e) ok bad)
  unfolding after_ctl ctl
  ctl_effect P index op fd e ok bad out good wrong = elim (Option-cases (get_elem? p.epfds index)) [
    | inl n ↦ rw (n, ctl) out
    | inr (epfd, at) ↦
        rw (at, ctl)
          (answered (epoll_ctl op epfd fd e) (call-Effect index op fd e epfd at)
            (call-Unchanged op fd e epfd))
  ]
    where
      answered :
          (r : Bool × E)
          → Effect index op fd e r.1
          → (r.0 ≡ false → Unchanged e r.1)
          → P (after_ctl (some r) ok bad)
      answered (true, e') h u = good e' h
      answered (false, e') h u = wrong e' h (u refl)

  -- A job that has changed still stands behind every entry that it stood behind, and behind each new one.
  pub record Kept (j : IoJob) (e : E) (j' : IoJob) (e' : E) : Type 0 where
    pub same : (j'.addr ≡ j.addr) × (j'.fd ≡ j.fd) × (j'.thrd_index ≡ j.thrd_index)
    pub entries :
        (x y a : ℕ)
        → holds e' x y ≡ some a
        → Backs x y a j' ⊎ ((holds e x y ≡ some a) × (Backs x y a j → Backs x y a j'))

  -- The job keeps what it needs to stand behind its entries.
  abbrev pub Same : IoJob → IoJob → Type 0
  Same j j' = (j'.addr ≡ j.addr) × (j'.fd ≡ j.fd) × (j'.thrd_index ≡ j.thrd_index)

  Backs-Same :
      (x y a : ℕ) (j j' : IoJob)
      → Same j j'
      → j'.is_want_delete ≡ j.is_want_delete
      → ((j.event_read || j.event_write) ≡ true → (j'.event_read || j'.event_write) ≡ true)
      → Backs x y a j
      → Backs x y a j'
  Backs-Same x y a j j' (addr, fd, thrd) want event b = record {
    addr = addr ∙ b.addr;
    fd = fd ∙ b.fd;
    epfd = ap (λ i. get_elem? p.epfds i) thrd ∙ b.epfd;
    wanted = want ∙ b.wanted;
    event = event b.event;
  }

  -- The entry of the job is set to the job.
  pub set-Kept :
      (j j' : IoJob) (op : CtlOp) (e e' : E)
      → Same j j'
      → asked op ≡ some j.addr
      → j'.is_want_delete ≡ false
      → (j'.event_read || j'.event_write) ≡ true
      → Effect j.thrd_index op j.fd e e'
      → j.is_want_delete ≡ false
      → Kept j e j' e'
  set-Kept j j' op e e' (addr, fd, thrd) ask want event effect wanted = record {
    same = (addr, fd, thrd);
    entries = λ x y a h. elim (effect.entries x y) [
      | inl old ↦
          inr (sym old ∙ h, Backs-Same x y a j j' (addr, fd, thrd) (want ∙ sym wanted) (λ _. event))
      | inr (at, ey, new) ↦ inl (record {
        addr = addr ∙ (cc);
        fd = fd ∙ sym ey;
        epfd = ap (λ i. get_elem? p.epfds i) thrd ∙ at;
        wanted = want;
        event = event;
      })
    ];
  }

  -- The entry of the job is deleted.
  pub delete-Kept :
      (j j' : IoJob) (e e' : E) → Same j j' → Effect j.thrd_index ctl_del j.fd e e' → Kept j e j' e'
  delete-Kept j j' e e' same effect = record {
    same = same;
    entries = λ x y a h. elim (effect.entries x y) [
      | inl old ↦ inr (
        sym old ∙ h,
        λ b.
            let none_left : holds e' x j.fd ≡ none = effect.gone refl x b.epfd in
            absurd (ground (arith, subst (λ k. holds e' x k ≡ none) b.fd none_left, h)),
      )
      | inr (at, ey, new) ↦ absurd (ground (arith, new, h))
    ];
  }

  -- No entry has changed.
  pub Unchanged-Kept :
      (j j' : IoJob) (e e' : E)
      → Unchanged e e'
      → Same j j'
      → ((j.event_read || j.event_write) ≡ true
          → (j'.is_want_delete ≡ j.is_want_delete) × ((j'.event_read || j'.event_write) ≡ true))
      → Kept j e j' e'
  Unchanged-Kept j j' e e' unchanged same event = record {
    same = same;
    entries = λ x y a h. inr (
      sym (unchanged x y) ∙ h,
      λ b. Backs-Same x y a j j' same (event b.event).0 (λ k. (event k).1) b,
    );
  }
