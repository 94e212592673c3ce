-- ===== src/NetPoll/Result.antt =====
-- What a call of an operation of netpool/src/CNetPoll.cpp leaves: every entry of an epoll descriptor
-- still has a job behind it, and no job leaves the list.
use netpool.Base.{
  ℕ, ◌≡◌, ◌⊎◌, refl, sym, ap, subst, ◌∙◌, inl, inr, Bool, true, false, Option, some, List, [], ◌∷◌,
  ◌++◌, arith, get_elem?,
}
use netpool.NetPoll.{IoJob, NetPoll, CtlOp}
use netpool.NetPoll.Held.{Keeps, Backs, Kept, Unchanged}

-- One of the jobs has the property.
abbrev pub Has : (IoJob → Type 0) → List IoJob → Type 0
Has P [] = true ≡ false
Has P (j ∷ js) = P j ⊎ Has P js

pub Has-map :
    (P Q : IoJob → Type 0) (js : List IoJob) → ((j : IoJob) → P j → Q j) → Has P js → Has Q js
Has-map P Q [] f h = h
Has-map P Q (j ∷ js) f (inl h) = inl (f j h)
Has-map P Q (j ∷ js) f (inr h) = inr (Has-map P Q js f h)

Has-swap :
    (P : IoJob → Type 0) (before : List IoJob) (j j' : IoJob) (after : List IoJob)
    → (P j → P j')
    → Has P (before ++ j ∷ after)
    → Has P (before ++ j' ∷ after)
Has-swap P [] j j' after f (inl h) = inl (f h)
Has-swap P [] j j' after f (inr h) = inr h
Has-swap P (b ∷ before) j j' after f (inl h) = inl h
Has-swap P (b ∷ before) j j' after f (inr h) = inr (Has-swap P before j j' after f h)

pub Has-at :
    (P : IoJob → Type 0) (before : List IoJob) (j : IoJob) (after : List IoJob)
    → P j
    → Has P (before ++ j ∷ after)
Has-at P [] j after h = inl h
Has-at P (b ∷ before) j after h = inr (Has-at P before j after h)

pub Has-append : (P : IoJob → Type 0) (js ks : List IoJob) → Has P js → Has P (js ++ ks)
Has-append P [] ks h = absurd (ground (arith, h))
Has-append P (j ∷ js) ks (inl h) = inl h
Has-append P (j ∷ js) ks (inr h) = inr (Has-append P js ks h)

-- A job of the thread stands at the address, so that its memory has not been freed.
abbrev pub Alive : (thrd_index a : ℕ) → List IoJob → Type 0
Alive i a js = Has (λ j. (j.addr ≡ a) × (j.thrd_index ≡ i)) js

module _ {E : Type 0} (epoll_ctl : CtlOp → Option ℕ → (fd : ℕ) → E → Bool × E)
    (holds : E → (epfd fd : ℕ) → Option ℕ) (keeps : Keeps epoll_ctl holds) where
  abbrev pub Behind : NetPoll → (x y a : ℕ) → IoJob → Type 0
  Behind p x y a j = Backs epoll_ctl holds keeps p x y a j

  -- Every entry of an epoll descriptor has a job behind it.
  abbrev pub Held : NetPoll → E → Type 0
  Held p e = (x y a : ℕ) → holds e x y ≡ some a → Has (Behind p x y a) p.io_jobs

  pub record Result (p : NetPoll) (e : E) (p' : NetPoll) (e' : E) : Type 0 where
    pub epfds : p'.epfds ≡ p.epfds
    pub held : Held p e → Held p' e'
    pub alive : (i a : ℕ) → Alive i a p.io_jobs → Alive i a p'.io_jobs

  pub Behind-epfds :
      (p p' : NetPoll) (x y a : ℕ) (j : IoJob)
      → p'.epfds ≡ p.epfds
      → Behind p x y a j
      → Behind p' x y a j
  Behind-epfds p p' x y a j same b = record {
    addr = b.addr;
    fd = b.fd;
    epfd = ap (λ es. get_elem? es j.thrd_index) same ∙ b.epfd;
    wanted = b.wanted;
    event = b.event;
  }

  -- The jobs and the epoll descriptors are the same, and the entries too.
  pub Result-same :
      (p p' : NetPoll) (e e' : E)
      → p'.io_jobs ≡ p.io_jobs
      → p'.epfds ≡ p.epfds
      → Unchanged epoll_ctl holds keeps p e e'
      → Result p e p' e'
  Result-same p p' e e' jobs epfds same = record {
    epfds = epfds;
    held = λ h x y a at. subst (Has (Behind p' x y a)) (sym jobs) (
        Has-map (Behind p x y a) (Behind p' x y a) p.io_jobs
          (λ j b. Behind-epfds p p' x y a j epfds b) (h x y a (sym (same x y) ∙ at)));
    alive = λ i a h. subst (Alive i a) (sym jobs) h;
  }

  -- A job has changed in its place.
  pub Result-changed :
      (p : NetPoll) (e : E) (before : List IoJob) (j j' : IoJob) (after : List IoJob) (e' : E)
      → p.io_jobs ≡ before ++ j ∷ after
      → Kept epoll_ctl holds keeps p j e j' e'
      → Result p e (record p { io_jobs = before ++ j' ∷ after }) e'
  Result-changed p e before j j' after e' at kept =
      let (addr, fd, thrd) = kept.same in
      let p' = record p { io_jobs = before ++ j' ∷ after } in
      record {
        epfds = refl;
        held = λ h x y a now. elim (kept.entries x y a now) [
          | inl new ↦ Has-at (Behind p' x y a) before j' after (Behind-epfds p p' x y a j' refl new)
          | inr (old, f) ↦
              Has-map (Behind p x y a) (Behind p' x y a) (before ++ j' ∷ after)
                (λ k b. Behind-epfds p p' x y a k refl b)
                (Has-swap (Behind p x y a) before j j' after f
                  (subst (Has (Behind p x y a)) at (h x y a old)))
        ];
        alive = λ i a h.
            Has-swap (λ j. (j.addr ≡ a) × (j.thrd_index ≡ i)) before j j' after
              (λ (ea, ei). (addr ∙ ea, thrd ∙ ei)) (subst (Alive i a) at h);
      }
