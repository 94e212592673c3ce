-- ===== src/JobIo/Deliver.antt =====
-- What the read handlers of netpool/src/CJobIo.cpp hand to the callback, and why they end.
use netpool.Base.{
  ℕ, ◌≡◌, refl, sym, ap, ◌⊎◌, inl, inr, Bool, true, Option, none, some, List, [], ◌∷◌, ◌++◌,
  if_cases,
}
use netpool.SocketWrap.{Errno, ebadf, eintr, eagain, other}
use netpool.JobIo.{
  RecvResult, received, recv_failed, Handled, call_then, stopped, call_last, tcp_answer, tcp_read,
  udp_answer, udp_read,
}

-- The bytes of the answers.
abbrev pub payload : List RecvResult → List ℕ
payload [] = []
payload (received bs ∷ rs) = bs ++ payload rs
payload (recv_failed e ∷ rs) = payload rs

abbrev pub concat : List (List ℕ) → List ℕ
concat [] = []
concat (bs ∷ bss) = bs ++ concat bss

abbrev pub last : {A : Type 0} → List A → Option A
last [] = none
last (x ∷ []) = some x
last (x ∷ y ∷ xs) = last (y ∷ xs)

last-cons : {A : Type 0} (x : A) (xs : List A) {r : A} → last xs ≡ some r → last (x ∷ xs) ≡ some r
last-cons x [] e = absurd (cc)
last-cons x (y ∷ xs) e = e

module _ {S : Type 0} (is_want_delete : S → Bool) (read_func : List ℕ → S → S) where
  -- The state after the calls, one after another.
  abbrev pub replay : List (List ℕ) → S → S
  replay [] s = s
  replay (bs ∷ bss) s = replay bss (read_func bs s)

  -- The loop has ended on one of these errors, with the script, by a call with no bytes, or since the job
  -- is to be deleted.
  pub record Delivers (quits : RecvResult → Type 0) (rs : List RecvResult) (s : S)
      (h : Handled is_want_delete read_func) : Type 0 where
    pub used : List RecvResult
    pub split : rs ≡ used ++ h.rest
    pub bytes : concat h.calls ≡ payload used
    pub state_is : h.state ≡ replay h.calls s
    pub cause :
        (is_want_delete h.state ≡ true)
        ⊎ (h.rest ≡ [])
        ⊎ ((r : RecvResult) × (last used ≡ some r) × quits r)
        ⊎ (last h.calls ≡ some [])

  module _ (quits : RecvResult → Type 0) where
    Delivers-stopped :
        (rs : List RecvResult) (s : S)
        → (is_want_delete s ≡ true) ⊎ (rs ≡ [])
        → Delivers quits rs s (stopped is_want_delete read_func rs s)
    unfolding stopped
    Delivers-stopped rs s why = record {
      used = [];
      split = refl;
      bytes = refl;
      state_is = refl;
      cause = elim why [ inl gone ↦ inl gone | inr drained ↦ inr (inl drained) ];
    }

    Delivers-quits :
        (r : RecvResult) (rs : List RecvResult) (s : S)
        → quits r
        → payload (r ∷ []) ≡ []
        → Delivers quits (r ∷ rs) s (stopped is_want_delete read_func rs s)
    unfolding stopped
    Delivers-quits r rs s q e = record {
      used = r ∷ [];
      split = refl;
      bytes = sym e;
      state_is = refl;
      cause = inr (inr (inl (r, refl, q)));
    }

    Delivers-call_last :
        (r : RecvResult) (rs : List RecvResult) (s : S)
        → payload (r ∷ []) ≡ []
        → Delivers quits (r ∷ rs) s (call_last is_want_delete read_func [] rs s)
    unfolding call_last
    Delivers-call_last r rs s e = record {
      used = r ∷ [];
      split = refl;
      bytes = sym e;
      state_is = refl;
      cause = inr (inr (inr refl));
    }

    -- An answer that is passed over.
    Delivers-skip :
        (err : Errno) (rs : List RecvResult) (s : S) (h : Handled is_want_delete read_func)
        → Delivers quits rs s h
        → Delivers quits (recv_failed err ∷ rs) s h
    Delivers-skip err rs s h d = record {
      used = recv_failed err ∷ d.used;
      split = ap (λ t. recv_failed err ∷ t) d.split;
      bytes = d.bytes;
      state_is = d.state_is;
      cause = elim d.cause [
        | inl gone ↦ inl gone
        | inr (inl drained) ↦ inr (inl drained)
        | inr (inr (inl (r, end, q))) ↦ inr (inr (inl (r, last-cons _ d.used end, q)))
        | inr (inr (inr closed)) ↦ inr (inr (inr closed))
      ];
    }

    -- An answer with bytes before the rest of the loop.
    Delivers-call_then :
        (b : ℕ) (bs : List ℕ) (rs : List RecvResult) (s : S) (h : Handled is_want_delete read_func)
        → Delivers quits rs (read_func (b ∷ bs) s) h
        → Delivers quits (received (b ∷ bs) ∷ rs) s (call_then is_want_delete read_func (b ∷ bs) h)
    unfolding call_then
    Delivers-call_then b bs rs s h d = record {
      used = received (b ∷ bs) ∷ d.used;
      split = ap (λ t. received (b ∷ bs) ∷ t) d.split;
      bytes = ap (λ t. (b ∷ bs) ++ t) d.bytes;
      state_is = d.state_is;
      cause = elim d.cause [
        | inl gone ↦ inl gone
        | inr (inl drained) ↦ inr (inl drained)
        | inr (inr (inl (r, end, q))) ↦ inr (inr (inl (r, last-cons _ d.used end, q)))
        | inr (inr (inr closed)) ↦ inr (inr (inr (last-cons (b ∷ bs) h.calls closed)))
      ];
    }

  abbrev pub Blocks : RecvResult → Type 0
  Blocks r = r ≡ recv_failed eagain

  abbrev pub Interrupts : RecvResult → Type 0
  Interrupts r = (r ≡ recv_failed eagain) ⊎ (r ≡ recv_failed eintr)

  tcp_answer-Delivers :
      (r : RecvResult) (rs : List RecvResult) (s : S)
      (continue : S → Handled is_want_delete read_func)
      → ((s : S) → Delivers Blocks rs s (continue s))
      → Delivers Blocks (r ∷ rs) s (tcp_answer is_want_delete read_func r rs s continue)
  unfolding tcp_answer
  tcp_answer-Delivers (received []) rs s continue more =
      Delivers-call_last _ (received []) rs s refl
  tcp_answer-Delivers (received (b ∷ bs)) rs s continue more =
      Delivers-call_then _ b bs rs s _ (more (read_func (b ∷ bs) s))
  tcp_answer-Delivers (recv_failed eagain) rs s continue more =
      Delivers-quits _ (recv_failed eagain) rs s refl refl
  tcp_answer-Delivers (recv_failed eintr) rs s continue more = Delivers-skip _ eintr rs s _ (more s)
  tcp_answer-Delivers (recv_failed ebadf) rs s continue more =
      Delivers-call_last _ (recv_failed ebadf) rs s refl
  tcp_answer-Delivers (recv_failed other) rs s continue more =
      Delivers-call_last _ (recv_failed other) rs s refl

  -- The bytes that `CTcpJob::read_evt_handle` hands to the callback are those that the answers it has used
  -- carry, in order, and the calls lead from the state before to the state after. It ends only on
  -- EAGAIN, with the script, by a call with no bytes (the peer has closed, or an error), or since the
  -- job is to be deleted.
  pub tcp_read-Delivers :
      (rs : List RecvResult) (s : S) → Delivers Blocks rs s (tcp_read is_want_delete read_func rs s)
  unfolding tcp_read
  tcp_read-Delivers [] s = Delivers-stopped _ [] s (inr refl)
  tcp_read-Delivers (r ∷ rs) s =
      if_cases (Delivers Blocks (r ∷ rs) s) (is_want_delete s)
        (λ gone. Delivers-stopped _ (r ∷ rs) s (inl gone))
        (λ _.
          tcp_answer-Delivers r rs s (tcp_read is_want_delete read_func rs) (tcp_read-Delivers rs))

  udp_answer-Delivers :
      (r : RecvResult) (rs : List RecvResult) (s : S)
      (continue : S → Handled is_want_delete read_func)
      → ((s : S) → Delivers Interrupts rs s (continue s))
      → Delivers Interrupts (r ∷ rs) s (udp_answer is_want_delete read_func r rs s continue)
  unfolding udp_answer
  udp_answer-Delivers (received []) rs s continue more =
      Delivers-call_last _ (received []) rs s refl
  udp_answer-Delivers (received (b ∷ bs)) rs s continue more =
      Delivers-call_then _ b bs rs s _ (more (read_func (b ∷ bs) s))
  udp_answer-Delivers (recv_failed eagain) rs s continue more =
      Delivers-quits _ (recv_failed eagain) rs s (inl refl) refl
  udp_answer-Delivers (recv_failed eintr) rs s continue more =
      Delivers-quits _ (recv_failed eintr) rs s (inr refl) refl
  udp_answer-Delivers (recv_failed ebadf) rs s continue more =
      Delivers-call_last _ (recv_failed ebadf) rs s refl
  udp_answer-Delivers (recv_failed other) rs s continue more =
      Delivers-call_last _ (recv_failed other) rs s refl

  -- The bytes that `CUdpJob::read_evt_handle` hands to the callback are those that the answers it has used
  -- carry, in order, and the calls lead from the state before to the state after. It ends only on
  -- EAGAIN or EINTR, with the script, by a call with no bytes, or since the job is to be deleted.
  pub udp_read-Delivers :
      (rs : List RecvResult) (s : S)
      → Delivers Interrupts rs s (udp_read is_want_delete read_func rs s)
  unfolding udp_read
  udp_read-Delivers [] s = Delivers-stopped _ [] s (inr refl)
  udp_read-Delivers (r ∷ rs) s =
      if_cases (Delivers Interrupts (r ∷ rs) s) (is_want_delete s)
        (λ gone. Delivers-stopped _ (r ∷ rs) s (inl gone))
        (λ _.
          udp_answer-Delivers r rs s (udp_read is_want_delete read_func rs) (udp_read-Delivers rs))
