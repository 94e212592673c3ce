-- ===== src/SocketWrap/Write.antt =====
-- What `sock_write_timeout` promises about the bytes that reach the socket.
use netpool.Base.{
  ℕ, ◌+◌, ◌-◌, ◌≤◌, ◌≡◌, refl, sym, ap, ◌∙◌, false, Option, some, ◌⊎◌, inl, inr, List, [], ◌∷◌,
  ◌++◌, append-nil, append_assoc, arith, of_some_eq, length, length-append, take, drop,
  take-append-drop, length-drop, All, none,
}
use netpool.SocketWrap.{
  sock_writeable, round_progress, Ready, is_ready, not_ready, bad_fd, SendResult, accepts,
  send_failed, Progress, waits, takes, fails, stops, after_round, Errno, ebadf, eintr, eagain,
  other, Round, Written, retries, sock_write_loop, sock_write_timeout,
}

-- No error of send() is retried: EINTR and EAGAIN are never the same error.
pub retries-false : (e : Errno) → retries e ≡ false
unfolding retries
retries-false ebadf = refl
retries-false eintr = refl
retries-false eagain = refl
retries-false other = refl

-- Of the rounds before those that are left, the last is one in which the socket was ready and send() failed.
pub record EndsInError (rounds : List Round) (w : Written) : Type 0 where
  pub front : List Round
  pub last : Round
  pub errno : Errno
  pub used : rounds ≡ front ++ last ∷ w.rest
  pub ready : sock_writeable last.selects ≡ some is_ready
  pub failed : last.answer ≡ send_failed errno

-- The bytes on the wire grow by a prefix of the buffer; the result tells how much is left of it,
-- unless it is the 0 of an error of send(), with bytes left.
abbrev Sent : ℕ → List Round → List ℕ → List ℕ → Written → Type 0
Sent send_len rounds buf wire w =
    (sent : List ℕ) × (rest : List ℕ) × (buf ≡ sent ++ rest)
    × (w.wire ≡ wire ++ sent)
    × ((w.ret + length rest ≡ send_len) ⊎ ((w.ret ≡ 0) × (1 ≤ length rest) × EndsInError rounds w))

sent_none :
    (send_len : ℕ) (rounds : List Round) (buf wire : List ℕ) (w : Written)
    → w.wire ≡ wire
    → (w.ret + length buf ≡ send_len) ⊎ ((w.ret ≡ 0) × (1 ≤ length buf) × EndsInError rounds w)
    → Sent send_len rounds buf wire w
sent_none send_len rounds buf wire w e r = ([], buf, refl, e ∙ sym (append-nil wire), r)

-- One more round before.
later_error :
    (r : Round) (rounds : List Round) (w : Written)
    → EndsInError rounds w
    → EndsInError (r ∷ rounds) w
later_error r rounds w h = record {
  front = r ∷ h.front;
  last = h.last;
  errno = h.errno;
  used = ap (λ t. r ∷ t) h.used;
  ready = h.ready;
  failed = h.failed;
}

sent_more :
    (send_len n : ℕ) (r : Round) (rounds : List Round) (buf wire : List ℕ) (w : Written)
    → Sent send_len rounds (drop n buf) (wire ++ take n buf) w
    → Sent send_len (r ∷ rounds) buf wire w
sent_more send_len n r rounds buf wire w (sent, rest, split, onto, count) = (
  take n buf ++ sent,
  rest,
  sym (take-append-drop n buf) ∙ ap (λ t. take n buf ++ t) split ∙ sym (append_assoc _ sent rest),
  onto ∙ append_assoc wire _ sent,
  elim count [
    | inl all ↦ inl all
    | inr (zero_ret, some_left, err) ↦ inr (zero_ret, some_left, later_error r rounds w err)
  ],
)

-- A round fails where the socket is ready and send() fails.
round_fails :
    (o : Option Ready) (a : SendResult)
    → round_progress o a ≡ fails
    → (o ≡ some is_ready) × (e : Errno) × (a ≡ send_failed e)
unfolding round_progress
round_fails none a h = absurd (ground (arith, h))
round_fails (some is_ready) (accepts n) h = absurd (ground (arith, h))
round_fails (some is_ready) (send_failed e) h = (refl, e, refl)
round_fails (some not_ready) a h = absurd (ground (arith, h))
round_fails (some bad_fd) a h = absurd (ground (arith, h))

after_round_cases :
    (P : Written → Type 0) (p : Progress) (continue : ℕ → Option Written) (failed stopped : Written)
    {w : Written}
    → ((n : ℕ) → continue n ≡ some w → P w)
    → (p ≡ fails → P failed)
    → P stopped
    → after_round p continue failed stopped ≡ some w
    → P w
unfolding after_round
after_round_cases P waits continue failed stopped h f s e = cc
after_round_cases P (takes n) continue failed stopped h f s e = h n e
after_round_cases P fails continue failed stopped h f s e = of_some_eq P failed (f refl) e
after_round_cases P stops continue failed stopped h f s e = of_some_eq P stopped s e

loop-Sent :
    (send_len : ℕ) (rounds : List Round) (buf wire : List ℕ) (w : Written)
    → length buf ≤ send_len
    → sock_write_loop send_len rounds buf wire ≡ some w
    → Sent send_len rounds buf wire w
unfolding sock_write_loop after_round
loop-Sent send_len rounds [] wire w h e =
    sent_none send_len rounds [] wire w (ground arith) (inl (ground arith))
loop-Sent send_len [] (b ∷ buf) wire w h e = cc
loop-Sent send_len (r ∷ rounds) (b ∷ buf) wire w h e =
    let failed : Written = record { ret = 0; wire = wire; rest = rounds } in
    let left : ℕ = length (b ∷ buf) in
    let stopped : Written = record { ret = send_len - left; wire = wire; rest = rounds } in
    after_round_cases (Sent send_len (r ∷ rounds) (b ∷ buf) wire) _ _ failed stopped
      (λ n e'.
        sent_more send_len n r rounds (b ∷ buf) wire w
          (loop-Sent send_len rounds _ _ w (omega (arith, length-drop n (b ∷ buf))) e'))
      (λ p.
        let (ready, errno, answer) = round_fails (sock_writeable r.selects) r.answer p in
        sent_none send_len (r ∷ rounds) (b ∷ buf) wire failed refl (
          inr (
            refl,
            omega arith,
            record {
              front = [];
              last = r;
              errno = errno;
              used = refl;
              ready = ready;
              failed = answer;
            },
          )))
      (sent_none send_len (r ∷ rounds) (b ∷ buf) wire stopped refl (inl (omega arith))) e

nil_of_length : (rest : List ℕ) → length rest ≡ 0 → rest ≡ []
nil_of_length [] e = refl
nil_of_length (b ∷ rest) e = absurd (omega arith)

-- A result that is the length of the buffer leaves nothing of it over.
pub written_whole :
    (ret : ℕ) (buf sent rest : List ℕ)
    → buf ≡ sent ++ rest
    → (ret ≡ length sent) ⊎ (ret ≡ 0)
    → ret ≡ length buf
    → rest ≡ []
written_whole ret buf sent rest split count full =
    nil_of_length rest (ground (arith, ap length split, length-append sent rest))

-- select() decides at last, and send() takes a byte or fails.
abbrev pub Advances : Round → Type 0
Advances r =
    ((v : Ready) × (sock_writeable r.selects ≡ some v)) × ((n : ℕ) → r.answer ≡ accepts n → 1 ≤ n)

-- Each round takes a byte, or ends the loop.
after_round_returns :
    (o : Option Ready) (a : SendResult) (continue : ℕ → Option Written) (failed stopped : Written)
    → (v : Ready) × (o ≡ some v)
    → ((n : ℕ) → a ≡ accepts n → (w : Written) × (continue n ≡ some w))
    → (w : Written) × (after_round (round_progress o a) continue failed stopped ≡ some w)
unfolding after_round round_progress
after_round_returns none a continue failed stopped (v, e) h = absurd (ground (arith, e))
after_round_returns (some is_ready) (accepts n) continue failed stopped d h = h n refl
after_round_returns (some is_ready) (send_failed e) continue failed stopped d h =
    rw (retries-false e) (failed, refl)
after_round_returns (some not_ready) a continue failed stopped d h = (stopped, refl)
after_round_returns (some bad_fd) a continue failed stopped d h = (stopped, refl)

sock_write_loop_returns :
    (send_len : ℕ) (rounds : List Round) (buf wire : List ℕ)
    → All Advances rounds
    → length buf ≤ length rounds
    → (w : Written) × (sock_write_loop send_len rounds buf wire ≡ some w)
unfolding sock_write_loop
sock_write_loop_returns send_len rounds [] wire all h = (_, refl)
sock_write_loop_returns send_len [] (b ∷ buf) wire all h = absurd (omega (arith, h))
sock_write_loop_returns send_len (r ∷ rounds) (b ∷ buf) wire ((decides, moves), all) h =
    after_round_returns (sock_writeable r.selects) r.answer _ _ _ decides (λ n at.
      sock_write_loop_returns send_len rounds _ _ all
        (omega (arith, h, moves n at, length-drop n (b ∷ buf))))

-- What the result of a whole call says: the length of the prefix that was sent, or the 0 of an error.
abbrev pub Tells : (rounds : List Round) (sent rest : List ℕ) → Written → Type 0
Tells rounds sent rest w =
    (w.ret ≡ length sent) ⊎ ((w.ret ≡ 0) × (1 ≤ length rest) × EndsInError rounds w)

sock_write_timeout-Tells :
    (rounds : List Round) (buf wire : List ℕ) (w : Written)
    → sock_write_timeout rounds buf wire ≡ some w
    → (sent : List ℕ) × (rest : List ℕ) × (buf ≡ sent ++ rest)
      × (w.wire ≡ wire ++ sent)
      × Tells rounds sent rest w
unfolding sock_write_timeout
sock_write_timeout-Tells rounds buf wire w e =
    let (sent, rest, split, onto, count) =
      loop-Sent (length buf) rounds buf wire w (omega arith) e in
    let total : length buf ≡ length (sent ++ rest) = ap length split in
    (
      sent,
      rest,
      split,
      onto,
      elim count [
        | inl all ↦ inl (omega (arith, all, total, length-append sent rest))
        | inr err ↦ inr err
      ],
    )

-- Where `sock_write_timeout` has returned.
pub sock_write_timeout-prefix :
    (rounds : List Round) (buf wire : List ℕ) (w : Written)
    → sock_write_timeout rounds buf wire ≡ some w
    → (sent : List ℕ) × (rest : List ℕ) × (buf ≡ sent ++ rest)
      × (w.wire ≡ wire ++ sent)
      × ((w.ret ≡ length sent) ⊎ (w.ret ≡ 0))
sock_write_timeout-prefix rounds buf wire w e =
    let (sent, rest, split, onto, count) = sock_write_timeout-Tells rounds buf wire w e in
    (
      sent,
      rest,
      split,
      onto,
      elim count [ inl all ↦ inl all | inr (none_told, _, _) ↦ inr none_told ],
    )

-- If in every round select() decides at last and send() takes a byte or fails, and there are as many
-- rounds as bytes, `sock_write_timeout` returns; the socket has taken, in order, a prefix of the
-- buffer, and the result is the length of that prefix; or it is 0, not the whole buffer has been taken,
-- and in the last round that was used the socket was ready and send() failed.
pub sock_write_timeout_returns :
    (rounds : List Round) (buf wire : List ℕ)
    → All Advances rounds
    → length buf ≤ length rounds
    → (w : Written) × (sock_write_timeout rounds buf wire ≡ some w)
      × (sent : List ℕ) × (rest : List ℕ) × (buf ≡ sent ++ rest)
      × (w.wire ≡ wire ++ sent)
      × Tells rounds sent rest w
unfolding sock_write_timeout
sock_write_timeout_returns rounds buf wire all enough =
    let (w, run) = sock_write_loop_returns (length buf) rounds buf wire all enough in
    let (sent, rest, split, onto, count) = sock_write_timeout-Tells rounds buf wire w run in
    (w, run, sent, rest, split, onto, count)
