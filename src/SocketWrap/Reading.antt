-- ===== src/SocketWrap/Reading.antt =====
-- What `sock_read_timeout` (xutil/src/socketwrap.cpp) returns.
use netpool.Base.{
  ℕ, zero, suc, ◌+◌, ◌-◌, ◌≤◌, ◌≡◌, refl, sym, ap, ◌∙◌, Option, none, some, ◌⊎◌, inl, inr, List, [],
  ◌∷◌, ◌++◌, append_assoc, arith, length, length-append, take, drop, All, ◌==◌, if_cases,
}
use netpool.SocketWrap.{
  Ready, is_ready, not_ready, bad_fd, SelectResult, RecvResult, delivers, recv_failed, ReadRound,
  Read, receives, read_fails, breaks, read_progress, sock_readable, sock_read_loop,
  sock_read_timeout,
}
use netpool.SocketWrap.Write.{retries-false}

-- select() says something other than EINTR or EAGAIN at last.
abbrev pub Decides : List SelectResult → Type 0
Decides answers = (v : Ready) × (sock_readable answers ≡ some v)

progress_cases :
    (o : Option Ready) (a : RecvResult)
    → (v : Ready) × (o ≡ some v)
    → ((n : ℕ) × (read_progress o a ≡ receives n))
      ⊎ (read_progress o a ≡ read_fails)
      ⊎ (read_progress o a ≡ breaks)
unfolding read_progress
progress_cases none a (v, e) = absurd (ground (arith, e))
progress_cases (some is_ready) (delivers n) d = inl (n, refl)
progress_cases (some is_ready) (recv_failed e) d = inr (inl (rw (retries-false e) refl))
progress_cases (some not_ready) a d = inr (inr refl)
progress_cases (some bad_fd) a d = inr (inr refl)

-- The call has returned; it has moved bytes from the front of the stream to the end of the buffer, not more
-- than there is room for, and its result is how many the buffer holds, or 0.
abbrev pub ReadsFrom : (len : ℕ) → (got stream : List ℕ) → Option Read → Type 0
ReadsFrom len got stream o =
    (r : Read) × (o ≡ some r)
    × (got ++ stream ≡ r.buf ++ r.stream)
    × (length r.buf ≤ len)
    × ((r.ret ≡ length r.buf) ⊎ (r.ret ≡ 0))

-- The bytes that recv() stores, and those that stay.
received :
    (n m : ℕ) (xs : List ℕ)
    → let bytes = take n (take m xs) in (bytes ++ drop (length bytes) xs ≡ xs) × (length bytes ≤ m)
received zero m xs = (refl, omega arith)
received (suc n) zero xs = (refl, omega arith)
received (suc n) (suc m) [] = (refl, omega arith)
received (suc n) (suc m) (x ∷ xs) =
    let (e, h) = received n m xs in (ap (λ t. x ∷ t) e, omega (arith, h))

-- The room that the bytes leave.
stored_fits :
    (len : ℕ) (got bytes : List ℕ)
    → length got ≤ len
    → length bytes ≤ len - length got
    → length (got ++ bytes) ≤ len
stored_fits len got bytes h k = omega (arith, length-append got bytes, h, k)

sock_read_loop-ReadsFrom :
    (len : ℕ) (rounds : List ReadRound) (got stream : List ℕ)
    → All (λ r. Decides r.selects) rounds
    → length got ≤ len
    → 1 ≤ length rounds
    → len ≤ length got + length rounds
    → ReadsFrom len got stream (sock_read_loop len rounds got stream)
unfolding sock_read_loop
sock_read_loop-ReadsFrom len [] got stream decide fits some_round enough =
    absurd (omega (arith, some_round))
sock_read_loop-ReadsFrom len (r ∷ rounds) got stream (d, ds) fits some_round enough =
    let P = ReadsFrom len got stream in
    elim (progress_cases (sock_readable r.selects) r.answer d) [
      | inl (n, at) ↦
          let bytes = take n (take (len - length got) stream) in
          let (whole, small) = received n (len - length got) stream in
          let left = drop (length bytes) stream in
          let same : got ++ stream ≡ (got ++ bytes) ++ left =
            ap (λ t. got ++ t) (sym whole) ∙ sym (append_assoc got bytes left) in
          let room = stored_fits len got bytes fits small in
          let total = length-append got bytes in
          rw (at, sock_read_loop)
            (if_cases P (length bytes == 0) (λ closed. (_, refl, same, room, inr refl))
              (λ some_byte.
                if_cases P (length (got ++ bytes) == len)
                  (λ full. (_, refl, same, room, inl (ground (arith, full))))
                  (λ short.
                    let (r, returned, stays, small, count) =
                      sock_read_loop-ReadsFrom len rounds (got ++ bytes) left ds room
                        (ground (arith, some_byte, short, total, enough, room))
                        (ground (arith, some_byte, total, enough)) in
                    (r, returned, same ∙ stays, small, count))))
      | inr (inl at) ↦ rw (at, sock_read_loop) (_, refl, refl, fits, inr refl)
      | inr (inr at) ↦ rw (at, sock_read_loop) (_, refl, refl, fits, inl refl)
    ]

-- If select() decides in every round at last, and there are as many rounds as there are bytes asked
-- for, and one at least, `sock_read_timeout` returns. The bytes that it has put in the buffer are the
-- front of the stream, in order, not more than asked for, and the rest of the stream is still to be
-- received; the result is how many they are, or 0.
pub sock_read_timeout-ReadsFrom :
    (len : ℕ) (rounds : List ReadRound) (stream : List ℕ)
    → All (λ r. Decides r.selects) rounds
    → 1 ≤ length rounds
    → len ≤ length rounds
    → ReadsFrom len [] stream (sock_read_timeout len rounds stream)
unfolding sock_read_timeout
sock_read_timeout-ReadsFrom len rounds stream decide some_round enough =
    sock_read_loop-ReadsFrom len rounds [] stream decide (omega arith) some_round
      (omega (arith, enough))
