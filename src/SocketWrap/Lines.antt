-- ===== src/SocketWrap/Lines.antt =====
-- What `sock_recv_line` (xutil/src/socketwrap.cpp) reads.
use netpool.Base.{
  ℕ, zero, suc, ◌+◌, ◌-◌, ◌%◌, ◌^◌, ◌≤◌, ◌<◌, ◌≡◌, refl, sym, ap, ◌∙◌, subst, false, Option, some,
  ◌⊎◌, inl, inr, List, [], ◌∷◌, ◌++◌, append-nil, append_assoc, arith, length, All, take,
  Bool-cases, leb, ◌==◌, if◌then◌else◌, drop,
}
use netpool.SocketWrap.{
  is_ready, ReadRound, delivers, recv_ok, recv_error, Line, line_byte, is_nul, is_newline,
  is_return, is_kept, read_progress, sock_readable, sock_read_loop, sock_read_timeout,
  recv_line_loop, sock_recv_line,
}

-- The answers have a byte ready.
abbrev pub Serves : ReadRound → Type 0
Serves r = (sock_readable r.selects ≡ some is_ready) × (n : ℕ) × (r.answer ≡ delivers (suc n))

-- The line without its carriage returns.
abbrev pub no_returns : List ℕ → List ℕ
no_returns [] = []
no_returns (c ∷ cs) = let rest = no_returns cs in if c == 13 then rest else c ∷ rest

-- The byte does not end a line.
abbrev pub InLine : ℕ → Type 0
InLine c = ((c == 0) ≡ false) × ((c == 10) ≡ false)

read_one :
    (r : ReadRound) (rounds : List ReadRound) (c : ℕ) (stream : List ℕ)
    → Serves r
    → sock_read_timeout 1 (r ∷ rounds) (c ∷ stream)
      ≡ some (record { ret = 1; buf = c ∷ []; stream = stream; rest = rounds })
unfolding sock_read_timeout sock_read_loop read_progress
read_one r rounds c stream (ready, zero, at) = rw (ready, at, sock_read_loop) refl
read_one r rounds c stream (ready, suc n, at) = rw (ready, at, sock_read_loop) refl

line_step :
    (fuel room : ℕ) (r : ReadRound) (rounds : List ReadRound) (buf : List ℕ) (c : ℕ)
    (stream : List ℕ)
    → Serves r
    → recv_line_loop (suc fuel) (suc room) (r ∷ rounds) buf (c ∷ stream) ≡ elim (line_byte c) [
      | is_nul ↦ some (record { ret = recv_ok; buf = buf; stream = stream; rest = rounds })
      | is_newline ↦ some (record { ret = recv_ok; buf = buf; stream = stream; rest = rounds })
      | is_return ↦ recv_line_loop fuel (suc room) rounds buf stream
      | is_kept ↦ recv_line_loop fuel room rounds (buf ++ c ∷ []) stream
    ]
unfolding recv_line_loop
line_step fuel room r rounds buf c stream serves =
    rw (read_one r rounds c stream serves, recv_line_loop) refl

-- What a byte of the line does.
byte_step :
    (fuel room : ℕ) (r : ReadRound) (rounds : List ReadRound) (buf : List ℕ) (c : ℕ)
    (stream : List ℕ)
    → Serves r
    → InLine c
    → recv_line_loop (suc fuel) (suc room) (r ∷ rounds) buf (c ∷ stream) ≡ (
        if c == 13
        then recv_line_loop fuel (suc room) rounds buf stream
        else recv_line_loop fuel room rounds (buf ++ c ∷ []) stream)
unfolding line_byte
byte_step fuel room r rounds buf c stream serves (not_nul, not_newline) =
    line_step fuel room r rounds buf c stream serves ∙ ground (arith, not_nul, not_newline)

-- The whole line fits.
loop_fits :
    (fuel room : ℕ) (rounds : List ReadRound) (buf line stream : List ℕ)
    → All InLine line
    → All Serves rounds
    → length line < length rounds
    → length rounds < fuel
    → length (no_returns line) < room
    → recv_line_loop fuel room rounds buf (line ++ 10 ∷ stream)
      ≡ some (record {
        ret = recv_ok;
        buf = buf ++ no_returns line;
        stream = stream;
        rest = drop (suc (length line)) rounds;
      })
unfolding line_byte
loop_fits zero room rounds buf line stream inside serve some_round enough fits =
    absurd (omega (arith, enough))
loop_fits (suc fuel) zero rounds buf line stream inside serve some_round enough fits =
    absurd (omega (arith, fits))
loop_fits (suc fuel) (suc room) [] buf line stream inside serve some_round enough fits =
    absurd (omega (arith, some_round))
loop_fits (suc fuel) (suc room) (r ∷ rounds) buf [] stream inside (s, serve) some_round enough
      fits =
    line_step fuel room r rounds buf 10 stream s
    ∙ ap (λ b. some (record { ret = recv_ok; buf = b; stream = stream; rest = rounds }))
        (sym (append-nil buf))
loop_fits (suc fuel) (suc room) (r ∷ rounds) buf (c ∷ line) stream (i, inside) (s, serve) some_round
      enough fits =
    byte_step fuel room r rounds buf c (line ++ 10 ∷ stream) s i ∙ (elim (Bool-cases (c == 13)) [
      | inl skipped ↦
          let left =
            subst (λ b. length (if b then no_returns line else c ∷ no_returns line) < suc room)
              skipped fits in
          rw skipped (
            loop_fits fuel (suc room) rounds buf line stream inside serve
              (omega (arith, some_round)) (omega (arith, enough)) left)
      | inr kept ↦
          let left =
            subst (λ b. length (if b then no_returns line else c ∷ no_returns line) < suc room) kept
              fits in
          rw kept (
            loop_fits fuel room rounds (buf ++ c ∷ []) line stream inside serve
              (omega (arith, some_round)) (omega (arith, enough)) (omega (arith, left))
            ∙ ap
                (λ b. some (record {
                  ret = recv_ok;
                  buf = b;
                  stream = stream;
                  rest = drop (suc (length line)) rounds;
                }))
                (append_assoc buf (c ∷ []) (no_returns line)))
    ])

-- The room is used up before the line ends.
abbrev pub CutShort : (stream kept : List ℕ) → Option Line → Type 0
CutShort stream kept o =
    (l : Line) × (left : List ℕ) × (o ≡ some l)
    × (l.ret ≡ recv_error)
    × (l.buf ≡ kept)
    × (l.stream ≡ left ++ 10 ∷ stream)

loop-CutShort :
    (fuel room : ℕ) (rounds : List ReadRound) (buf line stream : List ℕ)
    → All InLine line
    → All Serves rounds
    → length line < length rounds
    → length rounds < fuel
    → room ≤ length (no_returns line)
    → CutShort stream
        (buf ++ take room (no_returns line))
        (recv_line_loop fuel room rounds buf (line ++ 10 ∷ stream))
unfolding recv_line_loop
loop-CutShort zero room rounds buf line stream inside serve some_round enough full =
    absurd (omega (arith, enough))
loop-CutShort (suc fuel) zero rounds buf line stream inside serve some_round enough full =
    (_, line, refl, refl, sym (append-nil buf), refl)
loop-CutShort (suc fuel) (suc room) [] buf line stream inside serve some_round enough full =
    absurd (omega (arith, some_round))
loop-CutShort (suc fuel) (suc room) (r ∷ rounds) buf [] stream inside serve some_round enough full =
    absurd (omega (arith, full))
loop-CutShort (suc fuel) (suc room) (r ∷ rounds) buf (c ∷ line) stream (i, inside) (s, serve)
      some_round enough full =
    subst (CutShort stream (buf ++ take (suc room) (no_returns (c ∷ line))))
      (sym (byte_step fuel room r rounds buf c (line ++ 10 ∷ stream) s i))
      (elim (Bool-cases (c == 13)) [
        | inl skipped ↦
            let left =
              subst (λ b. suc room ≤ length (if b then no_returns line else c ∷ no_returns line))
                skipped full in
            rw skipped (
              loop-CutShort fuel (suc room) rounds buf line stream inside serve
                (omega (arith, some_round)) (omega (arith, enough)) left)
        | inr kept ↦
            let left =
              subst (λ b. suc room ≤ length (if b then no_returns line else c ∷ no_returns line))
                kept full in
            rw kept (
              subst
                (λ b.
                  CutShort stream b
                    (recv_line_loop fuel room rounds (buf ++ c ∷ []) (line ++ 10 ∷ stream)))
                (append_assoc buf (c ∷ []) (take room (no_returns line)))
                (loop-CutShort fuel room rounds (buf ++ c ∷ []) line stream inside serve
                  (omega (arith, some_round)) (omega (arith, enough)) (omega (arith, left))))
      ])

wrap_minus_one : (n : ℕ) → 1 ≤ n → n < 2 ^ 64 → (n + (2 ^ 64 - 1)) % 2 ^ 64 ≡ n - 1
wrap_minus_one n low high = omega (arith, low, high)

-- If every answer has a byte ready, there are more answers than the line has bytes, and the line has no NUL and
-- no newline of its own, `sock_recv_line` returns. Either the line without its carriage returns is at least
-- two bytes shorter than the buffer: then it succeeds with exactly that in the buffer, having read up to the
-- newline and no further. Or it is longer: then it fails with the front of it, one byte less than the
-- buffer, and the newline is still to be received.
pub sock_recv_line_reads :
    (bufsiz : ℕ) (rounds : List ReadRound) (line stream : List ℕ)
    → 1 ≤ bufsiz
    → bufsiz < 2 ^ 64
    → All InLine line
    → All Serves rounds
    → length line < length rounds
    → let result = sock_recv_line bufsiz rounds (line ++ 10 ∷ stream) in
      ((length (no_returns line) + 2 ≤ bufsiz)
        × (result
            ≡ some (record {
              ret = recv_ok;
              buf = no_returns line;
              stream = stream;
              rest = drop (suc (length line)) rounds;
            })))
      ⊎ ((bufsiz ≤ length (no_returns line) + 1)
          × CutShort stream (take (bufsiz - 1) (no_returns line)) result)
unfolding sock_recv_line
sock_recv_line_reads bufsiz rounds line stream low high inside serve more =
    let room = (bufsiz + (2 ^ 64 - 1)) % 2 ^ 64 in
    let size : room ≡ bufsiz - 1 = wrap_minus_one bufsiz low high in
    elim (Bool-cases (leb bufsiz (length (no_returns line) + 1))) [
      | inl long ↦ inr (
        ground (arith, long),
        subst
            (λ n.
              CutShort stream (take n (no_returns line))
                (recv_line_loop (length rounds + 1) room rounds [] (line ++ 10 ∷ stream)))
            size
            (loop-CutShort (length rounds + 1) room rounds [] line stream inside serve more
              (omega arith) (ground (arith, long, size))),
      )
      | inr short ↦ inl (
        ground (arith, short),
        loop_fits (length rounds + 1) room rounds [] line stream inside serve more (omega arith)
            (ground (arith, short, size)),
      )
    ]
