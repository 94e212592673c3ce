-- ===== src/LogProc/Drain.antt =====
-- The writing thread of xutil/src/logproc.cpp empties the ring into files, which it closes, checks and
-- opens again every 2^20 characters.
use netpool.Base.{
  ℕ, zero, suc, ◌+◌, ◌-◌, ◌/◌, ◌%◌, ◌^◌, ◌≤◌, ◌<◌, ◌≡◌, ◌⊎◌, inl, inr, refl, sym, ap, ◌∙◌, true,
  false, some, List, [], ◌∷◌, ◌++◌, append-nil, append_assoc, arith, ◌==◌, if◌then◌else◌, length,
  length-append, take_all, Bool-cases, subst, if_cases, ltb,
}
use netpool.LogProc.{
  queue_in, logger_write, Reopen, Writer, put_out, reopen_file, after_put, drained, drain,
}
use netpool.LogProc.Ring.{IsRing, contents, room, queue_in-contents, queue_out_nil, queue_out_cons}

module _ (max_kb max_cnt : ℕ) (reopen : (turn : ℕ) → Reopen) where
  -- What the loop has done with the characters of the queue: it has written the first of them, in order, and
  -- opened the file again at every multiple of 2^20; it has ended with an empty queue and an open file,
  -- or just after a fopen() that failed, at a multiple of 2^20.
  pub record Drains (s : Writer) (cs : List ℕ) (s' : Writer) : Type 0 where
    pub sent : List ℕ
    pub left : List ℕ
    pub split : cs ≡ sent ++ left
    pub written : s'.written ≡ s.written ++ sent
    pub kept : contents s'.queue ≡ left
    pub count : s'.count ≡ s.count + length sent
    pub turns : s'.turns + s.count / 2 ^ 20 ≡ s.turns + s'.count / 2 ^ 20
    pub ends :
        ((s'.is_open ≡ true) × (left ≡ []))
        ⊎ ((s'.is_open ≡ false)
            × (s'.count % 2 ^ 20 ≡ 0)
            × (turn : ℕ) × (s'.turns ≡ suc turn)
            × ((reopen turn).opened ≡ false))

  -- The file after a character, where it is open again.
  abbrev next_file : Writer → Writer
  next_file s = if s.count % 2 ^ 20 == 0 then reopen_file max_kb max_cnt reopen s else s

  record Turned (s t : Writer) : Type 0 where
    written : t.written ≡ s.written
    count : t.count ≡ s.count
    queue : t.queue ≡ s.queue
    turns : t.turns + (s.count - 1) / 2 ^ 20 ≡ s.turns + s.count / 2 ^ 20
    failed :
        t.is_open ≡ false
        → (s.count % 2 ^ 20 ≡ 0) × (t.turns ≡ suc s.turns) × ((reopen s.turns).opened ≡ false)

  next_file-Turned : (s : Writer) → 0 < s.count → s.is_open ≡ true → Turned s (next_file s)
  unfolding reopen_file
  next_file-Turned s some_out ready =
      if_cases (Turned s) (s.count % 2 ^ 20 == 0)
        (λ at. record {
          written = refl;
          count = refl;
          queue = refl;
          turns = ground arith;
          failed = λ h. (ground arith, omega arith, h);
        })
        (λ off. record {
          written = refl;
          count = refl;
          queue = refl;
          turns = ground arith;
          failed = λ h. absurd (ground (arith, ready, h));
        })

  drain-Drains :
      (fuel : ℕ) (s : Writer) (cs : List ℕ)
      → IsRing s.queue
      → contents s.queue ≡ cs
      → length cs < fuel
      → s.is_open ≡ true
      → (s' : Writer) × (drain max_kb max_cnt reopen fuel s ≡ some s') × Drains s cs s'
  unfolding drain drained after_put put_out
  drain-Drains zero s cs v e h ready = absurd (omega arith)
  drain-Drains (suc fuel) s [] v e h ready = (
    s,
    ap (λ t. drained max_kb max_cnt reopen s t (drain max_kb max_cnt reopen fuel))
        (queue_out_nil s.queue v e),
    record {
      sent = [];
      left = [];
      split = refl;
      written = sym (append-nil s.written);
      kept = e;
      count = omega arith;
      turns = refl;
      ends = inl (ready, refl);
    },
  )
  drain-Drains (suc fuel) s (c ∷ cs) v e h ready =
      let (lq, out, v', e') = queue_out_cons s.queue c cs v e in
      let put = put_out s c lq in
      let next = next_file put in
      let turned = next_file-Turned put (omega arith) ready in
      let step : drain max_kb max_cnt reopen (suc fuel) s
          ≡ (if next.is_open then drain max_kb max_cnt reopen fuel next else some next) =
        ap (λ t. drained max_kb max_cnt reopen s t (drain max_kb max_cnt reopen fuel)) out in
      elim (Bool-cases next.is_open) [
        | inr closed ↦
            let (at, turn, fails) = turned.failed closed in
            (
              next,
              step ∙ rw closed refl,
              record {
                sent = c ∷ [];
                left = cs;
                split = refl;
                written = turned.written;
                kept = ap contents turned.queue ∙ e';
                count = turned.count;
                turns = omega (arith, turned.turns, turned.count);
                ends = inr (closed, ap (λ n. n % 2 ^ 20) turned.count ∙ at, s.turns, turn, fails);
              },
            )
        | inl still ↦
            let (s', run, d) =
              drain-Drains fuel next cs (subst IsRing (sym turned.queue) v')
                (ap contents turned.queue ∙ e') (omega arith) still in
            (
              s',
              step ∙ rw still run,
              record {
                sent = c ∷ d.sent;
                left = d.left;
                split = ap (λ t. c ∷ t) d.split;
                written =
                    d.written
                    ∙ ap (λ t. t ++ d.sent) turned.written
                    ∙ append_assoc s.written (c ∷ []) d.sent;
                kept = d.kept;
                count = omega (arith, d.count, turned.count);
                turns = omega (arith, d.turns, turned.turns, turned.count);
                ends = d.ends;
              },
            )
      ]

  -- A line that is logged at or above the level and fits into the queue stands in it behind what was there.
  -- If the writing thread, with its file open, then has more fuel than there are characters, its loop
  -- returns: it has written the first of them, in order, and the others are still in the queue; it has
  -- opened the file again as often as its count has passed a multiple of 2^20; and either the queue is
  -- empty and the file is open, or the count is a multiple of 2^20 and the last fopen() has failed.
  pub drain-logger_write :
      (log_level level fuel : ℕ) (s : Writer) (line : List ℕ)
      → IsRing s.queue
      → s.is_open ≡ true
      → log_level ≤ level
      → length line ≤ room s.queue
      → length (contents s.queue) + length line < fuel
      → (s' : Writer) × (drain max_kb max_cnt reopen fuel
            (record s { queue = logger_write log_level level s.queue line })
          ≡ some s')
        × Drains s (contents s.queue ++ line) s'
  unfolding logger_write
  drain-logger_write log_level level fuel s line v ready loud fits h =
      let (more, v') = queue_in-contents s.queue line v in
      let whole : contents (queue_in s.queue line) ≡ contents s.queue ++ line =
        more ∙ ap (λ t. contents s.queue ++ t) (take_all (room s.queue) line fits) in
      let (s', run, d) =
        drain-Drains fuel (record s { queue = queue_in s.queue line }) _ v' whole
          (omega (arith, length-append (contents s.queue) line)) ready in
      let pass : ltb level log_level ≡ false = ground (arith, loud) in
      (
        s',
        rw pass run,
        record {
          sent = d.sent;
          left = d.left;
          split = d.split;
          written = d.written;
          kept = d.kept;
          count = d.count;
          turns = d.turns;
          ends = d.ends;
        },
      )
