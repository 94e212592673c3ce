-- ===== src/LogProc/Ring.antt =====
-- The ring of characters of xutil/src/logproc.cpp is a bounded queue.
use netpool.Base.{
  ℕ, zero, suc, ◌+◌, ◌-◌, ◌%◌, ◌<◌, ◌≡◌, ◌≢◌, refl, sym, ap, ◌∙◌, Option, none, some, List, [], ◌∷◌,
  ◌++◌, arith, append_assoc, append-nil, ◌==◌, if◌then◌else◌, take, length, length-append, if_cases,
}
use netpool.LogProc.{LogQueue, ring_size, init_queue, put_char, queue_in, queue_out}

pub record IsRing (lq : LogQueue) : Type 0 where
  pub front_in : lq.front < ring_size
  pub rear_in : lq.rear < ring_size

-- So many cells from an index on, going round at the end.
abbrev pub window : (ℕ → ℕ) → ℕ → ℕ → List ℕ
window cells i zero = []
window cells i (suc n) = cells i ∷ window cells ((i + 1) % ring_size) n

abbrev pub filled : LogQueue → ℕ
filled lq = (lq.rear + ring_size - lq.front) % ring_size

-- The characters in the queue, the oldest first.
abbrev pub contents : LogQueue → List ℕ
contents lq = window lq.cells lq.front (filled lq)

length-window : (cells : ℕ → ℕ) (i n : ℕ) → length (window cells i n) ≡ n
length-window cells i zero = refl
length-window cells i (suc n) = ap suc (length-window cells ((i + 1) % ring_size) n)

-- A write just behind a window makes it longer by what is written.
window_put :
    (cells : ℕ → ℕ) (i n k c : ℕ)
    → i < ring_size
    → n < ring_size
    → k ≡ (i + n) % ring_size
    → window (λ j. if j == k then c else cells j) i (suc n) ≡ window cells i n ++ c ∷ []
window_put cells i zero k c hi hn e = ground arith
window_put cells i (suc n) k c hi hn e =
    let other : i ≢ k = λ h. omega arith in
    let same : (if i == k then c else cells i) ≡ cells i = ground arith in
    let rest =
      window_put cells ((i + 1) % ring_size) n k c (omega arith) (omega arith) (omega arith) in
    cc

put_char-contents :
    (lq : LogQueue) (c : ℕ)
    → IsRing lq
    → lq.front ≢ (lq.rear + 1) % ring_size
    → (contents (put_char lq c) ≡ contents lq ++ c ∷ []) × IsRing (put_char lq c)
unfolding put_char
put_char-contents lq c v room =
    let n = filled lq in
    let longer : ((lq.rear + 1) % ring_size + ring_size - lq.front) % ring_size ≡ suc n =
      omega (arith, v.front_in, v.rear_in) in
    let behind : lq.rear ≡ (lq.front + n) % ring_size = omega (arith, v.front_in, v.rear_in) in
    (
      ap (λ m. window (λ j. if j == lq.rear then c else lq.cells j) lq.front m) longer
          ∙ window_put lq.cells lq.front n lq.rear c v.front_in (omega arith) behind,
      record { front_in = v.front_in; rear_in = omega arith },
    )

take_nil : (n : ℕ) → take {A = ℕ} n [] ≡ []
take_nil zero = refl
take_nil (suc n) = refl

-- How many characters fit into the queue besides those that are in it.
abbrev pub room : LogQueue → ℕ
room lq = ring_size - 1 - length (contents lq)

-- `queue_in` puts as many of the characters as there is room for at the end of the queue, in order, and
-- drops the others.
pub queue_in-contents :
    (lq : LogQueue) (str : List ℕ)
    → IsRing lq
    → (contents (queue_in lq str) ≡ contents lq ++ take (room lq) str) × IsRing (queue_in lq str)
unfolding queue_in
queue_in-contents lq [] v =
    (sym (append-nil (contents lq)) ∙ ap (λ t. contents lq ++ t) (sym (take_nil (room lq))), v)
queue_in-contents lq (c ∷ str) v =
    let sized = length-window lq.cells lq.front (filled lq) in
    if_cases (λ (t : LogQueue). (contents t ≡ contents lq ++ take (room lq) (c ∷ str)) × IsRing t)
      (lq.front == (lq.rear + 1) % ring_size)
      (λ full.
        let meets : lq.front ≡ (lq.rear + 1) % ring_size = ground arith in
        let none_left : room lq ≡ 0 = omega (arith, sized, v.front_in, v.rear_in) in
        (
          sym (append-nil (contents lq))
              ∙ ap (λ k. contents lq ++ take k (c ∷ str)) (sym none_left),
          v,
        ))
      (λ free.
        let (more, v') = put_char-contents lq c v (ground arith) in
        let (rest, v'') = queue_in-contents (put_char lq c) str v' in
        let apart : lq.front ≢ (lq.rear + 1) % ring_size = ground arith in
        let some_left : room lq ≡ suc (room (put_char lq c)) = omega (
          arith,
          sized,
          v.front_in,
          v.rear_in,
          ap length more,
          length-append (contents lq) (c ∷ []),
        ) in
        (
          rest
              ∙ ap (λ t. t ++ take (room (put_char lq c)) str) more
              ∙ append_assoc (contents lq) (c ∷ []) _
              ∙ ap (λ k. contents lq ++ take k (c ∷ str)) (sym some_left),
          v'',
        ))

-- `queue_out` returns -1 exactly for an empty queue, which stays as it is, and else the oldest
-- character, which leaves the queue.
pub queue_out_nil : (lq : LogQueue) → IsRing lq → contents lq ≡ [] → queue_out lq ≡ (none, lq)
unfolding queue_out
queue_out_nil lq v e =
    let sized = length-window lq.cells lq.front (filled lq) in
    let none_in : filled lq ≡ 0 = omega (arith, sized, ap length e) in
    ground (arith, v.front_in, v.rear_in)

pub queue_out_cons :
    (lq : LogQueue) (c : ℕ) (cs : List ℕ)
    → IsRing lq
    → contents lq ≡ c ∷ cs
    → (lq' : LogQueue) × (queue_out lq ≡ (some c, lq')) × IsRing lq' × (contents lq' ≡ cs)
unfolding queue_out
queue_out_cons lq c cs v e =
    let sized = length-window lq.cells lq.front (filled lq) in
    let next = (lq.front + 1) % ring_size in
    let many : filled lq ≡ suc (length cs) = omega (arith, sized, ap length e) in
    let whole : lq.cells lq.front ∷ window lq.cells next (length cs) ≡ c ∷ cs =
      ap (window lq.cells lq.front) (sym many) ∙ e in
    let fewer : (lq.rear + ring_size - next) % ring_size ≡ length cs =
      omega (arith, v.front_in, v.rear_in) in
    let tail : window lq.cells next (length cs) ≡ cs = cc in
    let first : lq.cells lq.front ≡ c = cc in
    (
      record lq { front = next },
      ground (arith, first, v.front_in, v.rear_in),
      record { front_in = omega arith; rear_in = v.rear_in },
      ap (window lq.cells next) fewer ∙ tail,
    )

-- The calls of the program and of the writing thread on the queue.
pub data Call : Type 0 where
  write : List ℕ → Call
  read : Call

abbrev pub run : List Call → LogQueue → List (Option ℕ)
run [] lq = []
run (write str ∷ calls) lq = run calls (queue_in lq str)
run (read ∷ calls) lq = let (c, lq') = queue_out lq in c ∷ run calls lq'

-- The same calls on a list of characters that holds at most RING_SIZE - 1 of them.
abbrev pub run_list : List Call → List ℕ → List (Option ℕ)
run_list [] cs = []
run_list (write str ∷ calls) cs = run_list calls (cs ++ take (ring_size - 1 - length cs) str)
run_list (read ∷ calls) [] = none ∷ run_list calls []
run_list (read ∷ calls) (c ∷ cs) = some c ∷ run_list calls cs

run-contents :
    (calls : List Call) (lq : LogQueue) (cs : List ℕ)
    → IsRing lq
    → contents lq ≡ cs
    → run calls lq ≡ run_list calls cs
run-contents [] lq cs v e = refl
run-contents (write str ∷ calls) lq cs v e =
    let (more, v') = queue_in-contents lq str v in
    run-contents calls (queue_in lq str) _ v'
      (more ∙ ap (λ t. t ++ take (ring_size - 1 - length t) str) e)
run-contents (read ∷ calls) lq [] v e = cc (queue_out_nil lq v e, run-contents calls lq [] v e)
run-contents (read ∷ calls) lq (c ∷ cs) v e =
    let (lq', out, v', e') = queue_out_cons lq c cs v e in cc (out, run-contents calls lq' cs v' e')

-- From `init_queue` on, no sequence of calls of `queue_in` and `queue_out` tells the ring from a list of
-- characters that holds at most RING_SIZE - 1 of them and drops what does not fit.
pub queue_run_refines :
    (calls : List Call) (mem : ℕ → ℕ) → run calls (init_queue mem) ≡ run_list calls []
unfolding init_queue
queue_run_refines calls mem =
    run-contents calls (init_queue mem) []
      (record { front_in = omega arith; rear_in = omega arith }) refl
