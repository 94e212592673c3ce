-- ===== src/Squeue/Queue.antt =====
-- A queue in memory (xutil/include/squeue.h) does what a list of its nodes does.
use netpool.Base.{ℕ, ◌≡◌, refl, sym, subst, List, [], ◌∷◌, ◌++◌}
use netpool.Squeue.{Squeue, squeue_inq, squeue_deq}
use netpool.Squeue.Chain.{Apart, Holds, squeue_inq-Holds, squeue_deq-Holds, squeue_deq_nil}

-- The calls of a user of the queue.
pub data Call : Type 0 where
  inq : ℕ → Call
  deq : Call

-- What the calls of `squeue_deq` return, one after another.
abbrev pub run : List Call → Squeue → List ℕ
run [] q = []
run (inq e ∷ calls) q = run calls (squeue_inq e q)
run (deq ∷ calls) q = let (n, q') = squeue_deq q in n ∷ run calls q'

-- What they return for a list of nodes, with NULL for an empty one.
abbrev pub run_list : List Call → List ℕ → List ℕ
run_list [] ns = []
run_list (inq e ∷ calls) ns = run_list calls (ns ++ e ∷ [])
run_list (deq ∷ calls) [] = 0 ∷ run_list calls []
run_list (deq ∷ calls) (n ∷ ns) = n ∷ run_list calls ns

-- Only nodes go in that are not in the queue, neither NULL nor the head.
abbrev pub Proper : (head : ℕ) → List Call → List ℕ → Type 0
Proper head [] ns = Unit
Proper head (inq e ∷ calls) ns = Apart e (0 ∷ head ∷ ns) × Proper head calls (ns ++ e ∷ [])
Proper head (deq ∷ calls) [] = Proper head calls []
Proper head (deq ∷ calls) (n ∷ ns) = Proper head calls ns

head-squeue_inq : (e : ℕ) (q : Squeue) → q.head ≡ (squeue_inq e q).head
unfolding squeue_inq
head-squeue_inq e q = refl

-- As long as only nodes go in that are not in the queue, no sequence of calls of `squeue_inq` and
-- `squeue_deq` tells the linked cells from the list of nodes that they hold.
pub run_refines :
    (calls : List Call) (q : Squeue) (ns : List ℕ)
    → Holds q ns
    → Proper q.head calls ns
    → run calls q ≡ run_list calls ns
run_refines [] q ns h p = refl
run_refines (inq e ∷ calls) q ns h (out, p) =
    run_refines calls (squeue_inq e q) (ns ++ e ∷ []) (squeue_inq-Holds e q ns h out)
      (subst (λ a. Proper a calls (ns ++ e ∷ [])) (head-squeue_inq e q) p)
run_refines (deq ∷ calls) q [] h p =
    let e = squeue_deq_nil q h in cc (run_refines calls q [] h p, e)
run_refines (deq ∷ calls) q (n ∷ ns) h p =
    let (q', e, same, h') = squeue_deq-Holds q n ns h in
    let rest = run_refines calls q' ns h' (subst (λ a. Proper a calls ns) (sym same) p) in
    cc (rest, e)
