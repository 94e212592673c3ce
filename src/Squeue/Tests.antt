-- ===== src/Squeue/Tests.antt =====
-- Runs of the queue of xutil/include/squeue.h, with its head at the address 50.
use netpool.Base.{◌≡◌, refl, some, List, [], ◌∷◌, arith}
use netpool.Squeue.{Squeue, update, squeue_insert_prev, walk_from, squeue_walk}
use netpool.Squeue.Chain.{Apart, Holds}
use netpool.Squeue.Queue.{Call, inq, deq, run, run_refines}

abbrev empty : Squeue
empty = record { head = 50; last_addr = 50; next = λ a. 0; prev = λ a. 9 }

empty-Holds : Holds empty []
empty-Holds = record { chain = (refl, refl); distinct = ((λ e. omega arith, tt), (tt, tt)) }

abbrev calls : List Call
calls = inq 10 ∷ inq 20 ∷ deq ∷ inq 10 ∷ []

run_refines_example : run (inq 10 ∷ inq 20 ∷ deq ∷ deq ∷ deq ∷ []) empty ≡ 10 ∷ 20 ∷ 0 ∷ []
run_refines_example = run_refines (inq 10 ∷ inq 20 ∷ deq ∷ deq ∷ deq ∷ []) empty [] empty-Holds (
  (λ e. omega arith, (λ e. omega arith, tt)),
  ((λ e. omega arith, (λ e. omega arith, (λ e. omega arith, tt))), tt),
)

-- The node 10 alone.
abbrev one : Squeue
one = record { head = 50; last_addr = 10; next = update (λ a. 0) 50 10; prev = λ a. 50 }

one-Holds : Holds one (10 ∷ [])
one-Holds = record {
  chain = (refl, refl, (refl, refl));
  distinct = ((λ e. omega arith, (λ e. omega arith, tt)), ((λ e. omega arith, tt), (tt, tt)));
}

Apart-one : Apart 20 (0 ∷ 50 ∷ 10 ∷ [])
Apart-one = (λ e. omega arith, (λ e. omega arith, (λ e. omega arith, tt)))

walk_after_insert : squeue_walk 3 (squeue_insert_prev 10 20 one) ≡ some (20 ∷ 10 ∷ [])
unfolding squeue_walk walk_from squeue_insert_prev
walk_after_insert = refl
