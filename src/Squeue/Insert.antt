-- ===== src/Squeue/Insert.antt =====
-- What `squeue_insert_prev`, `squeue_copy` and `squeue_walk` (xutil/include/squeue.h) do to the nodes
-- of a queue.
use netpool.Base.{
  ℕ, zero, suc, ◌<◌, ◌≡◌, ◌≢◌, refl, sym, ap, ◌∙◌, subst, some, List, [], ◌∷◌, ◌++◌, arith, ◌==◌,
  length, if_cases,
}
use netpool.Squeue.{
  Squeue, update, squeue_insert_prev, walk_from, squeue_walk, squeue_copy, squeue_init_head,
}
use netpool.Squeue.Chain.{Chain, Apart, Distinct, Holds, Chain-frame, update-Apart}

prev-Apart :
    (next prev : ℕ → ℕ) (last m n p : ℕ) (before after : List ℕ)
    → Chain next prev last m (before ++ n ∷ after)
    → Apart p (m ∷ (before ++ n ∷ after))
    → p ≢ prev n
prev-Apart next prev last m n p [] after (nx, b, c) out = λ h. out.0 (h ∙ b)
prev-Apart next prev last m n p (k ∷ before) after (nx, b, c) out =
    prev-Apart next prev last k n p before after c out.1

Apart-middle : (a n : ℕ) (before after : List ℕ) → Apart a (before ++ n ∷ after) → a ≢ n
Apart-middle a n [] after out = out.0
Apart-middle a n (b ∷ before) after out = Apart-middle a n before after out.1

Chain-insert :
    (next prev : ℕ → ℕ) (last p n e : ℕ) (before after : List ℕ)
    → Chain next prev last p (before ++ n ∷ after)
    → Distinct (p ∷ (before ++ n ∷ after))
    → Apart e (p ∷ (before ++ n ∷ after))
    → Chain
        (update (update next e n) (prev n) e)
        (update (update prev e (prev n)) n e)
        last
        p
        (before ++ e ∷ n ∷ after)
Chain-insert next prev last p n e [] after (nx, b, c) d out =
    let spared =
      Chain-frame next prev (update next e n) (update prev e (prev n)) last n after c
        (update-Apart next e n (n ∷ after) out.1) (update-Apart prev e (prev n) after out.1.1) in
    (
      ground arith,
      ground (arith, out),
      (
        ground (arith, out),
        ground arith,
        Chain-frame (update next e n) (update prev e (prev n)) _ _ last n after spared
            (update-Apart (update next e n) (prev n) e (n ∷ after)
              (subst (λ a. Apart a (n ∷ after)) (sym b) d.0))
            (update-Apart (update prev e (prev n)) n e after d.1.0),
      ),
    )
Chain-insert next prev last p n e (m ∷ before) after (nx, b, c) d out =
    let other = prev-Apart next prev last m n p before after c d.0 in
    let apart = Apart-middle m n before after d.1.0 in
    (
      ground (arith, out),
      ground (arith, out),
      Chain-insert next prev last m n e before after c d.1 out.1,
    )

Apart-insert :
    (a e : ℕ) (before after : List ℕ)
    → Apart a (before ++ after)
    → a ≢ e
    → Apart a (before ++ e ∷ after)
Apart-insert a e [] after out h = (h, out)
Apart-insert a e (b ∷ before) after out h = (out.0, Apart-insert a e before after out.1 h)

Distinct-insert :
    (e : ℕ) (before after : List ℕ)
    → Distinct (before ++ after)
    → Apart e (before ++ after)
    → Distinct (before ++ e ∷ after)
Distinct-insert e [] after d out = (out, d)
Distinct-insert e (b ∷ before) after d out = (
  Apart-insert b e before after d.0 (λ h. out.0 (sym h)),
  Distinct-insert e before after d.1 out.1,
)

insert_prev_cells :
    (n e : ℕ) (q : Squeue)
    → e ≢ n
    → squeue_insert_prev n e q ≡ (record q {
      next = update (update q.next e n) (q.prev n) e;
      prev = update (update q.prev e (q.prev n)) n e;
    })
unfolding squeue_insert_prev
insert_prev_cells n e q ne =
    let with : ℕ → Squeue = λ t. record q {
      next = update (update q.next e n) t e;
      prev = update (update q.prev e (q.prev n)) n e;
    } in
    let tmp_node = update q.prev e (q.prev n) n in
    let same : tmp_node ≡ q.prev n = ground arith in
    if_cases (λ r. r ≡ with (q.prev n)) (tmp_node == q.head) (λ first. ap with (ground arith))
      (λ later. ap with same)

-- `squeue_insert_prev` puts a node that is not in the queue in front of one that is.
pub squeue_insert_prev-Holds :
    (n e : ℕ) (q : Squeue) (before after : List ℕ)
    → Holds q (before ++ n ∷ after)
    → Apart e (0 ∷ q.head ∷ (before ++ n ∷ after))
    → Holds (squeue_insert_prev n e q) (before ++ e ∷ n ∷ after)
squeue_insert_prev-Holds n e q before after h out =
    subst (λ r. Holds r (before ++ e ∷ n ∷ after))
      (sym (insert_prev_cells n e q (Apart-middle e n before after out.1.1)))
      (record {
        chain =
            Chain-insert q.next q.prev q.last_addr q.head n e before after h.chain h.distinct.1
              out.1;
        distinct = Distinct-insert e (0 ∷ q.head ∷ before) (n ∷ after) h.distinct out;
      })

walk-Chain :
    (fuel p : ℕ) (q : Squeue) (ns : List ℕ)
    → Chain q.next q.prev q.last_addr p ns
    → Apart 0 ns
    → length ns < fuel
    → walk_from fuel q (q.next p) ≡ some ns
unfolding walk_from
walk-Chain zero p q ns c d h = absurd (omega arith)
walk-Chain (suc fuel) p q [] c d h = ground (arith, c.0)
walk-Chain (suc fuel) p q (n ∷ ns) (e, b, c) d h =
    let rest = walk-Chain fuel n q ns c d.1 (omega arith) in ground (arith, rest, e, d.0)

-- `squeue_walk` ends, and visits the nodes of the queue once each and in order.
pub squeue_walk_lem :
    (fuel : ℕ) (q : Squeue) (ns : List ℕ)
    → Holds q ns
    → length ns < fuel
    → squeue_walk fuel q ≡ some ns
unfolding squeue_walk
squeue_walk_lem fuel q ns h small = walk-Chain fuel q.head q ns h.chain h.distinct.0.1 small

copy-Chain :
    (next prev : ℕ → ℕ) (last p dst : ℕ) (n : ℕ) (ns : List ℕ)
    → Chain next prev last p (n ∷ ns)
    → Distinct (n ∷ ns)
    → Apart dst (n ∷ ns)
    → Chain (update next dst n) (update prev n dst) last dst (n ∷ ns)
copy-Chain next prev last p dst n ns (e, b, c) d out = (
  ground arith,
  ground arith,
  Chain-frame next prev _ _ last n ns c (update-Apart next dst n (n ∷ ns) out)
      (update-Apart prev n dst ns d.0),
)

-- After `squeue_copy` the head at `dst`, which is no node of the queue, has its nodes.
pub squeue_copy-Holds :
    (dst : ℕ) (q : Squeue) (ns : List ℕ)
    → Holds q ns
    → Apart dst (0 ∷ ns)
    → Holds (squeue_copy dst q) ns
unfolding squeue_copy squeue_init_head
squeue_copy-Holds dst q [] h out =
    if_cases (λ r. Holds r []) (q.next q.head == 0)
      (λ empty. record {
        chain = (ground arith, refl);
        distinct = ((λ e. out.0 (sym e), tt), (tt, tt));
      })
      (λ other. absurd (ground (arith, h.chain)))
squeue_copy-Holds dst q (n ∷ ns) h out =
    let (e, b, c) = h.chain in
    let d = h.distinct in
    let moved : ℕ → Squeue = λ first. record q {
      head = dst;
      next = update q.next dst first;
      prev = update q.prev first dst;
    } in
    if_cases (λ r. Holds r (n ∷ ns)) (q.next q.head == 0) (λ empty. absurd (ground (arith, e, d.0)))
      (λ other.
        subst (λ r. Holds r (n ∷ ns)) (ap moved (sym e))
          (record {
            chain = copy-Chain q.next q.prev q.last_addr q.head dst n ns h.chain d.1.1 out.1;
            distinct = ((λ z. out.0 (sym z), d.0.1), (out.1, d.1.1));
          }))
