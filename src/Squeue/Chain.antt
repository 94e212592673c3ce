-- ===== src/Squeue/Chain.antt =====
-- The nodes that the cells of a queue (xutil/include/squeue.h) link, in order.
use netpool.Base.{ℕ, ◌≡◌, ◌≢◌, refl, sym, ◌∙◌, subst, List, [], ◌∷◌, ◌++◌, arith, All}
use netpool.Squeue.{Squeue, update, squeue_inq, squeue_deq}

-- From the cell `p`, `next` leads through the nodes to NULL, `prev` leads back, and `last` is the last cell.
abbrev pub Chain : (next prev : ℕ → ℕ) (last p : ℕ) → List ℕ → Type 0
Chain next prev last p [] = (next p ≡ 0) × (last ≡ p)
Chain next prev last p (n ∷ ns) = (next p ≡ n) × (prev n ≡ p) × Chain next prev last n ns

-- `a` is none of the addresses.
abbrev pub Apart : ℕ → List ℕ → Type 0
Apart a = All (λ b. a ≢ b)

abbrev pub Distinct : List ℕ → Type 0
Distinct [] = Unit
Distinct (a ∷ ns) = Apart a ns × Distinct ns

-- The queue holds the nodes, in order.
pub record Holds (q : Squeue) (ns : List ℕ) : Type 0 where
  pub chain : Chain q.next q.prev q.last_addr q.head ns
  pub distinct : Distinct (0 ∷ q.head ∷ ns)

-- A chain survives any change that spares its cells.
pub Chain-frame :
    (next prev next' prev' : ℕ → ℕ) (last p : ℕ) (ns : List ℕ)
    → Chain next prev last p ns
    → All (λ a. next' a ≡ next a) (p ∷ ns)
    → All (λ a. prev' a ≡ prev a) ns
    → Chain next' prev' last p ns
Chain-frame next prev next' prev' last p [] (e, l) same same' = (same.0 ∙ e, l)
Chain-frame next prev next' prev' last p (n ∷ ns) (e, b, c) same same' =
    (same.0 ∙ e, same'.0 ∙ b, Chain-frame next prev next' prev' last n ns c same.1 same'.1)

-- A write outside a list of addresses spares them.
pub update-Apart :
    (cells : ℕ → ℕ) (a v : ℕ) (ns : List ℕ)
    → Apart a ns
    → All (λ b. update cells a v b ≡ cells b) ns
update-Apart cells a v [] out = tt
update-Apart cells a v (n ∷ ns) (ne, out) = (ground arith, update-Apart cells a v ns out)

-- The last cell is none from which the chain is apart.
pub last-Apart :
    (next prev : ℕ → ℕ) (last p a : ℕ) (ns : List ℕ)
    → Chain next prev last p ns
    → Apart a (p ∷ ns)
    → a ≢ last
last-Apart next prev last p a [] (e, l) out = λ h. out.0 (h ∙ l)
last-Apart next prev last p a (n ∷ ns) (e, b, c) out = last-Apart next prev last n a ns c out.1

Chain-inq :
    (next prev : ℕ → ℕ) (last p e : ℕ) (ns : List ℕ)
    → Chain next prev last p ns
    → Distinct (p ∷ ns)
    → Apart e (p ∷ ns)
    → Chain (update (update next e 0) last e) (update prev e last) e p (ns ++ e ∷ [])
Chain-inq next prev last p e [] (z, l) d out = (ground arith, ground arith, (ground arith, refl))
Chain-inq next prev last p e (n ∷ ns) (nx, b, c) d out =
    let other = last-Apart next prev last n p ns c d.0 in
    (ground (arith, other, out), ground (arith, out), Chain-inq next prev last n e ns c d.1 out.1)

Apart-snoc : (a e : ℕ) (ns : List ℕ) → Apart a ns → a ≢ e → Apart a (ns ++ e ∷ [])
Apart-snoc a e [] out h = (h, tt)
Apart-snoc a e (n ∷ ns) out h = (out.0, Apart-snoc a e ns out.1 h)

Distinct-snoc : (e : ℕ) (ns : List ℕ) → Distinct ns → Apart e ns → Distinct (ns ++ e ∷ [])
Distinct-snoc e [] d out = (tt, tt)
Distinct-snoc e (n ∷ ns) d out =
    (Apart-snoc n e ns d.0 (λ h. out.0 (sym h)), Distinct-snoc e ns d.1 out.1)

-- A node that is not in the queue goes to its end.
pub squeue_inq-Holds :
    (e : ℕ) (q : Squeue) (ns : List ℕ)
    → Holds q ns
    → Apart e (0 ∷ q.head ∷ ns)
    → Holds (squeue_inq e q) (ns ++ e ∷ [])
unfolding squeue_inq
squeue_inq-Holds e q ns h out = record {
  chain = Chain-inq q.next q.prev q.last_addr q.head e ns h.chain h.distinct.1 out.1;
  distinct = Distinct-snoc e (0 ∷ q.head ∷ ns) h.distinct out;
}

linked : (next : ℕ → ℕ) {head n m : ℕ} → head ≢ n → next n ≡ m → m ≡ update next head (next n) n
linked next ne e = ground arith

-- The first node leaves the queue.
pub squeue_deq-Holds :
    (q : Squeue) (n : ℕ) (ns : List ℕ)
    → Holds q (n ∷ ns)
    → (q' : Squeue) × (squeue_deq q ≡ (n, q')) × (q'.head ≡ q.head) × Holds q' ns
unfolding squeue_deq
squeue_deq-Holds q n [] h =
    let (e, b, (z, l)) = h.chain in
    let d = h.distinct in
    (
      record q { next = update q.next q.head (q.next n); last_addr = q.head },
      ground (arith, d.0),
      refl,
      record { chain = (ground arith, refl); distinct = ((d.0.0, tt), (tt, tt)) },
    )
squeue_deq-Holds q n (m ∷ ns) h =
    let (e, b, (f, b', c)) = h.chain in
    let d = h.distinct in
    let next = update q.next q.head (q.next n) in
    (
      record q { next = next; prev = update q.prev (next n) (q.prev n) },
      ground (arith, d.0, e, f),
      refl,
      record {
        chain = (
          ground arith,
          ground arith,
          Chain-frame q.next q.prev _ _ q.last_addr m ns c
              (update-Apart q.next q.head (q.next n) (m ∷ ns) d.1.0.1)
              (update-Apart q.prev (next n) (q.prev n) ns
                (subst (λ a. Apart a ns) (linked q.next d.1.0.0 f) d.1.1.1.0)),
        );
        distinct = ((d.0.0, d.0.1.1), (d.1.0.1, d.1.1.1));
      },
    )

pub squeue_deq_nil : (q : Squeue) → Holds q [] → squeue_deq q ≡ (0, q)
unfolding squeue_deq
squeue_deq_nil q h = ground (arith, h.chain)
