-- ===== src/MemPool/Ownership.antt =====
-- Who holds the nodes of a pool (xutil/src/mempool.cpp): a client that calls mpool_malloc, and mpool_free
-- with what it got, in any order.
use native.Mathlib.Decide.{dec_lt}
use mathlib.Core.Option.{some-injective}
use netpool.Base.{
  ℕ, zero, suc, ◌+◌, ◌*◌, ◌%◌, ◌^◌, ◌≤◌, ◌<◌, ◌≡◌, refl, sym, ap, ◌∙◌, subst, ◌↔◌, some, List, [],
  arith, length, count,
}
use netpool.MemPool.{
  MemPool, null, out_of_bounds, list_head_size, slot, node_addr, mpool_free_obj, mpool_malloc,
  mpool_new_obj, push_nodes, mpool_init, mpoll_get_used_cnt,
}
use netpool.MemPool.Alloc.{free_nodes, IsPool, mpool_free_obj-Released, mpool_malloc_room}
use netpool.MemPool.Client.{nodes_from, all_nodes, Client, Reach, Owns, get_elem?_end, Reach-Owns}

-- The addresses of the nodes from `i` on.

length-nodes_from : (rounds i : ℕ) (p : MemPool) → length (nodes_from rounds i p) ≡ rounds
length-nodes_from zero i p = refl
length-nodes_from (suc rounds) i p = ap suc (length-nodes_from rounds (i + 1) p)

nodes_from_eq :
    (rounds i : ℕ) (p q : MemPool)
    → p.baseaddr ≡ q.baseaddr
    → p.node_size ≡ q.node_size
    → nodes_from rounds i p ≡ nodes_from rounds i q
unfolding node_addr
nodes_from_eq zero i p q b s = refl
nodes_from_eq (suc rounds) i p q b s = cc (nodes_from_eq rounds (i + 1) p q b s)

-- What the loop of mpool_init does to an empty stack.
record Filled (p : MemPool) (nodes : List ℕ) (p' : MemPool) : Type 0 where
  valid : IsPool p'
  cnt : p'.node_cnt ≡ p.node_cnt
  place : p'.baseaddr ≡ p.baseaddr
  step : p'.node_size ≡ p.node_size
  full : p'.stack_idx ≡ p.node_cnt
  items : (a : ℕ) → count a (free_nodes p') ≡ count a (free_nodes p) + count a nodes

push_nodes-Filled :
    (rounds i : ℕ) (p : MemPool)
    → IsPool p
    → p.stack_idx + rounds ≡ p.node_cnt
    → Filled p (nodes_from rounds i p) (push_nodes rounds i p)
unfolding push_nodes
push_nodes-Filled zero i p v h = record {
  valid = v;
  cnt = refl;
  place = refl;
  step = refl;
  full = omega arith;
  items = λ a. omega arith;
}
push_nodes-Filled (suc rounds) i p v h =
    let r = mpool_free_obj-Released p (node_addr p i) v (omega arith) in
    let q = mpool_free_obj p (node_addr p i) in
    let f = push_nodes-Filled rounds (i + 1) q r.valid (omega (arith, r.idx, r.cnt)) in
    let same = nodes_from_eq rounds (i + 1) q p r.place r.step in
    record {
      valid = f.valid;
      cnt = f.cnt ∙ r.cnt;
      place = f.place ∙ r.place;
      step = f.step ∙ r.step;
      full = f.full ∙ r.cnt;
      items = λ a. omega (arith, f.items a, r.items a, ap (count a) same);
    }

module _ (n size base : ℕ) (stack : List ℕ) where
  -- `mpool_init` succeeds when both of its allocations do.
  pub mpool_init-Owns :
      length stack ≡ n
      → (p : MemPool) × (mpool_init n size (some base) (some stack) ≡ some p)
        × (p.node_cnt ≡ n)
        × (p.stack_idx ≡ n)
        × Owns (all_nodes p) (record { pool = p; held = [] })
  unfolding mpool_init
  mpool_init-Owns h =
      let p0 : MemPool = record {
        node_cnt = n;
        node_size = (size + list_head_size) % 2 ^ 32;
        baseaddr = base;
        stack = stack;
        stack_idx = 0;
        links = [];
      } in
      let f =
        push_nodes-Filled n 0 p0 (record { sized = h; bounded = omega arith }) (omega arith) in
      let p = push_nodes n 0 p0 in
      let same : all_nodes p ≡ nodes_from n 0 p0 =
        ap (λ k. nodes_from k 0 p) f.cnt ∙ nodes_from_eq n 0 p p0 f.place f.step in
      (
        p,
        refl,
        f.cnt,
        f.full,
        record {
          valid = f.valid;
          total = omega (arith, f.full, f.cnt);
          cnt = omega (arith, length-nodes_from p.node_cnt 0 p);
          items = λ a. omega (arith, f.items a, ap (count a) same);
        },
      )

-- In the address space that the pool's size spans without wrapping, the nodes are apart.
module _ (p : MemPool) (wide : 0 < p.node_size) where
  node_addr_flat : (i : ℕ) → i * p.node_size < 2 ^ 32 → node_addr p i ≡ p.baseaddr + i * p.node_size
  unfolding node_addr
  node_addr_flat i h = omega arith

  -- One round of the two inductions below: where the node stands, and that the next one follows it.
  node_room :
      (rounds i : ℕ)
      → (i + suc rounds) * p.node_size ≤ 2 ^ 32
      → (node_addr p i ≡ p.baseaddr + i * p.node_size)
        × ((i + 1) * p.node_size ≡ i * p.node_size + p.node_size)
        × ((i + 1 + rounds) * p.node_size ≤ 2 ^ 32)
  node_room rounds i fit =
      let after : (i + 1) * p.node_size ≡ i * p.node_size + p.node_size = omega arith in
      let whole : (i + suc rounds) * p.node_size
          ≡ i * p.node_size + (rounds * p.node_size + p.node_size) =
        omega arith in
      let same : (i + 1 + rounds) * p.node_size
          ≡ i * p.node_size + (rounds * p.node_size + p.node_size) =
        omega arith in
      (node_addr_flat i (omega arith), after, omega arith)

  nodes_from_above :
      (rounds i a : ℕ)
      → (i + rounds) * p.node_size ≤ 2 ^ 32
      → a < p.baseaddr + i * p.node_size
      → count a (nodes_from rounds i p) ≡ 0
  nodes_from_above zero i a fit h = refl
  nodes_from_above (suc rounds) i a fit h =
      let (place, after, fit') = node_room rounds i fit in
      ground (arith, nodes_from_above rounds (i + 1) a fit' (omega arith))

  nodes_from_once :
      (rounds i a : ℕ) → (i + rounds) * p.node_size ≤ 2 ^ 32 → count a (nodes_from rounds i p) ≤ 1
  nodes_from_once zero i a fit = omega arith
  nodes_from_once (suc rounds) i a fit =
      let (place, after, fit') = node_room rounds i fit in
      ground (arith, nodes_from_once rounds (i + 1) a fit', nodes_from_above rounds (i + 1) a fit')

malloc_none : (p : MemPool) → p.stack_idx ≡ 0 → (mpool_malloc p).0 ≡ null
unfolding mpool_malloc
malloc_none p e = ground arith

malloc_null : (p : MemPool) → IsPool p → (mpool_malloc p).0 ≡ null → p.stack_idx ≡ 0
malloc_null p v e = elim (dec_lt 0 p.stack_idx) [
  | yes h ↦ let (node, e', _, _) = mpool_malloc_room p v h in cc
  | no h ↦ omega arith
]

used_cnt :
    (p : MemPool) (k : ℕ)
    → p.stack_idx + k ≡ p.node_cnt
    → p.node_cnt < 2 ^ 32
    → mpoll_get_used_cnt p ≡ k
unfolding mpoll_get_used_cnt
used_cnt p k e h = omega arith

-- If both allocations of `mpool_init` succeed and the size of the pool does not exceed 2^32 bytes, then
-- after any calls of mpool_malloc and mpool_free by a client that gives back only what it holds, each
-- address is free or held by the client at most once, so that no block is handed out twice;
-- mpool_malloc returns NULL exactly when the client holds every node, and mpoll_get_used_cnt is the
-- number of nodes that it holds.
pub Reach-held_once :
    (n size base : ℕ) (stack : List ℕ) {p : MemPool} {c : Client}
    → mpool_init n size (some base) (some stack) ≡ some p
    → length stack ≡ n
    → n < 2 ^ 32
    → 0 < p.node_size
    → n * p.node_size ≤ 2 ^ 32
    → Reach (record { pool = p; held = [] }) c
    → ((a : ℕ) → count a (free_nodes c.pool) + count a c.held ≤ 1)
      × (((mpool_malloc c.pool).0 ≡ null) ↔ (length c.held ≡ n))
      × (mpoll_get_used_cnt c.pool ≡ length c.held)
Reach-held_once n size base stack {p} {c} e h small wide fit r =
    let (q, run, cnt, _, o) = mpool_init-Owns n size base stack h in
    let same : q ≡ p = some-injective _ _ (sym run ∙ e) in
    let o' : Owns (all_nodes p) c =
      Reach-Owns (all_nodes p) r
        (subst (λ q. Owns (all_nodes q) (record { pool = q; held = [] })) same o) in
    let cnt' : p.node_cnt ≡ n = ap (λ q. q.node_cnt) (sym same) ∙ cnt in
    let size : c.pool.node_cnt ≡ n = omega (arith, o'.cnt, length-nodes_from p.node_cnt 0 p) in
    let fit' : (0 + p.node_cnt) * p.node_size ≤ 2 ^ 32 =
      subst (λ k. k * p.node_size ≤ 2 ^ 32) (omega arith) fit in
    (
      λ a. omega (arith, o'.items a, nodes_from_once p wide p.node_cnt 0 a fit'),
      (
        λ e. omega (arith, malloc_null c.pool o'.valid e, o'.total),
        λ e. malloc_none c.pool (omega (arith, o'.total)),
      ),
      used_cnt c.pool (length c.held) o'.total (omega arith),
    )

-- After a successful `mpool_init` of one or more nodes, `mpool_new_obj` reads the slot behind the end of
-- m_stack.
pub mpool_new_obj-out_of_bounds :
    (n size base : ℕ) (stack : List ℕ) {p : MemPool}
    → mpool_init n size (some base) (some stack) ≡ some p
    → length stack ≡ n
    → 0 < n
    → (mpool_new_obj p).0 ≡ out_of_bounds
unfolding mpool_new_obj slot
mpool_new_obj-out_of_bounds n size base stack {p} e h pos =
    let (q, run, cnt, full, o) = mpool_init-Owns n size base stack h in
    let same : q ≡ p = some-injective _ _ (sym run ∙ e) in
    subst (λ q. (mpool_new_obj q).0 ≡ out_of_bounds) same
      (ground (arith, get_elem?_end q.stack q.stack_idx (omega (arith, full, cnt, o.valid.sized))))
