-- ===== src/MemPool/Client.antt =====
-- A client of the pool of xutil/src/mempool.cpp, which allocates and releases blocks in any order.
use netpool.Base.{
  ℕ, zero, suc, ◌+◌, ◌<◌, ◌≡◌, refl, sym, ◌∙◌, none, List, [], ◌∷◌, ◌++◌, arith, length, get_elem?,
  length-append, count, count-append,
}
use netpool.MemPool.{MemPool, block, list_head_size, node_addr, mpool_malloc, mpool_free}
use netpool.MemPool.Alloc.{free_nodes, IsPool, mpool_free-Released, mpool_malloc_room}

abbrev pub nodes_from : ℕ → ℕ → MemPool → List ℕ
nodes_from zero i p = []
nodes_from (suc rounds) i p = node_addr p i ∷ nodes_from rounds (i + 1) p

abbrev pub all_nodes : MemPool → List ℕ
all_nodes p = nodes_from p.node_cnt 0 p

-- A pool, and the nodes that its client holds.
pub record Client : Type 0 where
  pub pool : MemPool
  pub held : List ℕ

-- The calls of the client. It gives back only a node that it holds.
pub data Step : Client → Client → Type 0 where
  allocate :
      (p : MemPool) (held : List ℕ) (node : ℕ)
      → (mpool_malloc p).0 ≡ block (node + list_head_size)
      → Step
          (record { pool = p; held = held })
          (record { pool = (mpool_malloc p).1; held = node ∷ held })
  release :
      (p : MemPool) (before : List ℕ) (node : ℕ) (after : List ℕ)
      → Step
          (record { pool = p; held = before ++ node ∷ after })
          (record { pool = mpool_free p (node + list_head_size); held = before ++ after })

pub data Reach (c : Client) : Client → Type 0 where
  here : Reach c c
  next : {d e : Client} → Reach c d → Step d e → Reach c e

-- Each of `nodes` is free or held, exactly as often as it stands among them.
pub record Owns (nodes : List ℕ) (c : Client) : Type 0 where
  pub valid : IsPool c.pool
  pub total : c.pool.stack_idx + length c.held ≡ c.pool.node_cnt
  pub cnt : c.pool.node_cnt ≡ length nodes
  pub items : (a : ℕ) → count a (free_nodes c.pool) + count a c.held ≡ count a nodes

pub get_elem?_end : (xs : List ℕ) (i : ℕ) → length xs ≡ i → get_elem? xs i ≡ none
get_elem?_end [] i e = refl
get_elem?_end (x ∷ xs) zero e = absurd (omega arith)
get_elem?_end (x ∷ xs) (suc i) e = get_elem?_end xs i (omega arith)

pub block_injective : {a b : ℕ} → block (a + list_head_size) ≡ block (b + list_head_size) → a ≡ b
block_injective e = ground arith

pub malloc_some : (p : MemPool) {node : ℕ} → (mpool_malloc p).0 ≡ block node → 0 < p.stack_idx
unfolding mpool_malloc
malloc_some p e = ground arith

pub Step-Owns : (nodes : List ℕ) {c d : Client} → Step c d → Owns nodes c → Owns nodes d
Step-Owns nodes (allocate p held node e) o =
    let (node', e', valid, r) = mpool_malloc_room p o.valid (malloc_some p e) in
    let same : node ≡ node' = block_injective (sym e ∙ e') in
    record {
      valid = valid;
      total = omega (arith, r.idx, r.cnt, o.total);
      cnt = omega (arith, r.cnt, o.cnt);
      items = λ a. ground (arith, r.items a, o.items a);
    }
Step-Owns nodes (release p before node after) o =
    let room : p.stack_idx < p.node_cnt =
      omega (arith, o.total, length-append before (node ∷ after)) in
    let r = mpool_free-Released p node o.valid room in
    record {
      valid = r.valid;
      total = omega (
        arith,
        r.idx,
        r.cnt,
        o.total,
        length-append before (node ∷ after),
        length-append before after,
      );
      cnt = omega (arith, r.cnt, o.cnt);
      items = λ a. omega (
        arith,
        r.items a,
        o.items a,
        count-append a before (node ∷ after),
        count-append a before after,
      );
    }

pub Reach-Owns : (nodes : List ℕ) {c d : Client} → Reach c d → Owns nodes c → Owns nodes d
Reach-Owns nodes here o = o
Reach-Owns nodes (next r st) o = Step-Owns nodes st (Reach-Owns nodes r o)
