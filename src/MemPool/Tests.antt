-- ===== src/MemPool/Tests.antt =====
-- Runs of the pool of xutil/src/mempool.cpp, with two nodes of 8 bytes.
use netpool.Base.{ℕ, ◌+◌, ◌≤◌, ◌≡◌, refl, ◌↔◌, some, [], ◌∷◌, arith, length, count}
use netpool.MemPool.{
  MemPool, null, out_of_bounds, block, list_head_size, node_addr, mpool_free_obj, push_nodes,
  mpool_init, slot, mpool_new_obj, mpool_malloc, mpoll_get_used_cnt,
}
use netpool.MemPool.Alloc.{free_nodes}
use netpool.MemPool.Client.{Client, allocate, Reach, here, next}
use netpool.MemPool.Ownership.{Reach-held_once, mpool_new_obj-out_of_bounds}

abbrev pool : MemPool
pool = record {
  node_cnt = 2;
  node_size = 24;
  baseaddr = 1000;
  stack = 1000 ∷ 1024 ∷ [];
  stack_idx = 2;
  links = 1024 ∷ 1000 ∷ [];
}

init_run : mpool_init 2 8 (some 1000) (some (0 ∷ 0 ∷ [])) ≡ some pool
unfolding mpool_init push_nodes mpool_free_obj node_addr
init_run = refl

malloc_run : (mpool_malloc pool).0 ≡ block (1024 + list_head_size)
unfolding mpool_malloc slot
malloc_run = refl

-- The client after one allocation.
abbrev one_held : Client
one_held = record { pool = (mpool_malloc pool).1; held = 1024 ∷ [] }

Reach-one_held : Reach (record { pool = pool; held = [] }) one_held
Reach-one_held = next here (allocate pool [] 1024 malloc_run)

Reach-held_once_example :
    ((a : ℕ) → count a (free_nodes one_held.pool) + count a one_held.held ≤ 1)
    × (((mpool_malloc one_held.pool).0 ≡ null) ↔ (length one_held.held ≡ 2))
    × (mpoll_get_used_cnt one_held.pool ≡ length one_held.held)
Reach-held_once_example =
    Reach-held_once 2 8 1000 (0 ∷ 0 ∷ []) init_run refl (omega arith) (omega arith) (omega arith)
      Reach-one_held

mpool_new_obj-out_of_bounds_example : (mpool_new_obj pool).0 ≡ out_of_bounds
mpool_new_obj-out_of_bounds_example =
    mpool_new_obj-out_of_bounds 2 8 1000 (0 ∷ 0 ∷ []) init_run refl (omega arith)
