-- ===== src/MemPool.antt =====
-- The fixed pool of objects of xutil/src/mempool.cpp. A node is the address of its MEM_NODE_T; the links
-- that INIT_LIST_HEAD writes into free nodes are kept, since a node's memory is its object's too.
pub mod Alloc
pub mod Client
pub mod Ownership
mod Tests
use netpool.Base.{
  ℕ, zero, suc, ◌+◌, ◌-◌, ◌*◌, ◌%◌, ◌^◌, Bool, true, false, Option, none, some, List, [], ◌∷◌, leb,
  ◌==◌, if◌then◌else◌, get_elem?, set,
}

-- sizeof(struct list_head) on a 64-bit machine, which is also sizeof(MEM_NODE_T).
abbrev pub list_head_size : ℕ
list_head_size = 16

-- `MEM_POOL_T`: `stack` is the array m_stack, and `links` the addresses that are linked to themselves.
pub record MemPool : Type 0 where
  pub node_cnt : ℕ
  pub node_size : ℕ
  pub baseaddr : ℕ
  pub stack : List ℕ
  pub stack_idx : ℕ
  pub links : List ℕ

-- `&pool->m_baseaddr[i * pool->m_node_size]`; the product is one of unsigned int.
pub node_addr : MemPool → ℕ → ℕ
node_addr p i = p.baseaddr + (i * p.node_size) % 2 ^ 32

-- `mpool_free_obj`.
pub mpool_free_obj : MemPool → ℕ → MemPool
mpool_free_obj p node = if leb p.node_cnt p.stack_idx then p else record p {
  stack = set p.stack p.stack_idx node;
  stack_idx = p.stack_idx + 1;
  links = node ∷ p.links;
}

-- The loop of `mpool_init` and `mpool_reset`, with the rounds left and the counter.
pub push_nodes : ℕ → ℕ → MemPool → MemPool
push_nodes zero i p = p
push_nodes (suc rounds) i p = push_nodes rounds (i + 1) (mpool_free_obj p (node_addr p i))

pub mpool_reset : MemPool → MemPool
mpool_reset p = push_nodes p.node_cnt 0 (record p { stack_idx = 0 })

-- `mpool_init`, with what the two calls of malloc return: the base address, and the memory of the stack
-- with whatever is in it. `none` is the result -1.
pub mpool_init : (obj_max_cnt node_size : ℕ) → Option ℕ → Option (List ℕ) → Option MemPool
mpool_init obj_max_cnt node_size none stack = none
mpool_init obj_max_cnt node_size (some base) none = none
mpool_init obj_max_cnt node_size (some base) (some stack) = some (
    push_nodes obj_max_cnt 0 (record {
      node_cnt = obj_max_cnt;
      node_size = (node_size + list_head_size) % 2 ^ 32;
      baseaddr = base;
      stack = stack;
      stack_idx = 0;
      links = [];
    }))

-- `mpool_destroy`: the count of nodes stays. NULL is the address 0.
pub mpool_destroy : MemPool → MemPool
mpool_destroy p = record p { baseaddr = 0; stack = []; stack_idx = 0 }

-- What an allocation gives: NULL, an address, or a read behind the end of m_stack.
pub data Allocation : Type 0 where
  null out_of_bounds : Allocation
  block : ℕ → Allocation

pub slot : List ℕ → ℕ → (ℕ → ℕ) → Allocation
slot stack i field = elim (get_elem? stack i) [
  | none ↦ out_of_bounds
  | some node ↦ block (field node)
]

-- `return pool->m_stack[pool->m_stack_idx--]`: the slot is read before the index falls.
pub mpool_new_obj : MemPool → Allocation × MemPool
mpool_new_obj p =
    if p.stack_idx == 0
    then (null, p)
    else (slot p.stack p.stack_idx (λ node. node), record p { stack_idx = p.stack_idx - 1 })

-- `mpool_malloc`: the address of the object behind the links of its node.
pub mpool_malloc : MemPool → Allocation × MemPool
mpool_malloc p = if p.stack_idx == 0 then (null, p) else (
  slot p.stack (p.stack_idx - 1) (λ node. node + list_head_size),
  record p { stack_idx = p.stack_idx - 1 },
)

pub mpool_free : MemPool → ℕ → MemPool
mpool_free p ptr = if leb p.node_cnt p.stack_idx then p else record p {
  stack = set p.stack p.stack_idx (ptr - list_head_size);
  stack_idx = p.stack_idx + 1;
  links = (ptr - list_head_size) ∷ p.links;
}

-- `mpoll_get_used_cnt`, a difference of unsigned ints.
pub mpoll_get_used_cnt : MemPool → ℕ
mpoll_get_used_cnt p = (p.node_cnt + 2 ^ 32 - p.stack_idx) % 2 ^ 32
