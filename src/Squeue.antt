-- ===== src/Squeue.antt =====
-- The intrusive queue of xutil/include/squeue.h. A pointer to a struct list_head is the address of its
-- field `next`, which is its first field, so `*last_addr` is the cell `next` at that address, and so is
-- head->first at the address of the head. NULL is the address 0.
pub mod Chain
pub mod Queue
pub mod Insert
mod Tests
use netpool.Base.{
  ℕ, zero, suc, Bool, true, false, not, ◌||◌, Option, none, some, List, [], ◌∷◌, ◌==◌,
  if◌then◌else◌,
}

-- The cells of memory, the address of the field `first` of the head, and its field last_addr.
pub record Squeue : Type 0 where
  pub head : ℕ
  pub last_addr : ℕ
  pub next : ℕ → ℕ
  pub prev : ℕ → ℕ

-- A write to one cell.
abbrev pub update : (ℕ → ℕ) → ℕ → ℕ → ℕ → ℕ
update cells a v b = if b == a then v else cells b

-- `SQUEUE_INIT_HEAD`.
pub squeue_init_head : Squeue → Squeue
squeue_init_head q = record q { next = update q.next q.head 0; last_addr = q.head }

-- `squeue_copy` to the head at the address `dst`.
pub squeue_copy : (dst : ℕ) → Squeue → Squeue
squeue_copy dst src =
    let first = src.next src.head in
    if first == 0 then squeue_init_head (record src { head = dst }) else record src {
      head = dst;
      next = update src.next dst first;
      prev = update src.prev first dst;
    }

-- `squeue_inq`.
pub squeue_inq : (elment : ℕ) → Squeue → Squeue
squeue_inq elment q = record q {
  next = update (update q.next elment 0) q.last_addr elment;
  prev = update q.prev elment q.last_addr;
  last_addr = elment;
}

-- `squeue_insert_prev`.
pub squeue_insert_prev : (next_node node : ℕ) → Squeue → Squeue
squeue_insert_prev next_node node q =
    let next = update q.next node next_node in
    let prev = update q.prev node (q.prev next_node) in
    let tmp_node = prev next_node in
    let prev' = update prev next_node node in
    if tmp_node == q.head
    then record q { next = update next q.head node; prev = prev' }
    else record q { next = update next tmp_node node; prev = prev' }

-- `squeue_deq`: the node, or NULL.
pub squeue_deq : Squeue → ℕ × Squeue
squeue_deq q =
    let ret = q.next q.head in
    let next = update q.next q.head (q.next ret) in
    if ret == 0
    then (0, q)
    else if next q.head == 0
    then (ret, record q { next = next; last_addr = q.head })
    else (ret, record q { next = next; prev = update q.prev (next ret) (q.prev ret) })

-- `squeue_deq_condition`, with the answer of the callback for the first node.
pub squeue_deq_condition : (check : ℕ → Bool) → Squeue → ℕ × Squeue
squeue_deq_condition check q =
    let ret = q.next q.head in
    if ret == 0 then (0, q) else if not (check ret) then (0, q) else squeue_deq q

-- `squeue_get_first`, `squeue_get_tail`, `squeue_get_prev` and `squeue_is_empty`.
pub squeue_get_first : Squeue → ℕ
squeue_get_first q = q.next q.head

pub squeue_get_tail : Squeue → ℕ
squeue_get_tail q = if q.next q.head == 0 then 0 else q.last_addr

pub squeue_get_prev : (node : ℕ) → Squeue → ℕ
squeue_get_prev node q = if q.prev node == q.head then 0 else q.prev node

pub squeue_is_empty : Squeue → Bool
squeue_is_empty q = if q.next q.head == 0 then true else false

-- The nodes that `squeue_walk` visits from a node on; `none` means that the fuel has run out.
pub walk_from : ℕ → Squeue → (node : ℕ) → Option (List ℕ)
walk_from zero q node = none
walk_from (suc fuel) q node =
    let rest = walk_from fuel q (q.next node) in
    if node == 0 then some [] else elim rest [ none ↦ none | some ns ↦ some (node ∷ ns) ]

pub squeue_walk : ℕ → Squeue → Option (List ℕ)
squeue_walk fuel q = walk_from fuel q (q.next q.head)
