-- ===== src/NetRecv/Buffers.antt =====
-- The buffers of netpool/outclass/CNetRecv.h: when a node is well formed, and the bytes that a queue of
-- nodes still holds.
use netpool.Base.{
  ℕ, ◌+◌, ◌-◌, ◌%◌, ◌^◌, ◌≤◌, ◌≡◌, refl, ap, ◌⊎◌, inl, inr, Option, none, some, List, [], ◌∷◌, ◌++◌,
  append_assoc, arith, length, All, length-blit, slice-blit,
}
use netpool.NetRecv.{
  BufNode, NetRecv, buf_node_size, fresh_node, append_bytes, buf_spare_len, unsent, get_tail,
}

pub record IsNode (n : BufNode) : Type 0 where
  pub ordered : n.consume_pos ≤ n.produce_pos
  pub fits : n.produce_pos ≤ buf_node_size
  pub sized : length n.bytes ≡ buf_node_size

-- The bytes that a list of nodes still holds, in order.
abbrev pub pending : List BufNode → List ℕ
pending [] = []
pending (n ∷ q) = unsent n ++ pending q

abbrev pub current : Option BufNode → List BufNode
current none = []
current (some n) = n ∷ []

-- The bytes that a connection has yet to write: those of the current node, and those of the queue.
abbrev pub backlog : NetRecv → List ℕ
backlog r = pending (current r.cur_send_node ++ r.data_queue)

-- Every node that a connection holds is well formed.
abbrev pub IsConnection : NetRecv → Type 0
IsConnection r = All IsNode (current r.cur_send_node ++ r.data_queue)

pub pending-append : (p q : List BufNode) → pending (p ++ q) ≡ pending p ++ pending q
pending-append [] q = refl
pending-append (n ∷ p) q = rw (pending-append p q, append_assoc (unsent n) (pending p) (pending q))

pub fresh_node-IsNode : (mem : List ℕ) → length mem ≡ buf_node_size → IsNode (fresh_node mem)
unfolding fresh_node
fresh_node-IsNode mem h = omega arith

pub unsent-fresh_node : (mem : List ℕ) → unsent (fresh_node mem) ≡ []
unfolding unsent fresh_node
unsent-fresh_node mem = refl

pub produce_pos-fresh_node : (mem : List ℕ) → (fresh_node mem).produce_pos ≡ 0
unfolding fresh_node
produce_pos-fresh_node mem = refl

pub buf_spare_len_lem : (n : BufNode) → IsNode n → buf_spare_len n ≡ buf_node_size - n.produce_pos
unfolding buf_spare_len
buf_spare_len_lem n v = omega arith

module _ (n : BufNode) (src : List ℕ) (v : IsNode n)
    (room : n.produce_pos + length src ≤ 1500) where
  pub produce_pos-append_bytes : (append_bytes n src).produce_pos ≡ n.produce_pos + length src
  unfolding append_bytes
  produce_pos-append_bytes = omega arith

  pub append_bytes-IsNode : IsNode (append_bytes n src)
  unfolding append_bytes
  append_bytes-IsNode =
      let fit : n.produce_pos + length src ≤ length n.bytes = omega (arith, v.sized) in
      omega (arith, length-blit n.bytes n.produce_pos src fit)

  pub unsent-append_bytes : unsent (append_bytes n src) ≡ unsent n ++ src
  unfolding append_bytes unsent
  unsent-append_bytes =
      let e : (n.produce_pos + length src) % 2 ^ 16 ≡ n.produce_pos + length src = omega arith in
      let fit : n.produce_pos + length src ≤ length n.bytes = omega (arith, v.sized) in
      rw e (slice-blit n.bytes n.consume_pos n.produce_pos src v.ordered fit)

-- `squeue_get_tail` on an empty queue, and on any other: the queue is the nodes before and the last one.
pub get_tail_cases :
    (q : List BufNode)
    → ((q ≡ []) × (get_tail q ≡ none))
      ⊎ ((before : List BufNode) × (last : BufNode) × (get_tail q ≡ some (before, last))
          × (q ≡ before ++ last ∷ []))
unfolding get_tail
get_tail_cases [] = inl (refl, refl)
get_tail_cases (n ∷ q) = elim (get_tail_cases q) [
  | inl (e, t) ↦ inr ([], n, rw (t, get_tail), rw e)
  | inr (before, last, t, e) ↦ inr (n ∷ before, last, rw (t, get_tail), ap (λ p. n ∷ p) e)
]

pub All-append_last :
    (before : List BufNode) (last : BufNode)
    → All IsNode (before ++ last ∷ [])
    → All IsNode before × IsNode last
All-append_last [] last h = (tt, h.0)
All-append_last (n ∷ before) last h =
    let (rest, v) = All-append_last before last h.1 in ((h.0, rest), v)
