-- ===== src/NetRecv/Flush.antt =====
-- The closing of a connection of netpool/outclass/CNetRecv.cpp: what is queued is written by blocking
-- writes, and the nodes are freed.
use netpool.Base.{
  ℕ, ◌+◌, ◌-◌, Bool, true, false, not, Option, none, some, List, [], ◌∷◌, ◌==◌, if◌then◌else◌,
  length,
}
use netpool.SocketWrap.{sock_write_timeout}
use netpool.NetRecv.{BufNode, NetRecv, Socket, unsent}

-- The blocking write of a node, compared with `spare_len`.
unfoldable pub write_node : BufNode → Socket → Option (Bool × Socket)
write_node n k = elim (sock_write_timeout k.rounds (unsent n) k.wire) [
  | none ↦ none
  | some w ↦
      some (w.ret == n.produce_pos - n.consume_pos, record k { rounds = w.rest; wire = w.wire })
]

-- What follows a blocking write: it goes on after a complete one, and ends after any other.
unfoldable pub after_write {ℓ} :
    {X : Type ℓ} → Option (Bool × Socket) → (Socket → Option X) → (Socket → X) → Option X
after_write none continue stop = none
after_write (some (true, k)) continue stop = continue k
after_write (some (false, k)) continue stop = some (stop k)

-- The loop over the queue in `free_async_write_resource`: the nodes it leaves, and how many are freed.
unfoldable pub flush_queue : List BufNode → ℕ → Socket → Option (List BufNode × ℕ × Socket)
flush_queue [] freed k = some ([], freed, k)
flush_queue (n ∷ q) freed k =
    after_write (write_node n k) (λ k'. flush_queue q (freed + 1) k') (λ k'. (q, freed + 1, k'))

-- What is written before the label `free_nodes`, over the current node and the queue.
unfoldable pub flush :
    Option BufNode → List BufNode → ℕ → Socket → Option (List BufNode × ℕ × Socket)
flush none q freed k = flush_queue q freed k
flush (some n) q freed k =
    after_write (write_node n k) (λ k'. flush_queue q (freed + 1) k') (λ k'. (q, freed + 1, k'))

abbrev pub current_count : Option BufNode → ℕ
current_count none = 0
current_count (some _) = 1

-- How many nodes a connection holds.
abbrev pub held_nodes : NetRecv → ℕ
held_nodes r = length r.data_queue + current_count r.cur_send_node

-- From the label `free_nodes` on: the nodes of the queue are freed, then the current node. The pointer
-- to the current node is not reset.
unfoldable pub free_nodes : NetRecv → NetRecv
free_nodes r = record r { data_queue = []; freed = r.freed + held_nodes r }

-- The connection after the writes: the current node is freed and the pointer to it reset.
unfoldable pub flushed : NetRecv → List BufNode → ℕ → NetRecv
flushed r q freed = record r { cur_send_node = none; data_queue = q; freed = freed }

unfoldable pub free_async_write_resource : NetRecv → Socket → Option (NetRecv × Socket)
free_async_write_resource r k =
    let r' = record r { is_async_write = false } in
    if not r.is_async_write
    then some (r, k)
    else if r.is_write_failed
    then some (free_nodes r', k)
    else elim (flush r.cur_send_node r.data_queue r.freed k) [
      | none ↦ none
      | some (q, freed, k') ↦ some (free_nodes (flushed r' q freed), k')
    ]
