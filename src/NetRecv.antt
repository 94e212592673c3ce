-- ===== src/NetRecv.antt =====
-- The buffered connection of netpool/outclass/CNetRecv.cpp: bytes are queued in buffers of 1500 bytes
-- by `send_data`, and written to the socket by `send_handle` on a write event, or by
-- `free_async_write_resource` when the connection is closed. The allocator that the caller hands over
-- is a parameter; np_add_write_job's answer is an argument.
pub mod Buffers
pub mod Fill
pub mod SendData
pub mod Drain
pub mod Flush
pub mod Close
mod Tests
use netpool.Base.{
  ℕ, zero, suc, ◌+◌, ◌-◌, ◌%◌, ◌^◌, ◌≡◌, Bool, true, false, ◌&&◌, not, Option, none, some, List, [],
  ◌∷◌, ◌++◌, min, ◌||◌, ltb, ◌==◌, if◌then◌else◌, length, take, drop, slice, blit,
}
use netpool.SocketWrap.{
  Errno, is_eagain, is_eintr, SendResult, accepts, send_failed, Round, Written, sock_write_timeout,
}

-- BUF_NODE_SIZE.
abbrev pub buf_node_size : ℕ
buf_node_size = 1500

-- `buf_node_t`; the array is `data` in the source.
pub record BufNode : Type 0 where
  pub consume_pos : ℕ
  pub produce_pos : ℕ
  pub bytes : List ℕ

-- The fields of a CNetRecv that the calls below read or write. The queue is the list of its nodes.
pub record NetRecv : Type 0 where
  pub is_async_write : Bool
  pub data_queue : List BufNode
  pub cur_send_node : Option BufNode
  pub is_write_failed : Bool
  pub is_register_write : Bool
  pub is_freed : Bool
  -- how many nodes have been handed to m_free_mem_func
  pub freed : ℕ

-- The socket: what the kernel answers to send(), what it answers to blocking writes, and the bytes that
-- it has taken.
pub record Socket : Type 0 where
  pub sends : List SendResult
  pub rounds : List Round
  pub wire : List ℕ

-- A new node: SQUEUE_INIT_NODE, and both positions 0. The contents of the memory are arbitrary.
pub fresh_node : List ℕ → BufNode
fresh_node mem = record { consume_pos = 0; produce_pos = 0; bytes = mem }

-- `memcpy(&node->data[node->produce_pos], …)` and `node->produce_pos += …`, a uint16_t.
pub append_bytes : BufNode → List ℕ → BufNode
append_bytes n src = record n {
  produce_pos = (n.produce_pos + length src) % 2 ^ 16;
  bytes = blit n.bytes n.produce_pos src;
}

-- `uint32_t buf_spare_len = BUF_NODE_SIZE - buf_node->produce_pos`.
pub buf_spare_len : BufNode → ℕ
buf_spare_len n = (buf_node_size + 2 ^ 32 - n.produce_pos) % 2 ^ 32

-- The bytes of a node from its consume position up to its produce position.
pub unsent : BufNode → List ℕ
unsent n = slice n.bytes n.consume_pos n.produce_pos

-- `squeue_get_tail`: the nodes before the last one, and the last one.
pub get_tail : List BufNode → Option (List BufNode × BufNode)
get_tail [] = none
get_tail (n ∷ q) = elim (get_tail q) [
  | none ↦ some ([], n)
  | some (before, last) ↦ some (n ∷ before, last)
]

module _ {S : Type 0} (new_mem : S → Option (List ℕ) × S) where
  -- How the loop of `send_data` ends: the queue, whether every byte is in it, and the allocator.
  pub record Filled : Type 0 where
    pub queue : List BufNode
    pub complete : Bool
    pub memory : S

  -- The loop of `send_data`, with the nodes before `buf_node`, that node and the bytes from
  -- `buf[fill_len]` on. `none` means that the fuel has run out.
  pub fill : ℕ → List BufNode → BufNode → List ℕ → S → Option Filled
  fill zero before node buf s = none
  fill (suc fuel) before node [] s =
      some (record { queue = before ++ node ∷ []; complete = true; memory = s })
  fill (suc fuel) before node (b ∷ buf) s = elim (ltb (buf_spare_len node) (length (b ∷ buf))) [
    | true ↦
        let full = append_bytes node (take (buf_spare_len node) (b ∷ buf)) in
        let rest = drop (buf_spare_len node) (b ∷ buf) in
        let (mem, s') = new_mem s in
        elim mem [
          | none ↦ some (record { queue = before ++ full ∷ []; complete = false; memory = s' })
          | some m ↦ fill fuel (before ++ full ∷ []) (fresh_node m) rest s'
        ]
    | false ↦
        some (record {
          queue = before ++ append_bytes node (b ∷ buf) ∷ [];
          complete = true;
          memory = s;
        })
  ]

  -- The part of `send_data` under the queue lock, on an asynchronous connection: the tail of the
  -- queue or a new node, then the loop. A queue with no memory for its first node stays empty.
  pub enqueue : List BufNode → List ℕ → S → Option Filled
  enqueue q buf s = elim (get_tail q) [
    | some (before, node) ↦ fill (length buf + 2) before node buf s
    | none ↦
        let (mem, s') = new_mem s in
        elim mem [
          | none ↦ some (record { queue = q; complete = false; memory = s' })
          | some m ↦ fill (length buf + 2) [] (fresh_node m) buf s'
        ]
  ]

  -- The end of `send_data` on an asynchronous connection, after the queue has been filled: -1 where
  -- memory ran out or the connection is being freed, else the result of register_write().
  pub after_enqueue : (registered : Bool) → NetRecv → Filled → Bool × NetRecv
  after_enqueue registered r f =
      let queued = record r { data_queue = f.queue } in
      let rearmed = record queued { is_register_write = r.is_register_write || registered } in
      if not f.complete
      then (false, queued)
      else if r.is_freed
      then (false, queued)
      else (registered, rearmed)

  -- `send_data`: the result is true for 0 and false for -1. `registered` is what np_add_write_job
  -- answers in register_write().
  pub send_data :
      (registered : Bool) → NetRecv → Socket → List ℕ → S → Option (Bool × NetRecv × Socket × S)
  send_data registered r k buf s = elim r.is_async_write [
    | false ↦ elim (sock_write_timeout k.rounds buf k.wire) [
      | none ↦ none
      | some w ↦ some (w.ret == length buf, r, record k { rounds = w.rest; wire = w.wire }, s)
    ]
    | true ↦ elim (enqueue r.data_queue buf s) [
      | none ↦ none
      | some f ↦ let (done, r') = after_enqueue registered r f in some (done, r', k, f.memory)
    ]
  ]

-- How `send_buf_node` leaves: the node, what is left of the script, the wire, and whether it failed.
pub record Sent : Type 0 where
  pub node : BufNode
  pub sends : List SendResult
  pub wire : List ℕ
  pub failed : Bool

-- The kernel has taken `taken` bytes: `consume_pos += send_len`, a uint16_t.
pub consume : BufNode → ℕ → BufNode
consume n taken = record n { consume_pos = (n.consume_pos + taken) % 2 ^ 16 }

-- The loop of `send_buf_node`, over `spare_len`. send() takes at most what it is given; a script that
-- has ended stands for a socket that is full.
pub send_buf_node : ℕ → BufNode → List SendResult → List ℕ → Sent
send_buf_node zero n sends wire = record { node = n; sends = sends; wire = wire; failed = false }
send_buf_node (suc spare) n [] wire = record { node = n; sends = []; wire = wire; failed = false }
send_buf_node (suc spare) n (accepts room ∷ sends) wire =
    let taken = min room (suc spare) in
    let sent = take taken (drop n.consume_pos n.bytes) in
    send_buf_node (suc spare - taken) (consume n taken) sends (wire ++ sent)
send_buf_node (suc spare) n (send_failed e ∷ sends) wire = elim (is_eagain e) [
  | true ↦ record { node = n; sends = sends; wire = wire; failed = false }
  | false ↦ elim (is_eintr e) [
    | true ↦ send_buf_node (suc spare) n sends wire
    | false ↦ record { node = n; sends = sends; wire = wire; failed = true }
  ]
]

-- What a round of the loop of `send_handle` does with the node it has written to, where `next` is what
-- the rest of the loop does once the node is complete. An unfinished node stays current, and the write
-- event is registered again.
pub settle :
    (registered : Bool)
    → Sent
    → List BufNode
    → NetRecv
    → Socket
    → (next : Bool × NetRecv × Socket) → Bool × NetRecv × Socket
settle registered out q r k next =
    let k' = record k { sends = out.sends; wire = out.wire } in
    let held = record r { cur_send_node = some out.node; data_queue = q } in
    let rearmed = record held { is_register_write = r.is_register_write || registered } in
    if out.failed
    then (false, record held { is_write_failed = true }, k')
    else if out.node.consume_pos == out.node.produce_pos
    then next
    else (true, rearmed, k')

-- The loop of `send_handle`: the current node, and the queue behind it.
pub send_loop :
    (registered : Bool) → BufNode → List BufNode → NetRecv → Socket → Bool × NetRecv × Socket
send_loop registered n [] r k =
    let out = send_buf_node (n.produce_pos - n.consume_pos) n k.sends k.wire in
    let k' = record k { sends = out.sends; wire = out.wire } in
    let done = record r { cur_send_node = none; data_queue = []; freed = r.freed + 1 } in
    settle registered out [] r k (true, done, k')
send_loop registered n (next ∷ q) r k =
    let out = send_buf_node (n.produce_pos - n.consume_pos) n k.sends k.wire in
    let k' = record k { sends = out.sends; wire = out.wire } in
    let rest = send_loop registered next q (record r { freed = r.freed + 1 }) k' in
    settle registered out (next ∷ q) r k rest

-- `send_handle` over the current node and the queue. With no current node it dequeues one.
pub send_from :
    (registered : Bool) → Option BufNode → List BufNode → NetRecv → Socket → Bool × NetRecv × Socket
send_from registered (some n) q r k = send_loop registered n q r k
send_from registered none (n ∷ q) r k = send_loop registered n q r k
send_from registered none [] r k = (true, record r { cur_send_node = none; data_queue = [] }, k)

-- `send_handle`: the result is true for 0 and false for -1.
pub send_handle : (registered : Bool) → NetRecv → Socket → Bool × NetRecv × Socket
send_handle registered r k = send_from registered r.cur_send_node r.data_queue r k
