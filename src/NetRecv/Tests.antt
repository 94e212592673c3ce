-- ===== src/NetRecv/Tests.antt =====
-- Runs of the buffered connection of netpool/outclass/CNetRecv.cpp.
use netpool.Base.{
  ℕ, zero, suc, ◌+◌, ◌≡◌, refl, ap, ◌⊎◌, true, false, Option, none, some, List, [], ◌∷◌, ◌++◌,
  arith, length, replicate,
}
use netpool.SocketWrap.{
  eintr, eagain, ready, accepts, send_failed, sock_writeable, round_progress, after_round,
  sock_write_loop, sock_write_timeout,
}
use netpool.NetRecv.{BufNode, NetRecv, Socket, buf_node_size, unsent}
use netpool.NetRecv.Flush.{
  write_node, after_write, flush_queue, flush, free_nodes, flushed, held_nodes,
  free_async_write_resource,
}
use netpool.NetRecv.Buffers.{IsNode, backlog, IsConnection}
use netpool.NetRecv.Close.{free_async_write_resource-Closes}

-- A buffer of 1500 bytes that begins with 1, 2, 3.
abbrev memory : List ℕ
memory = 1 ∷ 2 ∷ 3 ∷ replicate 1497 0

length-replicate : (n a : ℕ) → length (replicate n a) ≡ n
length-replicate zero a = refl
length-replicate (suc n) a = ap suc (length-replicate n a)

length-memory : length memory ≡ buf_node_size
length-memory = omega (arith, length-replicate 1497 0)

-- Three bytes, of which the first has been sent.
abbrev node : BufNode
node = record { consume_pos = 1; produce_pos = 3; bytes = memory }

node-IsNode : IsNode node
node-IsNode = record { ordered = omega arith; fits = omega arith; sized = length-memory }

abbrev connection : NetRecv
connection = record {
  is_async_write = true;
  data_queue = node ∷ [];
  cur_send_node = some node;
  is_write_failed = false;
  is_register_write = false;
  is_freed = false;
  freed = 0;
}

connection-IsConnection : IsConnection connection
connection-IsConnection = (node-IsNode, (node-IsNode, tt))

-- One byte, an interruption, and then a full socket.
abbrev socket : Socket
socket = record {
  sends = accepts 1 ∷ send_failed eintr ∷ send_failed eagain ∷ [];
  rounds =
      record { selects = ready ∷ []; answer = accepts 9 }
      ∷ record { selects = ready ∷ []; answer = accepts 9 }
      ∷ [];
  wire = 1 ∷ [];
}

-- An allocator that counts its calls.
abbrev new_mem : ℕ → Option (List ℕ) × ℕ
new_mem n = (some (replicate 1500 0), suc n)

abbrev closed : NetRecv
closed = record connection {
  is_async_write = false;
  data_queue = [];
  cur_send_node = none;
  freed = 2;
}

abbrev closed_socket : Socket
closed_socket = record socket { rounds = []; wire = 1 ∷ 2 ∷ 3 ∷ 2 ∷ 3 ∷ [] }

close_run : free_async_write_resource connection socket ≡ some (closed, closed_socket)
unfolding free_async_write_resource flush flush_queue after_write write_node unsent free_nodes
    flushed sock_write_timeout sock_write_loop after_round round_progress sock_writeable
close_run = refl

free_async_write_resource-Closes_example :
    (sent : List ℕ) × (rest : List ℕ) × (backlog connection ≡ sent ++ rest)
    × (closed_socket.wire ≡ socket.wire ++ sent)
    × ((connection.is_write_failed ≡ false) ⊎ (sent ≡ []))
    × (closed.freed ≡ connection.freed + held_nodes connection)
    × (closed.data_queue ≡ [])
    × (closed.is_async_write ≡ false)
free_async_write_resource-Closes_example =
    free_async_write_resource-Closes connection socket refl connection-IsConnection close_run
