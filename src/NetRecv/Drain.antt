-- ===== src/NetRecv/Drain.antt =====
-- What `send_buf_node` and `send_handle` (netpool/outclass/CNetRecv.cpp) do to the bytes of a connection.
use netpool.Base.{ℕ, ◌+◌, ◌≡◌, ◌⊎◌, Bool, true, false, List, ◌++◌}
use netpool.NetRecv.{BufNode, NetRecv, Socket, Sent, unsent}
use netpool.NetRecv.Flush.{held_nodes}
use netpool.NetRecv.Buffers.{IsNode, backlog, IsConnection}

-- The node keeps its form, and its bytes are those written and those left.
abbrev Conserves : BufNode → List ℕ → Sent → Type 0
Conserves n wire out = IsNode out.node × (out.wire ++ unsent out.node ≡ wire ++ unsent n)

-- From a connection that holds the nodes `held` and the bytes `bytes`: what it holds afterwards, and
-- what has become of the rest.
abbrev pub Drains : (registered : Bool) → List ℕ → ℕ → Bool × NetRecv × Socket → Type 0
Drains registered bytes nodes (done, r, k) =
    IsConnection r
    × (k.wire ++ backlog r ≡ bytes)
    × (r.freed + held_nodes r ≡ nodes)
    × ((done ≡ false) ⊎ (registered ≡ false) ⊎ (held_nodes r ≡ 0) ⊎ (r.is_register_write ≡ true))
