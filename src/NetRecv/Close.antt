-- ===== src/NetRecv/Close.antt =====
-- What `free_async_write_resource` (netpool/outclass/CNetRecv.cpp) does with the bytes and the nodes of a
-- connection that is closed.
use netpool.Base.{
  ℕ, ◌+◌, ◌-◌, ◌≡◌, refl, sym, ap, ◌∙◌, ◌⊎◌, inl, inr, drop, Bool, true, false, Option, none, some,
  List, [], ◌∷◌, ◌++◌, append-nil, append_assoc, arith, length, All, Bool-cases, Option-cases,
  of_some_eq, length-take, length-drop,
}
use netpool.SocketWrap.{sock_write_timeout}
use netpool.SocketWrap.Write.{sock_write_timeout-prefix, written_whole}
use netpool.NetRecv.{BufNode, NetRecv, Socket, unsent}
use netpool.NetRecv.Flush.{
  write_node, after_write, flush_queue, flush, free_nodes, flushed, free_async_write_resource,
  held_nodes, current_count,
}
use netpool.NetRecv.Buffers.{IsNode, pending, current, backlog, IsConnection}

length-unsent : (n : BufNode) → IsNode n → length (unsent n) ≡ n.produce_pos - n.consume_pos
unfolding unsent
length-unsent n v = omega (
  arith,
  length-take (n.produce_pos - n.consume_pos) (drop n.consume_pos n.bytes),
  length-drop n.consume_pos n.bytes,
  v.sized,
  v.fits,
)

-- A prefix of the bytes is added to the wire, all of them where `complete`.
abbrev Writes : List ℕ → Socket → Bool → Socket → Type 0
Writes bytes k complete k' =
    (sent : List ℕ) × (rest : List ℕ) × (bytes ≡ sent ++ rest)
    × (k'.wire ≡ k.wire ++ sent)
    × (complete ≡ true → rest ≡ [])

write_node-Writes :
    (n : BufNode) (k : Socket) {complete : Bool} {k' : Socket}
    → IsNode n
    → write_node n k ≡ some (complete, k')
    → Writes (unsent n) k complete k'
unfolding write_node
write_node-Writes n k {complete} {k'} v e =
    elim (Option-cases (sock_write_timeout k.rounds (unsent n) k.wire)) [
      | inl waits ↦ absurd (ground arith)
      | inr (w, run) ↦
          let (sent, rest, split, onto, count) =
            sock_write_timeout-prefix k.rounds (unsent n) k.wire w run in
          (
            sent,
            rest,
            split,
            ground (arith, onto),
            λ c. written_whole w.ret _ sent rest split count (ground (arith, length-unsent n v)),
          )
    ]

after_write_cases {ℓ κ} :
    {X : Type ℓ} (P : X → Type κ) (o : Option (Bool × Socket)) (continue : Socket → Option X)
    (stop : Socket → X) {x : X}
    → ((k : Socket) → o ≡ some (true, k) → continue k ≡ some x → P x)
    → ((k : Socket) → o ≡ some (false, k) → P (stop k))
    → after_write o continue stop ≡ some x
    → P x
unfolding after_write
after_write_cases P none continue stop go end e = cc
after_write_cases P (some (true, k)) continue stop go end e = go k refl e
after_write_cases P (some (false, k)) continue stop go end e = of_some_eq P (stop k) (end k refl) e

-- The loop over nodes, from a number of freed nodes: a prefix of their bytes is added to the wire, all
-- of them if no node is left, and each node is left or freed.
abbrev Flushes : List BufNode → ℕ → Socket → List BufNode × ℕ × Socket → Type 0
Flushes nodes freed k (q, freed', k') =
    (sent : List ℕ) × (rest : List ℕ) × (pending nodes ≡ sent ++ rest)
    × (k'.wire ≡ k.wire ++ sent)
    × (freed' + length q ≡ freed + length nodes)

Flushes-more :
    (n : BufNode) (nodes : List BufNode) (freed : ℕ) (k k' : Socket)
    (out : List BufNode × ℕ × Socket)
    → Writes (unsent n) k true k'
    → Flushes nodes (freed + 1) k' out
    → Flushes (n ∷ nodes) freed k out
Flushes-more n nodes freed k k' out (sent, rest, split, onto, whole)
      (sent', rest', split', onto', count) =
    (
      sent ++ sent',
      rest',
      ap (λ t. t ++ pending nodes) (split ∙ ap (λ t. sent ++ t) (whole refl) ∙ append-nil sent)
          ∙ ap (λ t. sent ++ t) split'
          ∙ sym (append_assoc sent sent' rest'),
      onto' ∙ ap (λ t. t ++ sent') onto ∙ append_assoc k.wire sent sent',
      omega arith,
    )

Flushes-stop :
    (n : BufNode) (nodes : List BufNode) (freed : ℕ) (k k' : Socket)
    → Writes (unsent n) k false k'
    → Flushes (n ∷ nodes) freed k (nodes, freed + 1, k')
Flushes-stop n nodes freed k k' (sent, rest, split, onto, whole) = (
  sent,
  rest ++ pending nodes,
  ap (λ t. t ++ pending nodes) split ∙ append_assoc sent rest (pending nodes),
  onto,
  omega arith,
)

flush_queue-Flushes :
    (q : List BufNode) (freed : ℕ) (k : Socket) {out : List BufNode × ℕ × Socket}
    → All IsNode q
    → flush_queue q freed k ≡ some out
    → Flushes q freed k out
unfolding flush_queue
flush_queue-Flushes [] freed k v e =
    of_some_eq (Flushes [] freed k) ([], freed, k) ([], [], refl, sym (append-nil k.wire), refl) e
flush_queue-Flushes (n ∷ q) freed k {out} v e =
    after_write_cases (Flushes (n ∷ q) freed k) (write_node n k) _ _
      (λ k' w e'.
        Flushes-more n q freed k k' out (write_node-Writes n k v.0 w)
          (flush_queue-Flushes q (freed + 1) k' v.1 e'))
      (λ k' w. Flushes-stop n q freed k k' (write_node-Writes n k v.0 w)) e

flush-Flushes :
    (c : Option BufNode) (q : List BufNode) (freed : ℕ) (k : Socket)
    {out : List BufNode × ℕ × Socket}
    → All IsNode (current c ++ q)
    → flush c q freed k ≡ some out
    → Flushes (current c ++ q) freed k out
unfolding flush
flush-Flushes none q freed k v e = flush_queue-Flushes q freed k v e
flush-Flushes (some n) q freed k {out} v e =
    after_write_cases (Flushes (n ∷ q) freed k) (write_node n k) _ _
      (λ k' w e'.
        Flushes-more n q freed k k' out (write_node-Writes n k v.0 w)
          (flush_queue-Flushes q (freed + 1) k' v.1 e'))
      (λ k' w. Flushes-stop n q freed k k' (write_node-Writes n k v.0 w)) e

length-current :
    (c : Option BufNode) (q : List BufNode) → length (current c ++ q) ≡ length q + current_count c
length-current none q = omega arith
length-current (some n) q = omega arith

-- When an asynchronous connection with well-formed nodes is closed, the socket has taken a prefix of
-- the bytes that were still to write, in order (none after an earlier write failure), every node that
-- was held has been freed exactly once, the queue is empty and the connection is no longer
-- asynchronous.
pub free_async_write_resource-Closes :
    (r : NetRecv) (k : Socket) {r' : NetRecv} {k' : Socket}
    → r.is_async_write ≡ true
    → IsConnection r
    → free_async_write_resource r k ≡ some (r', k')
    → (sent : List ℕ) × (rest : List ℕ) × (backlog r ≡ sent ++ rest)
      × (k'.wire ≡ k.wire ++ sent)
      × ((r.is_write_failed ≡ false) ⊎ (sent ≡ []))
      × (r'.freed ≡ r.freed + held_nodes r)
      × (r'.data_queue ≡ [])
      × (r'.is_async_write ≡ false)
unfolding free_async_write_resource free_nodes flushed
free_async_write_resource-Closes r k {r'} {k'} async v e = elim (Bool-cases r.is_write_failed) [
  | inl failed ↦ (
    [],
    backlog r,
    refl,
    ground (arith, append-nil k.wire),
    inr refl,
    ground arith,
    ground arith,
    ground arith,
  )
  | inr fine ↦ elim (Option-cases (flush r.cur_send_node r.data_queue r.freed k)) [
    | inl waits ↦ absurd (ground arith)
    | inr ((q, freed, k1), run) ↦
        let (sent, rest, split, onto, count) =
          flush-Flushes r.cur_send_node r.data_queue r.freed k v run in
        (
          sent,
          rest,
          split,
          ground (arith, onto),
          inl fine,
          ground (arith, count, length-current r.cur_send_node r.data_queue),
          ground arith,
          ground arith,
        )
  ]
]
