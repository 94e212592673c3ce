-- ===== src/NetRecv/Fill.antt =====
-- The loop of `send_data` (netpool/outclass/CNetRecv.cpp) that copies the caller's bytes into nodes.
use netpool.Base.{
  ℕ, zero, suc, ◌+◌, ◌/◌, ◌≤◌, ◌<◌, ◌≡◌, refl, sym, ap, subst, ◌∙◌, inl, inr, true, false, Option,
  some, List, [], ◌∷◌, ◌++◌, append-nil, append_assoc, arith, ltb, length, take, drop, All,
  All-append, Bool-cases, Option-cases, take-append-drop, length-take, length-drop,
}
use netpool.NetRecv.{
  BufNode, buf_node_size, Filled, fill, enqueue, fresh_node, append_bytes, buf_spare_len, unsent,
}
use netpool.NetRecv.Buffers.{
  IsNode, pending, pending-append, fresh_node-IsNode, unsent-fresh_node, produce_pos-fresh_node,
  buf_spare_len_lem, append_bytes-IsNode, unsent-append_bytes, get_tail_cases, All-append_last,
}

pending_last :
    (before : List BufNode) (n : BufNode) → pending (before ++ n ∷ []) ≡ pending before ++ unsent n
pending_last before n =
    pending-append before (n ∷ []) ∙ ap (λ t. pending before ++ t) (append-nil (unsent n))

-- The queue after bytes that fit have been copied to its last node.
module _ (before : List BufNode) (node : BufNode) (src : List ℕ) (vs : All IsNode before)
    (v : IsNode node) (room : node.produce_pos + length src ≤ 1500) where
  pending_filled :
      pending (before ++ append_bytes node src ∷ []) ≡ (pending before ++ unsent node) ++ src
  pending_filled =
      pending_last before (append_bytes node src)
      ∙ ap (λ t. pending before ++ t) (unsent-append_bytes node src v room)
      ∙ sym (append_assoc (pending before) (unsent node) src)

  All-filled : All IsNode (before ++ append_bytes node src ∷ [])
  All-filled = All-append IsNode before _ vs (append_bytes-IsNode node src v room, tt)

module _ {S : Type 0} (new_mem : S → Option (List ℕ) × S)
    (sized : (s : S) (mem : List ℕ) → (new_mem s).0 ≡ some mem → length mem ≡ buf_node_size) where
  -- The queue has gained the bytes of the buffer up to some place, all of them if the loop is complete.
  abbrev pub Gains : List ℕ → List ℕ → Filled new_mem → Type 0
  Gains old buf f =
      (taken : List ℕ) × (rest : List ℕ) × (buf ≡ taken ++ rest)
      × (pending f.queue ≡ old ++ taken)
      × (f.complete ≡ true → rest ≡ [])
      × All IsNode f.queue

  -- With enough fuel the loop ends, whatever the allocator answers.
  pub fill-Gains :
      (fuel : ℕ) (before : List BufNode) (node : BufNode) (buf : List ℕ) (s : S)
      → All IsNode before
      → IsNode node
      → length buf + node.produce_pos / 1500 < fuel
      → (f : Filled new_mem) × (fill new_mem fuel before node buf s ≡ some f)
        × Gains (pending before ++ unsent node) buf f
  unfolding fill
  fill-Gains zero before node buf s vs v h = absurd (omega arith)
  fill-Gains (suc fuel) before node [] s vs v h = (
    record { queue = before ++ node ∷ []; complete = true; memory = s },
    refl,
    (
      [],
      [],
      refl,
      pending_last before node ∙ sym (append-nil _),
      λ _. refl,
      All-append IsNode before _ vs (v, tt),
    ),
  )
  fill-Gains (suc fuel) before node (b ∷ buf) s vs v h =
      elim (Bool-cases (ltb (buf_spare_len node) (length (b ∷ buf)))) [
        | inr fits ↦
            let room : node.produce_pos + length (b ∷ buf) ≤ 1500 =
              ground (arith, buf_spare_len_lem node v, v.fits) in
            (
              record {
                queue = before ++ append_bytes node (b ∷ buf) ∷ [];
                complete = true;
                memory = s;
              },
              ground arith,
              (
                b ∷ buf,
                [],
                sym (append-nil (b ∷ buf)),
                pending_filled before node (b ∷ buf) vs v room,
                λ _. refl,
                All-filled before node (b ∷ buf) vs v room,
              ),
            )
        | inl over ↦
            let spare = buf_spare_len node in
            let src = take spare (b ∷ buf) in
            let rest = drop spare (b ∷ buf) in
            let full = append_bytes node src in
            let room : node.produce_pos + length src ≤ 1500 =
              ground (arith, buf_spare_len_lem node v, v.fits, length-take spare (b ∷ buf)) in
            let front = pending_filled before node src vs v room in
            let valid = All-filled before node src vs v room in
            elim (Option-cases (new_mem s).0) [
              | inl no_mem ↦ (
                record { queue = before ++ full ∷ []; complete = false; memory = (new_mem s).1 },
                ground arith,
                (src, rest, sym (take-append-drop spare (b ∷ buf)), front, λ e. cc, valid),
              )
              | inr (m, mem) ↦
                  let v' = fresh_node-IsNode m (sized s m mem) in
                  let fuel_left : length rest + (fresh_node m).produce_pos / 1500 < fuel = ground (
                    arith,
                    buf_spare_len_lem node v,
                    length-drop spare (b ∷ buf),
                    produce_pos-fresh_node m,
                  ) in
                  let (f, run, (taken, left, split, onto, whole, ok)) =
                    fill-Gains fuel (before ++ full ∷ []) (fresh_node m) rest (new_mem s).1 valid v'
                      fuel_left in
                  (
                    f,
                    ground (arith, run),
                    (
                      src ++ taken,
                      left,
                      sym (take-append-drop spare (b ∷ buf))
                          ∙ ap (λ t. src ++ t) split
                          ∙ sym (append_assoc src taken left),
                      onto
                          ∙ ap (λ t. (pending (before ++ full ∷ []) ++ t) ++ taken)
                              (unsent-fresh_node m)
                          ∙ ap (λ t. t ++ taken) (append-nil _ ∙ front)
                          ∙ append_assoc _ src taken,
                      whole,
                      ok,
                    ),
                  )
            ]
      ]

  -- The locked part of `send_data` always ends: the nodes keep their form, and the queue gains the
  -- bytes of the buffer up to some place, all of them if no allocation fails.
  pub enqueue-Gains :
      (q : List BufNode) (buf : List ℕ) (s : S)
      → All IsNode q
      → (f : Filled new_mem) × (enqueue new_mem q buf s ≡ some f) × Gains (pending q) buf f
  unfolding enqueue
  enqueue-Gains q buf s vs = elim (get_tail_cases q) [
    | inr (before, last, t, e) ↦
        let (vs', v) = All-append_last before last (subst (All IsNode) e vs) in
        let (f, run, gains) =
          fill-Gains (length buf + 2) before last buf s vs' v (ground (arith, v.fits)) in
        (
          f,
          rw (t, enqueue) run,
          subst (λ old. Gains old buf f) (sym (ap pending e ∙ pending_last before last)) gains,
        )
    | inl (e, t) ↦ elim (Option-cases (new_mem s).0) [
      | inl no_mem ↦ (
        record { queue = q; complete = false; memory = (new_mem s).1 },
        rw (t, no_mem, enqueue),
        ([], buf, refl, sym (append-nil _), λ x. cc, vs),
      )
      | inr (m, mem) ↦
          let v = fresh_node-IsNode m (sized s m mem) in
          let (f, run, gains) =
            fill-Gains (length buf + 2) [] (fresh_node m) buf (new_mem s).1 tt v
              (ground (arith, produce_pos-fresh_node m)) in
          (
            f,
            rw (t, mem, enqueue) run,
            subst (λ old. Gains old buf f) (unsent-fresh_node m ∙ sym (ap pending e)) gains,
          )
    ]
  ]
