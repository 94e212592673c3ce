-- ===== src/NetPoll/Handle.antt =====
-- What the deletion of a read or write job (netpool/src/CNetPoll.cpp) and a write event
-- (netpool/src/CJobIo.cpp) do to the event flags of a job.
use netpool.Base.{
  ℕ, ◌≡◌, ◌⊎◌, inl, inr, refl, Bool, true, false, not, Option, none, some, arith, if◌then◌else◌,
  if_cases,
}
use netpool.NetPoll.{IoJob, NetPoll, CtlOp, ctl_mod, ctl_del, in_et, out_et}
use netpool.NetPoll.Ops.{del_read_from, del_write_from, del_io_writing_evt, write_evt_handle}
use netpool.NetPoll.Sync.{Obeys, Returns, InSync, ctl_cases}

module _ {E : Type 0} (epoll_ctl : CtlOp → Option ℕ → (fd : ℕ) → E → Bool × E)
    (interest : E → (epfd fd : ℕ) → Bool × Bool) (obeys : Obeys epoll_ctl interest) (p : NetPoll)
    (epfd : ℕ) where
  abbrev Synced : IoJob → E → Type 0
  Synced = InSync epoll_ctl interest obeys p epfd

  -- The call of epoll_ctl has been made for the descriptor of the job; where it has succeeded, the
  -- flags are what epoll waits for, and where it has failed, epoll waits for what it did before.
  abbrev pub Told : CtlOp → IoJob → E → IoJob → E → Type 0
  Told op j e j' e' =
      let answer = epoll_ctl op (some epfd) j.fd e in
      (e' ≡ answer.1)
      × (((answer.0 ≡ true) × Synced j' e')
          ⊎ ((answer.0 ≡ false) × (interest e' epfd j.fd ≡ interest e epfd j.fd)))

  -- No call has been made, and the flags are what epoll waits for.
  abbrev pub Untold : E → IoJob → E → Type 0
  Untold e j' e' = (e' ≡ e) × Synced j' e'

  -- What del_read_job() leaves of a job.
  abbrev pub ReadDeleted : IoJob → E → Bool → IoJob → E → Type 0
  ReadDeleted j e done j' e' =
      (done ≡ true)
      × (j'.event_read ≡ false)
      × (j'.event_write ≡ j.event_write)
      × (j'.is_want_delete ≡ (if j.event_write then j.is_want_delete else true))
      × (((j.event_write ≡ true) × Told (ctl_mod (out_et j.addr)) j e j' e')
          ⊎ (((j.event_write ≡ false) × (j.event_read ≡ true) × Told ctl_del j e j' e')
              ⊎ ((j.event_write ≡ false) × (j.event_read ≡ false) × Untold e j' e')))

  -- On a job whose flags are what epoll waits for, `del_read_job` returns true; the read flag is
  -- cleared, and the deleting flag is set exactly where the job has no write event (where it has one, it
  -- stays as it was). With a write event, epoll_ctl has been asked to wait for writing only; without one
  -- but with a read event, to delete the descriptor; with neither, it has not been called. Where the
  -- call has succeeded or none was made, the flags are again what epoll waits for; where it has failed,
  -- epoll waits for what it did before.
  pub del_read_from-flags :
      (free_func : ℕ) (j : IoJob) (e : E)
      → Synced j e
      → Returns (ReadDeleted j e) (del_read_from epoll_ctl free_func p j e)
  unfolding del_read_from
  del_read_from-flags free_func j e (at, now) =
      let P = Returns (ReadDeleted j e) in
      let cases = ctl_cases epoll_ctl interest obeys p epfd P j.thrd_index in
      if_cases P j.event_write
        (λ w.
          cases (ctl_mod (out_et j.addr)) j.fd e _ _ at
            (λ h. (
              refl,
              refl,
              refl,
              ground arith,
              inl (w, (refl, inl (h, (at, cc (obeys.modified (out_et j.addr) epfd j.fd e h))))),
            ))
            (λ h. (
              refl,
              refl,
              refl,
              ground arith,
              inl (w, (refl, inr (h, obeys.failed (ctl_mod (out_et j.addr)) epfd j.fd e h))),
            )))
        (λ w.
          if_cases P j.event_read
            (λ r.
              cases ctl_del j.fd e _ _ at
                (λ h. (
                  refl,
                  refl,
                  refl,
                  ground arith,
                  inr (inl (w, r, (refl, inl (h, (at, cc (obeys.deleted epfd j.fd e h)))))),
                ))
                (λ h. (
                  refl,
                  refl,
                  refl,
                  ground arith,
                  inr (inl (w, r, (refl, inr (h, obeys.failed ctl_del epfd j.fd e h)))),
                )))
            (λ r. (refl, refl, refl, ground arith, inr (inr (w, r, (refl, (at, cc)))))))

  -- What del_write_job() leaves of a job.
  abbrev pub WriteDeleted : IoJob → E → Bool → IoJob → E → Type 0
  WriteDeleted j e done j' e' =
      (done ≡ true)
      × (j'.event_write ≡ false)
      × (j'.event_read ≡ j.event_read)
      × (j'.is_want_delete ≡ (if j.event_read then j.is_want_delete else true))
      × (((j.event_read ≡ true) × Told (ctl_mod (in_et j.addr)) j e j' e')
          ⊎ (((j.event_read ≡ false) × (j.event_write ≡ true) × Told ctl_del j e j' e')
              ⊎ ((j.event_read ≡ false) × (j.event_write ≡ false) × Untold e j' e')))

  -- On a job whose flags are what epoll waits for, `del_write_job` returns true; the write flag is
  -- cleared, and the deleting flag is set exactly where the job has no read event (where it has one, it
  -- stays as it was). With a read event, epoll_ctl has been asked to wait for reading only; without one
  -- but with a write event, to delete the descriptor; with neither, it has not been called. Where the
  -- call has succeeded or none was made, the flags are again what epoll waits for; where it has failed,
  -- epoll waits for what it did before.
  pub del_write_from-flags :
      (free_func : ℕ) (j : IoJob) (e : E)
      → Synced j e
      → Returns (WriteDeleted j e) (del_write_from epoll_ctl free_func p j e)
  unfolding del_write_from
  del_write_from-flags free_func j e (at, now) =
      let P = Returns (WriteDeleted j e) in
      let cases = ctl_cases epoll_ctl interest obeys p epfd P j.thrd_index in
      if_cases P j.event_read
        (λ r.
          cases (ctl_mod (in_et j.addr)) j.fd e _ _ at
            (λ h. (
              refl,
              refl,
              refl,
              ground arith,
              inl (r, (refl, inl (h, (at, cc (obeys.modified (in_et j.addr) epfd j.fd e h))))),
            ))
            (λ h. (
              refl,
              refl,
              refl,
              ground arith,
              inl (r, (refl, inr (h, obeys.failed (ctl_mod (in_et j.addr)) epfd j.fd e h))),
            )))
        (λ r.
          if_cases P j.event_write
            (λ w.
              cases ctl_del j.fd e _ _ at
                (λ h. (
                  refl,
                  refl,
                  refl,
                  ground arith,
                  inr (inl (r, w, (refl, inl (h, (at, cc (obeys.deleted epfd j.fd e h)))))),
                ))
                (λ h. (
                  refl,
                  refl,
                  refl,
                  ground arith,
                  inr (inl (r, w, (refl, inr (h, obeys.failed ctl_del epfd j.fd e h)))),
                )))
            (λ w. (refl, refl, refl, ground arith, inr (inr (r, w, (refl, (at, cc)))))))

  -- What a write event leaves of a job.
  abbrev pub WriteHandled : IoJob → E → Bool → IoJob → E → Type 0
  WriteHandled j e called j' e' =
      (called ≡ not j.is_want_delete)
      × (((called ≡ false) × (j' ≡ j) × (e' ≡ e))
          ⊎ ((called ≡ true)
              × (j' ≡ (record j { event_write = false }))
              × Told (if j.event_read then ctl_mod (in_et j.addr) else ctl_del) j e j' e'))

  without_write :
      (reads : Bool) (ptr fd : ℕ) (e : E)
      → let (done, e') =
          epoll_ctl (if reads then ctl_mod (in_et ptr) else ctl_del) (some epfd) fd e in
        done ≡ true → interest e' epfd fd ≡ (reads, false)
  without_write true ptr fd e = obeys.modified (in_et ptr) epfd fd e
  without_write false ptr fd e = obeys.deleted epfd fd e

  unwatch_cases :
      (P : Option E → Type 0) (j : IoJob) (e : E)
      → Synced j e
      → ((e' : E)
          → Told
              (if j.event_read then ctl_mod (in_et j.addr) else ctl_del)
              j
              e
              (record j { event_write = false })
              e'
          → P (some e'))
      → P (del_io_writing_evt epoll_ctl p j e)
  unfolding del_io_writing_evt
  unwatch_cases P j e (at, now) h =
      let op = if j.event_read then ctl_mod (in_et j.addr) else ctl_del in
      ctl_cases epoll_ctl interest obeys p epfd P j.thrd_index op j.fd e _ _ at
        (λ ok. h _ (refl, inl (ok, (at, without_write j.event_read j.addr j.fd e ok))))
        (λ bad. h _ (refl, inr (bad, obeys.failed op epfd j.fd e bad)))

  -- On a job whose flags are what epoll waits for, a write event calls the callback exactly if the job is
  -- not to be deleted. Before the callback the write flag is cleared, and epoll_ctl has been asked to wait
  -- for reading only, or without a read event to delete the descriptor: where that has succeeded, the
  -- flags are again what epoll waits for, and where it has failed, epoll waits for what it did before. A
  -- job that is to be deleted stays as it is, without a call of epoll_ctl.
  pub write_evt_handle-flags :
      (j : IoJob) (e : E)
      → Synced j e
      → Returns (WriteHandled j e) (write_evt_handle epoll_ctl p j e)
  unfolding write_evt_handle
  write_evt_handle-flags j e sync =
      let P = Returns (WriteHandled j e) in
      if_cases P j.is_want_delete (λ gone. (ground arith, inl (refl, refl, refl)))
        (λ stays.
          unwatch_cases
            (λ o. P (elim o [
              | none ↦ none
              | some e' ↦ some (true, record j { event_write = false }, e')
            ]))
            j e sync (λ e' ends. (ground arith, inr (refl, refl, ends))))
