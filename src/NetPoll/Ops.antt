-- ===== src/NetPoll/Ops.antt =====
-- The operations of netpool/src/CNetPoll.cpp that add and delete jobs, and the handler of write events of
-- netpool/src/CJobIo.cpp. epoll_ctl is a parameter, over a state of the kernel's own.
use netpool.Base.{
  ℕ, Bool, true, false, not, Option, none, some, List, ◌∷◌, ◌++◌, if◌then◌else◌, get_elem?,
}
use netpool.NetPoll.{
  listen_job, IoJob, NetPoll, Events, CtlOp, ctl_add, ctl_mod, ctl_del, in_et, out_et, out_only,
  in_out_et, find_io_job, add_io_job, pick_thrd_index, new_job, init_recv_buf, set_write_callback,
  kind_of,
}

-- What follows a call of epoll_ctl: on success, on failure.
unfoldable pub after_ctl {ℓ κ} :
    {E : Type ℓ} {X : Type κ} → Option (Bool × E) → (E → X) → (E → X) → Option X
after_ctl none done failed = none
after_ctl (some (true, e)) done failed = some (done e)
after_ctl (some (false, e)) done failed = some (failed e)

-- A job that an operation has found goes back to its place.
unfoldable pub put_back {ℓ} :
    {E : Type ℓ}
    → NetPoll
    → (before after : List IoJob) → Option (Bool × IoJob × E)
    → Option (Bool × NetPoll × E)
put_back p before after none = none
put_back p before after (some (done, j, e)) =
    some (done, record p { io_jobs = before ++ j ∷ after }, e)

-- The assert(0) of an operation that has failed.
unfoldable pub unless_failed :
    {E : Type 0} → Option (Bool × NetPoll × E) → Option (Bool × NetPoll × E)
unless_failed none = none
unless_failed (some (true, p, e)) = some (true, p, e)
unless_failed (some (false, p, e)) = none

module _ {E : Type 0} (epoll_ctl : CtlOp → Option ℕ → (fd : ℕ) → E → Bool × E) where
  -- `epoll_ctl(m_epfd[index], …)`.
  unfoldable pub ctl : NetPoll → (index : ℕ) → CtlOp → (fd : ℕ) → E → Option (Bool × E)
  ctl p index op fd e = elim (get_elem? p.epfds index) [
    | none ↦ none
    | some epfd ↦ some (epoll_ctl op epfd fd e)
  ]

  -- A new job is put in the list if epoll takes it.
  unfoldable pub register : NetPoll → IoJob → Events → E → Option (Bool × NetPoll × E)
  register p j events e =
      after_ctl (ctl p j.thrd_index (ctl_add events) j.fd e) (λ e'. (true, add_io_job j p, e'))
        (λ e'. (false, p, e'))

  -- `del_io_writing_evt`; failures are logged.
  unfoldable pub del_io_writing_evt : NetPoll → IoJob → E → Option E
  del_io_writing_evt p j e =
      let op = if j.event_read then ctl_mod (in_et j.addr) else ctl_del in
      after_ctl (ctl p j.thrd_index op j.fd e) (λ e'. e') (λ e'. e')

  -- `add_listen_job`; `none` is also the assert(0) after a failure of epoll_ctl, which aborts the program.
  unfoldable pub add_listen_job :
      (addr io_func fd param1 : ℕ) → NetPoll → E → Option (Bool × NetPoll × E)
  add_listen_job addr io_func fd param1 p e = elim (find_io_job fd p.io_jobs) [
    | some _ ↦ some (false, p, e)
    | none ↦ unless_failed (
        register p
          (record (new_job addr listen_job fd param1) {
            read_func = io_func;
            event_read = true;
            thrd_index = 0;
          })
          (in_et addr) e)
  ]

  -- `del_listen_job` on the job that it finds: the job is marked under the lock, and epoll_ctl is called after
  -- it has been released. What other threads do in between is left out.
  unfoldable pub del_listen_from : (free_func : ℕ) → NetPoll → IoJob → E → Option (Bool × IoJob × E)
  del_listen_from free_func p j e =
      let j' = record j { free_func = free_func; is_want_delete = true } in
      after_ctl (ctl p 0 ctl_del j.fd e) (λ e'. (true, j', e')) (λ e'. (false, j', e'))

  unfoldable pub del_listen_job : (fd free_func : ℕ) → NetPoll → E → Option (Bool × NetPoll × E)
  del_listen_job fd free_func p e = elim (find_io_job fd p.io_jobs) [
    | none ↦ some (false, p, e)
    | some (before, j, after) ↦ put_back p before after (del_listen_from free_func p j e)
  ]

  -- `add_read_job` on a job that it finds.
  unfoldable pub add_read_to :
      (io_func thrd_index buffer_size : ℕ) → NetPoll → IoJob → E → Option (Bool × IoJob × E)
  add_read_to io_func thrd_index buffer_size p j e =
      let j' = init_recv_buf (record j { read_func = io_func; event_read = true }) buffer_size in
      let done : E → Bool × IoJob × E = λ e'. (true, j', e') in
      let failed : E → Bool × IoJob × E = λ e'. (false, j, e') in
      if j.event_write
      then after_ctl (ctl p j.thrd_index (ctl_mod (in_out_et j.addr)) j.fd e) done failed
      else if not j.event_read
      then after_ctl (ctl p thrd_index (ctl_add (in_et j.addr)) j.fd e) done failed
      else some (true, j', e)

  unfoldable pub add_read_job :
      (addr io_func fd param1 thrd_index buffer_size : ℕ) (is_tcp : Bool)
      → NetPoll
      → E
      → Option (Bool × NetPoll × E)
  add_read_job addr io_func fd param1 thrd_index buffer_size is_tcp p e =
      elim (find_io_job fd p.io_jobs) [
        | none ↦
            let (index, p') = pick_thrd_index thrd_index p in
            let j = record (new_job addr (kind_of is_tcp) fd param1) {
              read_func = io_func;
              event_read = true;
              thrd_index = index;
            } in
            register p' (init_recv_buf j buffer_size) (in_et j.addr) e
        | some (before, j, after) ↦
            put_back p before after (add_read_to io_func thrd_index buffer_size p j e)
      ]

  -- `del_read_job` on the job that it finds; failures are logged.
  unfoldable pub del_read_from : (free_func : ℕ) → NetPoll → IoJob → E → Option (Bool × IoJob × E)
  del_read_from free_func p j e =
      let j' = record j { free_func = free_func; event_read = false } in
      let gone = record j' { is_want_delete = true } in
      let stays : E → Bool × IoJob × E = λ e'. (true, j', e') in
      let goes : E → Bool × IoJob × E = λ e'. (true, gone, e') in
      if j.event_write
      then after_ctl (ctl p j.thrd_index (ctl_mod (out_et j.addr)) j.fd e) stays stays
      else if j.event_read
      then after_ctl (ctl p j.thrd_index ctl_del j.fd e) goes goes
      else some (goes e)

  unfoldable pub del_read_job : (fd free_func : ℕ) → NetPoll → E → Option (Bool × NetPoll × E)
  del_read_job fd free_func p e = elim (find_io_job fd p.io_jobs) [
    | none ↦ some (false, p, e)
    | some (before, j, after) ↦ put_back p before after (del_read_from free_func p j e)
  ]

  -- `add_write_job` on a job that it finds: the flag is set before the call of epoll_ctl.
  unfoldable pub add_write_to :
      (io_func thrd_index : ℕ) → NetPoll → IoJob → E → Option (Bool × IoJob × E)
  add_write_to io_func thrd_index p j e =
      let j' = set_write_callback j io_func in
      let set = record j' { event_write = true } in
      let done : E → Bool × IoJob × E = λ e'. (true, set, e') in
      let failed : E → Bool × IoJob × E = λ e'. (false, set, e') in
      if j.event_write
      then some (true, j', e)
      else if j.event_read
      then after_ctl (ctl p j.thrd_index (ctl_mod (in_out_et j.addr)) j.fd e) done failed
      else after_ctl (ctl p thrd_index (ctl_add (out_only j.addr)) j.fd e) done failed

  unfoldable pub add_write_job :
      (addr io_func fd param1 thrd_index : ℕ) (is_tcp : Bool)
      → NetPoll
      → E
      → Option (Bool × NetPoll × E)
  add_write_job addr io_func fd param1 thrd_index is_tcp p e = elim (find_io_job fd p.io_jobs) [
    | none ↦
        let (index, p') = pick_thrd_index thrd_index p in
        let j = record (new_job addr (kind_of is_tcp) fd param1) {
          event_write = true;
          thrd_index = index;
        } in
        register p' (set_write_callback j io_func) (out_et j.addr) e
    | some (before, j, after) ↦ put_back p before after (add_write_to io_func thrd_index p j e)
  ]

  -- `del_write_job` on the job that it finds; failures are logged.
  unfoldable pub del_write_from : (free_func : ℕ) → NetPoll → IoJob → E → Option (Bool × IoJob × E)
  del_write_from free_func p j e =
      let j' = record j { free_func = free_func; event_write = false } in
      let gone = record j' { is_want_delete = true } in
      let stays : E → Bool × IoJob × E = λ e'. (true, j', e') in
      let goes : E → Bool × IoJob × E = λ e'. (true, gone, e') in
      if j.event_read
      then after_ctl (ctl p j.thrd_index (ctl_mod (in_et j.addr)) j.fd e) stays stays
      else if j.event_write
      then after_ctl (ctl p j.thrd_index ctl_del j.fd e) goes goes
      else some (goes e)

  unfoldable pub del_write_job : (fd free_func : ℕ) → NetPoll → E → Option (Bool × NetPoll × E)
  del_write_job fd free_func p e = elim (find_io_job fd p.io_jobs) [
    | none ↦ some (true, p, e)
    | some (before, j, after) ↦ put_back p before after (del_write_from free_func p j e)
  ]

  -- `CWrIoJob::write_evt_handle` up to the call of the callback: whether it is called.
  unfoldable pub write_evt_handle : NetPoll → IoJob → E → Option (Bool × IoJob × E)
  write_evt_handle p j e =
      let j' = record j { event_write = false } in
      let unwatched = del_io_writing_evt p j e in
      if j.is_want_delete
      then some (false, j, e)
      else elim unwatched [ none ↦ none | some e' ↦ some (true, j', e') ]
