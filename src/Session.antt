-- ===== src/Session.antt =====
-- How a CNetRecv (netpool/outclass/CNetRecv.cpp) registers its socket with the jobs of CNetPoll, by the
-- calls of netpool/src/netpool.cpp, which pass their arguments on. epoll_ctl is a parameter, and so are
-- the virtual handlers; `none` is an access behind the end of m_epfd.
pub mod Deletion
pub mod Calls
pub mod Free
pub mod Sweep
mod Tests
use netpool.Base.{
  ℕ, ◌-◌, ◌^◌, Bool, true, false, not, ◌&&◌, Option, none, some, List, [], ◌∷◌, ◌++◌, ◌==◌,
  if◌then◌else◌,
}
use netpool.NetPoll.{NetPoll, CtlOp}
use netpool.NetPoll.Ops.{add_read_job, del_read_job, add_write_job, del_write_job}

-- The descriptor -1, as the word of 32 bits that it is.
abbrev pub no_fd : ℕ
no_fd = 2 ^ 32 - 1

-- The addresses of the static functions that are handed over.
abbrev pub recv_callback : ℕ
recv_callback = 1

abbrev pub send_callback : ℕ
send_callback = 2

abbrev pub connect_callback : ℕ
connect_callback = 3

abbrev pub free_callback : ℕ
free_callback = 4

-- The fields of a CNetRecv that the registration is about, with the address of the object.
pub record Conn : Type 0 where
  pub self : ℕ
  pub fd : ℕ
  pub thrd_index : ℕ
  pub is_connected : Bool
  pub is_register_read : Bool
  pub is_register_write : Bool
  pub is_register_connect : Bool
  pub is_freed : Bool

-- The object as the constructors leave it (`init_common_data`); without a descriptor, fd is no_fd.
pub new_conn : (self fd : ℕ) → Conn
new_conn self fd = record {
  self = self;
  fd = fd;
  thrd_index = 0;
  is_connected = false;
  is_register_read = false;
  is_register_write = false;
  is_register_connect = false;
  is_freed = false;
}

-- The object, the jobs, and the kernel. The descriptors that have been closed are listed.
pub record Session (E : Type 0) : Type 0 where
  pub conn : Conn
  pub poll : NetPoll
  pub kernel : E
  pub closed : List ℕ

-- What socket() and connect() answer in `register_connect`.
pub data ConnectResult : Type 0 where
  no_socket : ConnectResult
  connected in_progress refused : (fd : ℕ) → ConnectResult

-- What a call of netpool.cpp leaves: its answer, and the session with its jobs.
pub after_np {ℓ} :
    {E : Type 0} {X : Type ℓ}
    → Session E
    → Option (Bool × NetPoll × E)
    → (Bool → Session E → X)
    → Option X
after_np s none next = none
after_np s (some (answer, p, e)) next = some (next answer (record s { poll = p; kernel = e }))

-- The next step, if there is one.
pub and_then {ℓ} : {X Y : Type ℓ} → Option X → (X → Option Y) → Option Y
and_then none next = none
and_then (some x) next = next x

module _ {E : Type 0} (epoll_ctl : CtlOp → Option ℕ → (fd : ℕ) → E → Bool × E) where
  abbrev State : Type 0
  State = Session E

  -- `register_read`: true for 0 and false for -1. A new job stands at `addr`; the size of the buffer is
  -- the 0 of netpool.h. The address of the socket is not read.
  pub register_read : (addr : ℕ) → State → Option (Bool × State)
  register_read addr s =
      let c = s.conn in
      let answer =
        add_read_job epoll_ctl addr recv_callback c.fd c.self c.thrd_index 0 true s.poll s.kernel in
      if c.fd == no_fd
      then some (false, s)
      else after_np s answer (λ done s'.
        (done, if done then record s' { conn = record c { is_register_read = true } } else s'))

  -- `unregister_read`.
  pub unregister_read : State → Option State
  unregister_read s =
      after_np s (del_read_job epoll_ctl s.conn.fd free_callback s.poll s.kernel)
        (λ done s'. record s' { conn = record s.conn { is_register_read = false } })

  -- `register_write`.
  pub register_write : (addr : ℕ) → State → Option (Bool × State)
  register_write addr s =
      let c = s.conn in
      after_np s
        (add_write_job epoll_ctl addr send_callback c.fd c.self c.thrd_index true s.poll s.kernel)
        (λ done s'.
          (done, if done then record s' { conn = record c { is_register_write = true } } else s'))

  -- `unregister_write`.
  pub unregister_write : State → Option State
  unregister_write s =
      after_np s (del_write_job epoll_ctl s.conn.fd free_callback s.poll s.kernel)
        (λ done s'. record s' { conn = record s.conn { is_register_write = false } })

  -- `unregister_connect`.
  pub unregister_connect : State → Option State
  unregister_connect s =
      after_np s (del_write_job epoll_ctl s.conn.fd free_callback s.poll s.kernel)
        (λ done s'. record s' { conn = record s.conn { is_register_connect = false } })

  -- The calls of `free` after unregister_read().
  pub free_write : State → Option State
  free_write s =
      if s.conn.is_register_write
      then unregister_write s
      else if s.conn.is_register_connect
      then unregister_connect s
      else some s

  -- `free`.
  pub free : State → Option State
  free s =
      let s' = record s { conn = record s.conn { is_freed = true } } in
      and_then (if s.conn.is_register_read then unregister_read s' else some s') free_write

  module _ (connect_handle : Bool → State → Option State) where
    -- `register_connect`. A connection that is made at once is reported at once, and not registered.
    pub register_connect : ConnectResult → (addr : ℕ) → State → Option (Bool × State)
    register_connect no_socket addr s =
        some (false, record s { conn = record s.conn { fd = no_fd } })
    register_connect (connected fd) addr s =
        and_then
          (connect_handle true (record s { conn = record s.conn { fd = fd; is_connected = true } }))
          (λ s'. some (true, s'))
    register_connect (refused fd) addr s =
        some (false, record s { conn = record s.conn { fd = no_fd }; closed = fd ∷ s.closed })
    register_connect (in_progress fd) addr s =
        let c = record s.conn { fd = fd; is_register_connect = true } in
        let s' = record s { conn = c } in
        after_np s'
          (add_write_job epoll_ctl addr connect_callback fd c.self c.thrd_index true s.poll
            s.kernel)
          (λ done s''. (done, s''))

    -- `init`.
    pub init_conn : ConnectResult → (addr : ℕ) → State → Option (Bool × State)
    init_conn answer addr s =
        if not (s.conn.fd == no_fd) then register_read addr s else register_connect answer addr s

    -- `_connect_callback` from its handler on: a connection that only waits for its connect unregisters.
    pub connect_end : State → Option State
    connect_end s =
        if not s.conn.is_register_write && s.conn.is_register_connect
        then unregister_connect s
        else some s

    -- `_connect_callback`, where `made` says that getsockopt() has reported no error.
    pub on_connect : (fd : ℕ) (made : Bool) → State → Option State
    on_connect fd made s =
        if not (s.conn.fd == fd)
        then free s
        else and_then (connect_handle made s) (λ s'.
          connect_end
            (if made then record s' { conn = record s'.conn { is_connected = true } } else s'))

  -- `_recv_callback`; the handler answers false for -1.
  pub on_recv :
      (recv_handle : List ℕ → State → Option (Bool × State)) (fd : ℕ) (buf : List ℕ)
      → State
      → Option State
  on_recv recv_handle fd [] s = free s
  on_recv recv_handle fd (b ∷ bs) s =
      if not (s.conn.fd == fd)
      then free s
      else and_then (recv_handle (b ∷ bs) s) (λ (done, s'). if done then some s' else free s')

  -- `_send_callback`; the handler answers false for -1.
  pub on_send : (send_handle : State → Option (Bool × State)) (fd : ℕ) → State → Option State
  on_send send_handle fd s =
      if not (s.conn.fd == fd)
      then free s
      else and_then (send_handle s) (λ (done, s'). if done then some s' else free s')

  -- `_free_callback`, where `release` is free_async_write_resource() and free_handle() the user's.
  pub on_free : (release free_handle : State → Option State) (fd : ℕ) → State → Option State
  on_free release free_handle fd s =
      if not (s.conn.fd == fd)
      then free s
      else and_then (release s) (λ s'.
        free_handle
          (record s' { conn = record s'.conn { fd = no_fd }; closed = s'.conn.fd ∷ s'.closed }))
