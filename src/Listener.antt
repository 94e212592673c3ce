-- ===== src/Listener.antt =====
-- The listener of netpool/outclass/CNetAccept.cpp over the jobs of CNetPoll. What the operating system
-- answers is an argument, epoll_ctl and the virtual handlers are parameters; `none` is an access behind
-- the end of m_epfd.
mod Tests
use netpool.Base.{ℕ, Bool, true, false, not, Option, none, some, List, [], ◌∷◌, ◌==◌, if◌then◌else◌}
use netpool.NetPoll.{NetPoll, CtlOp}
use netpool.NetPoll.Ops.{add_listen_job, del_listen_job}
use netpool.Session.{no_fd}

-- The addresses of the static functions that are handed over.
abbrev pub accept_callback : ℕ
accept_callback = 5

abbrev pub listener_free : ℕ
listener_free = 6

-- A CNetAccept, at its address, with the jobs, the kernel and the descriptors that it has closed.
pub record Listener (E : Type 0) : Type 0 where
  pub self : ℕ
  pub listen_port : ℕ
  pub listen_fd : ℕ
  pub is_deleted : Bool
  pub poll : NetPoll
  pub kernel : E
  pub closed : List ℕ

-- The listener with what a call of CNetPoll leaves; its answer is not read.
pub keep_jobs : {E : Type 0} → Listener E → Option (Bool × NetPoll × E) → Option (Listener E)
keep_jobs l none = none
keep_jobs l (some (_, p, e)) = some (record l { poll = p; kernel = e })

-- The constructor.
pub new_listener : {E : Type 0} (self port : ℕ) → NetPoll → E → Listener E
new_listener self port p e = record {
  self = self;
  listen_port = port;
  listen_fd = no_fd;
  is_deleted = false;
  poll = p;
  kernel = e;
  closed = [];
}

module _ {E : Type 0} (epoll_ctl : CtlOp → Option ℕ → (fd : ℕ) → E → Bool × E) where
  -- `register_accept`, with the descriptor that sock_create_server() returns, or no_fd: true for 0 and false
  -- for -1.
  unfoldable pub register_accept : (server_fd addr : ℕ) → Listener E → Option (Bool × Listener E)
  register_accept server_fd addr l =
      let l' = record l { listen_fd = server_fd } in
      let added =
        keep_jobs l'
          (add_listen_job epoll_ctl addr accept_callback server_fd l.self l.poll l.kernel) in
      if server_fd == no_fd
      then some (false, l')
      else elim added [ none ↦ none | some l'' ↦ some (true, l'') ]

  -- `unregister_accept`.
  unfoldable pub unregister_accept : Listener E → Option (Listener E)
  unregister_accept l =
      let deleted =
        keep_jobs l (del_listen_job epoll_ctl l.listen_fd listener_free l.poll l.kernel) in
      if not (l.listen_fd == no_fd) then deleted else some l

-- `_accept_callback`: getpeername() gives the address and the port of the peer; the handler answers whether it
-- returned 0.
pub on_accept :
    {E : Type 0} (accept_handle : (cli_fd ipaddr port : ℕ) → Listener E → Bool × Listener E)
    (cli_fd : ℕ)
    → Option (ℕ × ℕ)
    → Listener E
    → Listener E
on_accept accept_handle cli_fd none l = record l { closed = cli_fd ∷ l.closed }
on_accept accept_handle cli_fd (some (ipaddr, port)) l =
    let (done, l') = accept_handle cli_fd ipaddr port l in
    if done then l' else record l' { closed = cli_fd ∷ l'.closed }

-- `_free_callback` of the listener.
pub on_listener_free :
    {E : Type 0} (free_handle : Listener E → Listener E) (fd : ℕ) → Listener E → Listener E
on_listener_free free_handle fd l =
    let l' = free_handle l in
    if not (l.listen_fd == fd)
    then l
    else record l' { closed = l'.listen_fd ∷ l'.closed; listen_fd = no_fd; is_deleted = true }
