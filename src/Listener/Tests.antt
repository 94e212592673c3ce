-- ===== src/Listener/Tests.antt =====
-- Runs of the listener of netpool/outclass/CNetAccept.cpp, over an epoll that takes every call, and one
-- that refuses.
use netpool.Base.{ℕ, suc, ◌≡◌, refl, Bool, true, false, Option, none, some, [], ◌∷◌}
use netpool.NetPoll.{listen_job, NetPoll, CtlOp, find_io_job, add_io_job, new_job}
use netpool.NetPoll.Ops.{
  unless_failed, register, add_listen_job, del_listen_job, del_listen_from, after_ctl, ctl,
  put_back,
}
use netpool.Listener.{
  Listener, new_listener, keep_jobs, register_accept, unregister_accept, on_accept,
  on_listener_free, listener_free,
}

abbrev counting_ctl : CtlOp → Option ℕ → (fd : ℕ) → ℕ → Bool × ℕ
counting_ctl op epfd fd calls = (true, suc calls)

abbrev refusing_ctl : CtlOp → Option ℕ → (fd : ℕ) → ℕ → Bool × ℕ
refusing_ctl op epfd fd calls = (false, calls)

abbrev poll : NetPoll
poll = record { epfds = some 4 ∷ []; cur_thrd_index = 0; worker_thrd_cnt = 1; io_jobs = [] }

abbrev listening : Listener ℕ
listening = record {
  self = 800;
  listen_port = 80;
  listen_fd = 9;
  is_deleted = false;
  poll = record poll {
    io_jobs =
        record {
          addr = 1000;
          kind = listen_job;
          fd = 9;
          param1 = 800;
          thrd_index = 0;
          event_read = true;
          event_write = false;
          is_want_delete = false;
          read_func = 5;
          write_func = 0;
          free_func = 0;
          cache_len = 0;
        }
        ∷ [];
  };
  kernel = 1;
  closed = [];
}

register_run :
    register_accept counting_ctl 9 1000 (new_listener 800 80 poll 0) ≡ some (true, listening)
unfolding register_accept keep_jobs new_listener add_listen_job find_io_job register after_ctl ctl
    add_io_job new_job unless_failed
register_run = refl

-- The assert(0) of add_listen_job() where epoll refuses the descriptor.
refused_run : register_accept refusing_ctl 9 1000 (new_listener 800 80 poll 0) ≡ none
unfolding register_accept keep_jobs new_listener add_listen_job find_io_job register after_ctl ctl
    add_io_job new_job unless_failed
refused_run = refl

-- The result is 0 although the descriptor has a job already, and no job has been added.
repeated_run : register_accept counting_ctl 9 2000 listening ≡ some (true, listening)
unfolding register_accept keep_jobs add_listen_job find_io_job
repeated_run = refl

-- The job is marked, and its callback is that of the listener.
unregister_run :
    unregister_accept counting_ctl listening
    ≡ some (record listening {
      poll = record poll {
        io_jobs =
            record {
              addr = 1000;
              kind = listen_job;
              fd = 9;
              param1 = 800;
              thrd_index = 0;
              event_read = true;
              event_write = false;
              is_want_delete = true;
              read_func = 5;
              write_func = 0;
              free_func = listener_free;
              cache_len = 0;
            }
            ∷ [];
      };
      kernel = 2;
    })
unfolding unregister_accept keep_jobs del_listen_job del_listen_from find_io_job put_back after_ctl
    ctl
unregister_run = refl

-- A client whose handler fails is closed; at the end the listening descriptor is closed, too.
closing_run :
    on_listener_free (λ l. l) 9 (on_accept (λ fd ip port l. (false, l)) 12 (some (1, 2)) listening)
    ≡ (record listening { closed = 9 ∷ 12 ∷ []; listen_fd = 4294967295; is_deleted = true })
unfolding on_listener_free on_accept
closing_run = refl
