-- ===== src/Session/Tests.antt =====
-- Runs of the registration of a CNetRecv (netpool/outclass/CNetRecv.cpp), over an epoll that counts its calls.
use netpool.Base.{ℕ, suc, ◌≡◌, refl, Bool, true, false, Option, some, [], ◌∷◌, arith}
use netpool.NetPoll.{
  tcp_job, IoJob, NetPoll, CtlOp, find_io_job, add_io_job, new_job, pick_thrd_index, init_recv_buf,
}
use netpool.NetPoll.Ops.{
  register, add_read_job, after_ctl, ctl, del_write_job, put_back, del_write_from,
}
use netpool.NetPoll.Find.{Stands}
use netpool.Session.{
  Conn, Session, free_callback, register_read, after_np, on_connect, connect_end,
  unregister_connect, and_then, free,
}
use netpool.Session.Calls.{Registered}
use netpool.Session.Sweep.{Swept, HasJob, free-Swept, register_read-HasJob}

abbrev counting_ctl : CtlOp → Option ℕ → (fd : ℕ) → ℕ → Bool × ℕ
counting_ctl op epfd fd calls = (true, suc calls)

abbrev conn : Conn
conn = record {
  self = 700;
  fd = 9;
  thrd_index = 0;
  is_connected = false;
  is_register_read = false;
  is_register_write = false;
  is_register_connect = false;
  is_freed = false;
}

abbrev poll : NetPoll
poll = record {
  epfds = some 4 ∷ some 5 ∷ [];
  cur_thrd_index = 0;
  worker_thrd_cnt = 2;
  io_jobs = [];
}

abbrev fresh : Session ℕ
fresh = record { conn = conn; poll = poll; kernel = 0; closed = [] }

-- The job of the connection.
abbrev reader : IoJob
reader = record {
  addr = 1000;
  kind = tcp_job;
  fd = 9;
  param1 = 700;
  thrd_index = 0;
  event_read = true;
  event_write = false;
  is_want_delete = false;
  read_func = 1;
  write_func = 0;
  free_func = 0;
  cache_len = 1500;
}

abbrev reading_now : Session ℕ
reading_now = record fresh {
  conn = record conn { is_register_read = true };
  poll = record poll { io_jobs = reader ∷ [] };
  kernel = 1;
}

register_read_run : register_read counting_ctl 1000 fresh ≡ some (true, reading_now)
unfolding register_read after_np add_read_job find_io_job pick_thrd_index init_recv_buf new_job
    register after_ctl ctl add_io_job
register_read_run = refl

register_read-HasJob_example : HasJob counting_ctl [] reading_now
register_read-HasJob_example =
    register_read-HasJob counting_ctl 1000 fresh reading_now tt register_read_run

reader-Stands : Stands 9 (reader ∷ []) [] reader []
reader-Stands = record { passed = tt; hit = refl; wanted = refl; splits = refl }

reader-Registered : Registered (record conn { is_register_read = true }) reader
reader-Registered = record {
  reads = λ h. refl;
  writes = λ h. absurd (ground (arith, h));
  registers = refl;
}

free-Swept_example :
    (s' : Session ℕ) × (free counting_ctl reading_now ≡ some s') × Swept counting_ctl reader s'
free-Swept_example =
    free-Swept counting_ctl reading_now [] reader [] reader-Stands (some 4, refl) reader-Registered

-- A connect that has failed: its job is marked, and the connection waits for nothing any more.
abbrev connecting : Session ℕ
connecting = record fresh {
  conn = record conn { is_register_connect = true };
  poll = record poll { io_jobs = record reader { event_read = false; event_write = true } ∷ [] };
}

on_connect_run :
    on_connect counting_ctl (λ made s. some s) 9 false connecting
    ≡ some (record fresh {
      poll = record poll {
        io_jobs =
            record reader {
              event_read = false;
              event_write = false;
              is_want_delete = true;
              free_func = free_callback;
            }
            ∷ [];
      };
      kernel = 1;
    })
unfolding on_connect and_then connect_end unregister_connect after_np del_write_job find_io_job
    put_back del_write_from after_ctl ctl
on_connect_run = refl
