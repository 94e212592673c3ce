-- ===== src/Lib.antt =====
-- netpool, a library for network services: a pool of worker threads runs an epoll loop per thread, which
-- calls back on descriptors (jobs) and on timers; CNetRecv is a connection with a write queue over it.
--
-- The parts, and the files that model them:
--
-- Base: shared list, slice and counting lemmas; it models no code.
-- SocketWrap: xutil/src/socketwrap.cpp, sock_readable, sock_writeable, sock_read_timeout,
-- sock_write_timeout and sock_recv_line, whose loop runs on fuel, more than there are answers. The
-- kernel's answers are a script that the functions consume, so a loop is recursion on the script; `none`
-- says that the script has ended and the call still waits. SocketWrap.Write, Reading and Lines have the
-- proofs.
-- NetRecv: netpool/outclass/CNetRecv.cpp, send_data, send_buf_node, send_handle and
-- free_async_write_resource over the queue of 1500-byte nodes. m_new_mem_func is a parameter; the loop of
-- send_data runs on fuel, length buf + 2, which the proofs show to be enough for every buffer.
-- NetRecv.Flush is the closing. NetRecv.Buffers, Fill, SendData, Drain and Close have the proofs. uint16_t
-- positions wrap at 2^16.
-- MemPool: xutil/src/mempool.cpp, every function. MemPool.Alloc counts free nodes, MemPool.Client is a
-- client that allocates and releases in any order, MemPool.Ownership says what it holds. Sizes wrap at
-- 2^32.
-- ThreadPool: netpool/src/CThreadPool.cpp. Cores, Aging and Spawn are about single calls. ThreadPool.Tasks
-- is the interleaving of Execute with the steps of the workers' threads, the erasing of workers that are
-- told to exit, and their joining; ThreadPool.Hands, Ended and Once have its invariant, and
-- ThreadPool.Progress follows one worker alone. A std::set of workers is a list in the order of addresses.
-- Execute, Init and aged_worker are modelled as one step each.
-- TimeJob: netpool/src/CJobTime.cpp. A callback is a parameter, over a state of its own; it may add jobs
-- by add_time_job. The walk runs on fuel; TimeJob.Walk shows how much is enough. TimeJob.Remove is about
-- del_time_job.
-- NetPoll: netpool/src/CNetPoll.cpp, netpool/src/CJobIo.h and netpool/src/CJobIoMgr.cpp: the jobs,
-- find_io_job and handle_deling_job, for Linux. NetPoll.Ops has the operations that add and delete listen,
-- read and write jobs, and CWrIoJob::write_evt_handle of netpool/src/CJobIo.cpp. epoll_ctl is a parameter;
-- NetPoll.Sync states what epoll_ctl(2) documents as a record of hypotheses, and NetPoll.Tests fills it
-- with a table. NetPoll.Sync and NetPoll.Handle compare the flags of a job with what epoll waits for.
-- NetPoll.Jobs, Find and Add are about the list of jobs. NetPoll.Held says which jobs stand behind the
-- pointers that the epoll descriptors hold, Calls what an operation on one job leaves of them, Result and
-- Engine what a whole call leaves. NetPoll.Loop is CNetPoll::loop_handle of one thread as a step relation,
-- interleaved with the operations of every thread and the sweeps of the others; a step of a call is the
-- operation itself, without del_listen_job, which calls epoll_ctl after it has released the lock under
-- which it marks its job. NetPoll.Life has its invariant.
-- Startup: netpool/src/CThreadPoolMgr.cpp, and init_event_fds, start and wait_stop of
-- netpool/src/CNetPoll.cpp. epoll_create is a parameter; the assert(0) after a failure aborts, as the
-- Makefile does not define NDEBUG. What wait_stop reads of the count of loops is a script. Startup.Loops
-- is the loop of start as a step relation, interleaved with the threads of the pool; Startup.Crew and
-- Startup.Opening have the proofs, with ThreadPool.Moves.
-- JobIo: netpool/src/CJobIo.cpp, the read handlers of CListenJob, CTcpJob and CUdpJob. The answers of
-- accept(), recv() and recvfrom() are a script; the callback is a parameter that may delete the job.
-- JobIo.Deliver and JobIo.Accept have the proofs.
-- Squeue: xutil/include/squeue.h, every function of the queue with a lock, on cells of memory: a pointer
-- is the address of a node, NULL is 0. Squeue.Chain says which nodes the cells link, Squeue.Queue compares
-- the queue with a list, Squeue.Insert is about the other operations. The walk runs on fuel, one more than
-- there are nodes.
-- LogProc: xutil/src/logproc.cpp, the ring of characters between logger_write and the writing thread
-- (LogProc.Ring), the loop of the writing thread, which opens its file again every 2^20 characters
-- (LogProc.Drain), and the renaming of full files (LogProc.Rotate). The size of the file and the success
-- of fopen are a script. The loop of the writing thread runs on fuel, more than there are characters.
-- Session: the registration of a CNetRecv (netpool/outclass/CNetRecv.cpp: register_read, register_connect,
-- register_write, free, init and the callbacks) over the jobs of NetPoll, with netpool/src/netpool.cpp,
-- which only passes arguments on. The user's virtual handlers and epoll_ctl are parameters.
-- Session.Deletion is about del_read_job and del_write_job, Session.Calls and Free about free,
-- Session.Sweep about the life of a job.
-- Listener: netpool/outclass/CNetAccept.cpp over the jobs of NetPoll, without the creation of its socket.
-- Rand: xutil/src/utilrand.cpp, every function.
-- IpRange: xutil/src/engine_ip_range.cpp, port_parse_range and port_parse_ranges, with util_str_trim of
-- xutil/src/utilstr.cpp; a string is the list of its characters. SCAN_PORT_MIN and SCAN_PORT_MAX are
-- arguments; the tests use their values. IpRange.Ports and IpRange.Decimal have the proofs. IpRange.Ipv4
-- is engine_ip_parse_range_ipv4 and _load_ipv4_subnet, with ntohl and htonl as parameters and
-- engine_str_to_ipv4 as an argument; IpRange.Subnet and IpRange.Overflow have the proofs. IpRange.Ipv6 is
-- the same for IPv6, with engine_ip_parse_range and engine_ip_parse_ranges; IpRange.Prefix, Subnet6 and
-- Ranges have the proofs.
-- EngineIp: xutil/include/engine_ip.h and xutil/src/engine_ip.cpp, for Linux: the addresses, their
-- comparison and hash, their reading by inet_pton(), which is a parameter, and host_addr_check.
-- EngineIp.Keys and EngineIp.Names have the proofs.
-- StrUtil: xutil/src/utilstr.cpp, every function but util_str_trim, which IpRange has. StrUtil.Compare is
-- about util_strcmp, StrUtil.Bounded about util_strncmp and util_strncpy, StrUtil.Search about
-- util_memsearch.
--
-- How they meet: CNetRecv registers by np_add_read_job and np_add_write_job, which call add_read_job and
-- add_write_job of CNetPoll, as Session does; NetRecv takes the answer as an argument.
-- free_async_write_resource and a connection without a queue call sock_write_timeout of SocketWrap. The
-- epoll loops are tasks of a CThreadPool, which Startup submits, and call handle_deling_job and the timers
-- once a round. The descriptors that init_event_fds opens are the m_epfd of NetPoll. IpRange takes what
-- EngineIp reads as an argument.
--
-- Each <Part>/Tests.antt runs the part on given inputs and applies the theorems to them.
--
-- Not modelled: the threads themselves (netpool/src/CThread.cpp), addresses written as text
-- (xutil/src/engine_ip.cpp), the list of xutil/include/list.h, the queue without locks of squeue.h, which
-- is not compiled; the creation of sockets (xutil/src/socketwrap.cpp); the formats and files of
-- logproc.cpp, signals and the C API, which are calls into the operating system or glue; the Windows
-- branches; and data races on flags that the code reads without a lock.
pub mod Base
pub mod EngineIp
pub mod IpRange
pub mod JobIo
pub mod Listener
pub mod LogProc
pub mod MemPool
pub mod NetPoll
pub mod NetRecv
pub mod Rand
pub mod Session
pub mod SocketWrap
pub mod Squeue
pub mod Startup
pub mod StrUtil
pub mod ThreadPool
pub mod TimeJob
