-- ===== src/Lib.antt =====
-- socket_hook is a library that is preloaded into a server under test. It replaces the socket
-- functions of libc by versions over shared memory, by which a client in another process (a fuzzer)
-- talks to the server without the kernel's network stack. Each share unit of the memory has a
-- request queue (client to server) and a response queue. A connect queue and an accept queue do the
-- handshake, and an array of close units tells each side what the other has shut down.
--
-- Files, and the code that they model:
--   Base            numbers, lists, C ints as ℤ, arrays, `memcpy`, windows that go round
--   Stack           stack.c: the stacks of free descriptors and free share units
--   Queue           queue.c: the int queue, and the connect and accept queues
--   ShareQueue      share_queue.c: byte streams, messages and ints in the share memory
--   Hook/State      share.h, socket.h and the globals of socket_hook.h: the state of the hook; its
--                   child Constants has their constants
--   Hook/Init       init_share_queue, init_connect_accept_queue, init_socket, init_close_unit and
--                   the stacks of init, in socket_hook.c; its child Constructor has the state that
--                   the constructor init leaves
--   Hook/Sockets    socket, bind, listen, connect, socketpair
--   Hook/Accept     accept
--   Hook/Close      close, shutdown
--   Hook/Options    getsockname, getpeername, setsockopt, getsockopt, fcntl, fcntl64, ioctl
--   Hook/Stream     read, write
--   Hook/Datagram   recvfrom, sendto, recvmsg, sendmsg
--   Hook/Receive    recv
--   Hook/Send       send
--   Hook/Poll       hook_fd_poll, get_poll_hook_nfds, and in Loop poll
--   Hook/Select     get_select_nfds, hook_fd_select, update_fd_set, and in Loop select
--   Hook/Fork       fork
--   Hook/Timers     my_settimer, my_stoptimer, the other timers, my_signal_handler, sub_timespec
--   Hook/Files      fopen: the pathname that it hands on
--   Hook/Proofs     proofs about the functions of the hook; the proofs about the other parts are
--                   below them (Stack/Laws, Queue/Refine, Queue/Run, ShareQueue/Slots,
--                   ShareQueue/Stream, Hook/Init/Layout); Owners is about who owns the descriptors
--                   and the share units over any sequence of calls
--   Client          the sample client inet_client_shm.c: my_socket, my_connect, my_send, my_recv,
--                   my_setsockopt, my_poll, my_close, its timers, and in Control what main makes of
--                   the message of bind; Client/Proofs has the proofs about it, and about client and
--                   hook together
--   LinkedList      list.c, which the hook does not use, on a heap of nodes
--   Tests           the code on small inputs
--
-- State. `Hook` holds the globals and the share memory. A function of the hook takes the state, and
-- `Os`, what the functions outside the repository answer during the call, and gives an `Outcome`: a
-- value and the state that it leaves, or that it still waits, or that the process ended. The
-- functions of libc that the hook replaces (`original_...`) are not modelled: a call that is handed
-- on returns `Os.original`. Logging, profiling, freeing of memory and locks have no effect on the
-- state; what a lock protects is one step. `poll` and `select` take the original function as a
-- parameter, which says for each call what it returns and how it leaves its arguments. A timer is
-- there or not; whether it can be created, started and stopped is in `Os`.
--
-- The client is a `Client`: its one socket, and the same `Hook` for the share memory, of which it
-- uses only that. So a call of the client and one of the server can follow each other on one state.
--
-- Waiting. The source waits in loops for the client. A loop takes the client's moves as a list of
-- changes of the state, one between two looks, and ends when its condition ends it; `blocked` says
-- that the list is over first. The moves of the signal handler are in the list too; for the client
-- the list has the moves of the server. The loop of `bind` has the source's 1000 tries. The loop of
-- `recv` has `len` rounds: each takes a byte at least, since it waits for one (what is missing may
-- be 0 as an int: then the loop does not end). The loops of list.c have fuel too: as many rounds as
-- the list has nodes are enough.
--
-- Numbers. The unsigned and wrapping arithmetic of stack.c and queue.c is written out modulo 2 ^
-- 32. The ints of share_queue.c are integers: they stay below twice the capacity. A `size_t` that
-- is passed to one of its int parameters is cut to 32 bits (Base/Narrow), and a call that would
-- copy a negative length ends the process. A descriptor that the code uses as an index after
-- `is_valid_fd` is from 0 to 1023. The share unit index of an open socket is taken to be from 0 to
-- 4. The fields of a `timeval` are integers with a sign.
--
-- bind copies as many bytes of an address as its caller says. Up to 32 go over `addr` and
-- `peer_addr`, which is the next field; what more bytes make of the fields behind them depends on
-- the layout of the struct and is a parameter, `Os.overrun`.
--
-- Calls in any order. Owners/Reach has a step for every call of the hook that changes its state and
-- returns: socket, socketpair, bind, listen, connect, accept, read, write, recv, send, recvfrom,
-- sendto, poll, select, setsockopt, fcntl, shutdown, close and fork; and the states that such steps
-- lead to. A call of accept that finds no free share unit or does not get the lock is not a step,
-- and neither is a call of bind with an address of more than 32 bytes.
--
-- Not modelled: mapping the share memory, finding the original functions and the mutex attributes
-- in init, and init of the client, which are calls of the system; main of the client but for the
-- message of bind; inet_client.c and inet_server.c, which only read and write; printList of list.c;
-- log.c, a copy of another project's library. The branch of select for a null timeout is not
-- reached, since the call ends before it.
pub mod Base
pub mod Stack
pub mod Queue
pub mod ShareQueue
pub mod LinkedList
pub mod Hook
pub mod Client
pub mod Tests
