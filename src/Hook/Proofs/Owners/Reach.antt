-- ===== src/Hook/Proofs/Owners/Reach.antt =====
-- The states that the hook reaches, call by call, and who owns what in them.
use socket_hook.Base.{◌≤◌, ℕ, ◌≡◌, ap, subst, ℤ, int_min, eq_ℤ, true, false, List, Option}
use socket_hook.Base.Sums.{count}
use socket_hook.Stack.{pop}
use socket_hook.Queue.{SockAddr}
use socket_hook.Hook.State.{Hook, Os, Peer, Outcome, ret, TimeVal}
use socket_hook.Hook.Sockets.{socket, bind, listen, connect, socketpair}
use socket_hook.Hook.Accept.{accept}
use socket_hook.Hook.Close.{close, shutdown}
use socket_hook.Hook.Stream.{read, write}
use socket_hook.Hook.Fork.{fork}
use socket_hook.ShareQueue.{Message}
use socket_hook.Hook.Options.{setsockopt, fcntl}
use socket_hook.Hook.Datagram.{Received, recvfrom, sendto}
use socket_hook.Hook.Receive.{recv}
use socket_hook.Hook.Send.{send}
use socket_hook.Hook.Poll.{PollFd}
use socket_hook.Hook.Poll.Loop.{OriginalPoll, poll}
use socket_hook.Hook.Select.Loop.{Sets, OriginalSelect, select}
use socket_hook.Hook.Proofs.Cpus.{after}
use socket_hook.Hook.Proofs.Owners.{IsSound}
use socket_hook.Hook.Proofs.Owners.Giving.{Keeps-IsSound}
use socket_hook.Hook.Proofs.Owners.Calls.{
  bind-Keeps, listen-Keeps, connect-Keeps, shutdown-Keeps, fork-Keeps, socket-IsSound,
  close-IsSound,
}
use socket_hook.Hook.Proofs.Owners.Pairs.{socketpair-IsSound}
use socket_hook.Hook.Proofs.Owners.Streams.{read-Keeps, write-Keeps}
use socket_hook.Hook.Proofs.Owners.Messages.{
  setsockopt-Keeps, fcntl-Keeps, recvfrom-Keeps, sendto-Keeps,
}
use socket_hook.Hook.Proofs.Owners.Receiving.{recv-Keeps}
use socket_hook.Hook.Proofs.Owners.Sending.{send-Keeps}
use socket_hook.Hook.Proofs.Owners.Polling.{poll-Keeps}
use socket_hook.Hook.Proofs.Owners.Selecting.{select-Keeps}
use socket_hook.Hook.Proofs.Owners.Waiting.{AllKeep}
use socket_hook.Hook.Proofs.Owners.Accepting.{accept-IsSound}

-- One call that returns. `accept` is to find a free share unit and get the lock, and the address
-- for `bind` is to have 32 bytes at most, so that it ends in `peer_addr`. What happens
-- while a call waits is to leave the owners as they were, as the client, which works on the share
-- memory only, and the signal handler do.
pub data Step (s t : Hook) : Type 0 where
  socket_call :
      (os : Os) (domain type protocol r : ℤ) → socket os s domain type protocol ≡ ret r t → Step s t
  socketpair_call :
      (os : Os) (domain type protocol : ℤ) (sv : ℤ × ℤ) (r : ℤ × ℤ × ℤ)
      → socketpair os s domain type protocol sv ≡ ret r t
      → Step s t
  bind_call :
      (os : Os) (fd : ℤ) (addr behind : SockAddr) (addrlen : ℕ) (r : ℤ)
      → addrlen ≤ 32
      → bind os s fd addr behind addrlen ≡ ret r t
      → Step s t
  listen_call : (os : Os) (fd r : ℤ) → listen os s fd ≡ ret r t → Step s t
  accept_call :
      (os : Os) (peer : Peer) (fd r : ℤ)
      → os.lock_ok ≡ true
      → eq_ℤ (pop s.available_share_unit).0 int_min ≡ false
      → AllKeep peer
      → accept os peer s fd ≡ ret r t
      → Step s t
  connect_call :
      (os : Os) (fd : ℤ) (addr : SockAddr) (r : ℤ) → connect os s fd addr ≡ ret r t → Step s t
  shutdown_call : (os : Os) (fd : ℤ) (how : ℕ) (r : ℤ) → shutdown os s fd how ≡ ret r t → Step s t
  read_call :
      (os : Os) (peer : Peer) (fd : ℤ) (count : ℕ) (r : ℤ × List ℕ)
      → AllKeep peer
      → read os peer s fd count ≡ ret r t
      → Step s t
  write_call :
      (os : Os) (peer : Peer) (fd : ℤ) (buf : List ℕ) (count : ℕ) (r : ℤ)
      → AllKeep peer
      → write os peer s fd buf count ≡ ret r t
      → Step s t
  setsockopt_call :
      (os : Os) (fd : ℤ) (optname : ℕ) (tv : TimeVal) (r : ℤ)
      → setsockopt os s fd optname tv ≡ ret r t
      → Step s t
  fcntl_call :
      (os : Os) (fd : ℤ) (cmd flags : ℕ) (r : ℤ) → fcntl os s fd cmd flags ≡ ret r t → Step s t
  recvfrom_call :
      (os : Os) (peer : Peer) (fd : ℤ) (length flags : ℕ) (fresh : Message) (r : Received)
      → AllKeep peer
      → recvfrom os peer s fd length flags fresh ≡ ret r t
      → Step s t
  sendto_call :
      (os : Os) (peer : Peer) (fd : ℤ) (message : List ℕ) (length flags : ℕ) (r : ℤ)
      → AllKeep peer
      → sendto os peer s fd message length flags ≡ ret r t
      → Step s t
  recv_call :
      (os : Os) (peer : Peer) (fd : ℤ) (len flags : ℕ) (fresh : Message) (r : ℤ × List ℕ)
      → AllKeep peer
      → recv os peer s fd len flags fresh ≡ ret r t
      → Step s t
  send_call :
      (os : Os) (peer : Peer) (fd : ℤ) (buf : List ℕ) (len flags : ℕ) (r : ℤ)
      → AllKeep peer
      → send os peer s fd buf len flags ≡ ret r t
      → Step s t
  poll_call :
      (os : Os) (original : OriginalPoll) (peer : Peer) (fds : List PollFd) (timeout : ℤ)
      (r : ℤ × List PollFd)
      → AllKeep peer
      → poll os original peer s fds timeout ≡ ret r t
      → Step s t
  select_call :
      (os : Os) (original : OriginalSelect) (peer : Peer) (nfds : ℕ) (sets : Sets)
      (timeout : Option TimeVal) (fresh : Message) (r : ℤ × Sets)
      → AllKeep peer
      → select os original peer s nfds sets timeout fresh ≡ ret r t
      → Step s t
  close_call : (os : Os) (fd r : ℤ) → close os s fd ≡ ret r t → Step s t
  fork_call : (os : Os) (r : ℤ) → fork os s ≡ ret r t → Step s t

pub data Reach (s : Hook) : Hook → Type 0 where
  here : Reach s s
  next : {t u : Hook} → Reach s t → Step t u → Reach s u

-- What holds of the state after a call holds of the state that it returns.
of_after {ℓ} :
    {A : Type ℓ} (s t : Hook) (o : Outcome A) (r : A)
    → o ≡ ret r t
    → IsSound (after s o)
    → IsSound t
of_after s t o r e w = subst IsSound (ap (after s) e) w

pub Step-IsSound : {s t : Hook} → Step s t → IsSound s → IsSound t
Step-IsSound {s} {t} (socket_call os d ty p r e) w =
    of_after s t (socket os s d ty p) r e (socket-IsSound os s d ty p w)
Step-IsSound {s} {t} (socketpair_call os d ty p sv r e) w =
    of_after s t (socketpair os s d ty p sv) r e (socketpair-IsSound os s d ty p sv w)
Step-IsSound {s} {t} (bind_call os fd addr behind addrlen r l e) w =
    of_after s t (bind os s fd addr behind addrlen) r e
      (Keeps-IsSound (bind-Keeps os s fd addr behind addrlen l) w)
Step-IsSound {s} {t} (listen_call os fd r e) w =
    of_after s t (listen os s fd) r e (Keeps-IsSound (listen-Keeps os s fd) w)
Step-IsSound {s} {t} (accept_call os peer fd r l u p e) w =
    of_after s t (accept os peer s fd) r e (accept-IsSound os peer s fd l u p w)
Step-IsSound {s} {t} (connect_call os fd addr r e) w =
    of_after s t (connect os s fd addr) r e (Keeps-IsSound (connect-Keeps os s fd addr) w)
Step-IsSound {s} {t} (shutdown_call os fd how r e) w =
    of_after s t (shutdown os s fd how) r e (Keeps-IsSound (shutdown-Keeps os s fd how) w)
Step-IsSound {s} {t} (read_call os peer fd count r p e) w =
    of_after s t (read os peer s fd count) r e (Keeps-IsSound (read-Keeps os peer s fd count p) w)
Step-IsSound {s} {t} (write_call os peer fd buf count r p e) w =
    of_after s t (write os peer s fd buf count) r e
      (Keeps-IsSound (write-Keeps os peer s fd buf count p) w)
Step-IsSound {s} {t} (setsockopt_call os fd n tv r e) w =
    of_after s t (setsockopt os s fd n tv) r e (Keeps-IsSound (setsockopt-Keeps os s fd n tv) w)
Step-IsSound {s} {t} (fcntl_call os fd cmd flags r e) w =
    of_after s t (fcntl os s fd cmd flags) r e (Keeps-IsSound (fcntl-Keeps os s fd cmd flags) w)
Step-IsSound {s} {t} (recvfrom_call os peer fd n flags fresh r p e) w =
    of_after s t (recvfrom os peer s fd n flags fresh) r e
      (Keeps-IsSound (recvfrom-Keeps os peer s fd n flags fresh p) w)
Step-IsSound {s} {t} (sendto_call os peer fd m n flags r p e) w =
    of_after s t (sendto os peer s fd m n flags) r e
      (Keeps-IsSound (sendto-Keeps os peer s fd m n flags p) w)
Step-IsSound {s} {t} (recv_call os peer fd n flags fresh r p e) w =
    of_after s t (recv os peer s fd n flags fresh) r e
      (Keeps-IsSound (recv-Keeps os peer s fd n flags fresh p) w)
Step-IsSound {s} {t} (send_call os peer fd buf n flags r p e) w =
    of_after s t (send os peer s fd buf n flags) r e
      (Keeps-IsSound (send-Keeps os peer s fd buf n flags p) w)
Step-IsSound {s} {t} (poll_call os original peer fds timeout r p e) w =
    of_after s t (poll os original peer s fds timeout) r e
      (Keeps-IsSound (poll-Keeps os original peer s fds timeout p) w)
Step-IsSound {s} {t} (select_call os original peer n sets timeout fresh r p e) w =
    of_after s t (select os original peer s n sets timeout fresh) r e
      (Keeps-IsSound (select-Keeps os original peer s n sets timeout fresh p) w)
Step-IsSound {s} {t} (close_call os fd r e) w =
    of_after s t (close os s fd) r e (close-IsSound os s fd w)
Step-IsSound {s} {t} (fork_call os r e) w =
    of_after s t (fork os s) r e (Keeps-IsSound (fork-Keeps os s) w)

-- From a state in which the descriptors and the share units have their owners, the calls of the
-- hook lead only to such states: each descriptor from 0 to 1023 is free, once, or an open socket,
-- and no share unit is free twice, or free and taken, or taken by two open sockets. The calls are
-- socket, socketpair, bind, listen, connect, accept, read, write, recv, send, recvfrom, sendto,
-- poll, select, setsockopt, fcntl, shutdown, close and fork, with any arguments, in any order.
-- What happens while a call waits leaves the free stacks and the owners as they were; `accept` is
-- called with a share unit free, and gets the lock; and `bind` gets an address of 32 bytes at most.
pub Reach-IsSound : {s t : Hook} → IsSound s → Reach s t → IsSound t
Reach-IsSound w here = w
Reach-IsSound w (next r st) = Step-IsSound st (Reach-IsSound w r)
