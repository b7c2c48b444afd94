-- ===== src/Hook/State.antt =====
-- share.h, socket.h and the globals of socket_hook.h: the state of the hook and of the share memory
-- that it has in common with the client.
mod Constants
pub use Constants.*
use socket_hook.Base.{
  ℕ, ◌*◌, ℤ, pos, minus_one, eq_ℤ, is_nonneg, to_ℕ, Bool, true, false, not, ◌&&◌, leb, ◌==◌,
  if◌then◌else◌, Option, none, some, List, [], ◌∷◌, bit_and,
}
use socket_hook.Base.Memory.{store}
use socket_hook.Stack.{Stack}
use socket_hook.Queue.{ConnectQueue, AcceptQueue, SockAddr}
use socket_hook.ShareQueue.{ShareQueue, Message, Shm}

pub data Server : Type 0 where
  dnsmasq tinydtls dcmqrscp other : Server

abbrev pub is_dnsmasq : Server → Bool
is_dnsmasq dnsmasq = true
is_dnsmasq _ = false

abbrev pub is_tinydtls : Server → Bool
is_tinydtls tinydtls = true
is_tinydtls _ = false

abbrev pub is_dcmqrscp : Server → Bool
is_dcmqrscp dcmqrscp = true
is_dcmqrscp _ = false

-- `struct timeval`
pub record TimeVal : Type 0 where
  pub tv_sec : ℤ
  pub tv_usec : ℤ

-- `struct mysocket`. Its four pointers into the share memory always point into the share unit
-- `share_unit_index`, and are not kept apart from it. A timer is there or is null.
-- `msg_more_buf` is the buffer for MSG_MORE, `none` for null, with its `msg_more_size` bytes.
-- `pollfds_index`, which no function uses, is left out.
pub record MySocket : Type 0 where
  pub domain : ℤ
  pub type : ℤ
  pub protocol : ℤ
  pub in_use : Bool
  pub has_bind : Bool
  pub addr : SockAddr
  pub peer_addr : SockAddr
  pub shutdown_read : Bool
  pub shutdown_write : Bool
  pub share_unit_index : ℤ
  pub file_status_flags : ℕ
  pub is_accept_fd : Bool
  pub is_server : Bool
  pub control_sock : ℤ
  pub send_timeout : TimeVal
  pub recv_timeout : TimeVal
  pub msg_more_buf : Option (List ℕ)
  pub msg_more_size : ℕ
  pub is_socket_timeout : Bool
  pub send_timer : Bool
  pub recv_timer : Bool
  pub poll_timer : Bool
  pub is_udp : Bool
  pub has_error : Bool

-- What `memset` with 0 makes of the two structs.
abbrev pub no_addr : SockAddr
no_addr = record { sin_family = 0; sin_port = 0 }

abbrev pub no_time : TimeVal
no_time = record { tv_sec = pos 0; tv_usec = pos 0 }

abbrev pub zero_socket : MySocket
zero_socket = record {
  domain = pos 0;
  type = pos 0;
  protocol = pos 0;
  in_use = false;
  has_bind = false;
  addr = no_addr;
  peer_addr = no_addr;
  shutdown_read = false;
  shutdown_write = false;
  share_unit_index = pos 0;
  file_status_flags = 0;
  is_accept_fd = false;
  is_server = false;
  control_sock = pos 0;
  send_timeout = no_time;
  recv_timeout = no_time;
  msg_more_buf = none;
  msg_more_size = 0;
  is_socket_timeout = false;
  send_timer = false;
  recv_timer = false;
  poll_timer = false;
  is_udp = false;
  has_error = false;
}

-- `struct close_unit`
pub record CloseUnit : Type 0 where
  pub client_read : Bool
  pub client_write : Bool
  pub server_read : Bool
  pub server_write : Bool

-- The two queues of a `share_unit`; their bytes are in `shm`.
pub record ShareUnit : Type 0 where
  pub request_queue : ShareQueue
  pub response_queue : ShareQueue

-- What goes to the client over a control socket.
pub data Control : Type 0 where
  malformed after_write : Control
  unit_index : ℤ → Control

-- The hook's globals and the share memory. `messages` is the share memory as arrays of messages, by
-- the offset of the array. `sent` lists what was sent over control sockets, the last first.
-- `sigpipe_kills` says that the process has not set SIGPIPE to be ignored or handled.
pub record Hook : Type 0 where
  pub server : Server
  pub available_fd : Stack
  pub available_share_unit : Stack
  pub socket_arr : ℕ → MySocket
  pub units : ℕ → ShareUnit
  pub shm : Shm
  pub messages : ℕ → ℕ → Message
  pub connect_queue : ConnectQueue
  pub accept_queue : AcceptQueue
  pub close_arr : ℕ → CloseUnit
  pub errno : ℕ
  pub log_fd : ℤ
  pub read_count : ℕ
  pub write_count : ℕ
  pub tinydtls_fd : ℤ
  pub tinydtls_peer_addr : SockAddr
  pub dcmqrscp_fd : ℤ
  pub fork_pid : ℤ
  pub next_cpu_id : ℕ
  pub aflnet_cpu_id : ℕ
  pub cpu_count : ℕ
  pub use_smart_affinity : Bool
  pub sigpipe_kills : Bool
  pub poll_timeout : Bool
  pub poll_timer : Bool
  pub sent : List (ℤ × Control)

-- A call returns, with the state that it leaves; or it waits on, for longer than the schedule of
-- the client's moves goes; or it ends the process, by `exit` or by SIGPIPE.
pub data Outcome {ℓ} (A : Type ℓ) : Type ℓ where
  ret : A → Hook → Outcome A
  blocked : Outcome A
  exited : ℕ → Outcome A
  killed : Outcome A

-- What the client does to the share memory between two looks of a waiting call.
abbrev pub Peer : Type 0
Peer = List (Hook → Hook)

-- What the world outside answers during one call: the size of a mutex; what the original function
-- returns, where the call is handed on to it; the control socket that `original_socket` opens, and
-- whether the n-th try to connect it works; whether CONTROL_SOCKET_NAME is set; whether the mutex
-- is taken; the process; what `rand` returns; whether a timer can be created, started and stopped;
-- and what a copy of so many bytes to `addr` of a socket, more than the 32 of its two addresses,
-- makes of the fields behind them, which depends on the compiler and on the bytes.
pub record Os : Type 0 where
  pub mutex_size : ℕ
  pub original : ℤ
  pub control_fd : ℤ
  pub connects : ℕ → Bool
  pub control_name : Bool
  pub lock_ok : Bool
  pub pid : ℤ
  pub random : ℕ
  pub create_ok : Bool
  pub set_ok : Bool
  pub stop_ok : Bool
  pub overrun : ℕ → MySocket → MySocket

-- while(busy) usleep(0): the state and the rest of the schedule when the loop ends.
unfoldable pub wait : (Hook → Bool) → Peer → Hook → Option (Hook × Peer)
wait busy [] s = if busy s then none else some (s, [])
wait busy (m ∷ ms) s = let rest = wait busy ms (m s) in if busy s then rest else some (s, m ∷ ms)

-- socket_arr[fd], for an fd that is in range
abbrev pub sock : Hook → ℤ → MySocket
sock s fd = s.socket_arr (to_ℕ fd)

abbrev pub set_sock : Hook → ℤ → MySocket → Hook
set_sock s fd k = record s { socket_arr = store s.socket_arr (to_ℕ fd) k }

-- The share unit and the close unit of a socket, whose index is in range.
abbrev pub unit_of : Hook → ℤ → ℕ
unit_of s fd = to_ℕ (sock s fd).share_unit_index

abbrev pub close_unit_of : Hook → ℤ → CloseUnit
close_unit_of s fd = s.close_arr (unit_of s fd)

abbrev pub request_queue_of : Hook → ℤ → ShareQueue
request_queue_of s fd = (s.units (unit_of s fd)).request_queue

abbrev pub response_queue_of : Hook → ℤ → ShareQueue
response_queue_of s fd = (s.units (unit_of s fd)).response_queue

abbrev pub set_request_queue : Hook → ℤ → ShareQueue → Hook
set_request_queue s fd q = record s {
  units = store s.units (unit_of s fd) (record (s.units (unit_of s fd)) { request_queue = q });
}

abbrev pub set_response_queue : Hook → ℤ → ShareQueue → Hook
set_response_queue s fd q = record s {
  units = store s.units (unit_of s fd) (record (s.units (unit_of s fd)) { response_queue = q });
}

-- original_send on the control socket of fd; its failure is only logged.
abbrev pub send_control : Hook → ℤ → Control → Hook
send_control s fd m = record s { sent = ((sock s fd).control_sock, m) ∷ s.sent }

-- errno = EWOULDBLOCK; socket_arr[fd].has_error = true; return -1;
abbrev pub would_block : Hook → ℤ → Outcome ℤ
would_block s fd =
    ret minus_one
      (set_sock (record s { errno = ewouldblock }) fd (record (sock s fd) { has_error = true }))

unfoldable pub is_valid_fd : Hook → ℤ → Bool
is_valid_fd s fd = is_nonneg fd && leb (to_ℕ fd) 1023 && (sock s fd).in_use

-- The types of socket that the hook leaves to libc.
unfoldable pub not_hook_socket_type : Server → ℤ → ℤ → ℤ → Bool
not_hook_socket_type dnsmasq domain type protocol =
    not (eq_ℤ domain af_inet && eq_ℤ type sock_stream)
not_hook_socket_type tinydtls domain type protocol =
    not (eq_ℤ domain af_inet6 && eq_ℤ type sock_dgram)
not_hook_socket_type dcmqrscp domain type protocol =
    not (eq_ℤ domain af_inet && eq_ℤ type sock_stream)
not_hook_socket_type other domain type protocol = true

-- Equality of family and port.
unfoldable pub cmp_addr : SockAddr → SockAddr → Bool
cmp_addr a b =
    if not (a.sin_family == b.sin_family)
    then false
    else (if not (a.sin_port == b.sin_port) then false else true)
