-- ===== src/Hook/Accept.antt =====
-- `accept` of socket_hook.c, step by step.
use socket_hook.Base.{
  ℕ, ◌+◌, ◌%◌, ℤ, minus_one, int_min, eq_ℤ, to_ℕ, is_nonneg, true, not, ◌&&◌, ltb, ◌==◌,
  if◌then◌else◌, none, some,
}
use socket_hook.Stack.{push, pop}
use socket_hook.Queue.{SockAddr, Connection, connect_dequeue, accept_enqueue}
use socket_hook.Hook.State.{
  Hook, Os, Peer, Outcome, ret, blocked, exited, sock, set_sock, would_block, wait, is_valid_fd,
  cmp_addr, has_flag, o_nonblock, is_dnsmasq, is_dcmqrscp, emfile, socket_num,
}
use socket_hook.Hook.Init.{init_socket, init_close_unit}

-- The address that the hook makes up for the client: AF_INET, and a port from 10000 to 19999.
abbrev pub fake_addr : ℕ → SockAddr
fake_addr random = record { sin_family = 2; sin_port = random % 10000 + 10000 }

-- The end of `accept`: the peer's address and the control socket.
unfoldable pub finish_accept : Os → Hook → ℤ → Outcome ℤ
finish_accept os s fd =
    let s1 =
      set_sock s fd
        (record (sock s fd) { peer_addr = fake_addr os.random; control_sock = os.control_fd }) in
    if not os.control_name
    then exited 999
    else ret fd (
        if is_dnsmasq s.server
        then record s1 { read_count = 0 }
        else (if is_dcmqrscp s.server then record s1 { read_count = 0; dcmqrscp_fd = fd } else s1))

-- A connection that was taken from the connect queue: if it is for the listening socket's address
-- the client is told, in the accept queue, which share unit serves it.
unfoldable pub answer : Os → Peer → Hook → ℤ → ℤ → Connection → Outcome ℤ
unfolding finish_accept
answer os peer s sockfd fd c =
    let index = (sock s fd).share_unit_index in
    let s1 = (init_close_unit s index).1 in
    if not (cmp_addr (sock s sockfd).addr c.addr)
    then finish_accept os s fd
    else elim (wait (λ t. t.accept_queue.size == t.accept_queue.capacity) peer s1) [
      | none ↦ blocked
      | some (s2, _) ↦
          finish_accept os
            (record s2 {
              accept_queue =
                  (accept_enqueue s2.accept_queue
                    (record { client_fd = c.client_fd; share_unit_index = index })).1;
            })
            fd
    ]

-- The connect queue, once it is not empty.
unfoldable pub take_connection : Os → Peer → Hook → ℤ → ℤ → Outcome ℤ
unfolding answer
take_connection os peer s sockfd fd =
    let r = connect_dequeue s.connect_queue in
    let s1 = record s { connect_queue = r.1 } in
    if not os.lock_ok
    then ret minus_one (record s { available_fd = push s.available_fd fd })
    else elim r.0 [ none ↦ ret minus_one s1 | some c ↦ answer os peer s1 sockfd fd c ]

-- A new socket for the connection.
unfoldable pub serve : Os → Peer → Hook → ℤ → ℤ → Outcome ℤ
unfolding take_connection
serve os peer s sockfd fd =
    let k = sock s sockfd in
    let r = init_socket os.mutex_size s fd k.domain k.type k.protocol in
    let s1 = set_sock r.1 fd (record (sock r.1 fd) { is_server = true }) in
    let i = (sock s1 fd).share_unit_index in
    if eq_ℤ r.0 minus_one
    then ret minus_one (record r.1 { available_fd = push r.1.available_fd fd })
    else (if (sock s1 sockfd).has_bind && is_nonneg i && ltb (to_ℕ i) socket_num
        then elim (wait (λ t. t.connect_queue.size == 0) peer s1) [
          | none ↦ blocked
          | some (s2, rest) ↦ take_connection os rest s2 sockfd fd
        ]
        else ret minus_one s1)

unfoldable pub accept : Os → Peer → Hook → ℤ → Outcome ℤ
unfolding serve
accept os peer s sockfd =
    let fd = (pop s.available_fd).0 in
    let s1 = record s { available_fd = (pop s.available_fd).1 } in
    let nonblock = has_flag (sock s sockfd).file_status_flags o_nonblock in
    if not (is_valid_fd s sockfd)
    then ret os.original s
    else (if not (is_dnsmasq s.server) && nonblock && s.connect_queue.size == 0
        then would_block s sockfd
        else (if eq_ℤ fd int_min
            then ret minus_one (record s1 { errno = emfile })
            else serve os peer s1 sockfd fd))
