-- ===== src/Hook/Sockets.antt =====
-- `socket`, `bind`, `listen`, `connect` and `socketpair` of socket_hook.c.
use socket_hook.Base.{
  ◌/◌, ◌*◌, ◌%◌, ◌-◌, ◌==◌, ltb, ℕ, zero, suc, ◌+◌, ℤ, pos, minus_one, int_min, eq_ℤ, Bool, true,
  false, not, ◌||◌, if◌then◌else◌,
}
use socket_hook.Stack.{push, pop}
use socket_hook.Queue.{SockAddr}
use socket_hook.Hook.State.{
  Hook, Os, MySocket, Outcome, ret, exited, zero_socket, sock, set_sock, send_control, unit_index,
  is_valid_fd, not_hook_socket_type, is_tinydtls, is_dcmqrscp, emfile, af_unix, sock_stream,
}
use socket_hook.Hook.Init.{init_socket}

-- The peer address that `socket` prepares for tinydtls: family AF_INET6, port htons(8888).
abbrev pub tinydtls_peer : SockAddr
tinydtls_peer = record { sin_family = 10; sin_port = 47138 }

-- The end of `socket`, once the socket is set up.
unfoldable pub note_tinydtls : Hook → ℤ → Hook
note_tinydtls s fd =
    if is_tinydtls s.server
    then record s { tinydtls_fd = fd; tinydtls_peer_addr = tinydtls_peer }
    else s

unfoldable pub socket : Os → Hook → ℤ → ℤ → ℤ → Outcome ℤ
socket os s domain type protocol =
    let fd = (pop s.available_fd).0 in
    let s1 = record s { available_fd = (pop s.available_fd).1 } in
    let r = init_socket os.mutex_size s1 fd domain type protocol in
    if not_hook_socket_type s.server domain type protocol
    then ret os.original s
    else (if eq_ℤ fd int_min
        then ret minus_one (record s1 { errno = emfile })
        else (if eq_ℤ r.0 minus_one then ret minus_one r.1 else ret fd (note_tinydtls r.1 fd)))

-- Up to `tries` tries to connect the control socket, the next of them number i.
unfoldable pub connects_within : Os → ℕ → ℕ → Bool
connects_within os i zero = false
connects_within os i (suc tries) = os.connects i || connects_within os (i + 1) tries

-- The first n bytes of the 16-bit number b, put over those of a.
abbrev pub over_16 : ℕ → ℕ → ℕ → ℕ
over_16 a b n = if n == 0 then a else (if n == 1 then a / 256 * 256 + b % 256 else b)

-- The first n bytes of an address, put over those of another.
unfoldable pub over_addr : SockAddr → SockAddr → ℕ → SockAddr
over_addr a b n = record {
  sin_family = over_16 a.sin_family b.sin_family n;
  sin_port = over_16 a.sin_port b.sin_port (n - 2);
}

-- memcpy(&socket_arr[sockfd].addr, addr, addrlen). The field has 16 bytes, and `peer_addr` is the
-- next one: `behind` is what bytes 16 to 31 of the argument are as an address. Behind `peer_addr`
-- the copy goes on over the other fields of the socket.
unfoldable pub copy_addr : Os → MySocket → SockAddr → SockAddr → ℕ → MySocket
unfolding over_addr
copy_addr os k addr behind addrlen =
    let k1 : MySocket = record k {
      addr = over_addr k.addr addr addrlen;
      peer_addr = over_addr k.peer_addr behind (addrlen - 16);
    } in
    if ltb 32 addrlen then os.overrun addrlen k1 else k1

-- The address is `addr`, its bytes from 16 on `behind`.
unfoldable pub bind : Os → Hook → ℤ → SockAddr → SockAddr → ℕ → Outcome ℤ
unfolding connects_within copy_addr
bind os s fd addr behind addrlen =
    let s1 =
      set_sock s fd (copy_addr os (record (sock s fd) { has_bind = true }) addr behind addrlen) in
    let s2 =
      set_sock s1 fd (record (sock s1 fd) { is_server = true; control_sock = os.control_fd }) in
    if not (is_valid_fd s fd)
    then ret os.original s
    else (if not (sock s1 fd).is_udp
        then ret (pos 0) s1
        else (if not os.control_name
            then exited 999
            else (if connects_within os 0 1000
                then ret (pos 0) (send_control s2 fd (unit_index (sock s2 fd).share_unit_index))
                else (if is_dcmqrscp s.server then exited 0 else ret minus_one s2))))

unfoldable pub listen : Os → Hook → ℤ → Outcome ℤ
listen os s fd =
    if not (is_valid_fd s fd)
    then ret os.original s
    else ret (pos 0) (set_sock s fd (record (sock s fd) { is_accept_fd = true }))

unfoldable pub connect : Os → Hook → ℤ → SockAddr → Outcome ℤ
connect os s fd addr =
    if not (is_valid_fd s fd)
    then ret os.original s
    else ret (pos 0) (set_sock s fd (record (sock s fd) { peer_addr = addr }))

-- The result is what `socketpair` returns, with the two descriptors that it puts in `sv`, which
-- stay as they were (`sv`) unless it succeeds.
unfoldable pub socketpair : Os → Hook → ℤ → ℤ → ℤ → ℤ × ℤ → Outcome (ℤ × ℤ × ℤ)
socketpair os s domain type protocol sv =
    let fd1 = (pop s.available_fd).0 in
    let s1 = record s { available_fd = (pop s.available_fd).1 } in
    let r1 = init_socket os.mutex_size s1 fd1 domain type protocol in
    let s2 = r1.1 in
    let fd2 = (pop s2.available_fd).0 in
    let s3 = record s2 { available_fd = (pop s2.available_fd).1 } in
    let s4 = set_sock s3 fd1 zero_socket in
    let r2 = init_socket os.mutex_size s3 fd2 domain type protocol in
    if eq_ℤ domain af_unix || not (eq_ℤ type sock_stream)
    then ret (os.original, sv.0, sv.1) s
    else (if eq_ℤ fd1 int_min
        then ret (minus_one, sv.0, sv.1) (record s1 { errno = emfile })
        else (if eq_ℤ r1.0 minus_one
            then ret (minus_one, sv.0, sv.1) s2
            else (if eq_ℤ fd2 int_min
                then ret (minus_one, sv.0, sv.1)
                    (record s4 { available_fd = push s4.available_fd fd1; errno = emfile })
                else (if eq_ℤ r2.0 minus_one
                    then ret (minus_one, sv.0, sv.1) r2.1
                    else ret (pos 0, fd1, fd2) r2.1))))
