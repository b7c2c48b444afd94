-- ===== src/Hook/Datagram.antt =====
-- `recvfrom`, `sendto`, `recvmsg` and `sendmsg` of socket_hook.c.
use socket_hook.Base.{
  to_int, ℕ, ◌+◌, ◌-◌, min, ℤ, pos, minus_one, eq_ℤ, true, not, ◌&&◌, ◌||◌, ◌==◌, if◌then◌else◌,
  Option, none, some, List, [], ◌++◌, take, replicate,
}
use socket_hook.Base.Memory.{store}
use socket_hook.Queue.{SockAddr}
use socket_hook.ShareQueue.{Message, message_max_length, datagram_enqueue, datagram_dequeue}
use socket_hook.Hook.State.{
  Hook, Os, Peer, Outcome, ret, blocked, exited, after_write, sock, set_sock, wait,
  request_queue_of, response_queue_of, set_request_queue, set_response_queue, send_control,
  is_valid_fd, has_flag, o_nonblock, msg_dontwait, msg_trunc, ewouldblock, is_tinydtls, sock_dgram,
}

-- What `recvfrom` gives back: its value, the bytes put in `buffer`, and the address, where the hook
-- writes it.
abbrev pub Received : Type 0
Received = ℤ × List ℕ × Option SockAddr

-- The message at the front of the request queue, cut to `length` bytes. A datagram socket leaves
-- the loop after one message.
unfoldable pub receive : Hook → ℤ → ℕ → ℕ → Message → Outcome Received
receive s fd length flags fresh =
    let q = request_queue_of s fd in
    let o = q.message_start_offset in
    let r = datagram_dequeue (s.messages o) q fresh in
    let m = r.0 in
    let s1 = record (set_request_queue s fd r.2) { messages = store s.messages o r.1 } in
    let address : Option SockAddr =
      if is_tinydtls s.server then some s.tinydtls_peer_addr else none in
    let count = if has_flag flags msg_trunc then m.length else min length m.length in
    if not (eq_ℤ (sock s fd).type sock_dgram)
    then exited 999
    else (if m.length == 0
        then ret (pos 0, [], address) s1
        else ret (pos count, take (min length m.length) m.buf, address) s1)

-- `fresh` is the message that `malloc` returns.
unfoldable pub recvfrom : Os → Peer → Hook → ℤ → ℕ → ℕ → Message → Outcome Received
unfolding receive
recvfrom os peer s fd length flags fresh =
    let k = sock s fd in
    let s1 = if is_tinydtls s.server then record s { read_count = s.read_count + 1 } else s in
    let nonblock = has_flag flags msg_dontwait || has_flag k.file_status_flags o_nonblock in
    let address : Option SockAddr =
      if is_tinydtls s.server then some s.tinydtls_peer_addr else none in
    if not (is_valid_fd s fd)
    then ret (os.original, [], none) s
    else (if nonblock && (request_queue_of s1 fd).current_size == 0
        then ret (minus_one, [], none)
            (set_sock (record s1 { errno = ewouldblock }) fd
              (record (sock s1 fd) { has_error = true }))
        else (if length == 0
            then ret (pos 0, [], address) s1
            else elim (wait (λ t. (request_queue_of t fd).current_size == 0) peer s1) [
              | none ↦ blocked
              | some (s2, _) ↦ receive s2 fd length flags fresh
            ]))

-- The message that the source builds: its length is the caller's, as an int, its bytes are cut to
-- the buffer, which is zero behind them.
abbrev pub make_message : List ℕ → ℕ → Message
make_message bytes length =
    let n = min length message_max_length in
    record { length = to_int length; buf = take n bytes ++ replicate (message_max_length - n) 0 }

-- The message is put in the response queue, and the client is told.
unfoldable pub transmit : Hook → ℤ → List ℕ → ℕ → Outcome ℤ
transmit s fd message length =
    let q = response_queue_of s fd in
    let o = q.message_start_offset in
    let r = datagram_enqueue (s.messages o) q (make_message message length) in
    let s1 = record (set_response_queue s fd r.2) { messages = store s.messages o r.1 } in
    let count : ℤ = if eq_ℤ r.0 (pos 0) then pos (min length message_max_length) else pos 0 in
    if not (eq_ℤ (sock s fd).type sock_dgram)
    then exited 999
    else ret count (send_control s1 fd after_write)

unfoldable pub sendto : Os → Peer → Hook → ℤ → List ℕ → ℕ → ℕ → Outcome ℤ
unfolding transmit
sendto os peer s fd message length flags =
    let k = sock s fd in
    let s1 = if is_tinydtls s.server then record s { read_count = 0 } else s in
    let q = response_queue_of s1 fd in
    let nonblock = has_flag flags msg_dontwait || has_flag k.file_status_flags o_nonblock in
    if not (is_valid_fd s fd)
    then ret os.original s
    else (if nonblock && q.current_size == q.capacity
        then ret minus_one (
            set_sock (record s1 { errno = ewouldblock }) fd
              (record (sock s1 fd) { has_error = true }))
        else elim (wait
            (λ t. (response_queue_of t fd).current_size == (response_queue_of t fd).capacity) peer
            s1) [ none ↦ blocked | some (s2, _) ↦ transmit s2 fd message length ])

-- Of these two the hook has no version for its own sockets.
unfoldable pub recvmsg : Os → Hook → ℤ → Outcome ℤ
recvmsg os s fd = if not (is_valid_fd s fd) then ret os.original s else exited 999

unfoldable pub sendmsg : Os → Hook → ℤ → Outcome ℤ
sendmsg os s fd = if not (is_valid_fd s fd) then ret os.original s else exited 999
