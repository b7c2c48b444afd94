-- ===== src/Hook/Proofs/Owners/Messages.antt =====
-- The calls for options, flags and datagrams leave the owners as they were.
use socket_hook.Base.{
  ℕ, ◌+◌, refl, true, ℤ, eq_ℤ, not, ◌&&◌, ◌||◌, ◌==◌, if◌then◌else◌, if_all, List,
}
use socket_hook.Base.Memory.{store}
use socket_hook.ShareQueue.{Message, datagram_dequeue, datagram_enqueue}
use socket_hook.Hook.State.{
  Hook, Os, Peer, Outcome, TimeVal, sock, set_sock, wait, request_queue_of, response_queue_of,
  set_request_queue, set_response_queue, send_control, after_write, is_valid_fd, has_flag,
  o_nonblock, msg_dontwait, ewouldblock, is_tinydtls, sock_dgram,
}
use socket_hook.Hook.Options.{
  so_sndtimeo, so_rcvtimeo, setsockopt, f_getfd, f_setfd, f_getfl, f_setfl, fcntl,
}
use socket_hook.Hook.Datagram.{Received, make_message, receive, recvfrom, transmit, sendto}
use socket_hook.Hook.Proofs.Cpus.{after}
use socket_hook.Hook.Proofs.Owners.Giving.{Keeps, Keeps-refl, Keeps-trans, set_sock-Keeps, alike}
use socket_hook.Hook.Proofs.Owners.Waiting.{AllKeep, Awaited-trans, wait-Awaited, after_wait}

pub setsockopt-Keeps :
    (os : Os) (s : Hook) (fd : ℤ) (optname : ℕ) (tv : TimeVal)
    → Keeps s (after s (setsockopt os s fd optname tv))
unfolding setsockopt
setsockopt-Keeps os s fd optname tv =
    let Q = λ (t : Hook). Keeps s t in
    let t1 = set_sock s fd (record (sock s fd) { send_timeout = tv }) in
    let s1 = if optname == so_sndtimeo then t1 else s in
    let a : Keeps s s1 =
      if_all Q (optname == so_sndtimeo)
        (set_sock-Keeps s fd (record (sock s fd) { send_timeout = tv }) refl refl) (Keeps-refl s) in
    if_all (λ (o : Outcome ℤ). Keeps s (after s o)) (not (is_valid_fd s fd)) (Keeps-refl s)
      (if_all Q (optname == so_rcvtimeo)
        (Keeps-trans a (set_sock-Keeps s1 fd (record (sock s1 fd) { recv_timeout = tv }) refl refl))
        a)

pub fcntl-Keeps :
    (os : Os) (s : Hook) (fd : ℤ) (cmd flags : ℕ) → Keeps s (after s (fcntl os s fd cmd flags))
unfolding fcntl
fcntl-Keeps os s fd cmd flags =
    let P = λ (o : Outcome ℤ). Keeps s (after s o) in
    if_all P (not (is_valid_fd s fd))
      (if_all P (cmd == f_getfd || cmd == f_setfd || cmd == f_getfl || cmd == f_setfl)
        (Keeps-refl s) (Keeps-refl s))
      (if_all P (cmd == f_getfl) (Keeps-refl s) (
        if_all P (cmd == f_setfl)
          (set_sock-Keeps s fd (record (sock s fd) { file_status_flags = flags }) refl refl)
          (Keeps-refl s)))

-- errno = EWOULDBLOCK and has_error
pub would_block-Keeps :
    (s : Hook) (fd : ℤ)
    → let t : Hook = record s { errno = ewouldblock } in
      Keeps s (set_sock t fd (record (sock t fd) { has_error = true }))
would_block-Keeps s fd =
    let t : Hook = record s { errno = ewouldblock } in
    let a : Keeps s t = alike refl refl refl in
    Keeps-trans a (set_sock-Keeps t fd (record (sock t fd) { has_error = true }) refl refl)

receive-Keeps :
    (s t : Hook) (fd : ℤ) (length flags : ℕ) (fresh : Message)
    → Keeps s t
    → Keeps s (after s (receive t fd length flags fresh))
unfolding receive
receive-Keeps s t fd length flags fresh h =
    let P = λ (o : Outcome Received). Keeps s (after s o) in
    let q = request_queue_of t fd in
    let r = datagram_dequeue (t.messages q.message_start_offset) q fresh in
    let t1 : Hook = record (set_request_queue t fd r.2) {
      messages = store t.messages q.message_start_offset r.1;
    } in
    let a : Keeps t t1 = alike refl refl refl in
    let k = Keeps-trans h a in
    if_all P (not (eq_ℤ (sock t fd).type sock_dgram)) (Keeps-refl s)
      (if_all P (r.0.length == 0) k k)

pub recvfrom-Keeps :
    (os : Os) (peer : Peer) (s : Hook) (fd : ℤ) (length flags : ℕ) (fresh : Message)
    → AllKeep peer
    → Keeps s (after s (recvfrom os peer s fd length flags fresh))
unfolding recvfrom
recvfrom-Keeps os peer s fd length flags fresh p =
    let P = λ (o : Outcome Received). Keeps s (after s o) in
    let t : Hook = record s { read_count = s.read_count + 1 } in
    let a : Keeps s t = alike refl refl refl in
    let s1 = if is_tinydtls s.server then t else s in
    let b : Keeps s s1 = if_all (λ (u : Hook). Keeps s u) (is_tinydtls s.server) a (Keeps-refl s) in
    let nonblock =
      has_flag flags msg_dontwait || has_flag (sock s fd).file_status_flags o_nonblock in
    let busy = λ (u : Hook). (request_queue_of u fd).current_size == 0 in
    if_all P (not (is_valid_fd s fd)) (Keeps-refl s) (
      if_all P (nonblock && (request_queue_of s1 fd).current_size == 0)
        (Keeps-trans b (would_block-Keeps s1 fd))
        (if_all P (length == 0) b (
          after_wait s (wait busy peer s1) (λ u rest. receive u fd length flags fresh)
            (Awaited-trans (wait busy peer s1) b (wait-Awaited busy peer s1 p))
            (λ u rest h k. receive-Keeps s u fd length flags fresh h))))

transmit-Keeps :
    (s t : Hook) (fd : ℤ) (message : List ℕ) (length : ℕ)
    → Keeps s t
    → Keeps s (after s (transmit t fd message length))
unfolding transmit
transmit-Keeps s t fd message length h =
    let q = response_queue_of t fd in
    let r = datagram_enqueue (t.messages q.message_start_offset) q (make_message message length) in
    let t1 : Hook = record (set_response_queue t fd r.2) {
      messages = store t.messages q.message_start_offset r.1;
    } in
    let a : Keeps t (send_control t1 fd after_write) = alike refl refl refl in
    if_all (λ (o : Outcome ℤ). Keeps s (after s o)) (not (eq_ℤ (sock t fd).type sock_dgram))
      (Keeps-refl s) (Keeps-trans h a)

pub sendto-Keeps :
    (os : Os) (peer : Peer) (s : Hook) (fd : ℤ) (message : List ℕ) (length flags : ℕ)
    → AllKeep peer
    → Keeps s (after s (sendto os peer s fd message length flags))
unfolding sendto
sendto-Keeps os peer s fd message length flags p =
    let P = λ (o : Outcome ℤ). Keeps s (after s o) in
    let t : Hook = record s { read_count = 0 } in
    let a : Keeps s t = alike refl refl refl in
    let s1 = if is_tinydtls s.server then t else s in
    let b : Keeps s s1 = if_all (λ (u : Hook). Keeps s u) (is_tinydtls s.server) a (Keeps-refl s) in
    let q = response_queue_of s1 fd in
    let nonblock =
      has_flag flags msg_dontwait || has_flag (sock s fd).file_status_flags o_nonblock in
    let busy =
      λ (u : Hook). (response_queue_of u fd).current_size == (response_queue_of u fd).capacity in
    if_all P (not (is_valid_fd s fd)) (Keeps-refl s) (
      if_all P (nonblock && q.current_size == q.capacity) (Keeps-trans b (would_block-Keeps s1 fd))
        (after_wait s (wait busy peer s1) (λ u rest. transmit u fd message length)
          (Awaited-trans (wait busy peer s1) b (wait-Awaited busy peer s1 p))
          (λ u rest h k. transmit-Keeps s u fd message length h)))
