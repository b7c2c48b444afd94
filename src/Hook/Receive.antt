-- ===== src/Hook/Receive.antt =====
-- `recv` of socket_hook.c, over the stream queue or the datagram queue of a share unit.
use socket_hook.Base.{
  is_pos, fits_int, to_int, ℕ, zero, suc, ◌+◌, ◌-◌, min, ℤ, pos, minus_one, eq_ℤ, to_ℕ, Bool, true,
  false, not, ◌&&◌, ◌||◌, ◌==◌, if◌then◌else◌, List, [], ◌∷◌, ◌++◌, take,
}
use socket_hook.Base.Memory.{store}
use socket_hook.Base.Memory
use socket_hook.ShareQueue.{Message, stream_dequeue, datagram_dequeue}
use socket_hook.Hook.State.{
  Hook, Os, Peer, Outcome, ret, blocked, exited, killed, TimeVal, sock, set_sock, close_unit_of,
  request_queue_of, set_request_queue, is_valid_fd, has_flag, o_nonblock, msg_dontwait, msg_trunc,
  msg_waitall, msg_peek, ewouldblock, af_inet, sock_stream, sock_dgram,
}
use socket_hook.Hook.Stream.{buffer_bytes}

-- tv.tv_sec > 0 || tv.tv_usec > 0
abbrev pub is_set : TimeVal → Bool
is_set tv = is_pos tv.tv_sec || is_pos tv.tv_usec

-- How one look of the waiting loop ends, or the loop itself: there are bytes; the call returns a
-- value; it waits on; SIGPIPE ends the process. The Boolean is `need_timeout`.
pub data Look : Type 0 where
  filled : Hook → Bool → Look
  left : ℤ → Hook → Look
  go_on : Hook → Bool → Look
  dead : Look

-- errno = EWOULDBLOCK and has_error
abbrev pub failed_wait : Hook → ℤ → Hook
failed_wait s fd =
    set_sock (record s { errno = ewouldblock }) fd (record (sock s fd) { has_error = true })

-- A look at the timer, once it runs or is not wanted.
unfoldable pub look_timer : Hook → ℤ → Bool → Look
look_timer s fd need =
    let k = sock s fd in
    if not k.recv_timer
    then go_on s need
    else (if k.is_socket_timeout
        then left minus_one
            (failed_wait (set_sock s fd (record k { is_socket_timeout = false })) fd)
        else go_on s need)

-- The start of the timer, where it is wanted and does not run yet.
unfoldable pub start_timer : Os → Hook → ℤ → Look
unfolding look_timer
start_timer os s fd =
    let k = record (sock s fd) { recv_timer = true; is_socket_timeout = false } in
    if not (sock s fd).recv_timer && not os.create_ok
    then left (pos 0) s
    else (if not os.set_ok
        then left (pos 0) (set_sock s fd k)
        else look_timer (set_sock s fd k) fd true)

unfoldable pub look_recv : Os → Hook → ℤ → Bool → Look
unfolding start_timer look_timer
look_recv os s fd need =
    if not ((request_queue_of s fd).current_size == 0)
    then filled s need
    else (if (close_unit_of s fd).client_write
        then left (if need && not os.stop_ok then minus_one else pos 0) s
        else (if not need && is_set (sock s fd).recv_timeout
            then start_timer os s fd
            else look_timer s fd need))

-- The waiting loop, with what is left of the schedule when it ends.
unfoldable pub recv_wait : Os → Peer → Hook → ℤ → Bool → Look × Peer
unfolding look_recv
recv_wait os [] s fd need = (look_recv os s fd need, [])
recv_wait os (m ∷ ms) s fd need = elim (look_recv os s fd need) [
  | filled t n ↦ (filled t n, m ∷ ms)
  | left v t ↦ (left v t, m ∷ ms)
  | go_on t n ↦ recv_wait os ms (m t) fd n
  | dead ↦ (dead, m ∷ ms)
]

-- What a round of the loop for MSG_WAITALL has: `count`, the bytes put in `buf`, and the state.
pub record Got : Type 0 where
  pub count : ℕ
  pub bytes : List ℕ
  pub hook : Hook

-- A round on a stream queue with bytes. MSG_PEEK leaves the bytes there; MSG_TRUNC counts them, and
-- throws them away. The length goes to `stream_dequeue` as an int, which is not negative here.
unfoldable pub recv_stream : Hook → ℤ → ℕ → ℕ → Got → Got
recv_stream s fd len flags g =
    let q = request_queue_of s fd in
    let n = min q.current_size (len - g.count) in
    let r = stream_dequeue s.shm q (to_int (len - g.count)) in
    if has_flag flags msg_peek
    then record {
      count = g.count + n;
      bytes = g.bytes ++ Memory.read s.shm (q.message_start_offset + to_ℕ q.front) n;
      hook = s;
    }
    else record {
      count = g.count + r.0.length;
      bytes = if has_flag flags msg_trunc then g.bytes else g.bytes ++ buffer_bytes r.0;
      hook = record (set_request_queue s fd r.2) { shm = r.1 };
    }

-- A round on a datagram queue; `fresh` is the message that `malloc` returns.
unfoldable pub recv_datagram : Hook → ℤ → ℕ → ℕ → Message → Got → Got
recv_datagram s fd len flags fresh g =
    let q = request_queue_of s fd in
    let o = q.message_start_offset in
    let r = datagram_dequeue (s.messages o) q fresh in
    let m = r.0 in
    let s1 = record (set_request_queue s fd r.2) { messages = store s.messages o r.1 } in
    if m.length == 0 then record g { hook = s1 } else record {
      count = if has_flag flags msg_trunc then m.length else min len m.length;
      bytes = take (min len m.length) m.buf;
      hook = s1;
    }

-- The end of `recv`: the timer is stopped if it was started.
unfoldable pub finish_recv : Os → ℤ → Bool → Got → Outcome (ℤ × List ℕ)
finish_recv os fd need g =
    if (sock g.hook fd).recv_timer && need && not os.stop_ok
    then ret (minus_one, g.bytes) g.hook
    else ret (pos g.count, g.bytes) g.hook

-- while(count != len), with `fuel` rounds to go. A round on a stream queue with bytes counts one
-- byte or more, so that `len` rounds are enough, unless the int of what is missing is 0, when the
-- loop does not end; a datagram socket leaves after one. The copy of a negative length ends the
-- process.
unfoldable pub recv_loop : Os → ℕ → Peer → ℤ → ℕ → ℕ → Message → Bool → Got → Outcome (ℤ × List ℕ)
unfolding recv_wait recv_stream recv_datagram finish_recv
recv_loop os zero peer fd len flags fresh need g =
    if g.count == len then finish_recv os fd need g else blocked
recv_loop os (suc fuel) peer fd len flags fresh need g =
    let w = recv_wait os peer g.hook fd need in
    let round = λ (s : Hook) (n : Bool).
      let k = sock s fd in
      let g1 = recv_stream s fd len flags g in
      let g2 = recv_datagram s fd len flags fresh g in
      let again = recv_loop os fuel w.1 fd len flags fresh n g1 in
      if eq_ℤ k.domain af_inet && eq_ℤ k.type sock_stream
      then (if not (has_flag flags msg_peek) && not (fits_int (len - g.count))
          then killed
          else (if has_flag flags msg_waitall then again else finish_recv os fd n g1))
      else (if eq_ℤ k.domain af_inet && eq_ℤ k.type sock_dgram
          then finish_recv os fd n g2
          else exited 999) in
    if g.count == len then finish_recv os fd need g else elim w.0 [
      | filled s n ↦ round s n
      | left v s ↦ ret (v, g.bytes) s
      | go_on s n ↦ blocked
      | dead ↦ killed
    ]

unfoldable pub recv : Os → Peer → Hook → ℤ → ℕ → ℕ → Message → Outcome (ℤ × List ℕ)
unfolding recv_loop
recv os peer s fd len flags fresh =
    let k = sock s fd in
    let nonblock = has_flag flags msg_dontwait || has_flag k.file_status_flags o_nonblock in
    if not (is_valid_fd s fd)
    then ret (os.original, []) s
    else (if k.shutdown_read || (close_unit_of s fd).client_write
        then ret (pos 0, []) s
        else (if nonblock && (request_queue_of s fd).current_size == 0
            then ret (minus_one, []) (failed_wait s fd)
            else recv_loop os len peer fd len flags fresh false
                (record { count = 0; bytes = []; hook = s })))
