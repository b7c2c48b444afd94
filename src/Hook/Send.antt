-- ===== src/Hook/Send.antt =====
-- `send` of socket_hook.c, over the stream queue or the datagram queue of a share unit.
use socket_hook.Base.{
  ℕ, zero, suc, ◌+◌, ◌-◌, ◌*◌, ◌/◌, min, ℤ, pos, negsuc, minus_one, eq_ℤ, Bool, true, false, not,
  ◌&&◌, ◌||◌, ltb, ◌==◌, if◌then◌else◌, Option, none, some, List, [], ◌∷◌, ◌++◌, take, drop,
}
use socket_hook.Base.Memory.{store}
use socket_hook.ShareQueue.{stream_enqueue, datagram_enqueue}
use socket_hook.Hook.State.{
  Hook, Os, Peer, Outcome, ret, blocked, exited, killed, sock, set_sock, wait, close_unit_of,
  response_queue_of, set_response_queue, is_valid_fd, has_flag, o_nonblock, msg_dontwait, msg_more,
  msg_nosignal, epipe, lo_mss, af_inet, sock_stream, sock_dgram,
}
use socket_hook.Hook.Receive.{Look, filled, left, go_on, dead, failed_wait, is_set}
use socket_hook.Hook.Datagram.{make_message}

abbrev pub is_full : Hook → ℤ → Bool
is_full s fd = (response_queue_of s fd).current_size == (response_queue_of s fd).capacity

-- A look at the timer.
unfoldable pub look_send_timer : Hook → ℤ → Bool → Look
look_send_timer s fd need =
    let k = sock s fd in
    if not k.send_timer
    then go_on s need
    else (if k.is_socket_timeout
        then left minus_one
            (failed_wait (set_sock s fd (record k { is_socket_timeout = false })) fd)
        else go_on s need)

-- One look of the waiting loop. A client that closed makes the call fail or raises SIGPIPE, and the
-- loop goes on if the process lives.
unfoldable pub look_send : Os → Hook → ℤ → ℕ → Bool → Look
unfolding look_send_timer
look_send os s fd flags need =
    if not (is_full s fd)
    then filled s need
    else (if (close_unit_of s fd).client_read
        then (if need && not os.stop_ok
            then left minus_one s
            else (if has_flag flags msg_nosignal
                then left minus_one (record s { errno = epipe })
                else (if s.sigpipe_kills then dead else look_send_timer s fd need)))
        else look_send_timer s fd need)

unfoldable pub send_wait : Os → Peer → Hook → ℤ → ℕ → Bool → Look × Peer
unfolding look_send
send_wait os [] s fd flags need = (look_send os s fd flags need, [])
send_wait os (m ∷ ms) s fd flags need = elim (look_send os s fd flags need) [
  | filled t n ↦ (filled t n, m ∷ ms)
  | left v t ↦ (left v t, m ∷ ms)
  | go_on t n ↦ send_wait os ms (m t) fd flags n
  | dead ↦ (dead, m ∷ ms)
]

-- stream_enqueue on the response queue
abbrev pub put_bytes : Hook → ℤ → List ℕ → ℕ → ℤ × Hook
put_bytes s fd buf len =
    let r = stream_enqueue s.shm (response_queue_of s fd) buf len in
    (r.0, record (set_response_queue s fd r.2) { shm = r.1 })

-- x if x > 0, else 0
abbrev pub or_zero : ℤ → ℕ
or_zero (pos a) = a
or_zero (negsuc a) = 0

-- The blocks behind the first, of LO_MSS bytes each but the last: block i is put in once the queue
-- is not full. The loop leaves the sum of what was taken.
unfoldable pub send_rest : Peer → Hook → ℤ → List ℕ → ℕ → ℕ → ℕ → ℕ → Option (ℕ × Hook)
send_rest peer s fd bytes total count i zero = some (count, s)
send_rest peer s fd bytes total count i (suc rounds) = elim (wait (λ t. is_full t fd) peer s) [
  | none ↦ none
  | some (t, rest) ↦
      let size : ℕ = if rounds == 0 then total - i * lo_mss else lo_mss in
      let r = put_bytes t fd (drop (i * lo_mss) bytes) size in
      send_rest rest r.1 fd bytes total (count + or_zero r.0) (i + 1) rounds
]

-- All blocks; of what the first takes, `skip` bytes are not counted, since they are from an earlier
-- call.
unfoldable pub send_blocks : Peer → Hook → ℤ → List ℕ → ℕ → ℕ → Outcome ℤ
unfolding send_rest
send_blocks peer s fd bytes total skip =
    let r = put_bytes s fd bytes (min total lo_mss) in
    let count = or_zero r.0 - skip in
    if total / lo_mss == 0
    then ret (if eq_ℤ r.0 minus_one then r.0 else pos count) r.1
    else elim (send_rest peer r.1 fd bytes total count 1 (total / lo_mss)) [
      | none ↦ blocked
      | some (n, t) ↦ ret (pos n) t
    ]

-- free(msg_more_buf)
abbrev pub clear_more : Hook → ℤ → Hook
clear_more s fd = set_sock s fd (record (sock s fd) { msg_more_buf = none; msg_more_size = 0 })

unfoldable pub send_stream : Peer → Hook → ℤ → List ℕ → ℕ → ℕ → Outcome ℤ
unfolding send_blocks
send_stream peer s fd buf len flags =
    let k = sock s fd in
    if has_flag flags msg_more && ltb (k.msg_more_size + len) lo_mss
    then elim k.msg_more_buf [
      | none ↦
          ret (pos len)
            (set_sock s fd (record k { msg_more_buf = some (take len buf); msg_more_size = len }))
      | some old ↦ ret (pos len) (
          set_sock s fd (record k {
            msg_more_buf = some (old ++ take len buf);
            msg_more_size = k.msg_more_size + len;
          }))
    ]
    else elim k.msg_more_buf [
      | none ↦ send_blocks peer s fd buf len 0
      | some old ↦
          elim (send_blocks peer s fd (old ++ buf) (k.msg_more_size + len) k.msg_more_size) [
            | ret n t ↦ ret n (clear_more t fd)
            | blocked ↦ blocked
            | exited n ↦ exited n
            | killed ↦ killed
          ]
    ]

-- The whole length is returned, also of a message that is cut to the buffer.
unfoldable pub send_datagram : Hook → ℤ → List ℕ → ℕ → Outcome ℤ
send_datagram s fd buf len =
    let q = response_queue_of s fd in
    let o = q.message_start_offset in
    let r = datagram_enqueue (s.messages o) q (make_message buf len) in
    ret (if eq_ℤ r.0 (pos 0) then pos len else pos 0)
      (record (set_response_queue s fd r.2) { messages = store s.messages o r.1 })

-- What `send` does once it has waited.
unfoldable pub put_in : Os → Peer → Hook → ℤ → List ℕ → ℕ → ℕ → Bool → Outcome ℤ
unfolding send_stream send_datagram
put_in os peer s fd buf len flags need =
    let k = sock s fd in
    if k.send_timer && need && not os.stop_ok
    then ret minus_one s
    else (if eq_ℤ k.domain af_inet && eq_ℤ k.type sock_stream
        then send_stream peer s fd buf len flags
        else (if eq_ℤ k.domain af_inet && eq_ℤ k.type sock_dgram
            then send_datagram s fd buf len
            else exited 999))

abbrev pub resume : Os → ℤ → List ℕ → ℕ → ℕ → Look × Peer → Outcome ℤ
resume os fd buf len flags (filled t n, ms) = put_in os ms t fd buf len flags n
resume os fd buf len flags (left v t, ms) = ret v t
resume os fd buf len flags (go_on t n, ms) = blocked
resume os fd buf len flags (dead, ms) = killed

unfoldable pub wait_and_put : Os → Peer → Hook → ℤ → List ℕ → ℕ → ℕ → Bool → Outcome ℤ
unfolding send_wait put_in
wait_and_put os peer s fd buf len flags need =
    resume os fd buf len flags (send_wait os peer s fd flags need)

unfoldable pub send : Os → Peer → Hook → ℤ → List ℕ → ℕ → ℕ → Outcome ℤ
unfolding wait_and_put
send os peer s fd buf len flags =
    let k = sock s fd in
    let nonblock = has_flag flags msg_dontwait || has_flag k.file_status_flags o_nonblock in
    let need = is_full s fd in
    let started = record k { send_timer = true; is_socket_timeout = false } in
    if not (is_valid_fd s fd)
    then ret os.original s
    else (if k.shutdown_write && has_flag flags msg_nosignal
        then ret minus_one (record s { errno = epipe })
        else (if k.shutdown_write && s.sigpipe_kills
            then killed
            else (if nonblock && need
                then ret minus_one (failed_wait s fd)
                else (if need && is_set k.send_timeout
                    then (if not k.send_timer && not os.create_ok
                        then ret (pos 0) s
                        else (if not os.set_ok
                            then ret (pos 0) (set_sock s fd started)
                            else wait_and_put os peer (set_sock s fd started) fd buf len flags
                                need))
                    else wait_and_put os peer s fd buf len flags need))))
