-- ===== src/Hook/Stream.antt =====
-- `read` and `write` of socket_hook.c, over the stream queues of a share unit.
use socket_hook.Base.{
  fits_int, to_int, ℕ, ◌+◌, ℤ, pos, minus_one, true, not, ◌&&◌, ◌||◌, leb, ◌==◌, if◌then◌else◌,
  none, some, List, [], ◌∷◌,
}
use socket_hook.ShareQueue.{Buffer, stream_enqueue, stream_dequeue}
use socket_hook.Hook.State.{
  Hook, Os, Peer, Outcome, ret, blocked, killed, malformed, after_write, sock, set_sock,
  close_unit_of, request_queue_of, response_queue_of, set_request_queue, set_response_queue,
  send_control, is_valid_fd, has_flag, o_nonblock, ewouldblock, is_dnsmasq, is_dcmqrscp,
}

-- How a wait ends: what it waits for is there; the client closed; the schedule is over; SIGPIPE.
pub data Waited : Type 0 where
  ready : Hook → Waited
  closed : Hook → Waited
  still : Waited
  dead : Waited

-- The counts by which `read` finds out that the server rejected the last requests, and then says so
-- to the client.
unfoldable pub count_read : Hook → ℤ → Hook
count_read s fd =
    let n = s.read_count + 1 in
    if is_dnsmasq s.server
    then (if n == 4
        then record (send_control s fd malformed) { read_count = 1 }
        else record s { read_count = n })
    else (if is_dcmqrscp s.server
        then (if leb 3 n
            then record (send_control s fd malformed) { read_count = 1; write_count = 0 }
            else record s { read_count = n; write_count = 0 })
        else s)

-- One look of the loop of `read`.
unfoldable pub look_read : Hook → ℤ → Waited
look_read s fd =
    if not ((request_queue_of s fd).current_size == 0)
    then ready s
    else (if (close_unit_of s fd).client_write then closed s else still)

unfoldable pub read_wait : Peer → Hook → ℤ → Waited
read_wait [] s fd = look_read s fd
read_wait (m ∷ ms) s fd =
    let rest = read_wait ms (m s) fd in
    elim (look_read s fd) [ ready t ↦ ready t | closed t ↦ closed t | still ↦ rest | dead ↦ dead ]

-- The bytes that a buffer gives to the caller.
abbrev pub buffer_bytes : Buffer → List ℕ
buffer_bytes b = elim b.buf [ none ↦ [] | some xs ↦ xs ]

unfoldable pub deliver : Hook → ℤ → ℕ → Outcome (ℤ × List ℕ)
deliver s fd count =
    let r = stream_dequeue s.shm (request_queue_of s fd) count in
    ret (pos r.0.length, buffer_bytes r.0) (record (set_request_queue s fd r.2) { shm = r.1 })

-- The result is the return value, with the bytes that are put in `buf`. `count` is passed on as an
-- int; the copy of a negative length ends the process.
unfoldable pub read : Os → Peer → Hook → ℤ → ℕ → Outcome (ℤ × List ℕ)
read os peer s fd count =
    let k = sock s fd in
    let s1 = count_read s fd in
    if not (is_valid_fd s fd)
    then ret (os.original, []) s
    else (if k.shutdown_read || (close_unit_of s fd).client_write
        then ret (pos 0, []) s
        else (if has_flag k.file_status_flags o_nonblock
              && (request_queue_of s1 fd).current_size == 0
            then ret (minus_one, [])
                (set_sock (record s1 { errno = ewouldblock }) fd
                  (record (sock s1 fd) { has_error = true }))
            else elim (read_wait peer s1 fd) [
              | ready s2 ↦ if fits_int count then deliver s2 fd (to_int count) else killed
              | closed s2 ↦ ret (pos 0, []) s2
              | still ↦ blocked
              | dead ↦ killed
            ]))

-- One look of the loop of `write`: the client's closing raises SIGPIPE, and the loop goes on if the
-- process lives.
unfoldable pub look_write : Hook → ℤ → Waited
look_write s fd =
    let q = response_queue_of s fd in
    if not (q.current_size == q.capacity)
    then ready s
    else (if (close_unit_of s fd).client_read && s.sigpipe_kills then dead else still)

unfoldable pub write_wait : Peer → Hook → ℤ → Waited
write_wait [] s fd = look_write s fd
write_wait (m ∷ ms) s fd =
    let rest = write_wait ms (m s) fd in
    elim (look_write s fd) [ ready t ↦ ready t | closed t ↦ closed t | still ↦ rest | dead ↦ dead ]

-- The counts and the message for the client after a write.
unfoldable pub note_write : Hook → ℤ → Hook
note_write s fd =
    let s1 = if s.write_count == 0 then send_control s fd after_write else s in
    let s2 =
      if is_dnsmasq s.server || is_dcmqrscp s.server then record s1 { read_count = 0 } else s1 in
    if is_dcmqrscp s.server then record s2 { write_count = s2.write_count + 1 } else s2

unfoldable pub accept_bytes : Hook → ℤ → List ℕ → ℕ → Outcome ℤ
accept_bytes s fd buf count =
    let r = stream_enqueue s.shm (response_queue_of s fd) buf count in
    ret r.0 (note_write (record (set_response_queue s fd r.2) { shm = r.1 }) fd)

-- `count` is passed on as an int here too.
unfoldable pub write : Os → Peer → Hook → ℤ → List ℕ → ℕ → Outcome ℤ
write os peer s fd buf count =
    let k = sock s fd in
    let q = response_queue_of s fd in
    if not (is_valid_fd s fd)
    then ret os.original s
    else (if k.shutdown_write && s.sigpipe_kills
        then killed
        else (if has_flag k.file_status_flags o_nonblock && q.current_size == q.capacity
            then ret minus_one
                (set_sock (record s { errno = ewouldblock }) fd (record k { has_error = true }))
            else elim (write_wait peer s fd) [
              | ready s2 ↦ if fits_int count then accept_bytes s2 fd buf (to_int count) else killed
              | closed s2 ↦ if fits_int count then accept_bytes s2 fd buf (to_int count) else killed
              | still ↦ blocked
              | dead ↦ killed
            ]))
