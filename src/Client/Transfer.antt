-- ===== src/Client/Transfer.antt =====
-- `my_recv` and `my_send` of inet_client_shm.c, with the timers of their timeouts.
use socket_hook.Base.{
  fits_int, to_int, ℕ, ℤ, pos, minus_one, eq_ℤ, min, Bool, true, false, not, ◌&&◌, ◌||◌, ◌==◌,
  if◌then◌else◌, List, [], ◌∷◌, take,
}
use socket_hook.Base.Memory.{store}
use socket_hook.ShareQueue.{
  Message, stream_enqueue, stream_dequeue, datagram_enqueue, datagram_dequeue,
}
use socket_hook.Hook.State.{Os, ewouldblock, sock_dgram}
use socket_hook.Hook.Stream.{buffer_bytes}
use socket_hook.Hook.Datagram.{make_message}
use socket_hook.Hook.Receive.{is_set}
use socket_hook.Client.State.{
  Client, Result, returned, waiting, crashed, ServerMoves, cli_close, cli_request, cli_response,
  set_cli_request, set_cli_response,
}

-- How one look of a waiting loop ends, or the loop itself: with what it waits for; with a value
-- that the call returns; it waits on. The Boolean is `need_timeout`.
pub data Seen : Type 0 where
  found : Client → Bool → Seen
  gave_up : ℤ → Client → Seen
  not_yet : Client → Bool → Seen

-- A timeout that has run out.
abbrev pub timed_out : Client → Client
timed_out c = record c {
  socket_cli = record c.socket_cli { is_socket_timeout = false };
  errno = ewouldblock;
}

-- The timer of `my_recv`, where a timeout is set: `gave_up` if it cannot be created or started.
unfoldable pub start_recv_timer : Os → Client → Bool → Seen
start_recv_timer os c need =
    let k = c.socket_cli in
    let c1 : Client = record c {
      socket_cli = record k { recv_timer = true; is_socket_timeout = false };
    } in
    if need || not (is_set k.recv_timeout)
    then not_yet c need
    else (if not k.recv_timer && not os.create_ok
        then gave_up (pos 0) c
        else (if not os.set_ok then gave_up (pos 0) c1 else not_yet c1 true))

-- The end of a round: without a timer the loop goes on at once.
unfoldable pub look_timeout : Bool → Seen → Seen
look_timeout is_send (not_yet c need) =
    if not (if is_send then c.socket_cli.send_timer else c.socket_cli.recv_timer)
    then not_yet c need
    else (if c.socket_cli.is_socket_timeout
        then gave_up minus_one (timed_out c)
        else not_yet c need)
look_timeout is_send (found c need) = found c need
look_timeout is_send (gave_up v c) = gave_up v c

unfoldable pub look_my_recv : Os → Client → Bool → Seen
unfolding start_recv_timer look_timeout
look_my_recv os c need =
    if not ((cli_response c).current_size == 0)
    then found c need
    else (if (cli_close c).server_write
        then gave_up (if need && not os.stop_ok then minus_one else pos 0) c
        else look_timeout false (start_recv_timer os c need))

-- A loop, with the moves of the server and of the signal handler between its rounds.
unfoldable pub cli_wait : (Client → Bool → Seen) → ServerMoves → Client → Bool → Seen
cli_wait look [] c need = look c need
cli_wait look (m ∷ ms) c need = elim (look c need) [
  | found d n ↦ found d n
  | gave_up v d ↦ gave_up v d
  | not_yet d n ↦ cli_wait look ms (m d) n
]

abbrev pub Handed : Type 0
Handed = ℤ × List ℕ

-- What is in the response queue, at most `len` bytes of it, or of its first message. For a stream
-- `len` is passed on as an int.
unfoldable pub take_response : Client → ℕ → Message → Result Handed
take_response c len fresh =
    let q = cli_response c in
    let o = q.message_start_offset in
    let d = datagram_dequeue (c.memory.messages o) q fresh in
    let n = min len d.0.length in
    let b = stream_dequeue c.memory.shm q (to_int len) in
    if eq_ℤ c.socket_cli.type sock_dgram
    then returned (pos n, take n d.0.buf)
        (record c {
          memory = record (set_cli_response c d.2) { messages = store c.memory.messages o d.1 };
        })
    else (if fits_int len
        then returned (pos b.0.length, buffer_bytes b.0)
            (record c { memory = record (set_cli_response c b.2) { shm = b.1 } })
        else crashed)

-- The result is the return value, with the bytes that are put in `buf`. `fresh` is the message that
-- `malloc` returns.
unfoldable pub my_recv : Os → ServerMoves → Client → ℕ → Message → Result Handed
unfolding cli_wait look_my_recv take_response
my_recv os server c len fresh =
    if not c.socket_cli.in_use
    then returned (minus_one, []) c
    else (if (cli_close c).server_write
        then returned (pos 0, []) c
        else elim (cli_wait (look_my_recv os) server c false) [
          | found d need ↦
              if d.socket_cli.recv_timer && need && not os.stop_ok
              then returned (minus_one, []) d
              else take_response d len fresh
          | gave_up v d ↦ returned (v, []) d
          | not_yet d need ↦ waiting
        ])

unfoldable pub look_my_send : Os → Client → Bool → Seen
unfolding look_timeout
look_my_send os c need =
    if not ((cli_request c).current_size == (cli_request c).capacity)
    then found c need
    else (if (cli_close c).server_read
        then gave_up (if need && not os.stop_ok then minus_one else pos 0) c
        else look_timeout true (not_yet c need))

-- The timer of `my_send`, which is started before the loop if the queue is full and a timeout is
-- set.
unfoldable pub start_send_timer : Os → Client → Bool → Seen
start_send_timer os c full =
    let k = c.socket_cli in
    let c1 : Client = record c {
      socket_cli = record k { send_timer = true; is_socket_timeout = false };
    } in
    if not (full && is_set k.send_timeout)
    then not_yet c full
    else (if not k.send_timer && not os.create_ok
        then gave_up (pos 0) c
        else (if not os.set_ok then gave_up (pos 0) c1 else not_yet c1 full))

-- The bytes, or the message that is made of them, behind those in the request queue. For a stream
-- `len` is passed on as an int.
unfoldable pub put_request : Client → List ℕ → ℕ → Result ℤ
put_request c buf len =
    let q = cli_request c in
    let o = q.message_start_offset in
    let d = datagram_enqueue (c.memory.messages o) q (make_message buf len) in
    let b = stream_enqueue c.memory.shm q buf (to_int len) in
    if eq_ℤ c.socket_cli.type sock_dgram
    then returned (if eq_ℤ d.0 (pos 0) then pos len else pos 0) (record c {
      memory = record (set_cli_request c d.2) { messages = store c.memory.messages o d.1 };
    })
    else (if fits_int len
        then returned b.0 (record c { memory = record (set_cli_request c b.2) { shm = b.1 } })
        else crashed)

abbrev pub send_found : Os → List ℕ → ℕ → Seen → Result ℤ
send_found os buf len (found d need) =
    if d.socket_cli.send_timer && need && not os.stop_ok
    then returned minus_one d
    else put_request d buf len
send_found os buf len (gave_up v d) = returned v d
send_found os buf len (not_yet d need) = waiting

unfoldable pub my_send : Os → ServerMoves → Client → List ℕ → ℕ → Result ℤ
unfolding cli_wait look_my_send start_send_timer put_request
my_send os server c buf len =
    let full = (cli_request c).current_size == (cli_request c).capacity in
    if not c.socket_cli.in_use
    then returned minus_one c
    else send_found os buf len (elim (start_send_timer os c full) [
      | found d need ↦ found d need
      | gave_up v d ↦ gave_up v d
      | not_yet d need ↦ cli_wait (look_my_send os) server d need
    ])
