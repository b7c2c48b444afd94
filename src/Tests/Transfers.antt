-- ===== src/Tests/Transfers.antt =====
-- The client and the hook together on small states.
use socket_hook.Base.{
  to_ℕ, inl, ◌≡◌, ◌≢◌, refl, ℕ, ◌≤◌, ◌+◌, min, to_ℕ, pos, minus_one, true, false, List, [], ◌∷◌,
  ◌++◌, take, drop, ltb, arith,
}
use socket_hook.Base.Memory.{window}
use socket_hook.Stack.{pop, is_empty_stack}
use socket_hook.Queue.{SockAddr}
use socket_hook.Queue.Refine as Queues
use socket_hook.ShareQueue.{stream_enqueue, stream_put}
use socket_hook.ShareQueue.Stream.{bytes}
use socket_hook.Hook.State.{
  sock_dgram, Hook, ret, zero_socket, is_valid_fd, cmp_addr, request_queue_of, ewouldblock,
}
use socket_hook.Hook.Stream.{read, write, count_read, note_write}
use socket_hook.Hook.Poll.{PollFd}
use socket_hook.ShareQueue.Slots as Slots
use socket_hook.Hook.Datagram.{recvfrom}
use socket_hook.Hook.Proofs.Messages.{peer_address, received_messages}
use socket_hook.Hook.Proofs.Cpus.{after}
use socket_hook.Hook.Proofs.Reading.{delivered}
use socket_hook.Hook.Proofs.Writing.{written}
use socket_hook.Client.State.{
  Client, returned, my_signal_handler, cli_request, cli_response, cli_close,
}
use socket_hook.Client.Transfer.{my_send, my_recv}
use socket_hook.Client.Connect.{my_connect}
use socket_hook.Hook.Timers.{TimeSpec, signed, SetTime}
use socket_hook.Client.Control.{control_bytes, take_control}
use socket_hook.Client.Proofs.Controls.{take_control-control_bytes}
use socket_hook.Client.Poll.{my_poll}
use socket_hook.Client.Proofs.Transfer.{Joined, sent_bytes, my_send-read}
use socket_hook.Client.Proofs.Receiving.{taken_bytes, write-my_recv}
use socket_hook.Client.Proofs.Datagrams.{cli_messages, sent_datagram, my_send-recvfrom}
use socket_hook.Client.Proofs.Handshake.{accepts, my_connect-accept}
use socket_hook.Client.Proofs.Timeouts.{my_recv-my_signal_handler, my_poll-refused}
use socket_hook.Tests.Hooks.{os, hook}
use socket_hook.Tests.Waits.{no_bytes, no_bytes-IsValid, stream, fresh}

-- The server's descriptor 4 and the client's socket are on unit 0, whose queues are empty.
abbrev server : Hook
server = record hook {
  socket_arr = λ _. stream;
  units = λ _. record { request_queue = no_bytes; response_queue = no_bytes };
}

abbrev client : Client
client = record { socket_cli = stream; errno = 0; memory = server }

server-valid : is_valid_fd server (pos 4) ≡ true
unfolding is_valid_fd
server-valid = refl

abbrev block : List ℕ
block = 5 ∷ 6 ∷ 7 ∷ []

block-sent :
    cli_request (sent_bytes client block 3)
    ≡ record no_bytes { front = pos 0; rear = pos 2; current_size = 3 }
unfolding stream_enqueue stream_put
block-sent = refl

block-room :
    let q = cli_request (sent_bytes client block 3) in
    (q.current_size ≢ 0) × (to_ℕ q.front + min q.current_size 2 ≤ q.capacity)
block-room = rw block-sent (omega arith, omega arith)

my_send-read_example :
    let d = sent_bytes client block 3 in
    let all = bytes server.shm no_bytes ++ block in
    let k = min (cli_request d).current_size 2 in
    let t = delivered (count_read d.memory (pos 4)) (pos 4) 2 in
    (my_send os [] client block 3 ≡ returned (pos 3) d)
    × (read os [] d.memory (pos 4) 2 ≡ ret (pos k, take k all) t)
    × (bytes t.shm (request_queue_of t (pos 4)) ≡ drop k all)
my_send-read_example =
    my_send-read os [] [] client (pos 4) block 3 2 (omega arith) (omega arith) (refl, refl)
      no_bytes-IsValid (omega arith) (omega arith) (omega arith) refl server-valid refl block-room.0
      block-room.1

abbrev written_client : Client
written_client = record client { memory = written server (pos 4) block 3 }

block-written :
    (cli_response written_client
      ≡ record no_bytes { front = pos 0; rear = pos 2; current_size = 3 })
    × ((cli_close written_client).server_write ≡ false)
    × Joined written_client (pos 4)
unfolding stream_enqueue stream_put note_write
block-written = (refl, refl, refl)

written-room :
    let q = cli_response written_client in
    (q.current_size ≢ 0) × (to_ℕ q.front + min q.current_size 8 ≤ q.capacity)
written-room = rw block-written.0 (omega arith, omega arith)

write-my_recv_example :
    let all = bytes server.shm no_bytes ++ block in
    let k = min (cli_response written_client).current_size 8 in
    let t = taken_bytes written_client 8 in
    (write os [] server (pos 4) block 3 ≡ ret (pos 3) written_client.memory)
    × (my_recv os [] written_client 8 fresh ≡ returned (pos k, take k all) t)
    × (bytes t.memory.shm (cli_response t) ≡ drop k all)
write-my_recv_example =
    write-my_recv os [] [] client (pos 4) block 3 8 fresh (omega arith) (omega arith) server-valid
      refl no_bytes-IsValid (omega arith) (omega arith) (omega arith) (refl, refl) block-written.2
      block-written.1 written-room.0 written-room.1

abbrev address : SockAddr
address = record { sin_family = 2; sin_port = 53 }

-- Descriptor 2 listens at the address.
abbrev listening : Client
listening = record client {
  memory = record hook {
    socket_arr = λ _. record zero_socket {
      in_use = true;
      has_bind = true;
      is_accept_fd = true;
      addr = address;
    };
  };
}

listening-valid : is_valid_fd listening.memory (pos 2) ≡ true
unfolding is_valid_fd
listening-valid = refl

listening-free : ((pop hook.available_fd).0 ≡ pos 1) × ((pop hook.available_share_unit).0 ≡ pos 0)
unfolding pop is_empty_stack
listening-free = (refl, refl)

queues-empty : (Queues.contents hook.connect_queue ≡ []) × (Queues.contents hook.accept_queue ≡ [])
unfolding window
queues-empty = (refl, refl)

queues-IsValid : Queues.IsValid hook.connect_queue × Queues.IsValid hook.accept_queue
queues-IsValid = (
  record {
    room = omega arith;
    small = omega arith;
    front_in = omega arith;
    rear_in = omega arith;
    size_in = omega arith;
    ends = refl;
  },
  record {
    room = omega arith;
    small = omega arith;
    front_in = omega arith;
    rear_in = omega arith;
    size_in = omega arith;
    ends = refl;
  },
)

same_address : cmp_addr address address ≡ true
unfolding cmp_addr
same_address = refl

my_connect-accept_example :
    (d : Client) × (my_connect (accepts os [] (pos 2) ∷ []) listening (pos 999) address
      ≡ returned (pos 0) d)
    × (d.socket_cli.share_unit_index ≡ pos 0)
    × Joined d (pos 1)
    × (is_valid_fd d.memory (pos 1) ≡ true)
    × (Queues.contents d.memory.connect_queue ≡ [])
my_connect-accept_example =
    my_connect-accept os [] [] listening (pos 999) (pos 2) address 1 0 refl refl queues-IsValid.0
      queues-empty.0 queues-IsValid.1 queues-empty.1 refl refl listening-valid refl same_address
      listening-free.0 (omega arith) refl listening-free.1 (omega arith)

-- A receive timeout of a second.
abbrev patient : Client
patient = record client {
  socket_cli = record stream { recv_timeout = record { tv_sec = pos 1; tv_usec = pos 0 } };
}

abbrev idle : Client → Client
idle c = c

my_recv-my_signal_handler_example :
    (d : Client) × (my_recv os (idle ∷ my_signal_handler ∷ []) patient 8 fresh
      ≡ returned (minus_one, []) d)
    × (d.errno ≡ ewouldblock)
my_recv-my_signal_handler_example =
    my_recv-my_signal_handler os idle [] [] patient 8 fresh refl refl refl refl refl
      (λ c. (refl, refl), tt)

-- `timer_settime` refuses what is not below a second. It is 10.9 s, and the timeout is 100 ms.
abbrev settime : SetTime
settime t = ltb (to_ℕ t.tv_nsec) 1000000000

settime-refuses : (t : TimeSpec) → 1000000000 ≤ t.tv_nsec → settime (signed t) ≡ false
settime-refuses t h = ground arith

abbrev now : TimeSpec
now = record { tv_sec = 10; tv_nsec = 900000000 }

abbrev entry : PollFd
entry = record { fd = pos 999; events = 1; revents = 0 }

my_poll-refused_example :
    (d : Client) × (my_poll os settime now [] client entry (pos 100)
      ≡ returned (minus_one, record entry { revents = 0 }) d)
my_poll-refused_example =
    my_poll-refused os settime now [] client entry 100 settime-refuses refl (omega arith) refl refl
      (omega arith)

-- The same with datagram sockets.
abbrev speaker : Client
speaker = record client {
  socket_cli = record stream { type = sock_dgram; is_udp = true };
  memory = record server { socket_arr = λ _. record stream { type = sock_dgram } };
}

speaker-valid : is_valid_fd speaker.memory (pos 4) ≡ true
unfolding is_valid_fd
speaker-valid = refl

speaker-IsValid : Slots.IsValid no_bytes
speaker-IsValid = record {
  room = omega arith;
  size_in = omega arith;
  ends = inl (refl, refl, refl);
}

speaker-empty : cli_messages speaker ≡ []
unfolding window
speaker-empty = refl

my_send-recvfrom_example :
    let d = sent_datagram speaker block 3 in
    let t = after d.memory (recvfrom os [] d.memory (pos 4) 8 0 fresh) in
    (my_send os [] speaker block 3 ≡ returned (pos 3) d)
    × (recvfrom os [] d.memory (pos 4) 8 0 fresh ≡ ret (pos 3, block, peer_address d.memory) t)
    × (received_messages t (pos 4) ≡ [])
my_send-recvfrom_example =
    my_send-recvfrom os [] [] speaker (pos 4) block 3 8 0 fresh refl refl speaker-IsValid
      (omega arith) speaker-empty refl speaker-valid refl (omega arith) (omega arith) (omega arith)
      (omega arith)

take_control-control_bytes_example :
    take_control (pos 0) client (control_bytes (9 ∷ 9 ∷ []) (pos 3))
    ≡ record client { socket_cli = record client.socket_cli { share_unit_index = pos 3 } }
take_control-control_bytes_example =
    take_control-control_bytes (pos 0) client (9 ∷ 9 ∷ []) 3 (omega arith)
