-- ===== src/Hook/Init.antt =====
-- The functions of socket_hook.c that set up the share memory, the stacks and a socket.
pub mod Layout
pub mod Constructor
use socket_hook.Base.{
  ℕ, zero, suc, ◌+◌, ◌-◌, ◌*◌, ℤ, pos, negsuc, minus_one, int_min, eq_ℤ, to_ℕ, is_nonneg, Bool,
  true, false, not, ◌||◌, ltb, leb, ◌==◌, if◌then◌else◌,
}
use socket_hook.Base.Memory.{store}
use socket_hook.Stack.{Stack, create_stack, push, pop}
use socket_hook.Queue.{ConnectQueue, AcceptQueue, Connection, Acception}
use socket_hook.ShareQueue.{ShareQueue}
use socket_hook.Hook.State.{
  Hook, ShareUnit, CloseUnit, MySocket, zero_socket, set_sock, sock, datagram_queue_capacity,
  stream_queue_capacity, connect_queue_capacity, accept_queue_capacity, socket_num, sock_dgram,
}

-- sizeof(share_queue) and sizeof(connect_queue) are five ints.
abbrev pub queue_size : ℕ
queue_size = 20

-- The two queues that `init_share_queue` copies to share unit i; m is sizeof(pthread_mutex_t).
unfoldable pub init_share_queue : ℕ → ℕ → Bool → ShareUnit
init_share_queue m i is_stream =
    let share_capacity : ℕ = if is_stream then stream_queue_capacity else datagram_queue_capacity in
    record {
      request_queue = record {
        front = minus_one;
        rear = minus_one;
        capacity = share_capacity;
        current_size = 0;
        message_start_offset =
            (i + 1) * 2 * queue_size + (i + 1) * 2 * m + i * 2 * stream_queue_capacity;
      };
      response_queue = record {
        front = minus_one;
        rear = minus_one;
        capacity = share_capacity;
        current_size = 0;
        message_start_offset =
            (i + 1) * 2 * queue_size + (i + 1) * 2 * m + (i * 2 + 1) * stream_queue_capacity;
      };
    }

-- The headers of the connect and the accept queue, over the cells that are in the share memory.
unfoldable pub init_connect_accept_queue :
    (ℕ → Connection) → (ℕ → Acception) → ConnectQueue × AcceptQueue
init_connect_accept_queue connections acceptions = (
  record {
    front = 0;
    rear = connect_queue_capacity - 1;
    size = 0;
    capacity = connect_queue_capacity;
    array = connections;
  },
  record {
    front = 0;
    rear = accept_queue_capacity - 1;
    size = 0;
    capacity = accept_queue_capacity;
    array = acceptions;
  },
)

-- What `init_socket` first puts in `socket_arr[fd]`; the fields that it does not name are zero.
unfoldable pub fresh_socket : ℤ → ℤ → ℤ → MySocket
fresh_socket domain type protocol = record zero_socket {
  domain = domain;
  type = type;
  protocol = protocol;
  in_use = true;
  share_unit_index = minus_one;
  control_sock = minus_one;
}

unfoldable pub init_socket : ℕ → Hook → ℤ → ℤ → ℤ → ℤ → ℤ × Hook
unfolding fresh_socket init_share_queue
init_socket m s fd domain type protocol =
    let i = (pop s.available_share_unit).0 in
    let taken = record (fresh_socket domain type protocol) { share_unit_index = i } in
    let s1 = record (set_sock s fd taken) {
      available_share_unit = (pop s.available_share_unit).1;
    } in
    let dgram = eq_ℤ type sock_dgram in
    if eq_ℤ i int_min then (minus_one, s1) else (
      pos 0,
      record (set_sock s1 fd (record taken { is_udp = dgram })) {
        units = store s1.units (to_ℕ i) (init_share_queue m (to_ℕ i) (not dgram));
      },
    )

unfoldable pub init_close_unit : Hook → ℤ → ℤ × Hook
init_close_unit s i = if not (is_nonneg i) || leb socket_num (to_ℕ i) then (minus_one, s) else (
  pos 0,
  record s {
    close_arr = store s.close_arr (to_ℕ i) (record {
      client_read = false;
      client_write = false;
      server_read = false;
      server_write = false;
    });
  },
)

-- for(int i = 0; i <= 1023; i++) push(available_fd, i), with `rounds` rounds to go.
unfoldable pub push_up : Stack → ℕ → ℕ → Stack
push_up st i zero = st
push_up st i (suc rounds) = push_up (push st (pos i)) (i + 1) rounds

-- for(int i = n - 1; i >= 0; i--) push(available_share_unit, i)
unfoldable pub push_down : Stack → ℕ → Stack
push_down st zero = st
push_down st (suc n) = push_down (push st (pos n)) n

-- The two stacks that the constructor `init` builds.
unfoldable pub init_stacks : (ℕ → ℤ) → (ℕ → ℤ) → Stack × Stack
init_stacks cells cells' = (
  push_up (create_stack cells 1024) 0 1024,
  push_down (create_stack cells' socket_num) socket_num,
)
