-- ===== src/Tests/Hooks.antt =====
-- The hook's functions on small states.
use socket_hook.Base.{
  ◌≡◌, refl, ℤ, pos, minus_one, true, false, inr, List, [], ◌∷◌, ◌++◌, take, drop, arith,
}
use socket_hook.Stack.{Stack, pop}
use socket_hook.Stack.Laws as Stacks
use socket_hook.ShareQueue.{ShareQueue}
use socket_hook.ShareQueue.Stream.{IsValid, bytes}
use socket_hook.Hook.State.{
  Hook, Os, ret, dnsmasq, zero_socket, no_addr, request_queue_of, response_queue_of, is_valid_fd,
  not_hook_socket_type, af_inet, sock_stream,
}
use socket_hook.Hook.Init.{init_socket}
use socket_hook.Hook.Sockets.{socket}
use socket_hook.Hook.Close.{close}
use socket_hook.Hook.Stream.{read, write, count_read}
use socket_hook.Hook.Poll.{PollFd, hook_fd_poll, client_closed}
use socket_hook.Hook.Select.{FdSet}
use socket_hook.Hook.Fork.{fork}
use socket_hook.Hook.Proofs.Lifecycle.{HasFree, opened, socket_leaks}
use socket_hook.Hook.Proofs.Closing.{IsOpen, shut, close-socket}
use socket_hook.Hook.Proofs.Reading.{
  eventually, readable, Returned, read-Returned, delivered, read_lem,
}
use socket_hook.Hook.Proofs.Writing.{written, write_lem}
use socket_hook.Hook.Proofs.Polling.{AllOpen, AllAsked, count_reported, hook_fd_poll_lem}
use socket_hook.Hook.Proofs.Cpus.{IsPinned, after, fork-IsPinned}

abbrev pub os : Os
os = record {
  mutex_size = 40;
  original = pos 77;
  control_fd = pos 9;
  connects = λ _. true;
  control_name = true;
  lock_ok = true;
  pid = pos 100;
  random = 4;
  create_ok = true;
  set_ok = true;
  stop_ok = true;
  overrun = λ n k. k;
}

-- A stack of 0, ..., n - 1 of them on top of each other.
abbrev counted : ℤ → Stack
counted top = record { top = top; capacity = 8; array = λ i. pos i }

-- The bytes 1 and 2 of the memory, in an array of 6.
abbrev two_bytes : ShareQueue
two_bytes = record {
  front = pos 1;
  rear = pos 2;
  capacity = 6;
  current_size = 2;
  message_start_offset = 0;
}

two_bytes-IsValid : IsValid two_bytes
two_bytes-IsValid = record {
  room = omega arith;
  size_in = omega arith;
  ends = inr (1, refl, omega arith, refl);
}

abbrev no_bytes : ShareQueue
no_bytes = record two_bytes { front = minus_one; rear = minus_one; current_size = 0 }

-- A hook for dnsmasq with descriptors 0 and 1 and unit 0 free.
abbrev pub hook : Hook
hook = record {
  server = dnsmasq;
  available_fd = counted (pos 1);
  available_share_unit = counted (pos 0);
  socket_arr = λ _. zero_socket;
  units = λ _. record { request_queue = two_bytes; response_queue = two_bytes };
  shm = λ i. i;
  messages = λ _ _. record { length = 0; buf = [] };
  connect_queue = record {
    front = 0;
    rear = 19;
    size = 0;
    capacity = 20;
    array = λ _. record { addr = no_addr; client_fd = pos 0 };
  };
  accept_queue = record {
    front = 0;
    rear = 9;
    size = 0;
    capacity = 10;
    array = λ _. record { client_fd = pos 0; share_unit_index = pos 0 };
  };
  close_arr = λ _. record {
    client_read = false;
    client_write = false;
    server_read = false;
    server_write = false;
  };
  errno = 0;
  log_fd = pos 3;
  read_count = 0;
  write_count = 0;
  tinydtls_fd = minus_one;
  tinydtls_peer_addr = no_addr;
  dcmqrscp_fd = minus_one;
  fork_pid = pos 100;
  next_cpu_id = 1;
  aflnet_cpu_id = 2;
  cpu_count = 4;
  use_smart_affinity = true;
  sigpipe_kills = false;
  poll_timeout = false;
  poll_timer = false;
  sent = [];
}

hook-HasFree : HasFree hook 1 0 (pos 0 ∷ []) []
unfolding Stacks.items
hook-HasFree = record {
  fd_valid = record { low = refl; fits = omega arith; small = omega arith };
  unit_valid = record { low = refl; fits = omega arith; small = omega arith };
  fd_in = omega arith;
  unit_in = omega arith;
  free_fds = refl;
  free_units = refl;
}

hooked : not_hook_socket_type dnsmasq af_inet sock_stream (pos 0) ≡ false
unfolding not_hook_socket_type
hooked = refl

abbrev after_socket : Hook
after_socket = opened os hook af_inet sock_stream (pos 0) 1

close-socket_example :
    let u = shut os after_socket (pos 1) in
    (socket os hook af_inet sock_stream (pos 0) ≡ ret (pos 1) after_socket)
    × (close os after_socket (pos 1) ≡ ret (pos 0) u)
    × (Stacks.contents u.available_fd ≡ Stacks.contents hook.available_fd)
    × (Stacks.contents u.available_share_unit ≡ Stacks.contents hook.available_share_unit)
    × (is_valid_fd u (pos 1) ≡ false)
close-socket_example =
    close-socket os os hook af_inet sock_stream (pos 0) 1 0 (pos 0 ∷ []) [] hook-HasFree hooked refl

-- The hook with no share unit left.
abbrev no_units : Hook
no_units = record hook { available_share_unit = counted minus_one }

no_units-free : Stacks.contents no_units.available_share_unit ≡ []
unfolding Stacks.items
no_units-free = refl

no_units-IsValid : Stacks.IsValid no_units.available_share_unit
no_units-IsValid = record { low = refl; fits = omega arith; small = omega arith }

abbrev after_failure : Hook
after_failure =
    (init_socket 40 (record no_units { available_fd = (pop no_units.available_fd).1 }) (pos 1)
      af_inet sock_stream (pos 0)).1

socket_leaks_example :
    (socket os no_units af_inet sock_stream (pos 0) ≡ ret minus_one after_failure)
    × (Stacks.contents after_failure.available_fd ≡ pos 0 ∷ [])
    × (is_valid_fd after_failure (pos 1) ≡ true)
socket_leaks_example =
    socket_leaks os no_units af_inet sock_stream (pos 0) 1 (pos 0 ∷ []) hook-HasFree.fd_valid
      no_units-IsValid (omega arith) hook-HasFree.free_fds no_units-free hooked

-- Descriptor 4 is a connection on unit 0.
abbrev connected : Hook
connected = record hook {
  socket_arr =
      λ _. record zero_socket { in_use = true; is_server = true; share_unit_index = pos 0 };
}

connected-valid : is_valid_fd connected (pos 4) ≡ true
unfolding is_valid_fd
connected-valid = refl

connected-IsOpen : IsOpen connected 4 0
connected-IsOpen = record {
  valid = connected-valid;
  unit = refl;
  not_log = refl;
  fd_stack = hook-HasFree.fd_valid;
  unit_stack = hook-HasFree.unit_valid;
  fd_room = omega (arith, Stacks.length-items connected.available_fd.array 2);
  unit_room = omega (arith, Stacks.length-items connected.available_share_unit.array 1);
}

read_lem_example :
    let t = delivered (count_read connected (pos 4)) (pos 4) 10 in
    (read os [] connected (pos 4) 10 ≡ ret (pos 2, take 2 (bytes connected.shm two_bytes)) t)
    × IsValid (request_queue_of t (pos 4))
    × (bytes t.shm (request_queue_of t (pos 4)) ≡ drop 2 (bytes connected.shm two_bytes))
read_lem_example =
    read_lem os [] connected (pos 4) 10 (omega arith) connected-valid refl two_bytes-IsValid
      (omega arith) (omega arith)

write_lem_example :
    let t = written connected (pos 4) (5 ∷ 6 ∷ 7 ∷ []) 3 in
    (write os [] connected (pos 4) (5 ∷ 6 ∷ 7 ∷ []) 3 ≡ ret (pos 3) t)
    × IsValid (response_queue_of t (pos 4))
    × (bytes t.shm (response_queue_of t (pos 4)) ≡ bytes connected.shm two_bytes ++ 5 ∷ 6 ∷ 7 ∷ [])
write_lem_example =
    write_lem os [] connected (pos 4) (5 ∷ 6 ∷ 7 ∷ []) 3 (omega arith) connected-valid refl
      two_bytes-IsValid (omega arith) (omega arith) (omega arith)

-- The connection with nothing to read, to which the client then sends two bytes.
abbrev waiting : Hook
waiting = record connected {
  units = λ _. record { request_queue = no_bytes; response_queue = two_bytes };
}

abbrev sends : Hook → Hook
sends s = record s { units = λ _. record { request_queue = two_bytes; response_queue = two_bytes } }

waiting-valid : is_valid_fd waiting (pos 4) ≡ true
unfolding is_valid_fd
waiting-valid = refl

sends-eventually : eventually (readable (pos 4)) (sends ∷ []) (count_read waiting (pos 4)) ≡ true
unfolding eventually count_read
sends-eventually = refl

read-Returned_example : Returned (read os (sends ∷ []) waiting (pos 4) 10)
read-Returned_example =
    read-Returned os (sends ∷ []) waiting (pos 4) 10 (omega arith) waiting-valid sends-eventually

abbrev entries : List PollFd
entries =
    record { fd = pos 4; events = 1; revents = 0 }
    ∷ record { fd = pos 5; events = 4; revents = 0 }
    ∷ []

entries-AllOpen : AllOpen connected entries
unfolding client_closed
entries-AllOpen = (refl, (refl, tt))

hook_fd_poll_lem_example :
    ((hook_fd_poll connected entries).0 ≡ count_reported (hook_fd_poll connected entries).1)
    × AllAsked connected entries (hook_fd_poll connected entries).1
hook_fd_poll_lem_example = hook_fd_poll_lem connected entries entries-AllOpen

abbrev all_fds : FdSet
all_fds _ = true

fork-IsPinned_example : IsPinned (after hook (fork os hook))
fork-IsPinned_example =
    fork-IsPinned os hook (record { many = omega arith; there = omega arith; apart = omega arith })
