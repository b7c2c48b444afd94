-- ===== src/Hook/Init/Constructor.antt =====
-- The constructor of socket_hook.c: `init`, with `init_logging` and `init_share_memory`.
use socket_hook.Base.{
  ℕ, ◌+◌, ◌%◌, ℤ, pos, negsuc, minus_one, Bool, true, false, not, ◌&&◌, ◌==◌, if◌then◌else◌, Option,
  none, some, List, [], ◌∷◌,
}
use socket_hook.Queue.{Connection, Acception}
use socket_hook.ShareQueue.{Message, Shm}
use socket_hook.Hook.State.{
  Hook, Server, dnsmasq, tinydtls, dcmqrscp, other, is_tinydtls, is_dcmqrscp, Outcome, ret, exited,
  zero_socket, no_addr,
}
use socket_hook.Hook.Init.{init_stacks, init_share_queue, init_connect_accept_queue}

-- strncmp(s, prefix, strlen(prefix)) == 0, for strings without their final 0.
abbrev pub starts_with : List ℕ → List ℕ → Bool
starts_with s [] = true
starts_with [] (c ∷ cs) = false
starts_with (x ∷ xs) (c ∷ cs) = x == c && starts_with xs cs

-- "DNSMASQ", "TINYDTLS" and "DCMQRSCP"
abbrev dnsmasq_name : List ℕ
dnsmasq_name = 68 ∷ 78 ∷ 83 ∷ 77 ∷ 65 ∷ 83 ∷ 81 ∷ []

abbrev tinydtls_name : List ℕ
tinydtls_name = 84 ∷ 73 ∷ 78 ∷ 89 ∷ 68 ∷ 84 ∷ 76 ∷ 83 ∷ []

abbrev dcmqrscp_name : List ℕ
dcmqrscp_name = 68 ∷ 67 ∷ 77 ∷ 81 ∷ 82 ∷ 83 ∷ 67 ∷ 80 ∷ []

unfoldable pub server_of : List ℕ → Server
server_of name =
    if starts_with name dnsmasq_name
    then dnsmasq
    else (if starts_with name tinydtls_name
        then tinydtls
        else (if starts_with name dcmqrscp_name then dcmqrscp else other))

-- What the constructor finds: SERVER; whether the names of the three share memories are set and
-- they can be opened; what is in them; the cells that `malloc` gives; the descriptor of the log
-- file, if it can be opened; the number of CPUs and the one that runs it; the size of a mutex.
pub record Surroundings : Type 0 where
  pub server_type : Option (List ℕ)
  pub memory_there : Bool
  pub shm : Shm
  pub messages : ℕ → ℕ → Message
  pub connections : ℕ → Connection
  pub acceptions : ℕ → Acception
  pub fd_cells : ℕ → ℤ
  pub unit_cells : ℕ → ℤ
  pub log_file : Option ℤ
  pub cpus : ℕ
  pub cpu : ℕ
  pub mutex_size : ℕ

-- The state that it leaves for a server. What it does not name are globals, which start as 0; the
-- process has not touched SIGPIPE.
unfoldable pub initial : Surroundings → Server → Hook
initial w server = record {
  server = server;
  available_fd = (init_stacks w.fd_cells w.unit_cells).0;
  available_share_unit = (init_stacks w.fd_cells w.unit_cells).1;
  socket_arr = λ n. zero_socket;
  units = λ i. init_share_queue w.mutex_size i (not (is_tinydtls server));
  shm = w.shm;
  messages = w.messages;
  connect_queue = (init_connect_accept_queue w.connections w.acceptions).0;
  accept_queue = (init_connect_accept_queue w.connections w.acceptions).1;
  close_arr = λ i. record {
    client_read = false;
    client_write = false;
    server_read = false;
    server_write = false;
  };
  errno = 0;
  log_fd = elim w.log_file [ none ↦ negsuc 1 | some fd ↦ fd ];
  read_count = 0;
  write_count = 0;
  tinydtls_fd = if is_tinydtls server then minus_one else pos 0;
  tinydtls_peer_addr = no_addr;
  dcmqrscp_fd = if is_dcmqrscp server then minus_one else pos 0;
  fork_pid = negsuc 1;
  next_cpu_id = (w.cpu + 1) % w.cpus;
  aflnet_cpu_id = w.cpu;
  cpu_count = w.cpus;
  use_smart_affinity = true;
  sigpipe_kills = true;
  poll_timeout = false;
  poll_timer = false;
  sent = [];
}

unfoldable pub init : Surroundings → Outcome (Unit {0})
unfolding initial server_of
init w = elim w.server_type [
  | none ↦ exited 999
  | some name ↦ if not w.memory_there then exited 999 else ret tt (initial w (server_of name))
]
