-- ===== src/Client/State.antt =====
-- The state of inet_client_shm.c, and how its calls end.
use socket_hook.Base.{ℕ, to_ℕ, true, List}
use socket_hook.Base.Memory.{store}
use socket_hook.ShareQueue.{ShareQueue}
use socket_hook.Hook.State.{Hook, MySocket, CloseUnit}

-- The one socket of the client, and `errno`. Of `memory`, the state of the server's side, it uses
-- only what is in the share memory: the share units, the close units and the queues of the
-- handshake.
pub record Client : Type 0 where
  pub socket_cli : MySocket
  pub errno : ℕ
  pub memory : Hook

-- A call returns, or waits for longer than the schedule of the other side's moves goes, or the copy
-- of a negative length ends the process.
pub data Result {ℓ} (A : Type ℓ) : Type ℓ where
  returned : A → Client → Result A
  waiting : Result A
  crashed : Result A

-- What the server and the signal handler do between two looks of a waiting call.
abbrev pub ServerMoves : Type 0
ServerMoves = List (Client → Client)

-- The signal handler, on SIGUSR2.
abbrev pub my_signal_handler : Client → Client
my_signal_handler c = record c { socket_cli = record c.socket_cli { is_socket_timeout = true } }

-- The share unit of the socket, whose index is in range.
abbrev pub cli_unit : Client → ℕ
cli_unit c = to_ℕ c.socket_cli.share_unit_index

abbrev pub cli_close : Client → CloseUnit
cli_close c = c.memory.close_arr (cli_unit c)

abbrev pub cli_request : Client → ShareQueue
cli_request c = (c.memory.units (cli_unit c)).request_queue

abbrev pub cli_response : Client → ShareQueue
cli_response c = (c.memory.units (cli_unit c)).response_queue

abbrev pub set_cli_request : Client → ShareQueue → Hook
set_cli_request c q = record c.memory {
  units =
      store c.memory.units (cli_unit c)
        (record (c.memory.units (cli_unit c)) { request_queue = q });
}

abbrev pub set_cli_response : Client → ShareQueue → Hook
set_cli_response c q = record c.memory {
  units =
      store c.memory.units (cli_unit c)
        (record (c.memory.units (cli_unit c)) { response_queue = q });
}
