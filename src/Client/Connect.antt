-- ===== src/Client/Connect.antt =====
-- `my_connect` of inet_client_shm.c: the client's side of the handshake.
use socket_hook.Base.{
  ℤ, pos, minus_one, eq_ℤ, Bool, not, ◌==◌, if◌then◌else◌, Option, none, some, [], ◌∷◌,
}
use socket_hook.Queue.{SockAddr, Connection, connect_enqueue, accept_dequeue}
use socket_hook.Client.State.{Client, Result, returned, waiting, ServerMoves}

-- while(busy) usleep(0): the state and the rest of the schedule when the loop ends.
unfoldable pub spin : (Client → Bool) → ServerMoves → Client → Option (Client × ServerMoves)
spin busy [] c = if busy c then none else some (c, [])
spin busy (m ∷ ms) c = let rest = spin busy ms (m c) in if busy c then rest else some (c, m ∷ ms)

-- The answer of the server, if there is one.
unfoldable pub take_answer : Client → ℤ → Result ℤ
take_answer c sockfd =
    let r = accept_dequeue c.memory.accept_queue in
    let d : Client = record c { memory = record c.memory { accept_queue = r.1 } } in
    elim r.0 [
      | none ↦ returned minus_one d
      | some a ↦
          if not (eq_ℤ a.client_fd sockfd)
          then returned minus_one d
          else returned (pos 0) (record d {
            socket_cli = record c.socket_cli { share_unit_index = a.share_unit_index };
          })
    ]

unfoldable pub my_connect : ServerMoves → Client → ℤ → SockAddr → Result ℤ
unfolding spin take_answer
my_connect server c sockfd addr =
    let request : Connection = record { addr = addr; client_fd = sockfd } in
    if not c.socket_cli.in_use
    then returned minus_one c
    else (if c.socket_cli.is_udp
        then returned (pos 0) c
        else elim (spin (λ d. d.memory.connect_queue.size == d.memory.connect_queue.capacity) server
            c) [
              | none ↦ waiting
              | some (d, rest) ↦
                  let e : Client = record d {
                    memory = record d.memory {
                      connect_queue = (connect_enqueue d.memory.connect_queue request).1;
                    };
                  } in
                  elim (spin (λ x. x.memory.accept_queue.size == 0) rest e) [
                    | none ↦ waiting
                    | some (x, _) ↦ take_answer x sockfd
                  ]
            ])
