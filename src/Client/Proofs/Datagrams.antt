-- ===== src/Client/Proofs/Datagrams.antt =====
-- Messages from the client's `my_send` to the hook's `recvfrom`.
use socket_hook.Base.{
  to_int-below, ℕ, ◌-◌, ◌≤◌, min, ◌≡◌, ◌≢◌, refl, sym, ap, ap₂, ◌∙◌, ℤ, pos, eq_ℤ, Bool, true,
  false, ==_of_ne, if◌then◌else◌, List, [], ◌∷◌, ◌++◌, length, length-take, take, take-append,
  replicate, arith,
}
use socket_hook.Base.Memory.{store}
use socket_hook.ShareQueue.{ShareQueue, Message, message_max_length, datagram_enqueue}
use socket_hook.ShareQueue.Slots.{IsValid, items, datagram_enqueue_refines}
use socket_hook.Hook.State.{
  Os, Peer, Outcome, ret, sock, request_queue_of, is_valid_fd, sock_dgram, has_flag, msg_trunc,
}
use socket_hook.Hook.Datagram.{Received, recvfrom, make_message}
use socket_hook.Hook.Proofs.Cpus.{after}
use socket_hook.Hook.Proofs.Messages.{
  received_messages, peer_address, enqueue-with_room, store_self, recvfrom_lem,
}
use socket_hook.Client.State.{Client, returned, ServerMoves, cli_request, set_cli_request}
use socket_hook.Client.Transfer.{put_request, my_send}
use socket_hook.Client.Proofs.Transfer.{Joined, my_send-put_request}

-- The messages that the client has sent and the server has not taken.
abbrev pub cli_messages : Client → List Message
cli_messages c = let q = cli_request c in items (c.memory.messages q.message_start_offset) q

-- The state that `my_send` leaves, on a datagram socket with room.
abbrev pub sent_datagram : Client → List ℕ → ℕ → Client
sent_datagram c buf len =
    let q = cli_request c in
    let o = q.message_start_offset in
    let r = datagram_enqueue (c.memory.messages o) q (make_message buf len) in
    record c {
      memory = record (set_cli_request c r.2) { messages = store c.memory.messages o r.1 };
    }

put_request-sent_datagram :
    (c : Client) (buf : List ℕ) (len : ℕ)
    → eq_ℤ c.socket_cli.type sock_dgram ≡ true
    → IsValid (cli_request c)
    → (cli_request c).current_size ≢ (cli_request c).capacity
    → put_request c buf len ≡ returned (pos len) (sent_datagram c buf len)
unfolding put_request
put_request-sent_datagram c buf len t v h =
    let q = cli_request c in
    let (z, k) =
      enqueue-with_room (c.memory.messages q.message_start_offset) q (make_message buf len) v h in
    rw (t, z) refl

-- What the server then finds.
received_messages-sent_datagram :
    (c : Client) (fd : ℤ) (buf : List ℕ) (len : ℕ)
    → Joined c fd
    → IsValid (cli_request c)
    → (cli_request c).current_size ≢ (cli_request c).capacity
    → let d = sent_datagram c buf len in
      IsValid (request_queue_of d.memory fd)
      × (received_messages d.memory fd ≡ cli_messages c ++ make_message buf len ∷ [])
received_messages-sent_datagram c fd buf len j v h =
    let q = cli_request c in
    let o = q.message_start_offset in
    let m = make_message buf len in
    let r = datagram_enqueue (c.memory.messages o) q m in
    let d = sent_datagram c buf len in
    let (w, e, n, p, x, y) = datagram_enqueue_refines (c.memory.messages o) q m v in
    let (z, k) = enqueue-with_room (c.memory.messages o) q m v h in
    let u : cli_request d ≡ r.2 = ground arith in
    let x : request_queue_of d.memory fd ≡ r.2 =
      ap {A = ℕ} (λ i. (d.memory.units i).request_queue) j ∙ u in
    (
      rw x w,
      ap {A = ShareQueue} (λ y. items (store c.memory.messages o r.1 y.message_start_offset) y) x
          ∙ ap {A = ℕ → Message} (λ y. items y r.2)
              (store_self c.memory.messages o r.2.message_start_offset r.1 p)
          ∙ k,
    )

make_message_lem :
    (buf : List ℕ) (len : ℕ)
    → len ≤ message_max_length
    → len ≤ length buf
    → take len (make_message buf len).buf ≡ take len buf
make_message_lem buf len l b =
    let e : min len message_max_length ≡ len = omega arith in
    let f : length (take len buf) ≡ len = omega (arith, length-take len buf) in
    let zeros = replicate (message_max_length - len) 0 in
    rw e (ap (λ i. take i (take len buf ++ zeros)) (sym f) ∙ take-append (take len buf) zeros)

is_valid_fd-sent_datagram :
    (c : Client) (fd : ℤ) (buf : List ℕ) (len : ℕ)
    → is_valid_fd (sent_datagram c buf len).memory fd ≡ is_valid_fd c.memory fd
unfolding is_valid_fd
is_valid_fd-sent_datagram c fd buf len = refl

-- `my_send` of a message of 1 to 1500 bytes on the client's open datagram socket, whose valid
-- request queue is empty and has room, and then `recvfrom` on the open datagram socket of the
-- server that has the same share unit, with room for the message: without a wait and whatever the
-- flags, both return the number of bytes, `recvfrom` gives exactly the
-- bytes sent, and no message is left.
pub my_send-recvfrom :
    (os : Os) (server : ServerMoves) (peer : Peer) (c : Client) (fd : ℤ) (buf : List ℕ)
    (len room flags : ℕ) (fresh : Message)
    → c.socket_cli.in_use ≡ true
    → eq_ℤ c.socket_cli.type sock_dgram ≡ true
    → IsValid (cli_request c)
    → (cli_request c).current_size ≢ (cli_request c).capacity
    → cli_messages c ≡ []
    → Joined c fd
    → is_valid_fd c.memory fd ≡ true
    → (sock c.memory fd).type ≡ sock_dgram
    → len ≢ 0
    → len ≤ message_max_length
    → len ≤ length buf
    → len ≤ room
    → let d = sent_datagram c buf len in
      let t = after d.memory (recvfrom os peer d.memory fd room flags fresh) in
      (my_send os server c buf len ≡ returned (pos len) d)
      × (recvfrom os peer d.memory fd room flags fresh
          ≡ ret (pos len, take len buf, peer_address d.memory) t)
      × (received_messages t fd ≡ [])
my_send-recvfrom os server peer c fd buf len room flags fresh u y v h n j i x z l b k =
    let d = sent_datagram c buf len in
    let (w, e) = received_messages-sent_datagram c fd buf len j v h in
    let m : Message = record { length = len; buf = (make_message buf len).buf } in
    let s : make_message buf len ≡ m =
      ap {A = ℕ} {B = Message} (λ i. record { length = i; buf = (make_message buf len).buf })
        (to_int-below len (omega arith)) in
    let (r, q, g) =
      recvfrom_lem os peer d.memory fd room flags fresh m []
        (is_valid_fd-sent_datagram c fd buf len ∙ i) x w
        (e ∙ ap (λ ms. ms ++ make_message buf len ∷ []) n ∙ ap {A = Message} (λ x. x ∷ []) s) z
        (omega arith) in
    let t = after d.memory (recvfrom os peer d.memory fd room flags fresh) in
    let whole : min room len ≡ len = omega arith in
    let counted : (if has_flag flags msg_trunc then len else min room len) ≡ len =
      rw whole (either (has_flag flags msg_trunc) len) in
    (
      my_send-put_request os server c buf len u (==_of_ne _ _ h)
          ∙ put_request-sent_datagram c buf len y v h,
      r
          ∙ ap₂ {A = ℕ} {B = List ℕ} {C = Outcome Received}
              (λ n xs. ret (pos n, xs, peer_address d.memory) t) counted
              (ap (λ i. take i m.buf) whole ∙ make_message_lem buf len l b),
      g,
    )
  where
    either : (a : Bool) (n : ℕ) → (if a then n else n) ≡ n
    either true n = refl
    either false n = refl
