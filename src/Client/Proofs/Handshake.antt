-- ===== src/Client/Proofs/Handshake.antt =====
-- `my_connect` of the client with `accept` of the hook.
use socket_hook.Base.{
  ℕ, zero, suc, ◌<◌, ◌≤◌, ◌≡◌, ◌≢◌, refl, sym, ap, ◌∙◌, ℤ, pos, negsuc, eq_ℤ, to_ℕ, Bool, true,
  false, ◌==◌, ==_of_ne, ==_iff, get_or, some, List, [], ◌∷◌, ◌++◌, length, arith,
}
use socket_hook.Base.Memory.{window, length-window}
use socket_hook.Stack.{pop}
use socket_hook.Queue.{
  SockAddr, Connection, Acception, Queue, ConnectQueue, AcceptQueue, take_item, connect_enqueue,
  accept_dequeue,
}
use socket_hook.Queue.Refine.{IsValid, contents, enqueue_refines}
use socket_hook.Hook.State.{Os, Peer, sock, is_valid_fd, cmp_addr}
use socket_hook.Hook.Accept.{accept}
use socket_hook.Hook.Proofs.Cpus.{after}
use socket_hook.Hook.Proofs.Answers.{acception}
use socket_hook.Hook.Proofs.Accepting.{accept_lem}
use socket_hook.Client.State.{Client, returned, ServerMoves}
use socket_hook.Client.Connect.{spin, take_answer, my_connect}
use socket_hook.Client.Proofs.Transfer.{Joined}

-- The server's move: one call of `accept`.
abbrev pub accepts : Os → Peer → ℤ → Client → Client
accepts os peer sockfd c = record c { memory = after c.memory (accept os peer c.memory sockfd) }

spin_none :
    (busy : Client → Bool) (server : ServerMoves) (c : Client)
    → busy c ≡ false
    → spin busy server c ≡ some (c, server)
unfolding spin
spin_none busy [] c h = rw h refl
spin_none busy (m ∷ ms) c h = rw h refl

spin_once :
    (busy : Client → Bool) (m : Client → Client) (server : ServerMoves) (c : Client)
    → busy c ≡ true
    → busy (m c) ≡ false
    → spin busy (m ∷ server) c ≡ some (m c, server)
unfolding spin
spin_once busy m server c h k = rw (h, spin_none busy server (m c) k) refl

eq_ℤ_refl : (x : ℤ) → eq_ℤ x x ≡ true
eq_ℤ_refl (pos n) = ground arith
eq_ℤ_refl (negsuc n) = ground arith

module _ {ℓ} {A : Type ℓ} where
  -- The item at the front of a queue that holds some.
  front_of_contents :
      (q : Queue A) (x : A) (xs : List A)
      → contents q ≡ x ∷ xs
      → (q.size ≢ 0) × (q.array q.front ≡ x)
  unfolding window
  front_of_contents q x xs h = go q.size h
    where
      go : (n : ℕ) → window q.array q.capacity q.front n ≡ x ∷ xs → (n ≢ 0) × (q.array q.front ≡ x)
      go zero e = absurd (omega (arith, ap (length {A = A}) e))
      go (suc n) e = (λ z. omega arith, ap (λ l. get_or l 0 x) e)

  take_item_of_contents :
      (q : Queue A) (x : A) (xs : List A) → contents q ≡ x ∷ xs → (take_item q).0 ≡ some x
  unfolding take_item
  take_item_of_contents q x xs h =
      let (z, e) = front_of_contents q x xs h in rw (==_of_ne q.size 0 z) (ap some e)

  -- An empty valid queue has room.
  room_of_empty : (q : Queue A) → IsValid q → contents q ≡ [] → (q.size ≡ 0) × (q.size ≢ q.capacity)
  room_of_empty q v h =
      let z : q.size ≡ 0 =
        sym (length-window q.array q.capacity q.front q.size) ∙ ap (length {A = A}) h in
      (z, λ e. ground (arith, v.room))

enqueue_of_empty :
    (q : ConnectQueue) (x : Connection)
    → IsValid q
    → contents q ≡ []
    → IsValid (connect_enqueue q x).1 × (contents (connect_enqueue q x).1 ≡ x ∷ [])
unfolding connect_enqueue
enqueue_of_empty q x v h =
    let (w, e, c) = enqueue_refines q x v in
    (
      w,
      ap {A = ℤ × List Connection} (λ p. p.1) e
          ∙ rw (h, ==_of_ne 0 q.capacity (λ z. ground (arith, v.room))) refl,
    )

-- The state once the client's request is in the connect queue.
abbrev asked : Client → Connection → Client
asked c r = record c {
  memory = record c.memory { connect_queue = (connect_enqueue c.memory.connect_queue r).1 };
}

-- The client's request, once the connect queue has room.
my_connect-take_answer :
    (server rest : ServerMoves) (c x : Client) (sockfd : ℤ) (addr : SockAddr)
    → c.socket_cli.in_use ≡ true
    → c.socket_cli.is_udp ≡ false
    → c.memory.connect_queue.size ≢ c.memory.connect_queue.capacity
    → spin
        (λ y. y.memory.accept_queue.size == 0)
        server
        (asked c (record { addr = addr; client_fd = sockfd }))
      ≡ some (x, rest)
    → my_connect server c sockfd addr ≡ take_answer x sockfd
unfolding my_connect
my_connect-take_answer server rest c x sockfd addr u p r n =
    let full = λ (d : Client). d.memory.connect_queue.size == d.memory.connect_queue.capacity in
    rw (spin_none full server c (==_of_ne _ _ r), n, u, p) refl

accept_dequeue_of_contents :
    (q : AcceptQueue) (x : Acception) (xs : List Acception)
    → contents q ≡ x ∷ xs
    → (accept_dequeue q).0 ≡ some x
unfolding accept_dequeue
accept_dequeue_of_contents q x xs h = take_item_of_contents q x xs h

take_answer_lem :
    (c : Client) (sockfd i : ℤ) (r : Connection)
    → r.client_fd ≡ sockfd
    → contents c.memory.accept_queue ≡ acception r i ∷ []
    → take_answer c sockfd
      ≡ returned (pos 0) (record c {
        memory = record c.memory { accept_queue = (accept_dequeue c.memory.accept_queue).1 };
        socket_cli = record c.socket_cli { share_unit_index = i };
      })
unfolding take_answer
take_answer_lem c sockfd i r f h =
    rw
      (
        take_answer,
        accept_dequeue_of_contents c.memory.accept_queue (acception r i) [] h,
        f,
        eq_ℤ_refl sockfd,
      )
      refl

-- The handshake: `my_connect` of an open stream socket of the client puts a request in the empty
-- connect queue, and while it waits the server calls `accept` on an open socket that is bound to
-- the address of the request, where a descriptor other than its own and a share unit are free, the
-- valid accept queue is empty, the lock is taken and CONTROL_SOCKET_NAME is set. Then `my_connect`
-- returns 0, whatever comes after; the connect queue is empty again, and the client's socket and
-- the new socket of the server, which is open, have the same share unit.
pub my_connect-accept :
    (os : Os) (peer : Peer) (server : ServerMoves) (c : Client) (cli_fd sockfd : ℤ)
    (addr : SockAddr) (fd i : ℕ)
    → c.socket_cli.in_use ≡ true
    → c.socket_cli.is_udp ≡ false
    → let s = c.memory in
      IsValid s.connect_queue
      → contents s.connect_queue ≡ []
      → IsValid s.accept_queue
      → contents s.accept_queue ≡ []
      → os.lock_ok ≡ true
      → os.control_name ≡ true
      → is_valid_fd s sockfd ≡ true
      → (sock s sockfd).has_bind ≡ true
      → cmp_addr (sock s sockfd).addr addr ≡ true
      → (pop s.available_fd).0 ≡ pos fd
      → fd ≤ 1023
      → (fd == to_ℕ sockfd) ≡ false
      → (pop s.available_share_unit).0 ≡ pos i
      → i < 5
      → (d : Client) × (my_connect (accepts os peer sockfd ∷ server) c cli_fd addr
          ≡ returned (pos 0) d)
        × (d.socket_cli.share_unit_index ≡ pos i)
        × Joined d (pos fd)
        × (is_valid_fd d.memory (pos fd) ≡ true)
        × (contents d.memory.connect_queue ≡ [])
unfolding is_valid_fd
my_connect-accept os peer server c cli_fd sockfd addr fd i u p v e w a l n o b m f j g k x =
    let r : Connection = record { addr = addr; client_fd = cli_fd } in
    let y = asked c r in
    let (z, room) = room_of_empty c.memory.connect_queue v e in
    let (z', room') = room_of_empty c.memory.accept_queue w a in
    let (vr, er) = enqueue_of_empty c.memory.connect_queue r v e in
    let (h1, h2, h3, h4, h5) =
      accept_lem os peer y.memory sockfd fd i r [] l n o b f j g k x vr er m w room' in
    let t = accepts os peer sockfd y in
    let h6 : contents t.memory.accept_queue ≡ acception r (pos i) ∷ [] =
      h3 ∙ ap (λ q. q ++ acception r (pos i) ∷ []) a in
    let (z2, _) = front_of_contents t.memory.accept_queue _ [] h6 in
    let once =
      spin_once (λ (x : Client). x.memory.accept_queue.size == 0) (accepts os peer sockfd) server y
        ((==_iff _ _).1 z') (==_of_ne _ _ z2) in
    (
      _,
      my_connect-take_answer (accepts os peer sockfd ∷ server) server c t cli_fd addr u p room once
          ∙ take_answer_lem t cli_fd (pos i) r refl h6,
      refl,
      ap to_ℕ h4,
      h5,
      h2,
    )
