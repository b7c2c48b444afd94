-- ===== src/Hook/Proofs/Accepting.antt =====
-- What `accept` of the hook does with a connection that waits in the connect queue.
use socket_hook.Base.{
  ℕ, ◌<◌, ◌≤◌, ◌≡◌, ◌≢◌, refl, ap, ap₂, ◌∙◌, ℤ, pos, to_ℕ, true, false, ltb, ◌==◌, ==_of_ne, Option,
  some, List, [], ◌∷◌, ◌++◌, length, arith,
}
use socket_hook.Base.Memory.{length-window}
use socket_hook.Stack.{pop}
use socket_hook.Queue.{Connection, ConnectQueue, AcceptQueue, connect_dequeue}
use socket_hook.Queue.Refine.{IsValid, contents, take_list, take_item_refines}
use socket_hook.Hook.State.{
  Hook, Os, Peer, MySocket, ret, sock, set_sock, is_valid_fd, cmp_addr, socket_num,
}
use socket_hook.Hook.Init.{init_socket, fresh_socket}
use socket_hook.Hook.Accept.{answer, take_connection, serve, accept}
use socket_hook.Hook.Proofs.Lifecycle.{init_socket_lem}
use socket_hook.Hook.Proofs.Answers.{wait_none, init_socket-same, acception, answer_lem}
use socket_hook.Hook.Proofs.Cpus.{after}

connect_dequeue_lem :
    (q : ConnectQueue) (c : Connection) (cs : List Connection)
    → IsValid q
    → contents q ≡ c ∷ cs
    → ((connect_dequeue q).0 ≡ some c) × (contents (connect_dequeue q).1 ≡ cs)
unfolding connect_dequeue
connect_dequeue_lem q c cs v e =
    let (w, d, k) = take_item_refines q v in
    let f = d ∙ ap {B = Option Connection × List Connection} take_list e in
    (ap (λ p. p.0) f, ap (λ p. p.1) f)

take_connection-answer :
    (os : Os) (peer : Peer) (s : Hook) (sockfd fd : ℤ) (c : Connection) (cs : List Connection)
    → os.lock_ok ≡ true
    → IsValid s.connect_queue
    → contents s.connect_queue ≡ c ∷ cs
    → take_connection os peer s sockfd fd
      ≡ answer os peer
          (record s { connect_queue = (connect_dequeue s.connect_queue).1 })
          sockfd
          fd
          c
unfolding take_connection
take_connection-answer os peer s sockfd fd c cs l v e =
    rw (l, (connect_dequeue_lem s.connect_queue c cs v e).0) refl

-- The state in which `accept` takes a connection: the new socket is there.
abbrev begun : Os → Hook → ℤ → ℕ → Hook
begun os s sockfd fd =
    let k = sock s sockfd in
    let s1 : Hook = record s { available_fd = (pop s.available_fd).1 } in
    let s2 = (init_socket os.mutex_size s1 (pos fd) k.domain k.type k.protocol).1 in
    set_sock s2 (pos fd) (record (sock s2 (pos fd)) { is_server = true })

begun_lem :
    (os : Os) (s : Hook) (sockfd : ℤ) (fd i : ℕ)
    → (pop s.available_share_unit).0 ≡ pos i
    → (fd == to_ℕ sockfd) ≡ false
    → let t = begun os s sockfd fd in
      (t.connect_queue ≡ s.connect_queue)
      × (t.accept_queue ≡ s.accept_queue)
      × (sock t sockfd ≡ sock s sockfd)
      × ((sock t (pos fd)).share_unit_index ≡ pos i)
      × ((sock t (pos fd)).in_use ≡ true)
unfolding fresh_socket
begun_lem os s sockfd fd i g n =
    let k = sock s sockfd in
    let s1 : Hook = record s { available_fd = (pop s.available_fd).1 } in
    let (a, b, c) = init_socket-same os.mutex_size s1 (pos fd) k.domain k.type k.protocol in
    let r = init_socket_lem os.mutex_size s1 (pos fd) k.domain k.type k.protocol i g in
    (a, b, rw n (c sockfd n), ground (arith, r.1), ground (arith, r.1))

size_lem :
    (q : ConnectQueue) (c : Connection) (cs : List Connection) → contents q ≡ c ∷ cs → q.size ≢ 0
size_lem q c cs e = omega (arith, length-window q.array q.capacity q.front q.size, ap length e)

serve-take_connection :
    (os : Os) (peer : Peer) (s : Hook) (sockfd : ℤ) (fd i : ℕ) (c : Connection)
    (cs : List Connection)
    → (pop s.available_share_unit).0 ≡ pos i
    → i < 5
    → (fd == to_ℕ sockfd) ≡ false
    → (sock s sockfd).has_bind ≡ true
    → contents s.connect_queue ≡ c ∷ cs
    → let s1 : Hook = record s { available_fd = (pop s.available_fd).1 } in
      serve os peer s1 sockfd (pos fd)
      ≡ take_connection os peer (begun os s sockfd fd) sockfd (pos fd)
unfolding serve
serve-take_connection os peer s sockfd fd i c cs g l n b e =
    let k = sock s sockfd in
    let t = begun os s sockfd fd in
    let s1 : Hook = record s { available_fd = (pop s.available_fd).1 } in
    let r = init_socket_lem os.mutex_size s1 (pos fd) k.domain k.type k.protocol i g in
    let (q, a, o, u, x) = begun_lem os s sockfd fd i g n in
    let w : (t.connect_queue.size == 0) ≡ false =
      rw q (==_of_ne s.connect_queue.size 0 (size_lem s.connect_queue c cs e)) in
    let h : (sock t sockfd).has_bind ≡ true = ap {A = MySocket} (λ y. y.has_bind) o ∙ b in
    let j : ltb i socket_num ≡ true = ground arith in
    rw (r.0, h, u, j, wait_none (λ y. y.connect_queue.size == 0) peer t w) refl

accept-serve :
    (os : Os) (peer : Peer) (s : Hook) (sockfd : ℤ) (fd : ℕ)
    → is_valid_fd s sockfd ≡ true
    → (pop s.available_fd).0 ≡ pos fd
    → s.connect_queue.size ≢ 0
    → let s1 : Hook = record s { available_fd = (pop s.available_fd).1 } in
      accept os peer s sockfd ≡ serve os peer s1 sockfd (pos fd)
unfolding accept
accept-serve os peer s sockfd fd v f z = ground (arith, ==_of_ne s.connect_queue.size 0 z)

-- `accept` on an open, bound socket, where a descriptor other than its own and a share unit are
-- free, both queues of the handshake are valid, a connection for the socket's address is the
-- oldest in the connect queue and the accept queue has room, the lock is taken and
-- CONTROL_SOCKET_NAME is set: whatever the client does meanwhile, it returns the free descriptor,
-- which is then an open socket served by the free unit; the connection is gone from the connect
-- queue, and behind the others in the accept queue the client finds its own descriptor with the
-- index of that unit.
pub accept_lem :
    (os : Os) (peer : Peer) (s : Hook) (sockfd : ℤ) (fd i : ℕ) (c : Connection)
    (cs : List Connection)
    → os.lock_ok ≡ true
    → os.control_name ≡ true
    → is_valid_fd s sockfd ≡ true
    → (sock s sockfd).has_bind ≡ true
    → (pop s.available_fd).0 ≡ pos fd
    → fd ≤ 1023
    → (fd == to_ℕ sockfd) ≡ false
    → (pop s.available_share_unit).0 ≡ pos i
    → i < 5
    → IsValid s.connect_queue
    → contents s.connect_queue ≡ c ∷ cs
    → cmp_addr (sock s sockfd).addr c.addr ≡ true
    → IsValid s.accept_queue
    → s.accept_queue.size ≢ s.accept_queue.capacity
    → let t = after s (accept os peer s sockfd) in
      (accept os peer s sockfd ≡ ret (pos fd) t)
      × (contents t.connect_queue ≡ cs)
      × (contents t.accept_queue ≡ contents s.accept_queue ++ acception c (pos i) ∷ [])
      × ((sock t (pos fd)).share_unit_index ≡ pos i)
      × (is_valid_fd t (pos fd) ≡ true)
unfolding is_valid_fd
accept_lem os peer s sockfd fd i c cs l n v b f j d g k w e m x r =
    let s2 = begun os s sockfd fd in
    let s3 : Hook = record s2 { connect_queue = (connect_dequeue s2.connect_queue).1 } in
    let (q, a, o, u, y) = begun_lem os s sockfd fd i g d in
    let eq : accept os peer s sockfd ≡ answer os peer s3 sockfd (pos fd) c =
      accept-serve os peer s sockfd fd v f (size_lem s.connect_queue c cs e)
      ∙ serve-take_connection os peer s sockfd fd i c cs g k d b e
      ∙ take_connection-answer os peer s2 sockfd (pos fd) c cs l (rw q w) (rw q e) in
    let (z, p, h, index, live) =
      answer_lem os peer s3 s sockfd (pos fd) c n (rw o m) (rw a x) (rw a r) in
    rw eq (
      z,
      ap {A = ConnectQueue} contents p
          ∙ (connect_dequeue_lem s2.connect_queue c cs (rw q w) (rw q e)).1,
      h ∙ ap₂ {A = AcceptQueue} {B = ℤ} (λ k x. contents k ++ acception c x ∷ []) a u,
      index ∙ u,
      ground (arith, live, y),
    )
