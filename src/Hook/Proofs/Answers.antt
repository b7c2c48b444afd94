-- ===== src/Hook/Proofs/Answers.antt =====
-- What `accept` of the hook tells the client, and what setting up its socket leaves alone.
use socket_hook.Base.{
  ℕ, ◌≡◌, ◌≢◌, refl, ap, ◌∙◌, ℤ, to_ℕ, Bool, true, false, ◌==◌, ==_of_ne, some, List, [], ◌∷◌, ◌++◌,
  arith,
}
use socket_hook.Base.Memory.{length-window}
use socket_hook.Queue.{Connection, Acception, AcceptQueue, accept_enqueue}
use socket_hook.Queue.Refine.{IsValid, contents, enqueue_refines}
use socket_hook.Hook.State.{Hook, Os, Peer, MySocket, ret, wait, sock, cmp_addr}
use socket_hook.Hook.Init.{init_socket, init_close_unit}
use socket_hook.Hook.Accept.{finish_accept, answer}
use socket_hook.Hook.Proofs.Cpus.{after}

-- A wait for what is there already.
pub wait_none :
    (busy : Hook → Bool) (peer : Peer) (s : Hook)
    → busy s ≡ false
    → wait busy peer s ≡ some (s, peer)
unfolding wait
wait_none busy [] s h = rw h
wait_none busy (m ∷ ms) s h = rw h

-- Setting up a socket touches no queue of the handshake and no other socket.
pub init_socket-same :
    (m : ℕ) (s : Hook) (fd domain type protocol : ℤ)
    → let t = (init_socket m s fd domain type protocol).1 in
      (t.connect_queue ≡ s.connect_queue)
      × (t.accept_queue ≡ s.accept_queue)
      × ((x : ℤ) → (to_ℕ fd == to_ℕ x) ≡ false → sock t x ≡ sock s x)
unfolding init_socket
init_socket-same m s fd domain type protocol = (ground arith, ground arith, λ x h. ground arith)

init_close_unit-same :
    (s : Hook) (i : ℤ)
    → let t = (init_close_unit s i).1 in
      (t.connect_queue ≡ s.connect_queue)
      × (t.accept_queue ≡ s.accept_queue)
      × (t.socket_arr ≡ s.socket_arr)
unfolding init_close_unit
init_close_unit-same s i = ground arith

-- What `finish_accept` keeps. (A call that does not return is taken to leave the state o.)
finish_accept_lem :
    (os : Os) (s o : Hook) (fd : ℤ)
    → os.control_name ≡ true
    → let t = after o (finish_accept os s fd) in
      (finish_accept os s fd ≡ ret fd t)
      × (t.connect_queue ≡ s.connect_queue)
      × (t.accept_queue ≡ s.accept_queue)
      × ((sock t fd).share_unit_index ≡ (sock s fd).share_unit_index)
      × ((sock t fd).in_use ≡ (sock s fd).in_use)
unfolding finish_accept
finish_accept_lem os s o fd h = ground arith

-- The acception that tells the client its share unit.
abbrev pub acception : Connection → ℤ → Acception
acception c index = record { client_fd = c.client_fd; share_unit_index = index }

enqueue-with_room :
    (q : AcceptQueue) (a : Acception)
    → IsValid q
    → q.size ≢ q.capacity
    → contents (accept_enqueue q a).1 ≡ contents q ++ a ∷ []
unfolding accept_enqueue
enqueue-with_room q a v h =
    let (w, e, c) = enqueue_refines q a v in
    ap {A = ℤ × List Acception} (λ p. p.1) e
    ∙ rw (length-window q.array q.capacity q.front q.size, ==_of_ne q.size q.capacity h) refl

-- The state in which `answer` goes on to `finish_accept`.
abbrev answered : Hook → ℤ → Connection → Hook
answered s fd c =
    let index = (sock s fd).share_unit_index in
    let s1 = (init_close_unit s index).1 in
    record s1 { accept_queue = (accept_enqueue s1.accept_queue (acception c index)).1 }

answer-finish_accept :
    (os : Os) (peer : Peer) (s : Hook) (sockfd fd : ℤ) (c : Connection)
    → cmp_addr (sock s sockfd).addr c.addr ≡ true
    → s.accept_queue.size ≢ s.accept_queue.capacity
    → answer os peer s sockfd fd c ≡ finish_accept os (answered s fd c) fd
unfolding answer
answer-finish_accept os peer s sockfd fd c m r =
    let s1 = (init_close_unit s (sock s fd).share_unit_index).1 in
    let (a, b, d) = init_close_unit-same s (sock s fd).share_unit_index in
    let e : (s1.accept_queue.size == s1.accept_queue.capacity) ≡ false =
      rw b (==_of_ne s.accept_queue.size s.accept_queue.capacity r) in
    rw (m, wait_none (λ t. t.accept_queue.size == t.accept_queue.capacity) peer s1 e) refl

pub answer_lem :
    (os : Os) (peer : Peer) (s o : Hook) (sockfd fd : ℤ) (c : Connection)
    → os.control_name ≡ true
    → cmp_addr (sock s sockfd).addr c.addr ≡ true
    → IsValid s.accept_queue
    → s.accept_queue.size ≢ s.accept_queue.capacity
    → let t = after o (answer os peer s sockfd fd c) in
      (answer os peer s sockfd fd c ≡ ret fd t)
      × (t.connect_queue ≡ s.connect_queue)
      × (contents t.accept_queue
          ≡ contents s.accept_queue ++ acception c (sock s fd).share_unit_index ∷ [])
      × ((sock t fd).share_unit_index ≡ (sock s fd).share_unit_index)
      × ((sock t fd).in_use ≡ (sock s fd).in_use)
answer_lem os peer s o sockfd fd c n m v r =
    let index = (sock s fd).share_unit_index in
    let (a, b, d) = init_close_unit-same s index in
    let (f, g, h, i, j) = finish_accept_lem os (answered s fd c) o fd n in
    rw (answer-finish_accept os peer s sockfd fd c m r) (
      f,
      g ∙ a,
      ap {A = AcceptQueue} contents h
          ∙ ap {A = AcceptQueue} (λ q. contents (accept_enqueue q (acception c index)).1) b
          ∙ enqueue-with_room s.accept_queue (acception c index) v r,
      i ∙ ap {A = ℕ → MySocket} (λ k. (k (to_ℕ fd)).share_unit_index) d,
      j ∙ ap {A = ℕ → MySocket} (λ k. (k (to_ℕ fd)).in_use) d,
    )
