-- ===== src/Hook/Proofs/Owners/Accepting.antt =====
-- `accept` keeps the owners apart, where it does not give back a descriptor that it has set up.
use socket_hook.Base.{
  ℕ, ◌≡◌, refl, ℤ, pos, minus_one, int_min, eq_ℤ, to_ℕ, true, false, not, inl, inr, ◌⊎◌, Bool-cases,
  Option, none, some, ◌&&◌, is_nonneg, ltb, leb, ◌||◌, ◌==◌, if_all, arith,
}
use socket_hook.Stack.{pop}
use socket_hook.Queue.{Connection, connect_dequeue, accept_enqueue}
use socket_hook.Hook.State.{
  Hook, Os, Peer, Outcome, ret, blocked, exited, killed, sock, set_sock, wait, would_block,
  is_valid_fd, cmp_addr, has_flag, o_nonblock, is_dnsmasq, is_dcmqrscp, emfile, ewouldblock,
  socket_num,
}
use socket_hook.Hook.Init.{init_socket, init_close_unit}
use socket_hook.Hook.Accept.{fake_addr, finish_accept, answer, take_connection, serve, accept}
use socket_hook.Hook.Proofs.Cpus.{after}
use socket_hook.Hook.Proofs.Owners.{IsSound}
use socket_hook.Hook.Proofs.Owners.Stacks.{pop_cases}
use socket_hook.Hook.Proofs.Owners.Opening.{init_socket-IsSound}
use socket_hook.Hook.Proofs.Owners.Giving.{
  Keeps, Keeps-refl, Keeps-trans, set_sock-Keeps, Keeps-IsSound,
}
use socket_hook.Hook.Proofs.Owners.Waiting.{AllKeep, Awaited-trans, wait-Awaited, after_wait}
use socket_hook.Hook.Proofs.Owners.Calls.{with_errno, errno-IsSound}

finish_accept-Keeps :
    (os : Os) (s t : Hook) (fd : ℤ) → Keeps s t → Keeps s (after s (finish_accept os t fd))
unfolding finish_accept
finish_accept-Keeps os s t fd h =
    let k = record (sock t fd) { peer_addr = fake_addr os.random; control_sock = os.control_fd } in
    let a = Keeps-trans h (set_sock-Keeps t fd k refl refl) in
    let P = λ (o : Outcome ℤ). Keeps s (after s o) in
    let Q = λ (u : Hook). Keeps s u in
    if_all P (not os.control_name) (Keeps-refl s) (
      if_all Q (is_dnsmasq t.server)
        (record { fds = a.fds; units = a.units; opens = a.opens; served = a.served })
        (if_all Q (is_dcmqrscp t.server)
          (record { fds = a.fds; units = a.units; opens = a.opens; served = a.served }) a))

init_close_unit-Keeps : (s : Hook) (i : ℤ) → Keeps s (init_close_unit s i).1
unfolding init_close_unit
init_close_unit-Keeps s i =
    let Q = λ (r : ℤ × Hook). Keeps s r.1 in
    if_all Q (not (is_nonneg i) || leb socket_num (to_ℕ i)) (Keeps-refl s)
      (record { fds = refl; units = refl; opens = λ n. refl; served = λ n. refl })

answer-Keeps :
    (os : Os) (peer : Peer) (s t : Hook) (sockfd fd : ℤ) (c : Connection)
    → AllKeep peer
    → Keeps s t
    → Keeps s (after s (answer os peer t sockfd fd c))
unfolding answer
answer-Keeps os peer s t sockfd fd c p h =
    let index = (sock t fd).share_unit_index in
    let s1 = (init_close_unit t index).1 in
    let full = λ (u : Hook). u.accept_queue.size == u.accept_queue.capacity in
    let w =
      Awaited-trans (wait full peer s1) (Keeps-trans h (init_close_unit-Keeps t index))
        (wait-Awaited full peer s1 p) in
    if_all (λ (o : Outcome ℤ). Keeps s (after s o)) (not (cmp_addr (sock t sockfd).addr c.addr))
      (finish_accept-Keeps os s t fd h)
      (after_wait s (wait full peer s1) _ w (λ s2 rest a b.
        finish_accept-Keeps os s
          (record s2 {
            accept_queue =
                (accept_enqueue s2.accept_queue
                  (record { client_fd = c.client_fd; share_unit_index = index })).1;
          })
          fd (record { fds = a.fds; units = a.units; opens = a.opens; served = a.served })))

take_connection-Keeps :
    (os : Os) (peer : Peer) (s t : Hook) (sockfd fd : ℤ)
    → os.lock_ok ≡ true
    → AllKeep peer
    → Keeps s t
    → Keeps s (after s (take_connection os peer t sockfd fd))
unfolding take_connection
take_connection-Keeps os peer s t sockfd fd l p h =
    let s1 : Hook = record t { connect_queue = (connect_dequeue t.connect_queue).1 } in
    let k : Keeps s s1 = record {
      fds = h.fds;
      units = h.units;
      opens = h.opens;
      served = h.served;
    } in
    rw l
      (elim (connect_dequeue t.connect_queue).0
        as (λ (r : Option Connection).
          Keeps s (
            after s
              (elim r [ none ↦ ret minus_one s1 | some c ↦ answer os peer s1 sockfd fd c ]))) [
                | none ↦ k
                | some c ↦ answer-Keeps os peer s s1 sockfd fd c p k
              ])

-- A share unit that is there is taken.
init_socket-ok :
    (m : ℕ) (s : Hook) (fd domain type protocol : ℤ)
    → eq_ℤ (pop s.available_share_unit).0 int_min ≡ false
    → eq_ℤ (init_socket m s fd domain type protocol).0 minus_one ≡ false
unfolding init_socket
init_socket-ok m s fd domain type protocol h = rw h refl

serve-Keeps :
    (os : Os) (peer : Peer) (s : Hook) (sockfd fd : ℤ)
    → os.lock_ok ≡ true
    → eq_ℤ (pop s.available_share_unit).0 int_min ≡ false
    → AllKeep peer
    → let k = sock s sockfd in
      let t = (init_socket os.mutex_size s fd k.domain k.type k.protocol).1 in
      Keeps t (after t (serve os peer s sockfd fd))
unfolding serve
serve-Keeps os peer s sockfd fd l u p =
    let k = sock s sockfd in
    let t = (init_socket os.mutex_size s fd k.domain k.type k.protocol).1 in
    let s1 = set_sock t fd (record (sock t fd) { is_server = true }) in
    let a = set_sock-Keeps t fd (record (sock t fd) { is_server = true }) refl refl in
    let i = (sock s1 fd).share_unit_index in
    let empty = λ (x : Hook). x.connect_queue.size == 0 in
    let w = Awaited-trans (wait empty peer s1) a (wait-Awaited empty peer s1 p) in
    rw (init_socket-ok os.mutex_size s fd k.domain k.type k.protocol u) (
      if_all (λ (o : Outcome ℤ). Keeps t (after t o))
        ((sock s1 sockfd).has_bind && is_nonneg i && ltb (to_ℕ i) socket_num)
        (after_wait t (wait empty peer s1) _ w
          (λ s2 rest x y. take_connection-Keeps os rest t s2 sockfd fd l y x))
        a)

-- A call that does not return leaves the state from before.
after-IsSound : (s t : Hook) (o : Outcome ℤ) → IsSound s → IsSound (after t o) → IsSound (after s o)
after-IsSound s t (ret x u) w v = v
after-IsSound s t blocked w v = w
after-IsSound s t (exited n) w v = w
after-IsSound s t killed w v = w

after_same :
    (os : Os) (peer : Peer) (s0 s : Hook) (sockfd fd : ℤ)
    → os.lock_ok ≡ true
    → eq_ℤ (pop s.available_share_unit).0 int_min ≡ false
    → AllKeep peer
    → let k = sock s sockfd in
      IsSound s0
      → IsSound (init_socket os.mutex_size s fd k.domain k.type k.protocol).1
      → IsSound (after s0 (serve os peer s sockfd fd))
after_same os peer s0 s sockfd fd l u p w v =
    let k = sock s sockfd in
    let t = (init_socket os.mutex_size s fd k.domain k.type k.protocol).1 in
    after-IsSound s0 t (serve os peer s sockfd fd) w
      (Keeps-IsSound (serve-Keeps os peer s sockfd fd l u p) v)

would_block-IsSound : (s : Hook) (fd : ℤ) → IsSound s → IsSound (after s (would_block s fd))
would_block-IsSound s fd w =
    Keeps-IsSound
      (set_sock-Keeps (with_errno s ewouldblock) fd (record (sock s fd) { has_error = true }) refl
        refl)
      (errno-IsSound s ewouldblock w)

pub accept-serve :
    (os : Os) (peer : Peer) (s : Hook) (sockfd : ℤ) (n : ℕ)
    → is_valid_fd s sockfd ≡ true
    → (not (is_dnsmasq s.server)
        && has_flag (sock s sockfd).file_status_flags o_nonblock
        && s.connect_queue.size == 0)
      ≡ false
    → (pop s.available_fd).0 ≡ pos n
    → accept os peer s sockfd
      ≡ serve os peer (record s { available_fd = (pop s.available_fd).1 }) sockfd (pos n)
unfolding accept
accept-serve os peer s sockfd n v c e = ground arith

accept_refused :
    (os : Os) (peer : Peer) (s : Hook) (sockfd : ℤ)
    → pop s.available_fd ≡ (int_min, s.available_fd)
    → IsSound s
    → IsSound (after s (accept os peer s sockfd))
unfolding accept
accept_refused os peer s sockfd e w =
    let P = λ (o : Outcome ℤ). IsSound (after s o) in
    let nonblock = has_flag (sock s sockfd).file_status_flags o_nonblock in
    rw e (
      if_all P (not (is_valid_fd s sockfd)) w (
        if_all P (not (is_dnsmasq s.server) && nonblock && s.connect_queue.size == 0)
          (would_block-IsSound s sockfd w) (errno-IsSound s emfile w)))

accept_at_once :
    (os : Os) (peer : Peer) (s : Hook) (sockfd : ℤ)
    → (is_valid_fd s sockfd ≡ false)
      ⊎ ((not (is_dnsmasq s.server)
            && has_flag (sock s sockfd).file_status_flags o_nonblock
            && s.connect_queue.size == 0)
          ≡ true)
    → IsSound s
    → IsSound (after s (accept os peer s sockfd))
unfolding accept
accept_at_once os peer s sockfd (inl v) w = rw v w
accept_at_once os peer s sockfd (inr c) w = rw c (
    if_all (λ (o : Outcome ℤ). IsSound (after s o)) (not (is_valid_fd s sockfd)) w
      (would_block-IsSound s sockfd w))

-- `accept`, whatever it returns, where the lock is taken and a share unit is free.
pub accept-IsSound :
    (os : Os) (peer : Peer) (s : Hook) (sockfd : ℤ)
    → os.lock_ok ≡ true
    → eq_ℤ (pop s.available_share_unit).0 int_min ≡ false
    → AllKeep peer
    → IsSound s
    → IsSound (after s (accept os peer s sockfd))
accept-IsSound os peer s sockfd l u p w =
    let k = sock s sockfd in
    let s1 : Hook = record s { available_fd = (pop s.available_fd).1 } in
    elim (pop_cases 1024 s.available_fd w.fd_stack w.in_range) [
      | inl e ↦ accept_refused os peer s sockfd e w
      | inr (n, e) ↦ elim (Bool-cases (is_valid_fd s sockfd)) [
        | inr v ↦ accept_at_once os peer s sockfd (inl v) w
        | inl v ↦
            elim (Bool-cases (
              not (is_dnsmasq s.server)
              && has_flag k.file_status_flags o_nonblock
              && s.connect_queue.size == 0)) [
                | inl c ↦ accept_at_once os peer s sockfd (inr c) w
                | inr c ↦
                    let v' = init_socket-IsSound os.mutex_size s n k.domain k.type k.protocol w e in
                    rw (accept-serve os peer s sockfd n v c e)
                      (after_same os peer s s1 sockfd (pos n) l u p w v')
              ]
      ]
    ]
