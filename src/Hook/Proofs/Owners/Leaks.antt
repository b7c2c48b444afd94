-- ===== src/Hook/Proofs/Owners/Leaks.antt =====
-- The failure after which `accept` gives back a descriptor that stays an open socket.
use socket_hook.Base.{
  ℕ, ◌<◌, ◌≡◌, ◌≢◌, refl, ap, ◌∙◌, ℤ, pos, int_min, minus_one, true, List, [], ◌∷◌, length,
  ==_of_ne, arith,
}
use socket_hook.Base.Sums.{count}
use socket_hook.Stack.{push, pop}
use socket_hook.Stack.Laws.{contents, pop_list, pop_refines}
use socket_hook.Hook.State.{Hook, Os, Peer, ret, sock, is_valid_fd}
use socket_hook.Hook.Init.{init_socket}
use socket_hook.Hook.Accept.{serve, accept}
use socket_hook.Hook.Proofs.Lifecycle.{pop-some}
use socket_hook.Hook.Proofs.Closing.{length-le-capacity}
use socket_hook.Hook.Proofs.Owners.{IsSound}
use socket_hook.Hook.Proofs.Owners.Stacks.{AllBelow-pop, push-contents}
use socket_hook.Hook.Proofs.Owners.Opening.{inited, init_socket-effect}
use socket_hook.Hook.Proofs.Owners.Accepting.{accept-serve}

-- The state that `accept` leaves when it takes the descriptor fd and gets no share unit.
abbrev pub given_back : Os → Hook → ℤ → ℕ → Hook
given_back os s sockfd fd =
    let k = sock s sockfd in
    let s1 : Hook = record s { available_fd = (pop s.available_fd).1 } in
    let t = inited os.mutex_size s1 fd k.domain k.type k.protocol in
    record t { available_fd = push t.available_fd (pos fd) }

init_socket-fails :
    (m : ℕ) (s : Hook) (fd domain type protocol : ℤ)
    → (pop s.available_share_unit).0 ≡ int_min
    → (init_socket m s fd domain type protocol).0 ≡ minus_one
unfolding init_socket
init_socket-fails m s fd domain type protocol e = rw e refl

serve-fails :
    (os : Os) (peer : Peer) (s : Hook) (sockfd : ℤ) (fd : ℕ)
    → (pop s.available_share_unit).0 ≡ int_min
    → let s1 : Hook = record s { available_fd = (pop s.available_fd).1 } in
      serve os peer s1 sockfd (pos fd) ≡ ret minus_one (given_back os s sockfd fd)
unfolding serve
serve-fails os peer s sockfd fd e =
    let k = sock s sockfd in
    let s1 : Hook = record s { available_fd = (pop s.available_fd).1 } in
    rw (init_socket-fails os.mutex_size s1 (pos fd) k.domain k.type k.protocol e) refl

-- On an open socket of the hook for which a connection is there, with a free descriptor and no free
-- share unit, `accept` returns -1 and the descriptor is on the stack of free ones again, at the
-- top; but it counts as an open socket of the hook too, so it has two owners.
pub accept-leaks :
    (os : Os) (peer : Peer) (s : Hook) (sockfd : ℤ) (fd : ℕ) (fds : List ℤ)
    → IsSound s
    → is_valid_fd s sockfd ≡ true
    → s.connect_queue.size ≢ 0
    → contents s.available_fd ≡ pos fd ∷ fds
    → contents s.available_share_unit ≡ []
    → let t = given_back os s sockfd fd in
      (accept os peer s sockfd ≡ ret minus_one t)
      × (contents t.available_fd ≡ pos fd ∷ fds)
      × (is_valid_fd t (pos fd) ≡ true)
      × (¬ IsSound t)
unfolding is_valid_fd
accept-leaks os peer s sockfd fd fds w v z e g =
    let k = sock s sockfd in
    let s1 : Hook = record s { available_fd = (pop s.available_fd).1 } in
    let (f, c, y, n) = pop-some s.available_fd (pos fd) fds w.fd_stack e in
    let (l, _) = AllBelow-pop 1024 fd s.available_fd w.fd_stack f w.in_range in
    let u : (pop s.available_share_unit).0 ≡ int_min =
      ap {A = ℤ × List ℤ} (λ p. p.0)
        ((pop_refines s.available_share_unit w.unit_stack).1 ∙ ap {B = ℤ × List ℤ} pop_list g) in
    let (a, b, o, x, h) = init_socket-effect os.mutex_size s1 fd k.domain k.type k.protocol in
    let room : length (contents (pop s.available_fd).1) < (pop s.available_fd).1.capacity =
      omega (arith, ap length c, n, ap length e, length-le-capacity s.available_fd w.fd_stack) in
    let q : contents (given_back os s sockfd fd).available_fd ≡ pos fd ∷ fds =
      rw a (push-contents (pop s.available_fd).1 (pos fd) y room ∙ ap (◌∷◌ (pos fd)) c) in
    (
      accept-serve os peer s sockfd fd v (ground (arith, ==_of_ne s.connect_queue.size 0 z)) f
          ∙ serve-fails os peer s sockfd fd u,
      q,
      ground (arith, o, l),
      λ t. ground (arith, o, l, ap (count fd) q, t.one_owner fd l),
    )
