-- ===== src/Hook/Proofs/Owners/Calls.antt =====
-- Each call of the hook that opens or closes sockets keeps their owners apart.
use socket_hook.Base.{
  ◌≤◌, ℕ, ◌<◌, ◌≡◌, refl, ap, ℤ, pos, negsuc, minus_one, eq_ℤ, true, not, Bool-cases, inl, inr,
  to_ℕ, if_all, arith,
}
use socket_hook.Stack.{push, pop}
use socket_hook.Stack.Laws.{push_refines}
use socket_hook.Queue.{SockAddr}
use socket_hook.Hook.State.{
  Hook, Os, Outcome, MySocket, is_valid_fd, sock, set_sock, is_dcmqrscp, emfile,
  not_hook_socket_type,
}
use socket_hook.Hook.Init.{init_socket}
use socket_hook.Hook.Sockets.{
  socket, copy_addr, bind, listen, connect, note_tinydtls, connects_within,
}
use socket_hook.Hook.Close.{close, shutdown, mark_server}
use socket_hook.Hook.Fork.{fork, pin}
use socket_hook.Hook.Proofs.Cpus.{after}
use socket_hook.Hook.Proofs.Lifecycle.{note_tinydtls-same}
use socket_hook.Hook.Proofs.Closing.{marked, marked-same, shut, close-ret}
use socket_hook.Hook.Proofs.Owners.{IsSound}
use socket_hook.Hook.Proofs.Owners.Stacks.{count-push, pop_cases}
use socket_hook.Hook.Proofs.Owners.Opening.{init_socket-IsSound}
use socket_hook.Hook.Proofs.Owners.Giving.{
  Keeps, Keeps-refl, Keeps-trans, set_sock-Keeps, Keeps-IsSound, give-IsSound,
}

copied :
    (os : Os) (k : MySocket) (addr behind : SockAddr) (addrlen : ℕ)
    → addrlen ≤ 32
    → ((copy_addr os k addr behind addrlen).in_use ≡ k.in_use)
      × ((copy_addr os k addr behind addrlen).share_unit_index ≡ k.share_unit_index)
unfolding copy_addr
copied os k addr behind addrlen h = (ground arith, ground arith)

-- `bind`, where the copy of the address ends in the two addresses of the socket.
pub bind-Keeps :
    (os : Os) (s : Hook) (fd : ℤ) (addr behind : SockAddr) (addrlen : ℕ)
    → addrlen ≤ 32
    → Keeps s (after s (bind os s fd addr behind addrlen))
unfolding bind
bind-Keeps os s fd addr behind addrlen l =
    let j : MySocket = record (sock s fd) { has_bind = true } in
    let c = copied os j addr behind addrlen l in
    let s1 = set_sock s fd (copy_addr os j addr behind addrlen) in
    let k = record (sock s1 fd) { is_server = true; control_sock = os.control_fd } in
    let a = set_sock-Keeps s fd (copy_addr os j addr behind addrlen) c.0 c.1 in
    let b = Keeps-trans a (set_sock-Keeps s1 fd k refl refl) in
    let P = λ (o : Outcome ℤ). Keeps s (after s o) in
    if_all P (not (is_valid_fd s fd)) (Keeps-refl s) (
      if_all P (not (sock s1 fd).is_udp) a (
        if_all P (not os.control_name) (Keeps-refl s) (
          if_all P (connects_within os 0 1000)
            (record { fds = refl; units = refl; opens = b.opens; served = b.served })
            (if_all P (is_dcmqrscp s.server) (Keeps-refl s) b))))

pub listen-Keeps : (os : Os) (s : Hook) (fd : ℤ) → Keeps s (after s (listen os s fd))
unfolding listen
listen-Keeps os s fd = record {
  fds = ground arith;
  units = ground arith;
  opens = λ n. ground arith;
  served = λ n. ground arith;
}

pub connect-Keeps :
    (os : Os) (s : Hook) (fd : ℤ) (addr : SockAddr) → Keeps s (after s (connect os s fd addr))
unfolding connect
connect-Keeps os s fd addr = record {
  fds = ground arith;
  units = ground arith;
  opens = λ n. ground arith;
  served = λ n. ground arith;
}

pub shutdown-Keeps :
    (os : Os) (s : Hook) (fd : ℤ) (how : ℕ) → Keeps s (after s (shutdown os s fd how))
unfolding shutdown mark_server
shutdown-Keeps os s fd how = record {
  fds = ground arith;
  units = ground arith;
  opens = λ n. ground arith;
  served = λ n. ground arith;
}

pub fork-Keeps : (os : Os) (s : Hook) → Keeps s (after s (fork os s))
unfolding fork pin
fork-Keeps os s = record {
  fds = ground arith;
  units = ground arith;
  opens = λ n. ground arith;
  served = λ n. ground arith;
}

pub valid_in_range :
    (s : Hook) (fd : ℤ)
    → is_valid_fd s fd ≡ true
    → (fd ≡ pos (to_ℕ fd)) × (to_ℕ fd < 1024) × ((s.socket_arr (to_ℕ fd)).in_use ≡ true)
unfolding is_valid_fd
valid_in_range s (pos n) v = (refl, ground arith, ground arith)
valid_in_range s (negsuc n) v = absurd (ground arith)

shut-IsSound :
    (os : Os) (s : Hook) (fd : ℕ)
    → IsSound s
    → fd < 1024
    → (s.socket_arr fd).in_use ≡ true
    → IsSound (shut os s (pos fd))
shut-IsSound os s fd w l u =
    let (a, b, c) = marked-same os s (pos fd) in
    let x = (s.socket_arr fd).share_unit_index in
    let y : (sock (marked os s (pos fd)) (pos fd)).share_unit_index ≡ x =
      ap {A = ℕ → MySocket} (λ k. (k fd).share_unit_index) a in
    let e : (shut os s (pos fd)).available_share_unit ≡ push s.available_share_unit x =
      rw (c, y) refl in
    give-IsSound s (shut os s (pos fd)) fd x w l u refl (rw b refl) (ground arith)
      (λ n h. rw (h, a) refl) (rw e (push_refines s.available_share_unit x w.unit_stack).0)
      (λ i. rw e (count-push i s.available_share_unit x w.unit_stack))

pub close-IsSound : (os : Os) (s : Hook) (fd : ℤ) → IsSound s → IsSound (after s (close os s fd))
unfolding close
close-IsSound os s fd w = elim (Bool-cases (eq_ℤ fd s.log_fd)) [
  | inl e ↦ rw (close, e) w
  | inr e ↦ elim (Bool-cases (is_valid_fd s fd)) [
    | inl v ↦
        let (p, l, u) = valid_in_range s fd v in
        rw (close-ret os s fd e v) (rw p (shut-IsSound os s (to_ℕ fd) w l u))
    | inr v ↦ rw (close, e, v) w
  ]
]

tinydtls-IsSound : (s : Hook) (fd : ℤ) → IsSound s → IsSound (note_tinydtls s fd)
tinydtls-IsSound s fd w =
    let q = note_tinydtls-same s fd in
    Keeps-IsSound
      (record {
        fds = q.1;
        units = q.2;
        opens = λ n. ap {A = ℕ → MySocket} (λ k. (k n).in_use) q.0;
        served = λ n. ap {A = ℕ → MySocket} (λ k. (k n).share_unit_index) q.0;
      })
      w

-- A state that differs in nothing that has to do with the owners.
abbrev pub with_errno : Hook → ℕ → Hook
with_errno s n = record s { errno = n }

pub errno-IsSound : (s : Hook) (n : ℕ) → IsSound s → IsSound (with_errno s n)
errno-IsSound s n w =
    Keeps-IsSound (record { fds = refl; units = refl; opens = λ k. refl; served = λ k. refl }) w

pub socket-IsSound :
    (os : Os) (s : Hook) (domain type protocol : ℤ)
    → IsSound s
    → IsSound (after s (socket os s domain type protocol))
unfolding socket
socket-IsSound os s domain type protocol w =
    let P = λ (o : Outcome ℤ). IsSound (after s o) in
    if_all P (not_hook_socket_type s.server domain type protocol) w
      (elim (pop_cases 1024 s.available_fd w.fd_stack w.in_range) [
        | inl e ↦ rw e (errno-IsSound s emfile w)
        | inr (k, e) ↦
            let v = init_socket-IsSound os.mutex_size s k domain type protocol w e in
            let r =
              init_socket os.mutex_size (record s { available_fd = (pop s.available_fd).1 }) (pos k)
                domain type protocol in
            rw e (if_all P (eq_ℤ r.0 minus_one) v (tinydtls-IsSound r.1 (pos k) v))
      ])
