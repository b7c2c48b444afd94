-- ===== src/Hook/Proofs/Owners/Pairs.antt =====
-- `socketpair` keeps the owners apart.
use socket_hook.Base.{
  ℕ, ◌<◌, ◌≡◌, true, refl, ℤ, pos, minus_one, eq_ℤ, not, ◌||◌, inl, inr, if_all, arith,
}
use socket_hook.Stack.{push, pop}
use socket_hook.Hook.State.{Hook, Os, Outcome, zero_socket, set_sock, emfile, af_unix, sock_stream}
use socket_hook.Hook.Init.{init_socket}
use socket_hook.Hook.Sockets.{socketpair}
use socket_hook.Hook.Proofs.Cpus.{after}
use socket_hook.Hook.Proofs.Owners.{IsSound}
use socket_hook.Hook.Proofs.Owners.Stacks.{pop_cases, AllBelow-pop}
use socket_hook.Hook.Proofs.Owners.Opening.{init_socket-IsSound, init_socket-open}
use socket_hook.Hook.Proofs.Owners.Giving.{give-IsSound}
use socket_hook.Hook.Proofs.Owners.Calls.{errno-IsSound}

-- The first descriptor goes back, its share unit does not.
given_up :
    (s : Hook) (fd : ℕ)
    → IsSound s
    → fd < 1024
    → (s.socket_arr fd).in_use ≡ true
    → let t = set_sock s (pos fd) zero_socket in
      IsSound (record t { available_fd = push s.available_fd (pos fd) })
given_up s fd w l u =
    let t = set_sock s (pos fd) zero_socket in
    give-IsSound s (record t { available_fd = push s.available_fd (pos fd) }) fd
      (s.socket_arr fd).share_unit_index w l u refl refl (ground arith) (λ n h. rw h refl)
      w.unit_stack (λ i. omega arith)

pub socketpair-IsSound :
    (os : Os) (s : Hook) (domain type protocol : ℤ) (sv : ℤ × ℤ)
    → IsSound s
    → IsSound (after s (socketpair os s domain type protocol sv))
unfolding socketpair
socketpair-IsSound os s domain type protocol sv w =
    let P = λ (o : Outcome (ℤ × ℤ × ℤ)). IsSound (after s o) in
    if_all P (eq_ℤ domain af_unix || not (eq_ℤ type sock_stream)) w
      (elim (pop_cases 1024 s.available_fd w.fd_stack w.in_range) [
        | inl e ↦ rw e (errno-IsSound s emfile w)
        | inr (k, e) ↦
            let s1 : Hook = record s { available_fd = (pop s.available_fd).1 } in
            let r1 = init_socket os.mutex_size s1 (pos k) domain type protocol in
            let v = init_socket-IsSound os.mutex_size s k domain type protocol w e in
            let l = (AllBelow-pop 1024 k s.available_fd w.fd_stack e w.in_range).0 in
            let u = init_socket-open os.mutex_size s1 k domain type protocol in
            rw e (
              if_all P (eq_ℤ r1.0 minus_one) v
                (elim (pop_cases 1024 r1.1.available_fd v.fd_stack v.in_range) [
                  | inl f ↦ rw f (errno-IsSound _ emfile (given_up r1.1 k v l u))
                  | inr (j, f) ↦
                      let s3 : Hook = record r1.1 { available_fd = (pop r1.1.available_fd).1 } in
                      let r2 = init_socket os.mutex_size s3 (pos j) domain type protocol in
                      let x = init_socket-IsSound os.mutex_size r1.1 j domain type protocol v f in
                      rw f (if_all P (eq_ℤ r2.0 minus_one) x x)
                ]))
      ])
