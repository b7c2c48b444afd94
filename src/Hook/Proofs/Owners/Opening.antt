-- ===== src/Hook/Proofs/Owners/Opening.antt =====
-- Opening a socket moves a descriptor and a share unit from the stacks to it.
use socket_hook.Base.{
  ℕ, ◌+◌, ◌<◌, ◌≡◌, refl, ap, subst, ◌∙◌, ℤ, pos, eq_ℤ, List, true, false, ◌==◌, Bool-cases, inl,
  inr, arith,
}
use socket_hook.Base.Sums.{bit, count, sum-off}
use socket_hook.Stack.{pop}
use socket_hook.Stack.Laws.{contents, pop_refines}
use socket_hook.Hook.State.{Hook, MySocket}
use socket_hook.Hook.Init.{init_socket, fresh_socket}
use socket_hook.Hook.Proofs.Owners.{IsSound, holds, holders}
use socket_hook.Hook.Proofs.Owners.Stacks.{count-pop, AllBelow-pop}

-- What `init_socket` does, whether it gets a share unit or not.
abbrev pub inited : ℕ → Hook → ℕ → ℤ → ℤ → ℤ → Hook
inited m s fd domain type protocol = (init_socket m s (pos fd) domain type protocol).1

pub init_socket-effect :
    (m : ℕ) (s : Hook) (fd : ℕ) (domain type protocol : ℤ)
    → let t = inited m s fd domain type protocol in
      (t.available_fd ≡ s.available_fd)
      × (t.available_share_unit ≡ (pop s.available_share_unit).1)
      × ((t.socket_arr fd).in_use ≡ true)
      × ((t.socket_arr fd).share_unit_index ≡ (pop s.available_share_unit).0)
      × ((n : ℕ) → (fd == n) ≡ false → t.socket_arr n ≡ s.socket_arr n)
unfolding init_socket fresh_socket
init_socket-effect m s fd domain type protocol =
    (ground arith, ground arith, ground arith, ground arith, λ n h. ground arith)

pub init_socket-open :
    (m : ℕ) (s : Hook) (fd : ℕ) (domain type protocol : ℤ)
    → ((inited m s fd domain type protocol).socket_arr fd).in_use ≡ true
init_socket-open m s fd domain type protocol = (init_socket-effect m s fd domain type protocol).2

-- A free descriptor is not open.
free_not_open :
    (s : Hook) (fd : ℕ)
    → IsSound s
    → (pop s.available_fd).0 ≡ pos fd
    → (fd < 1024) × ((s.socket_arr fd).in_use ≡ false)
free_not_open s fd w e =
    let l = (AllBelow-pop 1024 fd s.available_fd w.fd_stack e w.in_range).0 in
    let c : count fd (contents s.available_fd)
        ≡ bit (fd == fd) + count fd (contents (pop s.available_fd).1) =
      rw e at (count-pop fd s.available_fd w.fd_stack) in
    (l, ground (arith, c, w.one_owner fd l))

-- The holders, where the socket of fd changes only.
pub holders_off :
    (s t : Hook) (fd i : ℕ)
    → fd < 1024
    → ((n : ℕ) → (fd == n) ≡ false → t.socket_arr n ≡ s.socket_arr n)
    → holders t i + holds (s.socket_arr fd) i ≡ holders s i + holds (t.socket_arr fd) i
holders_off s t fd i l f =
    sum-off (λ n. holds (t.socket_arr n) i) (λ n. holds (s.socket_arr n) i) fd 1024 l
      (λ n h. ap {A = MySocket} (λ k. holds k i) (f n h))

owner_step :
    (f g : ℕ → MySocket) (xs ys : List ℤ) (fd n : ℕ)
    → ((x : ℕ) → (fd == x) ≡ false → g x ≡ f x)
    → (g fd).in_use ≡ true
    → count n xs ≡ bit (fd == n) + count n ys
    → count n xs + bit (f n).in_use ≡ 1
    → count n ys + bit (g n).in_use ≡ 1
owner_step f g xs ys fd n h u c o = elim (Bool-cases (fd == n)) [
  | inl e ↦
      let q : fd ≡ n = ground arith in
      let v : (g n).in_use ≡ true = subst (λ x. (g x).in_use ≡ true) q u in ground arith
  | inr e ↦
      let v : (g n).in_use ≡ (f n).in_use = ap {A = MySocket} (λ k. k.in_use) (h n e) in
      rw v (ground arith)
]

pub holds_taken :
    (k : MySocket) (x : ℤ) (i : ℕ)
    → k.in_use ≡ true
    → k.share_unit_index ≡ x
    → holds k i ≡ bit (eq_ℤ x (pos i))
holds_taken k x i u v = rw (u, v) refl

-- The socket that takes the descriptor fd, and the unit that it gets.
pub init_socket-IsSound :
    (m : ℕ) (s : Hook) (fd : ℕ) (domain type protocol : ℤ)
    → IsSound s
    → (pop s.available_fd).0 ≡ pos fd
    → let s1 : Hook = record s { available_fd = (pop s.available_fd).1 } in
      IsSound (inited m s1 fd domain type protocol)
init_socket-IsSound m s fd domain type protocol w e =
    let s1 : Hook = record s { available_fd = (pop s.available_fd).1 } in
    let t = inited m s1 fd domain type protocol in
    let (a, b, c, d, f) = init_socket-effect m s1 fd domain type protocol in
    let (v, p, k) = pop_refines s.available_fd w.fd_stack in
    let (v', p', k') = pop_refines s.available_share_unit w.unit_stack in
    let (l, n0) = free_not_open s fd w e in
    record {
      fd_stack = rw a v;
      fd_capacity = rw a (k ∙ w.fd_capacity);
      unit_stack = rw b v';
      in_range = rw a (AllBelow-pop 1024 fd s.available_fd w.fd_stack e w.in_range).1;
      one_owner = λ n h. rw a (
          owner_step s.socket_arr t.socket_arr (contents s.available_fd)
            (contents (pop s.available_fd).1) fd n f c
            (rw e at (count-pop n s.available_fd w.fd_stack)) (w.one_owner n h));
      one_unit = λ i.
          let x = (pop s.available_share_unit).0 in
          let o = holders_off s t fd i l f in
          let z : holds (s.socket_arr fd) i ≡ 0 = rw n0 refl in
          let y = holds_taken (t.socket_arr fd) x i c d in
          let q = count-pop i s.available_share_unit w.unit_stack in
          rw b (omega (arith, o, z, y, q, w.one_unit i));
    }
