-- ===== src/Hook/Proofs/Lifecycle.antt =====
-- A socket's birth: `socket` takes a descriptor and a share unit.
use socket_hook.Base.{
  ℕ, ◌≤◌, ◌<◌, ◌≡◌, ap, ◌∙◌, ℤ, pos, minus_one, int_min, eq_ℤ, true, false, List, [], ◌∷◌, arith,
}
use socket_hook.Stack.{Stack, pop}
use socket_hook.Stack.Laws.{IsValid, contents, pop_list, pop_refines}
use socket_hook.Hook.State.{
  Hook, Os, MySocket, ret, sock, is_valid_fd, not_hook_socket_type, sock_dgram,
}
use socket_hook.Hook.Init.{init_socket, fresh_socket}
use socket_hook.Hook.Sockets.{socket, note_tinydtls}

-- A hook with a free descriptor fd in range and a free share unit i in range.
pub record HasFree (s : Hook) (fd i : ℕ) (fds is : List ℤ) : Type 0 where
  pub fd_valid : IsValid s.available_fd
  pub unit_valid : IsValid s.available_share_unit
  pub fd_in : fd ≤ 1023
  pub unit_in : i < 5
  pub free_fds : contents s.available_fd ≡ pos fd ∷ fds
  pub free_units : contents s.available_share_unit ≡ pos i ∷ is

pub pop-some :
    (st : Stack) (x : ℤ) (xs : List ℤ)
    → IsValid st
    → contents st ≡ x ∷ xs
    → ((pop st).0 ≡ x)
      × (contents (pop st).1 ≡ xs)
      × IsValid (pop st).1
      × ((pop st).1.capacity ≡ st.capacity)
pop-some st x xs v e =
    let (w, c, k) = pop_refines st v in
    let d = c ∙ ap {B = ℤ × List ℤ} pop_list e in (ap (λ p. p.0) d, ap (λ p. p.1) d, w, k)

-- The socket that `init_socket` makes when it gets share unit i.
abbrev pub made : ℤ → ℤ → ℤ → ℕ → MySocket
made domain type protocol i = record (fresh_socket domain type protocol) {
  share_unit_index = pos i;
  is_udp = eq_ℤ type sock_dgram;
}

pub init_socket_lem :
    (m : ℕ) (s : Hook) (fd domain type protocol : ℤ) (i : ℕ)
    → (pop s.available_share_unit).0 ≡ pos i
    → let r = init_socket m s fd domain type protocol in
      (r.0 ≡ pos 0)
      × (sock r.1 fd ≡ made domain type protocol i)
      × (r.1.available_share_unit ≡ (pop s.available_share_unit).1)
      × (r.1.available_fd ≡ s.available_fd)
      × (r.1.log_fd ≡ s.log_fd)
      × (r.1.server ≡ s.server)
      × (r.1.fork_pid ≡ s.fork_pid)
unfolding init_socket
init_socket_lem m s fd domain type protocol i e = rw e (ground arith)

-- The state that `socket` leaves, by its name: descriptor and unit taken, tinydtls noted.
abbrev pub opened : Os → Hook → ℤ → ℤ → ℤ → ℕ → Hook
opened os s domain type protocol fd =
    note_tinydtls
      (init_socket os.mutex_size (record s { available_fd = (pop s.available_fd).1 }) (pos fd)
        domain type protocol).1
      (pos fd)

socket-ret :
    (os : Os) (s : Hook) (domain type protocol : ℤ) (fd i : ℕ)
    → (pop s.available_fd).0 ≡ pos fd
    → (pop s.available_share_unit).0 ≡ pos i
    → not_hook_socket_type s.server domain type protocol ≡ false
    → socket os s domain type protocol ≡ ret (pos fd) (opened os s domain type protocol fd)
unfolding socket
socket-ret os s domain type protocol fd i e g k =
    let r =
      init_socket_lem os.mutex_size (record s { available_fd = (pop s.available_fd).1 }) (pos fd)
        domain type protocol i g in
    rw (k, e, r.0)

pub note_tinydtls-same :
    (s : Hook) (fd : ℤ)
    → ((note_tinydtls s fd).socket_arr ≡ s.socket_arr)
      × ((note_tinydtls s fd).available_fd ≡ s.available_fd)
      × ((note_tinydtls s fd).available_share_unit ≡ s.available_share_unit)
      × ((note_tinydtls s fd).log_fd ≡ s.log_fd)
      × ((note_tinydtls s fd).server ≡ s.server)
      × ((note_tinydtls s fd).fork_pid ≡ s.fork_pid)
unfolding note_tinydtls
note_tinydtls-same s fd = ground arith

-- `socket`, of a type that the hook takes and with a free descriptor and a free share unit,
-- returns the descriptor on top of the stack of free ones, and takes the share unit on top of the
-- other. The descriptor is then the hook's, and its socket is new, of the type that was asked for,
-- and served by that unit.
pub socket_lem :
    (os : Os) (s : Hook) (domain type protocol : ℤ) (fd i : ℕ) (fds is : List ℤ)
    → HasFree s fd i fds is
    → not_hook_socket_type s.server domain type protocol ≡ false
    → let t = opened os s domain type protocol fd in
      (socket os s domain type protocol ≡ ret (pos fd) t)
      × (is_valid_fd t (pos fd) ≡ true)
      × (sock t (pos fd) ≡ made domain type protocol i)
      × (contents t.available_fd ≡ fds)
      × (contents t.available_share_unit ≡ is)
unfolding is_valid_fd fresh_socket
socket_lem os s domain type protocol fd i fds is h k =
    let (f, c, v, n) = pop-some s.available_fd (pos fd) fds h.fd_valid h.free_fds in
    let (g, d, w, m) = pop-some s.available_share_unit (pos i) is h.unit_valid h.free_units in
    let s1 : Hook = record s { available_fd = (pop s.available_fd).1 } in
    let s2 = (init_socket os.mutex_size s1 (pos fd) domain type protocol).1 in
    let r = init_socket_lem os.mutex_size s1 (pos fd) domain type protocol i g in
    let q = note_tinydtls-same s2 (pos fd) in
    let k2 : sock (opened os s domain type protocol fd) (pos fd) ≡ made domain type protocol i =
      ap {B = MySocket} (λ a. a fd) q.0 ∙ r.1 in
    (
      socket-ret os s domain type protocol fd i f g k,
      rw k2 (ground arith),
      k2,
      ap contents (q.1 ∙ r.3) ∙ c,
      ap contents (q.2 ∙ r.2) ∙ d,
    )

-- With a free descriptor and no free share unit, for a type that the hook takes, `socket` returns
-- -1, but the descriptor stays off the stack, and counts as an open socket of the hook.
pub socket_leaks :
    (os : Os) (s : Hook) (domain type protocol : ℤ) (fd : ℕ) (fds : List ℤ)
    → IsValid s.available_fd
    → IsValid s.available_share_unit
    → fd ≤ 1023
    → contents s.available_fd ≡ pos fd ∷ fds
    → contents s.available_share_unit ≡ []
    → not_hook_socket_type s.server domain type protocol ≡ false
    → let s1 : Hook = record s { available_fd = (pop s.available_fd).1 } in
      let t = (init_socket os.mutex_size s1 (pos fd) domain type protocol).1 in
      (socket os s domain type protocol ≡ ret minus_one t)
      × (contents t.available_fd ≡ fds)
      × (is_valid_fd t (pos fd) ≡ true)
unfolding is_valid_fd fresh_socket socket init_socket
socket_leaks os s domain type protocol fd fds v w l e z k =
    let (f, c, x, n) = pop-some s.available_fd (pos fd) fds v e in
    let (y, d, m) = pop_refines s.available_share_unit w in
    let g : (pop s.available_share_unit).0 ≡ int_min =
      ap {A = ℤ × List ℤ} (λ p. p.0) (d ∙ ap {B = ℤ × List ℤ} pop_list z) in
    (rw (k, f, g), rw g c, rw g (ground arith))
