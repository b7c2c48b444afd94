-- ===== src/Hook/Proofs/Closing.antt =====
-- A socket's end: `close` gives its descriptor and its share unit back.
use socket_hook.Base.{
  ℕ, ◌≤◌, ◌<◌, ◌≡◌, ap, ◌∙◌, sym, ℤ, pos, eq_ℤ, to_ℕ, Bool, true, false, not, ◌&&◌, ==_of_ne,
  if◌then◌else◌, List, ◌∷◌, length, arith,
}
use socket_hook.Base.Memory.{store}
use socket_hook.Stack.{Stack, push, pop}
use socket_hook.Stack.Laws.{IsValid, contents, push_refines, length-items, height}
use socket_hook.Hook.State.{
  Hook, Os, MySocket, ret, sock, is_valid_fd, not_hook_socket_type, is_dcmqrscp, zero_socket,
}
use socket_hook.Hook.Init.{init_socket}
use socket_hook.Hook.Sockets.{socket}
use socket_hook.Hook.Close.{close, mark_server}
use socket_hook.Hook.Proofs.Lifecycle.{
  HasFree, opened, pop-some, init_socket_lem, note_tinydtls-same, socket_lem,
}

-- A state in which fd is an open socket of the hook on share unit i, and neither is free.
pub record IsOpen (s : Hook) (fd i : ℕ) : Type 0 where
  pub valid : is_valid_fd s (pos fd) ≡ true
  pub unit : (sock s (pos fd)).share_unit_index ≡ pos i
  pub not_log : eq_ℤ (pos fd) s.log_fd ≡ false
  pub fd_stack : IsValid s.available_fd
  pub unit_stack : IsValid s.available_share_unit
  pub fd_room : length (contents s.available_fd) < s.available_fd.capacity
  pub unit_room : length (contents s.available_share_unit) < s.available_share_unit.capacity

push-room :
    (st : Stack) (x : ℤ)
    → IsValid st
    → length (contents st) < st.capacity
    → contents (push st x) ≡ x ∷ contents st
push-room st x v h =
    (push_refines st x v).1 ∙ rw (==_of_ne (length (contents st)) st.capacity (omega arith))

mark_server-same :
    (s : Hook) (fd : ℤ) (r w : Bool)
    → ((mark_server s fd r w).socket_arr ≡ s.socket_arr)
      × ((mark_server s fd r w).available_fd ≡ s.available_fd)
      × ((mark_server s fd r w).available_share_unit ≡ s.available_share_unit)
unfolding mark_server
mark_server-same s fd r w = ground arith

-- What `close` has marked in the share memory, before it gives anything back.
abbrev pub marked : Os → Hook → ℤ → Hook
marked os s fd =
    if is_dcmqrscp s.server && not (eq_ℤ s.fork_pid os.pid) then mark_server s fd true true else s

pub marked-same :
    (os : Os) (s : Hook) (fd : ℤ)
    → ((marked os s fd).socket_arr ≡ s.socket_arr)
      × ((marked os s fd).available_fd ≡ s.available_fd)
      × ((marked os s fd).available_share_unit ≡ s.available_share_unit)
marked-same os s fd = ground (arith, mark_server-same s fd true true)

-- The state that `close` leaves.
abbrev pub shut : Os → Hook → ℤ → Hook
shut os s fd =
    let s1 = marked os s fd in
    record s1 {
      available_fd = push s1.available_fd fd;
      available_share_unit = push s1.available_share_unit (sock s1 fd).share_unit_index;
      socket_arr = store s1.socket_arr (to_ℕ fd) zero_socket;
      read_count = 0;
      write_count = 0;
    }

pub close-ret :
    (os : Os) (s : Hook) (fd : ℤ)
    → eq_ℤ fd s.log_fd ≡ false
    → is_valid_fd s fd ≡ true
    → close os s fd ≡ ret (pos 0) (shut os s fd)
unfolding close
close-ret os s fd e v = rw (e, v)

-- `close` of an open socket, whose descriptor is not the log's and where the two valid stacks have
-- room, returns 0; the descriptor is no longer the hook's, and it and the share unit are on top of
-- the stacks again.
pub close_lem :
    (os : Os) (s : Hook) (fd i : ℕ)
    → IsOpen s fd i
    → let t = shut os s (pos fd) in
      (close os s (pos fd) ≡ ret (pos 0) t)
      × (is_valid_fd t (pos fd) ≡ false)
      × (sock t (pos fd) ≡ zero_socket)
      × (contents t.available_fd ≡ pos fd ∷ contents s.available_fd)
      × (contents t.available_share_unit ≡ pos i ∷ contents s.available_share_unit)
unfolding is_valid_fd
close_lem os s fd i o =
    let (a, b, c) = marked-same os s (pos fd) in
    let u : (sock (marked os s (pos fd)) (pos fd)).share_unit_index ≡ pos i =
      ap {A = ℕ → MySocket} (λ k. (k fd).share_unit_index) a ∙ o.unit in
    (
      close-ret os s (pos fd) o.not_log o.valid,
      ground arith,
      ground arith,
      rw b (push-room s.available_fd (pos fd) o.fd_stack o.fd_room),
      rw (c, u) (push-room s.available_share_unit (pos i) o.unit_stack o.unit_room),
    )

pub length-le-capacity : (st : Stack) → IsValid st → length (contents st) ≤ st.capacity
length-le-capacity st v = omega (arith, length-items st.array (height st.top), v.fits)

opened-IsOpen :
    (os : Os) (s : Hook) (domain type protocol : ℤ) (fd i : ℕ) (fds is : List ℤ)
    → HasFree s fd i fds is
    → not_hook_socket_type s.server domain type protocol ≡ false
    → eq_ℤ (pos fd) s.log_fd ≡ false
    → IsOpen (opened os s domain type protocol fd) fd i
opened-IsOpen os s domain type protocol fd i fds is h k l =
    let (f, c, v, n) = pop-some s.available_fd (pos fd) fds h.fd_valid h.free_fds in
    let (g, d, w, m) = pop-some s.available_share_unit (pos i) is h.unit_valid h.free_units in
    let s1 : Hook = record s { available_fd = (pop s.available_fd).1 } in
    let s2 = (init_socket os.mutex_size s1 (pos fd) domain type protocol).1 in
    let r = init_socket_lem os.mutex_size s1 (pos fd) domain type protocol i g in
    let q = note_tinydtls-same s2 (pos fd) in
    let t = socket_lem os s domain type protocol fd i fds is h k in
    let a : (opened os s domain type protocol fd).available_fd ≡ (pop s.available_fd).1 =
      q.1 ∙ r.3 in
    let b : (opened os s domain type protocol fd).available_share_unit
        ≡ (pop s.available_share_unit).1 =
      q.2 ∙ r.2 in
    record {
      valid = t.1;
      unit = ap {A = MySocket} (λ x. x.share_unit_index) t.2;
      not_log = rw (q.3, r.4) l;
      fd_stack = rw a v;
      unit_stack = rw b w;
      fd_room = rw a (
          omega (
            arith,
            ap length c,
            n,
            ap length h.free_fds,
            length-le-capacity s.available_fd h.fd_valid,
          ));
      unit_room = rw b (
          omega (
            arith,
            ap length d,
            m,
            ap length h.free_units,
            length-le-capacity s.available_share_unit h.unit_valid,
          ));
    }

-- With a free descriptor, which is not the log's, and a free share unit, and of a type that the
-- hook takes: opening a socket and closing it again gives back what it took. The two stacks hold
-- the same descriptors and units as before, in the same order, and the descriptor is not the
-- hook's.
pub close-socket :
    (os os' : Os) (s : Hook) (domain type protocol : ℤ) (fd i : ℕ) (fds is : List ℤ)
    → HasFree s fd i fds is
    → not_hook_socket_type s.server domain type protocol ≡ false
    → eq_ℤ (pos fd) s.log_fd ≡ false
    → let t = opened os s domain type protocol fd in
      let u = shut os' t (pos fd) in
      (socket os s domain type protocol ≡ ret (pos fd) t)
      × (close os' t (pos fd) ≡ ret (pos 0) u)
      × (contents u.available_fd ≡ contents s.available_fd)
      × (contents u.available_share_unit ≡ contents s.available_share_unit)
      × (is_valid_fd u (pos fd) ≡ false)
close-socket os os' s domain type protocol fd i fds is h k l =
    let t = socket_lem os s domain type protocol fd i fds is h k in
    let o = opened-IsOpen os s domain type protocol fd i fds is h k l in
    let c = close_lem os' (opened os s domain type protocol fd) fd i o in
    (
      t.0,
      c.0,
      c.3 ∙ ap (◌∷◌ (pos fd)) t.3 ∙ sym h.free_fds,
      c.4 ∙ ap (◌∷◌ (pos i)) t.4 ∙ sym h.free_units,
      c.1,
    )
