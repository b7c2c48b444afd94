-- ===== src/Hook/Proofs/Settings.antt =====
-- What a caller sets of a socket it gets back: its flags, its name and its peer. And the queues of
-- the handshake that the hook sets up.
use socket_hook.Base.{◌≤◌, ℕ, ◌≡◌, refl, ℤ, pos, true, false, some, [], arith}
use socket_hook.Queue.{
  SockAddr, Connection, Acception, create_queue, create_connect_queue, create_accept_queue,
}
use socket_hook.Queue.Refine.{IsValid, contents, create_queue-IsValid}
use socket_hook.Hook.State.{Hook, Os, MySocket, ret, sock, set_sock, is_valid_fd}
use socket_hook.Hook.Init.{init_connect_accept_queue}
use socket_hook.Hook.Sockets.{over_addr, copy_addr, bind, connect}
use socket_hook.Hook.Options.{getsockname, getpeername, fcntl, f_setfl, f_getfl}
use socket_hook.Hook.Proofs.Cpus.{after}

-- On an open socket, `fcntl` with F_GETFL gives the flags that `fcntl` with F_SETFL has set.
pub fcntl-fcntl :
    (os : Os) (s : Hook) (fd : ℤ) (flags : ℕ)
    → is_valid_fd s fd ≡ true
    → let t = after s (fcntl os s fd f_setfl flags) in
      (fcntl os s fd f_setfl flags ≡ ret (pos 0) t) × (fcntl os t fd f_getfl 0 ≡ ret (pos flags) t)
unfolding fcntl is_valid_fd
fcntl-fcntl os s fd flags h = ground arith

-- The state that `bind` leaves, of such a socket.
abbrev bound : Os → Hook → ℤ → SockAddr → SockAddr → ℕ → Hook
bound os s fd addr behind addrlen =
    set_sock s fd (copy_addr os (record (sock s fd) { has_bind = true }) addr behind addrlen)

copied :
    (os : Os) (k : MySocket) (addr behind : SockAddr) (addrlen : ℕ)
    → 4 ≤ addrlen
    → addrlen ≤ 32
    → ((copy_addr os k addr behind addrlen).addr ≡ addr)
      × ((copy_addr os k addr behind addrlen).is_udp ≡ k.is_udp)
      × ((copy_addr os k addr behind addrlen).in_use ≡ k.in_use)
unfolding copy_addr over_addr
copied os k addr behind addrlen l h = (ground arith, ground arith, ground arith)

bind-ret :
    (os : Os) (s : Hook) (fd : ℤ) (addr behind : SockAddr) (addrlen : ℕ)
    → 4 ≤ addrlen
    → addrlen ≤ 32
    → is_valid_fd s fd ≡ true
    → (sock s fd).is_udp ≡ false
    → bind os s fd addr behind addrlen ≡ ret (pos 0) (bound os s fd addr behind addrlen)
unfolding bind
bind-ret os s fd addr behind addrlen l m h u =
    let k : MySocket = record (sock s fd) { has_bind = true } in
    let c = copied os k addr behind addrlen l m in
    let e : (sock (bound os s fd addr behind addrlen) fd).is_udp ≡ false = ground (arith, c.1) in
    rw (h, e) refl

getsockname-bound :
    (os : Os) (s : Hook) (fd : ℤ) (addr behind : SockAddr) (addrlen : ℕ)
    → 4 ≤ addrlen
    → addrlen ≤ 32
    → is_valid_fd s fd ≡ true
    → let t = bound os s fd addr behind addrlen in getsockname os t fd ≡ ret (pos 0, some addr) t
unfolding getsockname is_valid_fd
getsockname-bound os s fd addr behind addrlen l m h =
    let k : MySocket = record (sock s fd) { has_bind = true } in
    let c = copied os k addr behind addrlen l m in ground (arith, c.0, c.2)

-- On an open socket that is not a datagram socket, `getsockname` gives the address that `bind` has
-- set, from a struct of 4 to 32 bytes.
pub getsockname-bind :
    (os : Os) (s : Hook) (fd : ℤ) (addr behind : SockAddr) (addrlen : ℕ)
    → 4 ≤ addrlen
    → addrlen ≤ 32
    → is_valid_fd s fd ≡ true
    → (sock s fd).is_udp ≡ false
    → let t = after s (bind os s fd addr behind addrlen) in
      (bind os s fd addr behind addrlen ≡ ret (pos 0) t)
      × (getsockname os t fd ≡ ret (pos 0, some addr) t)
getsockname-bind os s fd addr behind addrlen l m h u =
    rw (bind-ret os s fd addr behind addrlen l m h u)
      (refl, getsockname-bound os s fd addr behind addrlen l m h)

-- On an open socket, `getpeername` gives the address that `connect` has set.
pub getpeername-connect :
    (os : Os) (s : Hook) (fd : ℤ) (addr : SockAddr)
    → is_valid_fd s fd ≡ true
    → let t = after s (connect os s fd addr) in
      (connect os s fd addr ≡ ret (pos 0) t) × (getpeername os t fd ≡ ret (pos 0, some addr) t)
unfolding connect getpeername is_valid_fd
getpeername-connect os s fd addr h = ground arith

-- The queues of the handshake that the hook sets up in the share memory are the ones that
-- `createConnectQueue` and `createAcceptQueue` would make there; both are valid and empty.
pub init_connect_accept_queue_lem :
    (connections : ℕ → Connection) (acceptions : ℕ → Acception)
    → let r = init_connect_accept_queue connections acceptions in
      (r ≡ (create_connect_queue connections 20, create_accept_queue acceptions 10))
      × IsValid r.0
      × (contents r.0 ≡ [])
      × IsValid r.1
      × (contents r.1 ≡ [])
unfolding init_connect_accept_queue create_connect_queue create_accept_queue create_queue
init_connect_accept_queue_lem connections acceptions =
    let (v, e) = create_queue-IsValid connections 20 (omega arith) (omega arith) in
    let (w, f) = create_queue-IsValid acceptions 10 (omega arith) (omega arith) in
    (refl, v, e, w, f)
