-- ===== src/Hook/Options.antt =====
-- The names, options and flags of a socket: `getsockname`, `getpeername`, `setsockopt`,
-- `getsockopt`, `fcntl`, `fcntl64` and `ioctl` of socket_hook.c.
use socket_hook.Base.{ℕ, ℤ, pos, Bool, not, ◌&&◌, ◌||◌, ◌==◌, if◌then◌else◌, Option, none, some}
use socket_hook.Queue.{SockAddr}
use socket_hook.Hook.State.{Hook, Os, Outcome, ret, exited, TimeVal, sock, set_sock, is_valid_fd}

-- Where an address is given back, `none` says that the hook leaves it to the original function.
unfoldable pub getsockname : Os → Hook → ℤ → Outcome (ℤ × Option SockAddr)
getsockname os s fd =
    if not (is_valid_fd s fd)
    then ret (os.original, none) s
    else ret (pos 0, some (sock s fd).addr) s

unfoldable pub getpeername : Os → Hook → ℤ → Outcome (ℤ × Option SockAddr)
getpeername os s fd =
    if not (is_valid_fd s fd)
    then ret (os.original, none) s
    else ret (pos 0, some (sock s fd).peer_addr) s

abbrev pub so_error : ℕ
so_error = 4

abbrev pub so_rcvtimeo : ℕ
so_rcvtimeo = 20

abbrev pub so_sndtimeo : ℕ
so_sndtimeo = 21

-- `tv` is what `optval` points to, read as a timeval.
unfoldable pub setsockopt : Os → Hook → ℤ → ℕ → TimeVal → Outcome ℤ
setsockopt os s fd optname tv =
    let s1 =
      if optname == so_sndtimeo
      then set_sock s fd (record (sock s fd) { send_timeout = tv })
      else s in
    let s2 =
      if optname == so_rcvtimeo
      then set_sock s1 fd (record (sock s1 fd) { recv_timeout = tv })
      else s1 in
    if not (is_valid_fd s fd) then ret os.original s else ret (pos 0) s2

-- With the int that `optval` points to afterwards, where the hook writes it.
unfoldable pub getsockopt : Os → Hook → ℤ → ℕ → Outcome (ℤ × Option ℕ)
getsockopt os s fd optname =
    if not (is_valid_fd s fd)
    then ret (os.original, none) s
    else (if optname == so_error
        then ret (pos 0, some (if (sock s fd).has_error then s.errno else 0)) s
        else ret (pos 0, none) s)

abbrev pub f_getfd : ℕ
f_getfd = 1

abbrev pub f_setfd : ℕ
f_setfd = 2

abbrev pub f_getfl : ℕ
f_getfl = 3

abbrev pub f_setfl : ℕ
f_setfl = 4

-- `flags` is the argument behind `cmd`, where there is one. `fcntl64` has the same body.
unfoldable pub fcntl : Os → Hook → ℤ → ℕ → ℕ → Outcome ℤ
fcntl os s fd cmd flags =
    if not (is_valid_fd s fd)
    then (if cmd == f_getfd || cmd == f_setfd || cmd == f_getfl || cmd == f_setfl
        then ret os.original s
        else exited 999)
    else (if cmd == f_getfl
        then ret (pos (sock s fd).file_status_flags) s
        else (if cmd == f_setfl
            then ret (pos 0) (set_sock s fd (record (sock s fd) { file_status_flags = flags }))
            else exited 999))

unfoldable pub fcntl64 : Os → Hook → ℤ → ℕ → ℕ → Outcome ℤ
unfolding fcntl
fcntl64 os s fd cmd flags = fcntl os s fd cmd flags

-- SIOCGIFNAME, SIOCGIFFLAGS, SIOCGIFADDR, SIOCGIFMTU, SIOCGIFINDEX, SIOCGSTAMP and SIOCSARP
unfoldable pub is_known_request : ℕ → Bool
is_known_request r =
    r == 0x8910
    || r == 0x8913
    || r == 0x8915
    || r == 0x8921
    || r == 0x8933
    || r == 0x8906
    || r == 0x8955

unfoldable pub ioctl : Os → Hook → ℤ → ℕ → Outcome ℤ
unfolding is_known_request
ioctl os s fd request =
    if not (is_valid_fd s fd) && is_known_request request then ret os.original s else ret (pos 0) s
