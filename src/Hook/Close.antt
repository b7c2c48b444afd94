-- ===== src/Hook/Close.antt =====
-- `close` and `shutdown` of socket_hook.c.
use socket_hook.Base.{ℕ, ◌==◌, ℤ, pos, eq_ℤ, is_nonneg, Bool, true, false, not, ◌&&◌, if◌then◌else◌}
use socket_hook.Base.Memory.{store}
use socket_hook.Stack.{push}
use socket_hook.Hook.State.{
  Hook, Os, Outcome, ret, zero_socket, sock, set_sock, close_unit_of, unit_of, is_valid_fd,
  is_dcmqrscp,
}

-- The client of fd reads that the server shut down a direction, or both.
unfoldable pub mark_server : Hook → ℤ → Bool → Bool → Hook
mark_server s fd r w =
    let c = close_unit_of s fd in
    if is_nonneg (sock s fd).share_unit_index
    then record s {
      close_arr = store s.close_arr (unit_of s fd) (record c {
        server_read = if r then true else c.server_read;
        server_write = if w then true else c.server_write;
      });
    }
    else s

-- The control socket and the timers of fd are given back to the system; that is not in the state.
unfoldable pub close : Os → Hook → ℤ → Outcome ℤ
close os s fd =
    let s1 =
      if is_dcmqrscp s.server && not (eq_ℤ s.fork_pid os.pid)
      then mark_server s fd true true
      else s in
    let s2 = record s1 {
      available_share_unit = push s1.available_share_unit (sock s1 fd).share_unit_index;
    } in
    let s3 = set_sock s2 fd zero_socket in
    if eq_ℤ fd s.log_fd
    then ret (pos 0) s
    else (if not (is_valid_fd s fd)
        then ret os.original s
        else ret (pos 0)
            (record s3 { available_fd = push s3.available_fd fd; read_count = 0; write_count = 0 }))

-- SHUT_RD, SHUT_WR and SHUT_RDWR are 0, 1 and 2; any other `how` changes nothing.
unfoldable pub shutdown : Os → Hook → ℤ → ℕ → Outcome ℤ
shutdown os s fd how =
    let k = sock s fd in
    if not (is_valid_fd s fd)
    then ret os.original s
    else (if how == 0
        then ret (pos 0)
            (mark_server (set_sock s fd (record k { shutdown_read = true })) fd true false)
        else (if how == 1
            then ret (pos 0)
                (mark_server (set_sock s fd (record k { shutdown_write = true })) fd false true)
            else (if how == 2
                then ret (pos 0) (
                    mark_server
                      (set_sock s fd (record k { shutdown_read = true; shutdown_write = true })) fd
                      true true)
                else ret (pos 0) s)))
