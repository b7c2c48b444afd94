-- ===== src/Client/Socket.antt =====
-- `my_socket`, `my_close` and `my_setsockopt` of inet_client_shm.c.
use socket_hook.Base.{ℕ, ℤ, pos, minus_one, eq_ℤ, is_nonneg, true, not, ◌==◌, if◌then◌else◌}
use socket_hook.Base.Memory.{store}
use socket_hook.Hook.State.{Hook, TimeVal, zero_socket, sock_dgram}
use socket_hook.Hook.Options.{so_sndtimeo, so_rcvtimeo}
use socket_hook.Client.State.{Client, Result, returned, cli_unit, cli_close}

-- The descriptor is always 999.
unfoldable pub my_socket : Client → ℤ → ℤ → ℤ → Result ℤ
my_socket c domain type protocol = returned (pos 999) (record c {
  socket_cli = record zero_socket {
    domain = domain;
    type = type;
    protocol = protocol;
    in_use = true;
    share_unit_index = minus_one;
    is_udp = eq_ℤ type sock_dgram;
  };
})

unfoldable pub my_close : Client → Result ℤ
my_close c =
    let closed : Hook = record c.memory {
      close_arr =
          store c.memory.close_arr (cli_unit c)
            (record (cli_close c) { client_read = true; client_write = true });
    } in
    if not c.socket_cli.in_use
    then returned minus_one c
    else returned (pos 0) (record c {
      socket_cli = zero_socket;
      memory = if is_nonneg c.socket_cli.share_unit_index then closed else c.memory;
    })

unfoldable pub my_setsockopt : Client → ℕ → TimeVal → Result ℤ
my_setsockopt c optname tv =
    let k = c.socket_cli in
    let k1 = if optname == so_sndtimeo then record k { send_timeout = tv } else k in
    let k2 = if optname == so_rcvtimeo then record k1 { recv_timeout = tv } else k1 in
    if not k.in_use then returned minus_one c else returned (pos 0) (record c { socket_cli = k2 })
