-- ===== src/Client/Timers.antt =====
-- The functions of inet_client_shm.c that set timers.
use socket_hook.Base.{ℕ, ℤ, pos, minus_one, Bool, not, Option, none, some, if◌then◌else◌}
use socket_hook.Hook.Timers.{TimeSpec, signed, SetTime, timer_value, no_value}
use socket_hook.Client.State.{Client}
use socket_hook.Client.Poll.{expiry}

unfoldable pub my_settimer : SetTime → Client → Bool → ℤ
my_settimer settime c is_send =
    let tv = if is_send then c.socket_cli.send_timeout else c.socket_cli.recv_timeout in
    if not (settime (timer_value tv)) then minus_one else pos 0

unfoldable pub my_stoptimer : SetTime → ℤ
my_stoptimer settime = if not (settime no_value) then minus_one else pos 0

-- The clock may fail. The timeout is above 0.
unfoldable pub my_poll_settimer : SetTime → Option TimeSpec → ℕ → ℤ
my_poll_settimer settime none timeout = minus_one
my_poll_settimer settime (some now) timeout =
    if not (settime (signed (expiry now timeout))) then minus_one else pos 0

unfoldable pub my_poll_stoptimer : SetTime → ℤ
my_poll_stoptimer settime = if not (settime no_value) then minus_one else pos 0
