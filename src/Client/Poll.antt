-- ===== src/Client/Poll.antt =====
-- `my_poll` of inet_client_shm.c, on the client's one socket.
use socket_hook.Base.{
  ℕ, ◌+◌, ◌*◌, ◌/◌, ◌%◌, ℤ, pos, minus_one, eq_ℤ, is_pos, to_ℕ, Bool, true, false, not, ◌&&◌, ◌||◌,
  ltb, if◌then◌else◌, bit_or, [], ◌∷◌,
}
use socket_hook.Hook.State.{Os, has_flag}
use socket_hook.Hook.Timers.{TimeSpec, signed, SetTime}
use socket_hook.Hook.Poll.{PollFd, pollin, pollout}
use socket_hook.Client.State.{
  Client, Result, returned, waiting, ServerMoves, cli_request, cli_response,
}

-- The time at which the timer is to expire. C's `/` and `%` are taken of a timeout above 0.
unfoldable pub expiry : TimeSpec → ℕ → TimeSpec
expiry now timeout = record {
  tv_sec = now.tv_sec + timeout / 1000;
  tv_nsec = now.tv_nsec + timeout % 1000 * 1000000;
}

abbrev pub has_input : Client → PollFd → Bool
has_input c p = has_flag p.events pollin && ltb 0 (cli_response c).current_size

abbrev pub has_room : Client → PollFd → Bool
has_room c p =
    has_flag p.events pollout && ltb (cli_request c).current_size (cli_request c).capacity

-- Both tests: how many hold, and the events that they add.
unfoldable pub poll_both : Client → PollFd → ℕ × PollFd
poll_both c p =
    let p1 = if has_input c p then record p { revents = bit_or p.revents pollin } else p in
    let p2 = if has_room c p then record p1 { revents = bit_or p1.revents pollout } else p1 in
    ((if has_input c p then 1 else 0) + (if has_room c p then 1 else 0), p2)

abbrev pub Polls : Type 0
Polls = Result (ℤ × PollFd)

-- The loop for a timeout of -1, which ends at the first test that holds.
unfoldable pub poll_ever : ServerMoves → Client → PollFd → Polls
poll_ever [] c p =
    if has_input c p
    then returned (pos 1, record p { revents = bit_or p.revents pollin }) c
    else (if has_room c p
        then returned (pos 1, record p { revents = bit_or p.revents pollout }) c
        else waiting)
poll_ever (m ∷ ms) c p =
    let rest = poll_ever ms (m c) p in
    if has_input c p
    then returned (pos 1, record p { revents = bit_or p.revents pollin }) c
    else (if has_room c p
        then returned (pos 1, record p { revents = bit_or p.revents pollout }) c
        else rest)

-- The loop with a timer.
unfoldable pub poll_timed : Os → ServerMoves → Client → PollFd → Polls
unfolding poll_both
poll_timed os [] c p =
    let (n, q) = poll_both c p in
    let d : Client = record c { socket_cli = record c.socket_cli { is_socket_timeout = false } } in
    if ltb 0 n
    then returned (if os.stop_ok then pos n else minus_one, q) c
    else (if c.socket_cli.is_socket_timeout then returned (pos 0, q) d else waiting)
poll_timed os (m ∷ ms) c p =
    let (n, q) = poll_both c p in
    let d : Client = record c { socket_cli = record c.socket_cli { is_socket_timeout = false } } in
    let rest = poll_timed os ms (m c) q in
    if ltb 0 n
    then returned (if os.stop_ok then pos n else minus_one, q) c
    else (if c.socket_cli.is_socket_timeout then returned (pos 0, q) d else rest)

-- The start of the timer: what is returned if that fails.
unfoldable pub poll_later : Os → SetTime → TimeSpec → ServerMoves → Client → PollFd → ℤ → Polls
unfolding poll_timed expiry
poll_later os settime now server c p timeout =
    let k = c.socket_cli in
    let d : Client = record c {
      socket_cli = record k { poll_timer = true; is_socket_timeout = false };
    } in
    if not (is_pos timeout)
    then poll_timed os server c p
    else (if not k.poll_timer && not os.create_ok
        then returned (minus_one, p) c
        else (if not (settime (signed (expiry now (to_ℕ timeout))))
            then returned (minus_one, p) d
            else poll_timed os server d p))

unfoldable pub my_poll : Os → SetTime → TimeSpec → ServerMoves → Client → PollFd → ℤ → Polls
unfolding poll_both poll_ever poll_later
my_poll os settime now server c p timeout =
    let p1 : PollFd = record p { revents = 0 } in
    let r = poll_both c p1 in
    if not c.socket_cli.in_use
    then returned (minus_one, p) c
    else (if eq_ℤ timeout minus_one
        then poll_ever server c p1
        else (if eq_ℤ timeout (pos 0) || ltb 0 r.0
            then returned (pos r.0, r.1) c
            else poll_later os settime now server c r.1 timeout))
