-- ===== src/Hook/Poll.antt =====
-- `hook_fd_poll` and `get_poll_hook_nfds` of socket_hook.c.
pub mod Loop
use socket_hook.Base.{
  ℕ, ◌+◌, ℤ, is_nonneg, Bool, not, ◌&&◌, ◌||◌, ltb, ◌==◌, if◌then◌else◌, List, [], ◌∷◌,
}
use socket_hook.Hook.State.{
  Hook, sock, close_unit_of, request_queue_of, response_queue_of, is_valid_fd, has_flag,
}

abbrev pub pollin : ℕ
pollin = 1

abbrev pub pollout : ℕ
pollout = 4

-- `struct pollfd`
pub record PollFd : Type 0 where
  pub fd : ℤ
  pub events : ℕ
  pub revents : ℕ

-- The client shut a direction of the connection down, or closed it.
unfoldable pub client_closed : Hook → ℤ → Bool
client_closed s fd =
    is_nonneg (sock s fd).share_unit_index
    && ((close_unit_of s fd).client_write || (close_unit_of s fd).client_read)

-- Something to read, and room to write, for the side of the connection that fd is.
unfoldable pub can_read : Hook → ℤ → Bool
can_read s fd =
    ((sock s fd).is_server && ltb 0 (request_queue_of s fd).current_size)
    || (not (sock s fd).is_server && ltb 0 (response_queue_of s fd).current_size)

unfoldable pub can_write : Hook → ℤ → Bool
can_write s fd =
    ((sock s fd).is_server
      && ltb (response_queue_of s fd).current_size (response_queue_of s fd).capacity)
    || (not (sock s fd).is_server
        && ltb (request_queue_of s fd).current_size (request_queue_of s fd).capacity)

-- The `revents` of an entry whose connection is not closed.
unfoldable pub poll_events : Hook → PollFd → ℕ
poll_events s p =
    if (sock s p.fd).is_accept_fd
    then (if has_flag p.events pollin && ltb 0 s.connect_queue.size then pollin else 0)
    else (if has_flag p.events pollin
        then (if can_read s p.fd then pollin else 0)
        else (if has_flag p.events pollout then (if can_write s p.fd then pollout else 0) else 0))

-- The loop, with `rv` entries found ready so far: it ends at the first entry whose connection is
-- closed.
unfoldable pub hook_fd_poll_from : Hook → ℕ → List PollFd → ℕ × List PollFd
hook_fd_poll_from s rv [] = (rv, [])
hook_fd_poll_from s rv (p ∷ ps) =
    let r = poll_events s p in
    let rest = hook_fd_poll_from s (if r == 0 then rv else rv + 1) ps in
    if client_closed s p.fd
    then (rv + 1, record p { revents = p.events } ∷ ps)
    else (rest.0, record p { revents = r } ∷ rest.1)

unfoldable pub hook_fd_poll : Hook → List PollFd → ℕ × List PollFd
unfolding hook_fd_poll_from
hook_fd_poll s fds = hook_fd_poll_from s 0 fds

unfoldable pub get_poll_hook_nfds : Hook → List PollFd → ℕ
get_poll_hook_nfds s [] = 0
get_poll_hook_nfds s (p ∷ ps) = (if is_valid_fd s p.fd then 1 else 0) + get_poll_hook_nfds s ps
