-- ===== src/Hook/Proofs/Polling.antt =====
-- What `hook_fd_poll` counts.
use socket_hook.Base.{
  ℤ, not, ℕ, suc, ◌+◌, ◌≡◌, refl, ◌⊎◌, ◌&&◌, ltb, Bool, false, ◌==◌, if◌then◌else◌, List, [], ◌∷◌,
  arith,
}
use socket_hook.Hook.State.{Hook, has_flag, sock}
use socket_hook.Hook.Poll.{
  PollFd, client_closed, poll_events, hook_fd_poll_from, hook_fd_poll, pollin, pollout, can_read,
  can_write,
}

-- The entries that report an event.
abbrev pub count_reported : List PollFd → ℕ
count_reported [] = 0
count_reported (p ∷ ps) = if p.revents == 0 then count_reported ps else suc (count_reported ps)

-- No entry's connection is closed by the client.
abbrev pub AllOpen : Hook → List PollFd → Type 0
AllOpen s [] = Unit {0}
AllOpen s (p ∷ ps) = (client_closed s p.fd ≡ false) × AllOpen s ps

count_from :
    (s : Hook) (rv : ℕ) (ps : List PollFd)
    → AllOpen s ps
    → (hook_fd_poll_from s rv ps).0 ≡ rv + count_reported (hook_fd_poll_from s rv ps).1
unfolding hook_fd_poll_from
count_from s rv [] o = omega arith
count_from s rv (p ∷ ps) o = ground (arith, count_from s rv ps, count_from s (rv + 1) ps)

-- Something to read: on a socket that listens, a connection that waits.
abbrev pub readable : Hook → ℤ → Bool
readable s fd = if (sock s fd).is_accept_fd then ltb 0 s.connect_queue.size else can_read s fd

-- Room to write, on a socket that does not listen.
abbrev pub writable : Hook → ℤ → Bool
writable s fd = not (sock s fd).is_accept_fd && can_write s fd

-- The same entry, which reports POLLIN exactly if that was asked about and there is something to
-- read, and POLLOUT exactly if that was asked about without POLLIN and there is room to write, and
-- nothing else.
abbrev pub Asked : Hook → PollFd → PollFd → Type 0
Asked s p r =
    (r.fd ≡ p.fd)
    × (r.events ≡ p.events)
    × ((r.revents == pollin) ≡ (has_flag p.events pollin && readable s p.fd))
    × ((r.revents == pollout)
        ≡ (has_flag p.events pollout && not (has_flag p.events pollin) && writable s p.fd))
    × ((r.revents ≡ 0) ⊎ (r.revents ≡ pollin) ⊎ (r.revents ≡ pollout))

abbrev pub AllAsked : Hook → List PollFd → List PollFd → Type 0
AllAsked s [] [] = Unit {0}
AllAsked s [] (r ∷ rs) = ⊥
AllAsked s (p ∷ ps) [] = ⊥
AllAsked s (p ∷ ps) (r ∷ rs) = Asked s p r × AllAsked s ps rs

poll_events-Asked : (s : Hook) (p : PollFd) → Asked s p (record p { revents = poll_events s p })
unfolding poll_events
poll_events-Asked s p =
    let (x, y, z) =
      choose (sock s p.fd).is_accept_fd (has_flag p.events pollin) (has_flag p.events pollout)
        (ltb 0 s.connect_queue.size) (can_read s p.fd) (can_write s p.fd) in
    (refl, refl, x, y, z)
  where
    choose :
        (a i o c r w : Bool)
        → let e =
            if a
            then (if i && c then pollin else 0)
            else (if i
                then (if r then pollin else 0)
                else (if o then (if w then pollout else 0) else 0)) in
          ((e == pollin) ≡ (i && (if a then c else r)))
          × ((e == pollout) ≡ (o && not i && (not a && w)))
          × ((e ≡ 0) ⊎ (e ≡ pollin) ⊎ (e ≡ pollout))
    choose a i o c r w = (ground arith, ground arith, ground arith)

asked_from :
    (s : Hook) (rv : ℕ) (ps : List PollFd)
    → AllOpen s ps
    → AllAsked s ps (hook_fd_poll_from s rv ps).1
unfolding hook_fd_poll_from
asked_from s rv [] o = tt
asked_from s rv (p ∷ ps) o =
    rw o.0
      (poll_events-Asked s p, asked_from s (if poll_events s p == 0 then rv else rv + 1) ps o.1)

-- While the client has closed none of the connections, `hook_fd_poll` returns the number of entries
-- that report an event, and the entries that it was given, in order. An entry reports POLLIN
-- exactly if that was asked about and there is something to read (on a socket that listens, a
-- connection that waits); POLLOUT exactly if that was asked about without POLLIN and there is room
-- to write on a socket that does not listen; and nothing else.
pub hook_fd_poll_lem :
    (s : Hook) (ps : List PollFd)
    → AllOpen s ps
    → ((hook_fd_poll s ps).0 ≡ count_reported (hook_fd_poll s ps).1)
      × AllAsked s ps (hook_fd_poll s ps).1
unfolding hook_fd_poll
hook_fd_poll_lem s ps o = (omega (arith, count_from s 0 ps o), asked_from s 0 ps o)
