-- ===== src/Hook/Poll/Loop.antt =====
-- `poll` of socket_hook.c: its loops over the hook's descriptors, the others, and its timer.
use socket_hook.Base.{
  ℕ, ◌+◌, ◌-◌, ℤ, pos, minus_one, eq_ℤ, is_nonneg, is_pos, plus, Bool, true, false, not, ◌&&◌, ◌||◌,
  leb, ltb, ◌==◌, if◌then◌else◌, Option, none, some, List, [], ◌∷◌, ◌++◌, length, take, drop,
}
use socket_hook.Hook.State.{
  Hook, Os, Peer, Outcome, ret, blocked, exited, malformed, send_control, is_dnsmasq, is_dcmqrscp,
}
use socket_hook.Hook.Poll.{PollFd, hook_fd_poll, get_poll_hook_nfds}

-- The n-th call of the original `poll` in this call, with a timeout of 0: what it returns, and the
-- entries as it leaves them.
abbrev pub OriginalPoll : Type 0
OriginalPoll = ℕ → List PollFd → ℤ × List PollFd

abbrev pub Polled : Type 0
Polled = Outcome (ℤ × List PollFd)

-- The messages and counts at the start.
unfoldable pub note_poll : Hook → Hook
note_poll s =
    let s1 =
      if is_dcmqrscp s.server && leb 1 s.read_count && is_nonneg s.dcmqrscp_fd
      then record (send_control s s.dcmqrscp_fd malformed) { read_count = 0 }
      else s in
    record s1 { write_count = 0 }

-- The entries of the original `poll`, those of the hook, and the number of calls of the original
-- one.
pub record Entries : Type 0 where
  pub normal : List PollFd
  pub hooked : List PollFd
  pub calls : ℕ

-- How one round of a loop ends: with a result, or not.
pub data Turn : Type 0 where
  done : ℤ → Entries → Hook → Turn
  again : Entries → Turn

-- One call of the original `poll`.
abbrev pub ask : OriginalPoll → Entries → ℤ × Entries
ask original e =
    let r = original e.calls e.normal in (r.0, record e { normal = r.1; calls = e.calls + 1 })

-- A round with entries of both kinds; `timed` says that there is a timeout.
unfoldable pub mixed_turn : Os → OriginalPoll → Bool → Hook → Entries → Turn
mixed_turn os original timed s e =
    let h = hook_fd_poll s e.hooked in
    let e1 = record e { hooked = h.1 } in
    let r = ask original e1 in
    let r2 = ask original r.1 in
    let s1 = record s { poll_timeout = false } in
    if ltb 0 h.0
    then (if timed && not os.stop_ok
        then done minus_one e1 s
        else done (if eq_ℤ r.0 minus_one then r.0 else plus r.0 h.0) r.1 s)
    else (if eq_ℤ r.0 minus_one
        then done r.0 r.1 s
        else (if is_pos r.0
            then done (if timed && not os.stop_ok then minus_one else r.0) r.1 s
            else (if s.poll_timeout then done r2.0 r2.1 s1 else again r.1)))

-- A round with entries of the hook only. A timeout is looked for after the entries, and wins.
unfoldable pub hooked_turn : Os → Bool → Hook → Entries → Turn
hooked_turn os timed s e =
    let h = hook_fd_poll s e.hooked in
    let e1 = record e { hooked = h.1 } in
    if timed && s.poll_timeout
    then done (pos 0) e1 (record s { poll_timeout = false })
    else (if h.0 == 0
        then again e1
        else done (if timed && not os.stop_ok then minus_one else pos h.0) e1 s)

abbrev pub finish : ℤ → Entries → Hook → Polled
finish v e s = ret (v, e.normal ++ e.hooked) s

-- A loop, with the moves of the client and of the signal handler between its rounds.
unfoldable pub poll_loop : (Hook → Entries → Turn) → Peer → Hook → Entries → Polled
poll_loop turn [] s e = elim (turn s e) [ done v e' t ↦ finish v e' t | again e' ↦ blocked ]
poll_loop turn (m ∷ ms) s e = elim (turn s e) [
  | done v e' t ↦ finish v e' t
  | again e' ↦ poll_loop turn ms (m s) e'
]

-- Without a wait.
unfoldable pub poll_now : OriginalPoll → Hook → Entries → Polled
poll_now original s e =
    let r = original 0 e.normal in
    let rv : ℤ = if length e.normal == 0 then pos 0 else r.0 in
    let normal = if length e.normal == 0 then e.normal else r.1 in
    let h = hook_fd_poll s e.hooked in
    if eq_ℤ rv minus_one then ret (rv, normal ++ e.hooked) s else ret (plus rv h.0, normal ++ h.1) s

-- The timer for a timeout: `none` if it cannot be created or started.
unfoldable pub my_poll_settimer : Os → Hook → Option Hook
my_poll_settimer os s =
    if not os.create_ok
    then none
    else (if not os.set_ok
        then none
        else some (record s { poll_timeout = false; poll_timer = true }))

unfoldable pub poll_wait : Os → OriginalPoll → Peer → Hook → Entries → ℤ → Polled
unfolding poll_loop my_poll_settimer
poll_wait os original peer s e timeout =
    let timed = is_pos timeout in
    let failed =
      finish minus_one e
        (record s { poll_timeout = false; poll_timer = s.poll_timer || os.create_ok }) in
    if not (length e.normal == 0)
    then (if not timed
        then poll_loop (mixed_turn os original false) peer s e
        else elim (my_poll_settimer os s) [
          | none ↦ failed
          | some t ↦ poll_loop (mixed_turn os original true) peer t e
        ])
    else (if eq_ℤ timeout minus_one
        then poll_loop (hooked_turn os false) peer s e
        else elim (my_poll_settimer os s) [
          | none ↦ failed
          | some t ↦ poll_loop (hooked_turn os true) peer t e
        ])

-- The hook's entries are taken to be the last ones, as many as there are.
unfoldable pub poll : Os → OriginalPoll → Peer → Hook → List PollFd → ℤ → Polled
unfolding note_poll poll_now poll_wait
poll os original peer s fds timeout =
    let s1 = note_poll s in
    let n = length fds - get_poll_hook_nfds s1 fds in
    let e : Entries = record { normal = take n fds; hooked = drop n fds; calls = 0 } in
    if not (is_dnsmasq s.server) && not (is_dcmqrscp s.server)
    then exited 999
    else (if eq_ℤ timeout (pos 0)
        then poll_now original s1 e
        else poll_wait os original peer s1 e timeout)
