-- ===== src/Hook/Proofs/Owners/Polling.antt =====
-- `poll` leaves the owners as they were.
use socket_hook.Base.{
  ◌-◌, refl, ℤ, pos, minus_one, eq_ℤ, is_nonneg, is_pos, Bool, true, false, not, ◌&&◌, ◌||◌, ltb,
  leb, ◌==◌, if◌then◌else◌, if_all, List, [], ◌∷◌, Option, none, some, take, drop, length,
}
use socket_hook.Hook.State.{
  Hook, Os, Peer, blocked, is_dnsmasq, is_dcmqrscp, malformed, send_control,
}
use socket_hook.Hook.Poll.{PollFd, hook_fd_poll, get_poll_hook_nfds}
use socket_hook.Hook.Poll.Loop.{
  OriginalPoll, Polled, note_poll, Entries, Turn, done, again, ask, mixed_turn, hooked_turn, finish,
  poll_loop, poll_now, my_poll_settimer, poll_wait, poll,
}
use socket_hook.Hook.Proofs.Cpus.{after}
use socket_hook.Hook.Proofs.Owners.Giving.{Keeps, Keeps-refl, Keeps-trans, alike}
use socket_hook.Hook.Proofs.Owners.Waiting.{AllKeep}

abbrev TurnsWell : Hook → Turn → Type 0
TurnsWell s (done v e t) = Keeps s t
TurnsWell s (again e) = Unit {0}

TurnsWell-trans : {s t : Hook} (w : Turn) → Keeps s t → TurnsWell t w → TurnsWell s w
TurnsWell-trans (done v e u) k h = Keeps-trans k h
TurnsWell-trans (again e) k h = h

note_poll-Keeps : (s : Hook) → Keeps s (note_poll s)
unfolding note_poll
note_poll-Keeps s =
    let f = is_dcmqrscp s.server && leb 1 s.read_count && is_nonneg s.dcmqrscp_fd in
    let t : Hook = record (send_control s s.dcmqrscp_fd malformed) { read_count = 0 } in
    let a : Keeps s t = alike refl refl refl in
    Keeps-trans (if_all (λ (u : Hook). Keeps s u) f a (Keeps-refl s)) (alike refl refl refl)

mixed_turn-TurnsWell :
    (os : Os) (original : OriginalPoll) (timed : Bool) (s : Hook) (e : Entries)
    → TurnsWell s (mixed_turn os original timed s e)
unfolding mixed_turn
mixed_turn-TurnsWell os original timed s e =
    let P = TurnsWell s in
    let h = hook_fd_poll s e.hooked in
    let r = ask original (record e { hooked = h.1 }) in
    let a = Keeps-refl s in
    if_all P (ltb 0 h.0) (if_all P (timed && not os.stop_ok) a a) (
      if_all P (eq_ℤ r.0 minus_one) a
        (if_all P (is_pos r.0) a (if_all P s.poll_timeout (alike refl refl refl) tt)))

hooked_turn-TurnsWell :
    (os : Os) (timed : Bool) (s : Hook) (e : Entries) → TurnsWell s (hooked_turn os timed s e)
unfolding hooked_turn
hooked_turn-TurnsWell os timed s e =
    let P = TurnsWell s in
    if_all P (timed && s.poll_timeout) (alike refl refl refl)
      (if_all P ((hook_fd_poll s e.hooked).0 == 0) tt (Keeps-refl s))

-- A round, and the rest of the loop if it does not end.
turns_on :
    (s : Hook) (w : Turn) (f : Entries → Polled)
    → TurnsWell s w
    → ((e : Entries) → Keeps s (after s (f e)))
    → Keeps s (after s (elim w [ done v e t ↦ finish v e t | again e ↦ f e ]))
turns_on s (done v e t) f h k = h
turns_on s (again e) f h k = k e

poll_loop-Keeps :
    (turn : Hook → Entries → Turn) (peer : Peer) (s t : Hook) (e : Entries)
    → ((u : Hook) (d : Entries) → TurnsWell u (turn u d))
    → AllKeep peer
    → Keeps s t
    → Keeps s (after s (poll_loop turn peer t e))
unfolding poll_loop
poll_loop-Keeps turn [] s t e f p h =
    turns_on s (turn t e) (λ d. blocked) (TurnsWell-trans (turn t e) h (f t e)) (λ d. Keeps-refl s)
poll_loop-Keeps turn (m ∷ ms) s t e f p h =
    turns_on s (turn t e) (λ d. poll_loop turn ms (m t) d) (TurnsWell-trans (turn t e) h (f t e))
      (λ d. poll_loop-Keeps turn ms s (m t) d f p.1 (Keeps-trans h (p.0 t)))

poll_now-Keeps :
    (original : OriginalPoll) (s t : Hook) (e : Entries)
    → Keeps s t
    → Keeps s (after s (poll_now original t e))
unfolding poll_now
poll_now-Keeps original s t e h =
    let rv : ℤ = if length e.normal == 0 then pos 0 else (original 0 e.normal).0 in
    if_all (λ (o : Polled). Keeps s (after s o)) (eq_ℤ rv minus_one) h h

-- The timer is there, or the call fails.
timed_loop :
    (os : Os) (s t : Hook) (failed : Polled) (f : Hook → Polled)
    → Keeps s (after s failed)
    → ((u : Hook) → Keeps t u → Keeps s (after s (f u)))
    → Keeps s (after s (elim (my_poll_settimer os t) [ none ↦ failed | some u ↦ f u ]))
unfolding my_poll_settimer
timed_loop os s t failed f h k =
    let P = λ (w : Option Hook). Keeps s (after s (elim w [ none ↦ failed | some u ↦ f u ])) in
    if_all P (not os.create_ok) h (
      if_all P (not os.set_ok) h
        (k (record t { poll_timeout = false; poll_timer = true }) (alike refl refl refl)))

poll_wait-Keeps :
    (os : Os) (original : OriginalPoll) (peer : Peer) (s t : Hook) (e : Entries) (timeout : ℤ)
    → AllKeep peer
    → Keeps s t
    → Keeps s (after s (poll_wait os original peer t e timeout))
unfolding poll_wait
poll_wait-Keeps os original peer s t e timeout p h =
    let P = λ (o : Polled). Keeps s (after s o) in
    let v : Hook = record t { poll_timeout = false; poll_timer = t.poll_timer || os.create_ok } in
    let b : Keeps t v = alike refl refl refl in
    let a = Keeps-trans h b in
    let mixed = λ (timed : Bool) (u : Hook) (k : Keeps s u).
      poll_loop-Keeps (mixed_turn os original timed) peer s u e
        (mixed_turn-TurnsWell os original timed) p k in
    let hooked = λ (timed : Bool) (u : Hook) (k : Keeps s u).
      poll_loop-Keeps (hooked_turn os timed) peer s u e (hooked_turn-TurnsWell os timed) p k in
    if_all P (not (length e.normal == 0))
      (if_all P (not (is_pos timeout)) (mixed false t h) (
        timed_loop os s t (finish minus_one e v)
          (λ u. poll_loop (mixed_turn os original true) peer u e) a
          (λ u k. mixed true u (Keeps-trans h k))))
      (if_all P (eq_ℤ timeout minus_one) (hooked false t h) (
        timed_loop os s t (finish minus_one e v) (λ u. poll_loop (hooked_turn os true) peer u e) a
          (λ u k. hooked true u (Keeps-trans h k))))

-- `poll`, whatever it returns.
pub poll-Keeps :
    (os : Os) (original : OriginalPoll) (peer : Peer) (s : Hook) (fds : List PollFd) (timeout : ℤ)
    → AllKeep peer
    → Keeps s (after s (poll os original peer s fds timeout))
unfolding poll
poll-Keeps os original peer s fds timeout p =
    let P = λ (o : Polled). Keeps s (after s o) in
    let s1 = note_poll s in
    let n = length fds - get_poll_hook_nfds s1 fds in
    let e : Entries = record { normal = take n fds; hooked = drop n fds; calls = 0 } in
    let a = note_poll-Keeps s in
    if_all P (not (is_dnsmasq s.server) && not (is_dcmqrscp s.server)) (Keeps-refl s) (
      if_all P (eq_ℤ timeout (pos 0)) (poll_now-Keeps original s s1 e a)
        (poll_wait-Keeps os original peer s s1 e timeout p a))
