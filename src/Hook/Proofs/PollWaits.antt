-- ===== src/Hook/Proofs/PollWaits.antt =====
-- That `poll` on the hook's descriptors returns, and what.
use socket_hook.Base.{
  ℕ, ◌+◌, ◌-◌, ◌≡◌, ◌≢◌, refl, sym, ap, ◌∙◌, ◌⊎◌, inl, inr, ℤ, pos, minus_one, eq_ℤ, Bool, true,
  false, not, ◌&&◌, ◌||◌, ◌==◌, if◌then◌else◌, Bool-cases, List, [], ◌∷◌, ◌++◌, length, arith,
}
use socket_hook.Hook.State.{Hook, Os, Peer, ret, is_valid_fd, is_dnsmasq, is_dcmqrscp}
use socket_hook.Hook.Poll.{
  PollFd, hook_fd_poll_from, hook_fd_poll, poll_events, client_closed, get_poll_hook_nfds,
}
use socket_hook.Hook.Poll.Loop.{
  OriginalPoll, Polled, Entries, note_poll, hooked_turn, poll_loop, poll_wait, my_poll_settimer,
  poll, done, again,
}
use socket_hook.Hook.Proofs.Reading.{eventually}

-- The entries without what they report.
abbrev pub clear : List PollFd → List PollFd
clear [] = []
clear (p ∷ ps) = record p { revents = 0 } ∷ clear ps

clear-hook_fd_poll_from :
    (s : Hook) (rv : ℕ) (ps : List PollFd) → clear (hook_fd_poll_from s rv ps).1 ≡ clear ps
unfolding hook_fd_poll_from
clear-hook_fd_poll_from s rv [] = refl
clear-hook_fd_poll_from s rv (p ∷ ps) =
    let ih = clear-hook_fd_poll_from s (if poll_events s p == 0 then rv else rv + 1) ps in
    elim (Bool-cases (client_closed s p.fd)) [ inl e ↦ rw e refl | inr e ↦ rw (e, ih) refl ]

-- What the entries reported before does not count.
hook_fd_poll_from-clear :
    (s : Hook) (rv : ℕ) (ps : List PollFd)
    → (hook_fd_poll_from s rv (clear ps)).0 ≡ (hook_fd_poll_from s rv ps).0
unfolding hook_fd_poll_from poll_events
hook_fd_poll_from-clear s rv [] = refl
hook_fd_poll_from-clear s rv (p ∷ ps) =
    let ih = hook_fd_poll_from-clear s (if poll_events s p == 0 then rv else rv + 1) ps in
    elim (Bool-cases (client_closed s p.fd)) [ inl e ↦ rw e refl | inr e ↦ rw e ih ]

hook_fd_poll-clear :
    (s : Hook) (ps qs : List PollFd)
    → clear ps ≡ clear qs
    → (hook_fd_poll s ps).0 ≡ (hook_fd_poll s qs).0
unfolding hook_fd_poll
hook_fd_poll-clear s ps qs h =
    sym (hook_fd_poll_from-clear s 0 ps)
    ∙ ap (λ x. (hook_fd_poll_from s 0 x).0) h
    ∙ hook_fd_poll_from-clear s 0 qs

-- An entry is ready, or the timer has run out, where there is one.
abbrev pub is_over : Bool → List PollFd → Hook → Bool
is_over timed fds s = not ((hook_fd_poll s fds).0 == 0) || (timed && s.poll_timeout)

-- The call returns 0 for a timeout, or the number of entries that are ready in the state that it
-- leaves, of which there are some.
abbrev pub Answered : Bool → List PollFd → Polled → Type 0
Answered timed fds o =
    (v : ℕ) × (fds' : List PollFd) × (t : Hook) × (o ≡ ret (pos v, fds') t)
    × (((v ≡ 0) × (timed ≡ true)) ⊎ ((v ≢ 0) × (v ≡ (hook_fd_poll t fds).0)))

-- A round ends the call, or nothing is ready.
turn_cases :
    (os : Os) (timed : Bool) (s : Hook) (e : Entries)
    → os.stop_ok ≡ true
    → ((v : ℕ) × (e' : Entries) × (t : Hook) × (hooked_turn os timed s e ≡ done (pos v) e' t)
        × (((v ≡ 0) × (timed ≡ true)) ⊎ ((v ≢ 0) × (v ≡ (hook_fd_poll t e.hooked).0))))
      ⊎ ((is_over timed e.hooked s ≡ false)
          × (hooked_turn os timed s e ≡ again (record e { hooked = (hook_fd_poll s e.hooked).1 })))
unfolding hooked_turn
turn_cases os timed s e k =
    let e1 : Entries = record e { hooked = (hook_fd_poll s e.hooked).1 } in
    elim (Bool-cases (timed && s.poll_timeout)) [
      | inl a ↦ inl (0, e1, record s { poll_timeout = false }, rw a refl, inl (refl, ground arith))
      | inr a ↦ elim (Bool-cases ((hook_fd_poll s e.hooked).0 == 0)) [
        | inl b ↦ inr (rw (a, b) refl, rw (a, b) refl)
        | inr b ↦ inl (
          (hook_fd_poll s e.hooked).0,
          e1,
          s,
          rw (a, b, k) (ground arith),
          inr (ground arith, refl),
        )
      ]
    ]

is_over-clear :
    (timed : Bool) (s : Hook) (ps qs : List PollFd)
    → clear ps ≡ clear qs
    → is_over timed ps s ≡ is_over timed qs s
is_over-clear timed s ps qs h =
    ap {A = ℕ} (λ n. not (n == 0) || (timed && s.poll_timeout)) (hook_fd_poll-clear s ps qs h)

eventually-clear :
    (timed : Bool) (peer : Peer) (s : Hook) (ps qs : List PollFd)
    → clear ps ≡ clear qs
    → eventually (is_over timed ps) peer s ≡ eventually (is_over timed qs) peer s
unfolding eventually
eventually-clear timed [] s ps qs h = is_over-clear timed s ps qs h
eventually-clear timed (m ∷ ms) s ps qs h =
    rw (is_over-clear timed s ps qs h, eventually-clear timed ms (m s) ps qs h) refl

Answered-clear :
    (timed : Bool) (ps qs : List PollFd) (o : Polled)
    → clear ps ≡ clear qs
    → Answered timed ps o
    → Answered timed qs o
Answered-clear timed ps qs o h (v, fds, t, e, inl a) = (v, fds, t, e, inl a)
Answered-clear timed ps qs o h (v, fds, t, e, inr (a, b)) =
    (v, fds, t, e, inr (a, b ∙ hook_fd_poll-clear t ps qs h))

clear-hook_fd_poll : (s : Hook) (ps : List PollFd) → clear (hook_fd_poll s ps).1 ≡ clear ps
unfolding hook_fd_poll
clear-hook_fd_poll s ps = clear-hook_fd_poll_from s 0 ps

poll_loop-Answered :
    (os : Os) (timed : Bool) (peer : Peer) (s : Hook) (e : Entries)
    → os.stop_ok ≡ true
    → eventually (is_over timed e.hooked) peer s ≡ true
    → Answered timed e.hooked (poll_loop (hooked_turn os timed) peer s e)
unfolding poll_loop eventually
poll_loop-Answered os timed [] s e k h = elim (turn_cases os timed s e k) [
  | inl (v, e', t, d, a) ↦ (v, e'.normal ++ e'.hooked, t, rw (poll_loop, d) refl, a)
  | inr (a, d) ↦ absurd (ground arith)
]
poll_loop-Answered os timed (m ∷ ms) s e k h = elim (turn_cases os timed s e k) [
  | inl (v, e', t, d, a) ↦ (v, e'.normal ++ e'.hooked, t, rw (poll_loop, d) refl, a)
  | inr (a, d) ↦
      let e1 : Entries = record e { hooked = (hook_fd_poll s e.hooked).1 } in
      let c : clear e1.hooked ≡ clear e.hooked = clear-hook_fd_poll s e.hooked in
      let i : eventually (is_over timed e1.hooked) ms (m s) ≡ true =
        eventually-clear timed ms (m s) e1.hooked e.hooked c ∙ ground arith in
      rw (poll_loop, d)
        (Answered-clear timed e1.hooked e.hooked _ c (poll_loop-Answered os timed ms (m s) e1 k i))
]

-- The state in which the loop begins, and whether there is a timeout.
abbrev pub begun : Hook → ℤ → Hook
begun s timeout =
    if eq_ℤ timeout minus_one
    then note_poll s
    else record (note_poll s) { poll_timeout = false; poll_timer = true }

abbrev pub is_timed : ℤ → Bool
is_timed timeout = not (eq_ℤ timeout minus_one)

is_valid_fd-note_poll : (s : Hook) (fd : ℤ) → is_valid_fd (note_poll s) fd ≡ is_valid_fd s fd
unfolding is_valid_fd note_poll
is_valid_fd-note_poll s fd = ground arith

get_poll_hook_nfds-note_poll :
    (s : Hook) (fds : List PollFd) → get_poll_hook_nfds (note_poll s) fds ≡ get_poll_hook_nfds s fds
unfolding get_poll_hook_nfds
get_poll_hook_nfds-note_poll s [] = refl
get_poll_hook_nfds-note_poll s (p ∷ ps) =
    rw (get_poll_hook_nfds-note_poll s ps, is_valid_fd-note_poll s p.fd) refl

-- The loop that `poll` gets to.
poll-poll_loop :
    (os : Os) (original : OriginalPoll) (peer : Peer) (s : Hook) (fds : List PollFd) (timeout : ℤ)
    → (is_dnsmasq s.server || is_dcmqrscp s.server) ≡ true
    → get_poll_hook_nfds s fds ≡ length fds
    → os.create_ok ≡ true
    → os.set_ok ≡ true
    → eq_ℤ timeout (pos 0) ≡ false
    → poll os original peer s fds timeout
      ≡ poll_loop
          (hooked_turn os (is_timed timeout))
          peer
          (begun s timeout)
          (record { normal = []; hooked = fds; calls = 0 })
unfolding poll poll_wait my_poll_settimer hooked_turn
poll-poll_loop os original peer s fds timeout v n c a z =
    let g : length fds - get_poll_hook_nfds (note_poll s) fds ≡ 0 =
      omega (arith, get_poll_hook_nfds-note_poll s fds) in
    let w : (not (is_dnsmasq s.server) && not (is_dcmqrscp s.server)) ≡ false = ground arith in
    elim (Bool-cases (eq_ℤ timeout minus_one)) [
      | inl b ↦ rw (w, z, b, g) refl
      | inr b ↦ rw (w, z, b, c, a, g) refl
    ]

-- `poll` of one of the hook's two servers on entries that are all of the hook's descriptors, where
-- the timer works, with a timeout that is not 0: if, in the schedule of the moves of the client and
-- of the signal handler, an entry comes to be ready or the timer runs out, then `poll` returns; it
-- returns 0, for a timeout that is not -1, or the number of entries that `hook_fd_poll` finds in
-- the state that it leaves, which is not 0.
pub poll-Answered :
    (os : Os) (original : OriginalPoll) (peer : Peer) (s : Hook) (fds : List PollFd) (timeout : ℤ)
    → (is_dnsmasq s.server || is_dcmqrscp s.server) ≡ true
    → get_poll_hook_nfds s fds ≡ length fds
    → os.create_ok ≡ true
    → os.set_ok ≡ true
    → os.stop_ok ≡ true
    → eq_ℤ timeout (pos 0) ≡ false
    → eventually (is_over (is_timed timeout) fds) peer (begun s timeout) ≡ true
    → Answered (is_timed timeout) fds (poll os original peer s fds timeout)
poll-Answered os original peer s fds timeout v n c a k z h =
    rw (poll-poll_loop os original peer s fds timeout v n c a z)
      (poll_loop-Answered os (is_timed timeout) peer (begun s timeout) _ k h)
