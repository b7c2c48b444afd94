-- ===== src/Client/Proofs/Timeouts.antt =====
-- The timeouts of the client's `my_recv` and `my_poll`.
use socket_hook.Base.{
  ℕ, ◌+◌, ◌*◌, ◌%◌, ◌≤◌, ◌≡◌, ◌≢◌, refl, ◌∙◌, ℤ, pos, minus_one, Bool, true, false, not, ◌&&◌, ◌==◌,
  ==_of_ne, Bool-cases, inl, inr, [], ◌∷◌, ◌++◌, arith,
}
use socket_hook.ShareQueue.{Message}
use socket_hook.Hook.State.{Os, ewouldblock}
use socket_hook.Hook.Receive.{is_set}
use socket_hook.Hook.Poll.{PollFd}
use socket_hook.Client.State.{
  Client, returned, ServerMoves, my_signal_handler, cli_close, cli_response,
}
use socket_hook.Client.Transfer.{
  Seen, gave_up, not_yet, timed_out, cli_wait, look_timeout, start_recv_timer, look_my_recv,
  my_recv,
}
use socket_hook.Hook.Timers.{TimeSpec, signed, SetTime}
use socket_hook.Client.Poll.{expiry, has_input, has_room, poll_both, poll_later, my_poll}

-- There is nothing to receive, and the server may still write.
abbrev pub is_quiet : Client → Bool
is_quiet c = (cli_response c).current_size == 0 && not (cli_close c).server_write

-- Moves that leave the client's socket as it is, and bring nothing.
abbrev pub AllQuiet : ServerMoves → Type 0
AllQuiet [] = Unit {0}
AllQuiet (m ∷ ms) =
    ((c : Client) → ((m c).socket_cli ≡ c.socket_cli) × (is_quiet (m c) ≡ is_quiet c)) × AllQuiet ms

-- The timer runs, and has not run out.
abbrev Runs : Client → Type 0
Runs c = (c.socket_cli.recv_timer ≡ true) × (c.socket_cli.is_socket_timeout ≡ false)

look_my_recv-Runs :
    (os : Os) (c : Client) → Runs c → is_quiet c ≡ true → look_my_recv os c true ≡ not_yet c true
unfolding look_my_recv start_recv_timer look_timeout
look_my_recv-Runs os c (t, o) q = ground arith

look_my_recv-my_signal_handler :
    (os : Os) (c : Client)
    → c.socket_cli.recv_timer ≡ true
    → is_quiet c ≡ true
    → look_my_recv os (my_signal_handler c) true
      ≡ gave_up minus_one (timed_out (my_signal_handler c))
unfolding look_my_recv start_recv_timer look_timeout
look_my_recv-my_signal_handler os c t q = ground arith

cli_wait-step :
    (look : Client → Bool → Seen) (m : Client → Client) (server : ServerMoves) (c d : Client)
    (need n : Bool)
    → look c need ≡ not_yet d n
    → cli_wait look (m ∷ server) c need ≡ cli_wait look server (m d) n
unfolding cli_wait
cli_wait-step look m server c d need n h = rw (cli_wait, h) refl

cli_wait-end :
    (look : Client → Bool → Seen) (server : ServerMoves) (c d : Client) (need : Bool) (v : ℤ)
    → look c need ≡ gave_up v d
    → cli_wait look server c need ≡ gave_up v d
unfolding cli_wait
cli_wait-end look [] c d need v h = h
cli_wait-end look (m ∷ ms) c d need v h = rw (cli_wait, h) refl

-- A wait with a running timer gives up with the signal.
cli_wait-gave_up :
    (os : Os) (quiet server : ServerMoves) (c : Client)
    → AllQuiet quiet
    → Runs c
    → is_quiet c ≡ true
    → (d : Client) × (cli_wait (look_my_recv os) (quiet ++ my_signal_handler ∷ server) c true
        ≡ gave_up minus_one d)
      × (d.errno ≡ ewouldblock)
cli_wait-gave_up os [] server c a r q =
    let d = my_signal_handler c in
    (
      timed_out d,
      cli_wait-step (look_my_recv os) my_signal_handler server c c true true
            (look_my_recv-Runs os c r q)
          ∙ cli_wait-end (look_my_recv os) server d (timed_out d) true minus_one
              (look_my_recv-my_signal_handler os c r.0 q),
      refl,
    )
cli_wait-gave_up os (m ∷ ms) server c a (t, o) q =
    let (k, e) = a.0 c in
    let (d, f, g) = cli_wait-gave_up os ms server (m c) a.1 (rw k t, rw k o) (e ∙ q) in
    (
      d,
      cli_wait-step (look_my_recv os) m (ms ++ my_signal_handler ∷ server) c c true true
            (look_my_recv-Runs os c (t, o) q)
          ∙ f,
      g,
    )

my_recv-gave_up :
    (os : Os) (server : ServerMoves) (c d : Client) (len : ℕ) (fresh : Message) (v : ℤ)
    → c.socket_cli.in_use ≡ true
    → (cli_close c).server_write ≡ false
    → cli_wait (look_my_recv os) server c false ≡ gave_up v d
    → my_recv os server c len fresh ≡ returned (v, []) d
unfolding my_recv
my_recv-gave_up os server c d len fresh v u w h = rw (h, u, w) refl

-- The first look starts the timer.
abbrev started : Client → Client
started c = record c {
  socket_cli = record c.socket_cli { recv_timer = true; is_socket_timeout = false };
}

look_my_recv-started :
    (os : Os) (c : Client)
    → os.create_ok ≡ true
    → os.set_ok ≡ true
    → is_set c.socket_cli.recv_timeout ≡ true
    → is_quiet c ≡ true
    → look_my_recv os c false ≡ not_yet (started c) true
unfolding look_my_recv start_recv_timer look_timeout
look_my_recv-started os c k s t q = ground arith

-- `my_recv` of the client's open socket with a receive timeout, where the timer can be started,
-- there is nothing to receive and the server has not shut its writing down: if the server brings
-- nothing until the signal of the timer comes, `my_recv` returns -1 with EWOULDBLOCK, whatever the
-- server does later.
pub my_recv-my_signal_handler :
    (os : Os) (m : Client → Client) (quiet server : ServerMoves) (c : Client) (len : ℕ)
    (fresh : Message)
    → c.socket_cli.in_use ≡ true
    → os.create_ok ≡ true
    → os.set_ok ≡ true
    → is_set c.socket_cli.recv_timeout ≡ true
    → is_quiet c ≡ true
    → AllQuiet (m ∷ quiet)
    → (d : Client) × (my_recv os (m ∷ quiet ++ my_signal_handler ∷ server) c len fresh
        ≡ returned (minus_one, []) d)
      × (d.errno ≡ ewouldblock)
my_recv-my_signal_handler os m quiet server c len fresh u k s t q a =
    let d = started c in
    let (x, y) = a.0 d in
    let r : Runs (m d) = rw x (refl, refl) in
    let (z, f, g) = cli_wait-gave_up os quiet server (m d) a.1 r (y ∙ q) in
    let w : (cli_close c).server_write ≡ false = ground arith in
    let e =
      cli_wait-step (look_my_recv os) m (quiet ++ my_signal_handler ∷ server) c d false true
        (look_my_recv-started os c k s t q)
      ∙ f in
    (z, my_recv-gave_up os _ c z len fresh minus_one u w e, g)

poll_later-refused :
    (os : Os) (settime : SetTime) (now : TimeSpec) (server : ServerMoves) (c : Client) (p : PollFd)
    (timeout : ℕ)
    → settime (signed (expiry now timeout)) ≡ false
    → timeout ≢ 0
    → (d : Client) × (poll_later os settime now server c p (pos timeout)
        ≡ returned (minus_one, p) d)
unfolding poll_later
poll_later-refused os settime now server c p timeout e z =
    elim (Bool-cases (not c.socket_cli.poll_timer && not os.create_ok)) [
      | inl b ↦ (c, rw (==_of_ne timeout 0 z, b) refl)
      | inr b ↦ (
        record c {
          socket_cli = record c.socket_cli { poll_timer = true; is_socket_timeout = false };
        },
        rw (==_of_ne timeout 0 z, b, e) refl,
      )
    ]

my_poll-poll_later :
    (os : Os) (settime : SetTime) (now : TimeSpec) (server : ServerMoves) (c : Client) (p : PollFd)
    (timeout : ℕ)
    → c.socket_cli.in_use ≡ true
    → timeout ≢ 0
    → has_input c p ≡ false
    → has_room c p ≡ false
    → my_poll os settime now server c p (pos timeout)
      ≡ poll_later os settime now server c (record p { revents = 0 }) (pos timeout)
unfolding my_poll poll_both
my_poll-poll_later os settime now server c p timeout u z i o = ground (arith, ==_of_ne timeout 0 z)

-- `my_poll` of the client with a timeout above 0, where nothing is ready: if the clock's
-- nanoseconds and those of the timeout make a second or more, then it returns -1 at once, although
-- the timer would work, since `timer_settime` refuses a time with that many nanoseconds.
pub my_poll-refused :
    (os : Os) (settime : SetTime) (now : TimeSpec) (server : ServerMoves) (c : Client) (p : PollFd)
    (timeout : ℕ)
    → ((t : TimeSpec) → 1000000000 ≤ t.tv_nsec → settime (signed t) ≡ false)
    → c.socket_cli.in_use ≡ true
    → timeout ≢ 0
    → has_input c p ≡ false
    → has_room c p ≡ false
    → 1000000000 ≤ now.tv_nsec + timeout % 1000 * 1000000
    → (d : Client) × (my_poll os settime now server c p (pos timeout)
        ≡ returned (minus_one, record p { revents = 0 }) d)
unfolding expiry
my_poll-refused os settime now server c p timeout h u z i o l =
    let (d, e) =
      poll_later-refused os settime now server c (record p { revents = 0 }) timeout (h _ l) z in
    (d, my_poll-poll_later os settime now server c p timeout u z i o ∙ e)
