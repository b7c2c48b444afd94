-- ===== src/Hook/Select/Loop.antt =====
-- `select` of socket_hook.c: the message for the client, and the loops over the sets and the timer.
use socket_hook.Base.{
  ℕ, ◌+◌, ℤ, pos, minus_one, eq_ℤ, is_nonneg, is_pos, add_ℤ, true, false, not, ◌&&◌, ◌||◌, ltb,
  ◌==◌, if◌then◌else◌, Option, none, some, List, [], ◌∷◌,
}
use socket_hook.Base.Memory.{store}
use socket_hook.ShareQueue.{Message, datagram_dequeue}
use socket_hook.Hook.State.{
  Hook, Os, Peer, Outcome, ret, blocked, killed, malformed, TimeVal, request_queue_of,
  set_request_queue, send_control, is_dnsmasq, is_tinydtls,
}
use socket_hook.Hook.Select.{FdSet, Bits, get_select_nfds, hook_fd_select, update_fd_set}

-- The three sets of the caller; one may be null.
abbrev pub Sets : Type 0
Sets = Option FdSet × Option FdSet × Option FdSet

-- The n-th call of the original `select` in this call, on a number of descriptors, the sets and the
-- timeout: what it returns, and the sets as it leaves them.
abbrev pub OriginalSelect : Type 0
OriginalSelect = ℕ → ℤ → Sets → Option TimeVal → ℤ × Sets

abbrev pub Chosen : Type 0
Chosen = Outcome (ℤ × Sets)

abbrev pub zero_timeout : TimeVal
zero_timeout = record { tv_sec = pos 0; tv_usec = pos 0 }

-- The datagram at the front of the request queue is dropped, if there is one.
unfoldable pub drop_datagram : Hook → ℤ → Message → Hook
drop_datagram s fd fresh =
    let q = request_queue_of s fd in
    let o = q.message_start_offset in
    let r = datagram_dequeue (s.messages o) q fresh in
    if ltb 0 q.current_size
    then record (set_request_queue s fd r.2) { messages = store s.messages o r.1 }
    else s

-- The message that tells the client that its last datagram led to no answer.
unfoldable pub note_select : Hook → Message → Hook
unfolding drop_datagram
note_select s fresh =
    let s1 = drop_datagram s s.tinydtls_fd fresh in
    if is_tinydtls s.server && s.read_count == 1 && is_nonneg s.tinydtls_fd
    then record (send_control s1 s.tinydtls_fd malformed) { read_count = 0 }
    else s

-- The sets of the caller, the number of calls of the original `select`, and the hook's descriptors.
pub record Round : Type 0 where
  pub sets : Sets
  pub calls : ℕ
  pub hook_nfds : List ℕ
  pub normal_nfds : ℤ
  pub bits : Bits

-- One call of the original `select`, without a wait.
abbrev pub ask : OriginalSelect → Round → ℤ × Round
ask original r =
    let (v, sets) = original r.calls r.normal_nfds r.sets (some zero_timeout) in
    (v, record r { sets = sets; calls = r.calls + 1 })

-- The hook's descriptors, as they are now.
abbrev pub look : Hook → Round → ℤ × Round
look s r = let (v, b) = hook_fd_select s r.hook_nfds r.bits in (v, record r { bits = b })

abbrev pub put_back : Round → Round
put_back r = record r { sets = update_fd_set r.hook_nfds r.sets.0 r.sets.1 r.sets.2 r.bits }

-- How one round of a loop ends: with a result, or not.
pub data Turn : Type 0 where
  done : ℤ → Round → Hook → Turn
  again : Round → Turn

-- A round with other descriptors besides the hook's.
unfoldable pub mixed_turn : Os → OriginalSelect → Hook → Round → Turn
mixed_turn os original s r =
    let h = look s r in
    let first = ask original h.1 in
    let second = ask original first.1 in
    if is_pos h.0
    then (if not os.stop_ok
        then done minus_one h.1 s
        else (if eq_ℤ first.0 minus_one
            then done minus_one first.1 s
            else done (add_ℤ h.0 first.0) (put_back first.1) s))
    else (if eq_ℤ first.0 minus_one
        then done minus_one first.1 s
        else (if is_pos first.0
            then done (add_ℤ h.0 first.0) first.1 s
            else (if s.poll_timeout
                then done (if eq_ℤ second.0 minus_one then minus_one else add_ℤ h.0 second.0)
                    second.1 (record s { poll_timeout = false })
                else again first.1)))

-- A round with descriptors of the hook only. A timeout is looked for after them, and wins.
unfoldable pub hooked_turn : Os → Hook → Round → Turn
hooked_turn os s r =
    let h = look s r in
    if s.poll_timeout
    then done (pos 0) h.1 (record s { poll_timeout = false })
    else (if eq_ℤ h.0 (pos 0)
        then again h.1
        else (if not os.stop_ok
            then done minus_one h.1 s
            else done h.0 (if is_pos h.0 then put_back h.1 else h.1) s))

abbrev pub finish : ℤ → Round → Hook → Chosen
finish v r s = ret (v, r.sets) s

-- A loop, with the moves of the client and of the signal handler between its rounds.
unfoldable pub select_rounds : (Hook → Round → Turn) → Peer → Hook → Round → Chosen
select_rounds turn [] s r = elim (turn s r) [ done v q t ↦ finish v q t | again q ↦ blocked ]
select_rounds turn (m ∷ ms) s r = elim (turn s r) [
  | done v q t ↦ finish v q t
  | again q ↦ select_rounds turn ms (m s) q
]

-- The timer is created once and kept: `none` if it cannot be created or started.
unfoldable pub my_select_settimer : Os → Hook → Option Hook
my_select_settimer os s =
    if not s.poll_timer && not os.create_ok
    then none
    else (if not os.set_ok
        then none
        else some (record s { poll_timer = true; poll_timeout = false }))

-- With a timeout of 0.
unfoldable pub select_now : OriginalSelect → Hook → Round → Chosen
select_now original s r =
    let first = ask original r in
    let h = look s first.1 in
    if eq_ℤ first.0 minus_one
    then finish minus_one first.1 s
    else (if eq_ℤ h.0 minus_one
        then finish minus_one h.1 s
        else finish (add_ℤ first.0 h.0) (if is_pos h.0 then put_back h.1 else h.1) s)

-- With a timeout that is not 0.
unfoldable pub select_wait : Os → OriginalSelect → Peer → Hook → Round → Chosen
unfolding select_rounds my_select_settimer
select_wait os original peer s r =
    let failed : Hook =
      if s.poll_timer || os.create_ok
      then record s { poll_timer = true; poll_timeout = false }
      else s in
    elim (my_select_settimer os s) [
      | none ↦ finish minus_one r failed
      | some t ↦
          if is_nonneg r.normal_nfds
          then select_rounds (mixed_turn os original) peer t r
          else select_rounds (hooked_turn os) peer t r
    ]

-- The first statement reads through `timeout` for a log message: a null pointer ends the process.
-- `hook_nfds_len` is only set where there are descriptors of the hook; it is taken to be 0
-- otherwise.
unfoldable pub select :
    Os → OriginalSelect → Peer → Hook → ℕ → Sets → Option TimeVal → Message → Chosen
unfolding note_select select_now select_wait
select os original peer s nfds sets none fresh =
    if is_dnsmasq s.server then ret (original 0 (pos nfds) sets none) s else killed
select os original peer s nfds sets (some timeout) fresh =
    let s1 = note_select s fresh in
    let g = get_select_nfds s1 nfds sets.0 sets.1 sets.2 in
    let r : Round = record {
      sets = (g.readfds, g.writefds, g.exceptfds);
      calls = 0;
      hook_nfds = g.hook_nfds;
      normal_nfds = g.normal_nfds;
      bits = record {
        read_fd = g.read_hook_fd;
        write_fd = g.write_hook_fd;
        except_fd = g.except_hook_fd;
        bit_count = pos g.hook_bit_count;
      };
    } in
    if is_dnsmasq s.server
    then ret (original 0 (pos nfds) sets (some timeout)) s
    else (if eq_ℤ timeout.tv_sec (pos 0) && eq_ℤ timeout.tv_usec (pos 0)
        then select_now original s1 r
        else select_wait os original peer s1 r)
