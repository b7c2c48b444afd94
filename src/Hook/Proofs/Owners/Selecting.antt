-- ===== src/Hook/Proofs/Owners/Selecting.antt =====
-- `select` leaves the owners as they were.
use socket_hook.Base.{
  ℕ, refl, pos, minus_one, eq_ℤ, is_nonneg, is_pos, true, false, not, ◌&&◌, ◌||◌, ltb, ◌==◌,
  if◌then◌else◌, if_all, [], ◌∷◌, Option, none, some,
}
use socket_hook.Base.Memory.{store}
use socket_hook.ShareQueue.{Message, datagram_dequeue}
use socket_hook.Hook.State.{
  Hook, Os, Peer, blocked, TimeVal, malformed, is_dnsmasq, is_tinydtls, send_control,
  request_queue_of, set_request_queue,
}
use socket_hook.Hook.Select.{get_select_nfds}
use socket_hook.Hook.Select.Loop.{
  Sets, OriginalSelect, Chosen, drop_datagram, note_select, Round, ask, look, Turn, done, again,
  mixed_turn, hooked_turn, finish, select_rounds, my_select_settimer, select_now, select_wait,
  select,
}
use socket_hook.Hook.Proofs.Cpus.{after}
use socket_hook.Hook.Proofs.Owners.Giving.{Keeps, Keeps-refl, Keeps-trans, alike}
use socket_hook.Hook.Proofs.Owners.Waiting.{AllKeep}

abbrev TurnsWell : Hook → Turn → Type 0
TurnsWell s (done v r t) = Keeps s t
TurnsWell s (again r) = Unit {0}

TurnsWell-trans : {s t : Hook} (w : Turn) → Keeps s t → TurnsWell t w → TurnsWell s w
TurnsWell-trans (done v r u) k h = Keeps-trans k h
TurnsWell-trans (again r) k h = h

note_select-Keeps : (s : Hook) (fresh : Message) → Keeps s (note_select s fresh)
unfolding note_select drop_datagram
note_select-Keeps s fresh =
    let Q = λ (t : Hook). Keeps s t in
    let q = request_queue_of s s.tinydtls_fd in
    let o = q.message_start_offset in
    let r = datagram_dequeue (s.messages o) q fresh in
    let t : Hook = record (set_request_queue s s.tinydtls_fd r.2) {
      messages = store s.messages o r.1;
    } in
    let dropped = if ltb 0 q.current_size then t else s in
    let a : Keeps s t = alike refl refl refl in
    let b : Keeps s dropped = if_all Q (ltb 0 q.current_size) a (Keeps-refl s) in
    let v : Hook = record (send_control dropped s.tinydtls_fd malformed) { read_count = 0 } in
    let c : Keeps dropped v = alike refl refl refl in
    if_all Q (is_tinydtls s.server && s.read_count == 1 && is_nonneg s.tinydtls_fd)
      (Keeps-trans b c) (Keeps-refl s)

mixed_turn-TurnsWell :
    (os : Os) (original : OriginalSelect) (s : Hook) (r : Round)
    → TurnsWell s (mixed_turn os original s r)
unfolding mixed_turn
mixed_turn-TurnsWell os original s r =
    let P = TurnsWell s in
    let h = look s r in
    let first = ask original h.1 in
    let a = Keeps-refl s in
    if_all P (is_pos h.0) (if_all P (not os.stop_ok) a (if_all P (eq_ℤ first.0 minus_one) a a)) (
      if_all P (eq_ℤ first.0 minus_one) a
        (if_all P (is_pos first.0) a (if_all P s.poll_timeout (alike refl refl refl) tt)))

hooked_turn-TurnsWell : (os : Os) (s : Hook) (r : Round) → TurnsWell s (hooked_turn os s r)
unfolding hooked_turn
hooked_turn-TurnsWell os s r =
    let P = TurnsWell s in
    let a = Keeps-refl s in
    if_all P s.poll_timeout (alike refl refl refl)
      (if_all P (eq_ℤ (look s r).0 (pos 0)) tt (if_all P (not os.stop_ok) a a))

-- A round, and the rest of the loop if it does not end.
turns_on :
    (s : Hook) (w : Turn) (f : Round → Chosen)
    → TurnsWell s w
    → ((r : Round) → Keeps s (after s (f r)))
    → Keeps s (after s (elim w [ done v r t ↦ finish v r t | again r ↦ f r ]))
turns_on s (done v r t) f h k = h
turns_on s (again r) f h k = k r

select_rounds-Keeps :
    (turn : Hook → Round → Turn) (peer : Peer) (s t : Hook) (r : Round)
    → ((u : Hook) (q : Round) → TurnsWell u (turn u q))
    → AllKeep peer
    → Keeps s t
    → Keeps s (after s (select_rounds turn peer t r))
unfolding select_rounds
select_rounds-Keeps turn [] s t r f p h =
    turns_on s (turn t r) (λ q. blocked) (TurnsWell-trans (turn t r) h (f t r)) (λ q. Keeps-refl s)
select_rounds-Keeps turn (m ∷ ms) s t r f p h =
    turns_on s (turn t r) (λ q. select_rounds turn ms (m t) q)
      (TurnsWell-trans (turn t r) h (f t r))
      (λ q. select_rounds-Keeps turn ms s (m t) q f p.1 (Keeps-trans h (p.0 t)))

select_now-Keeps :
    (original : OriginalSelect) (s t : Hook) (r : Round)
    → Keeps s t
    → Keeps s (after s (select_now original t r))
unfolding select_now
select_now-Keeps original s t r h =
    let P = λ (o : Chosen). Keeps s (after s o) in
    let first = ask original r in
    if_all P (eq_ℤ first.0 minus_one) h (if_all P (eq_ℤ (look t first.1).0 minus_one) h h)

select_wait-Keeps :
    (os : Os) (original : OriginalSelect) (peer : Peer) (s t : Hook) (r : Round)
    → AllKeep peer
    → Keeps s t
    → Keeps s (after s (select_wait os original peer t r))
unfolding select_wait my_select_settimer
select_wait-Keeps os original peer s t r p h =
    let P = λ (o : Chosen). Keeps s (after s o) in
    let set : Hook = record t { poll_timer = true; poll_timeout = false } in
    let a : Keeps t set = alike refl refl refl in
    let k = Keeps-trans h a in
    let failed : Hook = if t.poll_timer || os.create_ok then set else t in
    let b : Keeps s failed = if_all (λ (u : Hook). Keeps s u) (t.poll_timer || os.create_ok) k h in
    let on = λ (u : Hook).
      if is_nonneg r.normal_nfds
      then select_rounds (mixed_turn os original) peer u r
      else select_rounds (hooked_turn os) peer u r in
    let W = λ (w : Option Hook). P (elim w [ none ↦ finish minus_one r failed | some u ↦ on u ]) in
    if_all W (not t.poll_timer && not os.create_ok) b (
      if_all W (not os.set_ok) b (
        if_all P (is_nonneg r.normal_nfds)
          (select_rounds-Keeps (mixed_turn os original) peer s set r
            (mixed_turn-TurnsWell os original) p k)
          (select_rounds-Keeps (hooked_turn os) peer s set r (hooked_turn-TurnsWell os) p k)))

-- `select`, whatever it returns.
pub select-Keeps :
    (os : Os) (original : OriginalSelect) (peer : Peer) (s : Hook) (nfds : ℕ) (sets : Sets)
    (timeout : Option TimeVal) (fresh : Message)
    → AllKeep peer
    → Keeps s (after s (select os original peer s nfds sets timeout fresh))
unfolding select
select-Keeps os original peer s nfds sets none fresh p =
    if_all (λ (o : Chosen). Keeps s (after s o)) (is_dnsmasq s.server) (Keeps-refl s) (Keeps-refl s)
select-Keeps os original peer s nfds sets (some timeout) fresh p =
    let P = λ (o : Chosen). Keeps s (after s o) in
    let s1 = note_select s fresh in
    let g = get_select_nfds s1 nfds sets.0 sets.1 sets.2 in
    let r : Round = record {
      sets = (g.readfds, g.writefds, g.exceptfds);
      calls = 0;
      hook_nfds = g.hook_nfds;
      normal_nfds = g.normal_nfds;
      bits = record {
        read_fd = g.read_hook_fd;
        write_fd = g.write_hook_fd;
        except_fd = g.except_hook_fd;
        bit_count = pos g.hook_bit_count;
      };
    } in
    let a = note_select-Keeps s fresh in
    if_all P (is_dnsmasq s.server) (Keeps-refl s) (
      if_all P (eq_ℤ timeout.tv_sec (pos 0) && eq_ℤ timeout.tv_usec (pos 0))
        (select_now-Keeps original s s1 r a) (select_wait-Keeps os original peer s s1 r p a))
