-- ===== src/Hook/Proofs/Owners/Receiving.antt =====
-- `recv` leaves the owners as they were.
use socket_hook.Base.{
  fits_int, to_int, ℕ, zero, suc, ◌-◌, refl, ℤ, eq_ℤ, Bool, true, false, not, ◌&&◌, ◌||◌, ◌==◌,
  if_all, List, [], ◌∷◌,
}
use socket_hook.Base.Memory.{store}
use socket_hook.ShareQueue.{Message, stream_dequeue, datagram_dequeue}
use socket_hook.Hook.State.{
  Hook, Os, Peer, Outcome, ret, blocked, killed, sock, set_sock, close_unit_of, request_queue_of,
  set_request_queue, is_valid_fd, has_flag, o_nonblock, msg_dontwait, msg_waitall, msg_peek,
  af_inet, sock_stream, sock_dgram,
}
use socket_hook.Hook.Receive.{
  is_set, Look, filled, left, go_on, dead, failed_wait, look_timer, start_timer, look_recv,
  recv_wait, Got, recv_stream, recv_datagram, finish_recv, recv_loop, recv,
}
use socket_hook.Hook.Proofs.Cpus.{after}
use socket_hook.Hook.Proofs.Owners.Giving.{Keeps, Keeps-refl, Keeps-trans, set_sock-Keeps, alike}
use socket_hook.Hook.Proofs.Owners.Waiting.{AllKeep}
use socket_hook.Hook.Proofs.Owners.Messages.{would_block-Keeps}

abbrev pub LooksWell : Hook → Look → Type 0
LooksWell s (filled t n) = Keeps s t
LooksWell s (left v t) = Keeps s t
LooksWell s (go_on t n) = Keeps s t
LooksWell s dead = Unit {0}

-- The timer has run out.
pub failed_wait-Keeps :
    (s : Hook) (fd : ℤ)
    → Keeps s (failed_wait (set_sock s fd (record (sock s fd) { is_socket_timeout = false })) fd)
failed_wait-Keeps s fd =
    let k = record (sock s fd) { is_socket_timeout = false } in
    Keeps-trans (set_sock-Keeps s fd k refl refl) (would_block-Keeps (set_sock s fd k) fd)

look_timer-LooksWell :
    (s t : Hook) (fd : ℤ) (need : Bool) → Keeps s t → LooksWell s (look_timer t fd need)
unfolding look_timer
look_timer-LooksWell s t fd need h =
    if_all (LooksWell s) (not (sock t fd).recv_timer) h (
      if_all (LooksWell s) (sock t fd).is_socket_timeout (Keeps-trans h (failed_wait-Keeps t fd)) h)

start_timer-LooksWell : (os : Os) (s : Hook) (fd : ℤ) → LooksWell s (start_timer os s fd)
unfolding start_timer
start_timer-LooksWell os s fd =
    let k = record (sock s fd) { recv_timer = true; is_socket_timeout = false } in
    let a = set_sock-Keeps s fd k refl refl in
    if_all (LooksWell s) (not (sock s fd).recv_timer && not os.create_ok) (Keeps-refl s)
      (if_all (LooksWell s) (not os.set_ok) a (look_timer-LooksWell s (set_sock s fd k) fd true a))

look_recv-LooksWell :
    (os : Os) (s : Hook) (fd : ℤ) (need : Bool) → LooksWell s (look_recv os s fd need)
unfolding look_recv
look_recv-LooksWell os s fd need =
    let P = LooksWell s in
    if_all P (not ((request_queue_of s fd).current_size == 0)) (Keeps-refl s) (
      if_all P (close_unit_of s fd).client_write (Keeps-refl s) (
        if_all P (not need && is_set (sock s fd).recv_timeout) (start_timer-LooksWell os s fd)
          (look_timer-LooksWell s s fd need (Keeps-refl s))))

LooksWell-trans : {s t : Hook} (l : Look) → Keeps s t → LooksWell t l → LooksWell s l
LooksWell-trans (filled u n) k h = Keeps-trans k h
LooksWell-trans (left v u) k h = Keeps-trans k h
LooksWell-trans (go_on u n) k h = Keeps-trans k h
LooksWell-trans dead k h = h

-- The look at the end of the waiting loop, and the rest of the schedule.
abbrev pub WaitsWell : Hook → Look × Peer → Type 0
WaitsWell s w = LooksWell s w.0 × AllKeep w.1

-- A look, and the loop behind it.
pub looks_on :
    (s : Hook) (l : Look) (m : Hook → Hook) (ms : Peer) (f : Hook → Bool → Look × Peer)
    → LooksWell s l
    → ((t : Hook) → Keeps t (m t))
    → AllKeep ms
    → ((t : Hook) (n : Bool) → WaitsWell (m t) (f (m t) n))
    → WaitsWell s (elim l [
      | filled t n ↦ (filled t n, m ∷ ms)
      | left v t ↦ (left v t, m ∷ ms)
      | go_on t n ↦ f (m t) n
      | dead ↦ (dead, m ∷ ms)
    ])
looks_on s (filled t n) m ms f h k a g = (h, (k, a))
looks_on s (left v t) m ms f h k a g = (h, (k, a))
looks_on s (go_on t n) m ms f h k a g =
    let (x, y) = g t n in (LooksWell-trans (f (m t) n).0 (Keeps-trans h (k t)) x, y)
looks_on s dead m ms f h k a g = (tt, (k, a))

recv_wait-WaitsWell :
    (os : Os) (peer : Peer) (s : Hook) (fd : ℤ) (need : Bool)
    → AllKeep peer
    → WaitsWell s (recv_wait os peer s fd need)
unfolding recv_wait
recv_wait-WaitsWell os [] s fd need p = (look_recv-LooksWell os s fd need, tt)
recv_wait-WaitsWell os (m ∷ ms) s fd need p =
    looks_on s (look_recv os s fd need) m ms (λ t n. recv_wait os ms t fd n)
      (look_recv-LooksWell os s fd need) p.0 p.1 (λ t n. recv_wait-WaitsWell os ms (m t) fd n p.1)

recv_stream-Keeps :
    (s : Hook) (fd : ℤ) (len flags : ℕ) (g : Got) → Keeps s (recv_stream s fd len flags g).hook
unfolding recv_stream
recv_stream-Keeps s fd len flags g =
    let q = request_queue_of s fd in
    let r = stream_dequeue s.shm q (to_int (len - g.count)) in
    let t : Hook = record (set_request_queue s fd r.2) { shm = r.1 } in
    let a : Keeps s t = alike refl refl refl in
    if_all (λ (x : Got). Keeps s x.hook) (has_flag flags msg_peek) (Keeps-refl s) a

recv_datagram-Keeps :
    (s : Hook) (fd : ℤ) (len flags : ℕ) (fresh : Message) (g : Got)
    → Keeps s (recv_datagram s fd len flags fresh g).hook
unfolding recv_datagram
recv_datagram-Keeps s fd len flags fresh g =
    let q = request_queue_of s fd in
    let r = datagram_dequeue (s.messages q.message_start_offset) q fresh in
    let t : Hook = record (set_request_queue s fd r.2) {
      messages = store s.messages q.message_start_offset r.1;
    } in
    let a : Keeps s t = alike refl refl refl in
    if_all (λ (x : Got). Keeps s x.hook) (r.0.length == 0) a a

finish_recv-Keeps :
    (os : Os) (s : Hook) (fd : ℤ) (need : Bool) (g : Got)
    → Keeps s g.hook
    → Keeps s (after s (finish_recv os fd need g))
unfolding finish_recv
finish_recv-Keeps os s fd need g h =
    if_all (λ (o : Outcome (ℤ × List ℕ)). Keeps s (after s o))
      ((sock g.hook fd).recv_timer && need && not os.stop_ok) h h

round_on :
    (s : Hook) (l : Look) (round : Hook → Bool → Outcome (ℤ × List ℕ)) (bytes : List ℕ)
    → LooksWell s l
    → ((t : Hook) (n : Bool) → Keeps s t → Keeps s (after s (round t n)))
    → Keeps s (
        after s (elim l [
          | filled t n ↦ round t n
          | left v t ↦ ret (v, bytes) t
          | go_on t n ↦ blocked
          | dead ↦ killed
        ]))
round_on s (filled t n) round bytes h f = f t n h
round_on s (left v t) round bytes h f = h
round_on s (go_on t n) round bytes h f = Keeps-refl s
round_on s dead round bytes h f = Keeps-refl s

recv_loop-Keeps :
    (os : Os) (fuel : ℕ) (peer : Peer) (s : Hook) (fd : ℤ) (len flags : ℕ) (fresh : Message)
    (need : Bool) (g : Got)
    → AllKeep peer
    → Keeps s g.hook
    → Keeps s (after s (recv_loop os fuel peer fd len flags fresh need g))
unfolding recv_loop
recv_loop-Keeps os zero peer s fd len flags fresh need g p h =
    if_all (λ (o : Outcome (ℤ × List ℕ)). Keeps s (after s o)) (g.count == len)
      (finish_recv-Keeps os s fd need g h) (Keeps-refl s)
recv_loop-Keeps os (suc fuel) peer s fd len flags fresh need g p h =
    let P = λ (o : Outcome (ℤ × List ℕ)). Keeps s (after s o) in
    let w = recv_wait os peer g.hook fd need in
    let (x, y) = recv_wait-WaitsWell os peer g.hook fd need p in
    if_all P (g.count == len) (finish_recv-Keeps os s fd need g h) (
      round_on s w.0 _ g.bytes (LooksWell-trans w.0 h x) (λ t n a.
        let k = sock t fd in
        let g1 = recv_stream t fd len flags g in
        let g2 = recv_datagram t fd len flags fresh g in
        let b = Keeps-trans a (recv_stream-Keeps t fd len flags g) in
        let c = Keeps-trans a (recv_datagram-Keeps t fd len flags fresh g) in
        if_all P (eq_ℤ k.domain af_inet && eq_ℤ k.type sock_stream)
          (if_all P (not (has_flag flags msg_peek) && not (fits_int (len - g.count))) (Keeps-refl s)
            (if_all P (has_flag flags msg_waitall)
              (recv_loop-Keeps os fuel w.1 s fd len flags fresh n g1 y b)
              (finish_recv-Keeps os s fd n g1 b)))
          (if_all P (eq_ℤ k.domain af_inet && eq_ℤ k.type sock_dgram)
            (finish_recv-Keeps os s fd n g2 c) (Keeps-refl s))))

-- `recv`, whatever it returns.
pub recv-Keeps :
    (os : Os) (peer : Peer) (s : Hook) (fd : ℤ) (len flags : ℕ) (fresh : Message)
    → AllKeep peer
    → Keeps s (after s (recv os peer s fd len flags fresh))
unfolding recv
recv-Keeps os peer s fd len flags fresh p =
    let P = λ (o : Outcome (ℤ × List ℕ)). Keeps s (after s o) in
    let k = sock s fd in
    let nonblock = has_flag flags msg_dontwait || has_flag k.file_status_flags o_nonblock in
    if_all P (not (is_valid_fd s fd)) (Keeps-refl s) (
      if_all P (k.shutdown_read || (close_unit_of s fd).client_write) (Keeps-refl s) (
        if_all P (nonblock && (request_queue_of s fd).current_size == 0) (would_block-Keeps s fd) (
          recv_loop-Keeps os len peer s fd len flags fresh false
            (record { count = 0; bytes = []; hook = s }) p (Keeps-refl s))))
