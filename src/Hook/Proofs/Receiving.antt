-- ===== src/Hook/Proofs/Receiving.antt =====
-- What `recv` of the hook does with the bytes of a connection.
use socket_hook.Base.{
  not, false, fits_int-below, to_int-below, ◌<◌, ◌^◌, ◌&&◌, ℕ, zero, suc, ◌+◌, ◌-◌, ◌≤◌, min, ◌≡◌,
  ◌≢◌, refl, ap, ◌∙◌, sym, inl, inr, ℤ, pos, to_ℕ, Bool, true, false, ◌||◌, if◌then◌else◌,
  Bool-cases, ==_of_ne, List, [], ◌∷◌, take, drop, arith,
}
use socket_hook.Base.Memory
use socket_hook.ShareQueue.{ShareQueue, Buffer, Shm, Message, stream_dequeue}
use socket_hook.ShareQueue.Stream.{IsValid, bytes}
use socket_hook.ShareQueue.Stream.Dequeue.{stream_dequeue_refines, taken-some}
use socket_hook.Hook.State.{
  Hook, Os, Peer, ret, sock, close_unit_of, request_queue_of, is_valid_fd, has_flag, msg_trunc,
  msg_peek, msg_waitall, af_inet, sock_stream,
}
use socket_hook.Hook.Stream.{buffer_bytes}
use socket_hook.Hook.Receive.{
  filled, Got, look_recv, recv_wait, recv_stream, finish_recv, recv_loop, recv,
}
use socket_hook.Hook.Proofs.Reading.{delivered}

-- A connection that `recv` serves: an open stream socket, and neither side has shut the direction.
pub record CanReceive (s : Hook) (fd : ℤ) : Type 0 where
  pub valid : is_valid_fd s fd ≡ true
  pub opened : ((sock s fd).shutdown_read || (close_unit_of s fd).client_write) ≡ false
  pub inet : (sock s fd).domain ≡ af_inet
  pub stream : (sock s fd).type ≡ sock_stream

recv_wait-filled :
    (os : Os) (peer : Peer) (s : Hook) (fd : ℤ) (need : Bool)
    → (request_queue_of s fd).current_size ≢ 0
    → recv_wait os peer s fd need ≡ (filled s need, peer)
unfolding recv_wait look_recv
recv_wait-filled os [] s fd need h = rw (==_of_ne (request_queue_of s fd).current_size 0 h)
recv_wait-filled os (m ∷ ms) s fd need h =
    rw (==_of_ne (request_queue_of s fd).current_size 0 h, recv_wait) refl

has_front : (q : ShareQueue) → IsValid q → q.current_size ≢ 0 → (f : ℕ) × (q.front ≡ pos f)
has_front q v h = elim v.ends [ inl (s, e, r) ↦ absurd (h s) | inr (f, e, l, r) ↦ (f, e) ]

-- What `stream_dequeue` hands out, and what MSG_PEEK reads, are the first bytes of the queue.
handed_out :
    (shm : Shm) (q : ShareQueue) (len : ℕ)
    → IsValid q
    → q.current_size ≢ 0
    → to_ℕ q.front + min q.current_size len ≤ q.capacity
    → let n = min q.current_size len in
      ((stream_dequeue shm q len).0.length ≡ n)
      × (buffer_bytes (stream_dequeue shm q len).0 ≡ take n (bytes shm q))
      × (Memory.read shm (q.message_start_offset + to_ℕ q.front) n ≡ take n (bytes shm q))
handed_out shm q len v h k =
    let n = min q.current_size len in
    let (f, e) = has_front q v h in
    let (b, w, d, o, p) = stream_dequeue_refines shm q len v k in
    let c = b ∙ taken-some q (bytes shm q) n f e in
    let x : buffer_bytes (stream_dequeue shm q len).0 ≡ take n (bytes shm q) =
      ap {A = Buffer} buffer_bytes c in
    (ap {A = Buffer} (λ y. y.length) c, x, sym (reads shm q len f e) ∙ x)
  where
    reads :
        (shm : Shm) (q : ShareQueue) (len f : ℕ)
        → q.front ≡ pos f
        → buffer_bytes (stream_dequeue shm q len).0
          ≡ Memory.read shm (q.message_start_offset + to_ℕ q.front) (min q.current_size len)
    reads shm q len f e = unfold stream_dequeue in rw e refl

and_false : (b : Bool) → (b && false) ≡ false
and_false b = ground arith

-- One round, of a call that asks for bytes without MSG_WAITALL.
recv_loop-finish_recv :
    (os : Os) (fuel : ℕ) (peer : Peer) (s : Hook) (fd : ℤ) (flags : ℕ) (fresh : Message)
    → CanReceive s fd
    → (request_queue_of s fd).current_size ≢ 0
    → has_flag flags msg_waitall ≡ false
    → suc fuel < 2 ^ 31
    → let g : Got = record { count = 0; bytes = []; hook = s } in
      recv_loop os (suc fuel) peer fd (suc fuel) flags fresh false g
      ≡ finish_recv os fd false (recv_stream s fd (suc fuel) flags g)
unfolding recv_loop
recv_loop-finish_recv os fuel peer s fd flags fresh c h w j =
    rw
      (
        ==_of_ne 0 (suc fuel) (omega arith),
        recv_wait-filled os peer s fd false h,
        c.inet,
        c.stream,
        w,
        fits_int-below (suc fuel - 0) (omega arith),
        and_false (not (has_flag flags msg_peek)),
      )
      refl

recv-recv_loop :
    (os : Os) (peer : Peer) (s : Hook) (fd : ℤ) (len flags : ℕ) (fresh : Message)
    → CanReceive s fd
    → (request_queue_of s fd).current_size ≢ 0
    → recv os peer s fd len flags fresh
      ≡ recv_loop os len peer fd len flags fresh false (record { count = 0; bytes = []; hook = s })
unfolding recv
recv-recv_loop os peer s fd len flags fresh c h =
    ground (arith, c.valid, c.opened, ==_of_ne (request_queue_of s fd).current_size 0 h)

sub_zero : (n : ℕ) → n - 0 ≡ n
sub_zero n = omega arith

add_zero : (n : ℕ) → 0 + n ≡ n
add_zero n = omega arith

finish_recv-false :
    (os : Os) (fd : ℤ) (g : Got) → finish_recv os fd false g ≡ ret (pos g.count, g.bytes) g.hook
unfolding finish_recv
finish_recv-false os fd g = ground arith

finished :
    (os : Os) (s : Hook) (fd : ℤ) (len flags : ℕ) (xs : List ℕ)
    → has_flag flags msg_trunc ≡ false
    → len < 2 ^ 31
    → let q = request_queue_of s fd in
      let n = min q.current_size len in
      (stream_dequeue s.shm q len).0.length ≡ n
      → buffer_bytes (stream_dequeue s.shm (request_queue_of s fd) len).0 ≡ xs
      → let q = request_queue_of s fd in
        Memory.read s.shm (q.message_start_offset + to_ℕ q.front) (min q.current_size len) ≡ xs
        → let n = min (request_queue_of s fd).current_size len in
          finish_recv os fd false
            (recv_stream s fd len flags (record { count = 0; bytes = []; hook = s }))
          ≡ ret (pos n, xs) (if has_flag flags msg_peek then s else delivered s fd len)
unfolding recv_stream
finished os s fd len flags xs u j a b p = elim (Bool-cases (has_flag flags msg_peek)) [
  | inl e ↦ rw (finish_recv-false, e, sub_zero, p, add_zero) refl
  | inr e ↦ rw (finish_recv-false, e, u, sub_zero, to_int-below len j, a, b, add_zero) refl
]

-- `recv`, for 1 to 2 ^ 31 - 1 bytes and without MSG_TRUNC and MSG_WAITALL, on an open stream socket
-- where neither side has shut the direction and whose valid request queue holds bytes, where the
-- copy ends inside the queue's array: without a wait, it returns the first `len` bytes, or all if
-- there are fewer, with their number. With MSG_PEEK it changes nothing; without, those bytes are
-- then gone from the queue, which stays valid.
pub recv_lem :
    (os : Os) (peer : Peer) (s : Hook) (fd : ℤ) (len flags : ℕ) (fresh : Message)
    → CanReceive s fd
    → IsValid (request_queue_of s fd)
    → (request_queue_of s fd).current_size ≢ 0
    → to_ℕ (request_queue_of s fd).front + min (request_queue_of s fd).current_size len
      ≤ (request_queue_of s fd).capacity
    → len ≢ 0
    → len < 2 ^ 31
    → has_flag flags msg_trunc ≡ false
    → has_flag flags msg_waitall ≡ false
    → let q = request_queue_of s fd in
      let n = min q.current_size len in
      let t = delivered s fd len in
      (recv os peer s fd len flags fresh
        ≡ ret (pos n, take n (bytes s.shm q)) (if has_flag flags msg_peek then s else t))
      × IsValid (request_queue_of t fd)
      × (bytes t.shm (request_queue_of t fd) ≡ drop n (bytes s.shm q))
recv_lem os peer s fd zero flags fresh c v h k z j u w = absurd (z refl)
recv_lem os peer s fd (suc fuel) flags fresh c v h k z j u w =
    let q = request_queue_of s fd in
    let n = min q.current_size (suc fuel) in
    let t = delivered s fd (suc fuel) in
    let (a, b, p) = handed_out s.shm q (suc fuel) v h k in
    let (r, i, d, o, y) = stream_dequeue_refines s.shm q (suc fuel) v k in
    let e : request_queue_of t fd ≡ (stream_dequeue s.shm q (suc fuel)).2 = ground arith in
    let g : Got = record { count = 0; bytes = []; hook = s } in
    (
      recv-recv_loop os peer s fd (suc fuel) flags fresh c h
          ∙ recv_loop-finish_recv os fuel peer s fd flags fresh c h w j
          ∙ finished os s fd (suc fuel) flags (take n (bytes s.shm q)) u j a b p,
      rw e i,
      rw e d,
    )
