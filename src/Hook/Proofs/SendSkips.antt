-- ===== src/Hook/Proofs/SendSkips.antt =====
-- What `send` of the hook leaves out where a block fits only in part.
use socket_hook.Base.{
  ℕ, ◌+◌, ◌-◌, ◌*◌, ◌/◌, ◌≤◌, ◌<◌, min, ◌≡◌, refl, ap, ◌∙◌, ℤ, pos, Bool, true, false, ==_of_ne,
  Option, none, some, List, [], ◌∷◌, ◌++◌, length, take, drop, length-append, length-take,
  length-drop, to_ℕ, ==_iff, arith,
}
use socket_hook.Base.Memory.{length-window}
use socket_hook.ShareQueue.{ShareQueue, Shm, stream_enqueue}
use socket_hook.ShareQueue.Stream.{bytes, position}
use socket_hook.ShareQueue.Stream.Enqueue.{stream_enqueue_refines}
use socket_hook.Hook.State.{
  Hook, Os, Peer, ret, blocked, wait, sock, response_queue_of, has_flag, msg_more, lo_mss,
}
use socket_hook.Hook.Send.{is_full, put_bytes, or_zero, send_rest, send_blocks, send_stream, send}
use socket_hook.Hook.Proofs.Sending.{CanSend, not_full, send-wait_and_put, wait_and_put-send_stream}

-- The bytes that the queue of fd can still take.
abbrev pub free : Hook → ℤ → ℕ
free s fd = (response_queue_of s fd).capacity - (response_queue_of s fd).current_size

abbrev pub queued : Hook → ℤ → List ℕ
queued s fd = bytes s.shm (response_queue_of s fd)

length-bytes : (shm : Shm) (q : ShareQueue) → length (bytes shm q) ≡ q.current_size
length-bytes shm q =
    length-window (λ i. shm (q.message_start_offset + i)) q.capacity (to_ℕ q.front) q.current_size

-- One block, which may fit in part.
put_bytes_lem :
    (s : Hook) (fd : ℤ) (buf : List ℕ) (size : ℕ)
    → CanSend s fd
    → size ≤ length buf
    → position (response_queue_of s fd) + min (free s fd) size ≤ (response_queue_of s fd).capacity
    → let r = put_bytes s fd buf size in
      (r.0 ≡ pos (min (free s fd) size))
      × (queued r.1 fd ≡ queued s fd ++ take (min (free s fd) size) buf)
      × (free s fd ≤ size → is_full r.1 fd ≡ true)
put_bytes_lem s fd buf size c l p =
    let q = response_queue_of s fd in
    let (b, v, d, o, k) = stream_enqueue_refines s.shm q buf size c.queue l p in
    let e : response_queue_of (put_bytes s fd buf size).1 fd ≡ (stream_enqueue s.shm q buf size).2 =
      ground arith in
    let r = stream_enqueue s.shm q buf size in
    let m = min (free s fd) size in
    (
      b ∙ rw (==_of_ne q.current_size q.capacity c.room) refl,
      rw e d,
      λ f.
          let a = length-append (bytes s.shm q) (take m buf) in
          let z : r.2.current_size ≡ r.2.capacity = omega (
            arith,
            ap length d,
            a,
            length-bytes r.1 r.2,
            length-bytes s.shm q,
            length-take m buf,
            k.0,
            c.queue.size_in,
          ) in
          rw e ((==_iff r.2.current_size r.2.capacity).1 z),
    )

-- The loop waits for the client's next move.
wait_one :
    (busy : Hook → Bool) (m : Hook → Hook) (peer : Peer) (s : Hook)
    → busy s ≡ true
    → busy (m s) ≡ false
    → wait busy (m ∷ peer) s ≡ some (m s, peer)
unfolding wait
wait_one busy m [] s h k = rw (h, k) refl
wait_one busy m (n ∷ ns) s h k = rw (h, k) refl

-- The second and last block.
send_rest-one :
    (m : Hook → Hook) (peer : Peer) (s : Hook) (fd : ℤ) (buf : List ℕ) (total count n : ℕ)
    → let r = put_bytes (m s) fd (drop lo_mss buf) (total - lo_mss) in
      is_full s fd ≡ true
      → is_full (m s) fd ≡ false
      → r.0 ≡ pos n
      → send_rest (m ∷ peer) s fd buf total count 1 1 ≡ some (count + n, r.1)
unfolding send_rest
send_rest-one m peer s fd buf total count n f e k =
    let r = put_bytes (m s) fd (drop lo_mss buf) (total - lo_mss) in
    let z : total - 1 * lo_mss ≡ total - lo_mss = omega arith in
    ap {A = Option (Hook × Peer)}
      (λ w. elim w [
        | none ↦ none
        | some (t, rest) ↦
            let q = put_bytes t fd (drop (1 * lo_mss) buf) (total - 1 * lo_mss) in
            some (count + or_zero q.0, q.1)
      ])
      (wait_one (λ t. is_full t fd) m peer s f e)
    ∙ rw z (rw k refl)

send_stream-send_blocks :
    (peer : Peer) (s : Hook) (fd : ℤ) (buf : List ℕ) (len flags : ℕ)
    → (sock s fd).msg_more_buf ≡ none
    → has_flag flags msg_more ≡ false
    → send_stream peer s fd buf len flags ≡ send_blocks peer s fd buf len 0
unfolding send_stream
send_stream-send_blocks peer s fd buf len flags n m = rw (n, m) refl

send_blocks-two :
    (m : Hook → Hook) (peer : Peer) (s : Hook) (fd : ℤ) (buf : List ℕ) (total a b : ℕ)
    → lo_mss ≤ total
    → total < 2 * lo_mss
    → let t1 = (put_bytes s fd buf lo_mss).1 in
      let r = put_bytes (m t1) fd (drop lo_mss buf) (total - lo_mss) in
      (put_bytes s fd buf lo_mss).0 ≡ pos a
      → is_full t1 fd ≡ true
      → is_full (m t1) fd ≡ false
      → r.0 ≡ pos b
      → send_blocks (m ∷ peer) s fd buf total 0 ≡ ret (pos (a + b)) r.1
unfolding send_blocks
send_blocks-two m peer s fd buf total a b l u h f e k =
    let t1 = (put_bytes s fd buf lo_mss).1 in
    let i : min total lo_mss ≡ lo_mss = omega arith in
    let z : total / lo_mss ≡ 1 = omega arith in
    let c : or_zero (put_bytes s fd buf lo_mss).0 - 0 ≡ a = omega (arith, ap or_zero h) in
    let w =
      send_rest-one m peer t1 fd buf total (or_zero (put_bytes s fd buf lo_mss).0 - 0) b f e k in
    rw (i, z)
      (ap {A = Option (ℕ × Hook)} (λ o. elim o [ none ↦ blocked | some (n, t) ↦ ret (pos n) t ]) w
        ∙ rw c refl)

-- `send` without MSG_MORE of `len` bytes, two blocks, on an open stream socket that keeps nothing
-- from before, where the valid response queue takes fewer bytes than a block, in one copy that ends
-- inside its array, and where after the client's next move it takes all of the second block in the
-- same way: the queue gets as many bytes of the first block as it takes, and then the second block.
-- The bytes of `buf` between the two are not sent, and the sum of both counts is returned.
pub send-skips :
    (os : Os) (m : Hook → Hook) (peer : Peer) (s : Hook) (fd : ℤ) (buf : List ℕ) (len flags : ℕ)
    → CanSend s fd
    → (sock s fd).msg_more_buf ≡ none
    → has_flag flags msg_more ≡ false
    → lo_mss ≤ len
    → len < 2 * lo_mss
    → len ≤ length buf
    → free s fd < lo_mss
    → position (response_queue_of s fd) + free s fd ≤ (response_queue_of s fd).capacity
    → let t1 = (put_bytes s fd buf lo_mss).1 in
      let t2 = m t1 in
      let t = (put_bytes t2 fd (drop lo_mss buf) (len - lo_mss)).1 in
      CanSend t2 fd
      → len - lo_mss ≤ free t2 fd
      → position (response_queue_of t2 fd) + (len - lo_mss) ≤ (response_queue_of t2 fd).capacity
      → (send os (m ∷ peer) s fd buf len flags ≡ ret (pos (free s fd + (len - lo_mss))) t)
        × (queued t1 fd ≡ queued s fd ++ take (free s fd) buf)
        × (queued t fd ≡ queued t2 fd ++ take (len - lo_mss) (drop lo_mss buf))
send-skips os m peer s fd buf len flags c n w l u b f p c2 f2 p2 =
    let t1 = (put_bytes s fd buf lo_mss).1 in
    let t2 = m t1 in
    let i : min (free s fd) lo_mss ≡ free s fd = omega arith in
    let j : min (free t2 fd) (len - lo_mss) ≡ len - lo_mss = omega arith in
    let (x, y, z) = put_bytes_lem s fd buf lo_mss c (omega arith) (rw i p) in
    let (x2, y2, z2) =
      put_bytes_lem t2 fd (drop lo_mss buf) (len - lo_mss) c2
        (omega (arith, length-drop lo_mss buf)) (rw j p2) in
    (
      send-wait_and_put os (m ∷ peer) s fd buf len flags c
          ∙ wait_and_put-send_stream os (m ∷ peer) s fd buf len flags c
          ∙ send_stream-send_blocks (m ∷ peer) s fd buf len flags n w
          ∙ send_blocks-two m peer s fd buf len (free s fd) (len - lo_mss) l u (x ∙ ap pos i)
              (z (omega arith)) (not_full t2 fd c2) (x2 ∙ ap pos j),
      y ∙ ap (λ k. queued s fd ++ take k buf) i,
      y2 ∙ ap (λ k. queued t2 fd ++ take k (drop lo_mss buf)) j,
    )
