-- ===== src/ShareQueue/Stream/RoundTrip.antt =====
-- What one side of a share unit writes is what the other reads.
use socket_hook.Base.{
  ℕ, ◌+◌, ◌-◌, ◌≤◌, ◌<◌, min, ◌≡◌, refl, ap, ◌∙◌, pos, minus_one, to_ℕ, some, List, length, take,
  ◌++◌, ap₂, take-all, ==_of_ne, arith,
}
use socket_hook.Base.Memory.{window}
use socket_hook.ShareQueue.{ShareQueue, Shm, Buffer, stream_enqueue, stream_dequeue}
use socket_hook.ShareQueue.Stream.{IsValid, bytes, position}
use socket_hook.ShareQueue.Stream.Enqueue.{stream_enqueue_refines, stream_enqueue_front}
use socket_hook.ShareQueue.Stream.Dequeue.{taken-some, stream_dequeue_refines, stream_dequeue_all}

-- A block of bytes that is written to an empty queue, and is no longer than the queue's capacity,
-- is accepted whole; a read that asks for as many bytes or more then returns the block, and leaves
-- the queue empty and with no ends, as it was.
pub write_read :
    (shm : Shm) (q : ShareQueue) (c : List ℕ) (len : ℕ)
    → IsValid q
    → q.front ≡ minus_one
    → 0 < length c
    → length c ≤ q.capacity
    → length c ≤ len
    → let (n, shm', q') = stream_enqueue shm q c (length c) in
      let (b, shm'', q'') = stream_dequeue shm' q' len in
      (n ≡ pos (length c))
      × (b ≡ record { buf = some c; length = length c })
      × (q''.front ≡ minus_one)
      × (q''.rear ≡ minus_one)
      × (q''.current_size ≡ 0)
write_read shm q c len v e h k l =
    let z : q.current_size ≡ 0 = ground arith in
    let n_eq : min (q.capacity - q.current_size) (length c) ≡ length c = omega arith in
    let at : position q ≡ 0 = ground arith in
    let put = stream_enqueue_refines shm q c (length c) v (omega arith) (omega arith) in
    let shm' = (stream_enqueue shm q c (length c)).1 in
    let q' = (stream_enqueue shm q c (length c)).2 in
    let (f, s) = stream_enqueue_front shm q c (length c) v (omega arith) in
    let all : min q'.current_size len ≡ length c = omega arith in
    let f' : q'.front ≡ pos 0 = ground arith in
    let get = stream_dequeue_refines shm' q' len put.1 (ground arith) in
    let (g, d, y) = stream_dequeue_all shm' q' len put.1 (omega arith) in
    let held : bytes shm' q' ≡ c =
      put.2
      ∙ ap₂
          (λ k xs. window (λ i. shm (q.message_start_offset + i)) q.capacity (to_ℕ q.front) k ++ xs)
          z (ap (λ k. take k c) n_eq ∙ take-all (length c) c (omega arith))
      ∙ unfold window in refl in
    (
      put.0 ∙ (rw (==_of_ne q.current_size q.capacity (omega arith)) (ap pos n_eq)),
      get.0
          ∙ taken-some q' (bytes shm' q') (min q'.current_size len) 0 f'
          ∙ ap₂ {C = Buffer} (λ k xs. record { buf = some (take k xs); length = k }) all held
          ∙ ap {B = Buffer} (λ xs. record { buf = some xs; length = length c })
              (take-all (length c) c (omega arith)),
      g,
      d,
      y,
    )
