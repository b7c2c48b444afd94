-- ===== src/Hook/Proofs/Writing.antt =====
-- What `write` of the hook does with the bytes of a connection.
use socket_hook.Base.{
  fits_int-below, to_int-below, ◌<◌, ◌^◌, ℕ, ◌+◌, ◌-◌, ◌≤◌, min, ◌≡◌, ◌≢◌, refl, ap, ap₂, ◌∙◌, ℤ,
  pos, to_ℕ, true, false, ==_of_ne, List, [], ◌∷◌, ◌++◌, length, take, arith,
}
use socket_hook.ShareQueue.{ShareQueue, stream_enqueue}
use socket_hook.ShareQueue.Stream.{IsValid, bytes, position}
use socket_hook.ShareQueue.Stream.Enqueue.{stream_enqueue_refines}
use socket_hook.Hook.State.{
  Hook, Os, Peer, Outcome, MySocket, ShareUnit, ret, sock, response_queue_of, set_response_queue,
  is_valid_fd,
}
use socket_hook.Hook.Stream.{ready, look_write, write_wait, note_write, accept_bytes, write}

note_write-same :
    (s : Hook) (fd : ℤ)
    → ((note_write s fd).socket_arr ≡ s.socket_arr)
      × ((note_write s fd).units ≡ s.units)
      × ((note_write s fd).shm ≡ s.shm)
unfolding note_write
note_write-same s fd = ground arith

set_response_queue_lem :
    (s : Hook) (fd : ℤ) (q : ShareQueue) → response_queue_of (set_response_queue s fd q) fd ≡ q
set_response_queue_lem s fd q = ground arith

-- The state that `write` leaves, of an open socket with room in its response queue.
abbrev pub written : Hook → ℤ → List ℕ → ℕ → Hook
written s fd buf count =
    let r = stream_enqueue s.shm (response_queue_of s fd) buf count in
    note_write (record (set_response_queue s fd r.2) { shm = r.1 }) fd

look_write-ready :
    (s : Hook) (fd : ℤ)
    → (response_queue_of s fd).current_size ≢ (response_queue_of s fd).capacity
    → look_write s fd ≡ ready s
unfolding look_write
look_write-ready s fd h = rw (==_of_ne _ _ h)

write_wait-ready :
    (peer : Peer) (s : Hook) (fd : ℤ)
    → (response_queue_of s fd).current_size ≢ (response_queue_of s fd).capacity
    → write_wait peer s fd ≡ ready s
unfolding write_wait
write_wait-ready [] s fd h = look_write-ready s fd h
write_wait-ready (m ∷ ms) s fd h = rw (write_wait, look_write-ready s fd h)

write-accept_bytes :
    (os : Os) (peer : Peer) (s : Hook) (fd : ℤ) (buf : List ℕ) (count : ℕ)
    → is_valid_fd s fd ≡ true
    → (sock s fd).shutdown_write ≡ false
    → (response_queue_of s fd).current_size ≢ (response_queue_of s fd).capacity
    → count < 2 ^ 31
    → write os peer s fd buf count ≡ accept_bytes s fd buf count
unfolding write
write-accept_bytes os peer s fd buf count v o h n = ground (
  arith,
  fits_int-below count n,
  to_int-below count n,
  ==_of_ne (response_queue_of s fd).current_size (response_queue_of s fd).capacity h,
  write_wait-ready peer s fd h,
)

-- `write` of `count` bytes of a buffer to an open socket whose writing the server has not shut
-- down and whose valid response queue has room, where the copy ends inside the queue's array: it
-- returns the number of bytes that fit, and the queue, which stays valid, then holds exactly those
-- bytes of the buffer behind the ones that it held. `count` is below 2 ^ 31.
pub write_lem :
    (os : Os) (peer : Peer) (s : Hook) (fd : ℤ) (buf : List ℕ) (count : ℕ)
    → count < 2 ^ 31
    → is_valid_fd s fd ≡ true
    → (sock s fd).shutdown_write ≡ false
    → IsValid (response_queue_of s fd)
    → (response_queue_of s fd).current_size ≢ (response_queue_of s fd).capacity
    → count ≤ length buf
    → position (response_queue_of s fd)
        + min ((response_queue_of s fd).capacity - (response_queue_of s fd).current_size) count
      ≤ (response_queue_of s fd).capacity
    → let q = response_queue_of s fd in
      let n = min (q.capacity - q.current_size) count in
      let t = written s fd buf count in
      (write os peer s fd buf count ≡ ret (pos n) t)
      × IsValid (response_queue_of t fd)
      × (bytes t.shm (response_queue_of t fd) ≡ bytes s.shm q ++ take n buf)
unfolding accept_bytes
write_lem os peer s fd buf count j v o w h l k =
    let q = response_queue_of s fd in
    let r = stream_enqueue s.shm q buf count in
    let s1 : Hook = record (set_response_queue s fd r.2) { shm = r.1 } in
    let t = written s fd buf count in
    let (b, i, d, x, p) = stream_enqueue_refines s.shm q buf count w l k in
    let (a, u, m) = note_write-same s1 fd in
    let e : response_queue_of t fd ≡ r.2 =
      ap₂ {A = ℕ → ShareUnit} {B = ℕ → MySocket}
        (λ x y. (x (to_ℕ (y (to_ℕ fd)).share_unit_index)).response_queue) u a
      ∙ set_response_queue_lem s fd r.2 in
    (
      write-accept_bytes os peer s fd buf count v o h j
          ∙ accept_bytes_lem s fd buf count
          ∙ ap {A = ℤ} {B = Outcome ℤ} (λ c. ret c t) (b ∙ rw (==_of_ne _ _ h)),
      rw e i,
      rw (e, m) d,
    )
  where
    accept_bytes_lem :
        (s : Hook) (fd : ℤ) (buf : List ℕ) (count : ℕ)
        → accept_bytes s fd buf count
          ≡ ret (stream_enqueue s.shm (response_queue_of s fd) buf count).0 (written s fd buf count)
    accept_bytes_lem s fd buf count = refl
