-- ===== src/Hook/Proofs/Reading.antt =====
-- What `read` of the hook does with the bytes of a connection, and that it ends.
use socket_hook.Base.{
  fits_int, to_int, fits_int-below, to_int-below, ◌<◌, ◌^◌, ℕ, ◌+◌, ◌≤◌, min, ◌≡◌, ◌≢◌, ap, ap₂,
  ◌∙◌, ℤ, pos, minus_one, eq_ℤ, to_ℕ, Bool, true, false, not, ◌&&◌, ◌||◌, ◌==◌, if◌then◌else◌,
  ==_of_ne, some, List, [], ◌∷◌, take, drop, arith,
}
use socket_hook.ShareQueue.{ShareQueue, Buffer, Shm, stream_dequeue}
use socket_hook.ShareQueue.Stream.{IsValid, bytes}
use socket_hook.ShareQueue.Stream.Dequeue.{stream_dequeue_refines}
use socket_hook.Hook.State.{
  Hook, Os, Peer, Outcome, MySocket, ShareUnit, ret, blocked, exited, killed, sock, close_unit_of,
  request_queue_of, set_request_queue, is_valid_fd, has_flag, o_nonblock, set_sock, ewouldblock,
}
use socket_hook.Hook.Stream.{
  Waited, ready, closed, still, dead, count_read, look_read, read_wait, deliver, read, buffer_bytes,
}

-- The counting of reads touches no connection.
count_read-same :
    (s : Hook) (fd : ℤ)
    → ((count_read s fd).socket_arr ≡ s.socket_arr)
      × ((count_read s fd).units ≡ s.units)
      × ((count_read s fd).shm ≡ s.shm)
      × ((count_read s fd).close_arr ≡ s.close_arr)
unfolding count_read
count_read-same s fd = ground arith

-- The test holds now, or after some of the client's moves.
unfoldable pub eventually : (Hook → Bool) → Peer → Hook → Bool
eventually test [] s = test s
eventually test (m ∷ ms) s = test s || eventually test ms (m s)

-- There are bytes to read, or the client closed.
abbrev pub readable : ℤ → Hook → Bool
readable fd s = not ((request_queue_of s fd).current_size == 0) || (close_unit_of s fd).client_write

look_read-ready :
    (s : Hook) (fd : ℤ) → (request_queue_of s fd).current_size ≢ 0 → look_read s fd ≡ ready s
unfolding look_read
look_read-ready s fd h = rw (==_of_ne (request_queue_of s fd).current_size 0 h)

read_wait-ready :
    (peer : Peer) (s : Hook) (fd : ℤ)
    → (request_queue_of s fd).current_size ≢ 0
    → read_wait peer s fd ≡ ready s
unfolding read_wait
read_wait-ready [] s fd h = look_read-ready s fd h
read_wait-ready (m ∷ ms) s fd h = rw (read_wait, look_read-ready s fd h)

-- What a wait that ends has come to.
abbrev pub HasEnded : Waited → Type 0
HasEnded (ready t) = Unit {0}
HasEnded (closed t) = Unit {0}
HasEnded still = ⊥
HasEnded dead = ⊥

look_read-HasEnded : (s : Hook) (fd : ℤ) → readable fd s ≡ true → HasEnded (look_read s fd)
unfolding look_read
look_read-HasEnded s fd h = ground arith

read_wait-HasEnded :
    (peer : Peer) (s : Hook) (fd : ℤ)
    → eventually (readable fd) peer s ≡ true
    → HasEnded (read_wait peer s fd)
unfolding read_wait eventually look_read
read_wait-HasEnded [] s fd h = look_read-HasEnded s fd h
read_wait-HasEnded (m ∷ ms) s fd h = ground (arith, read_wait-HasEnded ms (m s) fd)

-- The call has returned.
abbrev pub Returned {ℓ} : {A : Type ℓ} → Outcome A → Type 0
Returned (ret a t) = Unit {0}
Returned blocked = ⊥
Returned (exited n) = ⊥
Returned killed = ⊥

finish_read :
    (a b : Bool) (w : Waited) (x y : Outcome (ℤ × List ℕ)) (f g : Hook → Outcome (ℤ × List ℕ))
    → HasEnded w
    → Returned x
    → Returned y
    → ((t : Hook) → Returned (f t))
    → ((t : Hook) → Returned (g t))
    → Returned (
        if a
        then x
        else (if b
            then y
            else elim w [ ready t ↦ f t | closed t ↦ g t | still ↦ blocked | dead ↦ killed ]))
finish_read true b w x y f g e i j k l = i
finish_read false true w x y f g e i j k l = j
finish_read false false (ready t) x y f g e i j k l = k t
finish_read false false (closed t) x y f g e i j k l = l t
finish_read false false still x y f g e i j k l = e
finish_read false false dead x y f g e i j k l = absurd e

-- `read` does not wait for ever: if, in the schedule of the client's moves, there come bytes into
-- the request queue or the client closes its direction, then `read` of an open socket, for less
-- than 2 ^ 31 bytes, returns.
pub read-Returned :
    (os : Os) (peer : Peer) (s : Hook) (fd : ℤ) (count : ℕ)
    → count < 2 ^ 31
    → is_valid_fd s fd ≡ true
    → eventually (readable fd) peer (count_read s fd) ≡ true
    → Returned (read os peer s fd count)
unfolding read deliver
read-Returned os peer s fd count n v h =
    let s1 = count_read s fd in
    rw v (
      finish_read ((sock s fd).shutdown_read || (close_unit_of s fd).client_write)
        (has_flag (sock s fd).file_status_flags o_nonblock
          && (request_queue_of s1 fd).current_size == 0)
        (read_wait peer s1 fd) (ret (pos 0, []) s)
        (ret (minus_one, [])
          (set_sock (record s1 { errno = ewouldblock }) fd
            (record (sock s1 fd) { has_error = true })))
        (λ t. if fits_int count then deliver t fd (to_int count) else killed)
        (λ t. ret (pos 0, []) t) (read_wait-HasEnded peer s1 fd h) (tt {0}) (tt {0})
        (λ t. rw (fits_int-below count n) (tt {0})) (λ t. tt {0}))

-- The state that `deliver` leaves.
abbrev pub delivered : Hook → ℤ → ℕ → Hook
delivered s fd count =
    let r = stream_dequeue s.shm (request_queue_of s fd) count in
    record (set_request_queue s fd r.2) { shm = r.1 }

has_front : (q : ShareQueue) → IsValid q → q.current_size ≢ 0 → eq_ℤ q.front minus_one ≡ false
has_front q v h = ground arith

set_request_queue_lem :
    (s : Hook) (fd : ℤ) (q : ShareQueue) → request_queue_of (set_request_queue s fd q) fd ≡ q
set_request_queue_lem s fd q = ground arith

deliver_lem :
    (s : Hook) (fd : ℤ) (count : ℕ)
    → IsValid (request_queue_of s fd)
    → (request_queue_of s fd).current_size ≢ 0
    → to_ℕ (request_queue_of s fd).front + min (request_queue_of s fd).current_size count
      ≤ (request_queue_of s fd).capacity
    → let q = request_queue_of s fd in
      let n = min q.current_size count in
      let t = delivered s fd count in
      (deliver s fd count ≡ ret (pos n, take n (bytes s.shm q)) t)
      × IsValid (request_queue_of t fd)
      × (bytes t.shm (request_queue_of t fd) ≡ drop n (bytes s.shm q))
unfolding deliver
deliver_lem s fd count w h k =
    let q = request_queue_of s fd in
    let r = stream_dequeue s.shm q count in
    let (b, v, d, o, p) = stream_dequeue_refines s.shm q count w k in
    let n = min q.current_size count in
    let b' : r.0 ≡ record { buf = some (take n (bytes s.shm q)); length = n } =
      b ∙ ground (arith, has_front q w h) in
    (
      ap {A = Buffer} {B = Outcome (ℤ × List ℕ)}
          (λ x. ret (pos x.length, buffer_bytes x) (delivered s fd count)) b',
      rw (set_request_queue_lem s fd r.2) v,
      rw (set_request_queue_lem s fd r.2) d,
    )

read-deliver :
    (os : Os) (peer : Peer) (s : Hook) (fd : ℤ) (count : ℕ)
    → count < 2 ^ 31
    → is_valid_fd s fd ≡ true
    → ((sock s fd).shutdown_read || (close_unit_of s fd).client_write) ≡ false
    → (request_queue_of (count_read s fd) fd).current_size ≢ 0
    → read os peer s fd count ≡ deliver (count_read s fd) fd count
unfolding read
read-deliver os peer s fd count n v o h = ground (
  arith,
  fits_int-below count n,
  to_int-below count n,
  ==_of_ne (request_queue_of (count_read s fd) fd).current_size 0 h,
  read_wait-ready peer (count_read s fd) fd h,
)

-- `read` of an open socket whose reading the server has not shut down, nor the client its writing,
-- and whose valid request queue holds bytes, where the copy ends inside the queue's array: it
-- returns the first `count` bytes, or all if there are fewer, with their number, without a wait and
-- whichever server it is; those bytes are then gone from the queue, which stays valid. `count` is
-- below 2 ^ 31.
pub read_lem :
    (os : Os) (peer : Peer) (s : Hook) (fd : ℤ) (count : ℕ)
    → count < 2 ^ 31
    → is_valid_fd s fd ≡ true
    → ((sock s fd).shutdown_read || (close_unit_of s fd).client_write) ≡ false
    → IsValid (request_queue_of s fd)
    → (request_queue_of s fd).current_size ≢ 0
    → to_ℕ (request_queue_of s fd).front + min (request_queue_of s fd).current_size count
      ≤ (request_queue_of s fd).capacity
    → let q = request_queue_of s fd in
      let n = min q.current_size count in
      let t = delivered (count_read s fd) fd count in
      (read os peer s fd count ≡ ret (pos n, take n (bytes s.shm q)) t)
      × IsValid (request_queue_of t fd)
      × (bytes t.shm (request_queue_of t fd) ≡ drop n (bytes s.shm q))
read_lem os peer s fd count j v o w h k =
    let s1 = count_read s fd in
    let q = request_queue_of s fd in
    let t = delivered s1 fd count in
    let (a, u, m, c) = count_read-same s fd in
    let e : request_queue_of s1 fd ≡ q =
      ap₂ {A = ℕ → ShareUnit} {B = ℕ → MySocket}
        (λ x y. (x (to_ℕ (y (to_ℕ fd)).share_unit_index)).request_queue) u a in
    let (d, i, b) = deliver_lem s1 fd count (rw e w) (rw e h) (rw e k) in
    (
      read-deliver os peer s fd count j v o (rw e h)
          ∙ d
          ∙ ap₂ {A = ShareQueue} {B = Shm} {C = Outcome (ℤ × List ℕ)}
              (λ x y.
                ret (pos (min x.current_size count), take (min x.current_size count) (bytes y x)) t)
              e m,
      i,
      b ∙ ap₂ {A = ShareQueue} {B = Shm} (λ x y. drop (min x.current_size count) (bytes y x)) e m,
    )
