-- ===== src/Client/Proofs/Transfer.antt =====
-- Bytes from the client's `my_send` to the hook's `read`.
use socket_hook.Base.{
  fits_int-below, to_int-below, ◌<◌, ◌^◌, ℕ, ◌+◌, ◌-◌, ◌≤◌, min, ◌≡◌, ◌≢◌, refl, ap, ◌∙◌, ℤ, pos,
  eq_ℤ, to_ℕ, Bool, true, false, ◌||◌, ◌==◌, ==_of_ne, List, [], ◌∷◌, ◌++◌, length, take, drop,
  arith,
}
use socket_hook.ShareQueue.{stream_enqueue}
use socket_hook.ShareQueue.Stream.{IsValid, bytes, position}
use socket_hook.ShareQueue.Stream.Enqueue.{stream_enqueue_refines}
use socket_hook.Hook.State.{
  Os, Peer, ret, sock, unit_of, close_unit_of, request_queue_of, is_valid_fd, sock_dgram,
}
use socket_hook.Hook.Stream.{read, count_read}
use socket_hook.Hook.Proofs.Reading.{read_lem, delivered}
use socket_hook.Client.State.{
  Client, Result, returned, ServerMoves, cli_unit, cli_request, set_cli_request,
}
use socket_hook.Client.Transfer.{
  found, cli_wait, look_my_send, start_send_timer, put_request, my_send,
}

-- The state that `my_send` leaves, on a stream with room.
abbrev pub sent_bytes : Client → List ℕ → ℕ → Client
sent_bytes c buf len =
    let r = stream_enqueue c.memory.shm (cli_request c) buf len in
    record c { memory = record (set_cli_request c r.2) { shm = r.1 } }

-- A stream socket of the client.
abbrev pub IsStream : Client → Type 0
IsStream c = (c.socket_cli.in_use ≡ true) × (eq_ℤ c.socket_cli.type sock_dgram ≡ false)

cli_wait-found_send :
    (os : Os) (server : ServerMoves) (c : Client) (need : Bool)
    → ((cli_request c).current_size == (cli_request c).capacity) ≡ false
    → cli_wait (look_my_send os) server c need ≡ found c need
unfolding cli_wait look_my_send
cli_wait-found_send os [] c need h = rw h refl
cli_wait-found_send os (m ∷ ms) c need h = rw (cli_wait, h) refl

pub my_send-put_request :
    (os : Os) (server : ServerMoves) (c : Client) (buf : List ℕ) (len : ℕ)
    → c.socket_cli.in_use ≡ true
    → ((cli_request c).current_size == (cli_request c).capacity) ≡ false
    → my_send os server c buf len ≡ put_request c buf len
unfolding my_send start_send_timer
my_send-put_request os server c buf len u h =
    ground (arith, cli_wait-found_send os server c false h)

my_send_lem :
    (os : Os) (server : ServerMoves) (c : Client) (buf : List ℕ) (len : ℕ)
    → len < 2 ^ 31
    → IsStream c
    → IsValid (cli_request c)
    → (cli_request c).current_size ≢ (cli_request c).capacity
    → len ≤ length buf
    → let q = cli_request c in
      let n = min (q.capacity - q.current_size) len in
      position q + n ≤ q.capacity
      → let d = sent_bytes c buf len in
        (my_send os server c buf len ≡ returned (pos n) d)
        × IsValid (cli_request d)
        × (bytes d.memory.shm (cli_request d) ≡ bytes c.memory.shm q ++ take n buf)
unfolding put_request
my_send_lem os server c buf len j (u, t) w h l k =
    let q = cli_request c in
    let r = stream_enqueue c.memory.shm q buf len in
    let (b, i, x, o, p) = stream_enqueue_refines c.memory.shm q buf len w l k in
    let e : cli_request (sent_bytes c buf len) ≡ r.2 = ground arith in
    (
      my_send-put_request os server c buf len u (==_of_ne _ _ h)
          ∙ rw (t, fits_int-below len j, to_int-below len j)
              (ap {A = ℤ} {B = Result ℤ} (λ v. returned v (sent_bytes c buf len))
                (b ∙ rw (==_of_ne _ _ h) refl)),
      rw e i,
      rw e x,
    )

is_valid_fd-sent_bytes :
    (c : Client) (fd : ℤ) (buf : List ℕ) (len : ℕ)
    → is_valid_fd (sent_bytes c buf len).memory fd ≡ is_valid_fd c.memory fd
unfolding is_valid_fd
is_valid_fd-sent_bytes c fd buf len = refl

-- The socket of the client and one of the server have the same share unit.
abbrev pub Joined : Client → ℤ → Type 0
Joined c fd = unit_of c.memory fd ≡ cli_unit c

-- `my_send` of `len` bytes on a stream whose valid request queue has room, and then `read` on the
-- open socket of the server that has the same share unit, where no copy goes over the end of the
-- queue's array, neither side has shut the direction down, there is something to read and both
-- lengths are below 2 ^ 31: without a wait, `my_send` returns the number of bytes that fit, and
-- `read` returns the first `count` bytes of what was in the queue followed by the bytes sent, or
-- all if there are fewer, with their number; the rest stays in the queue.
pub my_send-read :
    (os : Os) (server : ServerMoves) (peer : Peer) (c : Client) (fd : ℤ) (buf : List ℕ)
    (len count : ℕ)
    → len < 2 ^ 31
    → count < 2 ^ 31
    → IsStream c
    → IsValid (cli_request c)
    → (cli_request c).current_size ≢ (cli_request c).capacity
    → len ≤ length buf
    → let q = cli_request c in
      let n = min (q.capacity - q.current_size) len in
      let d = sent_bytes c buf len in
      position q + n ≤ q.capacity
      → Joined c fd
      → is_valid_fd c.memory fd ≡ true
      → ((sock c.memory fd).shutdown_read || (close_unit_of c.memory fd).client_write) ≡ false
      → (cli_request d).current_size ≢ 0
      → to_ℕ (cli_request d).front + min (cli_request d).current_size count
        ≤ (cli_request d).capacity
      → let k = min (cli_request d).current_size count in
        let all = bytes c.memory.shm q ++ take n buf in
        let t = delivered (count_read d.memory fd) fd count in
        (my_send os server c buf len ≡ returned (pos n) d)
        × (read os peer d.memory fd count ≡ ret (pos k, take k all) t)
        × (bytes t.shm (request_queue_of t fd) ≡ drop k all)
my_send-read os server peer c fd buf len count g1 g2 i w h l p j v o z f =
    let d = sent_bytes c buf len in
    let (a, x, b) = my_send_lem os server c buf len g1 i w h l p in
    let e : request_queue_of d.memory fd ≡ cli_request d =
      ap {A = ℕ} (λ i. (d.memory.units i).request_queue) j in
    let (r, y, g) =
      read_lem os peer d.memory fd count g2 (is_valid_fd-sent_bytes c fd buf len ∙ v) o (rw e x)
        (rw e z) (rw e f) in
    (a, r ∙ rw (e, b) refl, g ∙ rw (e, b) refl)
