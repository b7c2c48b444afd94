-- ===== src/Client/Proofs/Receiving.antt =====
-- Bytes from the hook's `write` to the client's `my_recv`.
use socket_hook.Base.{
  fits_int-below, to_int-below, ◌<◌, ◌^◌, ℕ, ◌+◌, ◌-◌, ◌≤◌, min, ◌≡◌, ◌≢◌, refl, ap, ◌∙◌, ℤ, pos,
  minus_one, eq_ℤ, to_ℕ, Bool, true, false, ◌==◌, ==_of_ne, some, List, [], ◌∷◌, ◌++◌, length, take,
  drop, arith,
}
use socket_hook.ShareQueue.{ShareQueue, Buffer, Message, stream_dequeue}
use socket_hook.ShareQueue.Stream.{IsValid, bytes, position}
use socket_hook.ShareQueue.Stream.Dequeue.{stream_dequeue_refines}
use socket_hook.Hook.State.{Os, Peer, ret, sock, response_queue_of, is_valid_fd}
use socket_hook.Hook.Stream.{write, buffer_bytes}
use socket_hook.Hook.Proofs.Writing.{write_lem, written}
use socket_hook.Client.State.{
  Client, Result, returned, ServerMoves, cli_close, cli_response, set_cli_response,
}
use socket_hook.Client.Transfer.{found, cli_wait, look_my_recv, take_response, my_recv}
use socket_hook.Client.Proofs.Transfer.{IsStream, Joined}

-- The state that `my_recv` leaves, on a stream with bytes.
abbrev pub taken_bytes : Client → ℕ → Client
taken_bytes c len =
    let r = stream_dequeue c.memory.shm (cli_response c) len in
    record c { memory = record (set_cli_response c r.2) { shm = r.1 } }

cli_wait-found_recv :
    (os : Os) (server : ServerMoves) (c : Client) (need : Bool)
    → ((cli_response c).current_size == 0) ≡ false
    → cli_wait (look_my_recv os) server c need ≡ found c need
unfolding cli_wait look_my_recv
cli_wait-found_recv os [] c need h = rw h refl
cli_wait-found_recv os (m ∷ ms) c need h = rw (cli_wait, h) refl

my_recv-take_response :
    (os : Os) (server : ServerMoves) (c : Client) (len : ℕ) (fresh : Message)
    → c.socket_cli.in_use ≡ true
    → (cli_close c).server_write ≡ false
    → ((cli_response c).current_size == 0) ≡ false
    → my_recv os server c len fresh ≡ take_response c len fresh
unfolding my_recv
my_recv-take_response os server c len fresh u o h =
    ground (arith, cli_wait-found_recv os server c false h)

has_front : (q : ShareQueue) → IsValid q → q.current_size ≢ 0 → eq_ℤ q.front minus_one ≡ false
has_front q v h = ground arith

my_recv_lem :
    (os : Os) (server : ServerMoves) (c : Client) (len : ℕ) (fresh : Message)
    → len < 2 ^ 31
    → IsStream c
    → (cli_close c).server_write ≡ false
    → IsValid (cli_response c)
    → (cli_response c).current_size ≢ 0
    → let q = cli_response c in
      let k = min q.current_size len in
      to_ℕ q.front + k ≤ q.capacity
      → let d = taken_bytes c len in
        (my_recv os server c len fresh ≡ returned (pos k, take k (bytes c.memory.shm q)) d)
        × IsValid (cli_response d)
        × (bytes d.memory.shm (cli_response d) ≡ drop k (bytes c.memory.shm q))
unfolding take_response
my_recv_lem os server c len fresh j (u, t) o w h p =
    let q = cli_response c in
    let k = min q.current_size len in
    let r = stream_dequeue c.memory.shm q len in
    let (b, i, x, y, z) = stream_dequeue_refines c.memory.shm q len w p in
    let e : cli_response (taken_bytes c len) ≡ r.2 = ground arith in
    let b' : r.0 ≡ record { buf = some (take k (bytes c.memory.shm q)); length = k } =
      b ∙ ground (arith, has_front q w h) in
    (
      my_recv-take_response os server c len fresh u o (==_of_ne _ _ h)
          ∙ rw (t, fits_int-below len j, to_int-below len j)
              (ap {A = Buffer} {B = Result (ℤ × List ℕ)}
                (λ x. returned (pos x.length, buffer_bytes x) (taken_bytes c len)) b'),
      rw e i,
      rw e x,
    )

-- `write` of `count` bytes on an open socket of the server whose valid response queue has room, and
-- then `my_recv` of the client's stream that has the same share unit, where no copy goes over the
-- end of the queue's array, neither side has shut the direction down, there is something to receive
-- and both lengths are below 2 ^ 31: `write` returns the number of bytes that fit, and `my_recv`
-- returns the first `len` bytes of what was in the queue followed by the bytes written, or all if
-- there are fewer, with their number; the rest stays in the queue.
pub write-my_recv :
    (os : Os) (server : ServerMoves) (peer : Peer) (c : Client) (fd : ℤ) (buf : List ℕ)
    (count len : ℕ) (fresh : Message)
    → count < 2 ^ 31
    → len < 2 ^ 31
    → is_valid_fd c.memory fd ≡ true
    → (sock c.memory fd).shutdown_write ≡ false
    → let q = response_queue_of c.memory fd in
      let n = min (q.capacity - q.current_size) count in
      let d : Client = record c { memory = written c.memory fd buf count } in
      IsValid q
      → q.current_size ≢ q.capacity
      → count ≤ length buf
      → position q + n ≤ q.capacity
      → IsStream c
      → Joined d fd
      → (cli_close d).server_write ≡ false
      → (cli_response d).current_size ≢ 0
      → to_ℕ (cli_response d).front + min (cli_response d).current_size len
        ≤ (cli_response d).capacity
      → let k = min (cli_response d).current_size len in
        let all = bytes c.memory.shm q ++ take n buf in
        let t = taken_bytes d len in
        (write os peer c.memory fd buf count ≡ ret (pos n) d.memory)
        × (my_recv os server d len fresh ≡ returned (pos k, take k all) t)
        × (bytes t.memory.shm (cli_response t) ≡ drop k all)
write-my_recv os server peer c fd buf count len fresh g1 g2 v o w h l p i j y z f =
    let d : Client = record c { memory = written c.memory fd buf count } in
    let (a, x, b) = write_lem os peer c.memory fd buf count g1 v o w h l p in
    let e : response_queue_of d.memory fd ≡ cli_response d =
      ap {A = ℕ} (λ i. (d.memory.units i).response_queue) j in
    let (r, s, g) = my_recv_lem os server d len fresh g2 i y (rw⁻¹ e x) z f in
    (a, r ∙ rw⁻¹ e (rw b refl), g ∙ rw⁻¹ e (rw b refl))
