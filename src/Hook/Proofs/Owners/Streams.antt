-- ===== src/Hook/Proofs/Owners/Streams.antt =====
-- `read` and `write` leave the owners as they were.
use socket_hook.Base.{
  fits_int, to_int, ℕ, ◌+◌, refl, ℤ, pos, true, not, ◌&&◌, ◌||◌, leb, ◌==◌, if◌then◌else◌, if_all,
  List, [], ◌∷◌,
}
use socket_hook.ShareQueue.{stream_enqueue}
use socket_hook.Hook.State.{
  Hook, Os, Peer, Outcome, ret, blocked, killed, after_write, sock, close_unit_of, request_queue_of,
  response_queue_of, set_response_queue, send_control, is_valid_fd, has_flag, o_nonblock,
  ewouldblock, is_dnsmasq, is_dcmqrscp,
}
use socket_hook.Hook.Stream.{
  Waited, ready, closed, still, dead, count_read, look_read, read_wait, deliver, read, look_write,
  write_wait, note_write, accept_bytes, write,
}
use socket_hook.Hook.Proofs.Cpus.{after}
use socket_hook.Hook.Proofs.Owners.Giving.{Keeps, Keeps-refl, Keeps-trans, set_sock-Keeps, alike}
use socket_hook.Hook.Proofs.Owners.Waiting.{AllKeep}

abbrev EndsWell : Hook → Waited → Type 0
EndsWell s (ready t) = Keeps s t
EndsWell s (closed t) = Keeps s t
EndsWell s still = Unit {0}
EndsWell s dead = Unit {0}

EndsWell-trans : {s t : Hook} (w : Waited) → Keeps s t → EndsWell t w → EndsWell s w
EndsWell-trans (ready u) k h = Keeps-trans k h
EndsWell-trans (closed u) k h = Keeps-trans k h
EndsWell-trans still k h = h
EndsWell-trans dead k h = h

-- A look, and the rest of the loop if it does not end.
goes_on :
    (s : Hook) (w rest : Waited)
    → EndsWell s w
    → EndsWell s rest
    → EndsWell s (elim w [ ready t ↦ ready t | closed t ↦ closed t | still ↦ rest | dead ↦ dead ])
goes_on s (ready t) rest h k = h
goes_on s (closed t) rest h k = h
goes_on s still rest h k = k
goes_on s dead rest h k = h

look_read-EndsWell : (s : Hook) (fd : ℤ) → EndsWell s (look_read s fd)
unfolding look_read
look_read-EndsWell s fd =
    if_all (EndsWell s) (not ((request_queue_of s fd).current_size == 0)) (Keeps-refl s)
      (if_all (EndsWell s) (close_unit_of s fd).client_write (Keeps-refl s) tt)

read_wait-EndsWell :
    (peer : Peer) (s : Hook) (fd : ℤ) → AllKeep peer → EndsWell s (read_wait peer s fd)
unfolding read_wait
read_wait-EndsWell [] s fd p = look_read-EndsWell s fd
read_wait-EndsWell (m ∷ ms) s fd p =
    goes_on s (look_read s fd) (read_wait ms (m s) fd) (look_read-EndsWell s fd)
      (EndsWell-trans (read_wait ms (m s) fd) (p.0 s) (read_wait-EndsWell ms (m s) fd p.1))

look_write-EndsWell : (s : Hook) (fd : ℤ) → EndsWell s (look_write s fd)
unfolding look_write
look_write-EndsWell s fd =
    let q = response_queue_of s fd in
    if_all (EndsWell s) (not (q.current_size == q.capacity)) (Keeps-refl s)
      (if_all (EndsWell s) ((close_unit_of s fd).client_read && s.sigpipe_kills) tt tt)

write_wait-EndsWell :
    (peer : Peer) (s : Hook) (fd : ℤ) → AllKeep peer → EndsWell s (write_wait peer s fd)
unfolding write_wait
write_wait-EndsWell [] s fd p = look_write-EndsWell s fd
write_wait-EndsWell (m ∷ ms) s fd p =
    goes_on s (look_write s fd) (write_wait ms (m s) fd) (look_write-EndsWell s fd)
      (EndsWell-trans (write_wait ms (m s) fd) (p.0 s) (write_wait-EndsWell ms (m s) fd p.1))

count_read-Keeps : (s : Hook) (fd : ℤ) → Keeps s (count_read s fd)
unfolding count_read
count_read-Keeps s fd =
    let Q = λ (t : Hook). Keeps s t in
    let n = s.read_count + 1 in
    if_all Q (is_dnsmasq s.server) (if_all Q (n == 4) (alike refl refl refl) (alike refl refl refl))
      (if_all Q (is_dcmqrscp s.server)
        (if_all Q (leb 3 n) (alike refl refl refl) (alike refl refl refl)) (Keeps-refl s))

note_write-Keeps : (s : Hook) (fd : ℤ) → Keeps s (note_write s fd)
unfolding note_write
note_write-Keeps s fd =
    let Q = λ (t : Hook). Keeps s t in
    let s1 = if s.write_count == 0 then send_control s fd after_write else s in
    let a = if_all Q (s.write_count == 0) (alike refl refl refl) (Keeps-refl s) in
    let s2 =
      if is_dnsmasq s.server || is_dcmqrscp s.server then record s1 { read_count = 0 } else s1 in
    let b : Keeps s s2 =
      if_all Q (is_dnsmasq s.server || is_dcmqrscp s.server) (Keeps-trans a (alike refl refl refl))
        a in
    if_all Q (is_dcmqrscp s.server) (Keeps-trans b (alike refl refl refl)) b

-- `read`, whatever it returns.
pub read-Keeps :
    (os : Os) (peer : Peer) (s : Hook) (fd : ℤ) (count : ℕ)
    → AllKeep peer
    → Keeps s (after s (read os peer s fd count))
unfolding read deliver
read-Keeps os peer s fd count p =
    let P = λ (o : Outcome (ℤ × List ℕ)). Keeps s (after s o) in
    let s1 = count_read s fd in
    let a = count_read-Keeps s fd in
    let k = sock s fd in
    let s2 : Hook = record s1 { errno = ewouldblock } in
    let b : Keeps s1 s2 = alike refl refl refl in
    let c =
      set_sock-Keeps (record s1 { errno = ewouldblock }) fd
        (record (sock s1 fd) { has_error = true }) refl refl in
    if_all P (not (is_valid_fd s fd)) (Keeps-refl s) (
      if_all P (k.shutdown_read || (close_unit_of s fd).client_write) (Keeps-refl s) (
        if_all P
          (has_flag k.file_status_flags o_nonblock && (request_queue_of s1 fd).current_size == 0)
          (Keeps-trans a (Keeps-trans b c))
          (delivered s (read_wait peer s1 fd) fd count
            (EndsWell-trans (read_wait peer s1 fd) a (read_wait-EndsWell peer s1 fd p)))))
  where
    delivered :
        (s : Hook) (w : Waited) (fd : ℤ) (count : ℕ)
        → EndsWell s w
        → Keeps s (
            after s (elim w [
              | ready s2 ↦ if fits_int count then deliver s2 fd (to_int count) else killed
              | closed s2 ↦ ret (pos 0, []) s2
              | still ↦ blocked
              | dead ↦ killed
            ]))
    delivered s (ready t) fd count h =
        if_all (λ (o : Outcome (ℤ × List ℕ)). Keeps s (after s o)) (fits_int count)
          (Keeps-trans h (alike refl refl refl)) (Keeps-refl s)
    delivered s (closed t) fd count h = h
    delivered s still fd count h = Keeps-refl s
    delivered s dead fd count h = Keeps-refl s

accept_bytes-Keeps :
    (s t : Hook) (fd : ℤ) (buf : List ℕ) (count : ℕ)
    → Keeps s t
    → Keeps s (after s (accept_bytes t fd buf count))
unfolding accept_bytes
accept_bytes-Keeps s t fd buf count h =
    let r = stream_enqueue t.shm (response_queue_of t fd) buf count in
    let t1 : Hook = record (set_response_queue t fd r.2) { shm = r.1 } in
    let k : Keeps t t1 = alike refl refl refl in
    Keeps-trans h (Keeps-trans k (note_write-Keeps t1 fd))

-- `write`, whatever it returns.
pub write-Keeps :
    (os : Os) (peer : Peer) (s : Hook) (fd : ℤ) (buf : List ℕ) (count : ℕ)
    → AllKeep peer
    → Keeps s (after s (write os peer s fd buf count))
unfolding write
write-Keeps os peer s fd buf count p =
    let P = λ (o : Outcome ℤ). Keeps s (after s o) in
    let k = sock s fd in
    let q = response_queue_of s fd in
    let s1 : Hook = record s { errno = ewouldblock } in
    let b : Keeps s s1 = alike refl refl refl in
    let c =
      set_sock-Keeps (record s { errno = ewouldblock }) fd (record k { has_error = true }) refl
        refl in
    if_all P (not (is_valid_fd s fd)) (Keeps-refl s) (
      if_all P (k.shutdown_write && s.sigpipe_kills) (Keeps-refl s) (
        if_all P (has_flag k.file_status_flags o_nonblock && q.current_size == q.capacity)
          (Keeps-trans b c)
          (accepted s (write_wait peer s fd) fd buf count (write_wait-EndsWell peer s fd p))))
  where
    accepted :
        (s : Hook) (w : Waited) (fd : ℤ) (buf : List ℕ) (count : ℕ)
        → EndsWell s w
        → Keeps s (
            after s (elim w [
              | ready s2 ↦ if fits_int count then accept_bytes s2 fd buf (to_int count) else killed
              | closed s2 ↦ if fits_int count then accept_bytes s2 fd buf (to_int count) else killed
              | still ↦ blocked
              | dead ↦ killed
            ]))
    accepted s (ready t) fd buf count h =
        if_all (λ (o : Outcome ℤ). Keeps s (after s o)) (fits_int count)
          (accept_bytes-Keeps s t fd buf (to_int count) h) (Keeps-refl s)
    accepted s (closed t) fd buf count h =
        if_all (λ (o : Outcome ℤ). Keeps s (after s o)) (fits_int count)
          (accept_bytes-Keeps s t fd buf (to_int count) h) (Keeps-refl s)
    accepted s still fd buf count h = Keeps-refl s
    accepted s dead fd buf count h = Keeps-refl s
