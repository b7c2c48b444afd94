-- ===== src/Hook/Proofs/Messages.antt =====
-- What `sendto` and `recvfrom` of the hook do with messages.
use socket_hook.Base.{
  ◌≤◌, to_int-below, take, replicate, length, ◌-◌, ℕ, ◌+◌, min, ◌≡◌, ◌≢◌, refl, ap, ◌∙◌, ℤ, pos,
  to_ℕ, Bool, true, false, ◌==◌, ==_of_ne, if◌then◌else◌, Option, none, some, List, [], ◌∷◌, ◌++◌,
  length, take, arith,
}
use socket_hook.Base.Memory.{store, length-window}
use socket_hook.Queue.{SockAddr}
use socket_hook.ShareQueue.{
  ShareQueue, Message, message_max_length, datagram_enqueue, datagram_dequeue,
}
use socket_hook.ShareQueue.Slots.{IsValid, items, datagram_enqueue_refines}
use socket_hook.ShareQueue.Slots.Dequeue.{datagram_list, datagram_dequeue_refines}
use socket_hook.Hook.State.{
  Outcome, Hook, Os, Peer, ret, sock, sock_dgram, is_valid_fd, is_tinydtls, has_flag, msg_trunc,
  request_queue_of, response_queue_of, set_request_queue, set_response_queue, send_control,
  after_write,
}
use socket_hook.Hook.Datagram.{make_message, transmit, sendto, receive, recvfrom}
use socket_hook.Hook.Proofs.Answers.{wait_none}
use socket_hook.Hook.Proofs.Cpus.{after}

-- The messages that wait in a direction of a connection.
abbrev pub sent_messages : Hook → ℤ → List Message
sent_messages s fd = let q = response_queue_of s fd in items (s.messages q.message_start_offset) q

abbrev pub received_messages : Hook → ℤ → List Message
received_messages s fd =
    let q = request_queue_of s fd in items (s.messages q.message_start_offset) q

pub enqueue-with_room :
    (arr : ℕ → Message) (q : ShareQueue) (m : Message)
    → IsValid q
    → q.current_size ≢ q.capacity
    → let r = datagram_enqueue arr q m in (r.0 ≡ pos 0) × (items r.1 r.2 ≡ items arr q ++ m ∷ [])
enqueue-with_room arr q m v h =
    let (w, e, c, o, x, y) = datagram_enqueue_refines arr q m v in
    let f : (
      (datagram_enqueue arr q m).0,
      items (datagram_enqueue arr q m).1 (datagram_enqueue arr q m).2,
    )
        ≡ (pos 0, items arr q ++ m ∷ []) =
      e
      ∙ rw
          (
            length-window arr q.capacity (to_ℕ q.front) q.current_size,
            ==_of_ne q.current_size q.capacity h,
          )
          refl in
    (ap {A = ℤ × List Message} (λ p. p.0) f, ap {A = ℤ × List Message} (λ p. p.1) f)

pub store_self {ℓ} : {A : Type ℓ} (m : ℕ → A) (i j : ℕ) (x : A) → j ≡ i → store m i x j ≡ x
store_self m i j x e = ground arith

-- The messages of a queue that is stored with its array.
stored_response :
    (s : Hook) (fd : ℤ) (q : ShareQueue) (i : ℕ) (arr : ℕ → Message)
    → q.message_start_offset ≡ i
    → sent_messages
        (send_control
          (record (set_response_queue s fd q) { messages = store s.messages i arr })
          fd
          after_write)
        fd
      ≡ items arr q
stored_response s fd q i arr p =
    let t =
      send_control (record (set_response_queue s fd q) { messages = store s.messages i arr }) fd
        after_write in
    let e : response_queue_of t fd ≡ q = ground arith in
    ap {A = ShareQueue} (λ y. items (store s.messages i arr y.message_start_offset) y) e
    ∙ ap {A = ℕ → Message} (λ y. items y q) (store_self s.messages i q.message_start_offset arr p)

stored_request :
    (s : Hook) (fd : ℤ) (q : ShareQueue) (i : ℕ) (arr : ℕ → Message)
    → q.message_start_offset ≡ i
    → received_messages (record (set_request_queue s fd q) { messages = store s.messages i arr }) fd
      ≡ items arr q
stored_request s fd q i arr p =
    let t : Hook = record (set_request_queue s fd q) { messages = store s.messages i arr } in
    let e : request_queue_of t fd ≡ q = ground arith in
    ap {A = ShareQueue} (λ y. items (store s.messages i arr y.message_start_offset) y) e
    ∙ ap {A = ℕ → Message} (λ y. items y q) (store_self s.messages i q.message_start_offset arr p)

transmit_lem :
    (s o : Hook) (fd : ℤ) (message : List ℕ) (len : ℕ)
    → (sock s fd).type ≡ sock_dgram
    → IsValid (response_queue_of s fd)
    → (response_queue_of s fd).current_size ≢ (response_queue_of s fd).capacity
    → let t = after o (transmit s fd message len) in
      (transmit s fd message len ≡ ret (pos (min len message_max_length)) t)
      × IsValid (response_queue_of t fd)
      × (sent_messages t fd ≡ sent_messages s fd ++ make_message message len ∷ [])
unfolding transmit
transmit_lem s o fd message len d v h =
    let q = response_queue_of s fd in
    let arr = s.messages q.message_start_offset in
    let m = make_message message len in
    let r = datagram_enqueue arr q m in
    let (w, e, c, p, x, y) = datagram_enqueue_refines arr q m v in
    let (z, k) = enqueue-with_room arr q m v h in
    rw (d, z) (refl, ground arith, stored_response s fd r.2 q.message_start_offset r.1 p ∙ k)

-- The state in which `sendto` waits.
abbrev begun_sendto : Hook → Hook
begun_sendto s = if is_tinydtls s.server then record s { read_count = 0 } else s

abbrev is_full : ℤ → Hook → Bool
is_full fd t = (response_queue_of t fd).current_size == (response_queue_of t fd).capacity

sendto-transmit :
    (os : Os) (peer : Peer) (s : Hook) (fd : ℤ) (message : List ℕ) (len flags : ℕ)
    → is_valid_fd s fd ≡ true
    → (response_queue_of s fd).current_size ≢ (response_queue_of s fd).capacity
    → sendto os peer s fd message len flags ≡ transmit (begun_sendto s) fd message len
unfolding sendto
sendto-transmit os peer s fd message len flags l h =
    let f : is_full fd (begun_sendto s) ≡ false =
      ground (
        arith,
        ==_of_ne (response_queue_of s fd).current_size (response_queue_of s fd).capacity h,
      ) in
    rw (l, f, wait_none (is_full fd) peer (begun_sendto s) f) (ground arith)

-- `sendto` of `len` bytes of a buffer, 1500 at most, on an open datagram socket whose valid
-- response queue has room: without a wait and whatever the flags, it returns `len`, and puts one
-- message behind the others in the queue, with that length and those bytes, and zeros behind them;
-- the queue stays valid.
pub sendto_lem :
    (os : Os) (peer : Peer) (s : Hook) (fd : ℤ) (message : List ℕ) (len flags : ℕ)
    → len ≤ message_max_length
    → len ≤ length message
    → is_valid_fd s fd ≡ true
    → (sock s fd).type ≡ sock_dgram
    → IsValid (response_queue_of s fd)
    → (response_queue_of s fd).current_size ≢ (response_queue_of s fd).capacity
    → let t = after s (sendto os peer s fd message len flags) in
      let m : Message = record {
        length = len;
        buf = take len message ++ replicate (message_max_length - len) 0;
      } in
      (sendto os peer s fd message len flags ≡ ret (pos len) t)
      × IsValid (response_queue_of t fd)
      × (sent_messages t fd ≡ sent_messages s fd ++ m ∷ [])
sendto_lem os peer s fd message len flags small inside l d v h =
    let s1 = begun_sendto s in
    let e = sendto-transmit os peer s fd message len flags l h in
    let (a, b, c) = transmit_lem s1 s fd message len (ground arith) (ground arith) (ground arith) in
    let f : min len message_max_length ≡ len = omega arith in
    let g : make_message message len ≡ record {
      length = len;
      buf = take len message ++ replicate (message_max_length - len) 0;
    } =
      rw (f, to_int-below len (omega arith)) refl in
    rw e (
      a ∙ ap {A = ℕ} {B = Outcome ℤ} (λ n. ret (pos n) (after s (transmit s1 fd message len))) f,
      b,
      c ∙ ap {A = Message} {B = List Message} (λ m. sent_messages s1 fd ++ m ∷ []) g ∙ ground arith,
    )

dequeue-some :
    (arr : ℕ → Message) (q : ShareQueue) (fresh m : Message) (ms : List Message)
    → IsValid q
    → items arr q ≡ m ∷ ms
    → let r = datagram_dequeue arr q fresh in (r.0 ≡ m) × (items r.1 r.2 ≡ ms)
dequeue-some arr q fresh m ms v h =
    let (w, e, c, o, x, y) = datagram_dequeue_refines arr q fresh v in
    let f = e ∙ ap {A = List Message} {B = Message × List Message} (datagram_list fresh) h in
    (ap {A = Message × List Message} (λ p. p.0) f, ap {A = Message × List Message} (λ p. p.1) f)

-- The address that the hook gives a caller: it knows one only for tinydtls.
abbrev pub peer_address : Hook → Option SockAddr
peer_address s = if is_tinydtls s.server then some s.tinydtls_peer_addr else none

receive_lem :
    (s o : Hook) (fd : ℤ) (len flags : ℕ) (fresh m : Message) (ms : List Message)
    → (sock s fd).type ≡ sock_dgram
    → IsValid (request_queue_of s fd)
    → received_messages s fd ≡ m ∷ ms
    → m.length ≢ 0
    → let t = after o (receive s fd len flags fresh) in
      let n = min len m.length in
      (receive s fd len flags fresh
        ≡ ret
            (pos (if has_flag flags msg_trunc then m.length else n), take n m.buf, peer_address s)
            t)
      × IsValid (request_queue_of t fd)
      × (received_messages t fd ≡ ms)
unfolding receive
receive_lem s o fd len flags fresh m ms d v h z =
    let q = request_queue_of s fd in
    let arr = s.messages q.message_start_offset in
    let r = datagram_dequeue arr q fresh in
    let (w, e, c, p, x, y) = datagram_dequeue_refines arr q fresh v in
    let (f, k) = dequeue-some arr q fresh m ms v h in
    rw (d, f, ==_of_ne m.length 0 z)
      (refl, ground arith, stored_request s fd r.2 q.message_start_offset r.1 p ∙ k)

-- The state in which `recvfrom` waits.
abbrev begun_recvfrom : Hook → Hook
begun_recvfrom s = if is_tinydtls s.server then record s { read_count = s.read_count + 1 } else s

abbrev is_empty : ℤ → Hook → Bool
is_empty fd t = (request_queue_of t fd).current_size == 0

recvfrom-receive :
    (os : Os) (peer : Peer) (s : Hook) (fd : ℤ) (len flags : ℕ) (fresh : Message)
    → is_valid_fd s fd ≡ true
    → (request_queue_of s fd).current_size ≢ 0
    → len ≢ 0
    → recvfrom os peer s fd len flags fresh ≡ receive (begun_recvfrom s) fd len flags fresh
unfolding recvfrom
recvfrom-receive os peer s fd len flags fresh l h z =
    let f : is_empty fd (begun_recvfrom s) ≡ false =
      ground (arith, ==_of_ne (request_queue_of s fd).current_size 0 h) in
    rw (l, f, ==_of_ne len 0 z, wait_none (is_empty fd) peer (begun_recvfrom s) f) (ground arith)

-- `recvfrom` on an open datagram socket with room for a byte or more, where the oldest message of
-- the valid request queue is not empty: whatever the client does meanwhile, it gives the message's
-- bytes, cut to the room, and returns their number, or the message's whole length if MSG_TRUNC is
-- set; that message alone is gone from the queue, which stays valid.
pub recvfrom_lem :
    (os : Os) (peer : Peer) (s : Hook) (fd : ℤ) (len flags : ℕ) (fresh m : Message)
    (ms : List Message)
    → is_valid_fd s fd ≡ true
    → (sock s fd).type ≡ sock_dgram
    → IsValid (request_queue_of s fd)
    → received_messages s fd ≡ m ∷ ms
    → m.length ≢ 0
    → len ≢ 0
    → let t = after s (recvfrom os peer s fd len flags fresh) in
      let n = min len m.length in
      (recvfrom os peer s fd len flags fresh
        ≡ ret
            (pos (if has_flag flags msg_trunc then m.length else n), take n m.buf, peer_address s)
            t)
      × IsValid (request_queue_of t fd)
      × (received_messages t fd ≡ ms)
recvfrom_lem os peer s fd len flags fresh m ms l d v h z y =
    let q = request_queue_of s fd in
    let ne : q.current_size ≢ 0 = omega (
      arith,
      length-window (s.messages q.message_start_offset) q.capacity (to_ℕ q.front) q.current_size,
      ap {A = List Message} (λ xs. length xs) h,
    ) in
    let e = recvfrom-receive os peer s fd len flags fresh l ne y in
    let (a, b, c) =
      receive_lem (begun_recvfrom s) s fd len flags fresh m ms (ground arith) (ground arith)
        (ground arith ∙ h) z in
    let g : peer_address (begun_recvfrom s) ≡ peer_address s = ground arith in
    rw e (a ∙ rw g refl, b, c)
