-- ===== src/Hook/Proofs/Sending.antt =====
-- What `send` of the hook does with the bytes of a connection, and with MSG_MORE.
use socket_hook.Base.{
  ℕ, ◌≡◌, ◌≢◌, refl, ap, ◌∙◌, ℤ, Bool, true, false, not, ◌&&◌, ==_of_ne, some, List, [], ◌∷◌, take,
  arith,
}
use socket_hook.ShareQueue.Stream.{IsValid}
use socket_hook.Hook.State.{
  Hook, Os, Peer, Outcome, sock, set_sock, response_queue_of, is_valid_fd, af_inet, sock_stream,
}
use socket_hook.Hook.Receive.{filled}
use socket_hook.Hook.Send.{
  is_full, look_send, send_wait, send_stream, put_in, resume, wait_and_put, send,
}

-- A connection to which `send` can send at once: an open stream socket whose writing the server has
-- not shut down, and whose valid response queue has room.
pub record CanSend (s : Hook) (fd : ℤ) : Type 0 where
  pub valid : is_valid_fd s fd ≡ true
  pub opened : (sock s fd).shutdown_write ≡ false
  pub inet : (sock s fd).domain ≡ af_inet
  pub stream : (sock s fd).type ≡ sock_stream
  pub queue : IsValid (response_queue_of s fd)
  pub room : (response_queue_of s fd).current_size ≢ (response_queue_of s fd).capacity

pub not_full : (s : Hook) (fd : ℤ) → CanSend s fd → is_full s fd ≡ false
not_full s fd c =
    ==_of_ne (response_queue_of s fd).current_size (response_queue_of s fd).capacity c.room

send_wait-filled :
    (os : Os) (peer : Peer) (s : Hook) (fd : ℤ) (flags : ℕ) (need : Bool)
    → is_full s fd ≡ false
    → send_wait os peer s fd flags need ≡ (filled s need, peer)
unfolding send_wait look_send
send_wait-filled os [] s fd flags need h = rw h
send_wait-filled os (m ∷ ms) s fd flags need h = rw (h, send_wait) refl

no_stop : (a b : Bool) → (a && false && b) ≡ false
no_stop true b = refl
no_stop false b = refl

put_in-send_stream :
    (os : Os) (peer : Peer) (s : Hook) (fd : ℤ) (buf : List ℕ) (len flags : ℕ)
    → CanSend s fd
    → put_in os peer s fd buf len flags false ≡ send_stream peer s fd buf len flags
unfolding put_in
put_in-send_stream os peer s fd buf len flags c =
    rw (no_stop (sock s fd).send_timer (not os.stop_ok), c.inet, c.stream) refl

pub wait_and_put-send_stream :
    (os : Os) (peer : Peer) (s : Hook) (fd : ℤ) (buf : List ℕ) (len flags : ℕ)
    → CanSend s fd
    → wait_and_put os peer s fd buf len flags false ≡ send_stream peer s fd buf len flags
unfolding wait_and_put
wait_and_put-send_stream os peer s fd buf len flags c =
    ap {B = Outcome ℤ} (resume os fd buf len flags)
      (send_wait-filled os peer s fd flags false (not_full s fd c))
    ∙ put_in-send_stream os peer s fd buf len flags c

pub send-wait_and_put :
    (os : Os) (peer : Peer) (s : Hook) (fd : ℤ) (buf : List ℕ) (len flags : ℕ)
    → CanSend s fd
    → send os peer s fd buf len flags ≡ wait_and_put os peer s fd buf len flags false
unfolding send
send-wait_and_put os peer s fd buf len flags c = ground (arith, not_full s fd c, c.valid, c.opened)

-- What MSG_MORE leaves for the next call.
abbrev pub kept : Hook → ℤ → List ℕ → ℕ → Hook
kept s fd buf len =
    set_sock s fd (record (sock s fd) { msg_more_buf = some (take len buf); msg_more_size = len })
