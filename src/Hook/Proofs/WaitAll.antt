-- ===== src/Hook/Proofs/WaitAll.antt =====
-- `recv` with MSG_WAITALL.
use socket_hook.Base.{
  if_all, not, ◌-◌, ◌&&◌, fits_int, ℕ, zero, suc, ◌≡◌, refl, ap, ◌∙◌, ◌⊎◌, inl, inr, ℤ, pos,
  minus_one, eq_ℤ, to_ℕ, Bool, true, false, ◌&&◌, ◌||◌, ◌==◌, if◌then◌else◌, Bool-cases, List, [],
  ◌∷◌, arith,
}
use socket_hook.ShareQueue.{Message}
use socket_hook.Hook.State.{
  Hook, Os, Peer, Outcome, ret, blocked, exited, killed, MySocket, sock, close_unit_of,
  request_queue_of, is_valid_fd, has_flag, o_nonblock, msg_dontwait, msg_waitall, msg_peek, af_inet,
  sock_stream, sock_dgram,
}
use socket_hook.Hook.Receive.{
  Look, filled, left, go_on, dead, Got, failed_wait, look_timer, start_timer, look_recv, recv_wait,
  recv_stream, recv_datagram, finish_recv, recv_loop, recv,
}

-- The moves keep the sockets of the server.
abbrev pub KeepSockets : Peer → Type 0
KeepSockets [] = Unit {0}
KeepSockets (m ∷ ms) = ((s : Hook) → (m s).socket_arr ≡ s.socket_arr) × KeepSockets ms

-- What `recv` has to go on with: a stream socket.
abbrev IsStream : Hook → ℤ → Type 0
IsStream s fd = ((sock s fd).domain ≡ af_inet) × ((sock s fd).type ≡ sock_stream)

-- A wait ends on a stream socket, or with 0 or -1.
abbrev Ended : ℤ → Look × Peer → Type 0
Ended fd (filled t n, ms) = IsStream t fd × KeepSockets ms
Ended fd (left v t, ms) = (v ≡ pos 0) ⊎ (v ≡ minus_one)
Ended fd (go_on t n, ms) = IsStream t fd
Ended fd (dead, ms) = Unit {0}

look_recv-Ended :
    (os : Os) (ms : Peer) (s : Hook) (fd : ℤ) (need : Bool)
    → IsStream s fd
    → KeepSockets ms
    → Ended fd (look_recv os s fd need, ms)
unfolding look_recv start_timer look_timer
look_recv-Ended os ms s fd need d k = ground arith

recv_wait-Ended :
    (os : Os) (peer : Peer) (s : Hook) (fd : ℤ) (need : Bool)
    → IsStream s fd
    → KeepSockets peer
    → Ended fd (recv_wait os peer s fd need)
unfolding recv_wait
recv_wait-Ended os [] s fd need d k = look_recv-Ended os [] s fd need d tt
recv_wait-Ended os (m ∷ ms) s fd need d k =
    go (look_recv os s fd need) (look_recv-Ended os (m ∷ ms) s fd need d k)
      (λ t n y. recv_wait-Ended os ms (m t) fd n y k.1)
  where
    go :
        (l : Look)
        → Ended fd (l, m ∷ ms)
        → ((t : Hook) (n : Bool) → IsStream (m t) fd → Ended fd (recv_wait os ms (m t) fd n))
        → Ended fd (elim l [
          | filled t n ↦ (filled t n, m ∷ ms)
          | left v t ↦ (left v t, m ∷ ms)
          | go_on t n ↦ recv_wait os ms (m t) fd n
          | dead ↦ (dead, m ∷ ms)
        ])
    go (filled t n) e ih = e
    go (left v t) e ih = e
    go (go_on t n) e ih = ih t n (
      ap {A = ℕ → MySocket} (λ z. (z (to_ℕ fd)).domain) (k.0 t) ∙ e.0,
      ap {A = ℕ → MySocket} (λ z. (z (to_ℕ fd)).type) (k.0 t) ∙ e.1,
    )
    go dead e ih = tt

-- All the bytes, or 0 or -1.
abbrev pub AllOrNothing : ℕ → Outcome (ℤ × List ℕ) → Type 0
AllOrNothing len (ret (v, xs) t) = (v ≡ pos len) ⊎ (v ≡ pos 0) ⊎ (v ≡ minus_one)
AllOrNothing len blocked = Unit {0}
AllOrNothing len (exited n) = Unit {0}
AllOrNothing len killed = Unit {0}

finish_recv-AllOrNothing :
    (os : Os) (fd : ℤ) (need : Bool) (len : ℕ) (g : Got)
    → (g.count == len) ≡ true
    → AllOrNothing len (finish_recv os fd need g)
unfolding finish_recv
finish_recv-AllOrNothing os fd need len g h = ground arith

recv_stream-IsStream :
    (s : Hook) (fd : ℤ) (len flags : ℕ) (g : Got)
    → IsStream s fd
    → IsStream (recv_stream s fd len flags g).hook fd
unfolding recv_stream
recv_stream-IsStream s fd len flags g d = ground arith

recv_loop-AllOrNothing :
    (os : Os) (fuel : ℕ) (peer : Peer) (fd : ℤ) (len flags : ℕ) (fresh : Message) (need : Bool)
    (g : Got)
    → has_flag flags msg_waitall ≡ true
    → IsStream g.hook fd
    → KeepSockets peer
    → AllOrNothing len (recv_loop os fuel peer fd len flags fresh need g)
unfolding recv_loop
recv_loop-AllOrNothing os zero peer fd len flags fresh need g w d k =
    elim (Bool-cases (g.count == len)) [
      | inl e ↦ rw e (finish_recv-AllOrNothing os fd need len g e)
      | inr e ↦ rw e tt
    ]
recv_loop-AllOrNothing os (suc fuel) peer fd len flags fresh need g w d k =
    elim (Bool-cases (g.count == len)) [
      | inl e ↦ rw e (finish_recv-AllOrNothing os fd need len g e)
      | inr e ↦ rw e (
          go (recv_wait os peer g.hook fd need) (recv_wait-Ended os peer g.hook fd need d k)
            (λ ms s n y z.
              recv_loop-AllOrNothing os fuel ms fd len flags fresh n (recv_stream s fd len flags g)
                w (recv_stream-IsStream s fd len flags g y) z))
    ]
  where
    go :
        (l : Look × Peer)
        → Ended fd l
        → ((ms : Peer) (s : Hook) (n : Bool)
            → IsStream s fd
            → KeepSockets ms
            → AllOrNothing len
                (recv_loop os fuel ms fd len flags fresh n (recv_stream s fd len flags g)))
        → AllOrNothing len (elim l.0 [
          | filled s n ↦
              if eq_ℤ (sock s fd).domain af_inet && eq_ℤ (sock s fd).type sock_stream
              then (if not (has_flag flags msg_peek) && not (fits_int (len - g.count))
                  then killed
                  else (if has_flag flags msg_waitall
                      then recv_loop os fuel l.1 fd len flags fresh n (recv_stream s fd len flags g)
                      else finish_recv os fd n (recv_stream s fd len flags g)))
              else (if eq_ℤ (sock s fd).domain af_inet && eq_ℤ (sock s fd).type sock_dgram
                  then finish_recv os fd n (recv_datagram s fd len flags fresh g)
                  else exited 999)
          | left v s ↦ ret (v, g.bytes) s
          | go_on s n ↦ blocked
          | dead ↦ killed
        ])
    go (filled s n, ms) e ih =
        rw (e.0.0, e.0.1, w)
          (if_all (AllOrNothing len)
            (not (has_flag flags msg_peek) && not (fits_int (len - g.count))) tt
            (ih ms s n e.0 e.1))
    go (left v t, ms) (inl e) ih = inr (inl e)
    go (left v t, ms) (inr e) ih = inr (inr e)
    go (go_on t n, ms) e ih = tt
    go (dead, ms) e ih = tt

pick :
    (len : ℕ) (a b : Bool) (r : Outcome (ℤ × List ℕ)) (s t : Hook)
    → AllOrNothing len r
    → AllOrNothing len (if a then ret (pos 0, []) s else (if b then ret (minus_one, []) t else r))
pick len true b r s t h = inr (inl refl)
pick len false true r s t h = inr (inr refl)
pick len false false r s t h = h

-- `recv` with MSG_WAITALL on an open stream socket, where the client does not touch the sockets of
-- the server: whatever the client does to the share memory, if the call returns then it returns
-- `len`, 0 or -1, and never a smaller number of bytes.
pub recv-AllOrNothing :
    (os : Os) (peer : Peer) (s : Hook) (fd : ℤ) (len flags : ℕ) (fresh : Message)
    → is_valid_fd s fd ≡ true
    → has_flag flags msg_waitall ≡ true
    → (sock s fd).domain ≡ af_inet
    → (sock s fd).type ≡ sock_stream
    → KeepSockets peer
    → AllOrNothing len (recv os peer s fd len flags fresh)
unfolding recv
recv-AllOrNothing os peer s fd len flags fresh v w d y k =
    let g : Got = record { count = 0; bytes = []; hook = s } in
    rw v (
      pick len ((sock s fd).shutdown_read || (close_unit_of s fd).client_write)
        ((has_flag flags msg_dontwait || has_flag (sock s fd).file_status_flags o_nonblock)
          && (request_queue_of s fd).current_size == 0)
        (recv_loop os len peer fd len flags fresh false g) s (failed_wait s fd)
        (recv_loop-AllOrNothing os len peer fd len flags fresh false g w (d, y) k))
