-- ===== src/Hook/Proofs/Owners/Sending.antt =====
-- `send` leaves the owners as they were.
use socket_hook.Base.{
  ℕ, zero, suc, ◌+◌, ◌-◌, ◌*◌, ◌/◌, min, refl, ℤ, pos, eq_ℤ, Bool, true, false, not, ◌&&◌, ◌||◌,
  ltb, ◌==◌, if◌then◌else◌, if_all, Option, none, some, List, [], ◌∷◌, ◌++◌, take, drop,
}
use socket_hook.Hook.State.{
  Hook, Os, Peer, Outcome, ret, blocked, exited, killed, sock, set_sock, wait, close_unit_of,
  is_valid_fd, has_flag, o_nonblock, msg_dontwait, msg_more, msg_nosignal, lo_mss, af_inet,
  sock_stream, sock_dgram,
}
use socket_hook.Hook.Receive.{is_set, Look, filled, left, go_on, dead}
use socket_hook.Hook.Send.{
  is_full, look_send_timer, look_send, send_wait, put_bytes, or_zero, send_rest, send_blocks,
  clear_more, send_stream, send_datagram, put_in, resume, wait_and_put, send,
}
use socket_hook.Hook.Proofs.Cpus.{after}
use socket_hook.Hook.Proofs.Owners.Giving.{Keeps, Keeps-refl, Keeps-trans, set_sock-Keeps, alike}
use socket_hook.Hook.Proofs.Owners.Waiting.{AllKeep, Awaited, Awaited-trans, wait-Awaited}
use socket_hook.Hook.Proofs.Owners.Messages.{would_block-Keeps}
use socket_hook.Hook.Proofs.Owners.Receiving.{LooksWell, failed_wait-Keeps, WaitsWell, looks_on}

look_send_timer-LooksWell :
    (s : Hook) (fd : ℤ) (need : Bool) → LooksWell s (look_send_timer s fd need)
unfolding look_send_timer
look_send_timer-LooksWell s fd need =
    if_all (LooksWell s) (not (sock s fd).send_timer) (Keeps-refl s)
      (if_all (LooksWell s) (sock s fd).is_socket_timeout (failed_wait-Keeps s fd) (Keeps-refl s))

look_send-LooksWell :
    (os : Os) (s : Hook) (fd : ℤ) (flags : ℕ) (need : Bool)
    → LooksWell s (look_send os s fd flags need)
unfolding look_send
look_send-LooksWell os s fd flags need =
    let P = LooksWell s in
    let a = look_send_timer-LooksWell s fd need in
    if_all P (not (is_full s fd)) (Keeps-refl s) (
      if_all P (close_unit_of s fd).client_read
        (if_all P (need && not os.stop_ok) (Keeps-refl s) (
          if_all P (has_flag flags msg_nosignal) (alike refl refl refl)
            (if_all P s.sigpipe_kills tt a)))
        a)

send_wait-WaitsWell :
    (os : Os) (peer : Peer) (s : Hook) (fd : ℤ) (flags : ℕ) (need : Bool)
    → AllKeep peer
    → WaitsWell s (send_wait os peer s fd flags need)
unfolding send_wait
send_wait-WaitsWell os [] s fd flags need p = (look_send-LooksWell os s fd flags need, tt)
send_wait-WaitsWell os (m ∷ ms) s fd flags need p =
    looks_on s (look_send os s fd flags need) m ms (λ t n. send_wait os ms t fd flags n)
      (look_send-LooksWell os s fd flags need) p.0 p.1
      (λ t n. send_wait-WaitsWell os ms (m t) fd flags n p.1)

put_bytes-Keeps :
    (s t : Hook) (fd : ℤ) (buf : List ℕ) (len : ℕ) → Keeps s t → Keeps s (put_bytes t fd buf len).1
put_bytes-Keeps s t fd buf len h =
    let a : Keeps t (put_bytes t fd buf len).1 = alike refl refl refl in Keeps-trans h a

-- The blocks behind the first, as far as they come.
abbrev KeepsRest : Hook → Option (ℕ × Hook) → Type 0
KeepsRest s none = Unit {0}
KeepsRest s (some (n, t)) = Keeps s t

wait_rest :
    (s : Hook) (w : Option (Hook × Peer)) (f : Hook → Peer → Option (ℕ × Hook))
    → Awaited s w
    → ((t : Hook) (rest : Peer) → Keeps s t → AllKeep rest → KeepsRest s (f t rest))
    → KeepsRest s (elim w [ none ↦ none | some (t, rest) ↦ f t rest ])
wait_rest s none f h k = tt
wait_rest s (some (t, rest)) f h k = k t rest h.0 h.1

send_rest-Keeps :
    (peer : Peer) (s t : Hook) (fd : ℤ) (bytes : List ℕ) (total n i rounds : ℕ)
    → AllKeep peer
    → Keeps s t
    → KeepsRest s (send_rest peer t fd bytes total n i rounds)
unfolding send_rest
send_rest-Keeps peer s t fd bytes total n i zero p h = h
send_rest-Keeps peer s t fd bytes total n i (suc rounds) p h =
    let w = wait (λ u. is_full u fd) peer t in
    wait_rest s w _ (Awaited-trans w h (wait-Awaited (λ u. is_full u fd) peer t p)) (λ u rest a k.
      let size : ℕ = if rounds == 0 then total - i * lo_mss else lo_mss in
      let r = put_bytes u fd (drop (i * lo_mss) bytes) size in
      send_rest-Keeps rest s r.1 fd bytes total (n + or_zero r.0) (i + 1) rounds k
        (put_bytes-Keeps s u fd (drop (i * lo_mss) bytes) size a))

after_rest :
    (s : Hook) (w : Option (ℕ × Hook))
    → KeepsRest s w
    → Keeps s (after s (elim w [ none ↦ blocked | some (n, t) ↦ ret (pos n) t ]))
after_rest s none h = Keeps-refl s
after_rest s (some (n, t)) h = h

send_blocks-Keeps :
    (peer : Peer) (s : Hook) (fd : ℤ) (bytes : List ℕ) (total skip : ℕ)
    → AllKeep peer
    → Keeps s (after s (send_blocks peer s fd bytes total skip))
unfolding send_blocks
send_blocks-Keeps peer s fd bytes total skip p =
    let r = put_bytes s fd bytes (min total lo_mss) in
    let a = put_bytes-Keeps s s fd bytes (min total lo_mss) (Keeps-refl s) in
    let rest = send_rest peer r.1 fd bytes total (or_zero r.0 - skip) 1 (total / lo_mss) in
    if_all (λ (o : Outcome ℤ). Keeps s (after s o)) (total / lo_mss == 0) a
      (after_rest s rest
        (send_rest-Keeps peer s r.1 fd bytes total (or_zero r.0 - skip) 1 (total / lo_mss) p a))

cleared :
    (s : Hook) (fd : ℤ) (o : Outcome ℤ)
    → Keeps s (after s o)
    → Keeps s (
        after s (elim o [
          | ret n t ↦ ret n (clear_more t fd)
          | blocked ↦ blocked
          | exited n ↦ exited n
          | killed ↦ killed
        ]))
cleared s fd (ret n t) h =
    Keeps-trans h (
      set_sock-Keeps t fd (record (sock t fd) { msg_more_buf = none; msg_more_size = 0 }) refl refl)
cleared s fd blocked h = h
cleared s fd (exited n) h = h
cleared s fd killed h = h

-- Without and with bytes left over from MSG_MORE.
either_more {ℓ} :
    {A : Type ℓ} (s : Hook) (b : Option (List ℕ)) (o : Outcome A) (f : List ℕ → Outcome A)
    → Keeps s (after s o)
    → ((old : List ℕ) → Keeps s (after s (f old)))
    → Keeps s (after s (elim b [ none ↦ o | some old ↦ f old ]))
either_more s none o f h k = h
either_more s (some old) o f h k = k old

send_stream-Keeps :
    (peer : Peer) (s : Hook) (fd : ℤ) (buf : List ℕ) (len flags : ℕ)
    → AllKeep peer
    → Keeps s (after s (send_stream peer s fd buf len flags))
unfolding send_stream
send_stream-Keeps peer s fd buf len flags p =
    let k = sock s fd in
    let set = λ (b : List ℕ) (n : ℕ).
      set_sock-Keeps s fd (record k { msg_more_buf = some b; msg_more_size = n }) refl refl in
    if_all (λ (o : Outcome ℤ). Keeps s (after s o))
      (has_flag flags msg_more && ltb (k.msg_more_size + len) lo_mss)
      (either_more s k.msg_more_buf _ _ (set (take len buf) len)
        (λ old. set (old ++ take len buf) (k.msg_more_size + len)))
      (either_more s k.msg_more_buf _ _ (send_blocks-Keeps peer s fd buf len 0 p) (λ old.
        cleared s fd (send_blocks peer s fd (old ++ buf) (k.msg_more_size + len) k.msg_more_size)
          (send_blocks-Keeps peer s fd (old ++ buf) (k.msg_more_size + len) k.msg_more_size p)))

put_in-Keeps :
    (os : Os) (peer : Peer) (s : Hook) (fd : ℤ) (buf : List ℕ) (len flags : ℕ) (need : Bool)
    → AllKeep peer
    → Keeps s (after s (put_in os peer s fd buf len flags need))
unfolding put_in send_datagram
put_in-Keeps os peer s fd buf len flags need p =
    let P = λ (o : Outcome ℤ). Keeps s (after s o) in
    let k = sock s fd in
    if_all P (k.send_timer && need && not os.stop_ok) (Keeps-refl s) (
      if_all P (eq_ℤ k.domain af_inet && eq_ℤ k.type sock_stream)
        (send_stream-Keeps peer s fd buf len flags p)
        (if_all P (eq_ℤ k.domain af_inet && eq_ℤ k.type sock_dgram) (alike refl refl refl)
          (Keeps-refl s)))

of_put : (s t : Hook) (o : Outcome ℤ) → Keeps s t → Keeps t (after t o) → Keeps s (after s o)
of_put s t (ret n u) h k = Keeps-trans h k
of_put s t blocked h k = Keeps-refl s
of_put s t (exited n) h k = Keeps-refl s
of_put s t killed h k = Keeps-refl s

resume-Keeps :
    (os : Os) (s : Hook) (fd : ℤ) (buf : List ℕ) (len flags : ℕ) (l : Look) (ms : Peer)
    → WaitsWell s (l, ms)
    → Keeps s (after s (resume os fd buf len flags (l, ms)))
resume-Keeps os s fd buf len flags (filled t n) ms h =
    of_put s t (put_in os ms t fd buf len flags n) h.0 (put_in-Keeps os ms t fd buf len flags n h.1)
resume-Keeps os s fd buf len flags (left v t) ms h = h.0
resume-Keeps os s fd buf len flags (go_on t n) ms h = Keeps-refl s
resume-Keeps os s fd buf len flags dead ms h = Keeps-refl s

wait_and_put-Keeps :
    (os : Os) (peer : Peer) (s t : Hook) (fd : ℤ) (buf : List ℕ) (len flags : ℕ) (need : Bool)
    → AllKeep peer
    → Keeps s t
    → Keeps s (after s (wait_and_put os peer t fd buf len flags need))
unfolding wait_and_put
wait_and_put-Keeps os peer s t fd buf len flags need p h =
    let w = send_wait os peer t fd flags need in
    of_put s t (resume os fd buf len flags w) h
      (resume-Keeps os t fd buf len flags w.0 w.1 (send_wait-WaitsWell os peer t fd flags need p))

-- `send`, whatever it returns.
pub send-Keeps :
    (os : Os) (peer : Peer) (s : Hook) (fd : ℤ) (buf : List ℕ) (len flags : ℕ)
    → AllKeep peer
    → Keeps s (after s (send os peer s fd buf len flags))
unfolding send
send-Keeps os peer s fd buf len flags p =
    let P = λ (o : Outcome ℤ). Keeps s (after s o) in
    let k = sock s fd in
    let need = is_full s fd in
    let nonblock = has_flag flags msg_dontwait || has_flag k.file_status_flags o_nonblock in
    let j = record k { send_timer = true; is_socket_timeout = false } in
    let a = set_sock-Keeps s fd j refl refl in
    if_all P (not (is_valid_fd s fd)) (Keeps-refl s) (
      if_all P (k.shutdown_write && has_flag flags msg_nosignal) (alike refl refl refl) (
        if_all P (k.shutdown_write && s.sigpipe_kills) (Keeps-refl s) (
          if_all P (nonblock && need) (would_block-Keeps s fd) (
            if_all P (need && is_set k.send_timeout)
              (if_all P (not k.send_timer && not os.create_ok) (Keeps-refl s) (
                if_all P (not os.set_ok) a
                  (wait_and_put-Keeps os peer s (set_sock s fd j) fd buf len flags need p a)))
              (wait_and_put-Keeps os peer s s fd buf len flags need p (Keeps-refl s))))))
