-- ===== src/Tests/Skips.antt =====
-- Two blocks of `send` into a queue of six bytes.
use socket_hook.Base.{
  ℕ, ◌+◌, ◌-◌, ◌≡◌, refl, pos, true, List, [], ◌∷◌, ◌++◌, take, drop, replicate, length-replicate,
  arith,
}
use socket_hook.Hook.State.{Hook, ret, is_valid_fd, lo_mss}
use socket_hook.Hook.Send.{put_bytes, send}
use socket_hook.Hook.Proofs.Sending.{CanSend}
use socket_hook.Hook.Proofs.SendSkips.{queued, send-skips}
use socket_hook.Tests.Hooks.{os}
use socket_hook.Tests.Waits.{no_bytes, no_bytes-IsValid, linked}

-- Nothing is queued.
abbrev drained : Hook
drained = record linked {
  units = λ _. record { request_queue = no_bytes; response_queue = no_bytes };
}

drained-valid : is_valid_fd drained (pos 4) ≡ true
unfolding is_valid_fd
drained-valid = refl

drained-CanSend : CanSend drained (pos 4)
drained-CanSend = record {
  valid = drained-valid;
  opened = refl;
  inet = refl;
  stream = refl;
  queue = no_bytes-IsValid;
  room = omega arith;
}

-- A block and two bytes more.
abbrev block : List ℕ
block = replicate 65498 7

-- The client reads all that is queued.
abbrev reads : Hook → Hook
reads s = drained

send-skips_example :
    let t1 = (put_bytes drained (pos 4) block lo_mss).1 in
    let t = (put_bytes drained (pos 4) (drop lo_mss block) (65498 - lo_mss)).1 in
    (send os (reads ∷ []) drained (pos 4) block 65498 0 ≡ ret (pos (6 + (65498 - lo_mss))) t)
    × (queued t1 (pos 4) ≡ queued drained (pos 4) ++ take 6 block)
    × (queued t (pos 4) ≡ queued drained (pos 4) ++ take (65498 - lo_mss) (drop lo_mss block))
send-skips_example =
    send-skips os reads [] drained (pos 4) block 65498 0 drained-CanSend refl refl (omega arith)
      (omega arith) (omega (arith, length-replicate {A = ℕ} 65498 7)) (omega arith) (omega arith)
      drained-CanSend (omega arith) (omega arith)
