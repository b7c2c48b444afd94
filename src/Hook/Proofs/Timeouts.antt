-- ===== src/Hook/Proofs/Timeouts.antt =====
-- The timeout of `recv`, which nothing ever lets run out.
use socket_hook.Base.{◌≡◌, ℤ, [], ◌∷◌}
use socket_hook.Hook.State.{Hook, Peer}
use socket_hook.Hook.Proofs.Reading.{readable}

-- The moves of a silent client and of the signal handler: the sockets of the server are as they
-- were, no bytes come, and the client does not close.
abbrev pub Silent : ℤ → Peer → Type 0
Silent fd [] = Unit {0}
Silent fd (m ∷ ms) =
    ((s : Hook) → ((m s).socket_arr ≡ s.socket_arr) × (readable fd (m s) ≡ readable fd s))
    × Silent fd ms
