-- ===== src/Hook/Proofs/Owners/Waiting.antt =====
-- A loop that waits leaves the owners as they were, if what happens meanwhile does.
use socket_hook.Base.{Bool, if_all, Option, none, some, [], ◌∷◌}
use socket_hook.Hook.State.{Hook, Peer, Outcome, blocked, wait}
use socket_hook.Hook.Proofs.Cpus.{after}
use socket_hook.Hook.Proofs.Owners.Giving.{Keeps, Keeps-refl, Keeps-trans}

-- Moves of the client and of the signal handler, which leave the owners as they were.
abbrev pub AllKeep : Peer → Type 0
AllKeep [] = Unit {0}
AllKeep (m ∷ ms) = ((s : Hook) → Keeps s (m s)) × AllKeep ms

abbrev pub Awaited : Hook → Option (Hook × Peer) → Type 0
Awaited s none = Unit {0}
Awaited s (some (t, rest)) = Keeps s t × AllKeep rest

pub Awaited-trans : {s t : Hook} (w : Option (Hook × Peer)) → Keeps s t → Awaited t w → Awaited s w
Awaited-trans none k h = h
Awaited-trans (some (t, rest)) k h = (Keeps-trans k h.0, h.1)

pub wait-Awaited :
    (busy : Hook → Bool) (peer : Peer) (s : Hook) → AllKeep peer → Awaited s (wait busy peer s)
unfolding wait
wait-Awaited busy [] s h = if_all (Awaited s) (busy s) tt (Keeps-refl s, tt)
wait-Awaited busy (m ∷ ms) s h =
    if_all (Awaited s) (busy s)
      (Awaited-trans (wait busy ms (m s)) (h.0 s) (wait-Awaited busy ms (m s) h.1))
      (Keeps-refl s, h)

-- A loop that waits, and what follows it.
pub after_wait {ℓ} :
    {A : Type ℓ} (s : Hook) (w : Option (Hook × Peer)) (f : Hook → Peer → Outcome A)
    → Awaited s w
    → ((t : Hook) (rest : Peer) → Keeps s t → AllKeep rest → Keeps s (after s (f t rest)))
    → Keeps s (after s (elim w [ none ↦ blocked | some (t, rest) ↦ f t rest ]))
after_wait s none f h k = Keeps-refl s
after_wait s (some (t, rest)) f h k = k t rest h.0 h.1
