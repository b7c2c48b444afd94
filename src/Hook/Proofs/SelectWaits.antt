-- ===== src/Hook/Proofs/SelectWaits.antt =====
-- What `select` on the hook's descriptors counts, and where it fails.
use socket_hook.Base.{ℕ, ◌≡◌, pos, true, Option}
use socket_hook.Hook.State.{Hook, is_valid_fd}
use socket_hook.Hook.Select.{FdSet}
use socket_hook.Hook.Proofs.Selecting.{in_set}

-- Every descriptor of the set is open in the hook.
abbrev pub AllHooked : Hook → Option FdSet → Type 0
AllHooked s fds = (x : ℕ) → in_set fds x ≡ true → is_valid_fd s (pos x) ≡ true
