-- ===== src/Hook/Proofs/PollTimeouts.antt =====
-- The signal of its timer ends `poll` of the hook.
use socket_hook.Hook.State.{Hook}
