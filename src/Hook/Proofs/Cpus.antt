-- ===== src/Hook/Proofs/Cpus.antt =====
-- The round of CPUs of `fork` keeps off the fuzzer's.
use socket_hook.Base.{ℕ, ◌+◌, ◌%◌, ◌<◌, ◌≤◌, ◌≢◌, mod-lt, mod-eq_of_lt, arith}
use socket_hook.Base.Windows.{mod_lap}
use native.Mathlib.Decide.{dec_lt}
use socket_hook.Hook.Fork.{next_cpu, pin, fork}
use socket_hook.Hook.State.{Hook, Os, Outcome, ret, blocked, exited, killed}

-- One step on in the round is another CPU.
pub step_ne : (n count : ℕ) → 2 ≤ count → n < count → (n + 1) % count ≢ n
step_ne n count h l = elim (dec_lt (n + 1) count) [
  | yes p ↦ omega (arith, mod-eq_of_lt {n = n + 1} {m = count} p)
  | no p ↦ omega (arith, mod_lap count (n + 1) (omega arith) (omega arith))
]

-- With two CPUs or more, the next CPU is one of them, and is not the fuzzer's.
pub next_cpu_lem :
    (cpu aflnet count : ℕ)
    → 2 ≤ count
    → (next_cpu cpu aflnet count < count) × (next_cpu cpu aflnet count ≢ aflnet)
unfolding next_cpu
next_cpu_lem cpu aflnet count h = ground (
  arith,
  mod-lt (cpu + 1) {m = count} (omega arith),
  mod-lt ((cpu + 1) % count + 1) {m = count} (omega arith),
  step_ne ((cpu + 1) % count) count h,
)

-- The states in which a server may be pinned: the next CPU is there, and is not the fuzzer's.
pub record IsPinned (s : Hook) : Type 0 where
  pub many : 2 ≤ s.cpu_count
  pub there : s.next_cpu_id < s.cpu_count
  pub apart : s.next_cpu_id ≢ s.aflnet_cpu_id

-- The state that a call leaves.
abbrev pub after {ℓ} : {A : Type ℓ} → Hook → Outcome A → Hook
after s (ret a t) = t
after s blocked = s
after s (exited n) = s
after s killed = s

-- `fork` keeps the next CPU in range and off the fuzzer's, in the parent and in the child,
-- whichever server it runs and whatever the original `fork` returns.
pub fork-IsPinned : (os : Os) (s : Hook) → IsPinned s → IsPinned (after s (fork os s))
unfolding fork pin
fork-IsPinned os s v = ground (arith, next_cpu_lem s.next_cpu_id s.aflnet_cpu_id s.cpu_count v.many)
