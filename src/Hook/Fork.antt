-- ===== src/Hook/Fork.antt =====
-- `fork` of socket_hook.c, and the round of CPUs to which it pins the servers.
use socket_hook.Base.{ℕ, ◌+◌, ◌%◌, ℤ, pos, eq_ℤ, ◌==◌, if◌then◌else◌}
use socket_hook.Hook.State.{Hook, Os, Outcome, ret, is_dnsmasq, is_dcmqrscp}

-- The CPU after `cpu`, but not the one of the fuzzer.
unfoldable pub next_cpu : ℕ → ℕ → ℕ → ℕ
next_cpu cpu aflnet count = let n = (cpu + 1) % count in if n == aflnet then (n + 1) % count else n

-- The process is pinned to `next_cpu_id`, which then moves on.
unfoldable pub pin : Hook → Hook
unfolding next_cpu
pin s =
    if s.use_smart_affinity
    then record s { next_cpu_id = next_cpu s.next_cpu_id s.aflnet_cpu_id s.cpu_count }
    else s

unfoldable pub fork : Os → Hook → Outcome ℤ
unfolding pin
fork os s =
    let s1 = record (pin s) { fork_pid = os.pid } in
    if is_dnsmasq s.server
    then ret os.original (pin s)
    else (if eq_ℤ os.original (pos 0)
        then ret os.original
            (if is_dcmqrscp s.server then record s1 { read_count = 0; write_count = 0 } else s1)
        else ret os.original s)
