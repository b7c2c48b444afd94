-- ===== src/Tests/Times.antt =====
-- Timers and differences of times, on small inputs.
use socket_hook.Base.{is_nonneg, to_ℕ, ◌&&◌, ◌+◌, ◌<◌, ◌≡◌, pos, ltb, arith}
use socket_hook.Hook.State.{Hook, TimeVal}
use socket_hook.Hook.Timers.{TimeSpec, ns_per_second, sub_timespec, SetTime}
use socket_hook.Hook.Proofs.Times.{nanoseconds, sub_timespec_lem}
use socket_hook.Tests.Hooks.{hook}

-- 1.9 s and 3.1 s
abbrev early : TimeSpec
early = record { tv_sec = 1; tv_nsec = 900000000 }

abbrev late : TimeSpec
late = record { tv_sec = 3; tv_nsec = 100000000 }

sub_timespec_lem_example :
    (d : TimeSpec) × (sub_timespec early late
      ≡ record { tv_sec = pos d.tv_sec; tv_nsec = pos d.tv_nsec })
    × (d.tv_nsec < ns_per_second)
    × (nanoseconds early + nanoseconds d ≡ nanoseconds late)
sub_timespec_lem_example = sub_timespec_lem early late (omega arith) (omega arith) (omega arith)

abbrev settime : SetTime
settime t = ltb (to_ℕ t.tv_nsec) ns_per_second && is_nonneg t.tv_nsec

-- 2.5 s
abbrev half_past : TimeVal
half_past = record { tv_sec = pos 2; tv_usec = pos 500000 }

abbrev limited : Hook
limited = record hook { socket_arr = λ n. record (hook.socket_arr n) { send_timeout = half_past } }
