-- ===== src/Hook/Proofs/Times.antt =====
-- The times that the timers are set to, and differences of times.
use socket_hook.Base.{ℕ, ◌+◌, ◌-◌, ◌*◌, ◌^◌, ◌≤◌, ◌<◌, ◌≡◌, pos, mod-lt, arith}
use native.Mathlib.Decide.{dec_le}
use socket_hook.Hook.State.{Hook}
use socket_hook.Hook.Timers.{TimeSpec, ns_per_second, sub_timespec, poll_value}

abbrev pub nanoseconds : TimeSpec → ℕ
nanoseconds t = t.tv_sec * ns_per_second + t.tv_nsec

-- Of two times with their nanoseconds in range, the first not after the second, `sub_timespec`
-- gives the difference, in whole seconds and nanoseconds in range.
pub sub_timespec_lem :
    (t1 t2 : TimeSpec)
    → t1.tv_nsec < ns_per_second
    → t2.tv_nsec < ns_per_second
    → nanoseconds t1 ≤ nanoseconds t2
    → (d : TimeSpec) × (sub_timespec t1 t2
        ≡ record { tv_sec = pos d.tv_sec; tv_nsec = pos d.tv_nsec })
      × (d.tv_nsec < ns_per_second)
      × (nanoseconds t1 + nanoseconds d ≡ nanoseconds t2)
unfolding sub_timespec
sub_timespec_lem t1 t2 h k l = elim (dec_le t1.tv_nsec t2.tv_nsec) [
  | yes p ↦ (
    record { tv_sec = t2.tv_sec - t1.tv_sec; tv_nsec = t2.tv_nsec - t1.tv_nsec },
    ground arith,
    omega arith,
    omega arith,
  )
  | no p ↦ (
    record {
      tv_sec = t2.tv_sec - t1.tv_sec - 1;
      tv_nsec = t2.tv_nsec + ns_per_second - t1.tv_nsec;
    },
    ground arith,
    omega arith,
    omega arith,
  )
]

poll_value-exact :
    (timeout : ℕ)
    → timeout < 2 ^ 31
    → ((poll_value (pos timeout)).tv_nsec < ns_per_second)
      × (nanoseconds (poll_value (pos timeout)) ≡ timeout * 1000000)
unfolding poll_value
poll_value-exact timeout h =
    let m = mod-lt timeout {m = 1000} (omega arith) in (omega arith, omega arith)
