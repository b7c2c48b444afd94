-- ===== src/Hook/Timers.antt =====
-- The functions of socket_hook.c that set timers, and `sub_timespec`.
use socket_hook.Base.{
  zero, suc, rem, ℕ, ◌-◌, ◌*◌, ◌/◌, ◌%◌, ◌^◌, ℤ, pos, negsuc, minus_one, inc, dec, plus, add_ℤ,
  is_pos, is_nonneg, Bool, not, ◌&&◌, leb, ◌==◌, true, if◌then◌else◌,
}
use socket_hook.Hook.State.{Hook, TimeVal, sock}

-- `struct timespec`, of a time.
pub record TimeSpec : Type 0 where
  pub tv_sec : ℕ
  pub tv_nsec : ℕ

-- `struct timespec`, with a sign: a difference, or the time that a timer is set to.
pub record SignedTimeSpec : Type 0 where
  pub tv_sec : ℤ
  pub tv_nsec : ℤ

abbrev pub ns_per_second : ℕ
ns_per_second = 1000000000

-- a - b
abbrev pub minus : ℕ → ℕ → ℤ
minus a b = if leb b a then pos (a - b) else negsuc (b - a - 1)

-- What is put in `*td`.
unfoldable pub sub_timespec : TimeSpec → TimeSpec → SignedTimeSpec
sub_timespec t1 t2 =
    let n = minus t2.tv_nsec t1.tv_nsec in
    let s = minus t2.tv_sec t1.tv_sec in
    if is_pos s && not (is_nonneg n)
    then record { tv_sec = dec s; tv_nsec = plus n ns_per_second }
    else (if not (is_nonneg s) && is_pos n
        then record { tv_sec = inc s; tv_nsec = add_ℤ n (negsuc (ns_per_second - 1)) }
        else record { tv_sec = s; tv_nsec = n })

-- SIGRTMIN of Linux, as libc leaves it.
abbrev pub sigrtmin : ℕ
sigrtmin = 34

-- The handler of the timer of `poll` and `select`.
unfoldable pub my_signal_handler : ℕ → Hook → Hook
my_signal_handler signum s =
    let noted : Hook = record s { poll_timeout = true } in if signum == sigrtmin then noted else s

abbrev pub signed : TimeSpec → SignedTimeSpec
signed t = record { tv_sec = pos t.tv_sec; tv_nsec = pos t.tv_nsec }

-- `timer_settime`: whether it accepts a time.
abbrev pub SetTime : Type 0
SetTime = SignedTimeSpec → Bool

-- -n
abbrev pub negated : ℕ → ℤ
negated zero = pos 0
negated (suc n) = negsuc n

-- x * n, and C's x / n, which is cut towards 0
abbrev pub times : ℤ → ℕ → ℤ
times (pos a) n = pos (a * n)
times (negsuc a) n = negated (suc a * n)

abbrev pub divided : ℤ → ℕ → ℤ
divided (pos a) n = pos (a / n)
divided (negsuc a) n = negated (suc a / n)

-- (unsigned long)x, of 64 bits
abbrev pub to_unsigned_long : ℤ → ℕ
to_unsigned_long (pos a) = a % 2 ^ 64
to_unsigned_long (negsuc a) = 2 ^ 64 - 1 - a % 2 ^ 64

-- The times that the timers of `recv` and `send`, of `poll` and of `select` are set to.
unfoldable pub timer_value : TimeVal → SignedTimeSpec
timer_value tv = record {
  tv_sec = add_ℤ tv.tv_sec (divided tv.tv_usec 1000000);
  tv_nsec = times (rem tv.tv_usec 1000000) 1000;
}

unfoldable pub poll_value : ℤ → TimeSpec
poll_value timeout = record {
  tv_sec = to_unsigned_long timeout / 1000;
  tv_nsec = to_unsigned_long timeout % 1000 * 1000000;
}

unfoldable pub select_value : TimeVal → SignedTimeSpec
select_value timeout = record { tv_sec = timeout.tv_sec; tv_nsec = times timeout.tv_usec 1000 }

abbrev pub no_value : SignedTimeSpec
no_value = record { tv_sec = pos 0; tv_nsec = pos 0 }

unfoldable pub my_settimer : SetTime → Hook → ℤ → Bool → ℤ
unfolding timer_value
my_settimer settime s fd is_send =
    let tv = if is_send then (sock s fd).send_timeout else (sock s fd).recv_timeout in
    if not (settime (timer_value tv)) then minus_one else pos 0

unfoldable pub my_stoptimer : SetTime → ℤ
my_stoptimer settime = if not (settime no_value) then minus_one else pos 0

-- The Boolean says that the timer is not null.
unfoldable pub my_poll_stoptimer : SetTime → Bool → ℤ
my_poll_stoptimer settime timer =
    if not timer then minus_one else (if not (settime no_value) then minus_one else pos 0)

unfoldable pub my_select_stoptimer : SetTime → ℤ
my_select_stoptimer settime = if not (settime no_value) then minus_one else pos 0
