-- ===== src/Hook/Proofs/Owners.antt =====
-- Who owns the descriptors and the share units: the free stack, or an open socket of the hook.
pub mod Stacks
pub mod Opening
pub mod Giving
pub mod Calls
pub mod Pairs
pub mod Waiting
pub mod Accepting
pub mod Streams
pub mod Messages
pub mod Receiving
pub mod Sending
pub mod Polling
pub mod Selecting
pub mod Reach
pub mod Start
pub mod Leaks
use socket_hook.Base.{ℕ, ◌+◌, ◌<◌, ◌≤◌, ◌≡◌, ℤ, pos, eq_ℤ, ◌&&◌, arith}
use socket_hook.Base.Sums.{sum, bit, count, AllBelow}
use socket_hook.Stack.Laws.{IsValid, contents}
use socket_hook.Hook.State.{Hook, MySocket}

-- 1 if the socket is open on share unit i.
abbrev pub holds : MySocket → ℕ → ℕ
holds k i = bit (k.in_use && eq_ℤ k.share_unit_index (pos i))

-- The number of open sockets on share unit i.
abbrev pub holders : Hook → ℕ → ℕ
holders s i = sum (λ n. holds (s.socket_arr n) i) 1024

-- Each descriptor of the hook is either free, once, or open, and no share unit is both free and
-- taken, free twice, or taken twice.
pub record IsSound (s : Hook) : Type 0 where
  pub fd_stack : IsValid s.available_fd
  pub fd_capacity : s.available_fd.capacity ≡ 1024
  pub unit_stack : IsValid s.available_share_unit
  pub in_range : AllBelow 1024 (contents s.available_fd)
  pub one_owner :
      (n : ℕ) → n < 1024 → count n (contents s.available_fd) + bit (s.socket_arr n).in_use ≡ 1
  pub one_unit : (i : ℕ) → count i (contents s.available_share_unit) + holders s i ≤ 1
