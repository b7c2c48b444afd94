-- ===== src/Hook/Select.antt =====
-- The helpers of `select` in socket_hook.c. An `fd_set`, and a `bool` array of 1024, is a function
-- from descriptors.
pub mod Loop
use socket_hook.Base.{
  ℕ, zero, suc, ◌+◌, ◌-◌, ◌*◌, ◌/◌, ℤ, pos, negsuc, minus_one, dec, Bool, true, false, not, ◌&&◌,
  ltb, if◌then◌else◌, Option, none, some, List, [], ◌∷◌,
}
use socket_hook.Base.Memory.{store}
use socket_hook.Hook.State.{Hook, sock, is_valid_fd}
use socket_hook.Hook.Poll.{can_read, can_write}

abbrev pub FdSet : Type 0
FdSet = ℕ → Bool

-- max(a, b), for a number b
abbrev pub max_ℤ : ℤ → ℕ → ℤ
max_ℤ (pos a) b = if ltb b a then pos a else pos b
max_ℤ (negsuc a) b = pos b

-- The variables of one of the three loops of `get_select_nfds`: the caller's set, from which the
-- hook's descriptors go, the set of those, what all loops found, and the counts.
pub record Scan : Type 0 where
  pub fds : FdSet
  pub kind_hook_fd : FdSet
  pub hook_fd : FdSet
  pub hook_fd_count : ℕ
  pub hook_bit_count : ℕ
  pub normal_nfds : ℤ

unfoldable pub scan_fd : Hook → Scan → ℕ → Scan
scan_fd s k fd =
    if not (k.fds fd)
    then k
    else (if is_valid_fd s (pos fd)
        then record k {
          fds = store k.fds fd false;
          kind_hook_fd = store k.kind_hook_fd fd true;
          hook_fd = store k.hook_fd fd true;
          hook_fd_count = if k.hook_fd fd then k.hook_fd_count else k.hook_fd_count + 1;
          hook_bit_count = k.hook_bit_count + 1;
        }
        else record k { normal_nfds = max_ℤ k.normal_nfds (fd + 1) })

-- The two nested loops visit i * 64 + j for i up to the bound and j below 64, which is every
-- descriptor below 64 * (bound + 1) in order.
unfoldable pub scan_from : Hook → Scan → ℕ → ℕ → Scan
unfolding scan_fd
scan_from s k fd zero = k
scan_from s k fd (suc rounds) = scan_from s (scan_fd s k fd) (fd + 1) rounds

-- A null set is not scanned.
unfoldable pub scan_set : Hook → ℕ → Option FdSet → Scan → Option FdSet × Scan
unfolding scan_from
scan_set s rounds none k = (none, record k { kind_hook_fd = λ _. false })
scan_set s rounds (some fds) k =
    let r = scan_from s (record k { fds = fds; kind_hook_fd = λ _. false }) 0 rounds in
    (some r.fds, r)

-- The descriptors of a set below n, the highest first.
unfoldable pub list_fds : FdSet → ℕ → List ℕ
list_fds set zero = []
list_fds set (suc n) = let rest = list_fds set n in if set n then n ∷ rest else rest

pub record Selected : Type 0 where
  pub readfds : Option FdSet
  pub writefds : Option FdSet
  pub exceptfds : Option FdSet
  pub normal_nfds : ℤ
  pub hook_nfds : List ℕ
  pub read_hook_fd : FdSet
  pub write_hook_fd : FdSet
  pub except_hook_fd : FdSet
  pub hook_bit_count : ℕ

-- For nfds = 0 the bound (nfds - 1) / 64 is 0 in C too.
unfoldable pub get_select_nfds : Hook → ℕ → Option FdSet → Option FdSet → Option FdSet → Selected
unfolding scan_set list_fds
get_select_nfds s nfds readfds writefds exceptfds =
    let rounds = 64 * ((nfds - 1) / 64 + 1) in
    let start : Scan = record {
      fds = λ _. false;
      kind_hook_fd = λ _. false;
      hook_fd = λ _. false;
      hook_fd_count = 0;
      hook_bit_count = 0;
      normal_nfds = minus_one;
    } in
    let r = scan_set s rounds readfds start in
    let w = scan_set s rounds writefds r.1 in
    let e = scan_set s rounds exceptfds w.1 in
    record {
      readfds = r.0;
      writefds = w.0;
      exceptfds = e.0;
      normal_nfds = e.1.normal_nfds;
      hook_nfds = list_fds e.1.hook_fd 1024;
      read_hook_fd = r.1.kind_hook_fd;
      write_hook_fd = w.1.kind_hook_fd;
      except_hook_fd = e.1.kind_hook_fd;
      hook_bit_count = e.1.hook_bit_count;
    }

-- The three sets of the hook's descriptors, and the number of bits in them that are left.
pub record Bits : Type 0 where
  pub read_fd : FdSet
  pub write_fd : FdSet
  pub except_fd : FdSet
  pub bit_count : ℤ

-- One round of `hook_fd_select`; `none` is its early return of -1.
unfoldable pub select_fd : Hook → Bits → ℕ → Option Bits
select_fd s b fd =
    let no_read = record b { read_fd = store b.read_fd fd false; bit_count = dec b.bit_count } in
    let no_write = record b { write_fd = store b.write_fd fd false; bit_count = dec b.bit_count } in
    if (sock s (pos fd)).is_accept_fd
    then (if b.read_fd fd && not (ltb 0 s.connect_queue.size) then some no_read else some b)
    else (if b.read_fd fd
        then (if not (can_read s (pos fd)) then some no_read else some b)
        else (if b.write_fd fd
            then (if not (can_write s (pos fd)) then some no_write else some b)
            else (if b.except_fd fd then none else some b)))

unfoldable pub select_loop : Hook → Bits → List ℕ → Option Bits
unfolding select_fd
select_loop s b [] = some b
select_loop s b (fd ∷ fds) = elim (select_fd s b fd) [ none ↦ none | some c ↦ select_loop s c fds ]

-- The return value, with the sets as they are afterwards: they are narrowed only if a bit is left.
unfoldable pub hook_fd_select : Hook → List ℕ → Bits → ℤ × Bits
unfolding select_loop
hook_fd_select s fds b = elim (select_loop s b fds) [
  | none ↦ (minus_one, b)
  | some c ↦ (c.bit_count, elim c.bit_count [ pos zero ↦ b | pos (suc n) ↦ c | negsuc n ↦ b ])
]

-- FD_SET of each descriptor of the list that is in the hook's set, if the caller's is not null.
unfoldable pub set_fds : List ℕ → FdSet → Option FdSet → Option FdSet
set_fds fds hook none = none
set_fds [] hook (some set) = some set
set_fds (fd ∷ fds) hook (some set) =
    set_fds fds hook (some (if hook fd then store set fd true else set))

unfoldable pub update_fd_set :
    List ℕ
    → Option FdSet
    → Option FdSet
    → Option FdSet
    → Bits
    → Option FdSet × Option FdSet × Option FdSet
unfolding set_fds
update_fd_set fds readfds writefds exceptfds b = (
  set_fds fds b.read_fd readfds,
  set_fds fds b.write_fd writefds,
  set_fds fds b.except_fd exceptfds,
)
