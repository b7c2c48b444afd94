-- ===== src/Hook/Proofs/Selecting.antt =====
-- How `select` parts the caller's sets into the hook's descriptors and the others.
use socket_hook.Base.{
  ℕ, zero, suc, ◌+◌, ◌-◌, ◌*◌, ◌/◌, ◌≤◌, ◌<◌, ◌≡◌, ◌≢◌, refl, ap, ◌⊎◌, inl, inr, ◌∙◌, pos, Bool,
  false, not, ◌&&◌, ◌||◌, Option, none, some, arith,
}
use socket_hook.Hook.State.{Hook, is_valid_fd}
use socket_hook.Hook.Select.{FdSet, Scan, scan_fd, scan_from, scan_set, get_select_nfds}

-- FD_ISSET, where no descriptor is in a null set.
abbrev pub in_set : Option FdSet → ℕ → Bool
in_set none x = false
in_set (some set) x = set x

scan_fd_other :
    (s : Hook) (k : Scan) (fd x : ℕ)
    → x ≢ fd
    → ((scan_fd s k fd).fds x ≡ k.fds x) × ((scan_fd s k fd).kind_hook_fd x ≡ k.kind_hook_fd x)
unfolding scan_fd
scan_fd_other s k fd x h = ground arith

scan_fd_self :
    (s : Hook) (k : Scan) (fd : ℕ)
    → let v = is_valid_fd s (pos fd) in
      ((scan_fd s k fd).fds fd ≡ (k.fds fd && not v))
      × ((scan_fd s k fd).kind_hook_fd fd ≡ ((k.fds fd && v) || k.kind_hook_fd fd))
unfolding scan_fd
scan_fd_self s k fd = ground arith

-- A scan leaves the descriptors below it alone.
scan_from_below :
    (s : Hook) (k : Scan) (fd rounds x : ℕ)
    → x < fd
    → ((scan_from s k fd rounds).fds x ≡ k.fds x)
      × ((scan_from s k fd rounds).kind_hook_fd x ≡ k.kind_hook_fd x)
unfolding scan_from
scan_from_below s k fd zero x h = (refl, refl)
scan_from_below s k fd (suc rounds) x h =
    let (a, b) = scan_from_below s (scan_fd s k fd) (fd + 1) rounds x (omega arith) in
    let (c, d) = scan_fd_other s k fd x (omega arith) in (a ∙ c, b ∙ d)

-- Of the descriptors that it visits it takes the hook's out of the set.
scan_from_inside :
    (s : Hook) (k : Scan) (fd rounds x : ℕ)
    → fd ≤ x
    → x < fd + rounds
    → let v = is_valid_fd s (pos x) in
      ((scan_from s k fd rounds).fds x ≡ (k.fds x && not v))
      × ((scan_from s k fd rounds).kind_hook_fd x ≡ ((k.fds x && v) || k.kind_hook_fd x))
unfolding scan_from
scan_from_inside s k fd zero x h l = absurd (omega arith)
scan_from_inside s k fd (suc rounds) x h l = elim (fd_cases fd x) [
  | inl q ↦
      let (a, b) = scan_from_below s (scan_fd s k fd) (fd + 1) rounds x (omega arith) in
      let (c, d) = scan_fd_self s k fd in
      (
        a ∙ ap (scan_fd s k fd).fds q ∙ c ∙ rw q refl,
        b ∙ ap (scan_fd s k fd).kind_hook_fd q ∙ d ∙ rw q refl,
      )
  | inr q ↦
      let (a, b) =
        scan_from_inside s (scan_fd s k fd) (fd + 1) rounds x (omega arith) (omega arith) in
      let (c, d) = scan_fd_other s k fd x q in (rw (a, c) refl, rw (b, c, d) refl)
]
  where
    fd_cases : (fd x : ℕ) → (x ≡ fd) ⊎ (x ≢ fd)
    fd_cases fd x = ground arith

scan_set_inside :
    (s : Hook) (rounds : ℕ) (fds : Option FdSet) (k : Scan) (x : ℕ)
    → x < rounds
    → let v = is_valid_fd s (pos x) in
      let r = scan_set s rounds fds k in
      (in_set r.0 x ≡ (in_set fds x && not v)) × (r.1.kind_hook_fd x ≡ (in_set fds x && v))
unfolding scan_set
scan_set_inside s rounds none k x h = (refl, refl)
scan_set_inside s rounds (some fds) k x h =
    let c : Scan = record k { fds = fds; kind_hook_fd = λ _. false } in
    let (a, b) = scan_from_inside s c 0 rounds x (omega arith) (omega arith) in
    (a, b ∙ ground arith)

-- The bound of the scans in whole words of 64 reaches the number of descriptors asked for.
words_lem : (n : ℕ) → n ≤ 64 * ((n - 1) / 64 + 1)
words_lem n = omega arith

-- `get_select_nfds` parts each of the caller's three sets exactly, among the descriptors below
-- `nfds`: the ones that are open in the hook leave the set and are in the hook's array for it, the
-- others stay and are not in that array; of a null set the array is empty.
pub get_select_nfds_lem :
    (s : Hook) (nfds : ℕ) (readfds writefds exceptfds : Option FdSet) (x : ℕ)
    → x < nfds
    → let g = get_select_nfds s nfds readfds writefds exceptfds in
      let v = is_valid_fd s (pos x) in
      ((in_set g.readfds x ≡ (in_set readfds x && not v))
        × (g.read_hook_fd x ≡ (in_set readfds x && v)))
      × ((in_set g.writefds x ≡ (in_set writefds x && not v))
          × (g.write_hook_fd x ≡ (in_set writefds x && v)))
      × ((in_set g.exceptfds x ≡ (in_set exceptfds x && not v))
          × (g.except_hook_fd x ≡ (in_set exceptfds x && v)))
unfolding get_select_nfds
get_select_nfds_lem s nfds r w e x h =
    let l : x < 64 * ((nfds - 1) / 64 + 1) = omega (arith, words_lem nfds) in
    (scan_set_inside s _ r _ x l, scan_set_inside s _ w _ x l, scan_set_inside s _ e _ x l)
