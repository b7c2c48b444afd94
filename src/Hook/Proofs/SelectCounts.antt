-- ===== src/Hook/Proofs/SelectCounts.antt =====
-- What `hook_fd_select` counts and reports.
use socket_hook.Base.{
  is_in, AllDiffer, ℕ, suc, ◌+◌, ◌-◌, ◌≡◌, ◌≢◌, refl, ap, ◌∙◌, inl, inr, pos, dec, Bool, true,
  false, ◌==◌, ltb, if◌then◌else◌, Bool-cases, some, List, [], ◌∷◌, length, arith,
}
use socket_hook.Base.Memory.{store}
use socket_hook.Hook.State.{Hook, sock}
use socket_hook.Hook.Poll.{can_read}
use socket_hook.Hook.Select.{FdSet, Bits, select_fd, select_loop, hook_fd_select}

-- A connection to accept, or something to read.
abbrev pub is_ready : Hook → ℕ → Bool
is_ready s fd =
    if (sock s (pos fd)).is_accept_fd then ltb 0 s.connect_queue.size else can_read s (pos fd)

abbrev pub count_ready : Hook → List ℕ → ℕ
count_ready s [] = 0
count_ready s (x ∷ xs) = (if is_ready s x then 1 else 0) + count_ready s xs

-- The read set once the descriptors of the list have been looked at.
abbrev Narrowed : Hook → List ℕ → FdSet → FdSet → Type 0
Narrowed s fds before after = (x : ℕ) → after x ≡ (if is_in x fds then is_ready s x else before x)

select_fd_lem :
    (s : Hook) (b : Bits) (fd k : ℕ)
    → b.read_fd fd ≡ true
    → b.bit_count ≡ pos (suc k)
    → (c : Bits) × (select_fd s b fd ≡ some c)
      × (c.bit_count ≡ pos ((if is_ready s fd then 1 else 0) + k))
      × ((x : ℕ) → c.read_fd x ≡ (if x == fd then is_ready s fd else b.read_fd x))
unfolding select_fd
select_fd_lem s b fd k r n = elim (Bool-cases (is_ready s fd)) [
  | inl e ↦ (b, ground (arith), ground arith, λ x. ground arith)
  | inr e ↦ (
    record b { read_fd = store b.read_fd fd false; bit_count = dec b.bit_count },
    ground arith,
    ground arith,
    λ x. ground arith,
  )
]

select_loop_lem :
    (s : Hook) (fds : List ℕ) (b : Bits) (k : ℕ)
    → AllDiffer fds
    → ((x : ℕ) → is_in x fds ≡ true → b.read_fd x ≡ true)
    → b.bit_count ≡ pos (length fds + k)
    → (c : Bits) × (select_loop s b fds ≡ some c)
      × (c.bit_count ≡ pos (count_ready s fds + k))
      × Narrowed s fds b.read_fd c.read_fd
unfolding select_loop
select_loop_lem s [] b k d r n = (b, refl, n, λ x. refl)
select_loop_lem s (fd ∷ fds) b k d r n =
    let (c, e, m, f) =
      select_fd_lem s b fd (length fds + k) (r fd (ground arith)) (n ∙ ground arith) in
    let i : ℕ = if is_ready s fd then 1 else 0 in
    let (c', e', m', f') =
      select_loop_lem s fds c (i + k) d.1 (λ x h. ground (arith, f x, r x)) (m ∙ ground arith) in
    (c', rw (select_loop, e) e', m' ∙ ground arith, λ x. ground (arith, f x, f' x))

-- `hook_fd_select` on descriptors that all differ and that are all in the set to read, with the
-- number of them as the number of bits: it returns the number of the descriptors that have
-- something to read or to accept, and if there are any, the set that it leaves keeps of those
-- descriptors exactly these, and all others as they were.
pub hook_fd_select_lem :
    (s : Hook) (fds : List ℕ) (b : Bits)
    → AllDiffer fds
    → ((x : ℕ) → is_in x fds ≡ true → b.read_fd x ≡ true)
    → b.bit_count ≡ pos (length fds)
    → let r = hook_fd_select s fds b in
      (r.0 ≡ pos (count_ready s fds))
      × (count_ready s fds ≢ 0
          → (x : ℕ) → r.1.read_fd x ≡ (if is_in x fds then is_ready s x else b.read_fd x))
unfolding hook_fd_select
hook_fd_select_lem s fds b d r n =
    let (c, e, m, f) = select_loop_lem s fds b 0 d r (n ∙ ground arith) in
    (
      rw (hook_fd_select, e) (m ∙ ap pos (omega arith)),
      λ z x.
          let m' : c.bit_count ≡ pos (suc (count_ready s fds - 1)) = m ∙ ap pos (omega arith) in
          rw (hook_fd_select, e, m') (f x),
    )
