-- ===== src/Hook/Proofs/Owners/Giving.antt =====
-- Giving a descriptor back, and calls that leave the owners as they were.
use socket_hook.Base.{
  ℕ, ◌+◌, ◌<◌, ◌≤◌, ◌≡◌, refl, ap, subst, ◌∙◌, ℤ, List, pos, eq_ℤ, true, false, ◌==◌, Bool-cases,
  inl, inr, ◌∷◌, length, arith,
}
use socket_hook.Base.Sums.{sum, bit, count, sum-eq, sum_add, sum_one, le-sum, length-sum}
use socket_hook.Stack.{push}
use socket_hook.Stack.Laws.{IsValid, contents, push_refines}
use socket_hook.Hook.State.{Hook, MySocket, sock, set_sock}
use socket_hook.Hook.Proofs.Owners.{IsSound, holds}
use socket_hook.Hook.Proofs.Owners.Stacks.{push-contents}
use socket_hook.Hook.Proofs.Owners.Opening.{holders_off, holds_taken}

-- The same descriptors and share units are free and open.
pub record Keeps (s t : Hook) : Type 0 where
  pub fds : t.available_fd ≡ s.available_fd
  pub units : t.available_share_unit ≡ s.available_share_unit
  pub opens : (n : ℕ) → (t.socket_arr n).in_use ≡ (s.socket_arr n).in_use
  pub served : (n : ℕ) → (t.socket_arr n).share_unit_index ≡ (s.socket_arr n).share_unit_index

pub Keeps-refl : (s : Hook) → Keeps s s
Keeps-refl s = record { fds = refl; units = refl; opens = λ n. refl; served = λ n. refl }

pub Keeps-trans : {s t u : Hook} → Keeps s t → Keeps t u → Keeps s u
Keeps-trans a b = record {
  fds = b.fds ∙ a.fds;
  units = b.units ∙ a.units;
  opens = λ n. b.opens n ∙ a.opens n;
  served = λ n. b.served n ∙ a.served n;
}

-- A socket may change in all else.
pub set_sock-Keeps :
    (s : Hook) (fd : ℤ) (k : MySocket)
    → k.in_use ≡ (sock s fd).in_use
    → k.share_unit_index ≡ (sock s fd).share_unit_index
    → Keeps s (set_sock s fd k)
set_sock-Keeps s fd k a b = record {
  fds = refl;
  units = refl;
  opens = λ n. ground arith;
  served = λ n. ground arith;
}

-- A state with the same stacks and sockets.
pub alike :
    {s t : Hook}
    → t.available_fd ≡ s.available_fd
    → t.available_share_unit ≡ s.available_share_unit
    → t.socket_arr ≡ s.socket_arr
    → Keeps s t
alike a b c = record { fds = a; units = b; opens = λ n. rw c refl; served = λ n. rw c refl }

pub Keeps-IsSound : {s t : Hook} → Keeps s t → IsSound s → IsSound t
Keeps-IsSound {s} {t} k w =
    let e : (i n : ℕ) → holds (t.socket_arr n) i ≡ holds (s.socket_arr n) i =
      λ i n. rw (k.opens n, k.served n) refl in
    record {
      fd_stack = rw k.fds w.fd_stack;
      fd_capacity = rw k.fds w.fd_capacity;
      unit_stack = rw k.units w.unit_stack;
      in_range = rw k.fds w.in_range;
      one_owner = λ n h. rw (k.fds, k.opens n) (w.one_owner n h);
      one_unit = λ i.
          let q =
            sum-eq (λ n. holds (t.socket_arr n) i) (λ n. holds (s.socket_arr n) i) 1024
              (λ n l. e i n) in
          rw k.units (omega (arith, q, w.one_unit i));
    }

-- While a socket is open, the stack of free descriptors has room for its descriptor.
fd_room :
    (s : Hook) (fd : ℕ)
    → IsSound s
    → fd < 1024
    → (s.socket_arr fd).in_use ≡ true
    → length (contents s.available_fd) < s.available_fd.capacity
fd_room s fd w l o =
    let f : ℕ → ℕ = λ n. count n (contents s.available_fd) in
    let g : ℕ → ℕ = λ n. bit (s.socket_arr n).in_use in
    let a = sum-eq (λ n. f n + g n) (λ n. 1) 1024 w.one_owner in
    let b : 1 ≤ sum g 1024 = omega (arith, le-sum g fd 1024 l, ap bit o) in
    omega (
      arith,
      a,
      b,
      sum_one 1024,
      sum_add f g 1024,
      length-sum 1024 (contents s.available_fd) w.in_range,
      w.fd_capacity,
    )

owner_given :
    (f g : ℕ → MySocket) (xs : List ℤ) (fd n : ℕ)
    → ((x : ℕ) → (fd == x) ≡ false → g x ≡ f x)
    → (f fd).in_use ≡ true
    → (g fd).in_use ≡ false
    → count n xs + bit (f n).in_use ≡ 1
    → count n (pos fd ∷ xs) + bit (g n).in_use ≡ 1
owner_given f g xs fd n h u v o = elim (Bool-cases (fd == n)) [
  | inl e ↦
      let q : fd ≡ n = ground arith in
      let a : (f n).in_use ≡ true = subst (λ x. (f x).in_use ≡ true) q u in
      let b : (g n).in_use ≡ false = subst (λ x. (g x).in_use ≡ false) q v in ground arith
  | inr e ↦
      let a : (g n).in_use ≡ (f n).in_use = ap {A = MySocket} (λ k. k.in_use) (h n e) in
      rw a (ground arith)
]

-- The descriptor of an open socket goes back to the stack, and its share unit may.
pub give-IsSound :
    (s t : Hook) (fd : ℕ) (x : ℤ)
    → IsSound s
    → fd < 1024
    → (s.socket_arr fd).in_use ≡ true
    → (s.socket_arr fd).share_unit_index ≡ x
    → t.available_fd ≡ push s.available_fd (pos fd)
    → (t.socket_arr fd).in_use ≡ false
    → ((n : ℕ) → (fd == n) ≡ false → t.socket_arr n ≡ s.socket_arr n)
    → IsValid t.available_share_unit
    → ((i : ℕ)
        → count i (contents t.available_share_unit)
          ≤ bit (eq_ℤ x (pos i)) + count i (contents s.available_share_unit))
    → IsSound t
give-IsSound s t fd x w l o u p c f v m =
    let (a, b, d) = push_refines s.available_fd (pos fd) w.fd_stack in
    let e = push-contents s.available_fd (pos fd) w.fd_stack (fd_room s fd w l o) in
    record {
      fd_stack = rw p a;
      fd_capacity = rw p (d ∙ w.fd_capacity);
      unit_stack = v;
      in_range = rw (p, e) (refl, l, w.in_range);
      one_owner = λ n h.
          rw (p, e)
            (owner_given s.socket_arr t.socket_arr (contents s.available_fd) fd n f o c
              (w.one_owner n h));
      one_unit = λ i.
          let z : holds (t.socket_arr fd) i ≡ 0 = rw c refl in
          omega (
            arith,
            holders_off s t fd i l f,
            z,
            holds_taken (s.socket_arr fd) x i o u,
            m i,
            w.one_unit i,
          );
    }
