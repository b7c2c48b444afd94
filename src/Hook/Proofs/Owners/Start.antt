-- ===== src/Hook/Proofs/Owners/Start.antt =====
-- Who owns the descriptors and the share units at the start, and that open sockets share nothing.
use socket_hook.Base.{
  ℕ, zero, suc, ◌+◌, ◌≤◌, ◌<◌, ◌≡◌, ◌≢◌, refl, subst, ℤ, pos, true, false, leb, ltb, ◌&&◌, List, [],
  ◌∷◌, ◌++◌, inl, not, ==_of_ne, mod-lt, Bool, some, arith,
}
use socket_hook.Base.Sums.{bit, count, AllBelow, count-append, sum_zero, le-sum, two_le-sum}
use socket_hook.Base.Memory
use socket_hook.Queue.Refine as Queue
use socket_hook.ShareQueue.Stream as Stream
use socket_hook.Hook.Proofs.Settings.{init_connect_accept_queue_lem}
use socket_hook.Stack.Laws.{contents}
use socket_hook.Hook.State.{Hook, Server, ret, sock, is_valid_fd, is_tinydtls}
use socket_hook.Hook.Init.Constructor.{Surroundings, server_of, initial, init}
use socket_hook.Hook.Init.{init_share_queue}
use socket_hook.Hook.Proofs.Cpus.{IsPinned, step_ne}
use socket_hook.Hook.Proofs.Resources.{down_to, init_stacks_lem, init_stacks-capacity}
use socket_hook.Hook.Proofs.Owners.{IsSound, holds}
use socket_hook.Hook.Proofs.Owners.Reach.{Reach, Reach-IsSound}

count-down_to : (n i m : ℕ) → count n (down_to i m) ≡ bit (leb i n && ltb n (i + m))
unfolding down_to
count-down_to n i zero = ground arith
count-down_to n i (suc m) =
    let a = count-append n (down_to (i + 1) m) (pos i ∷ []) in
    let b = count-down_to n (i + 1) m in ground (arith, a, b)

AllBelow-append : (n : ℕ) (xs ys : List ℤ) → AllBelow n xs → AllBelow n ys → AllBelow n (xs ++ ys)
AllBelow-append n [] ys h k = k
AllBelow-append n (x ∷ xs) ys (a, b, h) k = (a, b, AllBelow-append n xs ys h k)

AllBelow-down_to : (i m : ℕ) → AllBelow (i + m) (down_to i m)
unfolding down_to
AllBelow-down_to i zero = tt
AllBelow-down_to i (suc m) =
    AllBelow-append (i + suc m) (down_to (i + 1) m) (pos i ∷ [])
      (subst (λ n. AllBelow n (down_to (i + 1) m)) (omega arith) (AllBelow-down_to (i + 1) m))
      (refl, omega arith, tt)

-- All descriptors and all share units are free at the start.
pub initial-IsSound : (w : Surroundings) (server : Server) → IsSound (initial w server)
unfolding initial
initial-IsSound w server =
    let (v, c, u, d) = init_stacks_lem w.fd_cells w.unit_cells in
    record {
      fd_stack = v;
      fd_capacity = init_stacks-capacity w.fd_cells w.unit_cells;
      unit_stack = u;
      in_range = rw c (AllBelow-down_to 0 1024);
      one_owner = λ n h. rw c (ground (arith, count-down_to n 0 1024));
      one_unit = λ i. rw d (ground (arith, sum_zero 1024));
    }

-- The queues of the handshake and the stream queues of the share units are valid and empty.
pub record Ready (t : Hook) : Type 0 where
  pub connect_valid : Queue.IsValid t.connect_queue
  pub connect_empty : Queue.contents t.connect_queue ≡ []
  pub accept_valid : Queue.IsValid t.accept_queue
  pub accept_empty : Queue.contents t.accept_queue ≡ []
  pub request_valid : (i : ℕ) → Stream.IsValid (t.units i).request_queue
  pub request_empty : (i : ℕ) → Stream.bytes t.shm (t.units i).request_queue ≡ []
  pub response_valid : (i : ℕ) → Stream.IsValid (t.units i).response_queue
  pub response_empty : (i : ℕ) → Stream.bytes t.shm (t.units i).response_queue ≡ []

new_queue-IsValid :
    (m i : ℕ) (b : Bool)
    → let u = init_share_queue m i b in
      Stream.IsValid u.request_queue × Stream.IsValid u.response_queue
unfolding init_share_queue
new_queue-IsValid m i true = (
  record { room = omega arith; size_in = omega arith; ends = inl (refl, refl, refl) },
  record { room = omega arith; size_in = omega arith; ends = inl (refl, refl, refl) },
)
new_queue-IsValid m i false = (
  record { room = omega arith; size_in = omega arith; ends = inl (refl, refl, refl) },
  record { room = omega arith; size_in = omega arith; ends = inl (refl, refl, refl) },
)

initial-Ready : (w : Surroundings) (server : Server) → Ready (initial w server)
unfolding initial init_share_queue Memory.window
initial-Ready w server =
    let (a, v, e, u, f) = init_connect_accept_queue_lem w.connections w.acceptions in
    let b = not (is_tinydtls server) in
    record {
      connect_valid = v;
      connect_empty = e;
      accept_valid = u;
      accept_empty = f;
      request_valid = λ i. (new_queue-IsValid w.mutex_size i b).0;
      request_empty = λ i. refl;
      response_valid = λ i. (new_queue-IsValid w.mutex_size i b).1;
      response_empty = λ i. refl;
    }

initial-IsPinned :
    (w : Surroundings) (server : Server) → 2 ≤ w.cpus → w.cpu < w.cpus → IsPinned (initial w server)
unfolding initial
initial-IsPinned w server h l = record {
  many = h;
  there = mod-lt (w.cpu + 1) {m = w.cpus} (omega arith);
  apart = step_ne w.cpu w.cpus h l;
}

init-ret :
    (w : Surroundings) (name : List ℕ)
    → w.server_type ≡ some name
    → w.memory_there ≡ true
    → init w ≡ ret tt (initial w (server_of name))
unfolding init
init-ret w name n m = rw (n, m) refl

-- Where SERVER is set and the share memories are there, on a machine of two CPUs or more, the
-- constructor returns; all descriptors from 1023 down to 0 and all share units from 0 to 4 are then
-- free, in the order in which they will be taken, and have one owner each; the queues in the share
-- memory are valid and empty; the next CPU is in range and not the fuzzer's.
pub init_lem :
    (w : Surroundings) (name : List ℕ)
    → w.server_type ≡ some name
    → w.memory_there ≡ true
    → 2 ≤ w.cpus
    → w.cpu < w.cpus
    → let t = initial w (server_of name) in
      (init w ≡ ret tt t)
      × IsSound t
      × (contents t.available_fd ≡ down_to 0 1024)
      × (contents t.available_share_unit ≡ pos 0 ∷ pos 1 ∷ pos 2 ∷ pos 3 ∷ pos 4 ∷ [])
      × IsPinned t
      × Ready t
unfolding initial
init_lem w name n m h l =
    let (v, c, u, d) = init_stacks_lem w.fd_cells w.unit_cells in
    (
      init-ret w name n m,
      initial-IsSound w (server_of name),
      c,
      d,
      initial-IsPinned w (server_of name) h l,
      initial-Ready w (server_of name),
    )

valid_open :
    (t : Hook) (fd : ℕ)
    → is_valid_fd t (pos fd) ≡ true
    → (fd < 1024) × ((t.socket_arr fd).in_use ≡ true)
unfolding is_valid_fd
valid_open t fd v = (ground arith, ground arith)

-- In a state that the hook reaches from its start, by the calls of `Reach` (where `accept` finds a
-- free share unit and gets the lock, and `bind` gets an address of 32 bytes at most), two open
-- sockets that are on share units are on different ones, and neither unit is free.
pub open-apart :
    (w : Surroundings) (server : Server) {t : Hook} (fd fd' i j : ℕ)
    → Reach (initial w server) t
    → is_valid_fd t (pos fd) ≡ true
    → is_valid_fd t (pos fd') ≡ true
    → fd ≢ fd'
    → (sock t (pos fd)).share_unit_index ≡ pos i
    → (sock t (pos fd')).share_unit_index ≡ pos j
    → (i ≢ j)
      × (count i (contents t.available_share_unit) ≡ 0)
      × (count j (contents t.available_share_unit) ≡ 0)
open-apart w server {t} fd fd' i j r v v' d u u' =
    let k = Reach-IsSound (initial-IsSound w server) r in
    let (l, o) = valid_open t fd v in
    let (l', o') = valid_open t fd' v' in
    let a : holds (t.socket_arr fd) i ≡ 1 = rw (o, u) (ground arith) in
    let a' : holds (t.socket_arr fd') j ≡ 1 = rw (o', u') (ground arith) in
    let b = le-sum (λ n. holds (t.socket_arr n) i) fd 1024 l in
    let b' = le-sum (λ n. holds (t.socket_arr n) j) fd' 1024 l' in
    let c = two_le-sum (λ n. holds (t.socket_arr n) i) fd fd' 1024 l l' (==_of_ne fd fd' d) in
    (
      λ e.
          let a2 : holds (t.socket_arr fd') i ≡ 1 = rw e a' in
          omega (arith, a, a2, c, k.one_unit i),
      omega (arith, a, b, k.one_unit i),
      omega (arith, a', b', k.one_unit j),
    )
