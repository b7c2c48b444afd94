-- ===== src/Tests/Owners.antt =====
-- The owners of descriptors and share units after two calls of `socket`, and after a failed
-- `accept`.
use socket_hook.Base.{
  ℕ, zero, suc, ◌+◌, ◌≡◌, ◌≢◌, refl, ap, ◌∙◌, ℤ, pos, minus_one, true, false, none, some, List, [],
  ◌∷◌, ◌++◌, arith,
}
use socket_hook.Base.Sums.{count}
use socket_hook.Stack.{create_stack, pop}
use socket_hook.Stack.Laws.{contents, create_stack-IsValid}
use socket_hook.Hook.State.{
  Hook, MySocket, ret, dnsmasq, no_addr, af_inet, sock_stream, sock, is_valid_fd,
  not_hook_socket_type,
}
use socket_hook.Hook.Init.{init_socket}
use socket_hook.Hook.Init.Constructor.{Surroundings, server_of, initial, init}
use socket_hook.Hook.Sockets.{socket}
use socket_hook.Hook.Accept.{accept}
use socket_hook.Hook.Proofs.Resources.{down_to, init_stacks_lem}
use socket_hook.Hook.Proofs.Lifecycle.{
  HasFree, opened, made, pop-some, init_socket_lem, note_tinydtls-same, socket_lem,
}
use socket_hook.Hook.Proofs.Cpus.{IsPinned}
use socket_hook.Hook.Proofs.Owners.{IsSound}
use socket_hook.Hook.Proofs.Owners.Opening.{init_socket-effect}
use socket_hook.Hook.Proofs.Owners.Reach.{
  Step, socket_call, Reach, here, next, Step-IsSound, Reach-IsSound,
}
use socket_hook.Hook.Proofs.Owners.Start.{initial-IsSound, Ready, init_lem, open-apart}
use socket_hook.Hook.Proofs.Owners.Leaks.{given_back, accept-leaks}
use socket_hook.Tests.Hooks.{os}

-- The last descriptor that the constructor pushed is the highest.
down_to-top : (i n : ℕ) → down_to i (suc n) ≡ pos (i + n) ∷ down_to i n
unfolding down_to
down_to-top i zero = ap (λ k. pos k ∷ []) (omega arith)
down_to-top i (suc n) =
    ap (λ l. l ++ pos i ∷ []) (down_to-top (i + 1) n)
    ∙ ap (λ k. pos k ∷ (down_to (i + 1) n ++ pos i ∷ [])) (omega arith)

abbrev no_cells : ℕ → ℤ
no_cells n = pos 0

abbrev surroundings : Surroundings
surroundings = record {
  server_type = some (68 ∷ 78 ∷ 83 ∷ 77 ∷ 65 ∷ 83 ∷ 81 ∷ []);
  memory_there = true;
  shm = λ i. i;
  messages = λ i j. record { length = 0; buf = [] };
  connections = λ i. record { client_fd = pos 999; addr = no_addr };
  acceptions = λ i. record { client_fd = pos 999; share_unit_index = pos 0 };
  fd_cells = no_cells;
  unit_cells = no_cells;
  log_file = none;
  cpus = 4;
  cpu = 3;
  mutex_size = 40;
}

abbrev at_start : Hook
at_start = initial surroundings dnsmasq

abbrev with_one : Hook
with_one = opened os at_start af_inet sock_stream (pos 0) 1023

abbrev with_two : Hook
with_two = opened os with_one af_inet sock_stream (pos 0) 1022

abbrev four_units : List ℤ
four_units = pos 1 ∷ pos 2 ∷ pos 3 ∷ pos 4 ∷ []

at_start-HasFree : HasFree at_start 1023 0 (down_to 0 1023) four_units
unfolding initial
at_start-HasFree =
    let (v, c, w, d) = init_stacks_lem no_cells no_cells in
    record {
      fd_valid = v;
      unit_valid = w;
      fd_in = omega arith;
      unit_in = omega arith;
      free_fds = c ∙ down_to-top 0 1023;
      free_units = d;
    }

takes : not_hook_socket_type at_start.server af_inet sock_stream (pos 0) ≡ false
unfolding not_hook_socket_type initial
takes = refl

first_call : Step at_start with_one
first_call =
    socket_call os af_inet sock_stream (pos 0) (pos 1023)
      (socket_lem os at_start af_inet sock_stream (pos 0) 1023 0 (down_to 0 1023) four_units
        at_start-HasFree takes).0

with_one-IsSound : IsSound with_one
with_one-IsSound = Step-IsSound first_call (initial-IsSound surroundings dnsmasq)

-- What the first call leaves.
one_lem :
    (is_valid_fd with_one (pos 1023) ≡ true)
    × (sock with_one (pos 1023) ≡ made af_inet sock_stream (pos 0) 0)
    × (contents with_one.available_fd ≡ down_to 0 1023)
    × (contents with_one.available_share_unit ≡ pos 1 ∷ pos 2 ∷ pos 3 ∷ pos 4 ∷ [])
one_lem =
    let r =
      socket_lem os at_start af_inet sock_stream (pos 0) 1023 0 (down_to 0 1023) four_units
        at_start-HasFree takes in
    (r.1, r.2, r.3, r.4)

with_one-HasFree : HasFree with_one 1022 1 (down_to 0 1022) (pos 2 ∷ pos 3 ∷ pos 4 ∷ [])
with_one-HasFree = record {
  fd_valid = with_one-IsSound.fd_stack;
  unit_valid = with_one-IsSound.unit_stack;
  fd_in = omega arith;
  unit_in = omega arith;
  free_fds = one_lem.2 ∙ down_to-top 0 1022;
  free_units = one_lem.3;
}

one_takes : not_hook_socket_type with_one.server af_inet sock_stream (pos 0) ≡ false
one_takes =
    let h = at_start-HasFree in
    let g = pop-some at_start.available_share_unit (pos 0) four_units h.unit_valid h.free_units in
    let s1 : Hook = record at_start { available_fd = (pop at_start.available_fd).1 } in
    let s2 = (init_socket os.mutex_size s1 (pos 1023) af_inet sock_stream (pos 0)).1 in
    let r = init_socket_lem os.mutex_size s1 (pos 1023) af_inet sock_stream (pos 0) 0 g.0 in
    let q = note_tinydtls-same s2 (pos 1023) in rw (q.4 ∙ r.5) takes

two_lem :
    let r = with_two in
    (socket os with_one af_inet sock_stream (pos 0) ≡ ret (pos 1022) r)
    × (is_valid_fd r (pos 1022) ≡ true)
    × (sock r (pos 1022) ≡ made af_inet sock_stream (pos 0) 1)
    × (sock r (pos 1023) ≡ sock with_one (pos 1023))
two_lem =
    let r =
      socket_lem os with_one af_inet sock_stream (pos 0) 1022 1 (down_to 0 1022)
        (pos 2 ∷ pos 3 ∷ pos 4 ∷ []) with_one-HasFree one_takes in
    let s1 : Hook = record with_one { available_fd = (pop with_one.available_fd).1 } in
    let s2 = (init_socket os.mutex_size s1 (pos 1022) af_inet sock_stream (pos 0)).1 in
    let q = note_tinydtls-same s2 (pos 1022) in
    let e = init_socket-effect os.mutex_size s1 1022 af_inet sock_stream (pos 0) in
    (r.0, r.1, r.2, ap {A = ℕ → MySocket} (λ k. k 1023) q.0 ∙ e.4 1023 refl)

two_calls : Reach at_start with_two
two_calls =
    next (next here first_call) (socket_call os af_inet sock_stream (pos 0) (pos 1022) two_lem.0)

Reach-IsSound_example : IsSound with_two
Reach-IsSound_example = Reach-IsSound (initial-IsSound surroundings dnsmasq) two_calls

two_open : is_valid_fd with_two (pos 1023) ≡ true
unfolding is_valid_fd
two_open = rw two_lem.3 one_lem.0

open-apart_example :
    (◌≢◌ {A = ℕ} 0 1)
    × (count 0 (contents with_two.available_share_unit) ≡ 0)
    × (count 1 (contents with_two.available_share_unit) ≡ 0)
open-apart_example =
    open-apart surroundings dnsmasq 1023 1022 0 1 two_calls two_open two_lem.1 (omega arith)
      (ap {A = MySocket} (λ k. k.share_unit_index) (two_lem.3 ∙ one_lem.1))
      (ap {A = MySocket} (λ k. k.share_unit_index) two_lem.2)

-- The first socket is there, no share unit is free, and a connection waits.
abbrev all_taken : Hook
all_taken = record with_one {
  available_share_unit = create_stack no_cells 5;
  connect_queue = record with_one.connect_queue { size = 1 };
}

no_units : contents (create_stack no_cells 5) ≡ []
no_units = (create_stack-IsValid no_cells 5 (omega arith)).1

all_taken-IsSound : IsSound all_taken
all_taken-IsSound = record {
  fd_stack = with_one-IsSound.fd_stack;
  fd_capacity = with_one-IsSound.fd_capacity;
  unit_stack = (create_stack-IsValid no_cells 5 (omega arith)).0;
  in_range = with_one-IsSound.in_range;
  one_owner = with_one-IsSound.one_owner;
  one_unit = λ i. rw no_units (omega (arith, with_one-IsSound.one_unit i));
}

accept-leaks_example :
    (accept os [] all_taken (pos 1023) ≡ ret minus_one (given_back os all_taken (pos 1023) 1022))
    × (contents (given_back os all_taken (pos 1023) 1022).available_fd ≡ pos 1022 ∷ down_to 0 1022)
    × (is_valid_fd (given_back os all_taken (pos 1023) 1022) (pos 1022) ≡ true)
    × (¬ IsSound (given_back os all_taken (pos 1023) 1022))
unfolding is_valid_fd
accept-leaks_example =
    accept-leaks os [] all_taken (pos 1023) 1022 (down_to 0 1022) all_taken-IsSound one_lem.0
      (omega arith) (one_lem.2 ∙ down_to-top 0 1022) no_units

init_lem_example :
    let t = initial surroundings dnsmasq in
    (init surroundings ≡ ret tt t)
    × IsSound t
    × (contents t.available_fd ≡ down_to 0 1024)
    × (contents t.available_share_unit ≡ pos 0 ∷ four_units)
    × IsPinned t
    × Ready t
unfolding server_of
init_lem_example =
    init_lem surroundings (68 ∷ 78 ∷ 83 ∷ 77 ∷ 65 ∷ 83 ∷ 81 ∷ []) refl refl (omega arith)
      (omega arith)
