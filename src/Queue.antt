-- ===== src/Queue.antt =====
-- queue.h and queue.c: bounded circular queues. `Queue` keeps ints in an array of its own;
-- `connect_queue` and `accept_queue` keep structs in the connect share memory. Their code is the
-- same but for the type of the items and the answer of an empty queue, so one record serves all.
pub mod Refine
pub mod Run
use socket_hook.Base.{
  ℕ, zero, suc, ◌+◌, ◌-◌, ◌%◌, ◌^◌, ℤ, pos, minus_one, int_min, Bool, ◌==◌, if◌then◌else◌, Option,
  none, some, List, [], ◌∷◌,
}
use socket_hook.Base.Memory.{store}

-- `front`, `rear` and `size` are ints that the source only adds to and compares with the unsigned
-- `capacity`: they are kept as 32-bit patterns. `array` is the array of the struct, or the cells of
-- the share memory from `queue_start_offset` on.
pub record Queue {ℓ} (A : Type ℓ) : Type ℓ where
  pub front : ℕ
  pub rear : ℕ
  pub size : ℕ
  pub capacity : ℕ
  pub array : ℕ → A

-- a + b and a - b on 32-bit patterns
abbrev pub add32 : ℕ → ℕ → ℕ
add32 a b = (a + b) % 2 ^ 32

abbrev pub sub32 : ℕ → ℕ → ℕ
sub32 a b = (a + 2 ^ 32 - b) % 2 ^ 32

-- `struct int_array`
pub record IntArray {ℓ} (A : Type ℓ) : Type ℓ where
  pub arr : List A
  pub length : ℕ

-- The address of a socket, as far as the source reads it: `cmp_addr` compares these two fields.
pub record SockAddr : Type 0 where
  pub sin_family : ℕ
  pub sin_port : ℕ

-- `struct connection`
pub record Connection : Type 0 where
  pub addr : SockAddr
  pub client_fd : ℤ

-- `struct acception`
pub record Acception : Type 0 where
  pub client_fd : ℤ
  pub share_unit_index : ℤ

module _ {ℓ} {A : Type ℓ} where
  unfoldable pub create_queue : (ℕ → A) → ℕ → Queue A
  create_queue cells capacity = record {
    front = 0;
    rear = sub32 capacity 1;
    size = 0;
    capacity = capacity;
    array = cells;
  }

  unfoldable pub is_full_queue : Queue A → Bool
  is_full_queue q = q.size == q.capacity

  unfoldable pub is_empty_queue : Queue A → Bool
  is_empty_queue q = q.size == 0

  unfoldable pub enqueue : Queue A → A → ℤ × Queue A
  unfolding is_full_queue
  enqueue q item =
      let rear' = add32 q.rear 1 % q.capacity in
      if is_full_queue q then (minus_one, q) else (
        pos 0,
        record q { rear = rear'; array = store q.array rear' item; size = add32 q.size 1 },
      )

  -- The queue once its front item is read.
  unfoldable pub advance : Queue A → Queue A
  advance q = record q { front = add32 q.front 1 % q.capacity; size = sub32 q.size 1 }

  -- The loop of `getQueueArray` from index i on, with `rounds` rounds to go.
  unfoldable pub copy_items : Queue A → ℕ → ℕ → List A
  copy_items q i zero = []
  copy_items q i (suc rounds) = q.array (add32 q.front i % q.capacity) ∷ copy_items q (i + 1) rounds

  -- Of a queue that is there: `none` is the null pointer.
  unfoldable pub get_queue_array : Queue A → Option (IntArray A)
  unfolding copy_items
  get_queue_array q =
      if q.size == 0 then none else some (record { arr = copy_items q 0 q.size; length = q.size })

  -- What both queues in share memory do to take an item: `none` is the null pointer.
  unfoldable pub take_item : Queue A → Option A × Queue A
  unfolding is_empty_queue advance
  take_item q = if is_empty_queue q then (none, q) else (some (q.array q.front), advance q)

unfoldable pub dequeue : Queue ℤ → ℤ × Queue ℤ
unfolding is_empty_queue advance
dequeue q = if is_empty_queue q then (int_min, q) else (q.array q.front, advance q)

abbrev pub ConnectQueue : Type 0
ConnectQueue = Queue Connection

abbrev pub AcceptQueue : Type 0
AcceptQueue = Queue Acception

unfoldable pub create_connect_queue : (ℕ → Connection) → ℕ → ConnectQueue
unfolding create_queue
create_connect_queue cells capacity = create_queue cells capacity

unfoldable pub connect_enqueue : ConnectQueue → Connection → ℤ × ConnectQueue
unfolding enqueue
connect_enqueue q item = enqueue q item

unfoldable pub connect_dequeue : ConnectQueue → Option Connection × ConnectQueue
unfolding take_item
connect_dequeue q = take_item q

unfoldable pub create_accept_queue : (ℕ → Acception) → ℕ → AcceptQueue
unfolding create_queue
create_accept_queue cells capacity = create_queue cells capacity

unfoldable pub accept_enqueue : AcceptQueue → Acception → ℤ × AcceptQueue
unfolding enqueue
accept_enqueue q item = enqueue q item

unfoldable pub accept_dequeue : AcceptQueue → Option Acception × AcceptQueue
unfolding take_item
accept_dequeue q = take_item q
