-- ===== src/Hook/Init/Layout.antt =====
-- Where `init_share_queue` puts the arrays of the queues, against the layout of `share_unit`.
use socket_hook.Base.{ℕ, suc, ◌+◌, ◌-◌, ◌*◌, ◌/◌, ◌%◌, ◌≤◌, ◌<◌, ◌≡◌, Bool, true, false, arith}
use socket_hook.Hook.State.{stream_queue_capacity, socket_num}
use socket_hook.Hook.Init.{queue_size, init_share_queue}

-- The next multiple of a, from n on.
abbrev pub align_up : ℕ → ℕ → ℕ
align_up n a = (n + (a - 1)) / a * a

-- The fields of `share_unit` behind its two queue headers, by the rules of C; a mutex has size m
-- and is aligned to 8 bytes.
abbrev pub request_buf_field : ℕ → ℕ
request_buf_field m = align_up (2 * queue_size) 8 + 2 * m

abbrev pub response_buf_field : ℕ → ℕ
response_buf_field m = request_buf_field m + stream_queue_capacity

abbrev pub share_unit_size : ℕ → ℕ
share_unit_size m = align_up (response_buf_field m + stream_queue_capacity) 8

-- The bytes of one item of a queue: a byte, or a message_t.
abbrev pub item_size : Bool → ℕ
item_size true = 1
item_size false = 1504

share_unit_size_lem : (m : ℕ) → m % 8 ≡ 0 → share_unit_size m ≡ 150440 + 2 * m
share_unit_size_lem m h = omega arith

-- With mutexes whose size is a multiple of 8: the array of a queue begins at the field of its share
-- unit that is meant for it, and its `capacity` items fill that field exactly, in a queue of bytes
-- and in a queue of messages.
pub init_share_queue_layout :
    (m i : ℕ) (is_stream : Bool)
    → m % 8 ≡ 0
    → let u = init_share_queue m i is_stream in
      (u.request_queue.message_start_offset ≡ i * share_unit_size m + request_buf_field m)
      × (u.response_queue.message_start_offset ≡ i * share_unit_size m + response_buf_field m)
      × (u.request_queue.capacity * item_size is_stream ≡ stream_queue_capacity)
      × (u.response_queue.capacity * item_size is_stream ≡ stream_queue_capacity)
unfolding init_share_queue
init_share_queue_layout m i true h = rw (share_unit_size_lem m h) (omega arith)
init_share_queue_layout m i false h = rw (share_unit_size_lem m h) (omega arith)

-- With mutexes whose size is a multiple of 8: in the share memory for communication,
-- COMMUNICATE_SHM_SIZE bytes for SOCKET_NUM units, the two arrays of a unit lie behind its headers
-- and locks, one behind the other, and before the next unit; those of the last unit end inside the
-- memory.
pub init_share_queue_disjoint :
    (m i j : ℕ) (is_stream : Bool)
    → m % 8 ≡ 0
    → i < j
    → j ≤ socket_num
    → let u = init_share_queue m i is_stream in
      (i * share_unit_size m + 2 * queue_size + 2 * m ≤ u.request_queue.message_start_offset)
      × (u.request_queue.message_start_offset + u.request_queue.capacity * item_size is_stream
          ≤ u.response_queue.message_start_offset)
      × (u.response_queue.message_start_offset + u.response_queue.capacity * item_size is_stream
          ≤ j * share_unit_size m)
      × (u.response_queue.message_start_offset + u.response_queue.capacity * item_size is_stream
          ≤ socket_num * share_unit_size m)
init_share_queue_disjoint m i j is_stream h l k =
    let (a, b, c, d) = init_share_queue_layout m i is_stream h in
    let next : suc i * share_unit_size m ≤ j * share_unit_size m = grind arith in
    let last : j * share_unit_size m ≤ socket_num * share_unit_size m = grind arith in
    rw (a, b, c, d) (omega (arith, share_unit_size_lem m h, next, last))
