-- ===== src/ShareQueue.antt =====
-- share_queue.h and share_queue.c: the queues of a share unit, one for each direction. A stream
-- queue is a queue of bytes; a datagram queue is a queue of messages; there is a queue of ints too.
pub mod Slots
pub mod Stream
use socket_hook.Base.{
  ℕ, ◌+◌, ◌-◌, min, ℤ, pos, minus_one, eq_ℤ, inc, dec, plus, rem, to_ℕ, ◌==◌, if◌then◌else◌, Option,
  none, some, List, take, replicate,
}
use socket_hook.Base.Memory.{store, write, read}

abbrev pub message_max_length : ℕ
message_max_length = 1500

-- `struct share_queue`. `front` and `rear` are -1 while the queue is empty. `current_size` is
-- lowered only where it is positive.
pub record ShareQueue : Type 0 where
  pub front : ℤ
  pub rear : ℤ
  pub capacity : ℕ
  pub current_size : ℕ
  pub message_start_offset : ℕ

-- `struct buffer`: `none` is the null pointer.
pub record Buffer : Type 0 where
  pub buf : Option (List ℕ)
  pub length : ℕ

-- `struct message_t`. `length` holds the 32 bits of an int. The readers take them for a number that
-- is not negative, as they are for a message of less than 2 ^ 31 bytes.
pub record Message : Type 0 where
  pub length : ℕ
  pub buf : List ℕ

-- Bytes of the share memory, by their distance from `shm_ptr`.
abbrev pub Shm : Type 0
Shm = ℕ → ℕ

-- The writer's two branches, once there is room for `add_len` bytes of c.
unfoldable pub stream_put : Shm → ShareQueue → List ℕ → ℕ → Shm × ShareQueue
stream_put shm q c add_len =
    let rear' = rem (inc q.rear) q.capacity in
    if eq_ℤ q.front minus_one
    then (
      write shm (q.message_start_offset + 0) (take add_len c),
      record q {
        front = pos 0;
        rear = rem (dec (pos add_len)) q.capacity;
        current_size = q.current_size + add_len;
      },
    )
    else (
      write shm (q.message_start_offset + to_ℕ rear') (take add_len c),
      record q {
        rear = rem (dec (plus rear' add_len)) q.capacity;
        current_size = q.current_size + add_len;
      },
    )

unfoldable pub stream_enqueue : Shm → ShareQueue → List ℕ → ℕ → ℤ × Shm × ShareQueue
unfolding stream_put
stream_enqueue shm q c len =
    let add_len = min (q.capacity - q.current_size) len in
    if q.current_size == q.capacity
    then (minus_one, shm, q)
    else (pos add_len, (stream_put shm q c add_len).0, (stream_put shm q c add_len).1)

-- The queue once `sub_len` bytes are read: it is reset if it becomes empty.
unfoldable pub stream_advance : ShareQueue → ℕ → ShareQueue
stream_advance q sub_len =
    let size = q.current_size - sub_len in
    if size == 0
    then record q { front = minus_one; rear = minus_one; current_size = size }
    else record q { front = rem (plus q.front sub_len) q.capacity; current_size = size }

unfoldable pub stream_dequeue : Shm → ShareQueue → ℕ → Buffer × Shm × ShareQueue
unfolding stream_advance
stream_dequeue shm q len =
    let sub_len = min q.current_size len in
    let start = q.message_start_offset + to_ℕ q.front in
    if eq_ℤ q.front minus_one then (record { buf = none; length = 0 }, shm, q) else (
      record { buf = some (read shm start sub_len); length = sub_len },
      write shm start (replicate sub_len 0),
      stream_advance q sub_len,
    )

module _ {ℓ} {A : Type ℓ} where
  -- What `datagram_enqueue` and `int_enqueue` do to the array at `message_start_offset`.
  unfoldable pub slot_enqueue : (ℕ → A) → ShareQueue → A → ℤ × (ℕ → A) × ShareQueue
  slot_enqueue arr q m =
      let rear' = rem (inc q.rear) q.capacity in
      if q.current_size == q.capacity
      then (minus_one, arr, q)
      else (if eq_ℤ q.front minus_one
          then (
            pos 0,
            store arr 0 m,
            record q { front = pos 0; rear = pos 0; current_size = q.current_size + 1 },
          )
          else (
            pos 0,
            store arr (to_ℕ rear') m,
            record q { rear = rear'; current_size = q.current_size + 1 },
          ))

-- The queue once its front slot is read: it is reset if that was the last.
unfoldable pub slot_advance : ShareQueue → ShareQueue
slot_advance q =
    if eq_ℤ q.front q.rear
    then record q { front = minus_one; rear = minus_one; current_size = q.current_size - 1 }
    else record q { front = rem (inc q.front) q.capacity; current_size = q.current_size - 1 }

unfoldable pub datagram_enqueue :
    (ℕ → Message) → ShareQueue → Message → ℤ × (ℕ → Message) × ShareQueue
unfolding slot_enqueue
datagram_enqueue arr q m = slot_enqueue arr q m

-- `m` is the message that `malloc` returns, of which an empty queue sets the length alone.
unfoldable pub datagram_dequeue :
    (ℕ → Message) → ShareQueue → Message → Message × (ℕ → Message) × ShareQueue
unfolding slot_advance
datagram_dequeue arr q m =
    let i = to_ℕ q.front in
    if eq_ℤ q.front minus_one
    then (record m { length = 0 }, arr, q)
    else (arr i, store arr i (record (arr i) { length = 0 }), slot_advance q)

unfoldable pub int_enqueue : (ℕ → ℤ) → ShareQueue → ℤ → ℤ × (ℕ → ℤ) × ShareQueue
unfolding slot_enqueue
int_enqueue arr q m = slot_enqueue arr q m

unfoldable pub int_dequeue : (ℕ → ℤ) → ShareQueue → ℤ × ShareQueue
unfolding slot_advance
int_dequeue arr q =
    if eq_ℤ q.front minus_one then (minus_one, q) else (arr (to_ℕ q.front), slot_advance q)
