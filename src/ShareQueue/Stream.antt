-- ===== src/ShareQueue/Stream.antt =====
-- A valid stream queue of share_queue.c holds a list of bytes. A block of bytes that is copied in
-- or out in one `memcpy` is in order exactly as long as the copy does not go over the end of the
-- array.
pub mod Enqueue
pub mod Dequeue
pub mod RoundTrip
use socket_hook.Base.{
  ℕ, ◌+◌, ◌%◌, ◌≤◌, ◌<◌, ◌≡◌, ◌⊎◌, ℤ, pos, minus_one, eq_ℤ, inc, rem, to_ℕ, if◌then◌else◌, List,
  ◌&&◌, leb, ltb, arith,
}
use socket_hook.Base.Memory.{window}
use mathlib.Core.Path.{fun_ext}
use socket_hook.ShareQueue.{ShareQueue, Shm}

-- A queue has no ends and is empty, or its bytes begin at index f, and the index behind `rear` is
-- the one behind the bytes. (A write of no bytes gives an empty queue ends.)
abbrev pub Ends : ShareQueue → Type 0
Ends q =
    ((q.current_size ≡ 0) × (q.front ≡ minus_one) × (q.rear ≡ minus_one))
    ⊎ ((f : ℕ) × (q.front ≡ pos f)
        × (f < q.capacity)
        × (rem (inc q.rear) q.capacity ≡ pos ((f + q.current_size) % q.capacity)))

pub record IsValid (q : ShareQueue) : Type 0 where
  pub room : 0 < q.capacity
  pub size_in : q.current_size ≤ q.capacity
  pub ends : Ends q

abbrev pub bytes : Shm → ShareQueue → List ℕ
bytes shm q =
    window (λ i. shm (q.message_start_offset + i)) q.capacity (to_ℕ q.front) q.current_size

-- The index at which the next block is written.
abbrev pub position : ShareQueue → ℕ
position q = if eq_ℤ q.front minus_one then 0 else to_ℕ (rem (inc q.rear) q.capacity)

-- The share memory without the bytes of the queue.
abbrev pub outside : ShareQueue → Shm → Shm
outside q shm j =
    if leb q.message_start_offset j && ltb j (q.message_start_offset + q.capacity) then 0 else shm j

-- A change of the queue's bytes alone does not show outside.
pub outside_eq :
    (q : ShareQueue) (shm shm' : Shm)
    → ((j : ℕ)
        → (j < q.message_start_offset) ⊎ (q.message_start_offset + q.capacity ≤ j)
        → shm' j ≡ shm j)
    → outside q shm' ≡ outside q shm
outside_eq q shm shm' h = fun_ext pointwise
  where
    pointwise : (j : ℕ) → outside q shm' j ≡ outside q shm j
    pointwise j = ground (arith, h j)

-- The queue still has its place.
abbrev pub SamePlace : ShareQueue → ShareQueue → Type 0
SamePlace q q' = (q'.capacity ≡ q.capacity) × (q'.message_start_offset ≡ q.message_start_offset)
