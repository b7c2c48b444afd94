-- ===== src/ShareQueue/Stream/Enqueue.antt =====
-- `stream_enqueue`: what it appends, where it stays inside its array, and where it does not.
use socket_hook.Base.{
  ℕ, zero, suc, ◌+◌, ◌-◌, ◌%◌, ◌≤◌, ◌<◌, min, ◌≡◌, refl, ap, ap₂, ◌∙◌, sym, ◌≢◌, ◌⊎◌, inl, inr, pos,
  minus_one, inc, dec, rem, to_ℕ, ◌==◌, if◌then◌else◌, Bool-cases, ==_iff, ==_of_ne, List, ◌++◌,
  length, take, length-take, get_or, get_or-take, mod-add-mod, mod-eq_of_lt, mod-lt, add_assoc,
  append-nil, arith,
}
use socket_hook.Base.Memory.{write, window, write-below, write-above, write-inside}
use socket_hook.Base.Windows.{window-write, write-offset}
use socket_hook.ShareQueue.{ShareQueue, Shm, stream_put, stream_enqueue}
use socket_hook.ShareQueue.Stream.{IsValid, bytes, position, outside, outside_eq, SamePlace}

-- Behind `(n - 1) % capacity`, with C's remainder, comes index n.
rear_lem : (c n : ℕ) → 0 < c → rem (inc (rem (dec (pos n)) c)) c ≡ pos (n % c)
rear_lem zero zero h = elim h [ ]
rear_lem (suc zero) zero h = refl
rear_lem (suc (suc c)) zero h =
    ground (arith, mod-eq_of_lt {n = 1} {m = suc (suc c)}, mod-eq_of_lt {n = 0} {m = suc (suc c)})
rear_lem c (suc n) h = ap pos (mod-add-mod n c 1 ∙ ap (λ a. a % c) (omega arith))

-- In a valid queue the position is the index behind the bytes.
pub position_lem :
    (q : ShareQueue)
    → IsValid q
    → (position q ≡ (to_ℕ q.front + q.current_size) % q.capacity) × (to_ℕ q.front < q.capacity)
position_lem q v = elim v.ends [
  | inl (s, f, r) ↦ ground (arith, mod-eq_of_lt v.room)
  | inr (f, e, l, r) ↦ ground arith
]

-- What `stream_put` writes, and where the queue then ends.
stream_put_lem :
    (shm : Shm) (q : ShareQueue) (c : List ℕ) (n : ℕ)
    → IsValid q
    → ((stream_put shm q c n).0 ≡ write shm (q.message_start_offset + position q) (take n c))
      × ((stream_put shm q c n).1.front ≡ pos (to_ℕ q.front))
      × ((stream_put shm q c n).1.current_size ≡ q.current_size + n)
      × (rem (inc (stream_put shm q c n).1.rear) q.capacity
          ≡ pos ((to_ℕ q.front + (q.current_size + n)) % q.capacity))
      × SamePlace q (stream_put shm q c n).1
unfolding stream_put
stream_put_lem shm q c n v = elim v.ends [
  | inl (s, f, r) ↦ ground (arith, rear_lem q.capacity n v.room)
  | inr (f, e, l, r) ↦ ground (
    arith,
    rear_lem q.capacity ((f + q.current_size) % q.capacity + n) v.room,
    mod-add-mod (f + q.current_size) q.capacity n,
    ap (λ a. a % q.capacity) (add_assoc f q.current_size n),
  )
]

stream_enqueue-full :
    (shm : Shm) (q : ShareQueue) (c : List ℕ) (len : ℕ)
    → q.current_size ≡ q.capacity
    → stream_enqueue shm q c len ≡ (minus_one, shm, q)
unfolding stream_enqueue
stream_enqueue-full shm q c len h = rw ((==_iff _ _).1 h)

stream_enqueue-room :
    (shm : Shm) (q : ShareQueue) (c : List ℕ) (len : ℕ)
    → q.current_size ≢ q.capacity
    → let n = min (q.capacity - q.current_size) len in
      stream_enqueue shm q c len ≡ (pos n, (stream_put shm q c n).0, (stream_put shm q c n).1)
unfolding stream_enqueue
stream_enqueue-room shm q c len h = rw (==_of_ne _ _ h)

-- `stream_put` of n bytes, where the copy ends inside the array.
stream_put_refines :
    (shm : Shm) (q : ShareQueue) (c : List ℕ) (n : ℕ)
    → IsValid q
    → n ≤ length c
    → q.current_size + n ≤ q.capacity
    → position q + n ≤ q.capacity
    → let r = stream_put shm q c n in
      IsValid r.1
      × (bytes r.0 r.1 ≡ bytes shm q ++ take n c)
      × (outside q r.0 ≡ outside q shm)
      × SamePlace q r.1
stream_put_refines shm q c n v hc hn hw =
    let (m, f, s, e, p) = stream_put_lem shm q c n v in
    let (at, l) = position_lem q v in
    let len : length (take n c) ≡ n = omega (arith, length-take n c) in
    let base = λ (i : ℕ). shm (q.message_start_offset + i) in
    (
      record {
        room = omega arith;
        size_in = omega arith;
        ends = inr (to_ℕ q.front, f, omega arith, rw (p.0, s) e);
      },
      rw (m, f, s, p.0, p.1)
          (ap (λ k. window k q.capacity (to_ℕ q.front) (q.current_size + n))
              (write-offset shm q.message_start_offset (position q) (take n c))
            ∙ ap₂
                (λ a k.
                  window (write base a (take n c)) q.capacity (to_ℕ q.front) (q.current_size + k))
                at (sym len)
            ∙ window-write base q.capacity (to_ℕ q.front) q.current_size (take n c) l (omega arith)
                (omega arith)),
      outside_eq q shm _ (λ j h. rw m (stays j h len)),
      p,
    )
  where
    stays :
        (j : ℕ)
        → (j < q.message_start_offset) ⊎ (q.message_start_offset + q.capacity ≤ j)
        → length (take n c) ≡ n
        → write shm (q.message_start_offset + position q) (take n c) j ≡ shm j
    stays j (inl h) e = write-below shm _ (take n c) j (omega arith)
    stays j (inr h) e = write-above shm _ (take n c) j (omega arith)

-- On a valid queue, with a block of `len` bytes at least, where the copy ends inside the array:
-- `stream_enqueue` returns the number of bytes that fit and appends exactly those, but returns -1
-- and appends nothing if the queue is full. The queue stays valid and in its place, and the rest
-- of the share memory keeps its bytes.
pub stream_enqueue_refines :
    (shm : Shm) (q : ShareQueue) (c : List ℕ) (len : ℕ)
    → IsValid q
    → len ≤ length c
    → position q + min (q.capacity - q.current_size) len ≤ q.capacity
    → let n = min (q.capacity - q.current_size) len in
      let r = stream_enqueue shm q c len in
      (r.0 ≡ (if q.current_size == q.capacity then minus_one else pos n))
      × IsValid r.2
      × (bytes r.1 r.2 ≡ bytes shm q ++ take n c)
      × (outside q r.1 ≡ outside q shm)
      × SamePlace q r.2
stream_enqueue_refines shm q c len v hc hw = elim (Bool-cases (q.current_size == q.capacity)) [
  | inl full ↦
      let e : q.current_size ≡ q.capacity = (==_iff _ _).0 full in
      rw (stream_enqueue-full shm q c len e, full)
        (
          refl,
          v,
          sym (ap (λ k. bytes shm q ++ take k c) (none_left e) ∙ append-nil _),
          refl,
          (refl, refl),
        )
  | inr room ↦
      let n = min (q.capacity - q.current_size) len in
      let (w, b, o, p) = stream_put_refines shm q c n v (omega arith) (omega arith) hw in
      rw (stream_enqueue-room shm q c len (ground arith), room) (refl, w, b, o, p)
]
  where
    none_left : q.current_size ≡ q.capacity → min (q.capacity - q.current_size) len ≡ 0
    none_left e = omega arith

-- The copy does not go round: of a block that does not end inside the array of a valid queue,
-- `stream_enqueue` writes the first byte that is over to the byte of share memory behind the
-- array.
pub stream_enqueue_overruns :
    (shm : Shm) (q : ShareQueue) (c : List ℕ) (len : ℕ)
    → IsValid q
    → len ≤ length c
    → q.capacity < position q + min (q.capacity - q.current_size) len
    → (stream_enqueue shm q c len).1 (q.message_start_offset + q.capacity)
      ≡ get_or c (q.capacity - position q) 0
stream_enqueue_overruns shm q c len v hc hw =
    let n = min (q.capacity - q.current_size) len in
    let i = q.capacity - position q in
    let p = position_lem q v in
    let inside : position q < q.capacity =
      omega (arith, p.0, mod-lt (to_ℕ q.front + q.current_size) v.room) in
    let put = (stream_put_lem shm q c n v).0 in
    rw (stream_enqueue-room shm q c len (omega arith), put)
      (ap (write shm (q.message_start_offset + position q) (take n c)) (omega arith)
        ∙ write-inside shm (q.message_start_offset + position q) i (take n c) 0
            (omega (arith, length-take n c))
        ∙ get_or-take n i c 0 (omega arith))

-- A write with room leaves the front where it is, at index 0 if the queue had no ends.
pub stream_enqueue_front :
    (shm : Shm) (q : ShareQueue) (c : List ℕ) (len : ℕ)
    → IsValid q
    → q.current_size ≢ q.capacity
    → let r = stream_enqueue shm q c len in
      (r.2.front ≡ pos (to_ℕ q.front))
      × (r.2.current_size ≡ q.current_size + min (q.capacity - q.current_size) len)
stream_enqueue_front shm q c len v h =
    let n = min (q.capacity - q.current_size) len in
    let (m, f, s, e, p) = stream_put_lem shm q c n v in
    rw (stream_enqueue-room shm q c len h) (f, s)
