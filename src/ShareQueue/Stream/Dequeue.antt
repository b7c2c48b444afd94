-- ===== src/ShareQueue/Stream/Dequeue.antt =====
-- `stream_dequeue`: what it returns and removes.
use socket_hook.Base.{
  ℕ, ◌+◌, ◌-◌, ◌%◌, ◌≤◌, ◌<◌, min, ◌≡◌, refl, ap, ◌∙◌, sym, ◌⊎◌, inl, inr, pos, minus_one, eq_ℤ,
  inc, rem, to_ℕ, ◌==◌, if◌then◌else◌, Bool-cases, ==_iff, none, some, List, ◌++◌, take, drop,
  replicate, take-append, drop-append, length-replicate, mod-add-mod, arith,
}
use socket_hook.Base.Memory.{write, read, window, write-below, write-above, length-read}
use socket_hook.Base.Windows.{window-read, write-offset, read-offset, window-write_front, lap-lt}
use socket_hook.ShareQueue.{ShareQueue, Shm, Buffer, stream_advance, stream_dequeue}
use socket_hook.ShareQueue.Stream.{IsValid, bytes, outside, outside_eq, SamePlace}

-- What `stream_dequeue` returns, by the bytes of the queue.
abbrev pub taken : ShareQueue → List ℕ → ℕ → Buffer
taken q xs n =
    if eq_ℤ q.front minus_one
    then record { buf = none; length = 0 }
    else record { buf = some (take n xs); length = n }

-- `stream_advance` keeps a valid queue with ends valid, and drops its first n bytes.
stream_advance_lem :
    (m : ℕ → ℕ) (q : ShareQueue) (f n : ℕ)
    → IsValid q
    → q.front ≡ pos f
    → f < q.capacity
    → n ≤ q.current_size
    → rem (inc q.rear) q.capacity ≡ pos ((f + q.current_size) % q.capacity)
    → IsValid (stream_advance q n)
      × (window m
            (stream_advance q n).capacity
            (to_ℕ (stream_advance q n).front)
            (stream_advance q n).current_size
          ≡ window m q.capacity ((f + n) % q.capacity) (q.current_size - n))
      × SamePlace q (stream_advance q n)
unfolding stream_advance window
stream_advance_lem m q f n v e l h r = elim (Bool-cases (q.current_size - n == 0)) [
  | inl z ↦
      let d : q.current_size - n ≡ 0 = (==_iff _ _).0 z in
      rw (z, d)
        (
          record { room = v.room; size_in = omega arith; ends = inl (refl, refl, refl) },
          refl,
          (refl, refl),
        )
  | inr z ↦
      rw (z, e)
        (
          record {
            room = v.room;
            size_in = omega arith;
            ends = inr (
              (f + n) % q.capacity,
              refl,
              lap-lt q.capacity (f + n) f l,
              r
                  ∙ ap pos (
                      sym (
                        mod-add-mod (f + n) q.capacity (q.current_size - n)
                        ∙ ap (λ a. a % q.capacity) (omega arith))),
            );
          },
          refl,
          (refl, refl),
        )
]

-- A queue without ends has nothing to give.
stream_dequeue-none :
    (shm : Shm) (q : ShareQueue) (len : ℕ)
    → q.front ≡ minus_one
    → stream_dequeue shm q len ≡ (record { buf = none; length = 0 }, shm, q)
unfolding stream_dequeue
stream_dequeue-none shm q len e = ground arith

stream_dequeue-some :
    (shm : Shm) (q : ShareQueue) (len f : ℕ)
    → q.front ≡ pos f
    → let n = min q.current_size len in
      stream_dequeue shm q len ≡ (
        record { buf = some (read shm (q.message_start_offset + f) n); length = n },
        write shm (q.message_start_offset + f) (replicate n 0),
        stream_advance q n,
      )
unfolding stream_dequeue
stream_dequeue-some shm q len f e = ground arith

pub taken-some :
    (q : ShareQueue) (xs : List ℕ) (n f : ℕ)
    → q.front ≡ pos f
    → taken q xs n ≡ record { buf = some (take n xs); length = n }
taken-some q xs n f e = ground arith

clears-outside :
    (shm : Shm) (o c f n j : ℕ)
    → f + n ≤ c
    → (j < o) ⊎ (o + c ≤ j)
    → write shm (o + f) (replicate n 0) j ≡ shm j
clears-outside shm o c f n j k (inl h) = write-below shm (o + f) (replicate n 0) j (omega arith)
clears-outside shm o c f n j k (inr h) =
    write-above shm (o + f) (replicate n 0) j (omega (arith, length-replicate {A = ℕ} n 0))

-- On a valid queue, where the copy ends inside the array: `stream_dequeue` returns the first `len`
-- bytes of the queue, or all if there are fewer, with their number, and removes them; it returns a
-- null pointer and 0 if the queue has no ends. The queue stays valid and in its place, and the
-- rest of the share memory keeps its bytes.
pub stream_dequeue_refines :
    (shm : Shm) (q : ShareQueue) (len : ℕ)
    → IsValid q
    → to_ℕ q.front + min q.current_size len ≤ q.capacity
    → let n = min q.current_size len in
      let r = stream_dequeue shm q len in
      (r.0 ≡ taken q (bytes shm q) n)
      × IsValid r.2
      × (bytes r.1 r.2 ≡ drop n (bytes shm q))
      × (outside q r.1 ≡ outside q shm)
      × SamePlace q r.2
stream_dequeue_refines shm q len v hw = elim v.ends [
  | inl (s, f, r) ↦
      let z : min q.current_size len ≡ 0 = omega arith in
      rw (stream_dequeue-none shm q len f, z) (ground arith, v, refl, refl, (refl, refl))
  | inr (f, e, l, r) ↦
      let n = min q.current_size len in
      let o = q.message_start_offset in
      let base = λ (i : ℕ). shm (o + i) in
      let k : f + n ≤ q.capacity = ground arith in
      let (w, b, p) =
        stream_advance_lem (λ i. write shm (o + f) (replicate n 0) (o + i)) q f n v e l
          (omega arith) r in
      let split : bytes shm q
          ≡ read base f n ++ window base q.capacity ((f + n) % q.capacity) (q.current_size - n) =
        ap (λ a. window base q.capacity a q.current_size) (ground arith)
        ∙ window-read base q.capacity f q.current_size n l (omega arith) k in
      let rest = window base q.capacity ((f + n) % q.capacity) (q.current_size - n) in
      let takes : take n (bytes shm q) ≡ read base f n =
        ap (take n) split
        ∙ ap (λ i. take i (read base f n ++ rest)) (sym (length-read base f n))
        ∙ take-append (read base f n) rest in
      let drops : drop n (bytes shm q) ≡ rest =
        ap (drop n) split
        ∙ ap (λ i. drop i (read base f n ++ rest)) (sym (length-read base f n))
        ∙ drop-append (read base f n) rest in
      rw (stream_dequeue-some shm q len f e) (
        ap {B = Buffer} (λ x. record { buf = some x; length = n })
              (read-offset shm o f n ∙ sym takes)
            ∙ sym (taken-some q (bytes shm q) n f e),
        w,
        rw p.1 (
            b
            ∙ ap (λ m. window m q.capacity ((f + n) % q.capacity) (q.current_size - n))
                (write-offset shm o f (replicate n 0))
            ∙ window-write_front base q.capacity f n (q.current_size - n) (replicate n 0) l k
                (omega arith) (length-replicate n 0)
            ∙ sym drops),
        outside_eq q shm _ (λ j h. clears-outside shm o q.capacity f n j k h),
        p,
      )
]

-- A read of all that there is leaves a valid queue without ends.
pub stream_dequeue_all :
    (shm : Shm) (q : ShareQueue) (len : ℕ)
    → IsValid q
    → q.current_size ≤ len
    → let r = stream_dequeue shm q len in
      (r.2.front ≡ minus_one) × (r.2.rear ≡ minus_one) × (r.2.current_size ≡ 0)
unfolding stream_dequeue stream_advance
stream_dequeue_all shm q len v h = ground arith
