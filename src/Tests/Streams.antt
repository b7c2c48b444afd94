-- ===== src/Tests/Streams.antt =====
-- The queues of the share memory on small inputs.
use socket_hook.Base.Memory.{store}
use socket_hook.Base.{
  if◌then◌else◌, ◌==◌, ◌≢◌, ◌⊎◌, to_ℕ, ℕ, ◌+◌, ◌*◌, ◌≤◌, ◌≡◌, refl, pos, minus_one, true, inl, inr,
  some, List, [], ◌∷◌, ◌++◌, take, drop, arith,
}
use socket_hook.ShareQueue.{
  ShareQueue, Shm, Message, stream_enqueue, stream_dequeue, datagram_enqueue, datagram_dequeue,
}
use socket_hook.ShareQueue.Stream.{IsValid, bytes, outside, SamePlace}
use socket_hook.ShareQueue.Stream.Enqueue.{stream_enqueue_refines, stream_enqueue_overruns}
use socket_hook.ShareQueue.Stream.Dequeue.{stream_dequeue_refines}
use socket_hook.ShareQueue.Stream.RoundTrip.{write_read}
use socket_hook.ShareQueue.Slots as Slots
use socket_hook.ShareQueue.Slots.Dequeue as SlotDequeue
use socket_hook.Hook.State.{ShareUnit, socket_num}
use socket_hook.Hook.Init.{init_share_queue, queue_size}
use socket_hook.Hook.Init.Layout.{share_unit_size, item_size, init_share_queue_disjoint}

abbrev memory : Shm
memory i = i

-- The bytes 11 and 12 of the memory, in an array of 6 bytes that begins at 10.
abbrev two_bytes : ShareQueue
two_bytes = record {
  front = pos 1;
  rear = pos 2;
  capacity = 6;
  current_size = 2;
  message_start_offset = 10;
}

two_bytes-IsValid : IsValid two_bytes
two_bytes-IsValid = record {
  room = omega arith;
  size_in = omega arith;
  ends = inr (1, refl, omega arith, refl);
}

abbrev no_bytes : ShareQueue
no_bytes = record {
  front = minus_one;
  rear = minus_one;
  capacity = 6;
  current_size = 0;
  message_start_offset = 10;
}

no_bytes-IsValid : IsValid no_bytes
no_bytes-IsValid = record {
  room = omega arith;
  size_in = omega arith;
  ends = inl (refl, refl, refl);
}

abbrev block : List ℕ
block = 21 ∷ 22 ∷ 23 ∷ 24 ∷ []

stream_enqueue_refines_example :
    let r = stream_enqueue memory two_bytes block 3 in
    (r.0 ≡ pos 3)
    × IsValid r.2
    × (bytes r.1 r.2 ≡ bytes memory two_bytes ++ 21 ∷ 22 ∷ 23 ∷ [])
    × (outside two_bytes r.1 ≡ outside two_bytes memory)
    × SamePlace two_bytes r.2
stream_enqueue_refines_example =
    stream_enqueue_refines memory two_bytes block 3 two_bytes-IsValid (omega arith) (omega arith)

-- Four bytes fit in the queue, but not behind its bytes: the last goes to the byte behind the
-- array.
stream_enqueue_overruns_example : (stream_enqueue memory two_bytes block 4).1 16 ≡ 24
stream_enqueue_overruns_example =
    stream_enqueue_overruns memory two_bytes block 4 two_bytes-IsValid (omega arith) (omega arith)

stream_dequeue_refines_example :
    let r = stream_dequeue memory two_bytes 1 in
    (r.0 ≡ record { buf = some (take 1 (bytes memory two_bytes)); length = 1 })
    × IsValid r.2
    × (bytes r.1 r.2 ≡ drop 1 (bytes memory two_bytes))
    × (outside two_bytes r.1 ≡ outside two_bytes memory)
    × SamePlace two_bytes r.2
stream_dequeue_refines_example =
    stream_dequeue_refines memory two_bytes 1 two_bytes-IsValid (omega arith)

write_read_example :
    let (n, shm', q') = stream_enqueue memory no_bytes block 4 in
    let (b, shm'', q'') = stream_dequeue shm' q' 100 in
    (n ≡ pos 4)
    × (b ≡ record { buf = some block; length = 4 })
    × (q''.front ≡ minus_one)
    × (q''.rear ≡ minus_one)
    × (q''.current_size ≡ 0)
write_read_example =
    write_read memory no_bytes block 100 no_bytes-IsValid refl (omega arith) (omega arith)
      (omega arith)

-- Two slots, the last and the first of an array of 3.
abbrev two_slots : ShareQueue
two_slots = record {
  front = pos 2;
  rear = pos 0;
  capacity = 3;
  current_size = 2;
  message_start_offset = 0;
}

two_slots-IsValid : Slots.IsValid two_slots
two_slots-IsValid = record {
  room = omega arith;
  size_in = omega arith;
  ends = inr (2, 1, refl, refl, refl, omega arith);
}

abbrev letters : ℕ → Message
letters i = record { length = 1; buf = i ∷ [] }

abbrev letter : Message
letter = record { length = 1; buf = 7 ∷ [] }

datagram_enqueue_refines_example :
    Slots.Put letters two_slots letter (datagram_enqueue letters two_slots letter)
datagram_enqueue_refines_example =
    Slots.datagram_enqueue_refines letters two_slots letter two_slots-IsValid

datagram_dequeue_refines_example :
    let r = datagram_dequeue letters two_slots letter in
    Slots.IsValid r.2
    × ((r.0, Slots.items r.1 r.2)
        ≡ SlotDequeue.datagram_list letter (Slots.items letters two_slots))
    × (r.2.capacity ≡ 3)
    × (r.2.message_start_offset ≡ 0)
    × (r.1 ≡ (
        if two_slots.current_size == 0
        then letters
        else store letters
            (to_ℕ two_slots.front)
            (record (letters (to_ℕ two_slots.front)) { length = 0 })))
    × ((two_slots.current_size ≢ 0) ⊎ (r ≡ (record letter { length = 0 }, letters, two_slots)))
datagram_dequeue_refines_example =
    SlotDequeue.datagram_dequeue_refines letters two_slots letter two_slots-IsValid

-- Share unit 2, with mutexes of 40 bytes.
abbrev third_unit : ShareUnit
third_unit = init_share_queue 40 2 true

init_share_queue_disjoint_example :
    (2 * share_unit_size 40 + 2 * queue_size + 2 * 40
      ≤ third_unit.request_queue.message_start_offset)
    × (third_unit.request_queue.message_start_offset
          + third_unit.request_queue.capacity * item_size true
        ≤ third_unit.response_queue.message_start_offset)
    × (third_unit.response_queue.message_start_offset
          + third_unit.response_queue.capacity * item_size true
        ≤ 3 * share_unit_size 40)
    × (third_unit.response_queue.message_start_offset
          + third_unit.response_queue.capacity * item_size true
        ≤ socket_num * share_unit_size 40)
init_share_queue_disjoint_example =
    init_share_queue_disjoint 40 2 3 true refl (omega arith) (omega arith)
