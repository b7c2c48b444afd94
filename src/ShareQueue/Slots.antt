-- ===== src/ShareQueue/Slots.antt =====
-- A valid datagram or int queue of share_queue.c behaves as the bounded list of its items.
pub mod Dequeue
use socket_hook.Base.{
  if◌then◌else◌, ℕ, zero, suc, ◌+◌, ◌-◌, ◌%◌, ◌≤◌, ◌<◌, ◌≡◌, refl, ap, ap₂, ◌∙◌, sym, ◌≢◌, ◌⊎◌, inl,
  inr, ℤ, pos, minus_one, eq_ℤ, inc, rem, to_ℕ, true, false, ◌==◌, if◌then◌else◌, Bool-cases,
  ==_iff, ==_of_ne, Option, none, some, List, [], ◌∷◌, ◌++◌, length, mod-add-mod, mod-eq_of_lt,
  mod-lt, add-zero, arith,
}
use socket_hook.Base.Memory.{store, window, length-window, window_of_ne_zero}
use socket_hook.Base.Windows.{window-store, window-congr, mod_shift, mod-ne, lap-lt}
use socket_hook.Queue.Refine.{put_list}
use socket_hook.ShareQueue.{
  ShareQueue, Message, slot_enqueue, slot_advance, datagram_enqueue, datagram_dequeue, int_enqueue,
  int_dequeue,
}

-- A queue is empty and has no ends, or holds n + 1 items from index f on.
abbrev pub Ends : ShareQueue → Type 0
Ends q =
    ((q.current_size ≡ 0) × (q.front ≡ minus_one) × (q.rear ≡ minus_one))
    ⊎ ((f : ℕ) × (n : ℕ) × (q.current_size ≡ suc n)
        × (q.front ≡ pos f)
        × (q.rear ≡ pos ((f + n) % q.capacity))
        × (f < q.capacity))

pub record IsValid (q : ShareQueue) : Type 0 where
  pub room : 0 < q.capacity
  pub size_in : q.current_size ≤ q.capacity
  pub ends : Ends q

abbrev pub items {ℓ} : {A : Type ℓ} → (ℕ → A) → ShareQueue → List A
items arr q = window arr q.capacity (to_ℕ q.front) q.current_size

pub front_in : (q : ShareQueue) → IsValid q → to_ℕ q.front < q.capacity
front_in q v = ground arith

-- The slot behind the items.
abbrev pub slot_behind : ShareQueue → ℕ
slot_behind q = (to_ℕ q.front + q.current_size) % q.capacity

module _ {ℓ} {A : Type ℓ} where
  -- What is left of the queue and its array once the item behind the others is in, in its slot and
  -- no other; a full queue and its array are as they were.
  abbrev pub Put : (ℕ → A) → ShareQueue → A → ℤ × (ℕ → A) × ShareQueue → Type ℓ
  Put arr q m r =
      IsValid r.2
      × ((r.0, items r.1 r.2) ≡ put_list q.capacity (items arr q) m)
      × (r.2.capacity ≡ q.capacity)
      × (r.2.message_start_offset ≡ q.message_start_offset)
      × (r.1 ≡ (if q.current_size == q.capacity then arr else store arr (slot_behind q) m))
      × ((q.current_size ≢ q.capacity) ⊎ (r ≡ (minus_one, arr, q)))

  slot_enqueue-full :
      (arr : ℕ → A) (q : ShareQueue) (m : A)
      → q.current_size ≡ q.capacity
      → slot_enqueue arr q m ≡ (minus_one, arr, q)
  unfolding slot_enqueue
  slot_enqueue-full arr q m h = rw ((==_iff _ _).1 h)

  slot_enqueue-room :
      (arr : ℕ → A) (q : ShareQueue) (m : A)
      → IsValid q
      → q.current_size ≢ q.capacity
      → slot_enqueue arr q m ≡ (
        pos 0,
        store arr ((to_ℕ q.front + q.current_size) % q.capacity) m,
        record q {
          front = pos (to_ℕ q.front);
          rear = pos ((to_ℕ q.front + q.current_size) % q.capacity);
          current_size = suc q.current_size;
        },
      )
  unfolding slot_enqueue
  slot_enqueue-room arr q m v h = elim v.ends [
    | inl (s, f, r) ↦ ground (arith, mod-eq_of_lt v.room)
    | inr (f, n, s, e, r, l) ↦
        ground (arith, mod-add-mod (f + n) q.capacity 1, ap (λ a. a % q.capacity) (shift f n))
  ]
    where
      shift : (f n : ℕ) → f + n + 1 ≡ f + suc n
      shift f n = omega arith

  -- `slot_enqueue` keeps a valid queue valid. It puts an item behind the others and returns 0; with
  -- `capacity` items it returns -1 and changes nothing.
  pub slot_enqueue-Put :
      (arr : ℕ → A) (q : ShareQueue) (m : A) → IsValid q → Put arr q m (slot_enqueue arr q m)
  slot_enqueue-Put arr q m v = elim (Bool-cases (q.current_size == q.capacity)) [
    | inl full ↦
        rw
          (
            slot_enqueue-full arr q m ((==_iff _ _).0 full),
            length-window arr q.capacity (to_ℕ q.front) q.current_size,
            full,
          )
          (v, refl, refl, refl, refl, inr refl)
    | inr more ↦
        let ne : q.current_size ≢ q.capacity = ground arith in
        let f_in : to_ℕ q.front < q.capacity = front_in q v in
        rw
          (
            slot_enqueue-room arr q m v ne,
            length-window arr q.capacity (to_ℕ q.front) q.current_size,
            more,
          )
          (
            record {
              room = v.room;
              size_in = omega arith;
              ends = inr (to_ℕ q.front, q.current_size, refl, refl, refl, f_in);
            },
            ap {B = ℤ × List A} (λ l. (pos 0, l))
                (window-store arr q.capacity (to_ℕ q.front) q.current_size m f_in (omega arith)),
            refl,
            refl,
            refl,
            inl ne,
          )
  ]

-- `datagram_enqueue` keeps a valid queue valid. It puts a message behind the others and returns 0,
-- and changes no slot but the one behind them; with `capacity` messages it returns -1 and changes
-- neither the queue nor a slot, also outside the queue's array.
pub datagram_enqueue_refines :
    (arr : ℕ → Message) (q : ShareQueue) (m : Message)
    → IsValid q
    → Put arr q m (datagram_enqueue arr q m)
unfolding datagram_enqueue
datagram_enqueue_refines arr q m v = slot_enqueue-Put arr q m v

-- `int_enqueue` keeps a valid queue valid. It puts an int behind the others and returns 0; with
-- `capacity` ints it returns -1 and changes nothing.
pub int_enqueue_refines :
    (arr : ℕ → ℤ) (q : ShareQueue) (m : ℤ) → IsValid q → Put arr q m (int_enqueue arr q m)
unfolding int_enqueue
int_enqueue_refines arr q m v = slot_enqueue-Put arr q m v
