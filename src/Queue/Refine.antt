-- ===== src/Queue/Refine.antt =====
-- A valid queue of queue.c behaves as the bounded list of its items, the oldest first.
use socket_hook.Base.{
  ℕ, zero, suc, ◌+◌, ◌-◌, ◌%◌, ◌^◌, ◌≤◌, ◌<◌, ◌≡◌, refl, ap, ap₂, ◌∙◌, sym, ◌≢◌, ℤ, pos, minus_one,
  int_min, ◌==◌, if◌then◌else◌, Bool-cases, Option, none, some, List, [], ◌∷◌, ◌++◌, length,
  mod-add-mod, mod-eq_of_lt, mod-lt, mod_self, add-zero, ==_iff, ==_of_ne, inl, inr, arith,
}
use socket_hook.Base.Memory.{store, window, length-window, window_of_ne_zero}
use socket_hook.Base.Windows.{window-store, mod_shift}
use socket_hook.Queue.{
  Queue, add32, sub32, create_queue, enqueue, dequeue, advance, take_item, copy_items,
  get_queue_array,
}

-- A queue as the bounded list of its items.
abbrev pub put_list {ℓ} : {A : Type ℓ} → ℕ → List A → A → ℤ × List A
put_list capacity xs x = if length xs == capacity then (minus_one, xs) else (pos 0, xs ++ x ∷ [])

abbrev pub take_list {ℓ} : {A : Type ℓ} → List A → Option A × List A
take_list [] = (none, [])
take_list (x ∷ xs) = (some x, xs)

-- `rear` of a new queue is one before index 0.
wrap : (c : ℕ) → 0 < c → c < 2 ^ 31 → (sub32 c 1 + 1) % c ≡ 0 % c
wrap c h k = ap (λ a. a % c) (omega arith) ∙ mod_self c ∙ sym (mod-eq_of_lt {n = 0} {m = c} h)

module _ {ℓ} {A : Type ℓ} where
  pub record IsValid (q : Queue A) : Type 0 where
    pub room : 0 < q.capacity
    pub small : q.capacity < 2 ^ 31
    pub front_in : q.front < q.capacity
    pub rear_in : q.rear < q.capacity
    pub size_in : q.size ≤ q.capacity
    pub ends : (q.rear + 1) % q.capacity ≡ (q.front + q.size) % q.capacity

  abbrev pub contents : Queue A → List A
  contents q = window q.array q.capacity q.front q.size

  -- A new queue is valid and empty.
  pub create_queue-IsValid :
      (cells : ℕ → A) (capacity : ℕ)
      → 0 < capacity
      → capacity < 2 ^ 31
      → IsValid (create_queue cells capacity) × (contents (create_queue cells capacity) ≡ [])
  unfolding create_queue window
  create_queue-IsValid cells capacity h k = (
    record {
      room = h;
      small = k;
      front_in = h;
      rear_in = omega arith;
      size_in = omega arith;
      ends = wrap capacity h k;
    },
    refl,
  )

  -- The index that `enqueue` writes is the one behind the last item.
  pub write_index :
      (q : Queue A) → IsValid q → add32 q.rear 1 % q.capacity ≡ (q.front + q.size) % q.capacity
  write_index q v = ap (λ a. a % q.capacity) (omega arith) ∙ v.ends

  pub enqueue-full : (q : Queue A) (x : A) → q.size ≡ q.capacity → enqueue q x ≡ (minus_one, q)
  unfolding enqueue
  enqueue-full q x h = rw ((==_iff q.size q.capacity).1 h)

  -- `enqueue` with room, in numbers that do not wrap.
  abbrev pub extended : Queue A → A → Queue A
  extended q x = record q {
    rear = (q.front + q.size) % q.capacity;
    array = store q.array ((q.front + q.size) % q.capacity) x;
    size = suc q.size;
  }

  pub enqueue-room :
      (q : Queue A) (x : A) → IsValid q → q.size ≢ q.capacity → enqueue q x ≡ (pos 0, extended q x)
  unfolding enqueue
  enqueue-room q x v h =
      rw (==_of_ne q.size q.capacity h, write_index q v)
        (ap {B = ℤ × Queue A}
          (λ n. (
            pos 0,
            record q {
              rear = (q.front + q.size) % q.capacity;
              array = store q.array ((q.front + q.size) % q.capacity) x;
              size = n;
            },
          ))
          (room (omega arith)))
    where
      room : suc q.size < 2 ^ 32 → add32 q.size 1 ≡ suc q.size
      room k = omega arith

  extended-IsValid :
      (q : Queue A) (x : A) → IsValid q → q.size ≢ q.capacity → IsValid (extended q x)
  extended-IsValid q x v h = record {
    room = v.room;
    small = v.small;
    front_in = v.front_in;
    rear_in = mod-lt (q.front + q.size) v.room;
    size_in = omega arith;
    ends = mod-add-mod (q.front + q.size) q.capacity 1 ∙ ap (λ a. a % q.capacity) (omega arith);
  }

  -- `enqueue` keeps a valid queue valid. It puts an item behind the others and returns 0; with
  -- `capacity` items it returns -1 and changes nothing.
  pub enqueue_refines :
      (q : Queue A) (x : A)
      → IsValid q
      → IsValid (enqueue q x).1
        × (((enqueue q x).0, contents (enqueue q x).1) ≡ put_list q.capacity (contents q) x)
        × ((enqueue q x).1.capacity ≡ q.capacity)
  enqueue_refines q x v = elim (Bool-cases (q.size == q.capacity)) [
    | inl full ↦
        rw
          (
            enqueue-full q x ((==_iff _ _).0 full),
            length-window q.array q.capacity q.front q.size,
            full,
          )
          (v, refl, refl)
    | inr room ↦
        let ne : q.size ≢ q.capacity = ground arith in
        rw (enqueue-room q x v ne, length-window q.array q.capacity q.front q.size, room)
          (
            extended-IsValid q x v ne,
            ap {B = ℤ × List A} (λ l. (pos 0, l))
                (window-store q.array q.capacity q.front q.size x v.front_in (omega arith)),
            refl,
          )
  ]

  -- `advance` with an item there, in numbers that do not wrap.
  abbrev pub shortened : Queue A → Queue A
  shortened q = record q { front = (q.front + 1) % q.capacity; size = q.size - 1 }

  advance_lem : (q : Queue A) → IsValid q → q.size ≢ 0 → advance q ≡ shortened q
  unfolding advance
  advance_lem q v h =
      ap₂ {C = Queue A} (λ a n. record q { front = a % q.capacity; size = n }) (omega arith)
        (omega arith)

  shortened-IsValid : (q : Queue A) → IsValid q → q.size ≢ 0 → IsValid (shortened q)
  shortened-IsValid q v h = record {
    room = v.room;
    small = v.small;
    front_in = mod-lt (q.front + 1) v.room;
    rear_in = v.rear_in;
    size_in = omega arith;
    ends =
        v.ends
        ∙ ap (λ a. a % q.capacity) (omega arith)
        ∙ sym (mod_shift q.capacity q.front (q.size - 1));
  }

  take_item-empty : (q : Queue A) → q.size ≡ 0 → take_item q ≡ (none, q)
  unfolding take_item
  take_item-empty q h = rw ((==_iff q.size 0).1 h)

  contents-empty : (q : Queue A) → q.size ≡ 0 → contents q ≡ []
  unfolding window
  contents-empty q h = ap (window q.array q.capacity q.front) h

  take_item-more : (q : Queue A) → q.size ≢ 0 → take_item q ≡ (some (q.array q.front), advance q)
  unfolding take_item
  take_item-more q h = rw (==_of_ne q.size 0 h)

  -- `take_item` keeps a valid queue valid, and returns and removes its oldest item; of an empty
  -- queue it returns the null pointer and changes nothing.
  pub take_item_refines :
      (q : Queue A)
      → IsValid q
      → IsValid (take_item q).1
        × (((take_item q).0, contents (take_item q).1) ≡ take_list (contents q))
        × ((take_item q).1.capacity ≡ q.capacity)
  take_item_refines q v = elim (Bool-cases (q.size == 0)) [
    | inl empty ↦
        let e : q.size ≡ 0 = (==_iff _ _).0 empty in
        rw (take_item-empty q e) (
          v,
          ap₂ {C = Option A × List A} (λ o l. (o, l)) refl (contents-empty q e)
              ∙ rw (contents-empty q e),
          refl,
        )
    | inr more ↦
        let ne : q.size ≢ 0 = ground arith in
        rw
          (
            take_item-more q ne,
            advance_lem q v ne,
            window_of_ne_zero q.array q.capacity q.front q.size ne,
          )
          (shortened-IsValid q v ne, refl, refl)
  ]

-- What `dequeue` does to an int queue, by its list.
abbrev pub dequeue_list : List ℤ → ℤ × List ℤ
dequeue_list [] = (int_min, [])
dequeue_list (x ∷ xs) = (x, xs)

or_int_min : Option ℤ → ℤ
or_int_min none = int_min
or_int_min (some x) = x

dequeue-take_item : (q : Queue ℤ) → dequeue q ≡ (or_int_min (take_item q).0, (take_item q).1)
unfolding dequeue take_item or_int_min
dequeue-take_item q = ground arith

dequeue_list-take_list :
    (xs : List ℤ) → dequeue_list xs ≡ (or_int_min (take_list xs).0, (take_list xs).1)
unfolding or_int_min
dequeue_list-take_list [] = refl
dequeue_list-take_list (x ∷ xs) = refl

-- `dequeue` keeps a valid queue of ints valid, and returns and removes the oldest; of an empty
-- queue it returns `INT_MIN` and changes nothing.
pub dequeue_refines :
    (q : Queue ℤ)
    → IsValid q
    → IsValid (dequeue q).1
      × (((dequeue q).0, contents (dequeue q).1) ≡ dequeue_list (contents q))
      × ((dequeue q).1.capacity ≡ q.capacity)
dequeue_refines q v =
    let (w, e, c) = take_item_refines q v in
    rw (dequeue-take_item q, dequeue_list-take_list (contents q))
      (w, ap {B = ℤ × List ℤ} (λ p. (or_int_min p.0, p.1)) e, c)

module _ {ℓ} {A : Type ℓ} where
  copy_items-window :
      (q : Queue A) (i n : ℕ)
      → IsValid q
      → i + n ≤ q.capacity
      → copy_items q i n ≡ window q.array q.capacity ((q.front + i) % q.capacity) n
  unfolding copy_items window
  copy_items-window q i zero v h = refl
  copy_items-window q i (suc n) v h = ap₂ ◌∷◌ (ap (λ a. q.array (a % q.capacity)) (omega arith)) (
      copy_items-window q (i + 1) n v (omega arith)
      ∙ ap (λ a. window q.array q.capacity a n)
          (ap (λ a. a % q.capacity) (omega arith) ∙ sym (mod-add-mod (q.front + i) q.capacity 1)))

  -- `getQueueArray` of a valid queue is the array of all its items, the oldest first, with their
  -- number; of an empty one it is the null pointer.
  pub get_queue_array_refines :
      (q : Queue A)
      → IsValid q
      → get_queue_array q ≡ (
          if length (contents q) == 0
          then none
          else some (record { arr = contents q; length = length (contents q) }))
  unfolding get_queue_array
  get_queue_array_refines q v = rw (
    length-window q.array q.capacity q.front q.size,
    copy_items-window q 0 q.size v (omega arith),
    add-zero,
    mod-eq_of_lt v.front_in,
  )
