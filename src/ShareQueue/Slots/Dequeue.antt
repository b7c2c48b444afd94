-- ===== src/ShareQueue/Slots/Dequeue.antt =====
-- A valid datagram or int queue of share_queue.c gives its items back, the oldest first.
use socket_hook.Base.{
  if◌then◌else◌, ℕ, zero, suc, ◌+◌, ◌-◌, ◌%◌, ◌≤◌, ◌<◌, ◌≡◌, refl, ap, ◌∙◌, sym, ◌≢◌, ◌⊎◌, inl, inr,
  ℤ, pos, minus_one, eq_ℤ, to_ℕ, ◌==◌, Bool-cases, ==_iff, ==_of_ne, List, [], ◌∷◌, mod-eq_of_lt,
  arith,
}
use socket_hook.Base.Memory.{store, window, window_of_ne_zero}
use socket_hook.Base.Windows.{window-congr, mod_shift, mod-ne, lap-lt}
use socket_hook.ShareQueue.{ShareQueue, Message, slot_advance, datagram_dequeue, int_dequeue}
use socket_hook.ShareQueue.Slots.{IsValid, items, front_in}

module _ {ℓ} {A : Type ℓ} where
  -- The items behind the front one do not see a store at the front.
  rest_unchanged :
      (arr : ℕ → A) (cap f n : ℕ) (x : A)
      → f < cap
      → n < cap
      → window (store arr f x) cap ((f + 1) % cap) n ≡ window arr cap ((f + 1) % cap) n
  rest_unchanged arr cap f n x hf hn =
      window-congr (store arr f x) arr cap ((f + 1) % cap) n (lap-lt cap (f + 1) f hf) λ i hi. rw (
        mod_shift cap f i,
        ==_of_ne f ((f + suc i) % cap) λ e.
            mod-ne cap f 0 (suc i) hf (omega arith) (omega arith)
              (sym e ∙ sym (mod-eq_of_lt {n = f} {m = cap} hf) ∙ ap (λ a. a % cap) (omega arith)),
      )

-- The ends meet exactly if there is one item.
ends_meet : (cap f n : ℕ) → f < cap → n < cap → (f == (f + n) % cap) ≡ (n == 0)
ends_meet cap f zero hf hn = ground (arith, mod-eq_of_lt {n = f + 0} {m = cap})
ends_meet cap f (suc n) hf hn = rw (==_of_ne (suc n) 0 (omega arith)) (
    ==_of_ne f ((f + suc n) % cap) λ e.
      mod-ne cap f 0 (suc n) hf (omega arith) hn
        (sym e ∙ sym (mod-eq_of_lt {n = f} {m = cap} hf) ∙ ap (λ a. a % cap) (omega arith)))

slot_advance-more :
    (q : ShareQueue) (f n : ℕ)
    → q.current_size ≡ suc (suc n)
    → q.current_size ≤ q.capacity
    → q.front ≡ pos f
    → q.rear ≡ pos ((f + suc n) % q.capacity)
    → f < q.capacity
    → slot_advance q ≡ record q { front = pos ((f + 1) % q.capacity); current_size = suc n }
unfolding slot_advance
slot_advance-more q f n s k e r l = ground (arith, ends_meet q.capacity f (suc n))

-- `slot_advance` keeps a valid queue with an item valid, and drops the front one.
slot_advance_lem :
    (q : ShareQueue)
    → IsValid q
    → q.current_size ≢ 0
    → IsValid (slot_advance q)
      × ((slot_advance q).current_size ≡ q.current_size - 1)
      × (((slot_advance q).current_size ≡ 0)
          ⊎ (to_ℕ (slot_advance q).front ≡ (to_ℕ q.front + 1) % q.capacity))
      × ((slot_advance q).capacity ≡ q.capacity)
      × ((slot_advance q).message_start_offset ≡ q.message_start_offset)
unfolding slot_advance
slot_advance_lem q v h = elim v.ends [
  | inl (s, f, r) ↦ absurd (h s)
  | inr (f, zero, s, e, r, l) ↦ ground (arith, ends_meet q.capacity f 0)
  | inr (f, suc n, s, e, r, l) ↦ rw (slot_advance-more q f n s v.size_in e r l) (
    record {
      room = v.room;
      size_in = omega arith;
      ends = inr (
        (f + 1) % q.capacity,
        n,
        refl,
        refl,
        r ∙ ap pos (sym (mod_shift q.capacity f n)),
        lap-lt q.capacity (f + 1) f l,
      );
    },
    omega arith,
    inr (ground arith),
    refl,
    refl,
  )
]

-- An empty window is the same wherever it begins.
window_eq {ℓ} :
    {A : Type ℓ} (arr : ℕ → A) (c d a b n k : ℕ)
    → c ≡ d
    → n ≡ k
    → (n ≡ 0) ⊎ (a ≡ b)
    → window arr c a n ≡ window arr d b k
unfolding window
window_eq arr c d a b n k p s (inl z) =
    ap (window arr c a) z ∙ sym (ap (window arr d b) (sym s ∙ z))
window_eq arr c d a b n k p s (inr e) = cc

items-slot_advance {ℓ} :
    {A : Type ℓ} (arr : ℕ → A) (q : ShareQueue)
    → IsValid q
    → q.current_size ≢ 0
    → items arr (slot_advance q)
      ≡ window arr q.capacity ((to_ℕ q.front + 1) % q.capacity) (q.current_size - 1)
items-slot_advance arr q v h =
    let (w, size, front, c, o) = slot_advance_lem q v h in window_eq arr _ _ _ _ _ _ c size front

-- A queue says that it is empty by its front.
front_test : (q : ShareQueue) → IsValid q → eq_ℤ q.front minus_one ≡ (q.current_size == 0)
front_test q v = ground arith

-- What `datagram_dequeue` and `int_dequeue` do, by the list of the items.
abbrev pub datagram_list : Message → List Message → Message × List Message
datagram_list m [] = (record m { length = 0 }, [])
datagram_list m (x ∷ xs) = (x, xs)

abbrev pub int_list : List ℤ → ℤ × List ℤ
int_list [] = (minus_one, [])
int_list (x ∷ xs) = (x, xs)

items-empty {ℓ} :
    {A : Type ℓ} (arr : ℕ → A) (q : ShareQueue) → q.current_size ≡ 0 → items arr q ≡ []
unfolding window
items-empty arr q h = ap (window arr q.capacity (to_ℕ q.front)) h

items-more {ℓ} :
    {A : Type ℓ} (arr : ℕ → A) (q : ShareQueue)
    → IsValid q
    → q.current_size ≢ 0
    → items arr q ≡ arr (to_ℕ q.front) ∷ items arr (slot_advance q)
items-more arr q v h =
    window_of_ne_zero arr q.capacity (to_ℕ q.front) q.current_size h
    ∙ ap (◌∷◌ (arr (to_ℕ q.front))) (sym (items-slot_advance arr q v h))

-- `datagram_dequeue` keeps a valid queue valid, and returns and removes its oldest message. It sets
-- the length in that message's slot to 0, and changes no other slot; of an empty queue it returns a
-- message of length 0 and changes neither the queue nor a slot.
pub datagram_dequeue_refines :
    (arr : ℕ → Message) (q : ShareQueue) (m : Message)
    → IsValid q
    → let r = datagram_dequeue arr q m in
      IsValid r.2
      × ((r.0, items r.1 r.2) ≡ datagram_list m (items arr q))
      × (r.2.capacity ≡ q.capacity)
      × (r.2.message_start_offset ≡ q.message_start_offset)
      × (r.1 ≡ (
          if q.current_size == 0
          then arr
          else store arr (to_ℕ q.front) (record (arr (to_ℕ q.front)) { length = 0 })))
      × ((q.current_size ≢ 0) ⊎ (r ≡ (record m { length = 0 }, arr, q)))
unfolding datagram_dequeue
datagram_dequeue_refines arr q m v = elim (Bool-cases (q.current_size == 0)) [
  | inl empty ↦
      rw (front_test q v, empty, items-empty arr q ((==_iff _ _).0 empty))
        (v, refl, refl, refl, refl, inr refl)
  | inr more ↦
      let ne : q.current_size ≢ 0 = ground arith in
      let (w, size, front, c, o) = slot_advance_lem q v ne in
      let i = to_ℕ q.front in
      let x : Message = record (arr i) { length = 0 } in
      rw (front_test q v, more, items-more arr q v ne)
        (
          w,
          ap {B = Message × List Message} (λ l. (arr i, l))
              (items-slot_advance (store arr i x) q v ne
                ∙ rest_unchanged arr q.capacity i (q.current_size - 1) x (front_in q v)
                    (omega arith)
                ∙ sym (items-slot_advance arr q v ne)),
          c,
          o,
          refl,
          inl ne,
        )
]

-- `int_dequeue` keeps a valid queue valid, and returns and removes its oldest int; of an empty
-- queue it returns -1 and changes nothing.
pub int_dequeue_refines :
    (arr : ℕ → ℤ) (q : ShareQueue)
    → IsValid q
    → let r = int_dequeue arr q in
      IsValid r.1
      × ((r.0, items arr r.1) ≡ int_list (items arr q))
      × (r.1.capacity ≡ q.capacity)
      × (r.1.message_start_offset ≡ q.message_start_offset)
unfolding int_dequeue
int_dequeue_refines arr q v = elim (Bool-cases (q.current_size == 0)) [
  | inl empty ↦
      rw (front_test q v, empty, items-empty arr q ((==_iff _ _).0 empty)) (v, refl, refl, refl)
  | inr more ↦
      let ne : q.current_size ≢ 0 = ground arith in
      let (w, size, front, c, o) = slot_advance_lem q v ne in
      rw (front_test q v, more, items-more arr q v ne) (w, refl, c, o)
]
