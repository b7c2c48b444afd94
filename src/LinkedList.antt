-- ===== src/LinkedList.antt =====
-- list.c: singly linked lists of ints, on a heap of nodes. A pointer is an address, or `none` for
-- null.
pub mod Chains
pub mod Proofs
pub mod Deletion
pub mod Bubble
pub mod Sorting
use socket_hook.Base.{
  ℕ, zero, suc, ◌+◌, ◌-◌, ℤ, pos, negsuc, eq_ℤ, Bool, true, false, ◌==◌, ltb, if◌then◌else◌, Option,
  none, some,
}
use socket_hook.Base.Memory.{store}

abbrev pub Pointer : Type 0
Pointer = Option ℕ

-- `struct node`; `value` is its `data`.
pub record Node : Type 0 where
  pub value : ℤ
  pub next : Pointer

abbrev pub Heap : Type 0
Heap = ℕ → Node

-- a > b
abbrev pub gt_ℤ : ℤ → ℤ → Bool
gt_ℤ (pos a) (pos b) = ltb b a
gt_ℤ (pos a) (negsuc b) = true
gt_ℤ (negsuc a) (pos b) = false
gt_ℤ (negsuc a) (negsuc b) = ltb a b

-- The node is linked before the others, but the caller's pointer stays: `head` is a parameter.
-- `link` is the address that `malloc` returns.
unfoldable pub insert_first : Heap → Pointer → ℕ → ℤ → Heap
insert_first h head link value = store h link (record { value = value; next = head })

-- The caller's pointer stays here too. `none`: the null pointer is followed.
unfoldable pub delete_first : Heap → Pointer → Option Pointer
delete_first h none = none
delete_first h (some a) = some (some a)

unfoldable pub is_list_empty : Pointer → Bool
is_list_empty none = true
is_list_empty (some a) = false

-- The loops, with `fuel` rounds to go; `none` says that there are more.
unfoldable pub list_len_from : ℕ → Heap → Pointer → ℕ → Option ℕ
list_len_from fuel h none length = some length
list_len_from zero h (some a) length = none
list_len_from (suc fuel) h (some a) length = list_len_from fuel h (h a).next (length + 1)

unfoldable pub list_len : ℕ → Heap → Pointer → Option ℕ
unfolding list_len_from
list_len fuel h head = list_len_from fuel h head 0

-- The loop of `findInList` and `deleteInList`: the pointer to the node before, and the node.
unfoldable pub find_from : ℕ → Heap → Pointer → ℕ → ℤ → Option (Pointer × Pointer)
find_from zero h previous current value =
    if eq_ℤ (h current).value value
    then some (previous, some current)
    else (if is_list_empty (h current).next then some (previous, none) else none)
find_from (suc fuel) h previous current value = elim (h current).next [
  | none ↦ some (previous, if eq_ℤ (h current).value value then some current else none)
  | some a ↦
      let rest = find_from fuel h (some current) a value in
      if eq_ℤ (h current).value value then some (previous, some current) else rest
]

unfoldable pub find_in_list : ℕ → Heap → Pointer → ℤ → Option Pointer
unfolding find_from
find_in_list fuel h none value = some none
find_in_list fuel h (some head) value = elim (find_from fuel h none head value) [
  | none ↦ none
  | some (previous, found) ↦ some found
]

-- The node that was found is taken out, but for the first one: the caller's pointer stays.
unfoldable pub bypass : Heap → Pointer → Pointer → Heap
bypass h none found = h
bypass h (some p) none = h
bypass h (some p) (some a) = store h p (record (h p) { next = (h a).next })

unfoldable pub delete_in_list : ℕ → Heap → Pointer → ℤ → Option (Pointer × Heap)
unfolding find_from bypass
delete_in_list fuel h none value = some (none, h)
delete_in_list fuel h (some head) value = elim (find_from fuel h none head value) [
  | none ↦ none
  | some (previous, found) ↦ some (found, bypass h previous found)
]

-- One step of the inner loop of `sortList`; `none`: the null pointer is followed.
unfoldable pub swap_data : Heap → ℕ → ℕ → Heap
swap_data h a b =
    let h1 = store h a (record (h a) { value = (h b).value }) in
    if gt_ℤ (h a).value (h b).value then store h1 b (record (h1 b) { value = (h a).value }) else h

unfoldable pub sort_pass : ℕ → Heap → Pointer → Pointer → Option Heap
unfolding swap_data
sort_pass zero h current next = some h
sort_pass (suc rounds) h none next = none
sort_pass (suc rounds) h (some a) none = none
sort_pass (suc rounds) h (some a) (some b) =
    let h1 = swap_data h a b in sort_pass rounds h1 (h1 a).next (h1 b).next

-- The outer loop, for i from 0: `rounds` is size - 1 - i, and k is one more.
unfoldable pub sort_rounds : ℕ → Heap → ℕ → Option Heap
unfolding sort_pass
sort_rounds zero h head = some h
sort_rounds (suc rounds) h head = elim (sort_pass (suc rounds) h (some head) (h head).next) [
  | none ↦ none
  | some h1 ↦ sort_rounds rounds h1 head
]

unfoldable pub sort_list : ℕ → Heap → Pointer → Option Heap
unfolding list_len sort_rounds
sort_list fuel h none = some h
sort_list fuel h (some head) = elim (list_len fuel h (some head)) [
  | none ↦ none
  | some size ↦ sort_rounds (size - 1) h head
]

unfoldable pub reverse_from : ℕ → Heap → Pointer → Pointer → Option (Heap × Pointer)
reverse_from fuel h prev none = some (h, prev)
reverse_from zero h prev (some a) = none
reverse_from (suc fuel) h prev (some a) =
    reverse_from fuel (store h a (record (h a) { next = prev })) (some a) (h a).next

-- The heap, and what `*head_ref` is then.
unfoldable pub reverse_list : ℕ → Heap → Pointer → Option (Heap × Pointer)
unfolding reverse_from
reverse_list fuel h head = reverse_from fuel h none head
