-- ===== src/Tests/Lists.antt =====
-- `reverseList`, `deleteInList` and `sortList` on a list of three nodes.
use socket_hook.Base.{
  ◌≡◌, refl, ℕ, ◌+◌, pos, negsuc, false, is_in, if◌then◌else◌, none, some, List, [], ◌∷◌, ◌==◌,
}
use mathlib.Core.List.{Perm}
use socket_hook.LinkedList.{Heap, delete_in_list, sort_list}
use socket_hook.LinkedList.Bubble.{IsSorted}
use socket_hook.LinkedList.Sorting.{values, sort_list_lem}
use socket_hook.LinkedList.Chains.{Chain}
use socket_hook.LinkedList.Deletion.{delete_in_list_lem}

-- The nodes 0, 1, 2 with the values 10, 11, 12.
abbrev nodes : List ℕ
nodes = 0 ∷ 1 ∷ 2 ∷ []

abbrev heap : Heap
heap x = record { value = pos (x + 10); next = if x == 2 then none else some (x + 1) }

delete_in_list_lem_example :
    (h' : Heap) × (delete_in_list 2 heap (some 0) (pos 11) ≡ some (some 1, h'))
    × Chain h' (some 0) (0 ∷ 2 ∷ [])
    × ((x : ℕ) → (h' x).value ≡ (heap x).value)
    × ((x : ℕ) → is_in x nodes ≡ false → h' x ≡ heap x)
delete_in_list_lem_example =
    delete_in_list_lem heap (pos 11) 0 (1 ∷ 2 ∷ []) (refl, (refl, (refl, tt))) (refl, (refl, refl))

-- The same nodes with the values 3, -1, 2.
abbrev unsorted : Heap
unsorted x = record {
  value = if x == 0 then pos 3 else (if x == 1 then negsuc 0 else pos 2);
  next = if x == 2 then none else some (x + 1);
}

sort_list_lem_example :
    (h' : Heap) × (sort_list 3 unsorted (some 0) ≡ some h')
    × Chain h' (some 0) nodes
    × IsSorted (values h' nodes)
    × Perm (values h' nodes) (pos 3 ∷ negsuc 0 ∷ pos 2 ∷ [])
    × ((x : ℕ) → is_in x nodes ≡ false → h' x ≡ unsorted x)
sort_list_lem_example =
    sort_list_lem unsorted 0 (1 ∷ 2 ∷ []) (refl, (refl, (refl, tt))) (refl, (refl, refl))
