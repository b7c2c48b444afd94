-- ===== src/Queue/Run.antt =====
-- Calls of the two sides of a queue of queue.c in any order, each under the queue's lock.
use socket_hook.Base.{◌≡◌, refl, ap, ◌∙◌, ℤ, Option, List, [], ◌∷◌, ℕ}
use socket_hook.Queue.{Queue, enqueue, take_item}
use socket_hook.Queue.Refine.{
  IsValid, contents, put_list, take_list, enqueue_refines, take_item_refines,
}

pub data Op {ℓ} (A : Type ℓ) : Type ℓ where
  put : A → Op A
  take : Op A

-- What a caller sees of a call.
pub data Reply {ℓ} (A : Type ℓ) : Type ℓ where
  code : ℤ → Reply A
  item : Option A → Reply A

module _ {ℓ} {A : Type ℓ} where
  pub run : Queue A → List (Op A) → List (Reply A)
  run q [] = []
  run q (put x ∷ ops) = let (r, q') = enqueue q x in code r ∷ run q' ops
  run q (take ∷ ops) = let (r, q') = take_item q in item r ∷ run q' ops

  -- The same calls on the bounded list of the items.
  pub run_list : ℕ → List A → List (Op A) → List (Reply A)
  run_list capacity xs [] = []
  run_list capacity xs (put x ∷ ops) =
      let (r, ys) = put_list capacity xs x in code r ∷ run_list capacity ys ops
  run_list capacity xs (take ∷ ops) =
      let (r, ys) = take_list xs in item r ∷ run_list capacity ys ops

  -- No sequence of calls tells a valid queue from the bounded first-in first-out list of its
  -- items.
  pub run_refines :
      (q : Queue A) (ops : List (Op A))
      → IsValid q
      → run q ops ≡ run_list q.capacity (contents q) ops
  unfolding run run_list
  run_refines q [] v = refl
  run_refines q (put x ∷ ops) v =
      let (w, e, c) = enqueue_refines q x v in
      ap (◌∷◌ (code (enqueue q x).0)) (run_refines (enqueue q x).1 ops w ∙ rw c refl)
      ∙ ap {B = List (Reply A)} (λ p. code p.0 ∷ run_list q.capacity p.1 ops) e
  run_refines q (take ∷ ops) v =
      let (w, e, c) = take_item_refines q v in
      ap (◌∷◌ (item (take_item q).0)) (run_refines (take_item q).1 ops w ∙ rw c refl)
      ∙ ap {B = List (Reply A)} (λ p. item p.0 ∷ run_list q.capacity p.1 ops) e
