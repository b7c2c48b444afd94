-- ===== src/Tests/Queues.antt =====
-- The stack and the queues of queue.c on small inputs.
use socket_hook.Base.{◌+◌, ◌≡◌, refl, ℤ, pos, List, [], ◌∷◌, ◌==◌, if◌then◌else◌, arith}
use socket_hook.Base.Memory.{window}
use socket_hook.Stack.{Stack, pop, is_empty_stack}
use socket_hook.Stack.Laws as Stacks
use socket_hook.Queue.{Queue, dequeue, is_empty_queue}
use socket_hook.Queue.Refine.{IsValid, contents}
use socket_hook.Queue.Run.{Op, put, take, run, run_list, run_refines}

-- 8 on top of 7, with room for one more.
abbrev two_items : Stack
two_items = record { top = pos 1; capacity = 3; array = λ i. if i == 0 then pos 7 else pos 8 }

two_items-IsValid : Stacks.IsValid two_items
two_items-IsValid = record { low = refl; fits = omega arith; small = omega arith }

pop_two : (pop two_items).0 ≡ pos 8
unfolding pop is_empty_stack
pop_two = refl

-- The queue 12, 13, 10 of capacity 4, which goes round its array.
abbrev three_items : Queue ℤ
three_items = record { front = 2; rear = 0; size = 3; capacity = 4; array = λ i. pos (10 + i) }

three_items-IsValid : IsValid three_items
three_items-IsValid = record {
  room = omega arith;
  small = omega arith;
  front_in = omega arith;
  rear_in = omega arith;
  size_in = omega arith;
  ends = refl;
}

contents_three : contents three_items ≡ pos 12 ∷ pos 13 ∷ pos 10 ∷ []
unfolding window
contents_three = refl

dequeue_three : (dequeue three_items).0 ≡ pos 12
unfolding dequeue is_empty_queue
dequeue_three = refl

abbrev calls : List (Op ℤ)
calls = put (pos 1) ∷ put (pos 2) ∷ take ∷ put (pos 3) ∷ take ∷ []

run_refines_example : run three_items calls ≡ run_list 4 (contents three_items) calls
run_refines_example = run_refines three_items calls three_items-IsValid
