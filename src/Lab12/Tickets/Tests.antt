-- ===== src/Lab12/Tickets/Tests.antt =====
-- A run of lab12/queue_bounded.cpp with one producer and one consumer.
use ite.Base.{ℕ, ◌≡◌, refl, List, [], ◌∷◌, ◌++◌, replicate}
use ite.Lab12.Tickets.{init_queue, Call, enqueue, dequeue, draw, thread_step, run}
use ite.Lab12.Tickets.Frame.{AreInOrder}
use ite.Lab12.Tickets.Runs.{run-AreInOrder}

-- The consumer asks first and waits until the producer has put 7 in.
abbrev hand_over : List (ℕ × Call)
hand_over = replicate 3 (1, dequeue) ++ (replicate 10 (0, enqueue 7) ++ replicate 4 (1, dequeue))

seven_comes_out : (run hand_over init_queue).got ≡ (record { ticket = 0; ret_key = 7 }) ∷ []
unfolding run thread_step draw init_queue
seven_comes_out = refl

run-AreInOrder_example : AreInOrder (run hand_over init_queue) (run hand_over init_queue).got
run-AreInOrder_example = run-AreInOrder hand_over
