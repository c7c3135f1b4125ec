-- ===== src/Lab12/GiantLock/Tests.antt =====
-- The queue of lab12/queue_giantlock.cpp by evaluation, and the theorems at it.
use ite.Base.{◌≡◌, ◌≤◌, refl, arith, List, [], ◌∷◌, ◌++◌, length}
use ite.Lab12.GiantLock.{queue_size, init_queue}
use ite.Lab12.GiantLock.Fifo.{contents, Round, enqueue, dequeue, rounds, new_trace, rounds-fifo}

abbrev three : List Round
three = enqueue 5 ∷ enqueue 6 ∷ dequeue ∷ []

taken_first : (rounds new_trace three).taken ≡ 5 ∷ []
unfolding rounds init_queue
taken_first = refl

rounds-fifo_example :
    ((rounds new_trace three).put
      ≡ (rounds new_trace three).taken ++ contents (rounds new_trace three).state)
    × (length (contents (rounds new_trace three).state) ≤ queue_size)
rounds-fifo_example = rounds-fifo three (omega arith)
