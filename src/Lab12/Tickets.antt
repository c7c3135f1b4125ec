-- ===== src/Lab12/Tickets.antt =====
-- lab12/queue_bounded.cpp: a ring of buckets without a lock. A step is one access of shared memory,
-- which is sequentially consistent; tickets and flags stay below the bounds of their types. The key
-- that each ticket was drawn for, and the answers of `dequeue`, are kept beside the state.
use ite.Base.{
  ℕ, zero, suc, ◌+◌, ◌-◌, ◌*◌, ◌/◌, ◌%◌, Bool, true, false, not, ◌||◌, Option, none, some, List, [],
  ◌∷◌, ◌++◌, ◌==◌, if◌then◌else◌, change,
}
pub mod Frame
pub mod Order
pub mod Runs
pub mod Steps
mod Tests

abbrev pub queue_size : ℕ
queue_size = 1024

pub record QueueNode : Type 0 where
  pub key : ℕ
  pub flag : ℕ

-- Where a thread stands in `enqueue` or `dequeue`, with its ticket and its locals.
pub data Pc : Type 0 where
  idle : Pc
  enq_waiting : (ticket key : ℕ) → Pc
  enq_writing : (ticket key : ℕ) → Pc
  enq_loading : (ticket key : ℕ) → Pc
  enq_raising : (ticket key flag : ℕ) → Pc
  deq_waiting : (ticket : ℕ) → Pc
  deq_reading : (ticket : ℕ) → Pc
  deq_loading : (ticket ret_key : ℕ) → Pc
  deq_raising : (ticket ret_key flag : ℕ) → Pc

-- An answer of `dequeue`.
pub record Got : Type 0 where
  pub ticket : ℕ
  pub ret_key : ℕ

-- `put` and `got` are not in the program.
pub record System : Type 0 where
  pub queue : ℕ → QueueNode
  pub front : ℕ
  pub rear : ℕ
  pub threads : ℕ → Pc
  pub put : ℕ → ℕ
  pub got : List Got

-- `init_queue`; the global array is zero.
unfoldable pub init_queue : System
init_queue = record {
  queue = λ _. record { key = 0; flag = 0 };
  front = 0;
  rear = 0;
  threads = λ _. idle;
  put = λ _. 0;
  got = [];
}

-- What an idle thread calls next.
pub data Call : Type 0 where
  enqueue : (key : ℕ) → Call
  dequeue : Call

abbrev pub set_pc : ℕ → Pc → System → System
set_pc a pc s = record s { threads = change s.threads a pc }

abbrev pub bucket : System → ℕ → QueueNode
bucket s ticket = s.queue (ticket % queue_size)

abbrev pub set_bucket : ℕ → QueueNode → System → System
set_bucket ticket node s = record s { queue = change s.queue (ticket % queue_size) node }

-- `__sync_fetch_and_add`, for a ticket.
unfoldable pub draw : ℕ → Call → System → System
draw a (enqueue key) s =
    set_pc a (enq_waiting s.rear key)
      (record s { rear = s.rear + 1; put = change s.put s.rear key })
draw a dequeue s = set_pc a (deq_waiting s.front) (record s { front = s.front + 1 })

-- The rounds of `enqueue` that go to `pthread_yield`, and of `dequeue`.
abbrev pub must_wait_enq : ℕ → ℕ → Bool
must_wait_enq flag ticket = (flag % 2 == 1) || not (flag / 2 == ticket / queue_size)

abbrev pub must_wait_deq : ℕ → ℕ → Bool
must_wait_deq flag ticket = (flag % 2 == 0) || not (flag / 2 == ticket / queue_size)

-- One step of thread `a`; an idle thread makes the call `c`.
unfoldable pub thread_step : ℕ → Call → Pc → System → System
unfolding draw
thread_step a c idle s = draw a c s
thread_step a c (enq_waiting ticket key) s =
    set_pc a
      (if must_wait_enq (bucket s ticket).flag ticket
        then enq_waiting ticket key
        else enq_writing ticket key)
      s
thread_step a c (enq_writing ticket key) s =
    set_pc a (enq_loading ticket key) (set_bucket ticket (record (bucket s ticket) { key = key }) s)
thread_step a c (enq_loading ticket key) s =
    set_pc a (enq_raising ticket key (bucket s ticket).flag) s
thread_step a c (enq_raising ticket key flag) s =
    set_pc a idle (set_bucket ticket (record (bucket s ticket) { flag = flag + 1 }) s)
thread_step a c (deq_waiting ticket) s =
    set_pc a
      (if must_wait_deq (bucket s ticket).flag ticket
        then deq_waiting ticket
        else deq_reading ticket)
      s
thread_step a c (deq_reading ticket) s = set_pc a (deq_loading ticket (bucket s ticket).key) s
thread_step a c (deq_loading ticket ret_key) s =
    set_pc a (deq_raising ticket ret_key (bucket s ticket).flag) s
thread_step a c (deq_raising ticket ret_key flag) s =
    record (set_pc a idle (set_bucket ticket (record (bucket s ticket) { flag = flag + 1 }) s)) {
      got = s.got ++ ((record { ticket = ticket; ret_key = ret_key }) ∷ []);
    }

-- Each entry names a thread, and the call that it makes if it is idle.
unfoldable pub run : List (ℕ × Call) → System → System
unfolding thread_step
run [] s = s
run ((a, c) ∷ rest) s = run rest (thread_step a c (s.threads a) s)
