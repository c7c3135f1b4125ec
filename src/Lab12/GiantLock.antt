-- ===== src/Lab12/GiantLock.antt =====
-- lab12/queue_giantlock.cpp: a ring of keys behind one mutex. A try is one round of the loop of
-- `enqueue` or `dequeue`, which holds the mutex from the test to the end; `none` is the round that
-- finds the queue full, or empty, and goes round again. Counters are uint64_t.
pub mod Fifo
mod Tests
use ite.Base.{
  ℕ, zero, suc, ◌+◌, ◌*◌, ◌%◌, ◌^◌, ◌≡◌, ◌<◌, Bool, true, false, Option, none, some, List, [], ◌∷◌,
  ◌++◌, ◌==◌, leb, if◌then◌else◌, replicate, get_or, set,
}

abbrev pub queue_size : ℕ
queue_size = 1024

abbrev pub num_producer : ℕ
num_producer = 4

pub record Queue : Type 0 where
  pub queue : List ℕ
  pub front : ℕ
  pub rear : ℕ

-- The global array holds zeros before `init_queue`.
unfoldable pub init_queue : Queue
init_queue = record { queue = replicate queue_size 0; front = 0; rear = 0 }

unfoldable pub try_enqueue : ℕ → Queue → Option Queue
try_enqueue key q =
    if leb ((q.front + queue_size) % 2 ^ 64) q.rear
    then none
    else some
        (record q { queue = set q.queue (q.rear % queue_size) key; rear = (q.rear + 1) % 2 ^ 64 })

unfoldable pub try_dequeue : Queue → Option (ℕ × Queue)
try_dequeue q =
    if q.rear == q.front
    then none
    else some (get_or q.queue (q.front % queue_size) 0, record q { front = (q.front + 1) % 2 ^ 64 })

-- The keys of one producer, from its loop: `count` of them from `key` on.
unfoldable pub produced : ℕ → ℕ → List ℕ
produced key zero = []
produced key (suc count) = key ∷ produced (key + 1) count

-- What `ProducerFunc` enqueues for thread `tid`, with `count` keys for each producer.
unfoldable pub producer_keys : ℕ → ℕ → List ℕ
unfolding produced
producer_keys count tid = produced (count * tid) count

-- `ConsumerFunc` marks each key that it takes.
unfoldable pub mark_all : List Bool → List ℕ → List Bool
mark_all flags [] = flags
mark_all flags (key ∷ keys) = mark_all (set flags key true) keys

-- The loop at the end of `main`: every flag is set.
unfoldable pub verify : List Bool → Bool
verify [] = true
verify (true ∷ flags) = verify flags
verify (false ∷ flags) = false
