-- ===== src/Lab12/GiantLock/Fifo.antt =====
-- The ring is a bounded first-in first-out queue: lab12/queue_giantlock.cpp.
use ite.Base.{
  ℕ, zero, suc, ◌+◌, ◌-◌, ◌%◌, ◌^◌, ◌≡◌, ◌≢◌, ◌≤◌, ◌<◌, refl, ◌⊎◌, true, false, Option, none, some,
  List, [], ◌∷◌, ◌++◌, ◌==◌, leb, get_or, set, arith, length, length-set, ap, ◌∙◌, sym, Bool-cases,
  inl, inr, get_or-set_self, get_or-set_ne,
}
use mathlib.Core.List.{append_assoc}
use ite.Lab12.GiantLock.{Queue, queue_size, init_queue, try_enqueue, try_dequeue}

-- The counters have not come near the end of a uint64_t.
pub record IsValid (q : Queue) : Type 0 where
  pub sized : length q.queue ≡ queue_size
  pub ordered : q.front ≤ q.rear
  pub bounded : q.rear ≤ q.front + queue_size
  pub small : q.rear + queue_size < 2 ^ 64

-- The keys with tickets from `first` on.
unfoldable pub keys_from : List ℕ → ℕ → ℕ → List ℕ
keys_from queue first zero = []
keys_from queue first (suc n) = get_or queue (first % queue_size) 0 ∷ keys_from queue (first + 1) n

-- The abstract queue: the keys that wait, the oldest first.
unfoldable pub contents : Queue → List ℕ
unfolding keys_from
contents q = keys_from q.queue q.front (q.rear - q.front)

keys_from-set :
    (queue : List ℕ) (first n r key : ℕ)
    → first + n ≤ r
    → r < first + queue_size
    → keys_from (set queue (r % queue_size) key) first n ≡ keys_from queue first n
unfolding keys_from
keys_from-set queue first zero r key lo hi = refl
keys_from-set queue first (suc n) r key lo hi =
    let apart : r % queue_size ≢ first % queue_size = omega arith in
    rw (
      get_or-set_ne queue (r % queue_size) (first % queue_size) key 0 apart,
      keys_from-set queue (first + 1) n r key (omega arith) (omega arith),
    )

keys_from-snoc :
    (queue : List ℕ) (first n : ℕ)
    → keys_from queue first (n + 1)
      ≡ keys_from queue first n ++ (get_or queue ((first + n) % queue_size) 0 ∷ [])
unfolding keys_from
keys_from-snoc queue first zero = ap (λ (m : ℕ). get_or queue (m % queue_size) 0 ∷ []) (omega arith)
keys_from-snoc queue first (suc n) =
    let e : suc n + 1 ≡ suc (n + 1) = omega arith in
    let f : first + 1 + n ≡ first + suc n = omega arith in
    rw (e, keys_from, keys_from-snoc queue (first + 1) n, f)

keys_from-enqueue :
    (queue : List ℕ) (first n key : ℕ)
    → length queue ≡ queue_size
    → n < queue_size
    → keys_from (set queue ((first + n) % queue_size) key) first (n + 1)
      ≡ keys_from queue first n ++ (key ∷ [])
keys_from-enqueue queue first n key size lt =
    keys_from-snoc (set queue ((first + n) % queue_size) key) first n
    ∙ rw (
      keys_from-set queue first n (first + n) key (omega arith) (omega arith),
      get_or-set_self queue ((first + n) % queue_size) key 0 (omega arith),
    )

length-keys_from : (queue : List ℕ) (first n : ℕ) → length (keys_from queue first n) ≡ n
unfolding keys_from
length-keys_from queue first zero = refl
length-keys_from queue first (suc n) = ap suc (length-keys_from queue (first + 1) n)

pub length-contents : (q : Queue) → length (contents q) ≡ q.rear - q.front
unfolding contents
length-contents q = length-keys_from q.queue q.front (q.rear - q.front)

init_queue-IsValid : IsValid init_queue
unfolding init_queue
init_queue-IsValid = record {
  sized = refl;
  ordered = omega arith;
  bounded = omega arith;
  small = omega arith;
}

-- A round of `enqueue` fails exactly when 1024 keys wait; else it puts the key behind them.
pub try_enqueue_lem :
    (key : ℕ) (q : Queue)
    → IsValid q
    → ((length (contents q) ≡ queue_size) × (try_enqueue key q ≡ none))
      ⊎ ((length (contents q) < queue_size)
          × ((q' : Queue) × (try_enqueue key q ≡ some q')
              × (contents q' ≡ contents q ++ (key ∷ []))
              × (q'.rear ≡ q.rear + 1)
              × (q'.rear + queue_size < 2 ^ 64 → IsValid q')))
unfolding try_enqueue contents
try_enqueue_lem key q v = elim (Bool-cases (leb (q.front + queue_size) q.rear)) [
  | inl full ↦ inl (
    omega (arith, length-keys_from q.queue q.front (q.rear - q.front), at_end full),
    rw (unwrapped, full),
  )
  | inr room ↦ inr (
    omega (arith, length-keys_from q.queue q.front (q.rear - q.front), below room),
    (
      record { queue = set q.queue (q.rear % queue_size) key; front = q.front; rear = q.rear + 1 },
      rw (unwrapped, room, next),
      new_contents (below room),
      refl,
      λ small. record {
        sized = omega (arith, length-set q.queue (q.rear % queue_size) key, v.sized);
        ordered = omega arith;
        bounded = omega (arith, below room);
        small = small;
      },
    ),
  )
]
  where
    unwrapped : (q.front + queue_size) % 2 ^ 64 ≡ q.front + queue_size
    unwrapped = omega arith

    next : (q.rear + 1) % 2 ^ 64 ≡ q.rear + 1
    next = omega arith

    at_end : leb (q.front + queue_size) q.rear ≡ true → q.front + queue_size ≤ q.rear
    at_end h = ground arith

    below : leb (q.front + queue_size) q.rear ≡ false → q.rear < q.front + queue_size
    below h = ground arith

    new_contents :
        q.rear < q.front + queue_size
        → keys_from (set q.queue (q.rear % queue_size) key) q.front (q.rear + 1 - q.front)
          ≡ keys_from q.queue q.front (q.rear - q.front) ++ (key ∷ [])
    new_contents lt =
        let e : q.rear + 1 - q.front ≡ q.rear - q.front + 1 = omega arith in
        let f : q.front + (q.rear - q.front) ≡ q.rear = omega arith in
        rw e
          (rw f at (keys_from-enqueue q.queue q.front (q.rear - q.front) key v.sized (omega arith)))

-- A round of `dequeue` fails exactly when no key waits; else it takes the oldest one.
pub try_dequeue_lem :
    (q : Queue)
    → IsValid q
    → ((contents q ≡ []) × (try_dequeue q ≡ none))
      ⊎ ((key : ℕ) × (q' : Queue) × (try_dequeue q ≡ some (key, q'))
          × (contents q ≡ key ∷ contents q')
          × (q'.rear ≡ q.rear)
          × IsValid q')
unfolding try_dequeue contents
try_dequeue_lem q v = elim (Bool-cases (q.rear == q.front)) [
  | inl empty ↦ inl (rw (none_left empty, keys_from), rw empty)
  | inr more ↦ inr (
    get_or q.queue (q.front % queue_size) 0,
    record { queue = q.queue; front = q.front + 1; rear = q.rear },
    rw (more, next),
    rw (one_more (waiting more), keys_from),
    refl,
    record { sized = v.sized; ordered = waiting more; bounded = omega arith; small = v.small },
  )
]
  where
    none_left : (q.rear == q.front) ≡ true → q.rear - q.front ≡ 0
    none_left h = ground arith

    waiting : (q.rear == q.front) ≡ false → q.front + 1 ≤ q.rear
    waiting h = ground (arith, v.ordered)

    next : (q.front + 1) % 2 ^ 64 ≡ q.front + 1
    next = omega arith

    one_more : q.front + 1 ≤ q.rear → q.rear - q.front ≡ suc (q.rear - (q.front + 1))
    one_more h = omega arith

-- Rounds of all producers and consumers, in the order in which they got the mutex.
pub data Round : Type 0 where
  enqueue : (key : ℕ) → Round
  dequeue : Round

-- The queue, with the keys that have been put in and taken out so far, in order.
pub record Trace : Type 0 where
  pub state : Queue
  pub put : List ℕ
  pub taken : List ℕ

abbrev after_enqueue : ℕ → Trace → Option Queue → Trace
after_enqueue key t none = t
after_enqueue key t (some q) = record t { state = q; put = t.put ++ (key ∷ []) }

abbrev after_dequeue : Trace → Option (ℕ × Queue) → Trace
after_dequeue t none = t
after_dequeue t (some (key, q)) = record t { state = q; taken = t.taken ++ (key ∷ []) }

unfoldable pub round : Trace → Round → Trace
unfolding try_enqueue try_dequeue
round t (enqueue key) = after_enqueue key t (try_enqueue key t.state)
round t dequeue = after_dequeue t (try_dequeue t.state)

unfoldable pub rounds : Trace → List Round → Trace
unfolding round
rounds t [] = t
rounds t (r ∷ rs) = rounds (round t r) rs

abbrev pub new_trace : Trace
new_trace = record { state = init_queue; put = []; taken = [] }

record InOrder (t : Trace) : Type 0 where
  valid : IsValid t.state
  order : t.put ≡ t.taken ++ contents t.state

round-InOrder :
    (t : Trace) (r : Round)
    → InOrder t
    → t.state.rear + 1 + queue_size < 2 ^ 64
    → InOrder (round t r) × ((round t r).state.rear ≤ t.state.rear + 1)
unfolding round
round-InOrder t (enqueue key) o small = elim (try_enqueue_lem key t.state o.valid) [
  | inl (full, none_now) ↦ rw none_now (o, omega arith)
  | inr (room, (q', ok_, new, rear, valid)) ↦ rw ok_ (
    record {
      valid = valid (omega arith);
      order = rw (new, o.order) (append_assoc t.taken (contents t.state) (key ∷ []));
    },
    omega arith,
  )
]
round-InOrder t dequeue o small = elim (try_dequeue_lem t.state o.valid) [
  | inl (empty, none_now) ↦ rw none_now (o, omega arith)
  | inr (key, q', ok_, old, rear, valid) ↦ rw ok_ (
    record {
      valid = valid;
      order = rw (o.order, old) (sym (append_assoc t.taken (key ∷ []) (contents q')));
    },
    omega arith,
  )
]

rounds-InOrder :
    (rs : List Round) (t : Trace)
    → InOrder t
    → t.state.rear + length rs + queue_size < 2 ^ 64
    → InOrder (rounds t rs)
unfolding rounds
rounds-InOrder [] t o small = o
rounds-InOrder (r ∷ rs) t o small =
    let (o', rear) = round-InOrder t r o (omega arith) in
    rounds-InOrder rs (round t r) o' (omega arith)

new_trace-InOrder : InOrder new_trace
unfolding contents init_queue keys_from
new_trace-InOrder = record { valid = init_queue-IsValid; order = refl }

-- However the rounds of the threads interleave, as long as they are fewer than 2^64 - 1024, the keys
-- put in are the keys taken out, in the same order, followed by the at most 1024 that still wait.
pub rounds-fifo :
    (rs : List Round)
    → length rs + queue_size < 2 ^ 64
    → ((rounds new_trace rs).put
        ≡ (rounds new_trace rs).taken ++ contents (rounds new_trace rs).state)
      × (length (contents (rounds new_trace rs).state) ≤ queue_size)
unfolding init_queue
rounds-fifo rs small =
    let o = rounds-InOrder rs new_trace new_trace-InOrder (omega arith) in
    (o.order, omega (arith, length-contents (rounds new_trace rs).state, o.valid.bounded))
