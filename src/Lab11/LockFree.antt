-- ===== src/Lab11/LockFree.antt =====
-- lab11/lockfree.cpp: the list without a lock, whose pointers bear a mark. A step is one access of
-- shared memory, which is sequentially consistent; keys do not change once a node is linked, so a
-- comparison of a key takes no step of its own.
use ite.Base.{
  ℕ, Bool, true, false, not, ◌||◌, ◌&&◌, ◌≡◌, ◌≢◌, ◌<◌, Option, none, some, ◌==◌, if◌then◌else◌,
  leb, ltb, change,
}
use ite.Lab11.Nodes.{null, head, tail}
use ite.Lab11.CoarseList.{int_min, int_max, Work, WorkType, add, remove, contains, other}
pub mod Order
pub mod Actions
pub mod Runs
pub mod Writes
pub mod Linking
pub mod Local
pub mod Steps
pub mod Finding
pub mod Progress
pub mod Hindsight
pub mod Answers
pub mod Calls
pub mod Results
mod Tests

-- A pointer, and the bit that ISMARKED tests.
pub record Pointer : Type 0 where
  pub addr : ℕ
  pub marked : Bool

pub record Node : Type 0 where
  pub key : ℕ
  pub next : Pointer

-- `linked` is not in the program: it holds of a node from the CAS that links it on.
pub record Memory : Type 0 where
  pub nodes : ℕ → Node
  pub allocated : ℕ → Bool
  pub linked : ℕ → Bool

abbrev pub unmarked : ℕ → Pointer
unmarked a = record { addr = a; marked = false }

abbrev pub is_sentinel : ℕ → Bool
is_sentinel a = (a == head) || (a == tail)

unfoldable pub list_init : Memory
list_init = record {
  nodes = λ a.
      if a == head
      then record { key = int_min; next = unmarked tail }
      else record { key = int_max; next = unmarked null };
  allocated = is_sentinel;
  linked = is_sentinel;
}

abbrev pub set_next : ℕ → Pointer → Memory → Memory
set_next a p m = record m { nodes = change m.nodes a (record (m.nodes a) { next = p }) }

abbrev pub malloc : ℕ → ℕ → Memory → Memory
malloc node key m = record m {
  nodes = change m.nodes node (record (m.nodes node) { key = key });
  allocated = change m.allocated node true;
}

abbrev pub free : ℕ → Memory → Memory
free node m = record m { allocated = change m.allocated node false }

abbrev pub link : ℕ → ℕ → Memory → Memory
link prev node m = record (set_next prev (unmarked node) m) { linked = change m.linked node true }

-- The test of CAS: the field has the unmarked pointer to `a`.
abbrev pub points_to : Pointer → ℕ → Bool
points_to p a = (p.addr == a) && not p.marked

-- For whom `list_find` searches.
pub data Call : Type 0 where
  adding : (node : ℕ) → Call
  removing : Call

-- Where a thread stands, with its locals; `returned` keeps the last call and its answer.
pub data Pc : Type 0 where
  idle : Pc
  find_start : (call : Call) (key : ℕ) → Pc
  find_succ : (call : Call) (key prev curr : ℕ) → Pc
  find_unlink : (call : Call) (key prev curr succ : ℕ) → Pc
  add_cas : (key node prev curr : ℕ) → Pc
  remove_read : (key curr : ℕ) → Pc
  remove_cas : (key curr succ : ℕ) → Pc
  contains_at : (key curr : ℕ) → Pc
  returned : (type : WorkType) (key : ℕ) (result : Bool) → Pc

abbrev pub Next : Type 0
Next = Memory × Pc

-- The round of `ThreadFunc` up to the first access of shared memory; `node` is what malloc gives.
unfoldable pub begin : Work → ℕ → Memory → Next
begin w node m = elim w.type [
  | add ↦ (malloc node w.value m, find_start (adding node) w.value)
  | remove ↦ (m, find_start removing w.value)
  | contains ↦ (m, contains_at w.value head)
  | other ↦ (m, idle)
]

-- What follows `list_find`, up to the next access of shared memory.
unfoldable pub found : Call → (key prev curr : ℕ) → Memory → Next
found (adding node) key prev curr m =
    if (m.nodes curr).key == key
    then (free node m, returned add key false)
    else (set_next node (unmarked curr) m, add_cas key node prev curr)
found removing key prev curr m =
    if (m.nodes curr).key == key then (m, remove_read key curr) else (m, returned remove key false)

-- A pointer with the mark cannot be followed, either.
unfoldable pub first_of : Call → ℕ → Memory → Pointer → Option Next
first_of call key m p = if p.marked then none else some (m, find_succ call key head p.addr)

unfoldable pub find_round : Call → (key prev curr : ℕ) → Memory → Next
find_round call key prev curr m =
    let node = m.nodes curr in
    if node.next.marked
    then (m, find_unlink call key prev curr node.next.addr)
    else if leb key node.key
    then found call key prev curr m
    else (m, find_succ call key curr node.next.addr)

-- What follows a pointer to no block is none.
abbrev pub when_loaded : Memory → ℕ → Option Next → Option Next
when_loaded m a next = if m.allocated a then next else none

-- One step of a thread; one that rests does the work `w` next.
unfoldable pub thread_step : Work → ℕ → Pc → Memory → Option Next
unfolding begin first_of find_round found
thread_step w node idle m = some (begin w node m)
thread_step w node (returned type key result) m = some (begin w node m)
thread_step w node (find_start call key) m =
    when_loaded m head (first_of call key m (m.nodes head).next)
thread_step w node (find_succ call key prev curr) m =
    when_loaded m curr (some (find_round call key prev curr m))
thread_step w node (find_unlink call key prev curr succ) m = when_loaded m prev (
    some (
      if points_to (m.nodes prev).next curr
      then (set_next prev (unmarked succ) m, find_succ call key prev succ)
      else (m, find_start call key)))
thread_step w node (add_cas key new prev curr) m = when_loaded m prev (
    some (
      if points_to (m.nodes prev).next curr
      then (link prev new m, returned add key true)
      else (m, find_start (adding new) key)))
thread_step w node (remove_read key curr) m =
    when_loaded m curr (some (m, remove_cas key curr (m.nodes curr).next.addr))
thread_step w node (remove_cas key curr succ) m = when_loaded m curr (
    some (
      (if points_to (m.nodes curr).next succ
          then set_next curr (record { addr = succ; marked = true }) m
          else m),
      find_start removing key,
    ))
thread_step w node (contains_at key curr) m = when_loaded m curr (
    some (
      m,
      (if ltb (m.nodes curr).key key
          then contains_at key (m.nodes curr).next.addr
          else returned contains key
              (((m.nodes curr).key == key) && not (m.nodes curr).next.marked)),
    ))

pub record System : Type 0 where
  pub memory : Memory
  pub threads : ℕ → Pc

unfoldable pub new_system : System
new_system = record { memory = list_init; threads = λ _. idle }

abbrev pub arrive : ℕ → System → Next → System
arrive t s (m, p) = record { memory = m; threads = change s.threads t p }

-- None when the thread follows a pointer that it must not follow.
unfoldable pub step : ℕ → Work → ℕ → System → Option System
unfolding thread_step
step t w node s = elim (thread_step w node (s.threads t) s.memory) [
  | none ↦ none
  | some next ↦ some (arrive t s next)
]

-- What malloc promises of the address that it gives.
abbrev pub IsFresh : Memory → ℕ → Type 0
IsFresh m node = (m.allocated node ≡ false) × (node ≢ null)

-- The keys of the program are between those of the sentinels.
abbrev pub InKeys : ℕ → Type 0
InKeys k = (int_min < k) × (k < int_max)

pub data Reach : System → Type 0 where
  start : Reach new_system
  later :
      {s s' : System} (t : ℕ) (w : Work) (node : ℕ)
      → Reach s
      → InKeys w.value
      → IsFresh s.memory node
      → step t w node s ≡ some s'
      → Reach s'
