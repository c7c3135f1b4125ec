-- ===== src/Lab11/FineGrained.antt =====
-- lab11/fine_grained.cpp: the list with a mutex in each node, on which a thread goes hand over hand. A
-- step is one access of shared memory, which is sequentially consistent; keys do not change while a
-- node is in use, so a comparison of a key takes no step of its own.
use ite.Base.{
  ℕ, Bool, true, false, not, ◌||◌, ◌≡◌, ◌≢◌, Option, none, some, ◌==◌, if◌then◌else◌, ltb, change,
  List, [], ◌∷◌,
}
use ite.Lab11.Nodes.{null, head, tail}
use ite.Lab11.CoarseList.{int_min, int_max, Work, WorkType, add, remove, contains, other}
use ite.Lab11.History.{Event, Answered, InKeys, record_event, next_call}
pub mod Shared
pub mod Places
pub mod Steps
pub mod Passing
pub mod Deciding
pub mod Updates
pub mod Writes
pub mod Ends
pub mod Runs
pub mod Results
pub mod Deadlock
mod Tests

pub record Node : Type 0 where
  pub key : ℕ
  pub next : ℕ

-- `mutex` has the thread that holds the mutex of a node. `linked` and `chain` are not in the program: a
-- node is `linked` as long as it is in the list, and `chain` leads from each such node to the next
-- also between the two writes of `list_add`.
pub record Memory : Type 0 where
  pub nodes : ℕ → Node
  pub mutex : ℕ → Option ℕ
  pub allocated : ℕ → Bool
  pub linked : ℕ → Bool
  pub chain : ℕ → ℕ

abbrev pub is_sentinel : ℕ → Bool
is_sentinel a = (a == head) || (a == tail)

unfoldable pub list_init : Memory
list_init = record {
  nodes = λ a.
      if a == head
      then record { key = int_min; next = tail }
      else record { key = int_max; next = null };
  mutex = λ a. none;
  allocated = is_sentinel;
  linked = is_sentinel;
  chain = λ a. if a == head then tail else null;
}

abbrev pub set_next : ℕ → ℕ → Memory → Memory
set_next a next m = record m { nodes = change m.nodes a (record (m.nodes a) { next = next }) }

-- The new node of `list_add`, with its key and its mutex.
abbrev pub malloc : ℕ → ℕ → Memory → Memory
malloc node key m = record m {
  nodes = change m.nodes node (record (m.nodes node) { key = key });
  mutex = change m.mutex node none;
  allocated = change m.allocated node true;
}

abbrev pub free : ℕ → Memory → Memory
free node m = record m { allocated = change m.allocated node false }

-- The second write of `list_add`, with which the node is in the list.
abbrev pub link : (prev node curr : ℕ) → Memory → Memory
link prev node curr m = record (set_next node curr m) {
  linked = change m.linked node true;
  chain = change (change m.chain node curr) prev node;
}

-- The write of `list_remove`, with which the node is out of the list.
abbrev pub unlink : (prev curr succ : ℕ) → Memory → Memory
unlink prev curr succ m = record (set_next prev succ m) {
  linked = change m.linked curr false;
  chain = change m.chain prev succ;
}

abbrev pub set_mutex : ℕ → Option ℕ → Memory → Memory
set_mutex a holder m = record m { mutex = change m.mutex a holder }

-- The call that a thread has made, and the node that `list_add` has allocated.
pub data Call : Type 0 where
  adding : (node : ℕ) → Call
  removing : Call
  asking : Call

-- What a thread does once it has unlocked the two nodes: it returns, or frees the second first.
pub data After : Type 0 where
  answer : (type : WorkType) (key : ℕ) (result : Bool) → After
  removed : (key : ℕ) → After

-- Where a thread stands, with its locals; `returned` keeps the last call and its answer.
pub data Pc : Type 0 where
  idle : Pc
  locking_head : (call : Call) (key : ℕ) → Pc
  reading : (call : Call) (key prev : ℕ) → Pc
  locking_curr : (call : Call) (key prev curr : ℕ) → Pc
  holding : (call : Call) (key prev curr : ℕ) → Pc
  unlocking_passed : (call : Call) (key prev curr : ℕ) → Pc
  add_first : (key node prev curr : ℕ) → Pc
  add_second : (key node prev curr : ℕ) → Pc
  remove_write : (key prev curr succ : ℕ) → Pc
  unlocking_prev : (after : After) (prev curr : ℕ) → Pc
  unlocking_curr : (after : After) (curr : ℕ) → Pc
  freeing : (key curr : ℕ) → Pc
  returned : (type : WorkType) (key : ℕ) (result : Bool) → Pc

abbrev pub Next : Type 0
Next = Memory × Pc

-- The round of `ThreadFunc` up to the first access of shared memory; `node` is what malloc gives.
unfoldable pub begin : Work → ℕ → Memory → Next
begin w node m = elim w.type [
  | add ↦ (malloc node w.value m, locking_head (adding node) w.value)
  | remove ↦ (m, locking_head removing w.value)
  | contains ↦ (m, locking_head asking w.value)
  | other ↦ (m, idle)
]

-- What follows a pointer to no block is none.
abbrev pub when_loaded : Memory → ℕ → Next → Option Next
when_loaded m a next = if m.allocated a then some next else none

-- A thread waits until the mutex is free, and then has it.
unfoldable pub lock : ℕ → ℕ → Pc → Pc → Memory → Next
lock t a waiting locked m = elim (m.mutex a) [
  | none ↦ (set_mutex a (some t) m, locked)
  | some holder ↦ (m, waiting)
]

-- What follows the loop, up to the next write.
unfoldable pub decide : Call → (key prev curr : ℕ) → Memory → Pc
decide (adding node) key prev curr m =
    if (m.nodes curr).key == key
    then unlocking_prev (answer add key false) prev curr
    else add_first key node prev curr
decide removing key prev curr m =
    if (m.nodes curr).key == key
    then remove_write key prev curr (m.nodes curr).next
    else unlocking_prev (answer remove key false) prev curr
decide asking key prev curr m =
    unlocking_prev (answer contains key ((m.nodes curr).key == key)) prev curr

-- The test of the loop: a thread passes a smaller key, and gives back the node before it.
unfoldable pub pass : Call → (key prev curr : ℕ) → Memory → Pc
pass call key prev curr m =
    if ltb (m.nodes curr).key key
    then unlocking_passed call key prev curr
    else decide call key prev curr m

abbrev pub go_on : After → ℕ → Pc
go_on (answer type key result) curr = returned type key result
go_on (removed key) curr = freeing key curr

-- One step of thread `t`; one that rests does the work `w` next.
unfoldable pub thread_step : ℕ → Work → ℕ → Pc → Memory → Option Next
unfolding begin lock pass decide
thread_step t w node idle m = some (begin w node m)
thread_step t w node (returned type key result) m = some (begin w node m)
thread_step t w node (locking_head call key) m =
    when_loaded m head (lock t head (locking_head call key) (reading call key head) m)
thread_step t w node (reading call key prev) m =
    when_loaded m prev (m, locking_curr call key prev (m.nodes prev).next)
thread_step t w node (locking_curr call key prev curr) m =
    when_loaded m curr
      (lock t curr (locking_curr call key prev curr) (holding call key prev curr) m)
thread_step t w node (holding call key prev curr) m =
    when_loaded m curr (m, pass call key prev curr m)
thread_step t w node (unlocking_passed call key prev curr) m =
    when_loaded m prev (set_mutex prev none m, reading call key curr)
thread_step t w node (add_first key new prev curr) m =
    when_loaded m prev (set_next prev new m, add_second key new prev curr)
thread_step t w node (add_second key new prev curr) m =
    when_loaded m new (link prev new curr m, unlocking_prev (answer add key true) prev curr)
thread_step t w node (remove_write key prev curr succ) m =
    when_loaded m prev (unlink prev curr succ m, unlocking_prev (removed key) prev curr)
thread_step t w node (unlocking_prev after prev curr) m =
    when_loaded m prev (set_mutex prev none m, unlocking_curr after curr)
thread_step t w node (unlocking_curr after curr) m =
    when_loaded m curr (set_mutex curr none m, go_on after curr)
thread_step t w node (freeing key curr) m =
    when_loaded m curr (free curr m, returned remove key true)

abbrev pub acts_of : Call → ℕ → Bool → Answered
acts_of (adding node) key there = if there then some (add, key, false) else none
acts_of removing key there = if there then none else some (remove, key, false)
acts_of asking key there = some (contains, key, there)

-- The steps at which a call acts on the set, with the answer. This is not in the program.
unfoldable pub acts : Pc → Memory → Answered
acts (holding call key prev curr) m =
    if ltb (m.nodes curr).key key then none else acts_of call key ((m.nodes curr).key == key)
acts (add_second key node prev curr) m = some (add, key, true)
acts (remove_write key prev curr succ) m = some (remove, key, true)
acts p m = none

abbrev pub is_resting : Pc → Bool
is_resting idle = true
is_resting (returned type key result) = true
is_resting p = false

-- `calls` and `history` are not in the program.
pub record System : Type 0 where
  pub memory : Memory
  pub threads : ℕ → Pc
  pub calls : ℕ → ℕ
  pub history : List Event

unfoldable pub new_system : System
new_system = record { memory = list_init; threads = λ _. idle; calls = λ _. 0; history = [] }

abbrev pub arrive : ℕ → System → Next → System
arrive t s (m, p) = record {
  memory = m;
  threads = change s.threads t p;
  calls = change s.calls t (next_call (is_resting (s.threads t)) (s.calls t));
  history = record_event t (s.calls t) (acts (s.threads t) s.memory) s.history;
}

-- None when the thread follows a pointer to no block.
unfoldable pub step : ℕ → Work → ℕ → System → Option System
unfolding thread_step acts
step t w node s = elim (thread_step t w node (s.threads t) s.memory) [
  | none ↦ none
  | some next ↦ some (arrive t s next)
]

-- What malloc promises of the address that it gives.
abbrev pub IsFresh : Memory → ℕ → Type 0
IsFresh m node = (m.allocated node ≡ false) × (node ≢ null)

pub data Reach : System → Type 0 where
  start : Reach new_system
  later :
      {s s' : System} (t : ℕ) (w : Work) (node : ℕ)
      → Reach s
      → InKeys w.value
      → IsFresh s.memory node
      → step t w node s ≡ some s'
      → Reach s'
