-- ===== src/Lab11/Optimistic.antt =====
-- lab11/optimistic.cpp: the list that is searched without a lock, and checked once the two nodes of
-- the place are locked. A step is one access of shared memory, which is sequentially consistent; keys
-- do not change once a node is linked, so a comparison of a key takes no step of its own.
use ite.Base.{
  ℕ, ◌+◌, Bool, true, false, not, ◌||◌, ◌≡◌, ◌≢◌, Option, none, some, ◌==◌, if◌then◌else◌, leb, ltb,
  change, List, [], ◌∷◌,
}
use ite.Lab11.Nodes.{null, head, tail}
use ite.Lab11.CoarseList.{int_min, int_max, Work, WorkType, add, remove, contains, other}
use ite.Lab11.History.{Event, Answered, InKeys, record_event, next_call}
pub mod Shared
pub mod Places
pub mod Steps
pub mod Ends
pub mod Search
pub mod Writes
pub mod Runs
pub mod Results
mod Tests

pub record Node : Type 0 where
  pub key : ℕ
  pub next : ℕ

-- `mutex` has the thread that holds the mutex of a node. `linked` is not in the program: it holds of
-- a node from the write that links it on.
pub record Memory : Type 0 where
  pub nodes : ℕ → Node
  pub mutex : ℕ → Option ℕ
  pub allocated : ℕ → Bool
  pub linked : ℕ → Bool

abbrev pub is_sentinel : ℕ → Bool
is_sentinel a = (a == head) || (a == tail)

unfoldable pub list_init : Memory
list_init = record {
  nodes = λ a.
      if a == head
      then record { key = int_min; next = tail }
      else record { key = int_max; next = null };
  mutex = λ a. none;
  allocated = is_sentinel;
  linked = is_sentinel;
}

abbrev pub set_next : ℕ → ℕ → Memory → Memory
set_next a next m = record m { nodes = change m.nodes a (record (m.nodes a) { next = next }) }

-- The new node of `list_add`, with its key and its mutex.
abbrev pub malloc : ℕ → ℕ → Memory → Memory
malloc node key m = record m {
  nodes = change m.nodes node (record (m.nodes node) { key = key });
  mutex = change m.mutex node none;
  allocated = change m.allocated node true;
}

abbrev pub link : ℕ → ℕ → Memory → Memory
link prev node m = record (set_next prev node m) { linked = change m.linked node true }

abbrev pub set_mutex : ℕ → Option ℕ → Memory → Memory
set_mutex a holder m = record m { mutex = change m.mutex a holder }

-- The call that a thread has made, and the node that `list_add` has allocated.
pub data Call : Type 0 where
  adding : (node : ℕ) → Call
  removing : Call
  asking : Call

-- What a thread does once it has unlocked the two nodes.
pub data After : Type 0 where
  retry : (call : Call) (key : ℕ) → After
  answer : (type : WorkType) (key : ℕ) (result : Bool) → After

-- Where a thread stands, with its locals; `returned` keeps the last call and its answer.
pub data Pc : Type 0 where
  idle : Pc
  searching : (call : Call) (key : ℕ) → Pc
  walking : (call : Call) (key prev curr : ℕ) → Pc
  locking_prev : (call : Call) (key prev curr : ℕ) → Pc
  locking_curr : (call : Call) (key prev curr : ℕ) → Pc
  validating : (call : Call) (key prev curr it : ℕ) → Pc
  validated : (call : Call) (key prev curr : ℕ) → Pc
  add_write : (key node prev curr : ℕ) → Pc
  remove_write : (key prev curr succ : ℕ) → Pc
  unlocking_prev : (after : After) (prev curr : ℕ) → Pc
  unlocking_curr : (after : After) (curr : ℕ) → Pc
  returned : (type : WorkType) (key : ℕ) (result : Bool) → Pc

abbrev pub Next : Type 0
Next = Memory × Pc

-- The round of `ThreadFunc` up to the first access of shared memory; `node` is what malloc gives.
unfoldable pub begin : Work → ℕ → Memory → Next
begin w node m = elim w.type [
  | add ↦ (malloc node w.value m, searching (adding node) w.value)
  | remove ↦ (m, searching removing w.value)
  | contains ↦ (m, searching asking w.value)
  | other ↦ (m, idle)
]

-- What follows a pointer to no block is none.
abbrev pub when_loaded : Memory → ℕ → Next → Option Next
when_loaded m a next = if m.allocated a then some next else none

-- A thread waits until the mutex is free, and then has it.
unfoldable pub lock : ℕ → ℕ → Pc → Pc → Memory → Next
lock t a waiting locked m = elim (m.mutex a) [
  | none ↦ (set_mutex a (some t) m, locked)
  | some holder ↦ (m, waiting)
]

-- One round of the loop of `list_validate`, or its return.
unfoldable pub list_validate : Call → (key prev curr it : ℕ) → Memory → Pc
list_validate call key prev curr it m =
    if leb (m.nodes it).key (m.nodes prev).key
    then if it == prev
      then if (m.nodes it).next == curr
        then validated call key prev curr
        else unlocking_prev (retry call key) prev curr
      else validating call key prev curr (m.nodes it).next
    else unlocking_prev (retry call key) prev curr

-- What follows a validation that succeeds, up to the next write that others can see.
unfoldable pub decide : Call → (key prev curr : ℕ) → Memory → Next
decide (adding node) key prev curr m =
    if (m.nodes curr).key == key
    then (m, unlocking_prev (answer add key false) prev curr)
    else (set_next node curr m, add_write key node prev curr)
decide removing key prev curr m =
    if (m.nodes curr).key == key
    then (m, remove_write key prev curr (m.nodes curr).next)
    else (m, unlocking_prev (answer remove key false) prev curr)
decide asking key prev curr m =
    (m, unlocking_prev (answer contains key ((m.nodes curr).key == key)) prev curr)

abbrev pub go_on : After → Pc
go_on (retry call key) = searching call key
go_on (answer type key result) = returned type key result

-- One step of thread `t`; one that rests does the work `w` next.
unfoldable pub thread_step : ℕ → Work → ℕ → Pc → Memory → Option Next
unfolding begin lock list_validate decide
thread_step t w node idle m = some (begin w node m)
thread_step t w node (returned type key result) m = some (begin w node m)
thread_step t w node (searching call key) m =
    when_loaded m head (m, walking call key head (m.nodes head).next)
thread_step t w node (walking call key prev curr) m = when_loaded m curr (
  m,
  (if ltb (m.nodes curr).key key
      then walking call key curr (m.nodes curr).next
      else locking_prev call key prev curr),
)
thread_step t w node (locking_prev call key prev curr) m =
    when_loaded m prev
      (lock t prev (locking_prev call key prev curr) (locking_curr call key prev curr) m)
thread_step t w node (locking_curr call key prev curr) m =
    when_loaded m curr
      (lock t curr (locking_curr call key prev curr) (validating call key prev curr head) m)
thread_step t w node (validating call key prev curr it) m =
    when_loaded m it (m, list_validate call key prev curr it m)
thread_step t w node (validated call key prev curr) m =
    when_loaded m curr (decide call key prev curr m)
thread_step t w node (add_write key new prev curr) m =
    when_loaded m prev (link prev new m, unlocking_prev (answer add key true) prev curr)
thread_step t w node (remove_write key prev curr succ) m =
    when_loaded m prev (set_next prev succ m, unlocking_prev (answer remove key true) prev curr)
thread_step t w node (unlocking_prev after prev curr) m =
    when_loaded m prev (set_mutex prev none m, unlocking_curr after curr)
thread_step t w node (unlocking_curr after curr) m =
    when_loaded m curr (set_mutex curr none m, go_on after)

-- The steps at which a call acts on the set, with the answer. This is not in the program.
unfoldable pub acts : Pc → Memory → Answered
acts (validated (adding node) key prev curr) m =
    if (m.nodes curr).key == key then some (add, key, false) else none
acts (validated removing key prev curr) m =
    if (m.nodes curr).key == key then none else some (remove, key, false)
acts (validated asking key prev curr) m = some (contains, key, (m.nodes curr).key == key)
acts (add_write key node prev curr) m = some (add, key, true)
acts (remove_write key prev curr succ) m = some (remove, key, true)
acts p m = none

abbrev pub is_resting : Pc → Bool
is_resting idle = true
is_resting (returned type key result) = true
is_resting p = false

-- `calls` and `history` are not in the program.
pub record System : Type 0 where
  pub memory : Memory
  pub threads : ℕ → Pc
  pub calls : ℕ → ℕ
  pub history : List Event

unfoldable pub new_system : System
new_system = record { memory = list_init; threads = λ _. idle; calls = λ _. 0; history = [] }

abbrev pub arrive : ℕ → System → Next → System
arrive t s (m, p) = record {
  memory = m;
  threads = change s.threads t p;
  calls = change s.calls t (next_call (is_resting (s.threads t)) (s.calls t));
  history = record_event t (s.calls t) (acts (s.threads t) s.memory) s.history;
}

-- None when the thread follows a pointer to no block.
unfoldable pub step : ℕ → Work → ℕ → System → Option System
unfolding thread_step acts
step t w node s = elim (thread_step t w node (s.threads t) s.memory) [
  | none ↦ none
  | some next ↦ some (arrive t s next)
]

-- What malloc promises of the address that it gives.
abbrev pub IsFresh : Memory → ℕ → Type 0
IsFresh m node = (m.allocated node ≡ false) × (node ≢ null)

pub data Reach : System → Type 0 where
  start : Reach new_system
  later :
      {s s' : System} (t : ℕ) (w : Work) (node : ℕ)
      → Reach s
      → InKeys w.value
      → IsFresh s.memory node
      → step t w node s ≡ some s'
      → Reach s'
