-- ===== src/Project2/LockTable/Defs.antt =====
-- LockTable: state and operations. `rwlock` is cut at its waiting loop: `request` is all that
-- stands before the loop, `poll` one evaluation of the loop's condition.
use ite.Base.{
  ℕ, zero, suc, ◌+◌, ◌-◌, Bool, true, false, ◌||◌, none, some, List, [], ◌∷◌, ◌++◌, ◌==◌,
  if◌then◌else◌, get_or, set, replicate,
}
use ite.Project2.RwLock.{
  LockElement, LockToken, RwLock, rw_lock, add_rd_lock, add_wr_lock, unlock, can_enter, is_first,
  before, blocked_in,
}

pub data AcquiringLockResult : Type 0 where
  acquired deadlock_detected : AcquiringLockResult

pub record LockTable : Type 0 where
  pub num_workers : ℕ
  pub num_records : ℕ
  pub locks : List RwLock
  pub adj : List (List LockToken)

-- `assert(false)` in `hasCycle`, an iterator with no node, and the end of the fuel.
pub data Fault : Type 0 where
  assert_failed dangling out_of_fuel : Fault

pub data Result {ℓ} (A : Type ℓ) : Type ℓ where
  ok : A → Result A
  fault : Fault → Result A

-- The constructor: record locks 1, 2, … in order, and no token for any worker.
unfoldable pub push_locks : ℕ → ℕ → List RwLock
push_locks i zero = []
push_locks i (suc n) = rw_lock (i + 1) ∷ push_locks (i + 1) n

unfoldable pub create : ℕ → ℕ → LockTable
unfolding push_locks
create num_workers num_records = record {
  num_workers = num_workers;
  num_records = num_records;
  locks = push_locks 0 num_records;
  adj = replicate num_workers [];
}

-- `locks[index - 1]` and `adj[tid - 1]`
abbrev pub lock_at : LockTable → ℕ → RwLock
lock_at t index = get_or t.locks (index - 1) (rw_lock index)

abbrev pub tokens_of : LockTable → ℕ → List LockToken
tokens_of t tid = get_or t.adj (tid - 1) []

abbrev pub set_lock : LockTable → ℕ → RwLock → LockTable
set_lock t index l = record t { locks = set t.locks (index - 1) l }

abbrev pub set_tokens : LockTable → ℕ → List LockToken → LockTable
set_tokens t tid ts = record t { adj = set t.adj (tid - 1) ts }

abbrev pub mem : ℕ → List ℕ → Bool
mem a [] = false
mem a (x ∷ xs) = a == x || mem a xs

abbrev pub queue_of : LockTable → LockToken → List LockElement
queue_of t token = (lock_at t token.index).thread_queue

abbrev pub is_waiting : LockTable → LockToken → Bool
is_waiting t token = blocked_in token.lock (queue_of t token)

-- What a call of `detectCycle` does with the result of one that it makes.
abbrev pub or_else :
    Result (Bool × List ℕ) → (List ℕ → Result (Bool × List ℕ)) → Result (Bool × List ℕ)
or_else (ok (true, visit)) k = ok (true, visit)
or_else (ok (false, visit)) k = k visit
or_else (fault e) k = fault e

abbrev pub Visitor : Type 0
Visitor = ℕ → Bool → List ℕ → Result (Bool × List ℕ)

-- The loop of `detectCycle` over the tokens of one thread; `rec` is the call of itself.
unfoldable pub detect_tokens :
    LockTable → Visitor → Bool → List LockToken → List ℕ → Result (Bool × List ℕ)
detect_tokens t rec blocked [] visit = ok (false, visit)
detect_tokens t rec blocked (token ∷ tokens) visit =
    let rest = detect_tokens t rec blocked tokens in
    if is_first token (lock_at t token.index)
    then rest visit
    else elim (before token.lock (queue_of t token)) [
      | none ↦ fault dangling
      | some it ↦
          if mem it.tid visit
          then rest visit
          else or_else (rec it.tid (blocked || is_waiting t token) visit) rest
    ]

unfoldable pub detect_cycle : LockTable → ℕ → ℕ → Visitor
unfolding detect_tokens
detect_cycle t self zero next_tid blocked visit = fault out_of_fuel
detect_cycle t self (suc fuel) next_tid blocked visit =
    if next_tid == self
    then ok (blocked, visit)
    else detect_tokens t (detect_cycle t self fuel) blocked (tokens_of t next_tid)
        (next_tid ∷ visit)

-- Each level of the recursion but the last marks a worker that was not marked.
abbrev pub enough_fuel : LockTable → ℕ
enough_fuel t = t.num_workers + 1

abbrev pub answer : Result (Bool × List ℕ) → Result Bool
answer (ok (b, visit)) = ok b
answer (fault e) = fault e

unfoldable pub search_cycle : LockTable → LockToken → Result Bool
unfolding detect_cycle
search_cycle t token = elim (before token.lock (queue_of t token)) [
  | none ↦ fault dangling
  | some it ↦
      if it.tid == token.tid
      then fault assert_failed
      else answer (detect_cycle t token.tid (enough_fuel t) it.tid false [])
]

-- `hasCycle` asks `canEnter` first, which grants the lock where it answers true.
unfoldable pub has_cycle : LockToken → LockTable → Result Bool × LockTable
unfolding can_enter search_cycle
has_cycle token t =
    let r = can_enter token (lock_at t token.index) in
    let t' = set_lock t token.index r.1 in (if r.0 then ok false else search_cycle t' token, t')

-- The start of `rwlock`: queue a request, keep its token, look for a cycle.
unfoldable pub request : ℕ → ℕ → Bool → LockTable → LockToken × Result Bool × LockTable
unfolding add_rd_lock add_wr_lock has_cycle
request tid index is_reader t =
    let r =
      if is_reader then add_rd_lock tid (lock_at t index) else add_wr_lock tid (lock_at t index) in
    let t1 = set_lock t index r.1 in
    let t2 = set_tokens t1 tid (tokens_of t1 tid ++ (r.0 ∷ [])) in
    let c = has_cycle r.0 t2 in (r.0, c.0, c.1)

-- `locks[index - 1].canEnter(token)`, the condition of the waiting loop.
unfoldable pub poll : LockToken → LockTable → Bool × LockTable
unfolding can_enter
poll token t = let r = can_enter token (lock_at t token.index) in (r.0, set_lock t token.index r.1)

unfoldable pub unlock_tokens : List LockToken → LockTable → LockTable
unfolding unlock
unlock_tokens [] t = t
unlock_tokens (token ∷ tokens) t =
    unlock_tokens tokens (set_lock t token.index (unlock token (lock_at t token.index)))

unfoldable pub unlock_all : ℕ → LockTable → LockTable
unfolding unlock_tokens
unlock_all tid t = set_tokens (unlock_tokens (tokens_of t tid) t) tid []
