-- ===== src/Project2/System.antt =====
-- The workers of project2 side by side: WorkerThread::workTransaction and doWork of
-- project2/src/worker.cpp over the state of project2/src/globalstate.cpp. One step is what a worker
-- does in one critical section of the mutex of `GlobalState`, or between two of them on records that
-- it has locked. The steps of all workers interleave in any order.
pub mod Change
pub mod Commit
pub mod Frame
pub mod Leave
pub mod Locking
pub mod Serializable
pub mod Work
pub mod Invariant
use ite.Base.{
  ℕ, zero, suc, ◌+◌, ◌≡◌, ◌≤◌, ◌<◌, Bool, true, false, ◌||◌, Option, none, some, List, [], ◌∷◌,
  ◌++◌, ◌==◌, if◌then◌else◌, ltb,
}
use ite.Project2.Database.{Database, Record}
use ite.Project2.Database as Database
use ite.Project2.RwLock.{LockToken}
use ite.Project2.LockTable.{LockTable, Result, ok, fault, request, poll, unlock_all}
use ite.Project2.LockTable as LockTable
use ite.Project2.Worker.{
  RecordWithFlag, Log, read_record, read_and_update, rollback, raise_by, lower_by,
}

-- The record that a worker is about to lock: `i` to read, then `j` and `k` to write.
pub data Phase : Type 0 where
  for_i for_j for_k : Phase

pub data Pc : Type 0 where
  idle : Pc  -- the start of `workTransaction`
  locking : Phase → Pc  -- before `rdLock` or `wrLock`
  waiting : Phase → LockToken → Pc  -- in the waiting loop of `rwlock`
  working : Phase → Pc  -- the lock is acquired
  committing : Pc
  terminated : Pc

pub record Picks : Type 0 where
  pub i : ℕ
  pub j : ℕ
  pub k : ℕ

-- The members of a worker and the locals of `workTransaction`; `clog` is its file.
pub record Thread : Type 0 where
  pub pc : Pc
  pub picks : Picks
  pub vi : ℕ
  pub vj : ℕ
  pub vk : ℕ
  pub records : List RecordWithFlag
  pub clog : List Log

-- `GlobalState` with the database and the workers, which `main` numbers from 1.
pub record System : Type 0 where
  pub db : Database
  pub table : LockTable
  pub threads : ℕ → Thread
  pub current_order : ℕ
  pub last_order : ℕ
  pub deadlock_cnt : ℕ

abbrev pub index_of : Phase → Picks → ℕ
index_of for_i p = p.i
index_of for_j p = p.j
index_of for_k p = p.k

abbrev pub is_reader : Phase → Bool
is_reader for_i = true
is_reader for_j = false
is_reader for_k = false

abbrev pub new_thread : Thread
new_thread = record {
  pc = idle;
  picks = record { i = 0; j = 0; k = 0 };
  vi = 0;
  vj = 0;
  vk = 0;
  records = [];
  clog = [];
}

-- `main` with N workers, R records and E transactions, once the workers are created.
unfoldable pub init : ℕ → ℕ → ℕ → System
init n r e = record {
  db = Database.create r;
  table = LockTable.create n r;
  threads = λ _. new_thread;
  current_order = 0;
  last_order = e;
  deadlock_cnt = 0;
}

abbrev pub update {ℓ} : {A : Type ℓ} → (ℕ → A) → ℕ → A → ℕ → A
update f i a j = if i == j then a else f j

abbrev pub set_thread : System → ℕ → Thread → System
set_thread s tid t = record s { threads = update s.threads tid t }

-- `GlobalState::getNextOrder`, `getLastOrder` and `incDeadlockCnt`, of which the first and the last add
-- one in the state that a step leaves.
abbrev pub next_order : System → ℕ
next_order s = s.current_order + 1

abbrev pub last_order_of : System → ℕ
last_order_of s = s.last_order

abbrev pub next_deadlock_cnt : System → ℕ
next_deadlock_cnt s = s.deadlock_cnt + 1

-- The `do` loop over the random numbers: the first draw of three different records.
unfoldable pub pick_records : List Picks → Option Picks
pick_records [] = none
pick_records (p ∷ draws) =
    if p.i == p.j || (p.j == p.k || p.k == p.i) then pick_records draws else some p

unfoldable pub begin_step : ℕ → List Picks → System → Option System
unfolding pick_records
begin_step tid draws s = elim (pick_records draws) [
  | none ↦ some s
  | some p ↦
      some
        (set_thread s tid (record (s.threads tid) { pc = locking for_i; picks = p; records = [] }))
]

-- A deadlock: roll back, give up all locks, and start again with a new transaction.
unfoldable pub abandon : ℕ → System → Option System
unfolding rollback unlock_all
abandon tid s =
    let t = s.threads tid in
    elim (rollback t.records s.db) [
      | none ↦ none
      | some db' ↦ some (
          set_thread
            (record s {
              db = db';
              table = unlock_all tid s.table;
              deadlock_cnt = next_deadlock_cnt s;
            })
            tid (record t { pc = idle }))
    ]

-- One evaluation of `canEnter` in the waiting loop.
unfoldable pub wait_step : ℕ → Phase → LockToken → System → System
unfolding poll
wait_step tid phase token s =
    let r = poll token s.table in
    let t = s.threads tid in
    set_thread (record s { table = r.1 }) tid
      (record t { pc = if r.0 then working phase else waiting phase token })

abbrev pub after_request : ℕ → Phase → System → LockToken × Result Bool × LockTable → Option System
after_request tid phase s (token, fault e, table) = none
after_request tid phase s (token, ok true, table) = abandon tid (record s { table = table })
after_request tid phase s (token, ok false, table) =
    some (wait_step tid phase token (record s { table = table }))

unfoldable pub lock_step : ℕ → Phase → System → Option System
unfolding request abandon wait_step
lock_step tid phase s =
    after_request tid phase s
      (request tid (index_of phase (s.threads tid).picks) (is_reader phase) s.table)

unfoldable pub work_step : ℕ → Phase → System → Option System
unfolding read_record read_and_update
work_step tid for_i s =
    let t = s.threads tid in
    elim (read_record t.picks.i s.db t.records) [
      | none ↦ none
      | some (ri, records') ↦
          some
            (set_thread s tid (record t { pc = locking for_j; vi = ri.value; records = records' }))
    ]
work_step tid for_j s =
    let t = s.threads tid in
    elim (read_and_update (raise_by t.vi) t.picks.j s.db t.records) [
      | none ↦ none
      | some (vj, db', records') ↦ some (
          set_thread (record s { db = db' }) tid
            (record t { pc = locking for_k; vj = vj; records = records' }))
    ]
work_step tid for_k s =
    let t = s.threads tid in
    elim (read_and_update (lower_by t.vi) t.picks.k s.db t.records) [
      | none ↦ none
      | some (vk, db', records') ↦ some (
          set_thread (record s { db = db' }) tid
            (record t { pc = committing; vk = vk; records = records' }))
    ]

abbrev pub commit_log : ℕ → Thread → Log
commit_log id t = record {
  commit_id = id;
  i = t.picks.i;
  j = t.picks.j;
  k = t.picks.k;
  vi = t.vi;
  vj = t.vj;
  vk = t.vk;
}

-- The commit phase: the next order number; past the last one roll back and stop, else log.
unfoldable pub commit_step : ℕ → System → Option System
unfolding rollback unlock_all
commit_step tid s =
    let t = s.threads tid in
    let id = next_order s in
    let s1 = record s { current_order = id; table = unlock_all tid s.table } in
    if ltb (last_order_of s) id
    then elim (rollback t.records s.db) [
      | none ↦ none
      | some db' ↦ some (set_thread (record s1 { db = db' }) tid (record t { pc = terminated }))
    ]
    else some (set_thread s1 tid (record t { pc = idle; clog = t.clog ++ (commit_log id t ∷ []) }))

abbrev pub dispatch : Pc → ℕ → List Picks → System → Option System
dispatch idle tid draws s = begin_step tid draws s
dispatch (locking phase) tid draws s = lock_step tid phase s
dispatch (waiting phase token) tid draws s = some (wait_step tid phase token s)
dispatch (working phase) tid draws s = work_step tid phase s
dispatch committing tid draws s = commit_step tid s
dispatch terminated tid draws s = some s

-- The next step of worker `tid`; `draws` are the random numbers that it meets. `none` is an
-- exception or a failed assertion.
unfoldable pub step : ℕ → List Picks → System → Option System
unfolding begin_step lock_step wait_step work_step commit_step
step tid draws s = dispatch (s.threads tid).pc tid draws s
