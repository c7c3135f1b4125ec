-- ===== src/Project2/Schedule.antt =====
-- Reachable states of the workers of project2 by evaluation, and the theorems at such states.
use ite.Base.{
  ℕ, zero, suc, ◌≡◌, ◌≢◌, refl, true, false, Option, none, some, List, [], ◌∷◌, arith, inl, inr,
  Has, sym, ◌==◌, if◌then◌else◌,
}
use mathlib.Core.List.{foldl}
use ite.Project2.Database.Access.{IsValid, InRange, create_lem, get-set_record, written, value_at}
use ite.Project2.Database.{Database, Record, get, set_record, push_records}
use ite.Project2.Database as Database
use ite.Project2.RwLock.{LockElement, LockToken, RwLock, before, before_from, is_first, blocked_in}
use mathlib.Core.Path.{subst}
use ite.Project2.RwLock.Exclusion.{Call, rd, poll, calls, granted_readers}
use ite.Project2.LockTable as LockTable
use ite.Project2.LockTable.{
  LockTable, Result, tokens_of, ok, fault, out_of_fuel, search_cycle, queue_of,
}
use ite.Project2.LockTable.Visits.{IsWorker}
use ite.Project2.LockTable.{request, unlock_all}
use ite.Project2.LockTable.Creation.{create-IsSound}
use ite.Project2.LockTable.Operations.{request_lem, unlock_all_lem}
use ite.Project2.LockTable.Invariant.{IsSound}
use ite.Project2.LockTable.Unlocking.{Unlocked}
use ite.Project2.LockTable.Termination.{QueuesWorkers, search_cycle_ends}
use ite.Project2.LockTable.Invariant.{InRecords}
use ite.Project2.LockTable.Waiting.{Chain, search_cycle-Chain}
use ite.Project2.Worker.{update_record}
use ite.Project2.Validator.{succeeded, validate, check_logs, sort_logs, read_files}
use ite.Project2.System.{for_i, for_j, Picks, System, step, init, index_of}
use ite.Project2.System.Invariant.{files, is_active}
use ite.Project2.System.Locking.{DrawsIn}
use ite.Project2.System.Serializable.{
  Reach, start, later, validate-files, serializable, writer_alone, reads_committed,
}

-- A turn of one worker, with what it draws if it begins a transaction.
record Turn (n r : ℕ) : Type 0 where
  tid : ℕ
  picks : Picks
  worker : IsWorker n tid
  in_range : InRecords r picks.i × InRecords r picks.j × InRecords r picks.k

record Run (n r e : ℕ) : Type 0 where
  last : System
  reach : Reach n r e last

draws-DrawsIn : {n r : ℕ} (t : Turn n r) → DrawsIn r (t.picks ∷ [])
draws-DrawsIn t p (inl e) =
    (ground (arith, t.in_range), ground (arith, t.in_range), ground (arith, t.in_range))
draws-DrawsIn t p (inr never) = elim never [ ]

-- A turn that raises an exception is not taken.
advance :
    {n r e : ℕ} (run : Run n r e) (t : Turn n r) (o : Option System)
    → step t.tid (t.picks ∷ []) run.last ≡ o
    → Run n r e
advance run t none q = run
advance run t (some s) q = record {
  last = s;
  reach = later t.tid (t.picks ∷ []) run.reach t.worker (draws-DrawsIn t) q;
}

turn : {n r e : ℕ} → Run n r e → Turn n r → Run n r e
unfolding advance
turn run t = advance run t (step t.tid (t.picks ∷ []) run.last) refl

runs : (n r e : ℕ) → List (Turn n r) → Run n r e
unfolding turn
runs n r e = foldl turn (record { last = init n r e; reach = start })

abbrev first : Turn 2 3
first = record {
  tid = 1;
  picks = record { i = 1; j = 3; k = 2 };
  worker = omega arith;
  in_range = omega arith;
}

abbrev second : Turn 2 3
second = record {
  tid = 2;
  picks = record { i = 3; j = 1; k = 2 };
  worker = omega arith;
  in_range = omega arith;
}

abbrev third : Turn 2 3
third = record {
  tid = 2;
  picks = record { i = 2; j = 1; k = 3 };
  worker = omega arith;
  in_range = omega arith;
}

-- Each of the two workers has locked its record `i`; then worker 2 waits for record 1.
abbrev both_reading : List (Turn 2 3)
both_reading = first ∷ first ∷ second ∷ second ∷ []

abbrev reading : Run 2 3 1
reading = runs 2 3 1 both_reading

abbrev in_deadlock : Run 2 3 1
in_deadlock = runs 2 3 1 (first ∷ first ∷ second ∷ second ∷ first ∷ second ∷ second ∷ first ∷ [])

-- Worker 1 has locked record 3 for writing; worker 2 has not begun.
abbrev alone : Run 2 3 1
alone = runs 2 3 1 (first ∷ first ∷ first ∷ first ∷ [])

abbrev finished : Run 2 3 1
finished = runs 2 3 1 (
    first ∷ first ∷ first ∷ first ∷ first ∷ first ∷ first ∷ first ∷ first ∷ first ∷ first ∷ first
    ∷ first ∷ first ∷ first ∷ first ∷ [])

-- Worker 1 has locked record 3 for writing, and worker 2 record 2 for reading.
abbrev apart : Run 2 3 1
apart = runs 2 3 1 (first ∷ first ∷ first ∷ first ∷ third ∷ third ∷ [])

-- Worker 2 is in the queue of record 1 when worker 1 comes to record 3: a deadlock.
deadlock_counted : in_deadlock.last.deadlock_cnt ≡ 1
unfolding runs step init LockTable.create update_record get set_record Database.create before_from
    is_first blocked_in
deadlock_counted = refl

finished_log :
    files 2 finished.last.threads
    ≡ (record { commit_id = 1; i = 1; j = 3; k = 2; vi = 100; vj = 201; vk = 0 } ∷ []) ∷ [] ∷ []
unfolding runs step init LockTable.create update_record get set_record Database.create before_from
    is_first blocked_in
finished_log = refl

validate-files_example :
    validate 3 finished.last.last_order (files 2 finished.last.threads) ≡ succeeded
unfolding runs step init LockTable.create update_record get set_record Database.create before_from
    is_first blocked_in
validate-files_example = validate-files finished.reach (omega arith)

finished_quiet : (tid : ℕ) → IsWorker 2 tid → is_active (finished.last.threads tid).pc ≡ false
unfolding runs step init LockTable.create update_record get set_record Database.create before_from
    is_first blocked_in
finished_quiet zero w = absurd (omega arith)
finished_quiet (suc zero) w = refl
finished_quiet (suc (suc zero)) w = refl
finished_quiet (suc (suc (suc tid))) w = absurd (omega arith)

serializable_example :
    (base : Database) × (check_logs 3 1
        (sort_logs (read_files (files 2 finished.last.threads)))
        (push_records 1 3)
      ≡ some base.records)
    × ((x : ℕ) → InRecords 3 x → value_at finished.last.db x ≡ value_at base x)
serializable_example = serializable finished.reach finished_quiet

writer_alone_example :
    index_of for_j (apart.last.threads 1).picks ≢ index_of for_i (apart.last.threads 2).picks
unfolding runs step init LockTable.create update_record get set_record Database.create before_from
    is_first blocked_in
writer_alone_example =
    writer_alone 1 2 for_j for_i apart.reach (omega arith) (omega arith) (omega arith) refl refl
      refl

reads_committed_example :
    (base : Database) × (check_logs 3 1
        (sort_logs (read_files (files 2 alone.last.threads)))
        (push_records 1 3)
      ≡ some base.records)
    × (value_at alone.last.db (index_of for_i (alone.last.threads 1).picks)
        ≡ value_at base (index_of for_i (alone.last.threads 1).picks))
unfolding runs step init LockTable.create update_record get set_record Database.create before_from
    is_first blocked_in
reads_committed_example = reads_committed 1 for_i alone.reach (omega arith) refl refl

-- Two workers that wait for each other's records.
abbrev reader : ℕ → ℕ → LockElement
reader node tid = record { node = node; tid = tid; is_reader = true; is_blocked = false }

abbrev waiting_writer : ℕ → ℕ → LockElement
waiting_writer node tid = record { node = node; tid = tid; is_reader = false; is_blocked = true }

abbrev token : ℕ → ℕ → ℕ → LockToken
token tid index lock = record { tid = tid; index = index; lock = lock }

abbrev cyclic : LockTable
cyclic = record {
  num_workers = 2;
  num_records = 2;
  locks =
      record { index = 1; thread_queue = reader 0 1 ∷ waiting_writer 1 2 ∷ []; next_node = 2 }
      ∷ record { index = 2; thread_queue = reader 0 2 ∷ waiting_writer 1 1 ∷ []; next_node = 2 }
      ∷ [];
  adj = (token 1 1 0 ∷ token 1 2 1 ∷ []) ∷ (token 2 2 0 ∷ token 2 1 1 ∷ []) ∷ [];
}

cyclic-QueuesWorkers : QueuesWorkers cyclic
cyclic-QueuesWorkers l e (inl same) h =
    of_queue e (subst (λ (m : RwLock). Has e m.thread_queue) (sym same) h)
  where
    of_queue : (e : LockElement) → Has e (reader 0 1 ∷ waiting_writer 1 2 ∷ []) → IsWorker 2 e.tid
    of_queue e (inl q) = ground arith
    of_queue e (inr (inl q)) = ground arith
    of_queue e (inr (inr never)) = elim never [ ]
cyclic-QueuesWorkers l e (inr (inl same)) h =
    of_queue e (subst (λ (m : RwLock). Has e m.thread_queue) (sym same) h)
  where
    of_queue : (e : LockElement) → Has e (reader 0 2 ∷ waiting_writer 1 1 ∷ []) → IsWorker 2 e.tid
    of_queue e (inl q) = ground arith
    of_queue e (inr (inl q)) = ground arith
    of_queue e (inr (inr never)) = elim never [ ]
cyclic-QueuesWorkers l e (inr (inr never)) h = elim never [ ]

search_cycle_ends_example : search_cycle cyclic (token 1 2 1) ≢ fault out_of_fuel
search_cycle_ends_example = search_cycle_ends cyclic (token 1 2 1) cyclic-QueuesWorkers

search_cycle-Chain_example :
    (it : LockElement) × (before 1 (queue_of cyclic (token 1 2 1)) ≡ some it)
    × (it.tid ≢ 1)
    × Chain cyclic it.tid true 1
unfolding search_cycle before_from is_first blocked_in
search_cycle-Chain_example = search_cycle-Chain cyclic (token 1 2 1) refl

-- Two readers that have both been granted record 7.
abbrev two_readers : List Call
two_readers = rd 1 ∷ rd 2 ∷ poll (token 1 7 0) ∷ poll (token 2 7 1) ∷ []

granted_readers_example : (true ≡ true) × (true ≡ true)
unfolding calls
granted_readers_example =
    granted_readers 7 two_readers 0 1 (reader 0 1) (reader 1 2) (refl, refl) (refl, refl)
      (omega arith)

get-set_record_example :
    (InRange (Database.create 3) 2
      → (set_record 2 5 (Database.create 3) ≡ some (written 2 5 (Database.create 3)))
        × IsValid (written 2 5 (Database.create 3))
        × ((other : ℕ)
            → InRange (Database.create 3) other
            → get other (written 2 5 (Database.create 3))
              ≡ some (record {
                index = other;
                value = if 2 == other then 5 else value_at (Database.create 3) other;
              })))
    × (¬ InRange (Database.create 3) 2
        → (set_record 2 5 (Database.create 3) ≡ none) × (get 2 (Database.create 3) ≡ none))
get-set_record_example = get-set_record (Database.create 3) 2 5 (create_lem 3).0

-- The table once worker 1 has asked for record 2, which it was granted, and worker 2 after it.
abbrev one_request : LockTable
one_request = (request 1 2 true (LockTable.create 2 3)).2

abbrev two_requests : LockTable
two_requests = (request 2 2 false one_request).2

one_request-IsSound : IsSound 2 3 one_request
one_request-IsSound =
    (request_lem 1 2 true (create-IsSound 2 3) (omega arith, omega arith)
      (omega arith, omega arith)).sound

two_requests-IsSound : IsSound 2 3 two_requests
two_requests-IsSound =
    (request_lem 2 2 false one_request-IsSound (omega arith, omega arith)
      (omega arith, omega arith)).sound

unlock_all_lem_example :
    Unlocked 2 3 1 (tokens_of two_requests 1) two_requests (unlock_all 1 two_requests)
    × (tokens_of (unlock_all 1 two_requests) 1 ≡ [])
unlock_all_lem_example = unlock_all_lem 1 two_requests-IsSound (omega arith, omega arith)
