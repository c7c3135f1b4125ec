-- ===== src/Project2/System/Invariant.antt =====
-- What holds between the steps of the workers of project2: every worker holds the locks of the
-- records that it has come to, and the database is that of the committed transactions, run one
-- after the other, plus the writes of the transactions that are under way.
use ite.Base.{
  ℕ, zero, suc, ◌+◌, ◌≡◌, ◌≢◌, ◌≤◌, ◌<◌, Bool, true, false, ◌||◌, ◌&&◌, some, List, [], ◌∷◌, ◌==◌,
  length, if◌then◌else◌,
}
use ite.Project2.Database.{Database, push_records}
use ite.Project2.Database.Access.{IsValid, value_at}
use ite.Project2.RwLock.{LockToken}
use ite.Project2.LockTable.{LockTable}
use ite.Project2.LockTable.Visits.{IsWorker}
use ite.Project2.LockTable.Grants.{Granted}
use ite.Project2.LockTable.Invariant.{queue, InRecords, TokenOf, IsSound}
use ite.Project2.Worker.{RecordWithFlag, Log, raise_by, lower_by}
use ite.Project2.Worker.Rollback.{entry}
use ite.Project2.Validator.{read_files, sort_logs, check_logs}
use ite.Project2.Validator.Sorting.{UpTo}
use ite.Project2.System.{
  Phase, for_i, for_j, for_k, Pc, idle, locking, waiting, working, committing, terminated, Picks,
  Thread, System, index_of, is_reader,
}

abbrev pub comes_before : Phase → Phase → Bool
comes_before for_i for_i = false
comes_before for_i for_j = true
comes_before for_i for_k = true
comes_before for_j for_i = false
comes_before for_j for_j = false
comes_before for_j for_k = true
comes_before for_k _ = false

abbrev pub comes_up_to : Phase → Phase → Bool
comes_up_to for_i _ = true
comes_up_to for_j for_i = false
comes_up_to for_j for_j = true
comes_up_to for_j for_k = true
comes_up_to for_k for_i = false
comes_up_to for_k for_j = false
comes_up_to for_k for_k = true

-- The lock of this phase has been acquired.
abbrev pub held : Pc → Phase → Bool
held idle x = false
held (locking phase) x = comes_before x phase
held (waiting phase token) x = comes_before x phase
held (working phase) x = comes_up_to x phase
held committing x = true
held terminated x = false

-- The reads and writes of this phase have been made.
abbrev pub done : Pc → Phase → Bool
done idle x = false
done (locking phase) x = comes_before x phase
done (waiting phase token) x = comes_before x phase
done (working phase) x = comes_before x phase
done committing x = true
done terminated x = false

abbrev pub is_active : Pc → Bool
is_active idle = false
is_active terminated = false
is_active _ = true

abbrev pub AreDistinct : ℕ → Picks → Type 0
AreDistinct r p =
    InRecords r p.i × InRecords r p.j × InRecords r p.k × (p.i ≢ p.j) × (p.j ≢ p.k) × (p.k ≢ p.i)

abbrev pub base_entry : Database → Picks → Phase → RecordWithFlag
base_entry base p for_i = entry p.i (value_at base p.i) false
base_entry base p for_j = entry p.j (value_at base p.j) true
base_entry base p for_k = entry p.k (value_at base p.k) true

abbrev pub entries : Database → Picks → (Phase → Bool) → List RecordWithFlag
entries base p passed =
    if passed for_i
    then base_entry base p for_i
      ∷ (if passed for_j
          then base_entry base p for_j ∷ (if passed for_k then base_entry base p for_k ∷ [] else [])
          else [])
    else []

pub record ThreadInv (r : ℕ) (db base : Database) (table : LockTable) (tid : ℕ) (t : Thread)
    : Type 0 where
  pub picked : is_active t.pc ≡ true → AreDistinct r t.picks
  pub locked :
      (x : Phase)
      → held t.pc x ≡ true
      → Granted (queue table (index_of x t.picks)) tid (is_reader x)
  pub token_of :
      (x : Phase) (token : LockToken)
      → t.pc ≡ waiting x token
      → TokenOf r table tid (is_reader x) token × (token.index ≡ index_of x t.picks)
  pub read_i : done t.pc for_i ≡ true → t.vi ≡ value_at base t.picks.i
  pub wrote_j :
      done t.pc for_j ≡ true
      → (t.vj ≡ raise_by t.vi (value_at base t.picks.j)) × (value_at db t.picks.j ≡ t.vj)
  pub wrote_k :
      done t.pc for_k ≡ true
      → (t.vk ≡ lower_by t.vi (value_at base t.picks.k)) × (value_at db t.picks.k ≡ t.vk)
  pub kept : is_active t.pc ≡ true → t.records ≡ entries base t.picks (done t.pc)

-- Record `x` has a write of this worker that is not committed.
abbrev pub writes : Thread → ℕ → Bool
writes t x = (done t.pc for_j && t.picks.j == x) || (done t.pc for_k && t.picks.k == x)

-- The files of `n` workers from `tid` on.
abbrev pub files_from : ℕ → ℕ → (ℕ → Thread) → List (List Log)
files_from tid zero threads = []
files_from tid (suc n) threads = (threads tid).clog ∷ files_from (tid + 1) n threads

abbrev pub files : ℕ → (ℕ → Thread) → List (List Log)
files n threads = files_from 1 n threads

-- `base` is what the check of the files computes.
pub record Committed (n r : ℕ) (base : Database) (s : System) : Type 0 where
  pub replayed :
      check_logs r 1 (sort_logs (read_files (files n s.threads))) (push_records 1 r)
      ≡ some base.records
  pub numbered : UpTo s.current_order (read_files (files n s.threads))
  pub counted :
      s.current_order ≤ s.last_order → length (read_files (files n s.threads)) ≡ s.current_order
  pub full : s.last_order < s.current_order → length (read_files (files n s.threads)) ≡ s.last_order

pub record IsBase (r : ℕ) (db : Database) : Type 0 where
  pub valid : IsValid db
  pub sized : db.num_records ≡ r

abbrev pub Threads : ℕ → ℕ → Database → System → Type 0
Threads n r base s = (tid : ℕ) → IsWorker n tid → ThreadInv r s.db base s.table tid (s.threads tid)

abbrev pub Clean : ℕ → ℕ → Database → System → Type 0
Clean n r base s =
    (x : ℕ)
    → InRecords r x
    → ((tid : ℕ) → IsWorker n tid → writes (s.threads tid) x ≡ false)
    → value_at s.db x ≡ value_at base x

pub record Inv (n r : ℕ) (base : Database) (s : System) : Type 0 where
  pub table : IsSound n r s.table
  pub db : IsBase r s.db
  pub base_ok : IsBase r base
  pub threads : Threads n r base s
  pub clean : Clean n r base s
  pub committed : Committed n r base s
