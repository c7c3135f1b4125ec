-- ===== src/Project2/System/Serializable.antt =====
-- The workers of project2 are serializable, and the validator accepts what they log:
-- project2/src/worker.cpp, project2/src/main.cpp and project2/src/validator.cpp.
use ite.Base.{
  ℕ, zero, suc, ◌+◌, ◌≡◌, ◌≢◌, ◌<◌, refl, true, false, some, List, [], ◌==◌, length, arith,
}
use mathlib.Core.Path.{subst}
use ite.Project2.Database.{Database, Record, push_records, add64, sub64, set_value}
use ite.Project2.Database.Access.{value_at}
use ite.Project2.LockTable.Visits.{IsWorker}
use ite.Project2.LockTable.Invariant.{InRecords}
use ite.Project2.Validator.{read_files, sort_logs, check_logs}
use ite.Project2.System.{
  Phase, Pc, idle, locking, waiting, working, committing, terminated, Picks, System, index_of,
  is_reader, dispatch, step, init,
}
use ite.Project2.System.Invariant.{held, is_active, writes, files_from, files, IsBase, Inv}
use ite.Project2.Database as Database
use ite.Project2.LockTable.Creation.{create-IsSound}
use ite.Project2.Database.Access.{create_lem}
use ite.Project2.Validator.{succeeded, validate}
use ite.Project2.System.{new_thread}
use ite.Project2.System.Frame.{held-apart}
use ite.Project2.System.Leave.{idle-ThreadInv, inactive-writes}
use ite.Project2.System.Locking.{
  DrawsIn, Keeps, begin_step-Inv, lock_step-Inv, wait_step-Inv, waiting-AtLock,
}
use ite.Project2.System.Work.{work_step-Inv, locked-clean}
use ite.Project2.System.Commit.{commit_step-Inv}

no_logs : (i n : ℕ) → read_files (files_from i n (λ _. new_thread)) ≡ []
unfolding read_files
no_logs i zero = refl
no_logs i (suc n) = no_logs (i + 1) n

new_IsBase : (r : ℕ) → IsBase r (Database.create r)
unfolding Database.create
new_IsBase r = record { valid = (create_lem r).0; sized = refl }

checks_nothing :
    (r : ℕ) → check_logs r 1 (sort_logs []) (push_records 1 r) ≡ some (Database.create r).records
unfolding check_logs sort_logs Database.create
checks_nothing r = refl

pub init-Inv : (n r e : ℕ) → Inv n r (Database.create r) (init n r e)
unfolding init
init-Inv n r e = record {
  table = create-IsSound n r;
  db = fresh;
  base_ok = fresh;
  threads = λ b w. idle-ThreadInv new_thread refl;
  clean = λ x i h. refl;
  committed = record {
    replayed = rw (no_logs 1 n) nothing_to_check;
    numbered = rw (no_logs 1 n) tt;
    counted = λ h. rw (no_logs 1 n) refl;
    full = λ h. absurd (omega arith);
  };
}
  where
    fresh : IsBase r (Database.create r)
    fresh = new_IsBase r

    nothing_to_check :
        check_logs r 1 (sort_logs []) (push_records 1 r) ≡ some (Database.create r).records
    nothing_to_check = checks_nothing r

-- One step of one worker, if it raises no exception, keeps the invariant.
pub step-Inv :
    {n r : ℕ} {base : Database} {s : System} (tid : ℕ) (draws : List Picks)
    → Inv n r base s
    → IsWorker n tid
    → DrawsIn r draws
    → Keeps n r (step tid draws s)
unfolding step
step-Inv {n} {r} {base} {s} tid draws inv w ok_ = by_pc (s.threads tid).pc refl
  where
    by_pc : (pc : Pc) → (s.threads tid).pc ≡ pc → Keeps n r (dispatch pc tid draws s)
    by_pc idle e = begin_step-Inv tid draws inv e ok_
    by_pc (locking y) e = lock_step-Inv tid y inv w e
    by_pc (waiting y token) e =
        let (own, at) = (inv.threads tid w).token_of y token e in
        (base, wait_step-Inv tid y token inv w (waiting-AtLock y token (s.threads tid).pc e) own at)
    by_pc (working y) e = work_step-Inv tid inv w y e
    by_pc committing e = commit_step-Inv tid inv w e
    by_pc terminated e = (base, inv)

-- The states that `main` with `n` workers, `r` records and `e` transactions can come to, in any
-- interleaving of the workers and with any random numbers.
pub data Reach (n r e : ℕ) : System → Type 0 where
  start : Reach n r e (init n r e)
  later :
      {s s' : System} (tid : ℕ) (draws : List Picks)
      → Reach n r e s
      → IsWorker n tid
      → DrawsIn r draws
      → step tid draws s ≡ some s'
      → Reach n r e s'

pub Reach-Inv : {n r e : ℕ} {s : System} → Reach n r e s → (base : Database) × Inv n r base s
Reach-Inv {n} {r} {e} start = (Database.create r, init-Inv n r e)
Reach-Inv {n} {r} (later tid draws reach w ok_ q) =
    let (base, inv) = Reach-Inv reach in subst (Keeps n r) q (step-Inv tid draws inv w ok_)

-- In every state that the steps of the workers reach from the start, in any interleaving and with any
-- random numbers within the records: once an order number past the last one has been drawn, as by
-- every worker that has terminated, the validator accepts the files of the workers.
pub validate-files :
    {n r e : ℕ} {s : System}
    → Reach n r e s
    → s.last_order < s.current_order
    → validate r s.last_order (files n s.threads) ≡ succeeded
unfolding validate
validate-files {n} {r} {s} reach over =
    let (base, inv) = Reach-Inv reach in
    let c = inv.committed in
    let all_there : (length (read_files (files n s.threads)) == s.last_order) ≡ true =
      ground (arith, c.full over) in
    rw (all_there, c.replayed)

-- In every state that the steps of the workers reach from the start: when no transaction is under
-- way, the database is the result of the committed transactions, run
-- one after the other in the order of their numbers on the initial records.
pub serializable :
    {n r e : ℕ} {s : System}
    → Reach n r e s
    → ((tid : ℕ) → IsWorker n tid → is_active (s.threads tid).pc ≡ false)
    → (base : Database) × (check_logs r 1
          (sort_logs (read_files (files n s.threads)))
          (push_records 1 r)
        ≡ some base.records)
      × ((x : ℕ) → InRecords r x → value_at s.db x ≡ value_at base x)
serializable {s} reach quiet =
    let (base, inv) = Reach-Inv reach in
    (
      base,
      inv.committed.replayed,
      λ x i. inv.clean x i (λ tid w. inactive-writes (s.threads tid) x (quiet tid w)),
    )

-- In every state that the steps of the workers reach from the start, two workers never hold the same
-- record at once, if one of them holds it for writing.
pub writer_alone :
    {n r e : ℕ} {s : System} (a b : ℕ) (x y : Phase)
    → Reach n r e s
    → IsWorker n a
    → IsWorker n b
    → a ≢ b
    → held (s.threads a).pc x ≡ true
    → is_reader x ≡ false
    → held (s.threads b).pc y ≡ true
    → index_of x (s.threads a).picks ≢ index_of y (s.threads b).picks
writer_alone a b x y reach wa wb ne ha mode hb =
    let (base, inv) = Reach-Inv reach in held-apart a b x y inv wa wb ne ha mode hb

-- In every state that the steps of the workers reach from the start, a worker that holds a record and
-- has not written it itself finds the value there that the
-- transactions committed so far have left.
pub reads_committed :
    {n r e : ℕ} {s : System} (tid : ℕ) (y : Phase)
    → Reach n r e s
    → IsWorker n tid
    → held (s.threads tid).pc y ≡ true
    → writes (s.threads tid) (index_of y (s.threads tid).picks) ≡ false
    → (base : Database) × (check_logs r 1
          (sort_logs (read_files (files n s.threads)))
          (push_records 1 r)
        ≡ some base.records)
      × (value_at s.db (index_of y (s.threads tid).picks)
          ≡ value_at base (index_of y (s.threads tid).picks))
reads_committed {s} tid y reach w h unwritten =
    let (base, inv) = Reach-Inv reach in
    (base, inv.committed.replayed, locked-clean tid y inv w h unwritten)
