-- ===== src/Project2/System/Locking.antt =====
-- The steps that begin a transaction, lock a record, wait for it, and give up on a deadlock:
-- WorkerThread::workTransaction of project2/src/worker.cpp.
use ite.Base.{
  ℕ, ◌≡◌, ◌≤◌, refl, Bool, true, false, ◌||◌, ◌⊎◌, Option, none, some, List, [], ◌∷◌, ◌==◌, arith,
  Bool-cases, Option-cases, inl, inr, ◌∙◌, sym, Has,
}
use mathlib.Core.Path.{subst}
use ite.Project2.Database.{Database}
use ite.Project2.RwLock.{LockToken}
use ite.Project2.LockTable.{LockTable, Result, ok, fault, request, poll}
use ite.Project2.LockTable.Visits.{IsWorker}
use ite.Project2.LockTable.Invariant.{InRecords, TokenOf, TokenOf-Evolves}
use ite.Project2.LockTable.Moves.{poll_lem}
use ite.Project2.LockTable.Operations.{unlock_all_lem, request_lem, Requested}
use ite.Project2.Worker.{rollback}
use ite.Project2.System.{
  Phase, for_i, for_j, for_k, Pc, idle, locking, waiting, working, Picks, Thread, System, index_of,
  is_reader, set_thread, pick_records, begin_step, abandon, wait_step, after_request, lock_step,
}
use ite.Project2.System.Invariant.{
  comes_before, comes_up_to, held, done, is_active, AreDistinct, writes, Inv,
}
use ite.Project2.System.Change.{at_thread, Committed-same, table-Inv, thread-Inv, ThreadInv-advance}
use ite.Project2.System.Frame.{index-InRecords}
use ite.Project2.System.Leave.{leave-Inv, restored, rollback-entries, value_at-restored}

-- Random numbers between 1 and the number of records.
abbrev pub DrawsIn : ℕ → List Picks → Type 0
DrawsIn r draws = (p : Picks) → Has p draws → InRecords r p.i × InRecords r p.j × InRecords r p.k

-- The loop ends with three different records.
pub pick_records-AreDistinct :
    (r : ℕ) (draws : List Picks) (p : Picks)
    → DrawsIn r draws
    → pick_records draws ≡ some p
    → AreDistinct r p
unfolding pick_records
pick_records-AreDistinct r [] p ok_ h = cc
pick_records-AreDistinct r (q ∷ draws) p ok_ h =
    elim (Bool-cases (q.i == q.j || (q.j == q.k || q.k == q.i))) [
      | inl again ↦
          pick_records-AreDistinct r draws p (λ x i. ok_ x (inr i)) (rw (again, pick_records) at h)
      | inr fine ↦
          let same : q ≡ p = some_eq (rw (fine, pick_records) at h) in
          let (i, j, k) = ok_ q (inl refl) in
          subst (AreDistinct r) same (i, j, k, ground arith, ground arith, ground arith)
    ]
  where
    some_eq : some q ≡ some p → q ≡ p
    some_eq e = cc

abbrev pub begun : Thread → Picks → Thread
begun t p = record t { pc = locking for_i; picks = p; records = [] }

begun-Inv :
    {n r : ℕ} {base : Database} {s : System} (tid : ℕ) (p : Picks)
    → Inv n r base s
    → (s.threads tid).pc ≡ idle
    → AreDistinct r p
    → Inv n r base (set_thread s tid (begun (s.threads tid) p))
begun-Inv {r} {base} {s} tid p inv e d =
    thread-Inv tid (begun (s.threads tid) p) inv
      (record {
        picked = λ _. d;
        locked = λ x h. absurd (nothing_held x h);
        token_of = λ x token q. cc;
        read_i = λ h. cc;
        wrote_j = λ h. cc;
        wrote_k = λ h. cc;
        kept = λ _. refl;
      })
      refl (λ x. rw e)
  where
    nothing_held : (x : Phase) → held (locking for_i) x ≡ true → ⊥
    nothing_held for_i h = cc
    nothing_held for_j h = cc
    nothing_held for_k h = cc

-- The result of a step, if the step does not fault, satisfies the invariant for some base.
abbrev pub Keeps : ℕ → ℕ → Option System → Type 0
Keeps n r none = Unit
Keeps n r (some s) = (base : Database) × Inv n r base s

pub begin_step-Inv :
    {n r : ℕ} {base : Database} {s : System} (tid : ℕ) (draws : List Picks)
    → Inv n r base s
    → (s.threads tid).pc ≡ idle
    → DrawsIn r draws
    → Keeps n r (begin_step tid draws s)
unfolding begin_step
begin_step-Inv {r} {base} {s} tid draws inv e ok_ = elim (Option-cases (pick_records draws)) [
  | inl never ↦ rw (never, begin_step) (base, inv)
  | inr (p, found) ↦
      rw (found, begin_step)
        (base, begun-Inv tid p inv e (pick_records-AreDistinct r draws p ok_ found))
]

-- A worker that waits for the lock of phase `y`, or is about to ask for it.
pub record AtLock (y : Phase) (pc : Pc) : Type 0 where
  pub active : is_active pc ≡ true
  pub done_before : (x : Phase) → done pc x ≡ comes_before x y
  pub held_before : (x : Phase) → held pc x ≡ comes_before x y

pub locking-AtLock : (y : Phase) (pc : Pc) → pc ≡ locking y → AtLock y pc
locking-AtLock y pc e =
    rw e (record { active = refl; done_before = λ x. refl; held_before = λ x. refl })

pub waiting-AtLock : (y : Phase) (token : LockToken) (pc : Pc) → pc ≡ waiting y token → AtLock y pc
waiting-AtLock y token pc e =
    rw e (record { active = refl; done_before = λ x. refl; held_before = λ x. refl })

up_to-cases : (x y : Phase) → comes_up_to x y ≡ true → (comes_before x y ≡ true) ⊎ (x ≡ y)
up_to-cases for_i for_i h = inr refl
up_to-cases for_i for_j h = inl refl
up_to-cases for_i for_k h = inl refl
up_to-cases for_j for_i h = cc
up_to-cases for_j for_j h = inr refl
up_to-cases for_j for_k h = inl refl
up_to-cases for_k for_i h = cc
up_to-cases for_k for_j h = cc
up_to-cases for_k for_k h = inr refl

waiting-phase : (y x : Phase) (a b : LockToken) → waiting y a ≡ waiting x b → y ≡ x
waiting-phase y x a b e = cc

waiting-token : (y x : Phase) (a b : LockToken) → waiting y a ≡ waiting x b → a ≡ b
waiting-token y x a b e = cc

pub wait_step-Inv :
    {n r : ℕ} {base : Database} {s : System} (tid : ℕ) (y : Phase) (token : LockToken)
    → Inv n r base s
    → IsWorker n tid
    → AtLock y (s.threads tid).pc
    → TokenOf r s.table tid (is_reader y) token
    → token.index ≡ index_of y (s.threads tid).picks
    → Inv n r base (wait_step tid y token s)
unfolding wait_step
wait_step-Inv {n} {r} {base} {s} tid y token inv w at own index =
    let (sound, evolves, granted) = poll_lem inv.table tid (is_reader y) token own in
    let inv' = table-Inv (poll token s.table).1 inv sound evolves in
    let mine = inv'.threads tid w in
    elim (Bool-cases (poll token s.table).0) [
      | inl enters ↦ rw enters (
          thread-Inv tid (record t { pc = working y }) inv'
            (ThreadInv-advance (working y) mine at.active (λ x. sym (at.done_before x))
              (λ x h. elim (up_to-cases x y h) [
                | inl earlier ↦ mine.locked x (at.held_before x ∙ earlier)
                | inr now ↦ rw (now, ← index) (granted enters)
              ])
              (λ x other q. cc))
            refl (same_writes (working y) (λ x. refl)))
      | inr waits ↦ rw waits (
          thread-Inv tid (record t { pc = waiting y token }) inv'
            (ThreadInv-advance (waiting y token) mine at.active (λ x. sym (at.done_before x))
              (λ x h. mine.locked x (at.held_before x ∙ h))
              (λ x other q.
                let ex = waiting-phase y x token other q in
                let et = waiting-token y x token other q in
                rw (← ex, ← et) (TokenOf-Evolves tid (is_reader y) token evolves own, index)))
            refl (same_writes (waiting y token) (λ x. refl)))
    ]
  where
    t : Thread
    t = s.threads tid

    same_writes :
        (pc : Pc)
        → ((x : Phase) → done pc x ≡ comes_before x y)
        → (x : ℕ) → writes (record t { pc = pc }) x ≡ writes t x
    same_writes pc e x = rw (e for_j, e for_k, at.done_before for_j, at.done_before for_k)

-- After a rollback the worker has left no trace.
pub abandon-Inv :
    {n r : ℕ} {base : Database} {s : System} (tid : ℕ)
    → Inv n r base s
    → IsWorker n tid
    → is_active (s.threads tid).pc ≡ true
    → Keeps n r (abandon tid s)
unfolding abandon
abandon-Inv {n} {r} {base} {s} tid inv w active =
    let mine = inv.threads tid w in
    let d = mine.picked active in
    let undo : rollback t.records s.db ≡ some (restored base s.db t.picks (done t.pc)) =
      rw (mine.kept active) (rollback-entries r base s.db t.picks (done t.pc) d inv.db.sized) in
    let (released, _) = unlock_all_lem tid inv.table w in
    let back = λ (x : ℕ) (i : 1 ≤ x). value_at-restored r x base s.db t d inv.db i in
    rw (undo, abandon)
      (
        base,
        leave-Inv tid (record t { pc = idle }) inv w refl _ base released.sound released.evolves
            (back 1 (omega arith)).0 inv.base_ok (λ x i no_. (refl, (back x i.0).1 ∙ rw no_))
            (λ x i yes_. (back x i.0).1 ∙ rw yes_) refl
            (Committed-same _ inv.committed refl refl (λ b.
              at_thread s.threads tid b (record t { pc = idle }) (λ u. u.clog ≡ (s.threads b).clog)
                (λ e. rw e) (λ _. refl))),
      )
  where
    t : Thread
    t = s.threads tid

pub lock_step-Inv :
    {n r : ℕ} {base : Database} {s : System} (tid : ℕ) (y : Phase)
    → Inv n r base s
    → IsWorker n tid
    → (s.threads tid).pc ≡ locking y
    → Keeps n r (lock_step tid y s)
unfolding lock_step
lock_step-Inv {n} {r} {base} {s} tid y inv w e = by_answer _ asked
  where
    at : AtLock y (s.threads tid).pc
    at = locking-AtLock y (s.threads tid).pc e

    index : ℕ
    index = index_of y (s.threads tid).picks

    asked : Requested n r tid index (is_reader y) s.table (request tid index (is_reader y) s.table)
    asked =
        request_lem tid index (is_reader y) inv.table
          (index-InRecords r (s.threads tid).picks y ((inv.threads tid w).picked at.active)) w

    by_answer :
        (q : LockToken × Result Bool × LockTable)
        → Requested n r tid index (is_reader y) s.table q
        → Keeps n r (after_request tid y s q)
    by_answer (token, fault f, table) req = tt
    by_answer (token, ok true, table) req =
        abandon-Inv tid (table-Inv table inv req.sound req.evolves) w at.active
    by_answer (token, ok false, table) req = (
      base,
      wait_step-Inv tid y token (table-Inv table inv req.sound req.evolves) w at req.mine req.at,
    )
