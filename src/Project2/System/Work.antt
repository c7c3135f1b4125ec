-- ===== src/Project2/System/Work.antt =====
-- The steps that read and write the locked records: WorkerThread::workTransaction of
-- project2/src/worker.cpp.
use ite.Base.{
  ℕ, ◌≡◌, ◌≢◌, ◌≤◌, refl, Bool, true, false, ◌||◌, [], ◌∷◌, ◌++◌, ◌==◌, arith, Bool-cases, inl, inr,
  ◌∙◌, sym, Has,
}
use mathlib.Core.Path.{subst}
use ite.Project2.Database.{Database}
use ite.Project2.Database.Access.{value_at, written, written-IsValid, value_at-written}
use ite.Project2.LockTable.Visits.{IsWorker}
use ite.Project2.LockTable.Grants.{Granted}
use ite.Project2.LockTable.Invariant.{queue, InRecords, Evolves-refl}
use ite.Project2.LockTable.Moves.{Anyone}
use ite.Project2.Worker.{RecordWithFlag, raise_by, lower_by}
use ite.Project2.Worker.Rollback.{entry, NotKept, read_record_lem, read_and_update_lem}
use ite.Project2.System.{
  Phase, for_i, for_j, for_k, locking, working, committing, Thread, System, index_of, is_reader,
  set_thread, work_step,
}
use ite.Project2.System.Invariant.{
  comes_before, held, is_active, base_entry, ThreadInv, writes, Inv,
}
use ite.Project2.System.Change.{at_thread, at_self, Committed-same, thread-Inv}
use ite.Project2.System.Frame.{
  ThreadInv-frame, held-active, done-held, index-InRecords, held-apart, held-unwritten,
}
use ite.Project2.System.Locking.{Keeps}

-- A record that a worker has locked, and has not written itself, has its committed value.
pub locked-clean :
    {n r : ℕ} {base : Database} {s : System} (tid : ℕ) (y : Phase)
    → Inv n r base s
    → IsWorker n tid
    → held (s.threads tid).pc y ≡ true
    → writes (s.threads tid) (index_of y (s.threads tid).picks) ≡ false
    → value_at s.db (index_of y (s.threads tid).picks)
      ≡ value_at base (index_of y (s.threads tid).picks)
locked-clean {r} {s} tid y inv w h own =
    inv.clean (index_of y (s.threads tid).picks)
      (index-InRecords r (s.threads tid).picks y
        ((inv.threads tid w).picked (held-active (s.threads tid).pc y h)))
      (λ b v. elim (Bool-cases (tid == b)) [
        | inl e ↦ let q : tid ≡ b = ground arith in rw (← q) own
        | inr e ↦ held-unwritten tid y inv w h b v (ground arith)
      ])

-- Worker `tid` writes a record that it has locked for writing.
write-Inv :
    {n r : ℕ} {base : Database} {s : System} (tid : ℕ) (y : Phase) (new : ℕ) (t : Thread)
    → Inv n r base s
    → IsWorker n tid
    → held (s.threads tid).pc y ≡ true
    → is_reader y ≡ false
    → ThreadInv r (written (index_of y (s.threads tid).picks) new s.db) base s.table tid t
    → t.clog ≡ (s.threads tid).clog
    → ((x : ℕ) → writes t x ≡ (writes (s.threads tid) x || index_of y (s.threads tid).picks == x))
    → Inv n r base
        (set_thread (record s { db = written (index_of y (s.threads tid).picks) new s.db }) tid t)
write-Inv {n} {r} {base} {s} tid y new t inv w h mode new_inv log more = record {
  table = inv.table;
  db = record { valid = written-IsValid s.db at new inv.db.valid; sized = inv.db.sized };
  base_ok = inv.base_ok;
  threads = λ b v.
      at_thread s.threads tid b t (ThreadInv r db' base s.table b)
        (λ e. subst (λ a. ThreadInv r db' base s.table a t) e new_inv)
        (λ ne.
          ThreadInv-frame (inv.threads b v) ((Evolves-refl r Anyone s.table)) tt (λ x d. refl)
            (λ x d m.
              elsewhere (index_of x (s.threads b).picks)
                (index-InRecords r (s.threads b).picks x (
                  (inv.threads b v).picked
                    (held-active (s.threads b).pc x (done-held (s.threads b).pc x d)))).0
                (held-apart tid b y x inv w v ne h mode (done-held (s.threads b).pc x d))));
  clean = λ x i none_writes.
      let mine : (writes (s.threads tid) x || at == x) ≡ false =
        sym (more x) ∙ rw (at_self s.threads tid t) at (none_writes tid w) in
      let old : writes (s.threads tid) x ≡ false =
        left_false (writes (s.threads tid) x) (at == x) mine in
      let ne : (at == x) ≡ false = right_false (writes (s.threads tid) x) (at == x) mine in
      elsewhere x i.0 (ground arith)
      ∙ inv.clean x i (λ b v. elim (Bool-cases (tid == b)) [
        | inl e ↦ let q : tid ≡ b = ground arith in rw (← q) old
        | inr e ↦ rw e at (none_writes b v)
      ]);
  committed =
      Committed-same (set_thread (record s { db = db' }) tid t) inv.committed refl refl (λ b.
        at_thread s.threads tid b t (λ u. u.clog ≡ (s.threads b).clog) (λ e. rw (← e) log)
          (λ _. refl));
}
  where
    at : ℕ
    at = index_of y (s.threads tid).picks

    db' : Database
    db' = written at new s.db

    in_range : InRecords r at
    in_range =
        index-InRecords r (s.threads tid).picks y
          ((inv.threads tid w).picked (held-active (s.threads tid).pc y h))

    elsewhere : (x : ℕ) → 1 ≤ x → at ≢ x → value_at db' x ≡ value_at s.db x
    elsewhere x pos ne =
        value_at-written s.db at x new inv.db.valid (omega (arith, in_range, inv.db.sized)) pos
        ∙ (let other : (at == x) ≡ false = ground arith in rw other)

    left_false : (a b : Bool) → (a || b) ≡ false → a ≡ false
    left_false true b q = q
    left_false false b q = refl

    right_false : (a b : Bool) → (a || b) ≡ false → b ≡ false
    right_false true b q = absurd (clash q)
      where
        clash : true ≡ false → ⊥
        clash e = cc
    right_false false b q = q

module _ {n r : ℕ} {base : Database} {s : System} (tid : ℕ) (inv : Inv n r base s)
    (w : IsWorker n tid) where
  abbrev me : Thread
  me = s.threads tid

  mine : ThreadInv r s.db base s.table tid me
  mine = inv.threads tid w

  abbrev after_i : Thread
  after_i = record me {
    pc = locking for_j;
    vi = value_at s.db me.picks.i;
    records = me.records ++ (entry me.picks.i (value_at s.db me.picks.i) false ∷ []);
  }

  after_i-ThreadInv : me.pc ≡ working for_i → ThreadInv r s.db base s.table tid after_i
  after_i-ThreadInv e =
      let active : is_active me.pc ≡ true = rw e in
      let holds : held me.pc for_i ≡ true = rw e in
      let same = locked-clean tid for_i inv w holds (rw e) in
      let none_kept : me.records ≡ [] = mine.kept active ∙ rw e in
      record {
        picked = λ _. mine.picked active;
        locked = λ x h. only_i x h (mine.locked for_i holds);
        token_of = λ x token q. cc;
        read_i = λ _. same;
        wrote_j = λ h. cc;
        wrote_k = λ h. cc;
        kept = λ _. rw (none_kept, same);
      }
    where
      only_i :
          (x : Phase)
          → comes_before x for_j ≡ true
          → Granted (queue s.table me.picks.i) tid true
          → Granted (queue s.table (index_of x me.picks)) tid (is_reader x)
      only_i for_i h g = g
      only_i for_j h g = absurd (clash h)
        where
          clash : false ≡ true → ⊥
          clash q = cc
      only_i for_k h g = absurd (clash h)
        where
          clash : false ≡ true → ⊥
          clash q = cc

  pub work_i-Inv : me.pc ≡ working for_i → Keeps n r (work_step tid for_i s)
  unfolding work_step
  work_i-Inv e =
      let active : is_active me.pc ≡ true = rw e in
      let d = mine.picked active in
      let got =
        read_record_lem me.picks.i s.db me.records inv.db.valid (omega (arith, inv.db.sized)) in
      rw (got, work_step) (base, thread-Inv tid after_i inv (after_i-ThreadInv e) refl (λ x. rw e))

  abbrev new_j : ℕ
  new_j = raise_by me.vi (value_at s.db me.picks.j)

  abbrev after_j : Thread
  after_j = record me {
    pc = locking for_k;
    vj = new_j;
    records = me.records ++ (entry me.picks.j (value_at s.db me.picks.j) true ∷ []);
  }

  after_j-ThreadInv :
      me.pc ≡ working for_j → ThreadInv r (written me.picks.j new_j s.db) base s.table tid after_j
  after_j-ThreadInv e =
      let active : is_active me.pc ≡ true = rw e in
      let holds : held me.pc for_j ≡ true = rw e in
      let d = mine.picked active in
      let same = locked-clean tid for_j inv w holds (rw e) in
      let kept_i : me.records ≡ base_entry base me.picks for_i ∷ [] = mine.kept active ∙ rw e in
      record {
        picked = λ _. d;
        locked = by_phase (mine.locked for_i (rw e)) (mine.locked for_j holds);
        token_of = λ x token q. cc;
        read_i = λ _. mine.read_i (rw e);
        wrote_j = λ _. (
          rw same,
          value_at-written s.db me.picks.j me.picks.j new_j inv.db.valid
                (omega (arith, inv.db.sized)) d.1.0
              ∙ ground arith,
        );
        wrote_k = λ h. cc;
        kept = λ _. rw (kept_i, same);
      }
    where
      by_phase :
          Granted (queue s.table me.picks.i) tid true
          → Granted (queue s.table me.picks.j) tid false
          → (x : Phase) → comes_before x for_k ≡ true
          → Granted (queue s.table (index_of x me.picks)) tid (is_reader x)
      by_phase gi gj for_i h = gi
      by_phase gi gj for_j h = gj
      by_phase gi gj for_k h = absurd (clash h)
        where
          clash : false ≡ true → ⊥
          clash q = cc

  pub work_j-Inv : me.pc ≡ working for_j → Keeps n r (work_step tid for_j s)
  unfolding work_step
  work_j-Inv e =
      let active : is_active me.pc ≡ true = rw e in
      let d = mine.picked active in
      let kept_i : me.records ≡ base_entry base me.picks for_i ∷ [] = mine.kept active ∙ rw e in
      let others : NotKept me.picks.j me.records = rw kept_i (λ q i. not_j q i d.3) in
      let got =
        read_and_update_lem (raise_by me.vi) me.picks.j s.db me.records inv.db.valid
          (omega (arith, inv.db.sized)) others in
      rw (got, work_step)
        (
          base,
          write-Inv tid for_j new_j after_j inv w (rw e) refl (after_j-ThreadInv e) refl
              (λ x. rw e (ground arith)),
        )
    where
      not_j :
          (q : RecordWithFlag)
          → Has q (base_entry base me.picks for_i ∷ [])
          → me.picks.i ≢ me.picks.j
          → q.kept.index ≢ me.picks.j
      not_j q (inl same) ne = ground arith
      not_j q (inr never) ne = elim never [ ]

  abbrev new_k : ℕ
  new_k = lower_by me.vi (value_at s.db me.picks.k)

  abbrev after_k : Thread
  after_k = record me {
    pc = committing;
    vk = new_k;
    records = me.records ++ (entry me.picks.k (value_at s.db me.picks.k) true ∷ []);
  }

  after_k-ThreadInv :
      me.pc ≡ working for_k → ThreadInv r (written me.picks.k new_k s.db) base s.table tid after_k
  after_k-ThreadInv e =
      let active : is_active me.pc ≡ true = rw e in
      let holds : held me.pc for_k ≡ true = rw e in
      let d = mine.picked active in
      let same = locked-clean tid for_k inv w holds (rw e (ground arith)) in
      let (vj, dj) = mine.wrote_j (rw e) in
      let kept_ij : me.records
          ≡ base_entry base me.picks for_i ∷ base_entry base me.picks for_j ∷ [] =
        mine.kept active ∙ rw e in
      record {
        picked = λ _. d;
        locked = λ x h. by_phase x;
        token_of = λ x token q. cc;
        read_i = λ _. mine.read_i (rw e);
        wrote_j = λ _. (
          vj,
          value_at-written s.db me.picks.k me.picks.j new_k inv.db.valid
                (omega (arith, inv.db.sized)) d.1.0
              ∙ (let ne : (me.picks.k == me.picks.j) ≡ false = ground arith in rw ne dj),
        );
        wrote_k = λ _. (
          rw same,
          value_at-written s.db me.picks.k me.picks.k new_k inv.db.valid
                (omega (arith, inv.db.sized)) d.2.0
              ∙ ground arith,
        );
        kept = λ _. rw (kept_ij, same);
      }
    where
      by_phase : (x : Phase) → Granted (queue s.table (index_of x me.picks)) tid (is_reader x)
      by_phase for_i = mine.locked for_i (rw e)
      by_phase for_j = mine.locked for_j (rw e)
      by_phase for_k = mine.locked for_k (rw e)

  pub work_k-Inv : me.pc ≡ working for_k → Keeps n r (work_step tid for_k s)
  unfolding work_step
  work_k-Inv e =
      let active : is_active me.pc ≡ true = rw e in
      let d = mine.picked active in
      let kept_ij : me.records
          ≡ base_entry base me.picks for_i ∷ base_entry base me.picks for_j ∷ [] =
        mine.kept active ∙ rw e in
      let others : NotKept me.picks.k me.records = rw kept_ij (λ q i. not_k q i d.4 d.5) in
      let got =
        read_and_update_lem (lower_by me.vi) me.picks.k s.db me.records inv.db.valid
          (omega (arith, inv.db.sized)) others in
      rw (got, work_step)
        (
          base,
          write-Inv tid for_k new_k after_k inv w (rw e) refl (after_k-ThreadInv e) refl
              (λ x. rw e (ground arith)),
        )
    where
      not_k :
          (q : RecordWithFlag)
          → Has q (base_entry base me.picks for_i ∷ base_entry base me.picks for_j ∷ [])
          → me.picks.j ≢ me.picks.k
          → me.picks.k ≢ me.picks.i
          → q.kept.index ≢ me.picks.k
      not_k q (inl same) ne me_ = ground arith
      not_k q (inr (inl same)) ne me_ = ground arith
      not_k q (inr (inr never)) ne me_ = elim never [ ]

  pub work_step-Inv : (y : Phase) → me.pc ≡ working y → Keeps n r (work_step tid y s)
  work_step-Inv for_i = work_i-Inv
  work_step-Inv for_j = work_j-Inv
  work_step-Inv for_k = work_k-Inv
