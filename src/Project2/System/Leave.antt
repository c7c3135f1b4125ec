-- ===== src/Project2/System/Leave.antt =====
-- A worker ends its transaction: by a commit, or by the rollback of project2/src/worker.cpp.
use ite.Base.{
  ℕ, ◌≡◌, ◌≢◌, ◌≤◌, refl, Bool, true, false, ◌||◌, ◌&&◌, some, [], ◌∷◌, ◌==◌, if◌then◌else◌, arith,
  Bool-cases, inl, inr, ◌∙◌, sym,
}
use ite.Project2.Database.{Database}
use ite.Project2.Database.Access.{value_at, written, written-IsValid, value_at-written}
use ite.Project2.LockTable.{LockTable}
use ite.Project2.LockTable.Visits.{IsWorker}
use ite.Project2.LockTable.Invariant.{InRecords, IsSound, Evolves}
use ite.Project2.LockTable.Unlocking.{Others}
use ite.Project2.Worker.{rollback}
use ite.Project2.Worker.Rollback.{rollback-none, rollback-false, rollback-true}
use ite.Project2.System.{
  Phase, for_i, for_j, for_k, Pc, idle, locking, waiting, working, committing, terminated, Picks,
  Thread, System, index_of, update,
}
use ite.Project2.System.Invariant.{
  comes_before, done, is_active, AreDistinct, base_entry, entries, ThreadInv, writes, Committed,
  IsBase, Inv,
}
use ite.Project2.System.Change.{at_thread}
use ite.Project2.System.Frame.{
  ThreadInv-frame, held-active, done-held, index-InRecords, held-unwritten,
}

-- A worker that is between two transactions.
pub idle-ThreadInv :
    {r tid : ℕ} {db base : Database} {table : LockTable} (t : Thread)
    → is_active t.pc ≡ false
    → ThreadInv r db base table tid t
idle-ThreadInv t h = record {
  picked = λ a. cc;
  locked = λ x a. absurd (not_both (held-active t.pc x a));
  token_of = λ x token e. absurd (not_both (ground arith));
  read_i = λ d. absurd (not_both (held-active t.pc for_i (done-held t.pc for_i d)));
  wrote_j = λ d. absurd (not_both (held-active t.pc for_j (done-held t.pc for_j d)));
  wrote_k = λ d. absurd (not_both (held-active t.pc for_k (done-held t.pc for_k d)));
  kept = λ a. absurd (not_both a);
}
  where
    not_both : is_active t.pc ≡ true → ⊥
    not_both a = cc

pub inactive-writes : (t : Thread) (x : ℕ) → is_active t.pc ≡ false → writes t x ≡ false
inactive-writes t x h = let dj = inactive_done for_j in let dk = inactive_done for_k in rw (dj, dk)
  where
    inactive_done : (y : Phase) → done t.pc y ≡ false
    inactive_done y = elim (Bool-cases (done t.pc y)) [
      | inl d ↦ absurd (clash (held-active t.pc y (done-held t.pc y d)))
      | inr d ↦ d
    ]
      where
        clash : is_active t.pc ≡ true → ⊥
        clash a = cc

-- A record that a worker has written is one that it holds for writing.
module _ {n r : ℕ} {base : Database} {s : System} (tid : ℕ) (t : Thread) (inv : Inv n r base s)
    (w : IsWorker n tid) (inactive : is_active t.pc ≡ false) where
  pub leave-Inv :
      (s' : System) (base' : Database)
      → IsSound n r s'.table
      → Evolves r (Others tid) s.table s'.table
      → IsBase r s'.db
      → IsBase r base'
      → ((x : ℕ)
          → InRecords r x
          → writes (s.threads tid) x ≡ false
          → (value_at base' x ≡ value_at base x) × (value_at s'.db x ≡ value_at s.db x))
      → ((x : ℕ)
          → InRecords r x
          → writes (s.threads tid) x ≡ true
          → value_at s'.db x ≡ value_at base' x)
      → s'.threads ≡ update s.threads tid t
      → Committed n r base' s'
      → Inv n r base' s'
  leave-Inv s' base' sound evolves db' base_ok' unwritten written_ e committed = record {
    table = sound;
    db = db';
    base_ok = base_ok';
    threads = λ b v. rw e (
        at_thread s.threads tid b t (ThreadInv r s'.db base' s'.table b)
          (λ _. idle-ThreadInv t inactive)
          (λ ne.
            ThreadInv-frame (inv.threads b v) evolves (λ q. ne (sym q))
              (λ x d. (apart b v ne x d).0) (λ x d m. (apart b v ne x d).1)));
    clean = λ x i none_writes. elim (Bool-cases (writes (s.threads tid) x)) [
      | inl yes_ ↦ written_ x i yes_
      | inr no_ ↦
          let (same_base, same_db) = unwritten x i no_ in
          let before = inv.clean x i (λ b v. elim (Bool-cases (tid == b)) [
            | inl q ↦ let q' : tid ≡ b = ground arith in rw (← q') no_
            | inr q ↦ rw (e, q) at (none_writes b v)
          ]) in
          same_db ∙ before ∙ sym same_base
    ];
    committed = committed;
  }
    where
      apart :
          (b : ℕ)
          → IsWorker n b
          → tid ≢ b
          → (x : Phase) → done (s.threads b).pc x ≡ true
          → (value_at base' (index_of x (s.threads b).picks)
              ≡ value_at base (index_of x (s.threads b).picks))
            × (value_at s'.db (index_of x (s.threads b).picks)
                ≡ value_at s.db (index_of x (s.threads b).picks))
      apart b v ne x d =
          let h = done-held (s.threads b).pc x d in
          unwritten (index_of x (s.threads b).picks)
            (index-InRecords r (s.threads b).picks x
              ((inv.threads b v).picked (held-active (s.threads b).pc x h)))
            (held-unwritten b x inv v h tid w (λ q. ne (sym q)))

-- The database after the rollback of a transaction.
abbrev pub restored : Database → Database → Picks → (Phase → Bool) → Database
restored base db p passed =
    if passed for_i
    then (if passed for_j
        then (if passed for_k
            then written p.k (value_at base p.k) (written p.j (value_at base p.j) db)
            else written p.j (value_at base p.j) db)
        else db)
    else db

pub rollback-entries :
    (r : ℕ) (base db : Database) (p : Picks) (passed : Phase → Bool)
    → AreDistinct r p
    → db.num_records ≡ r
    → rollback (entries base p passed) db ≡ some (restored base db p passed)
rollback-entries r base db p passed d size = elim (Bool-cases (passed for_i)) [
  | inr a ↦ rw a (rollback-none db)
  | inl a ↦ elim (Bool-cases (passed for_j)) [
    | inr b ↦ rw (a, b) (rollback-false p.i (value_at base p.i) [] db ∙ rollback-none db)
    | inl b ↦ elim (Bool-cases (passed for_k)) [
      | inr c ↦
          rw (a, b, c)
            (rollback-false p.i (value_at base p.i) (base_entry base p for_j ∷ []) db
              ∙ rollback-true p.j (value_at base p.j) [] db (omega arith)
              ∙ rollback-none (written p.j (value_at base p.j) db))
      | inl c ↦
          rw (a, b, c)
            (rollback-false p.i (value_at base p.i)
                (base_entry base p for_j ∷ base_entry base p for_k ∷ []) db
              ∙ rollback-true p.j (value_at base p.j) (base_entry base p for_k ∷ []) db
                  (omega arith)
              ∙ rollback-true p.k (value_at base p.k) [] (written p.j (value_at base p.j) db)
                  (omega arith)
              ∙ rollback-none
                  (written p.k (value_at base p.k) (written p.j (value_at base p.j) db)))
    ]
  ]
]

-- Exactly the records that the worker has written get their old values back.
pub value_at-restored :
    (r x : ℕ) (base : Database) (db : Database) (t : Thread)
    → AreDistinct r t.picks
    → IsBase r db
    → 1 ≤ x
    → IsBase r (restored base db t.picks (done t.pc))
      × (value_at (restored base db t.picks (done t.pc)) x
          ≡ (if writes t x then value_at base x else value_at db x))
value_at-restored r x base db t d ok_ pos = by_pc t.pc
  where
    j : ℕ
    j = t.picks.j

    k : ℕ
    k = t.picks.k

    db1 : Database
    db1 = written j (value_at base j) db

    ok1 : IsBase r db1
    ok1 = record { valid = written-IsValid db j (value_at base j) ok_.valid; sized = ok_.sized }

    db2 : Database
    db2 = written k (value_at base k) db1

    ok2 : IsBase r db2
    ok2 = record { valid = written-IsValid db1 k (value_at base k) ok1.valid; sized = ok_.sized }

    v1 : value_at db1 x ≡ (if j == x then value_at base j else value_at db x)
    v1 = value_at-written db j x (value_at base j) ok_.valid (omega (arith, ok_.sized)) pos

    v2 : value_at db2 x ≡ (if k == x then value_at base k else value_at db1 x)
    v2 = value_at-written db1 k x (value_at base k) ok1.valid (omega (arith, ok_.sized)) pos

    same_j : (j == x) ≡ true → value_at base j ≡ value_at base x
    same_j e = let q : j ≡ x = ground arith in rw q

    same_k : (k == x) ≡ true → value_at base k ≡ value_at base x
    same_k e = let q : k ≡ x = ground arith in rw q

    w1 : value_at db1 x ≡ (if (j == x) then value_at base x else value_at db x)
    w1 = elim (Bool-cases (j == x)) [ inl e ↦ v1 ∙ rw e (same_j e) | inr e ↦ v1 ∙ rw e ]

    w2 : value_at db2 x ≡ (if (j == x) || (k == x) then value_at base x else value_at db x)
    w2 = elim (Bool-cases (k == x)) [
      | inl e ↦ elim (Bool-cases (j == x)) [
        | inl f ↦ v2 ∙ rw (e, f) (same_k e)
        | inr f ↦ v2 ∙ rw (e, f) (same_k e)
      ]
      | inr e ↦ elim (Bool-cases (j == x)) [
        | inl f ↦ v2 ∙ rw (e, f) (w1 ∙ rw f)
        | inr f ↦ v2 ∙ rw (e, f) (w1 ∙ rw f)
      ]
    ]

    by_phase :
        (y : Phase)
        → IsBase r (restored base db t.picks (λ z. comes_before z y))
          × (value_at (restored base db t.picks (λ z. comes_before z y)) x ≡ (
              if (comes_before for_j y && j == x) || (comes_before for_k y && k == x)
              then value_at base x
              else value_at db x))
    by_phase for_i = (ok_, refl)
    by_phase for_j = (ok_, refl)
    by_phase for_k = (ok1, elim (Bool-cases (j == x)) [ inl e ↦ w1 ∙ rw e | inr e ↦ w1 ∙ rw e ])

    by_pc :
        (pc : Pc)
        → IsBase r (restored base db t.picks (done pc))
          × (value_at (restored base db t.picks (done pc)) x ≡ (
              if (done pc for_j && j == x) || (done pc for_k && k == x)
              then value_at base x
              else value_at db x))
    by_pc idle = (ok_, refl)
    by_pc (locking y) = by_phase y
    by_pc (waiting y token) = by_phase y
    by_pc (working y) = by_phase y
    by_pc committing = (ok2, w2)
    by_pc terminated = (ok_, refl)
