-- ===== src/Project2/Worker/Rollback.antt =====
-- Reading, updating and undoing on a valid database: WorkerThread::readRecord, updateRecord and
-- rollback of project2/src/worker.cpp.
use ite.Base.{
  ℕ, ◌≡◌, ◌≢◌, refl, Bool, true, false, some, List, [], ◌∷◌, ◌++◌, ◌==◌, arith, inl, inr, Has,
}
use ite.Project2.Database.{Database}
use ite.Project2.Database.Access.{IsValid, InRange, value_at, written, get_lem, set_record_lem}
use ite.Project2.Worker.{
  RecordWithFlag, read_record, mark_updated, update_record, rollback, read_and_update,
}

-- What a transaction keeps of record `x` when it reads the value `v`.
abbrev pub entry : ℕ → ℕ → Bool → RecordWithFlag
entry x v updated = record { kept = record { index = x; value = v }; is_updated = updated }

pub read_record_lem :
    (x : ℕ) (db : Database) (records : List RecordWithFlag)
    → IsValid db
    → InRange db x
    → read_record x db records
      ≡ some (
        record { index = x; value = value_at db x },
        records ++ (entry x (value_at db x) false ∷ []),
      )
unfolding read_record
read_record_lem x db records v i = rw (get_lem db x v i, read_record)

abbrev pub NotKept : ℕ → List RecordWithFlag → Type 0
NotKept x records = (r : RecordWithFlag) → Has r records → r.kept.index ≢ x

mark_updated-last :
    (x v : ℕ) (records : List RecordWithFlag)
    → NotKept x records
    → mark_updated x (records ++ (entry x v false ∷ [])) ≡ some (records ++ (entry x v true ∷ []))
unfolding mark_updated
mark_updated-last x v [] out = ground arith
mark_updated-last x v (r ∷ rs) out =
    let other : (r.kept.index == x) ≡ false = ground (arith, out r (inl refl)) in
    rw (other, mark_updated-last x v rs (λ e h. out e (inr h)))

update_record_lem :
    (x v new : ℕ) (db : Database) (records : List RecordWithFlag)
    → InRange db x
    → NotKept x records
    → update_record x new db (records ++ (entry x v false ∷ []))
      ≡ some (written x new db, records ++ (entry x v true ∷ []))
unfolding update_record
update_record_lem x v new db records i out =
    rw (mark_updated-last x v records out, update_record, set_record_lem db x new i)

-- Read, compute, write: the entry keeps the old value and is marked, and the record has the new one.
pub read_and_update_lem :
    (change : ℕ → ℕ) (x : ℕ) (db : Database) (records : List RecordWithFlag)
    → IsValid db
    → InRange db x
    → NotKept x records
    → read_and_update change x db records
      ≡ some (
        change (value_at db x),
        written x (change (value_at db x)) db,
        records ++ (entry x (value_at db x) true ∷ []),
      )
unfolding read_and_update
read_and_update_lem change x db records v i out = rw (
  read_record_lem x db records v i,
  read_and_update,
  update_record_lem x (value_at db x) (change (value_at db x)) db records i out,
)

pub rollback-none : (db : Database) → rollback [] db ≡ some db
unfolding rollback
rollback-none db = refl

pub rollback-false :
    (x v : ℕ) (rs : List RecordWithFlag) (db : Database)
    → rollback (entry x v false ∷ rs) db ≡ rollback rs db
unfolding rollback
rollback-false x v rs db = refl

pub rollback-true :
    (x v : ℕ) (rs : List RecordWithFlag) (db : Database)
    → InRange db x
    → rollback (entry x v true ∷ rs) db ≡ rollback rs (written x v db)
unfolding rollback
rollback-true x v rs db i = rw (set_record_lem db x v i)
