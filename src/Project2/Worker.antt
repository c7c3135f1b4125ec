-- ===== src/Project2/Worker.antt =====
-- What a worker remembers of the records that its transaction has read, and its log entries:
-- project2/include/worker.hpp and project2/src/worker.cpp.
pub mod Rollback
use ite.Base.{
  ℕ, zero, suc, ◌+◌, ◌≡◌, Bool, true, false, ◌||◌, Option, none, some, List, [], ◌∷◌, ◌++◌, ◌==◌,
  if◌then◌else◌, length,
}
use ite.Project2.Database.{Record, clone, Database, get, set_record, add64, sub64}

-- `isUpdated` is set once the transaction has written the record; `record` keeps what was read.
pub record RecordWithFlag : Type 0 where
  pub kept : Record
  pub is_updated : Bool

-- One line of a worker's file.
pub record Log : Type 0 where
  pub commit_id : ℕ
  pub i : ℕ
  pub j : ℕ
  pub k : ℕ
  pub vi : ℕ
  pub vj : ℕ
  pub vk : ℕ

-- `none` is the exception of `Database::get`.
unfoldable pub read_record :
    ℕ → Database → List RecordWithFlag → Option (Record × List RecordWithFlag)
unfolding clone
read_record index db records = elim (get index db) [
  | none ↦ none
  | some r ↦ some (clone r, records ++ (record { kept = r; is_updated = false } ∷ []))
]

-- The loop of `updateRecord`: mark the first entry of the record, if there is one.
unfoldable pub mark_updated : ℕ → List RecordWithFlag → Option (List RecordWithFlag)
mark_updated index [] = none
mark_updated index (r ∷ rs) =
    let rest = mark_updated index rs in
    if r.kept.index == index
    then some (record r { is_updated = true } ∷ rs)
    else elim rest [ none ↦ none | some rs' ↦ some (r ∷ rs') ]

abbrev pub written_by :
    Option Database → List RecordWithFlag → Option (Database × List RecordWithFlag)
written_by none records = none
written_by (some db) records = some (db, records)

-- A record that has not been read is read first: its entry is the last one, and is marked.
unfoldable pub update_record :
    ℕ → ℕ → Database → List RecordWithFlag → Option (Database × List RecordWithFlag)
unfolding mark_updated
update_record index value db records = elim (mark_updated index records) [
  | some records' ↦ written_by (set_record index value db) records'
  | none ↦ elim (get index db) [
    | none ↦ none
    | some r ↦
        written_by (set_record index value db)
          (records ++ (record { kept = r; is_updated = true } ∷ []))
  ]
]

unfoldable pub rollback : List RecordWithFlag → Database → Option Database
rollback [] db = some db
rollback (r ∷ rs) db =
    let rest = rollback rs in
    if r.is_updated
    then elim (set_record r.kept.index r.kept.value db) [ none ↦ none | some db' ↦ rest db' ]
    else rest db

-- The middle part of `workTransaction` for record `j` and for record `k`: read it, compute, write.
unfoldable pub read_and_update :
    (ℕ → ℕ) → ℕ → Database → List RecordWithFlag → Option (ℕ × Database × List RecordWithFlag)
read_and_update change index db records = elim (read_record index db records) [
  | none ↦ none
  | some (r, records1) ↦ elim (update_record index (change r.value) db records1) [
    | none ↦ none
    | some (db', records2) ↦ some (change r.value, db', records2)
  ]
]

-- `rj.value += ri.value + 1` and `rk.value -= ri.value`
abbrev pub raise_by : ℕ → ℕ → ℕ
raise_by vi v = add64 v (add64 vi 1)

abbrev pub lower_by : ℕ → ℕ → ℕ
lower_by vi v = sub64 v vi
