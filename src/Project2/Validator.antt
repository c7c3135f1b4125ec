-- ===== src/Project2/Validator.antt =====
-- The check of the workers' files: project2/src/validator.cpp. Each file is the list of the entries
-- that it holds; `std::sort` is an insertion sort by the commit number.
pub mod Sorting
use ite.Base.{
  ℕ, zero, suc, ◌+◌, ◌-◌, ◌≡◌, ◌≤◌, ◌<◌, Bool, true, false, ◌||◌, ◌&&◌, not, Option, none, some,
  List, [], ◌∷◌, ◌++◌, ◌==◌, if◌then◌else◌, ltb, length,
}
use ite.Project2.Database.{Record, add64, sub64, push_records, set_value}
use ite.Project2.Database.Access.{value_in}
use ite.Project2.Worker.{Log}

pub data Verdict : Type 0 where
  succeeded failed : Verdict

unfoldable pub insert_log : Log → List Log → List Log
insert_log a [] = a ∷ []
insert_log a (b ∷ l) = if ltb b.commit_id a.commit_id then b ∷ insert_log a l else a ∷ b ∷ l

unfoldable pub sort_logs : List Log → List Log
unfolding insert_log
sort_logs [] = []
sort_logs (a ∷ l) = insert_log a (sort_logs l)

-- `logs`, as the loop over the files fills it.
unfoldable pub read_files : List (List Log) → List Log
read_files [] = []
read_files (f ∷ fs) = f ++ read_files fs

abbrev pub has_wrong_index : ℕ → Log → Bool
has_wrong_index r a = ltb r a.i || (ltb r a.j || ltb r a.k)

-- The two updates of the records, the second one after the first.
unfoldable pub replay : Log → List Record → List Record
replay a rs =
    let rs1 =
      set_value rs (a.j - 1) (add64 (value_in rs (a.j - 1)) (add64 (value_in rs (a.i - 1)) 1)) in
    set_value rs1 (a.k - 1) (sub64 (value_in rs1 (a.k - 1)) (value_in rs1 (a.i - 1)))

-- One round of the loop: `none` where it goes to VALFAILED.
unfoldable pub check_log : ℕ → ℕ → Log → List Record → Option (List Record)
unfolding replay
check_log r id a rs =
    let rs' = replay a rs in
    if not (a.commit_id == id) || has_wrong_index r a
    then none
    else if a.vj == value_in rs' (a.j - 1) && a.vk == value_in rs' (a.k - 1)
    then some rs'
    else none

unfoldable pub check_logs : ℕ → ℕ → List Log → List Record → Option (List Record)
unfolding check_log
check_logs r id [] rs = some rs
check_logs r id (a ∷ l) rs = elim (check_log r id a rs) [
  | none ↦ none
  | some rs' ↦ check_logs r (id + 1) l rs'
]

unfoldable pub validate : ℕ → ℕ → List (List Log) → Verdict
unfolding sort_logs read_files check_logs push_records
validate r e files =
    let logs = read_files files in
    if not (length logs == e)
    then failed
    else elim (check_logs r 1 (sort_logs logs) (push_records 1 r)) [
      | none ↦ failed
      | some rs ↦ succeeded
    ]
