-- ===== src/Lab11/CoarseList/Tests.antt =====
-- Runs of lab11/coarse_grained.cpp on a few keys.
use ite.Base.{ℕ, ◌≡◌, ◌<◌, refl, true, false, none, some, List, [], ◌∷◌, ◌++◌, arith, inl, inr, ◌↔◌}
use ite.Lab11.CoarseList.{
  int_max, list_init, list_add, list_remove, list_contains, Work, add, remove, contains, do_work,
  run, is_valid,
}
use ite.Lab11.CoarseList.Refinement.{
  IsList, member, AddsTo, RemovesFrom, list_add_lem, list_remove_lem, list_contains_lem,
}
use ite.Base.{◌+◌, ◌-◌}
use ite.Lab11.CoarseList.Workload.{
  int_zero, skip, read_digits, scan_digits, scan_signed, Locals, scan_work, read_works,
  scan_thread_num, read_rows, read_after_work, read_after_thread, read_workload,
}
use ite.Lab11.CoarseList.Workload.Decimal.{show_digits}
use ite.Lab11.CoarseList.Workload.RoundTrip.{show_workload, read_workload-show_workload}
use ite.Lab11.CoarseList.Runs.{HaveKeys, present_after, run-is_valid}

abbrev works : List Work
works =
    (record { type = add; value = 5 })
    ∷ (record { type = add; value = 3 })
    ∷ (record { type = remove; value = 5 })
    ∷ (record { type = contains; value = 3 })
    ∷ (record { type = add; value = 3 })
    ∷ []

abbrev works-HaveKeys : HaveKeys works
works-HaveKeys = (omega arith, (omega arith, (omega arith, (omega arith, (omega arith, tt)))))

abbrev three-IsList : IsList 0 (3 ∷ int_max ∷ [])
three-IsList = (omega arith, inr (omega arith, (omega arith, inl (refl, refl))))

works_leave_three : run works list_init ≡ some (3 ∷ int_max ∷ [])
unfolding list_init run do_work list_add list_remove list_contains
works_leave_three = refl

-- The key INT_MAX is the tail's: its removal takes the tail away, and the next search leaves the list.
tail_removed : list_remove int_max list_init ≡ some (true, [])
unfolding list_init list_remove
tail_removed = refl

search_leaves_list : list_contains 3 [] ≡ none
unfolding list_contains
search_leaves_list = refl

list_add_lem_example : (ys : List ℕ) × AddsTo 0 5 (3 ∷ int_max ∷ []) ys
list_add_lem_example = list_add_lem 5 0 (3 ∷ int_max ∷ []) (omega arith) (omega arith) three-IsList

list_remove_lem_example : (ys : List ℕ) × RemovesFrom 0 3 (3 ∷ int_max ∷ []) ys
list_remove_lem_example =
    list_remove_lem 3 0 (3 ∷ int_max ∷ []) (omega arith) (omega arith) three-IsList

list_contains_lem_example : list_contains 3 (3 ∷ int_max ∷ []) ≡ some (member 3 (3 ∷ int_max ∷ []))
list_contains_lem_example = list_contains_lem 3 0 (3 ∷ int_max ∷ []) (omega arith) three-IsList

run-is_valid_example :
    (ys : List ℕ) × ((run works list_init ≡ some ys)
      × ((is_valid (3 ∷ []) ys ≡ true) ↔ (
          (k : ℕ)
          → k < int_max
          → member k ((3 ∷ []) ++ int_max ∷ []) ≡ present_after works k false)))
run-is_valid_example = run-is_valid works (3 ∷ []) works-HaveKeys three-IsList

-- Two threads, with a piece of work each.
abbrev two_rows : List (List Work)
two_rows =
    ((record { type = add; value = int_zero + 22328 }) ∷ [])
    ∷ ((record { type = remove; value = int_zero - 7 }) ∷ [])
    ∷ []

abbrev no_locals : Locals
no_locals = record { type = 0; value = 0 }

-- "2 1", "0", "A 22328", "1", "R -7"
shown :
    show_workload 1 two_rows
    ≡ 50 ∷ 32 ∷ 49 ∷ 10 ∷ 48 ∷ 10 ∷ 65 ∷ 32 ∷ 50 ∷ 50 ∷ 51 ∷ 50 ∷ 56 ∷ 10 ∷ 49 ∷ 10 ∷ 82 ∷ 32 ∷ 45
      ∷ 55 ∷ 10 ∷ []
unfolding show_digits
shown = refl

-- "1 2", "0", "A 5", "R x": the value that is not found is the one before.
stale_value :
    read_workload 0 no_locals (49 ∷ 32 ∷ 50 ∷ 10 ∷ 48 ∷ 10 ∷ 65 ∷ 32 ∷ 53 ∷ 10 ∷ 82 ∷ 32 ∷ 120 ∷ [])
    ≡ ((record { type = add; value = int_zero + 5 })
        ∷ (record { type = remove; value = int_zero + 5 })
        ∷ [])
      ∷ []
unfolding read_workload read_after_thread read_after_work read_rows read_works scan_work
    scan_thread_num scan_signed scan_digits read_digits skip
stale_value = refl

read_workload-show_workload_example :
    read_workload 0 no_locals (show_workload 1 two_rows) ≡ two_rows
read_workload-show_workload_example =
    read_workload-show_workload two_rows 0 1 no_locals (refl, (refl, tt))
