-- ===== src/Project3/Workers/Tests.antt =====
-- A run of project3/src/main.cpp with one worker that updates once.
use ite.Base.{
  ℕ, ◌≡◌, ◌<◌, ◌%◌, ◌^◌, refl, true, Option, none, some, List, [], ◌∷◌, ◌++◌, arith, sum_over,
}
use ite.Project3.Workers.{
  ended, finished, new_program, worker_step, construct, set_status, join, main_step, step, run,
}
use ite.Project3.Workers.Barrier.{is_working}
use ite.Project3.Workers.Runs.{all_created, run-Barrier, run-num_updates}

abbrev to_work : List (Option ℕ)
to_work = none ∷ some 0 ∷ none ∷ none ∷ none ∷ some 0 ∷ some 0 ∷ []

abbrev whole_run : List (Option ℕ)
whole_run = to_work ++ (some 0 ∷ none ∷ none ∷ none ∷ some 0 ∷ none ∷ none ∷ [])

busy : is_working ((run 1 to_work new_program).workers 0).pc ≡ true
unfolding run step main_step worker_step construct set_status join new_program
busy = refl

one_update : (run 1 whole_run new_program).num_updates ≡ 1
unfolding run step main_step worker_step construct set_status join new_program
one_update = refl

at_end : (run 1 whole_run new_program).main_pc ≡ finished
unfolding run step main_step worker_step construct set_status join new_program
at_end = refl

run-Barrier_example : all_created (run 1 to_work new_program).main_pc ≡ true
run-Barrier_example = run-Barrier 1 to_work 0 (omega arith) busy

run-num_updates_example :
    ((a : ℕ) → a < 1 → ((run 1 whole_run new_program).workers a).pc ≡ ended)
    × ((run 1 whole_run new_program).num_updates
        ≡ sum_over 1 (λ a. ((run 1 whole_run new_program).workers a).num_executions) % 2 ^ 64)
run-num_updates_example = run-num_updates 1 whole_run at_end
