-- ===== src/Lab11/LockFree/Tests.antt =====
-- Runs of lab11/lockfree.cpp by evaluation, with the theorems at the states that they come to.
use ite.Base.{
  ℕ, suc, ◌≡◌, refl, Bool, true, false, Option, none, some, List, [], ◌∷◌, ◌++◌, arith, replicate,
}
use mathlib.Core.List.{foldl}
use ite.Lab11.CoarseList.{Work, add, remove, contains}
use ite.Lab11.LockFree.{
  System, new_system, step, list_init, InKeys, Reach, start, later, remove_cas, returned,
}
use ite.Lab11.LockFree.Order.{IsList}
use ite.Lab11.LockFree.Local.{Effect}
use ite.Lab11.LockFree.Runs.{Taken, Reach-Inv, step_lem, step-IsList}
use ite.Lab11.LockFree.Results.{step-Effect, Answered, answer_lem}

record Run : Type 0 where
  last : System
  reach : Reach last

record Turn : Type 0 where
  thread : ℕ
  work : Work
  node : ℕ
  keys : InKeys work.value

-- A turn with an address in use, or that is not taken, is left out.
advance :
    (run : Run) (t : Turn) (b : Bool) (o : Option System)
    → run.last.memory.allocated (suc t.node) ≡ b
    → step t.thread t.work (suc t.node) run.last ≡ o
    → Run
advance run t true o e q = run
advance run t false none e q = run
advance run t false (some s) e q = record {
  last = s;
  reach = later t.thread t.work (suc t.node) run.reach t.keys (e, omega arith) q;
}

turn : Run → Turn → Run
unfolding advance
turn run t =
    advance run t (run.last.memory.allocated (suc t.node))
      (step t.thread t.work (suc t.node) run.last) refl refl

runs : List Turn → Run
unfolding turn
runs ts = foldl turn (record { last = new_system; reach = start }) ts

-- Threads 0 and 1 work on key 5.
abbrev adding5 : ℕ → ℕ → Turn
adding5 t node = record {
  thread = t;
  work = record { type = add; value = 5 };
  node = node;
  keys = omega arith;
}

abbrev removing5 : ℕ → Turn
removing5 t = record {
  thread = t;
  work = record { type = remove; value = 5 };
  node = 20;
  keys = omega arith;
}

abbrev asking5 : ℕ → Turn
asking5 t = record {
  thread = t;
  work = record { type = contains; value = 5 };
  node = 20;
  keys = omega arith;
}

-- Thread 0 adds the key; thread 1 then comes to it, and is about to mark its node.
abbrev before_mark : Run
before_mark = runs (adding5 0 9 ∷ (replicate 3 (adding5 0 20) ++ replicate 4 (removing5 1)))

abbrev after_remove : Run
after_remove = runs (adding5 0 9 ∷ (replicate 3 (adding5 0 20) ++ replicate 9 (removing5 1)))

is_added_first : before_mark.last.threads 0 ≡ returned add 5 true
unfolding runs step new_system list_init
is_added_first = refl

is_about_to_mark : before_mark.last.threads 1 ≡ remove_cas 5 10 2
unfolding runs step new_system list_init
is_about_to_mark = refl

is_removed : after_remove.last.threads 1 ≡ returned remove 5 false
unfolding runs step new_system list_init
is_removed = refl

-- Thread 2 asks for the key, and comes to its node after thread 1 has marked it.
abbrev after_asking : Run
after_asking = runs (
    adding5 0 9
    ∷ (replicate 3 (adding5 0 20)
        ++ (asking5 2 ∷ asking5 2 ∷ (replicate 5 (removing5 1) ++ (asking5 2 ∷ [])))))

is_denied : after_asking.last.threads 2 ≡ returned contains 5 false
unfolding runs step new_system list_init
is_denied = refl

step-IsList_example :
    (s' : System) × (step 1 (record { type = add; value = 7 }) 30 before_mark.last ≡ some s')
    × IsList s'.memory
unfolding runs step new_system list_init
step-IsList_example =
    step-IsList 1 (record { type = add; value = 7 }) 30 before_mark.reach (omega arith)
      (refl, omega arith)

-- The next step of thread 1, which sets the mark.
marking :
    (s' : System) × (step 1 (record { type = remove; value = 5 }) 30 before_mark.last ≡ some s')
    × Taken 1 before_mark.last s'
unfolding runs step new_system list_init
marking =
    step_lem before_mark.last 1 (record { type = remove; value = 5 }) 30
      (Reach-Inv before_mark.reach) (omega arith) (refl, omega arith)

step-Effect_example :
    Effect before_mark.last.memory marking.0.memory
      (before_mark.last.threads 1)
      (marking.0.threads 1)
unfolding runs step new_system list_init
step-Effect_example =
    step-Effect 1 (record { type = remove; value = 5 }) 30 before_mark.reach (omega arith)
      (refl, omega arith) marking.1

answer_lem_example : Answered 0 before_mark.reach add 5 true
unfolding runs step new_system list_init
answer_lem_example = answer_lem 0 before_mark.reach add 5 true refl
