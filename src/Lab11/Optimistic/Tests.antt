-- ===== src/Lab11/Optimistic/Tests.antt =====
-- Runs of lab11/optimistic.cpp by evaluation, with the theorems at the states that they come to.
use ite.Base.{
  Has, ℕ, suc, ◌≡◌, refl, Bool, true, false, Option, none, some, List, [], ◌∷◌, ◌++◌, arith,
  replicate,
}
use mathlib.Core.List.{foldl}
use ite.Lab11.CoarseList.{Work, WorkType, add, remove, contains}
use ite.Lab11.History.{Event, InKeys, IsSequential, Represents}
use ite.Lab11.Optimistic.{
  System, new_system, step, list_init, Reach, start, later, locking_prev, removing, returned, acts,
}
use ite.Lab11.Optimistic.Shared.{Keys, IsList}
use ite.Lab11.Optimistic.Results.{optimistic_linearizable, optimistic_step_safe}

record Run : Type 0 where
  last : System
  reach : Reach last

record Turn : Type 0 where
  thread : ℕ
  work : Work
  node : ℕ
  keys : InKeys work.value

-- A turn with an address in use, or that is not taken, is left out.
advance :
    (run : Run) (t : Turn) (b : Bool) (o : Option System)
    → run.last.memory.allocated (suc t.node) ≡ b
    → step t.thread t.work (suc t.node) run.last ≡ o
    → Run
advance run t true o e q = run
advance run t false none e q = run
advance run t false (some s) e q = record {
  last = s;
  reach = later t.thread t.work (suc t.node) run.reach t.keys (e, omega arith) q;
}

turn : Run → Turn → Run
unfolding advance
turn run t =
    advance run t (run.last.memory.allocated (suc t.node))
      (step t.thread t.work (suc t.node) run.last) refl refl

runs : List Turn → Run
unfolding turn
runs ts = foldl turn (record { last = new_system; reach = start }) ts

-- The threads work on key 5.
abbrev adding5 : ℕ → ℕ → Turn
adding5 t node = record {
  thread = t;
  work = record { type = add; value = 5 };
  node = node;
  keys = omega arith;
}

abbrev removing5 : ℕ → Turn
removing5 t = record {
  thread = t;
  work = record { type = remove; value = 5 };
  node = 20;
  keys = omega arith;
}

abbrev asking5 : ℕ → Turn
asking5 t = record {
  thread = t;
  work = record { type = contains; value = 5 };
  node = 20;
  keys = omega arith;
}

abbrev in_race : Run
in_race = runs (adding5 0 9 ∷ (replicate 9 (adding5 0 20) ++ replicate 3 (removing5 1)))

-- Thread 1 finds the node that thread 0 has added, but thread 2 takes it out before thread 1 locks it.
abbrev raced : Run
raced = runs (
    adding5 0 9
    ∷ (replicate 9 (adding5 0 20)
        ++ (replicate 3 (removing5 1)
            ++ (replicate 10 (removing5 2) ++ replicate 13 (removing5 1)))))

is_searched : in_race.last.threads 1 ≡ locking_prev removing 5 1 10
unfolding runs step new_system list_init
is_searched = refl

abbrev answered : ℕ → ℕ → WorkType → ℕ → Bool → Event
answered t c type key result = record {
  thread = t;
  call = c;
  type = type;
  key = key;
  result = result;
}

history_raced :
    raced.last.history
    ≡ answered 1 1 remove 5 false ∷ answered 2 1 remove 5 true ∷ answered 0 1 add 5 true ∷ []
unfolding runs step acts new_system list_init
history_raced = refl

optimistic_linearizable_example :
    IsSequential raced.last.history
    × Represents (Keys raced.last.memory) raced.last.history
    × ((t : ℕ) (type : WorkType) (k : ℕ) (result : Bool)
        → raced.last.threads t ≡ returned type k result
        → Has (answered t (raced.last.calls t) type k result) raced.last.history)
optimistic_linearizable_example = optimistic_linearizable raced.reach

optimistic_step_safe_example :
    (s' : System) × (step 1 (record { type = remove; value = 5 }) 30 in_race.last ≡ some s')
    × IsList s'.memory
unfolding runs step new_system list_init
optimistic_step_safe_example =
    optimistic_step_safe 1 (record { type = remove; value = 5 }) 30 in_race.reach (omega arith)
      (refl, omega arith)
