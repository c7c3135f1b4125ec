-- ===== src/Project3/Workers.antt =====
-- The life of the workers: project3/src/worker.cpp and `main` of project3/src/main.cpp, one access of
-- a shared member at a time. The work itself, Snapshot::update, is one step here.
use ite.Base.{
  ℕ, zero, suc, ◌+◌, ◌%◌, ◌^◌, Bool, true, false, Option, none, some, List, [], ◌∷◌, ◌==◌,
  if◌then◌else◌, ltb, change,
}
pub mod Barrier
pub mod Runs
mod Tests

pub data Pc : Type 0 where
  not_created : Pc
  entered : Pc  -- in `entryPoint`, before the store of 1
  spinning : Pc
  checking : Pc  -- the test of the loop in `doWork`
  updating : Pc
  ended : Pc

-- `WorkerThread`; its counter is a u_int64_t.
pub record Worker : Type 0 where
  pub pc : Pc
  pub thread_status : ℕ
  pub num_executions : ℕ

-- Where `main` stands in its loops; in a constructor, in `terminate`, or between the calls.
pub data MainPc : Type 0 where
  creating : ℕ → MainPc
  constructing : ℕ → MainPc
  starting : ℕ → MainPc
  sleeping : MainPc
  stopping : ℕ → MainPc
  joining : ℕ → MainPc
  finished : MainPc

pub record Program : Type 0 where
  pub main_pc : MainPc
  pub workers : ℕ → Worker
  pub num_updates : ℕ

unfoldable pub new_program : Program
new_program = record {
  main_pc = creating 0;
  workers = λ _. record { pc = not_created; thread_status = 0; num_executions = 0 };
  num_updates = 0;
}

-- `entryPoint` and `doWork`, each up to its next access of `threadStatus`.
unfoldable pub worker_step : Pc → Worker → Worker
worker_step not_created w = w
worker_step entered w = record w { thread_status = 1; pc = spinning }
worker_step spinning w = record w { pc = if w.thread_status == 1 then spinning else checking }
worker_step checking w = record w { pc = if w.thread_status == 2 then updating else ended }
worker_step updating w = record w {
  pc = checking;
  num_executions = (w.num_executions + 1) % 2 ^ 64;
}
worker_step ended w = w

-- The constructor, until the thread runs.
unfoldable pub construct : ℕ → Program → Program
construct i s = record s {
  workers = change s.workers i (record { pc = entered; thread_status = 0; num_executions = 0 });
  main_pc = constructing i;
}

-- The calls of `work` and the first half of `terminate`.
unfoldable pub set_status : ℕ → ℕ → MainPc → Program → Program
set_status i status next s = record s {
  workers = change s.workers i (record (s.workers i) { thread_status = status });
  main_pc = next;
}

-- The end of `terminate`, once the thread can be joined.
unfoldable pub join : ℕ → Program → Program
join i s = elim (s.workers i).pc [
  | ended ↦ record s {
    num_updates = (s.num_updates + (s.workers i).num_executions) % 2 ^ 64;
    main_pc = stopping (i + 1);
  }
  | _ ↦ s
]

-- The next step of `main`, with n workers.
unfoldable pub main_step : ℕ → MainPc → Program → Program
unfolding construct set_status join
main_step n (creating i) s = if ltb i n then construct i s else record s { main_pc = starting 0 }
main_step n (constructing i) s =
    if (s.workers i).thread_status == 0 then s else record s { main_pc = creating (i + 1) }
main_step n (starting i) s =
    if ltb i n then set_status i 2 (starting (i + 1)) s else record s { main_pc = sleeping }
main_step n sleeping s = record s { main_pc = stopping 0 }
main_step n (stopping i) s =
    if ltb i n then set_status i 3 (joining i) s else record s { main_pc = finished }
main_step n (joining i) s = join i s
main_step n finished s = s

-- A step of `main`, or of a worker.
unfoldable pub step : ℕ → Option ℕ → Program → Program
unfolding main_step worker_step
step n none s = main_step n s.main_pc s
step n (some t) s = record s {
  workers = change s.workers t (worker_step (s.workers t).pc (s.workers t));
}

unfoldable pub run : ℕ → List (Option ℕ) → Program → Program
unfolding step
run n [] s = s
run n (who ∷ rest) s = run n rest (step n who s)
