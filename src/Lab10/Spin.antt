-- ===== src/Lab10/Spin.antt =====
-- lab10/prac_taslock.cpp and lab10/prac_ttaslock.cpp: threads that take a lock by an atomic
-- test-and-set, add one to a counter, and give the lock back. Memory is sequentially consistent.
use ite.Base.{ℕ, ◌+◌, ◌%◌, ◌^◌, ◌==◌, if◌then◌else◌, ltb, change}

-- Where a thread stands; `storing` has the value of the counter that it has loaded.
pub data Pc : Type 0 where
  spinning : Pc  -- the inner loop of the second lock
  trying : Pc  -- before the test-and-set
  loading : Pc
  storing : (loaded : ℕ) → Pc
  unlocking : Pc
  finished : Pc

-- `i` is the variable of the loop in `thread_work`.
pub record Thread : Type 0 where
  pub pc : Pc
  pub i : ℕ

-- `object` is `object_tas` or `object_ttas`; `cnt_global` is an int.
pub record System : Type 0 where
  pub object : ℕ
  pub cnt_global : ℕ
  pub threads : ℕ → Thread

abbrev pub set_pc : System → ℕ → Pc → System
set_pc s t pc = record s { threads = change s.threads t (record (s.threads t) { pc = pc }) }

-- The start of a round of `thread_work`, if there is one left.
abbrev pub next_round : Pc → ℕ → ℕ → Thread
next_round entry num_work i = record { pc = if ltb i num_work then entry else finished; i = i }

-- `init`: nobody has begun. `entry` is where `lock` begins.
unfoldable pub init : Pc → ℕ → System
init entry num_work = record {
  object = 0;
  cnt_global = 0;
  threads = λ _. next_round entry num_work 0;
}

-- `__sync_lock_test_and_set(lock_object, 1)`, and where the thread goes on either answer.
unfoldable pub test_and_set : Pc → ℕ → System → System
test_and_set again t s =
    set_pc (record s { object = 1 }) t (if s.object == 1 then again else loading)

-- `cnt_global++` in two accesses, and `unlock`, with the end of the round.
unfoldable pub load_counter : ℕ → System → System
load_counter t s = set_pc s t (storing s.cnt_global)

unfoldable pub store_counter : ℕ → ℕ → System → System
store_counter loaded t s = set_pc (record s { cnt_global = (loaded + 1) % 2 ^ 32 }) t unlocking

unfoldable pub unlock : Pc → ℕ → ℕ → System → System
unlock entry num_work t s =
    let i = (s.threads t).i + 1 in
    record s { object = 0; threads = change s.threads t (next_round entry num_work i) }

abbrev pub tas_dispatch : Pc → ℕ → ℕ → System → System
tas_dispatch spinning num_work t s = s
tas_dispatch trying num_work t s = test_and_set trying t s
tas_dispatch loading num_work t s = load_counter t s
tas_dispatch (storing loaded) num_work t s = store_counter loaded t s
tas_dispatch unlocking num_work t s = unlock trying num_work t s
tas_dispatch finished num_work t s = s

-- One step of thread `t` of prac_taslock.cpp.
unfoldable pub tas_step : ℕ → ℕ → System → System
unfolding test_and_set load_counter store_counter unlock
tas_step num_work t s = tas_dispatch (s.threads t).pc num_work t s

-- The inner loop of the second `lock`: it only reads.
unfoldable pub spin : ℕ → System → System
spin t s = if s.object == 1 then s else set_pc s t trying

abbrev pub ttas_dispatch : Pc → ℕ → ℕ → System → System
ttas_dispatch spinning num_work t s = spin t s
ttas_dispatch trying num_work t s = test_and_set spinning t s
ttas_dispatch loading num_work t s = load_counter t s
ttas_dispatch (storing loaded) num_work t s = store_counter loaded t s
ttas_dispatch unlocking num_work t s = unlock spinning num_work t s
ttas_dispatch finished num_work t s = s

-- One step of thread `t` of prac_ttaslock.cpp; `object` is 0 or 1, so a test for 0 is one for not 1.
unfoldable pub ttas_step : ℕ → ℕ → System → System
unfolding spin test_and_set load_counter store_counter unlock
ttas_step num_work t s = ttas_dispatch (s.threads t).pc num_work t s
