-- ===== src/Lab04/CondStep1.antt =====
-- lab04/prime_cond_step1.cpp: threads that live for all ranges. A step is one access of shared state;
-- a thread computes its share in one step, since `main` does not touch the range until all results
-- are in. A wait ends by a broadcast, or by itself, as POSIX allows for pthread_cond_wait. A thread whose
-- wait has ended by itself may run while `main` changes the range, which the one step for its share
-- does not show.
use ite.Base.{
  ℕ, zero, suc, ◌+◌, Bool, true, false, List, [], ◌∷◌, ◌++◌, ◌==◌, if◌then◌else◌, ltb, change,
}
use ite.Lab03.Count.{thread_func}
pub mod Invariant
pub mod Results
pub mod Rounds
mod Tests

-- `thread_ret[tid]`: -1, -2, or a number of primes.
pub data ThreadRet : Type 0 where
  pending : ThreadRet
  release : ThreadRet
  counted : ℕ → ThreadRet

pub data Pc : Type 0 where
  not_created : Pc
  entering : Pc  -- before the store of 0
  before_wait : Pc
  waiting : Pc
  woken : Pc
  exited : Pc

pub data MainPc : Type 0 where
  creating : ℕ → MainPc
  getting_ready : ℕ → MainPc  -- the first WaitWorkers, at thread i
  reading : MainPc
  resetting : ℕ → MainPc
  starting : MainPc  -- DoWork
  spinning : ℕ → MainPc  -- WaitWorkers, at thread i
  collecting : ℕ → ℕ → MainPc  -- at thread i, with the sum so far
  releasing : ℕ → MainPc
  dismissing : MainPc
  joining : ℕ → MainPc
  finished : MainPc

pub record Answer : Type 0 where
  pub first : ℕ
  pub last : ℕ
  pub cnt_prime : ℕ

-- `inputs` are the ranges before the -1.
pub record System : Type 0 where
  pub main_pc : MainPc
  pub threads : ℕ → Pc
  pub thread_ret : ℕ → ThreadRet
  pub range_start : ℕ
  pub range_end : ℕ
  pub inputs : List (ℕ × ℕ)
  pub printed : List Answer

abbrev pub num_thread : ℕ
num_thread = 10

unfoldable pub new_system : List (ℕ × ℕ) → System
new_system inputs = record {
  main_pc = creating 0;
  threads = λ _. not_created;
  thread_ret = λ _. counted 0;
  range_start = 0;
  range_end = 0;
  inputs = inputs;
  printed = [];
}

abbrev pub set_pc : ℕ → Pc → System → System
set_pc t pc s = record s { threads = change s.threads t pc }

abbrev pub set_ret : ℕ → ThreadRet → System → System
set_ret t ret s = record s { thread_ret = change s.thread_ret t ret }

-- After the wait: the test for the release, or the share of the range and its result.
unfoldable pub work : ℕ → ThreadRet → System → System
work t release s = set_pc t exited s
work t pending s =
    set_pc t before_wait (set_ret t (counted (thread_func s.range_start s.range_end t)) s)
work t (counted n) s =
    set_pc t before_wait (set_ret t (counted (thread_func s.range_start s.range_end t)) s)

-- `ThreadFunc`
unfoldable pub thread_step : ℕ → Pc → System → System
unfolding work
thread_step t not_created s = s
thread_step t entering s = set_pc t before_wait (set_ret t (counted 0) s)
thread_step t before_wait s = set_pc t waiting s
thread_step t waiting s = s
thread_step t woken s = work t (s.thread_ret t) s
thread_step t exited s = s

abbrev pub wake : Pc → Pc
wake waiting = woken
wake not_created = not_created
wake entering = entering
wake before_wait = before_wait
wake woken = woken
wake exited = exited

-- `pthread_cond_broadcast`: those that wait are woken, and nobody else hears of it.
abbrev pub broadcast : System → System
broadcast s = record s { threads = λ t. wake (s.threads t) }

abbrev pub go_to : MainPc → System → System
go_to m s = record s { main_pc = m }

-- One test of the loop of WaitWorkers, which starts again at a thread with -1.
unfoldable pub check_ret : ThreadRet → MainPc → MainPc → System → System
check_ret pending again next s = go_to again s
check_ret release again next s = go_to next s
check_ret (counted n) again next s = go_to next s

unfoldable pub collect : ThreadRet → ℕ → ℕ → System → System
collect (counted n) i sum s = go_to (collecting (i + 1) (sum + n)) s
collect pending i sum s = s
collect release i sum s = s

unfoldable pub read_range : List (ℕ × ℕ) → System → System
read_range [] s = go_to (releasing 0) s
read_range ((first, last) ∷ rest) s = record s {
  range_start = first;
  range_end = last;
  inputs = rest;
  main_pc = resetting 0;
}

unfoldable pub print : ℕ → System → System
print sum s = record s {
  printed =
      s.printed ++ ((record { first = s.range_start; last = s.range_end; cnt_prime = sum }) ∷ []);
  main_pc = reading;
}

unfoldable pub join : Pc → ℕ → System → System
join exited i s = go_to (joining (i + 1)) s
join not_created i s = s
join entering i s = s
join before_wait i s = s
join waiting i s = s
join woken i s = s

-- `main` with the functions that it calls.
unfoldable pub main_step : MainPc → System → System
unfolding check_ret collect read_range print join
main_step (creating i) s =
    if ltb i num_thread
    then go_to (creating (i + 1)) (set_pc i entering s)
    else go_to (getting_ready 0) s
main_step (getting_ready i) s =
    if ltb i num_thread
    then check_ret (s.thread_ret i) (getting_ready 0) (getting_ready (i + 1)) s
    else go_to reading s
main_step reading s = read_range s.inputs s
main_step (resetting i) s =
    if ltb i num_thread then go_to (resetting (i + 1)) (set_ret i pending s) else go_to starting s
main_step starting s = go_to (spinning 0) (broadcast s)
main_step (spinning i) s =
    if ltb i num_thread
    then check_ret (s.thread_ret i) (spinning 0) (spinning (i + 1)) s
    else go_to (collecting 0 0) s
main_step (collecting i sum) s =
    if ltb i num_thread then collect (s.thread_ret i) i sum s else print sum s
main_step (releasing i) s =
    if ltb i num_thread then go_to (releasing (i + 1)) (set_ret i release s) else go_to dismissing s
main_step dismissing s = go_to (joining 0) (broadcast s)
main_step (joining i) s = if ltb i num_thread then join (s.threads i) i s else go_to finished s
main_step finished s = s

-- Who moves next: `main`, a thread, or a thread whose wait ends without a broadcast.
pub data Turn : Type 0 where
  of_main : Turn
  of_thread : ℕ → Turn
  spurious : ℕ → Turn

unfoldable pub step : Turn → System → System
unfolding thread_step main_step
step of_main s = main_step s.main_pc s
step (of_thread t) s = thread_step t (s.threads t) s
step (spurious t) s = set_pc t (wake (s.threads t)) s

unfoldable pub run : List Turn → System → System
unfolding step
run [] s = s
run (who ∷ rest) s = run rest (step who s)
