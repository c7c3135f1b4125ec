-- ===== src/Lab04/CondStep1/Tests.antt =====
-- Runs of lab04/prime_cond_step1.cpp for the range from 2 to 30, which has 10 primes.
use ite.Base.{ℕ, zero, suc, ◌≡◌, refl, List, [], ◌∷◌, ◌++◌, replicate}
use ite.Lab03.Primes.{is_prime, try_divisors}
use ite.Lab03.Count.{thread_func, count_primes}
use ite.Lab04.CondStep1.{
  counted, waiting, reading, System, new_system, work, thread_step, check_ret, collect, read_range,
  print, join, main_step, Turn, of_main, of_thread, step, run,
}

abbrev range : List (ℕ × ℕ)
range = (2, 30) ∷ []

-- All threads wait.
abbrev settled : System
settled = record {
  main_pc = reading;
  threads = λ _. waiting;
  thread_ret = λ _. counted 0;
  range_start = 0;
  range_end = 0;
  inputs = range;
  printed = [];
}

-- A step of each thread from 0 on.
abbrev threads_to : ℕ → List Turn
threads_to zero = []
threads_to (suc n) = threads_to n ++ (of_thread n ∷ [])

abbrev main_steps : ℕ → List Turn
main_steps n = replicate n of_main

abbrev one_round : List Turn
one_round = main_steps 13 ++ (threads_to 10 ++ main_steps 22)

-- The last thread stores its first 0 only after `main` has reset the results.
abbrev slow_start : List Turn
slow_start =
    main_steps 11
    ++ (threads_to 9
        ++ (main_steps 11
            ++ (threads_to 9
                ++ (main_steps 13 ++ (of_thread 9 ∷ (threads_to 9 ++ main_steps 22))))))

round_counts_ten :
    (run one_round settled).printed ≡ (record { first = 2; last = 30; cnt_prime = 10 }) ∷ []
unfolding run step thread_step work main_step check_ret collect read_range print join thread_func
    count_primes is_prime try_divisors
round_counts_ten = refl

-- The count of the last thread is lost: `main` takes the late 0 for its result.
slow_start_counts_eight :
    (run slow_start (new_system range)).printed
    ≡ (record { first = 2; last = 30; cnt_prime = 8 }) ∷ []
unfolding run step thread_step work main_step check_ret collect read_range print join thread_func
    count_primes is_prime try_divisors new_system
slow_start_counts_eight = refl
