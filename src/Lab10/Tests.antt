-- ===== src/Lab10/Tests.antt =====
-- Runs of the locks of lab10/prac_taslock.cpp and lab10/prac_ttaslock.cpp.
use ite.Base.{arith, ℕ, ◌≡◌, ◌%◌, ◌^◌, refl, List, [], ◌∷◌, true, sum_over}
use ite.Lab10.Spin.{
  init, trying, spinning, tas_step, test_and_set, load_counter, store_counter, unlock,
}
use ite.Lab10.Exclusion.{critical, increments}
use ite.Lab10.Safety.{tas_run, ttas_run, AreBelow, tas_run-IsExclusive, ttas_run-IsExclusive}

-- Two threads, one round each; the second tries while the first is inside.
abbrev race : List ℕ
race = 0 ∷ 1 ∷ 0 ∷ 1 ∷ 0 ∷ 1 ∷ 0 ∷ 1 ∷ 1 ∷ 1 ∷ 1 ∷ 1 ∷ []

abbrev race-AreBelow : AreBelow 2 race
race-AreBelow = ground arith

race_counts_two : (tas_run 1 race (init trying 1)).cnt_global ≡ 2
unfolding init tas_step test_and_set load_counter store_counter unlock
race_counts_two = refl

tas_run-IsExclusive_example :
    let s = tas_run 1 race (init trying 1) in
    ((a b : ℕ) → critical (s.threads a).pc ≡ true → critical (s.threads b).pc ≡ true → a ≡ b)
    × (s.cnt_global ≡ sum_over 2 (λ a. increments (s.threads a)) % 2 ^ 32)
tas_run-IsExclusive_example = tas_run-IsExclusive 2 1 race race-AreBelow

ttas_run-IsExclusive_example :
    let s = ttas_run 1 race (init spinning 1) in
    ((a b : ℕ) → critical (s.threads a).pc ≡ true → critical (s.threads b).pc ≡ true → a ≡ b)
    × (s.cnt_global ≡ sum_over 2 (λ a. increments (s.threads a)) % 2 ^ 32)
ttas_run-IsExclusive_example = ttas_run-IsExclusive 2 1 race race-AreBelow
