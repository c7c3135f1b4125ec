-- ===== src/Lab04/CondStep1/Results.antt =====
-- What lab04/prime_cond_step1.cpp prints for its ranges.
use ite.Base.{List, [], ◌∷◌}
use ite.Lab04.CondStep1.{Turn, of_main, of_thread, spurious}

-- No wait ends but by a broadcast.
abbrev pub AreSignalled : List Turn → Type 0
AreSignalled [] = Unit
AreSignalled (of_main ∷ rest) = AreSignalled rest
AreSignalled (of_thread t ∷ rest) = AreSignalled rest
AreSignalled (spurious t ∷ rest) = ⊥
