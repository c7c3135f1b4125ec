-- ===== src/Lab03/Tests.antt =====
-- Numbers and a range for lab03/prime_mt.cpp.
use ite.Base.{◌≡◌, ◌↔◌, ◌≤◌, refl, true, false, sum_over, ◌+◌, ◌-◌}
use ite.Lab03.Primes.{is_prime, try_divisors, IsProduct, is_prime_lem}
use ite.Lab03.Count.{count_primes, thread_func, count_range, prime_at, count_range_lem}

is_prime_97 : is_prime 97 ≡ true
unfolding is_prime try_divisors
is_prime_97 = refl

is_prime_91 : is_prime 91 ≡ false
unfolding is_prime try_divisors
is_prime_91 = refl

primes_to_30 : count_range 2 30 ≡ 10
unfolding count_range thread_func count_primes is_prime try_divisors
primes_to_30 = refl

is_prime_lem_example : (is_prime 91 ≡ true) ↔ ((2 ≤ 91) × ¬ IsProduct 91)
is_prime_lem_example = is_prime_lem 91

count_range_lem_example : count_range 2 30 ≡ sum_over (30 + 1 - 2) (λ k. prime_at (2 + k))
count_range_lem_example = count_range_lem 2 30
