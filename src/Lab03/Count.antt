-- ===== src/Lab03/Count.antt =====
-- `ThreadFunc` and `main` of lab03/prime_mt.cpp: ten threads share a range of numbers that are not
-- negative. A range whose end is before its start is empty.
use ite.Base.{
  ℕ, zero, suc, ◌+◌, ◌-◌, ◌*◌, ◌/◌, ◌≡◌, ◌<◌, refl, Bool, true, false, ◌==◌, if◌then◌else◌, arith,
  ap, ◌∙◌, sum_over, sum_over-same,
}
use native.Mathlib.Nat.{mul-suc}
use ite.Lab03.Primes.{is_prime}

abbrev pub num_thread : ℕ
num_thread = 10

abbrev share : ℕ → ℕ → ℕ
share range_start range_end = (range_end + 1 - range_start) / num_thread

abbrev pub start_of : ℕ → ℕ → ℕ → ℕ
start_of range_start range_end tid = range_start + share range_start range_end * tid

abbrev pub end_of : ℕ → ℕ → ℕ → ℕ
end_of range_start range_end tid =
    if tid == num_thread - 1
    then range_end + 1
    else range_start + share range_start range_end * (tid + 1)

-- The loop from `i` on, for `end - start` rounds.
unfoldable pub count_primes : ℕ → ℕ → ℕ → ℕ
count_primes zero i cnt_prime = cnt_prime
count_primes (suc rounds) i cnt_prime =
    count_primes rounds (i + 1) (if is_prime i then cnt_prime + 1 else cnt_prime)

-- What a thread leaves in `thread_ret[tid]`.
unfoldable pub thread_func : ℕ → ℕ → ℕ → ℕ
thread_func range_start range_end tid =
    let start = start_of range_start range_end tid in
    let end = end_of range_start range_end tid in count_primes (end - start) start 0

-- `main` adds up the results, after all threads have ended.
unfoldable pub count_range : ℕ → ℕ → ℕ
count_range range_start range_end =
    sum_over num_thread (λ tid. thread_func range_start range_end tid)

abbrev pub prime_at : ℕ → ℕ
prime_at n = if is_prime n then 1 else 0

sum_to : (a b : ℕ) (w : ℕ → ℕ) → a ≡ b → sum_over a w ≡ sum_over b w
sum_to a b w e = ap (λ (n : ℕ). sum_over n w) e

sum_over-append :
    (a b : ℕ) (w : ℕ → ℕ) → sum_over (a + b) w ≡ sum_over a w + sum_over b (λ k. w (a + k))
sum_over-append a zero w = omega (arith, sum_to (a + 0) a w (omega arith))
sum_over-append a (suc b) w =
    omega (arith, sum_to (a + suc b) (suc (a + b)) w (omega arith), sum_over-append a b w)

sum_over-front : (r : ℕ) (w : ℕ → ℕ) → w 0 + sum_over r (λ k. w (suc k)) ≡ sum_over (suc r) w
sum_over-front zero w = omega arith
sum_over-front (suc r) w = omega (arith, sum_over-front r w)

count_primes_lem :
    (rounds i cnt : ℕ) → count_primes rounds i cnt ≡ cnt + sum_over rounds (λ k. prime_at (i + k))
unfolding count_primes
count_primes_lem zero i cnt = omega arith
count_primes_lem (suc rounds) i cnt =
    count_primes_lem rounds (i + 1) (if is_prime i then cnt + 1 else cnt)
    ∙ joined (if is_prime i then cnt + 1 else cnt) (first (is_prime i))
  where
    first : (b : Bool) → (if b then cnt + 1 else cnt) ≡ cnt + (if b then 1 else 0)
    first true = refl
    first false = omega arith

    shifted :
        sum_over rounds (λ k. prime_at (i + 1 + k)) ≡ sum_over rounds (λ k. prime_at (i + suc k))
    shifted =
        sum_over-same rounds (λ k. prime_at (i + 1 + k)) (λ k. prime_at (i + suc k))
          (λ k _. ap prime_at (omega arith))

    joined :
        (c : ℕ)
        → c ≡ cnt + prime_at i
        → c + sum_over rounds (λ k. prime_at (i + 1 + k))
          ≡ cnt + sum_over (suc rounds) (λ k. prime_at (i + k))
    joined c e =
        let at : prime_at (i + 0) ≡ prime_at i = ap prime_at (omega arith) in
        omega (arith, e, at, shifted, sum_over-front rounds (λ k. prime_at (i + k)))

blocks :
    (q m : ℕ) (w : ℕ → ℕ) → sum_over m (λ t. sum_over q (λ k. w (q * t + k))) ≡ sum_over (q * m) w
blocks q zero w = sum_to 0 (q * 0) w (omega arith)
blocks q (suc m) w = omega (
  arith,
  blocks q m w,
  sum_over-append (q * m) q w,
  sum_to (q * suc m) (q * m + q) w (mul-suc q m),
)

-- The share of a thread but the last.
thread_func_lem :
    (rs re tid : ℕ)
    → tid < 9
    → thread_func rs re tid ≡ sum_over (share rs re) (λ k. prime_at (rs + (share rs re * tid + k)))
unfolding thread_func
thread_func_lem rs re tid lt =
    let inner : (tid == num_thread - 1) ≡ false = ground arith in
    rw inner (
      count_primes_lem (rs + q * (tid + 1) - (rs + q * tid)) (rs + q * tid) 0
      ∙ omega (arith, sum_to (rs + q * (tid + 1) - (rs + q * tid)) q w width, shifted))
  where
    q : ℕ
    q = share rs re

    w : ℕ → ℕ
    w k = prime_at (rs + q * tid + k)

    width : rs + q * (tid + 1) - (rs + q * tid) ≡ q
    width = omega (arith, mul-suc q tid)

    shifted : sum_over q w ≡ sum_over q (λ k. prime_at (rs + (q * tid + k)))
    shifted =
        sum_over-same q w (λ k. prime_at (rs + (q * tid + k))) (λ k _. ap prime_at (omega arith))

-- The share of the last thread, which ends after the range.
thread_func_last :
    (rs re : ℕ)
    → thread_func rs re 9
      ≡ sum_over (re + 1 - rs - share rs re * 9) (λ k. prime_at (rs + (share rs re * 9 + k)))
unfolding thread_func
thread_func_last rs re =
    count_primes_lem (re + 1 - (rs + q * 9)) (rs + q * 9) 0
    ∙ omega (arith, sum_to (re + 1 - (rs + q * 9)) (re + 1 - rs - q * 9) w (omega arith), shifted)
  where
    q : ℕ
    q = share rs re

    w : ℕ → ℕ
    w k = prime_at (rs + q * 9 + k)

    last : ℕ
    last = re + 1 - rs - q * 9

    shifted : sum_over last w ≡ sum_over last (λ k. prime_at (rs + (q * 9 + k)))
    shifted =
        sum_over-same last w (λ k. prime_at (rs + (q * 9 + k))) (λ k _. ap prime_at (omega arith))

-- The ten shares cover the range once: what `main` prints is the number of primes from `range_start`
-- to `range_end`, both included, and 0 for an empty range. The numbers are not negative, and below the
-- largest int.
pub count_range_lem :
    (range_start range_end : ℕ)
    → count_range range_start range_end
      ≡ sum_over (range_end + 1 - range_start) (λ k. prime_at (range_start + k))
unfolding count_range
count_range_lem rs re = omega (
  arith,
  nine,
  thread_func_last rs re,
  blocks q 9 w,
  sum_over-append (q * 9) (re + 1 - rs - q * 9) w,
  sum_to (q * 9 + (re + 1 - rs - q * 9)) (re + 1 - rs) w whole,
)
  where
    q : ℕ
    q = share rs re

    w : ℕ → ℕ
    w k = prime_at (rs + k)

    whole : q * 9 + (re + 1 - rs - q * 9) ≡ re + 1 - rs
    whole = omega arith

    nine :
        sum_over 9 (λ tid. thread_func rs re tid)
        ≡ sum_over 9 (λ t. sum_over q (λ k. w (q * t + k)))
    nine =
        sum_over-same 9 (λ tid. thread_func rs re tid) (λ t. sum_over q (λ k. w (q * t + k)))
          (λ t lt. thread_func_lem rs re t lt)
