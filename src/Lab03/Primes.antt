-- ===== src/Lab03/Primes.antt =====
-- `IsPrime` of lab03/prime_mt.cpp, by trial division up to the square root.
use ite.Base.{
  ℕ, zero, suc, ◌+◌, ◌*◌, ◌/◌, ◌%◌, ◌≡◌, ◌≢◌, ◌<◌, ◌≤◌, refl, Bool, true, false, ◌==◌,
  if◌then◌else◌, ltb, leb, arith, Bool-cases, inl, inr, ap, ◌↔◌, ◌∙◌, le→leb,
}
use native.Mathlib.Nat.{
  div-add-mod, mul-mod_right, mul-le-mul, mul-le-mul_left, mul-le-mul_right, mul_comm,
}

-- `i <= sqrt(n)` compares doubles; the root of an int is rounded correctly, so this is i * i <= n.
-- The loop from `i` on, for as many rounds as the fuel says. After the last of them it answers true.
unfoldable pub try_divisors : ℕ → ℕ → ℕ → Bool
try_divisors zero i n = true
try_divisors (suc fuel) i n =
    let rest = try_divisors fuel (i + 1) n in
    if leb (i * i) n then if n % i == 0 then false else rest else true

-- Fuel n is enough, since i reaches n + 1 and is then over the root.
unfoldable pub is_prime : ℕ → Bool
is_prime n = if ltb n 2 then false else try_divisors n 2 n

abbrev pub IsProduct : ℕ → Type 0
IsProduct n = (a : ℕ) × ((b : ℕ) × ((2 ≤ a) × ((2 ≤ b) × (n ≡ a * b))))

-- A divisor under the root leaves a factor that is no smaller.
factors : (i n : ℕ) → 2 ≤ i → i * i ≤ n → n % i ≡ 0 → IsProduct n
factors i n two root divides = (i, (n / i, (two, (big (n / i) eq, eq))))
  where
    eq : n ≡ i * (n / i)
    eq = omega (arith, div-add-mod n i, divides)

    big : (q : ℕ) → n ≡ i * q → 2 ≤ q
    big zero e = absurd (omega (arith, e, root, two, mul-le-mul_left i two))
    big (suc zero) e = absurd (omega (arith, e, root, two, mul-le-mul_left i two))
    big (suc (suc q)) e = omega arith

try_divisors-false : (fuel i n : ℕ) → 2 ≤ i → try_divisors fuel i n ≡ false → IsProduct n
unfolding try_divisors
try_divisors-false zero i n two refused = absurd (ground arith)
try_divisors-false (suc fuel) i n two refused = elim (Bool-cases (leb (i * i) n)) [
  | inl under ↦ elim (Bool-cases (n % i == 0)) [
    | inl divides ↦ factors i n two (ground arith) (ground arith)
    | inr leaves ↦
        let after = rw (under, leaves) at refused in
        try_divisors-false fuel (i + 1) n (omega arith) after
  ]
  | inr over ↦ let e = rw over at refused in absurd (ground arith)
]

try_divisors-true :
    (fuel i n j : ℕ)
    → n < fuel + i
    → 2 ≤ i
    → i ≤ j
    → j * j ≤ n
    → try_divisors fuel i n ≡ true
    → n % j ≢ 0
unfolding try_divisors
try_divisors-true zero i n j enough two from root accepted divides =
    absurd (omega (arith, enough, from, root, two, mul-le-mul_right j two', from))
  where
    two' : 2 ≤ j
    two' = omega (arith, two, from)
try_divisors-true (suc fuel) i n j enough two from root accepted divides =
    let under : leb (i * i) n ≡ true = within (mul-le-mul from from) in
    elim (Bool-cases (n % i == 0)) [
      | inl stops ↦ let e = rw (under, stops) at accepted in absurd (ground arith)
      | inr leaves ↦
          let after = rw (under, leaves) at accepted in
          elim (Bool-cases (i == j)) [
            | inl here ↦ absurd (at_divisor i j here leaves divides)
            | inr past ↦
                try_divisors-true fuel (i + 1) n j (omega arith) (omega arith) (ground arith) root
                  after divides
          ]
    ]
  where
    within : i * i ≤ j * j → leb (i * i) n ≡ true
    within le = le→leb (i * i) n (omega (arith, le, root))

    at_divisor : (i j : ℕ) → (i == j) ≡ true → (n % i == 0) ≡ false → n % j ≡ 0 → ⊥
    at_divisor i j here leaves divides =
        let e : i ≡ j = ground arith in
        let f : n % i ≡ n % j = ap (λ (k : ℕ). n % k) e in ground arith

-- `IsPrime` answers true just for the numbers from 2 on that are no product of two such numbers.
pub is_prime_lem : (n : ℕ) → (is_prime n ≡ true) ↔ ((2 ≤ n) × ¬ IsProduct n)
unfolding is_prime
is_prime_lem n = elim (Bool-cases (ltb n 2)) [
  | inl small ↦ (λ accepted. absurd (low small accepted), λ (two, prime). absurd (ground arith))
  | inr large ↦ (
    λ accepted. (ground arith, λ product. smaller (rw large at accepted) product),
    λ (two, prime). rw large (answer (try_divisors n 2 n) refl prime),
  )
]
  where
    low : ltb n 2 ≡ true → (if ltb n 2 then false else try_divisors n 2 n) ≡ true → ⊥
    low small accepted = ground arith

    divisor : (a b : ℕ) → n ≡ a * b → 2 ≤ a → a ≤ b → try_divisors n 2 n ≡ true → ⊥
    divisor a b eq two le accepted =
        try_divisors-true n 2 n a (omega arith) (omega arith) two
          (omega (arith, eq, mul-le-mul_left a le)) accepted
          (ap (λ (k : ℕ). k % a) eq ∙ mul-mod_right a b)

    smaller : try_divisors n 2 n ≡ true → IsProduct n → ⊥
    smaller accepted (a, (b, (twoa, (twob, eq)))) = elim (Bool-cases (leb a b)) [
      | inl le ↦ divisor a b eq twoa (ground arith) accepted
      | inr ge ↦ divisor b a (eq ∙ mul_comm a b) twob (ground arith) accepted
    ]

    answer : (r : Bool) → try_divisors n 2 n ≡ r → ¬ IsProduct n → try_divisors n 2 n ≡ true
    answer true e prime = e
    answer false e prime = absurd (prime (try_divisors-false n 2 n (omega arith) e))
