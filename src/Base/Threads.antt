-- ===== src/Base/Threads.antt =====
-- Something for each thread: change it at one thread, and add up a number over the first threads.
use Prim.Native.Nat.{ℕ, zero, suc, ◌+◌, ◌<◌}
use mathlib.Core.Path.{◌≡◌, refl}
use mathlib.Core.Logic.{◌≢◌, inl, inr}
use mathlib.Core.Bool.{true, false}
use native.Mathlib.Omega.{arith}
use ite.Base.Tests.{◌==◌, if◌then◌else◌, Bool-cases, ltb}

abbrev pub change {ℓ} : {A : Type ℓ} → (ℕ → A) → ℕ → A → ℕ → A
change f i a j = if i == j then a else f j

abbrev pub sum_over : ℕ → (ℕ → ℕ) → ℕ
sum_over zero w = 0
sum_over (suc n) w = sum_over n w + w n

pub sum_over-same :
    (n : ℕ) (v w : ℕ → ℕ) → ((j : ℕ) → j < n → v j ≡ w j) → sum_over n v ≡ sum_over n w
sum_over-same zero v w h = refl
sum_over-same (suc n) v w h =
    omega (arith, sum_over-same n v w (λ j lt. h j (omega arith)), h n (omega arith))

-- One summand changes, and the others do not.
pub sum_over-change :
    (n i : ℕ) (v w : ℕ → ℕ)
    → i < n
    → ((j : ℕ) → i ≢ j → v j ≡ w j)
    → sum_over n v + w i ≡ sum_over n w + v i
sum_over-change zero i v w h same = absurd (omega arith)
sum_over-change (suc n) i v w h same = elim (Bool-cases (ltb i n)) [
  | inl below ↦ omega (arith, sum_over-change n i v w (ground arith) same, same n (ground arith))
  | inr last ↦
      let e : i ≡ n = ground arith in
      omega (arith, sum_over-same n v w (λ j lt. same j (omega arith)), summand i n e)
]
  where
    summand : (a b : ℕ) → a ≡ b → (v a ≡ v b) × (w a ≡ w b)
    summand a b e = ground arith

pub sum_over-zero : (n : ℕ) (w : ℕ → ℕ) → ((j : ℕ) → w j ≡ 0) → sum_over n w ≡ 0
sum_over-zero zero w h = refl
sum_over-zero (suc n) w h = omega (arith, sum_over-zero n w h, h n)

pub at_change :
    {A : Type 0} (f : ℕ → A) (t b : ℕ) (u : A) (C : A → Type 0)
    → (t ≡ b → C u)
    → (t ≢ b → C (f b))
    → C (change f t u b)
at_change f t b u C here there = elim (Bool-cases (t == b)) [
  | inl same ↦ rw same (here (ground arith))
  | inr other ↦ rw other (there (ground arith))
]

-- What holds of the threads before, at, and after a thread `i`.
abbrev pub split {ℓ} : {A : Type ℓ} → ℕ → ℕ → A → A → A → A
split a i x y z = if ltb a i then x else if a == i then y else z

module _ {A : Type 0} (C : A → Type 0) (a i : ℕ) (x y z : A) where
  pub to_split : (a < i → C x) → (a ≡ i → C y) → (i < a → C z) → C (split a i x y z)
  to_split below here above = elim (Bool-cases (ltb a i)) [
    | inl lt ↦ rw lt (below (ground arith))
    | inr ge ↦ elim (Bool-cases (a == i)) [
      | inl same ↦ rw (ge, same) (here (ground arith))
      | inr other ↦ rw (ge, other) (above (ground arith))
    ]
  ]

  pub split_before : a < i → C (split a i x y z) → C x
  split_before lt h = let e : ltb a i ≡ true = ground arith in let g = rw e at h in g

  pub split_at : a ≡ i → C (split a i x y z) → C y
  split_at same h =
      let e : ltb a i ≡ false = ground arith in
      let f : (a == i) ≡ true = ground arith in let g = rw (e, f) at h in g

  pub split_after : i < a → C (split a i x y z) → C z
  split_after gt h =
      let e : ltb a i ≡ false = ground arith in
      let f : (a == i) ≡ false = ground arith in let g = rw (e, f) at h in g
