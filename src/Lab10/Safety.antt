-- ===== src/Lab10/Safety.antt =====
-- The steps of the locks of lab10/prac_taslock.cpp and lab10/prac_ttaslock.cpp keep the invariant.
use ite.Base.{
  ℕ, ◌+◌, ◌%◌, ◌^◌, ◌≡◌, ◌≢◌, ◌<◌, refl, Bool, true, false, ◌==◌, if◌then◌else◌, ltb, arith,
  Bool-cases, inl, inr, sum_over, sum_over-zero, List, [], ◌∷◌,
}
use mathlib.Core.Path.{subst}
use ite.Lab10.Spin.{
  Pc, spinning, trying, loading, storing, unlocking, finished, System, set_pc, next_round, init,
  test_and_set, load_counter, store_counter, unlock, spin, tas_dispatch, tas_step, ttas_dispatch,
  ttas_step,
}
use ite.Lab10.Exclusion.{critical, increments, IsFresh, Inv, idle-IsFresh, moved-Inv}

clash : {x : Bool} {A : Type 0} → x ≡ false → x ≡ true → A
clash f g = absurd (ground arith)

-- A program counter at which a thread waits for the lock or is done.
idle-increments :
    (pc : Pc) (i : ℕ) → critical pc ≡ false → increments (record { pc = pc; i = i }) ≡ i
idle-increments spinning i h = omega arith
idle-increments trying i h = omega arith
idle-increments loading i h = clash h refl
idle-increments (storing loaded) i h = clash h refl
idle-increments unlocking i h = clash h refl
idle-increments finished i h = omega arith

module _ (n t : ℕ) (s : System) (lt : t < n) (inv : Inv n s) where
  -- The others stand outside when this thread is inside.
  others-idle :
      critical (s.threads t).pc ≡ true → (b : ℕ) → t ≢ b → critical (s.threads b).pc ≡ false
  others-idle inside b ne = elim (Bool-cases (critical (s.threads b).pc)) [
    | inl busy ↦ absurd (ne (inv.alone t b inside busy))
    | inr idle ↦ idle
  ]

  -- Nobody is inside when the lock is free.
  free-idle : (s.object == 1) ≡ false → (b : ℕ) → critical (s.threads b).pc ≡ false
  free-idle free b = elim (Bool-cases (critical (s.threads b).pc)) [
    | inl busy ↦ let taken = inv.locked b busy in absurd (ground arith)
    | inr idle ↦ idle
  ]

  wait-Inv :
      (again : Pc)
      → critical again ≡ false
      → critical (s.threads t).pc ≡ false
      → Inv n (set_pc s t again)
  wait-Inv again idle outside =
      moved-Inv n t s (record (s.threads t) { pc = again }) s.object s.cnt_global lt inv
        (λ busy. clash idle busy) (λ b ne busy. (inv.locked b busy, refl))
        (idle-IsFresh s.cnt_global again idle)
        (inl (
          omega (
            arith,
            idle-increments again (s.threads t).i idle,
            idle-increments (s.threads t).pc (s.threads t).i outside,
          ),
          refl,
        ))

  pub test_and_set-Inv :
      (again : Pc)
      → critical again ≡ false
      → (s.threads t).pc ≡ trying
      → Inv n (test_and_set again t s)
  unfolding test_and_set
  test_and_set-Inv again idle at = elim (Bool-cases (s.object == 1)) [
    | inl taken ↦ rw taken (
        moved-Inv n t s (record (s.threads t) { pc = again }) 1 s.cnt_global lt inv
          (λ busy. clash idle busy) (λ b ne busy. (refl, refl))
          (idle-IsFresh s.cnt_global again idle)
          (inl (rw at omega (arith, idle-increments again (s.threads t).i idle), refl)))
    | inr free ↦ rw free (
        moved-Inv n t s (record (s.threads t) { pc = loading }) 1 s.cnt_global lt inv
          (λ _. (refl, λ b ne. free-idle free b)) (λ b ne busy. clash (free-idle free b) busy) tt
          (inl (rw at refl, refl)))
  ]

  pub load_counter-Inv : (s.threads t).pc ≡ loading → Inv n (load_counter t s)
  unfolding load_counter
  load_counter-Inv at =
      let inside : critical (s.threads t).pc ≡ true = rw at refl in
      moved-Inv n t s (record (s.threads t) { pc = storing s.cnt_global }) s.object s.cnt_global lt
        inv (λ _. (inv.locked t inside, others-idle inside))
        (λ b ne busy. clash (others-idle inside b ne) busy) refl (inl (rw at refl, refl))

  pub store_counter-Inv :
      (loaded : ℕ) → (s.threads t).pc ≡ storing loaded → Inv n (store_counter loaded t s)
  unfolding store_counter
  store_counter-Inv loaded at =
      let inside : critical (s.threads t).pc ≡ true = rw at refl in
      let kept : s.cnt_global ≡ loaded =
        subst (λ (p : Pc). IsFresh s.cnt_global p) at (inv.fresh t) in
      moved-Inv n t s (record (s.threads t) { pc = unlocking }) s.object ((loaded + 1) % 2 ^ 32) lt
        inv (λ _. (inv.locked t inside, others-idle inside))
        (λ b ne busy. clash (others-idle inside b ne) busy) tt
        (inr (rw at omega arith, rw kept refl))

  pub unlock-Inv :
      (entry : Pc) (num_work : ℕ)
      → critical entry ≡ false
      → (s.threads t).pc ≡ unlocking
      → Inv n (unlock entry num_work t s)
  unfolding unlock
  unlock-Inv entry num_work idle at =
      let inside : critical (s.threads t).pc ≡ true = rw at refl in
      let i = (s.threads t).i + 1 in
      let left : critical (next_round entry num_work i).pc ≡ false = next-idle (ltb i num_work) in
      moved-Inv n t s (next_round entry num_work i) 0 s.cnt_global lt inv (λ busy. clash left busy)
        (λ b ne busy. clash (others-idle inside b ne) busy)
        (idle-IsFresh s.cnt_global (next_round entry num_work i).pc left)
        (inl (rw at omega (arith, idle-increments (next_round entry num_work i).pc i left), refl))
    where
      next-idle : (more : Bool) → critical (if more then entry else finished) ≡ false
      next-idle true = idle
      next-idle false = refl

  pub spin-Inv : (s.threads t).pc ≡ spinning → Inv n (spin t s)
  unfolding spin
  spin-Inv at = elim (Bool-cases (s.object == 1)) [
    | inl taken ↦ rw taken inv
    | inr free ↦ rw free (wait-Inv trying refl (rw at refl))
  ]

  -- The first lock never has a thread in the inner loop of the second.
  pub tas_step-Inv : (num_work : ℕ) → Inv n (tas_step num_work t s)
  unfolding tas_step
  tas_step-Inv num_work = go (s.threads t).pc refl
    where
      go : (p : Pc) → (s.threads t).pc ≡ p → Inv n (tas_dispatch p num_work t s)
      go spinning at = inv
      go trying at = test_and_set-Inv trying refl at
      go loading at = load_counter-Inv at
      go (storing loaded) at = store_counter-Inv loaded at
      go unlocking at = unlock-Inv trying num_work refl at
      go finished at = inv

  pub ttas_step-Inv : (num_work : ℕ) → Inv n (ttas_step num_work t s)
  unfolding ttas_step
  ttas_step-Inv num_work = go (s.threads t).pc refl
    where
      go : (p : Pc) → (s.threads t).pc ≡ p → Inv n (ttas_dispatch p num_work t s)
      go spinning at = spin-Inv at
      go trying at = test_and_set-Inv spinning refl at
      go loading at = load_counter-Inv at
      go (storing loaded) at = store_counter-Inv loaded at
      go unlocking at = unlock-Inv spinning num_work refl at
      go finished at = inv

pub init-Inv : (entry : Pc) (num_work n : ℕ) → critical entry ≡ false → Inv n (init entry num_work)
unfolding init
init-Inv entry num_work n idle =
    let start : critical (next_round entry num_work 0).pc ≡ false = first (ltb 0 num_work) in
    let none : increments (next_round entry num_work 0) ≡ 0 =
      idle-increments (next_round entry num_work 0).pc 0 start in
    record {
      alone = λ a b busy _. clash start busy;
      locked = λ a busy. clash start busy;
      fresh = λ a. idle-IsFresh 0 (next_round entry num_work 0).pc start;
      counted =
          omega
            (arith, sum_over-zero n (λ a. increments (next_round entry num_work 0)) (λ _. none));
    }
  where
    first : (more : Bool) → critical (if more then entry else finished) ≡ false
    first true = idle
    first false = refl

-- Runs: a schedule names the thread of each step; `n` threads exist.
abbrev pub tas_run : ℕ → List ℕ → System → System
tas_run num_work [] s = s
tas_run num_work (t ∷ ts) s = tas_run num_work ts (tas_step num_work t s)

abbrev pub ttas_run : ℕ → List ℕ → System → System
ttas_run num_work [] s = s
ttas_run num_work (t ∷ ts) s = ttas_run num_work ts (ttas_step num_work t s)

abbrev pub AreBelow : ℕ → List ℕ → Type 0
AreBelow n [] = Unit
AreBelow n (t ∷ ts) = (t < n) × AreBelow n ts

tas_run-Inv :
    (n num_work : ℕ) (ts : List ℕ) (s : System)
    → AreBelow n ts
    → Inv n s
    → Inv n (tas_run num_work ts s)
tas_run-Inv n num_work [] s below inv = inv
tas_run-Inv n num_work (t ∷ ts) s (lt, below) inv =
    tas_run-Inv n num_work ts (tas_step num_work t s) below (tas_step-Inv n t s lt inv num_work)

ttas_run-Inv :
    (n num_work : ℕ) (ts : List ℕ) (s : System)
    → AreBelow n ts
    → Inv n s
    → Inv n (ttas_run num_work ts s)
ttas_run-Inv n num_work [] s below inv = inv
ttas_run-Inv n num_work (t ∷ ts) s (lt, below) inv =
    ttas_run-Inv n num_work ts (ttas_step num_work t s) below (ttas_step-Inv n t s lt inv num_work)

-- Under the first lock no two threads are inside the critical section at once, and the counter is,
-- modulo 2^32, the number of increments that the n threads have stored: after any schedule of steps
-- of threads below n from the initial state.
pub tas_run-IsExclusive :
    (n num_work : ℕ) (ts : List ℕ)
    → AreBelow n ts
    → let s = tas_run num_work ts (init trying num_work) in
      ((a b : ℕ) → critical (s.threads a).pc ≡ true → critical (s.threads b).pc ≡ true → a ≡ b)
      × (s.cnt_global ≡ sum_over n (λ a. increments (s.threads a)) % 2 ^ 32)
tas_run-IsExclusive n num_work ts below =
    let inv =
      tas_run-Inv n num_work ts (init trying num_work) below (init-Inv trying num_work n refl) in
    (inv.alone, inv.counted)

-- Under the second lock no two threads are inside the critical section at once, and the counter is,
-- modulo 2^32, the number of increments that the n threads have stored: after any schedule of steps
-- of threads below n from the initial state.
pub ttas_run-IsExclusive :
    (n num_work : ℕ) (ts : List ℕ)
    → AreBelow n ts
    → let s = ttas_run num_work ts (init spinning num_work) in
      ((a b : ℕ) → critical (s.threads a).pc ≡ true → critical (s.threads b).pc ≡ true → a ≡ b)
      × (s.cnt_global ≡ sum_over n (λ a. increments (s.threads a)) % 2 ^ 32)
ttas_run-IsExclusive n num_work ts below =
    let inv =
      ttas_run-Inv n num_work ts (init spinning num_work) below
        (init-Inv spinning num_work n refl) in
    (inv.alone, inv.counted)
