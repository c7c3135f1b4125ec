-- ===== src/Project3/Workers/Barrier.antt =====
-- No worker of project3 begins its work before all have been created, and no update is left out of
-- the number that `main` prints: project3/src/worker.cpp, project3/src/main.cpp.
use ite.Base.{
  ℕ, ◌%◌, ◌^◌, ◌≡◌, ◌≢◌, ◌<◌, ◌≤◌, refl, Bool, true, false, ◌==◌, if◌then◌else◌, ltb, change, arith,
  Bool-cases, inl, inr, ◌⊎◌, sym, ap, ◌∙◌, sum_over, sum_over-same,
}
use mathlib.Core.Path.{subst}
use ite.Project3.Workers.{
  Pc, not_created, entered, spinning, checking, updating, ended, Worker, MainPc, creating,
  constructing, starting, sleeping, stopping, joining, finished, Program, new_program, worker_step,
  run,
}

pub data Stage : Type 0 where
  fresh constructed ready started stopped counted : Stage

-- Where a worker is in its life, by where `main` is.
abbrev pub split : ℕ → ℕ → Stage → Stage → Stage → Stage
split a i before_i at_i after_i = if ltb a i then before_i else if a == i then at_i else after_i

abbrev pub stage : MainPc → ℕ → Stage
stage (creating i) a = split a i ready fresh fresh
stage (constructing i) a = split a i ready constructed fresh
stage (starting i) a = split a i started ready ready
stage sleeping a = started
stage (stopping i) a = split a i counted started started
stage (joining i) a = split a i counted stopped started
stage finished a = counted

abbrev pub is_working : Pc → Bool
is_working checking = true
is_working updating = true
is_working _ = false

abbrev pub is_running : Pc → Bool
is_running spinning = true
is_running checking = true
is_running updating = true
is_running _ = false

abbrev pub Agrees : Stage → Worker → Type 0
Agrees fresh w = (w.thread_status ≡ 0) × (w.pc ≡ not_created)
Agrees constructed w =
    ((w.thread_status ≡ 0) × (w.pc ≡ entered)) ⊎ ((w.thread_status ≡ 1) × (w.pc ≡ spinning))
Agrees ready w = (w.thread_status ≡ 1) × (w.pc ≡ spinning)
Agrees started w = (w.thread_status ≡ 2) × (is_running w.pc ≡ true)
Agrees stopped w = (w.thread_status ≡ 3) × ((is_running w.pc ≡ true) ⊎ (w.pc ≡ ended))
Agrees counted w = (w.thread_status ≡ 3) × (w.pc ≡ ended)

-- A worker's own step stays in its stage.
worker_step-Agrees : (g : Stage) (w : Worker) → Agrees g w → Agrees g (worker_step w.pc w)
unfolding worker_step
worker_step-Agrees fresh w (status, at) = rw at (status, refl)
worker_step-Agrees constructed w (inl (status, at)) = rw at (inr (refl, refl))
worker_step-Agrees constructed w (inr (status, at)) = rw (at, status) (inr (refl, refl))
worker_step-Agrees ready w (status, at) = rw (at, status) (refl, refl)
worker_step-Agrees started w (status, run) = go w.pc refl run
  where
    go : (p : Pc) → w.pc ≡ p → is_running p ≡ true → Agrees started (worker_step w.pc w)
    go not_created at running = absurd (ground arith)
    go entered at running = absurd (ground arith)
    go spinning at running = rw (at, status) (refl, refl)
    go checking at running = rw (at, status) (refl, refl)
    go updating at running = rw (at, status) (refl, refl)
    go ended at running = absurd (ground arith)
worker_step-Agrees stopped w (status, inl run) = go w.pc refl run
  where
    go : (p : Pc) → w.pc ≡ p → is_running p ≡ true → Agrees stopped (worker_step w.pc w)
    go not_created at running = absurd (ground arith)
    go entered at running = absurd (ground arith)
    go spinning at running = rw (at, status) (refl, inl refl)
    go checking at running = rw (at, status) (refl, inr refl)
    go updating at running = rw (at, status) (refl, inl refl)
    go ended at running = absurd (ground arith)
worker_step-Agrees stopped w (status, inr at) = rw at (status, inr refl)
worker_step-Agrees counted w (status, at) = rw at (status, refl)

-- A worker that is counted has stopped for good.
counted-same : (w : Worker) → Agrees counted w → worker_step w.pc w ≡ w
unfolding worker_step
counted-same w (status, at) = rw at refl

-- The number of workers that `main` has counted.
abbrev pub counted_by : ℕ → MainPc → ℕ
counted_by n (creating i) = 0
counted_by n (constructing i) = 0
counted_by n (starting i) = 0
counted_by n sleeping = 0
counted_by n (stopping i) = i
counted_by n (joining i) = i
counted_by n finished = n

abbrev pub InRange : ℕ → MainPc → Type 0
InRange n (creating i) = i ≤ n
InRange n (constructing i) = i < n
InRange n (starting i) = i ≤ n
InRange n sleeping = Unit
InRange n (stopping i) = i ≤ n
InRange n (joining i) = i < n
InRange n finished = Unit

abbrev pub executions : Program → ℕ → ℕ
executions s a = (s.workers a).num_executions

pub record Inv (n : ℕ) (s : Program) : Type 0 where
  pub range : InRange n s.main_pc
  pub agree : (a : ℕ) → a < n → Agrees (stage s.main_pc a) (s.workers a)
  pub total : s.num_updates ≡ sum_over (counted_by n s.main_pc) (executions s) % 2 ^ 64

pub at_worker :
    (f : ℕ → Worker) (t b : ℕ) (u : Worker) (C : Worker → Type 0)
    → (t ≡ b → C u)
    → (t ≢ b → C (f b))
    → C (change f t u b)
at_worker f t b u C here there = elim (Bool-cases (t == b)) [
  | inl same ↦ rw same (here (ground arith))
  | inr other ↦ rw other (there (ground arith))
]

module _ (a i : ℕ) (before_i at_i after_i : Stage) (w : Worker) where
  pub at_split :
      (a < i → Agrees before_i w)
      → (a ≡ i → Agrees at_i w)
      → (i < a → Agrees after_i w)
      → Agrees (split a i before_i at_i after_i) w
  at_split below here above = elim (Bool-cases (ltb a i)) [
    | inl lt ↦ rw lt (below (ground arith))
    | inr ge ↦ elim (Bool-cases (a == i)) [
      | inl same ↦ rw (ge, same) (here (ground arith))
      | inr other ↦ rw (ge, other) (above (ground arith))
    ]
  ]

  pub from_before : a < i → Agrees (split a i before_i at_i after_i) w → Agrees before_i w
  from_before lt h = let e : ltb a i ≡ true = ground arith in let g = rw e at h in g

  pub from_at : a ≡ i → Agrees (split a i before_i at_i after_i) w → Agrees at_i w
  from_at same h =
      let e : ltb a i ≡ false = ground arith in
      let f : (a == i) ≡ true = ground arith in let g = rw (e, f) at h in g

  pub from_after : i < a → Agrees (split a i before_i at_i after_i) w → Agrees after_i w
  from_after gt h =
      let e : ltb a i ≡ false = ground arith in
      let f : (a == i) ≡ false = ground arith in let g = rw (e, f) at h in g

pub new_program-Inv : (n : ℕ) → Inv n new_program
unfolding new_program
new_program-Inv n = record {
  range = omega arith;
  agree = λ a lt.
      at_split a 0 ready fresh fresh
        (record { pc = not_created; thread_status = 0; num_executions = 0 })
        (λ below. absurd (omega arith)) (λ _. (refl, refl)) (λ _. (refl, refl));
  total = omega arith;
}

-- The counted workers are at the end of their lives.
pub counted-Agrees :
    (n : ℕ) (m : MainPc) (a : ℕ) (w : Worker)
    → a < counted_by n m
    → Agrees (stage m a) w
    → Agrees counted w
counted-Agrees n (creating i) a w lt h = absurd (omega arith)
counted-Agrees n (constructing i) a w lt h = absurd (omega arith)
counted-Agrees n (starting i) a w lt h = absurd (omega arith)
counted-Agrees n sleeping a w lt h = absurd (omega arith)
counted-Agrees n (stopping i) a w lt h = from_before a i counted started started w lt h
counted-Agrees n (joining i) a w lt h = from_before a i counted stopped started w lt h
counted-Agrees n finished a w lt h = h

counted_by-le : (n : ℕ) (m : MainPc) → InRange n m → counted_by n m ≤ n
counted_by-le n (creating i) h = omega arith
counted_by-le n (constructing i) h = omega arith
counted_by-le n (starting i) h = omega arith
counted_by-le n sleeping h = omega arith
counted_by-le n (stopping i) h = h
counted_by-le n (joining i) h = omega arith
counted_by-le n finished h = omega arith

abbrev stepped : ℕ → Program → ℕ → Worker
stepped t s = change s.workers t (worker_step (s.workers t).pc (s.workers t))

pub worker-Inv : (n t : ℕ) (s : Program) → Inv n s → Inv n (record s { workers = stepped t s })
worker-Inv n t s inv = record {
  range = inv.range;
  agree = λ a lt.
      at_worker s.workers t a u (λ w. Agrees (stage s.main_pc a) w)
        (λ e.
          worker_step-Agrees (stage s.main_pc a) (s.workers t)
            (subst (λ (b : ℕ). Agrees (stage s.main_pc a) (s.workers b)) (sym e) (inv.agree a lt)))
        (λ _. inv.agree a lt);
  total =
      inv.total
      ∙ ap (λ (k : ℕ). k % 2 ^ 64)
          (sum_over-same (counted_by n s.main_pc) (executions s)
            (λ a. (stepped t s a).num_executions) same);
}
  where
    u : Worker
    u = worker_step (s.workers t).pc (s.workers t)

    same :
        (a : ℕ)
        → a < counted_by n s.main_pc
        → (s.workers a).num_executions ≡ (stepped t s a).num_executions
    same a lt =
        let below : a < n = omega (arith, lt, counted_by-le n s.main_pc inv.range) in
        let over = counted-Agrees n s.main_pc a (s.workers a) lt (inv.agree a below) in
        at_worker s.workers t a u (λ w. (s.workers a).num_executions ≡ w.num_executions)
          (λ e.
            ap (λ (w : Worker). w.num_executions)
              (sym (counted-same (s.workers a) over)
                ∙ ap (λ (b : ℕ). worker_step (s.workers b).pc (s.workers b)) (sym e)))
          (λ _. refl)
