-- ===== src/Project3/Workers/Runs.antt =====
-- The steps of `main` of project3/src/main.cpp with its workers, and whole runs.
use ite.Base.{
  ℕ, suc, ◌+◌, ◌%◌, ◌^◌, ◌≡◌, ◌≢◌, ◌<◌, ◌≤◌, refl, Bool, true, false, Option, none, some, List, [],
  ◌∷◌, ◌==◌, if◌then◌else◌, ltb, change, arith, Bool-cases, inl, inr, sym, ap, ◌∙◌, sum_over,
  sum_over-same,
}
use mathlib.Core.Path.{subst}
use ite.Project3.Workers.{
  Pc, not_created, entered, spinning, checking, updating, ended, Worker, MainPc, creating,
  constructing, starting, sleeping, stopping, joining, finished, Program, new_program, construct,
  set_status, join, main_step, step, run,
}
use ite.Project3.Workers.Barrier.{
  fresh, constructed, ready, started, stopped, counted, split, stage, is_working, Agrees,
  counted_by, InRange, executions, Inv, at_worker, at_split, from_before, from_at, from_after,
  worker-Inv, new_program-Inv,
}

module _ (n i : ℕ) (s : Program) where
  construct-Inv : i < n → s.main_pc ≡ creating i → Inv n s → Inv n (construct i s)
  unfolding construct
  construct-Inv lt at inv =
      let old : (a : ℕ) → a < n → Agrees (stage (creating i) a) (s.workers a) =
        subst (λ (m : MainPc). (a : ℕ) → a < n → Agrees (stage m a) (s.workers a)) at inv.agree in
      let zero_total : s.num_updates
          ≡ sum_over (counted_by n (creating i)) (executions s) % 2 ^ 64 =
        subst (λ (m : MainPc). s.num_updates ≡ sum_over (counted_by n m) (executions s) % 2 ^ 64) at
          inv.total in
      record {
        range = lt;
        agree = λ a below.
            at_worker s.workers i a u (λ w. Agrees (split a i ready constructed fresh) w)
              (λ e.
                at_split a i ready constructed fresh u (λ l. absurd (omega arith))
                  (λ _. inl (refl, refl)) (λ g. absurd (omega arith)))
              (λ ne.
                at_split a i ready constructed fresh (s.workers a)
                  (λ l. from_before a i ready fresh fresh (s.workers a) l (old a below))
                  (λ e. absurd (ne (sym e)))
                  (λ g. from_after a i ready fresh fresh (s.workers a) g (old a below)));
        total = zero_total;
      }
    where
      u : Worker
      u = record { pc = entered; thread_status = 0; num_executions = 0 }

  constructed-Inv :
      ((s.workers i).thread_status == 0) ≡ false
      → s.main_pc ≡ constructing i
      → Inv n s
      → Inv n (record s { main_pc = creating (i + 1) })
  constructed-Inv busy at inv =
      let old : (a : ℕ) → a < n → Agrees (stage (constructing i) a) (s.workers a) =
        subst (λ (m : MainPc). (a : ℕ) → a < n → Agrees (stage m a) (s.workers a)) at inv.agree in
      let zero_total : s.num_updates
          ≡ sum_over (counted_by n (constructing i)) (executions s) % 2 ^ 64 =
        subst (λ (m : MainPc). s.num_updates ≡ sum_over (counted_by n m) (executions s) % 2 ^ 64) at
          inv.total in
      let lt : i < n = subst (InRange n) at inv.range in
      record {
        range = omega arith;
        agree = λ a below.
            at_split a (i + 1) ready fresh fresh (s.workers a)
              (λ l. elim (Bool-cases (a == i)) [
                | inl same ↦
                    let e : a ≡ i = ground arith in
                    now a e (from_at a i ready constructed fresh (s.workers a) e (old a below))
                | inr other ↦
                    let ne : a ≢ i = ground arith in
                    from_before a i ready constructed fresh (s.workers a) (omega arith)
                      (old a below)
              ])
              (λ e.
                from_after a i ready constructed fresh (s.workers a) (omega arith) (old a below))
              (λ g.
                from_after a i ready constructed fresh (s.workers a) (omega arith) (old a below));
        total = zero_total;
      }
    where
      not_zero : (k : ℕ) → k ≡ 0 → (k == 0) ≡ false → ⊥
      not_zero k e f = ground arith

      now : (a : ℕ) → a ≡ i → Agrees constructed (s.workers a) → Agrees ready (s.workers a)
      now a e (inl (status, at_)) = absurd (
          not_zero (s.workers i).thread_status
            (ap (λ (b : ℕ). (s.workers b).thread_status) (sym e) ∙ status) busy)
      now a e (inr h) = h

-- `main` goes on, and no worker changes.
advance :
    (n : ℕ) (m next : MainPc) (s : Program)
    → s.main_pc ≡ m
    → InRange n next
    → ((a : ℕ) (w : Worker) → a < n → Agrees (stage m a) w → Agrees (stage next a) w)
    → counted_by n m ≡ counted_by n next
    → Inv n s
    → Inv n (record s { main_pc = next })
advance n m next s at range moves same inv = record {
  range = range;
  agree = λ a below.
      moves a (s.workers a) below
        (subst (λ (p : MainPc). Agrees (stage p a) (s.workers a)) at (inv.agree a below));
  total =
      inv.total ∙ ap (λ (k : ℕ). sum_over k (executions s) % 2 ^ 64) (ap (counted_by n) at ∙ same);
}

-- `main` sets the status of worker `i`, which takes this one from stage to stage.
set_status-Inv :
    (n i status : ℕ) (m next : MainPc) (s : Program)
    → s.main_pc ≡ m
    → InRange n next
    → ((a : ℕ) (w : Worker) → a < n → a ≢ i → Agrees (stage m a) w → Agrees (stage next a) w)
    → ((w : Worker)
        → Agrees (stage m i) w
        → Agrees (stage next i) (record w { thread_status = status }))
    → counted_by n m ≡ counted_by n next
    → Inv n s
    → Inv n (set_status i status next s)
unfolding set_status
set_status-Inv n i status m next s at range others mine same inv = record {
  range = range;
  agree = λ a below.
      at_worker s.workers i a u (λ w. Agrees (stage next a) w)
        (λ e.
          subst (λ (b : ℕ). Agrees (stage next b) u) e
            (mine (s.workers i) (old i (subst (λ (b : ℕ). b < n) (sym e) below))))
        (λ ne. others a (s.workers a) below (λ e. ne (sym e)) (old a below));
  total =
      inv.total
      ∙ ap (λ (k : ℕ). sum_over k (executions s) % 2 ^ 64) (ap (counted_by n) at ∙ same)
      ∙ ap (λ (k : ℕ). k % 2 ^ 64)
          (sum_over-same (counted_by n next) (executions s)
            (λ a. (change s.workers i u a).num_executions)
            (λ a _.
              at_worker s.workers i a u (λ w. (s.workers a).num_executions ≡ w.num_executions)
                (λ e. ap (λ (b : ℕ). (s.workers b).num_executions) (sym e)) (λ _. refl)));
}
  where
    u : Worker
    u = record (s.workers i) { thread_status = status }

    old : (a : ℕ) → a < n → Agrees (stage m a) (s.workers a)
    old a below = subst (λ (p : MainPc). Agrees (stage p a) (s.workers a)) at (inv.agree a below)

start-Inv :
    (n i : ℕ) (s : Program)
    → i < n
    → s.main_pc ≡ starting i
    → Inv n s
    → Inv n (set_status i 2 (starting (i + 1)) s)
start-Inv n i s lt at inv =
    set_status-Inv n i 2 (starting i) (starting (i + 1)) s at (omega arith)
      (λ a w below ne h.
        at_split a (i + 1) started ready ready w
          (λ l. from_before a i started ready ready w (omega arith) h)
          (λ e. from_after a i started ready ready w (omega arith) h)
          (λ g. from_after a i started ready ready w (omega arith) h))
      (λ w h.
        at_split i (i + 1) started ready ready (record w { thread_status = 2 })
          (λ _. let (status, at_) = from_at i i started ready ready w refl h in (refl, rw at_ refl))
          (λ e. absurd (omega arith)) (λ g. absurd (omega arith)))
      refl inv

stop-Inv :
    (n i : ℕ) (s : Program)
    → i < n
    → s.main_pc ≡ stopping i
    → Inv n s
    → Inv n (set_status i 3 (joining i) s)
stop-Inv n i s lt at inv =
    set_status-Inv n i 3 (stopping i) (joining i) s at lt
      (λ a w below ne h.
        at_split a i counted stopped started w (λ l. from_before a i counted started started w l h)
          (λ e. absurd (ne e)) (λ g. from_after a i counted started started w g h))
      (λ w h.
        at_split i i counted stopped started (record w { thread_status = 3 })
          (λ l. absurd (omega arith))
          (λ _. let (status, run) = from_at i i counted started started w refl h in (refl, inl run))
          (λ g. absurd (omega arith)))
      refl inv

join-Inv : (n i : ℕ) (s : Program) → s.main_pc ≡ joining i → Inv n s → Inv n (join i s)
unfolding join
join-Inv n i s at inv = go (s.workers i).pc refl
  where
    old : (a : ℕ) → a < n → Agrees (stage (joining i) a) (s.workers a)
    old a below = subst (λ (p : MainPc). Agrees (stage p a) (s.workers a)) at (inv.agree a below)

    sum : s.num_updates ≡ sum_over i (executions s) % 2 ^ 64
    sum = inv.total ∙ ap (λ (p : MainPc). sum_over (counted_by n p) (executions s) % 2 ^ 64) at

    range : i < n
    range = subst (InRange n) at inv.range

    next : i + 1 ≡ suc i
    next = omega arith

    go : (p : Pc) → (s.workers i).pc ≡ p → Inv n (join i s)
    go not_created e = rw (e, join) inv
    go entered e = rw (e, join) inv
    go spinning e = rw (e, join) inv
    go checking e = rw (e, join) inv
    go updating e = rw (e, join) inv
    go ended e =
        rw (e, join)
          (record {
            range = omega (arith, range);
            agree = λ a below.
                at_split a (i + 1) counted started started (s.workers a)
                  (λ l. elim (Bool-cases (a == i)) [
                    | inl same ↦
                        let here : a ≡ i = ground arith in
                        let (status, rest) =
                          from_at a i counted stopped started (s.workers a) here (old a below) in
                        (status, ap (λ (b : ℕ). (s.workers b).pc) here ∙ e)
                    | inr other ↦
                        let ne : a ≢ i = ground arith in
                        from_before a i counted stopped started (s.workers a) (omega arith)
                          (old a below)
                  ])
                  (λ q.
                    from_after a i counted stopped started (s.workers a) (omega arith)
                      (old a below))
                  (λ g.
                    from_after a i counted stopped started (s.workers a) (omega arith)
                      (old a below));
            total =
                omega (arith, sum) ∙ ap (λ (k : ℕ). sum_over k (executions s) % 2 ^ 64) (sym next);
          })

main_step-Inv : (n : ℕ) (s : Program) → Inv n s → Inv n (main_step n s.main_pc s)
unfolding main_step
main_step-Inv n s inv = go s.main_pc refl
  where
    go : (m : MainPc) → s.main_pc ≡ m → Inv n (main_step n m s)
    go (creating i) at = elim (Bool-cases (ltb i n)) [
      | inl lt ↦ rw lt (construct-Inv n i s (ground arith) at inv)
      | inr ge ↦
          let all : i ≡ n = omega (arith, reached ge, subst (InRange n) at inv.range) in
          rw ge (
            advance n (creating i) (starting 0) s at (omega arith)
              (λ a w below h.
                at_split a 0 started ready ready w (λ l. absurd (omega arith))
                  (λ _. from_before a i ready fresh fresh w (omega arith) h)
                  (λ _. from_before a i ready fresh fresh w (omega arith) h))
              refl inv)
    ]
      where
        reached : ltb i n ≡ false → n ≤ i
        reached ge = ground arith
    go (constructing i) at = elim (Bool-cases ((s.workers i).thread_status == 0)) [
      | inl waits ↦ rw waits inv
      | inr runs ↦ rw runs (constructed-Inv n i s runs at inv)
    ]
    go (starting i) at = elim (Bool-cases (ltb i n)) [
      | inl lt ↦ rw lt (start-Inv n i s (ground arith) at inv)
      | inr ge ↦ rw ge (
          advance n (starting i) sleeping s at tt
            (λ a w below h. from_before a i started ready ready w (ground arith) h) refl inv)
    ]
    go sleeping at =
        advance n sleeping (stopping 0) s at (omega arith)
          (λ a w below h.
            at_split a 0 counted started started w (λ l. absurd (omega arith)) (λ _. h) (λ _. h))
          refl inv
    go (stopping i) at = elim (Bool-cases (ltb i n)) [
      | inl lt ↦ rw lt (stop-Inv n i s (ground arith) at inv)
      | inr ge ↦
          let all : i ≡ n = omega (arith, reached ge, subst (InRange n) at inv.range) in
          rw ge (
            advance n (stopping i) finished s at tt
              (λ a w below h. from_before a i counted started started w (omega arith) h) all inv)
    ]
      where
        reached : ltb i n ≡ false → n ≤ i
        reached ge = ground arith
    go (joining i) at = join-Inv n i s at inv
    go finished at = inv

run-Inv : (n : ℕ) (schedule : List (Option ℕ)) (s : Program) → Inv n s → Inv n (run n schedule s)
unfolding run step
run-Inv n [] s inv = inv
run-Inv n (none ∷ rest) s inv = run-Inv n rest (main_step n s.main_pc s) (main_step-Inv n s inv)
run-Inv n (some t ∷ rest) s inv = run-Inv n rest (step n (some t) s) (worker-Inv n t s inv)

-- Whether `main` has created all n workers.
abbrev pub all_created : MainPc → Bool
all_created (creating i) = false
all_created (constructing i) = false
all_created _ = true

working-created :
    (m : MainPc) (a : ℕ) (w : Worker)
    → Agrees (stage m a) w
    → is_working w.pc ≡ true
    → all_created m ≡ true
working-created (creating i) a w h busy = absurd (split_at (ltb a i) (a == i) h)
  where
    split_at : (x y : Bool) → Agrees (if x then ready else if y then fresh else fresh) w → ⊥
    split_at true y (status, at) = let e = rw at at busy in ground arith
    split_at false true (status, at) = let e = rw at at busy in ground arith
    split_at false false (status, at) = let e = rw at at busy in ground arith
working-created (constructing i) a w h busy = absurd (split_at (ltb a i) (a == i) h)
  where
    split_at : (x y : Bool) → Agrees (if x then ready else if y then constructed else fresh) w → ⊥
    split_at true y (status, at) = let e = rw at at busy in ground arith
    split_at false true (inl (status, at)) = let e = rw at at busy in ground arith
    split_at false true (inr (status, at)) = let e = rw at at busy in ground arith
    split_at false false (status, at) = let e = rw at at busy in ground arith
working-created (starting i) a w h busy = refl
working-created sleeping a w h busy = refl
working-created (stopping i) a w h busy = refl
working-created (joining i) a w h busy = refl
working-created finished a w h busy = refl

-- In every run with n workers, one of the n is in `doWork` only when `main` has created all of them.
pub run-Barrier :
    (n : ℕ) (schedule : List (Option ℕ)) (a : ℕ)
    → a < n
    → is_working ((run n schedule new_program).workers a).pc ≡ true
    → all_created (run n schedule new_program).main_pc ≡ true
run-Barrier n schedule a lt busy =
    let inv = run-Inv n schedule new_program (new_program-Inv n) in
    let s = run n schedule new_program in
    working-created s.main_pc a (s.workers a) (inv.agree a lt) busy

-- In every run that has come to the end of `main`, all n workers have ended, and the number of updates
-- is modulo 2^64 the sum of their executions.
pub run-num_updates :
    (n : ℕ) (schedule : List (Option ℕ))
    → (run n schedule new_program).main_pc ≡ finished
    → ((a : ℕ) → a < n → ((run n schedule new_program).workers a).pc ≡ ended)
      × ((run n schedule new_program).num_updates
          ≡ sum_over n (λ a. ((run n schedule new_program).workers a).num_executions) % 2 ^ 64)
run-num_updates n schedule end =
    let inv = run-Inv n schedule new_program (new_program-Inv n) in
    let s = run n schedule new_program in
    (
      λ a lt. (subst (λ (m : MainPc). Agrees (stage m a) (s.workers a)) end (inv.agree a lt)).1,
      inv.total ∙ ap (λ (m : MainPc). sum_over (counted_by n m) (executions s) % 2 ^ 64) end,
    )
