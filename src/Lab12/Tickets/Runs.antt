-- ===== src/Lab12/Tickets/Runs.antt =====
-- Whole runs of lab12/queue_bounded.cpp: the queue is first-in first-out in the order of its tickets.
use ite.Base.{ℕ, ◌≡◌, refl, false, List, [], ◌∷◌, arith, Bool-cases, inl, inr, sym}
use mathlib.Core.Path.{subst}
use ite.Lab12.Tickets.{
  Pc, idle, enq_waiting, enq_writing, enq_loading, enq_raising, deq_waiting, deq_reading,
  deq_loading, deq_raising, System, init_queue, Call, bucket, must_wait_enq, must_wait_deq,
  thread_step, run,
}
use ite.Lab12.Tickets.Frame.{empty_flag, full_flag, IsEnq, IsDeq, AreInOrder, Inv}
use ite.Lab12.Tickets.Steps.{local, at_pc, write-Inv, publish-Inv, take-Inv, draw-Inv}

-- The test of the loop lets a thread through just at its turn.
enq_turn : (f t : ℕ) → must_wait_enq f t ≡ false → f ≡ empty_flag t
enq_turn f t h = ground arith

deq_turn : (f t : ℕ) → must_wait_deq f t ≡ false → f ≡ full_flag t
deq_turn f t h = ground arith

module _ (s : System) (a : ℕ) (c : Call) (inv : Inv s) where
  enq : (p : Pc) → s.threads a ≡ p → (t : ℕ) → IsEnq p t → IsEnq (s.threads a) t
  enq p at t i = subst (λ (q : Pc). IsEnq q t) (sym at) i

  deq : (p : Pc) → s.threads a ≡ p → (t : ℕ) → IsDeq p t → IsDeq (s.threads a) t
  deq p at t i = subst (λ (q : Pc). IsDeq q t) (sym at) i

  thread_step-Inv : (p : Pc) → s.threads a ≡ p → Inv (thread_step a c p s)
  unfolding thread_step
  thread_step-Inv idle at = draw-Inv s a inv c at
  thread_step-Inv (enq_waiting t k) at = elim (Bool-cases (must_wait_enq (bucket s t).flag t)) [
    | inl waits ↦ rw waits (
        local s a inv (enq_waiting t k) (at_pc s a inv (enq_waiting t k) at)
          (enq (enq_waiting t k) at) (λ u i. elim i [ ]))
    | inr turn ↦
        let (lt, (e, le)) = at_pc s a inv (enq_waiting t k) at in
        rw turn (
          local s a inv (enq_writing t k) (lt, (e, enq_turn (bucket s t).flag t turn))
            (enq (enq_waiting t k) at) (λ u i. elim i [ ]))
  ]
  thread_step-Inv (enq_writing t k) at = write-Inv s a inv t k at
  thread_step-Inv (enq_loading t k) at =
      let (lt, (e, (now, key))) = at_pc s a inv (enq_loading t k) at in
      local s a inv (enq_raising t k (bucket s t).flag) (lt, (e, (now, (key, refl))))
        (enq (enq_loading t k) at) (λ u i. elim i [ ])
  thread_step-Inv (enq_raising t k f) at = publish-Inv s a inv t k f at
  thread_step-Inv (deq_waiting t) at = elim (Bool-cases (must_wait_deq (bucket s t).flag t)) [
    | inl waits ↦ rw waits (
        local s a inv (deq_waiting t) (at_pc s a inv (deq_waiting t) at) (λ u i. elim i [ ])
          (deq (deq_waiting t) at))
    | inr turn ↦
        let (lt, le) = at_pc s a inv (deq_waiting t) at in
        rw turn (
          local s a inv (deq_reading t) (lt, deq_turn (bucket s t).flag t turn) (λ u i. elim i [ ])
            (deq (deq_waiting t) at))
  ]
  thread_step-Inv (deq_reading t) at =
      let (lt, now) = at_pc s a inv (deq_reading t) at in
      local s a inv (deq_loading t (bucket s t).key) (lt, (now, inv.stored t now))
        (λ u i. elim i [ ]) (deq (deq_reading t) at)
  thread_step-Inv (deq_loading t k) at =
      let (lt, (now, e)) = at_pc s a inv (deq_loading t k) at in
      local s a inv (deq_raising t k (bucket s t).flag) (lt, (now, (e, refl))) (λ u i. elim i [ ])
        (deq (deq_loading t k) at)
  thread_step-Inv (deq_raising t k f) at = take-Inv s a inv t k f at

run-Inv : (schedule : List (ℕ × Call)) (s : System) → Inv s → Inv (run schedule s)
unfolding run
run-Inv [] s inv = inv
run-Inv ((a, c) ∷ rest) s inv =
    run-Inv rest (thread_step a c (s.threads a) s) (thread_step-Inv s a c inv (s.threads a) refl)

init_queue-Inv : Inv init_queue
unfolding init_queue
init_queue-Inv = record {
  later_enq = λ t _. omega arith;
  later_deq = λ t _. omega arith;
  stored = λ t full. absurd (omega (arith, full));
  pcs = λ a. tt;
  enq_unique = λ a b t i. elim i [ ];
  deq_unique = λ a b t i. elim i [ ];
  right = tt;
}

-- Whatever the order of the steps of any number of threads, each answer of `dequeue` is the key of the
-- call of `enqueue` that drew the same ticket, and this call has drawn it.
pub run-AreInOrder :
    (schedule : List (ℕ × Call))
    → AreInOrder (run schedule init_queue) (run schedule init_queue).got
run-AreInOrder schedule = (run-Inv schedule init_queue init_queue-Inv).right
