-- ===== src/Lab11/Optimistic/Results.antt =====
-- What holds of every interleaving of lab11/optimistic.cpp.
use ite.Base.{ℕ, ◌≡◌, ◌<◌, refl, Bool, arith, sym, ap, ◌∙◌, some, Has}
use mathlib.Core.Path.{subst}
use ite.Lab11.Nodes.{head, Reaches, arrived, onward}
use ite.Lab11.CoarseList.{int_max, Work, WorkType}
use ite.Lab11.History.{IsSequential, InKeys, Represents}
use ite.Lab11.History.Calls.{Told}
use ite.Lab11.Optimistic.{
  is_resting, returned, System, new_system, arrive, step, IsFresh, Reach, start, later, list_init,
}
use ite.Lab11.Optimistic.Shared.{key_of, next_of, Keys, IsList, list_init-IsList}
use ite.Lab11.Optimistic.Places.{answer_at}
use ite.Lab11.Optimistic.Runs.{Inv, thread_step_lem, Advance-Inv}

pub step_lem :
    (s : System) (t : ℕ) (w : Work) (node : ℕ)
    → Inv s
    → InKeys w.value
    → IsFresh s.memory node
    → (s' : System) × (step t w node s ≡ some s') × Inv s'
unfolding step
step_lem s t w node inv keys fresh =
    let (m', p', e, moved) =
      thread_step_lem t s.memory inv.list w node (s.threads t) (inv.pcs t) keys fresh in
    (arrive t s (m', p'), rw (step, e) refl, Advance-Inv s t inv m' p' moved)

new_system-Inv : Inv new_system
unfolding new_system list_init
new_system-Inv = record {
  list = list_init-IsList;
  pcs = λ t. tt;
  apart = λ t u n h. elim h [ ];
  sequential = tt;
  represents =
      λ k (gt, lt). (λ (x, way, e). absurd (ends x k gt lt way e), λ never. absurd (ground arith));
  told = λ t. (λ e h. elim h [ ], λ never. absurd (ground arith));
}
  where
    ends :
        (x k : ℕ)
        → 0 < k
        → k < int_max
        → Reaches (next_of list_init) head x
        → key_of list_init x ≡ k
        → ⊥
    ends x k gt lt (arrived e) f = omega (arith, gt, sym f ∙ ap (key_of list_init) (sym e))
    ends x k gt lt (onward go (arrived e)) f =
        omega (arith, lt, sym f ∙ ap (key_of list_init) (sym e))
    ends x k gt lt (onward go (onward stop way)) f = stop refl

pub Reach-Inv : {s : System} → Reach s → Inv s
Reach-Inv start = new_system-Inv
Reach-Inv {s = s'} (later {s} t w node reach keys fresh q) =
    let (s1, e, inv) = step_lem s t w node (Reach-Inv reach) keys fresh in
    let same : s1 ≡ s' = cc in subst Inv same inv

-- In every interleaving, the answers that the calls give are those of the same calls made one after
-- the other, in the order in which they act on the set, which is a step of each between its begin and
-- its end; the keys of the list are those that these calls leave; and a call that has returned has
-- acted once with just the answer that it returns.
pub optimistic_linearizable :
    {s : System}
    → Reach s
    → IsSequential s.history
      × Represents (Keys s.memory) s.history
      × ((t : ℕ) (type : WorkType) (k : ℕ) (result : Bool)
          → s.threads t ≡ returned type k result
          → Has
              (record { thread = t; call = s.calls t; type = type; key = k; result = result })
              s.history)
optimistic_linearizable {s} reach =
    let inv = Reach-Inv reach in
    (
      inv.sequential,
      inv.represents,
      λ t type k result at.
          let told =
            subst (λ p. Told t (s.calls t) s.history (is_resting p) (answer_at p)) at
              (inv.told t) in
          told.1,
    )

-- Every step of a reachable state follows pointers to blocks in use only, and the nodes that are or
-- were in the list stay in the order of their keys.
pub optimistic_step_safe :
    {s : System} (t : ℕ) (w : Work) (node : ℕ)
    → Reach s
    → InKeys w.value
    → IsFresh s.memory node
    → (s' : System) × (step t w node s ≡ some s') × IsList s'.memory
optimistic_step_safe {s} t w node reach keys fresh =
    let (s', e, inv) = step_lem s t w node (Reach-Inv reach) keys fresh in (s', e, inv.list)
