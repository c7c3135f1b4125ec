-- ===== src/Lab11/Optimistic/Runs.antt =====
-- The reachable states of lab11/optimistic.cpp: its calls are those of one thread after the other.
use ite.Base.{
  ℕ, ◌≡◌, ◌≢◌, refl, true, arith, inl, inr, sym, ap, ◌∙◌, ◌==◌, Bool-cases, change, at_change,
}
use mathlib.Core.Path.{subst}
use ite.Lab11.Ownership.{apart_after}
use ite.Lab11.CoarseList.{Work}
use ite.Lab11.History.{record_event, next_call, IsSequential, InKeys, Represents}
use ite.Lab11.History.Calls.{
  Told, Outcome-Represents, Outcome-IsSequential, Outcome-Told, other-Told,
}
use ite.Lab11.Optimistic.{
  Memory, Call, adding, removing, asking, After, retry, answer, Pc, idle, searching, walking,
  locking_prev, locking_curr, validating, validated, add_write, remove_write, unlocking_prev,
  unlocking_curr, returned, thread_step, acts, is_resting, System, arrive, IsFresh,
}
use ite.Lab11.Optimistic.Shared.{Keys, IsList}
use ite.Lab11.Optimistic.Places.{
  PcInv, CallHolds, AfterHolds, Holds, Owns, AfterInv, answer_at, Advance, Proceeds, others,
}
use ite.Lab11.Optimistic.Ends.{begin_lem, unlocking_prev_lem, unlocking_curr_lem}
use ite.Lab11.Optimistic.Search.{
  searching_lem, walking_lem, locking_prev_lem, locking_curr_lem, validating_lem,
}
use ite.Lab11.Optimistic.Writes.{validated_lem, add_write_lem, remove_write_lem}

pub thread_step_lem :
    (t : ℕ) (m : Memory) (list : IsList m) (w : Work) (node : ℕ) (p : Pc)
    → PcInv t m p
    → InKeys w.value
    → IsFresh m node
    → Proceeds t m p (thread_step t w node p m)
unfolding thread_step acts
thread_step_lem t m list w node idle h keys fresh =
    begin_lem t m list w node idle refl refl keys fresh
thread_step_lem t m list w node (returned type k b) h keys fresh =
    begin_lem t m list w node (returned type k b) refl refl keys fresh
thread_step_lem t m list w node (searching call k) h keys fresh =
    searching_lem t m list w node call k h
thread_step_lem t m list w node (walking call k prev curr) h keys fresh =
    walking_lem t m list w node call k prev curr h
thread_step_lem t m list w node (locking_prev call k prev curr) h keys fresh =
    locking_prev_lem t m list w node call k prev curr h
thread_step_lem t m list w node (locking_curr call k prev curr) h keys fresh =
    locking_curr_lem t m list w node call k prev curr h
thread_step_lem t m list w node (validating call k prev curr it) h keys fresh =
    validating_lem t m list w node call k prev curr it h
thread_step_lem t m list w node (validated call k prev curr) h keys fresh =
    validated_lem t m list w node k prev curr call h
thread_step_lem t m list w node (add_write k n prev curr) h keys fresh =
    add_write_lem t m list w node k prev curr n h
thread_step_lem t m list w node (remove_write k prev curr succ) h keys fresh =
    remove_write_lem t m list w node k prev curr succ h
thread_step_lem t m list w node (unlocking_prev after prev curr) h keys fresh =
    unlocking_prev_lem t m list w node after prev curr h
thread_step_lem t m list w node (unlocking_curr after curr) h keys fresh =
    unlocking_curr_lem t m list w node after curr h

pub record Inv (s : System) : Type 0 where
  pub list : IsList s.memory
  pub pcs : (t : ℕ) → PcInv t s.memory (s.threads t)
  pub apart : (t u n : ℕ) → Holds (s.threads t) n → Holds (s.threads u) n → t ≡ u
  pub sequential : IsSequential s.history
  pub represents : Represents (Keys s.memory) s.history
  pub told :
      (t : ℕ) → Told t (s.calls t) s.history (is_resting (s.threads t)) (answer_at (s.threads t))

Owns-owned :
    (m : Memory) (call : Call) (k n : ℕ) → Owns m call k → CallHolds call n → m.allocated n ≡ true
Owns-owned m (adding x) k n (owned, alone, e) h = ap m.allocated (sym h) ∙ owned
Owns-owned m removing k n owns h = elim h [ ]
Owns-owned m asking k n owns h = elim h [ ]

After-owned :
    (m : Memory) (after : After) (n : ℕ)
    → AfterInv m after
    → AfterHolds after n
    → m.allocated n ≡ true
After-owned m (retry call k) n (keys, owns) h = Owns-owned m call k n owns h
After-owned m (answer type k result) n h held = elim held [ ]

Holds-owned : (t : ℕ) (m : Memory) (p : Pc) (n : ℕ) → PcInv t m p → Holds p n → m.allocated n ≡ true
Holds-owned t m idle n h held = elim held [ ]
Holds-owned t m (searching call k) n (keys, owns) held = Owns-owned m call k n owns held
Holds-owned t m (walking call k prev curr) n at held = Owns-owned m call k n at.owns held
Holds-owned t m (locking_prev call k prev curr) n h held = Owns-owned m call k n h.0.owns held
Holds-owned t m (locking_curr call k prev curr) n h held = Owns-owned m call k n h.0.owns held
Holds-owned t m (validating call k prev curr it) n h held = Owns-owned m call k n h.0.owns held
Holds-owned t m (validated call k prev curr) n h held = Owns-owned m call k n h.0.owns held
Holds-owned t m (add_write k x prev curr) n h held = ap m.allocated (sym held) ∙ h.0.owns.0
Holds-owned t m (remove_write k prev curr succ) n h held = elim held [ ]
Holds-owned t m (unlocking_prev after prev curr) n h held = After-owned m after n h.5 held
Holds-owned t m (unlocking_curr after curr) n h held = After-owned m after n h.2 held
Holds-owned t m (returned type k b) n h held = elim held [ ]

module _ (s : System) (t : ℕ) (inv : Inv s) (m' : Memory) (p' : Pc)
    (moved : Advance t s.memory (s.threads t) m' p') where
  -- A node that the thread holds now is held by no other.
  alone : (u n : ℕ) → t ≢ u → Holds p' n → Holds (s.threads u) n → ⊥
  alone u n ne mine theirs = elim (moved.holds n mine) [
    | inl before ↦ ne (inv.apart t u n before theirs)
    | inr fresh ↦
        let owned = Holds-owned u s.memory (s.threads u) n (inv.pcs u) theirs in ground arith
  ]

  after-Told :
      (u : ℕ)
      → Told u
          (change s.calls t (next_call (is_resting (s.threads t)) (s.calls t)) u)
          (record_event t (s.calls t) (acts (s.threads t) s.memory) s.history)
          (is_resting (change s.threads t p' u))
          (answer_at (change s.threads t p' u))
  after-Told u = elim (Bool-cases (t == u)) [
    | inl same ↦
        let e : t ≡ u = ground arith in
        rw same (
          subst
            (λ x.
              Told x (next_call (is_resting (s.threads t)) (s.calls t))
                (record_event t (s.calls t) (acts (s.threads t) s.memory) s.history) (is_resting p')
                (answer_at p'))
            e
            (Outcome-Told t (s.calls t) s.history (Keys s.memory) (Keys m') inv.represents
              inv.sequential (is_resting (s.threads t)) (answer_at (s.threads t)) (answer_at p')
              (inv.told t) (acts (s.threads t) s.memory) (is_resting p') moved.outcome))
    | inr differ ↦
        let ne : t ≢ u = ground arith in
        rw differ (
          other-Told t (s.calls t) s.history (acts (s.threads t) s.memory) u (s.calls u)
            (is_resting (s.threads u)) (answer_at (s.threads u)) ne (inv.told u))
  ]

  pub Advance-Inv : Inv (arrive t s (m', p'))
  Advance-Inv = record {
    list = moved.moves.list;
    pcs = λ u.
        at_change s.threads t u p' (PcInv u m') (λ e. subst (λ x. PcInv x m' p') e moved.mine)
          (λ ne.
            others moved ne (s.threads u) (λ n theirs mine. ne (inv.apart t u n mine theirs))
              (inv.pcs u));
    apart = apart_after Holds s.threads t p' inv.apart alone;
    sequential =
        Outcome-IsSequential t (s.calls t) s.history (Keys s.memory) (Keys m') inv.represents
          inv.sequential (is_resting (s.threads t)) (answer_at (s.threads t)) (answer_at p')
          (inv.told t) (acts (s.threads t) s.memory) moved.outcome;
    represents =
        Outcome-Represents t (s.calls t) s.history (Keys s.memory) (Keys m') inv.represents
          inv.sequential (is_resting (s.threads t)) (answer_at (s.threads t)) (answer_at p')
          (inv.told t) (acts (s.threads t) s.memory) moved.outcome;
    told = after-Told;
  }
