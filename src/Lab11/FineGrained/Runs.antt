-- ===== src/Lab11/FineGrained/Runs.antt =====
-- The reachable states of lab11/fine_grained.cpp: its calls are those of one thread after the other.
use ite.Base.{
  ℕ, ◌≡◌, ◌≢◌, true, false, arith, inl, inr, sym, ap, ◌∙◌, ◌==◌, Bool-cases, change, at_change,
}
use mathlib.Core.Path.{subst}
use ite.Lab11.Ownership.{apart_after}
use ite.Lab11.History.{record_event, next_call, IsSequential, Represents}
use ite.Lab11.History.Calls.{
  Told, Outcome-Represents, Outcome-IsSequential, Outcome-Told, other-Told,
}
use ite.Lab11.FineGrained.{
  Memory, Call, adding, removing, asking, After, answer, removed, Pc, idle, locking_head, reading,
  locking_curr, holding, unlocking_passed, add_first, add_second, remove_write, unlocking_prev,
  unlocking_curr, freeing, returned, acts, is_resting, System, arrive,
}
use ite.Lab11.FineGrained.Shared.{Keys, IsList}
use ite.Lab11.FineGrained.Places.{
  PcInv, CallHolds, AfterHolds, Holds, HasLock, IsHeld, Owns, Rest, answer_at, Advance, others,
}

pub record Inv (s : System) : Type 0 where
  pub list : IsList s.memory
  pub pcs : (t : ℕ) → PcInv t s.memory (s.threads t)
  pub apart : (t u n : ℕ) → Holds (s.threads t) n → Holds (s.threads u) n → t ≡ u
  pub sequential : IsSequential s.history
  pub represents : Represents (Keys s.memory) s.history
  pub locks : (t x : ℕ) → IsHeld t s.memory x → HasLock (s.threads t) x
  pub told :
      (t : ℕ) → Told t (s.calls t) s.history (is_resting (s.threads t)) (answer_at (s.threads t))

Owns-owned :
    (m : Memory) (call : Call) (k n : ℕ)
    → Owns m call k
    → CallHolds call n
    → (m.allocated n ≡ true) × (m.linked n ≡ false)
Owns-owned m (adding x) k n (owned, alone, e) h =
    (ap m.allocated (sym h) ∙ owned, ap m.linked (sym h) ∙ alone)
Owns-owned m removing k n owns h = elim h [ ]
Owns-owned m asking k n owns h = elim h [ ]

Rest-owned :
    (t : ℕ) (m : Memory) (after : After) (curr n : ℕ)
    → Rest t m after curr
    → AfterHolds after curr n
    → (m.allocated n ≡ true) × (m.linked n ≡ false)
Rest-owned t m (answer type k result) curr n h held = elim held [ ]
Rest-owned t m (removed k) curr n (owned, alone, h) held =
    (ap m.allocated (sym held) ∙ owned, ap m.linked (sym held) ∙ alone)

Holds-owned :
    (t : ℕ) (m : Memory) (p : Pc) (n : ℕ)
    → PcInv t m p
    → Holds p n
    → (m.allocated n ≡ true) × (m.linked n ≡ false)
Holds-owned t m idle n h held = elim held [ ]
Holds-owned t m (locking_head call k) n (keys, owns) held = Owns-owned m call k n owns held
Holds-owned t m (reading call k prev) n h held = Owns-owned m call k n h.0.owns held
Holds-owned t m (locking_curr call k prev curr) n h held = Owns-owned m call k n h.0.owns held
Holds-owned t m (holding call k prev curr) n both held = Owns-owned m call k n both.grip.owns held
Holds-owned t m (unlocking_passed call k prev curr) n h held =
    Owns-owned m call k n h.0.grip.owns held
Holds-owned t m (add_first k x prev curr) n h held = Owns-owned m (adding x) k n h.0.grip.owns held
Holds-owned t m (add_second k x prev curr) n h held = Owns-owned m (adding x) k n h.0.owns held
Holds-owned t m (remove_write k prev curr succ) n h held = elim held [ ]
Holds-owned t m (unlocking_prev after prev curr) n h held = Rest-owned t m after curr n h.4 held
Holds-owned t m (unlocking_curr after curr) n h held = Rest-owned t m after curr n h held
Holds-owned t m (freeing k curr) n (owned, alone) held =
    (ap m.allocated (sym held) ∙ owned, ap m.linked (sym held) ∙ alone)
Holds-owned t m (returned type k b) n h held = elim held [ ]

module _ (s : System) (t : ℕ) (inv : Inv s) (m' : Memory) (p' : Pc)
    (moved : Advance t s.memory (s.threads t) m' p') where
  -- A node that the thread holds now is held by no other.
  alone : (u n : ℕ) → t ≢ u → Holds p' n → Holds (s.threads u) n → ⊥
  alone u n ne mine theirs = elim (moved.holds n mine) [
    | inl before ↦ ne (inv.apart t u n before theirs)
    | inr new ↦
        let (owned, out) = Holds-owned u s.memory (s.threads u) n (inv.pcs u) theirs in
        elim new [ inl fresh ↦ ground arith | inr linked ↦ ground arith ]
  ]

  after-Told :
      (u : ℕ)
      → Told u
          (change s.calls t (next_call (is_resting (s.threads t)) (s.calls t)) u)
          (record_event t (s.calls t) (acts (s.threads t) s.memory) s.history)
          (is_resting (change s.threads t p' u))
          (answer_at (change s.threads t p' u))
  after-Told u = elim (Bool-cases (t == u)) [
    | inl same ↦
        let e : t ≡ u = ground arith in
        rw same (
          subst
            (λ x.
              Told x (next_call (is_resting (s.threads t)) (s.calls t))
                (record_event t (s.calls t) (acts (s.threads t) s.memory) s.history) (is_resting p')
                (answer_at p'))
            e
            (Outcome-Told t (s.calls t) s.history (Keys s.memory) (Keys m') inv.represents
              inv.sequential (is_resting (s.threads t)) (answer_at (s.threads t)) (answer_at p')
              (inv.told t) (acts (s.threads t) s.memory) (is_resting p') moved.outcome))
    | inr differ ↦
        let ne : t ≢ u = ground arith in
        rw differ (
          other-Told t (s.calls t) s.history (acts (s.threads t) s.memory) u (s.calls u)
            (is_resting (s.threads u)) (answer_at (s.threads u)) ne (inv.told u))
  ]

  pub Advance-Inv : Inv (arrive t s (m', p'))
  Advance-Inv = record {
    list = moved.moves.list;
    pcs = λ u.
        at_change s.threads t u p' (PcInv u m') (λ e. subst (λ x. PcInv x m' p') e moved.mine)
          (λ ne.
            others inv.list moved ne (s.threads u)
              (λ n theirs mine. ne (inv.apart t u n mine theirs)) (inv.pcs u));
    apart = apart_after Holds s.threads t p' inv.apart alone;
    sequential =
        Outcome-IsSequential t (s.calls t) s.history (Keys s.memory) (Keys m') inv.represents
          inv.sequential (is_resting (s.threads t)) (answer_at (s.threads t)) (answer_at p')
          (inv.told t) (acts (s.threads t) s.memory) moved.outcome;
    represents =
        Outcome-Represents t (s.calls t) s.history (Keys s.memory) (Keys m') inv.represents
          inv.sequential (is_resting (s.threads t)) (answer_at (s.threads t)) (answer_at p')
          (inv.told t) (acts (s.threads t) s.memory) moved.outcome;
    locks = λ u x h.
        at_change s.threads t u p' (λ p. HasLock p x)
          (λ e. moved.locks_mine (inv.locks t) x (subst (λ v. IsHeld v m' x) (sym e) h))
          (λ ne. inv.locks u x (moved.locks_back u x ne h));
    told = after-Told;
  }
