-- ===== src/Lab11/LockFree/Runs.antt =====
-- The reachable states of lab11/lockfree.cpp.
use ite.Base.{ℕ, ◌≡◌, ◌≢◌, refl, true, arith, inl, inr, sym, ap, ◌∙◌, some, at_change}
use mathlib.Core.Path.{subst}
use ite.Lab11.Ownership.{apart_after}
use ite.Lab11.CoarseList.{Work}
use ite.Lab11.LockFree.{
  Memory, Call, adding, removing, Pc, idle, find_start, find_succ, find_unlink, add_cas,
  remove_read, remove_cas, contains_at, returned, System, new_system, arrive, step, IsFresh, InKeys,
  Reach, start, later,
}
use ite.Lab11.LockFree.Order.{IsList, list_init-IsList}
use ite.Lab11.LockFree.Local.{PcInv, CallHolds, Holds, Owns, Advance}
use ite.Lab11.LockFree.Steps.{others}
use ite.Lab11.LockFree.Progress.{thread_step_lem}

pub record Inv (s : System) : Type 0 where
  pub list : IsList s.memory
  pub pcs : (t : ℕ) → PcInv s.memory (s.threads t)
  pub apart : (t u n : ℕ) → Holds (s.threads t) n → Holds (s.threads u) n → t ≡ u

Owns-owned :
    (m : Memory) (call : Call) (k n : ℕ) → Owns m call k → CallHolds call n → m.allocated n ≡ true
Owns-owned m (adding x) k n (owned, alone, e) h = ap m.allocated (sym h) ∙ owned
Owns-owned m removing k n owns h = elim h [ ]

Holds-owned : (m : Memory) (p : Pc) (n : ℕ) → PcInv m p → Holds p n → m.allocated n ≡ true
Holds-owned m idle n h held = elim held [ ]
Holds-owned m (find_start call k) n (keys, owns) held = Owns-owned m call k n owns held
Holds-owned m (find_succ call k prev curr) n h held = Owns-owned m call k n h.1 held
Holds-owned m (find_unlink call k prev curr succ) n (h, e, f) held = Owns-owned m call k n h.1 held
Holds-owned m (add_cas k x prev curr) n (keys, key, fits) held =
    ap m.allocated (sym held) ∙ fits.owned
Holds-owned m (remove_read k curr) n h held = elim held [ ]
Holds-owned m (remove_cas k curr succ) n h held = elim held [ ]
Holds-owned m (contains_at k curr) n h held = elim held [ ]
Holds-owned m (returned type k b) n h held = elim held [ ]

module _ (s : System) (t : ℕ) (inv : Inv s) (m' : Memory) (p' : Pc)
    (moved : Advance s.memory (s.threads t) m' p') where
  -- A node that the thread holds now is held by no other.
  alone : (u n : ℕ) → t ≢ u → Holds p' n → Holds (s.threads u) n → ⊥
  alone u n ne mine theirs = elim (moved.holds n mine) [
    | inl before ↦ ne (inv.apart t u n before theirs)
    | inr fresh ↦
        let owned = Holds-owned s.memory (s.threads u) n (inv.pcs u) theirs in ground arith
  ]

  pub Advance-Inv : Inv (arrive t s (m', p'))
  Advance-Inv = record {
    list = moved.moves.list;
    pcs = λ u.
        at_change s.threads t u p' (PcInv m') (λ _. moved.mine)
          (λ ne.
            others moved (s.threads u) (λ n theirs mine. ne (inv.apart t u n mine theirs))
              (inv.pcs u));
    apart = apart_after Holds s.threads t p' inv.apart alone;
  }

-- A step is taken, and is an advance of its thread.
pub record Taken (t : ℕ) (s s' : System) : Type 0 where
  pub moved : Advance s.memory (s.threads t) s'.memory (s'.threads t)
  pub same : (u : ℕ) → t ≢ u → s'.threads u ≡ s.threads u
  pub inv : Inv s'

arrive-Taken :
    (s : System) (t : ℕ) (m' : Memory) (p' : Pc)
    → Inv s
    → Advance s.memory (s.threads t) m' p'
    → Taken t s (arrive t s (m', p'))
arrive-Taken s t m' p' inv moved = record {
  moved =
      at_change s.threads t t p' (Advance s.memory (s.threads t) m') (λ _. moved)
        (λ ne. absurd (ne refl));
  same = λ u ne. at_change s.threads t u p' (λ p. p ≡ s.threads u) (λ e. absurd (ne e)) (λ _. refl);
  inv = Advance-Inv s t inv m' p' moved;
}

pub step_lem :
    (s : System) (t : ℕ) (w : Work) (node : ℕ)
    → Inv s
    → InKeys w.value
    → IsFresh s.memory node
    → (s' : System) × (step t w node s ≡ some s') × Taken t s s'
unfolding step
step_lem s t w node inv keys fresh =
    let (m', p', e, moved) =
      thread_step_lem s.memory inv.list w node (s.threads t) (inv.pcs t) keys fresh in
    (arrive t s (m', p'), rw (step, e) refl, arrive-Taken s t m' p' inv moved)

pub step-Taken :
    {s s' : System} (t : ℕ) (w : Work) (node : ℕ)
    → Inv s
    → InKeys w.value
    → IsFresh s.memory node
    → step t w node s ≡ some s'
    → Taken t s s'
step-Taken {s} {s'} t w node inv keys fresh q =
    let (s1, e, taken) = step_lem s t w node inv keys fresh in
    let same : s1 ≡ s' = cc in subst (Taken t s) same taken

pub Reach-Inv : {s : System} → Reach s → Inv s
unfolding new_system
Reach-Inv start = record { list = list_init-IsList; pcs = λ t. tt; apart = λ t u n h. elim h [ ] }
Reach-Inv (later t w node reach keys fresh q) =
    (step-Taken t w node (Reach-Inv reach) keys fresh q).inv

-- No step of a reachable state follows a pointer to no block or a marked pointer; the list that it
-- leaves is sorted, and all its nodes without a mark are on the way from `head`.
pub step-IsList :
    {s : System} (t : ℕ) (w : Work) (node : ℕ)
    → Reach s
    → InKeys w.value
    → IsFresh s.memory node
    → (s' : System) × (step t w node s ≡ some s') × IsList s'.memory
step-IsList {s} t w node reach keys fresh =
    let (s', e, taken) = step_lem s t w node (Reach-Inv reach) keys fresh in (s', e, taken.inv.list)
