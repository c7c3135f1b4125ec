-- ===== src/Lab11/LockFree/Results.antt =====
-- The calls of lab11/lockfree.cpp in every interleaving: each acts on the set, or answers for it, at
-- one time between its begin and its end.
use ite.Base.{
  ℕ, ◌≡◌, ◌≢◌, refl, Bool, true, false, arith, inl, inr, ◌⊎◌, sym, ap, ◌∙◌, ◌==◌, some, none,
  Bool-cases, Option, change, at_change,
}
use mathlib.Core.Path.{subst}
use ite.Lab11.CoarseList.{Work, WorkType, add, remove, contains, other}
use ite.Lab11.LockFree.{
  Memory, Pc, idle, find_start, find_succ, find_unlink, add_cas, remove_read, remove_cas,
  contains_at, returned, Next, thread_step, System, new_system, arrive, step, IsFresh, InKeys,
  Reach, start, later,
}
use ite.Lab11.LockFree.Order.{Member, Absent}
use ite.Lab11.LockFree.Actions.{Moves}
use ite.Lab11.LockFree.Local.{PcInv, Added, Effect, adds, removes, keeps}
use ite.Lab11.LockFree.Runs.{Reach-Inv, step-Taken}
use ite.Lab11.LockFree.Hindsight.{is_resting, is_begin, During}
use ite.Lab11.LockFree.Answers.{Answer, Note, Lands}
use ite.Lab11.LockFree.Calls.{own-Note}

step-Lands :
    (s s' : System) (t : ℕ) (w : Work) (node : ℕ)
    → step t w node s ≡ some s'
    → Lands (thread_step w node (s.threads t) s.memory) s'.memory (s'.threads t)
unfolding step
step-Lands s s' t w node e = go (thread_step w node (s.threads t) s.memory) refl
  where
    own : (p : Pc) → change s.threads t p t ≡ p
    own p = at_change s.threads t t p (λ x. x ≡ p) (λ _. refl) (λ ne. absurd (ne refl))

    go :
        (o : Option Next)
        → thread_step w node (s.threads t) s.memory ≡ o
        → Lands (thread_step w node (s.threads t) s.memory) s'.memory (s'.threads t)
    go none q = let f = rw (step, q) at e in absurd (ground arith)
    go (some (m, p)) q =
        let f = rw (step, q) at e in
        let same : arrive t s (m, p) ≡ s' = cc in
        q
        ∙ subst (λ (x : System). Lands (some (m, p)) x.memory (x.threads t)) same
            (ap (λ (r : Pc). some (m, r)) (sym (own p)))

-- What another thread has learnt stays with it.
other-Note :
    {m m' : Memory} (D D' : (Memory → Type 0) → Type 0) (p : Pc)
    → PcInv m p
    → Moves m m'
    → ((P : Memory → Type 0) → D P → D' P)
    → Note D m p
    → Note D' m' p
other-Note D D' idle h moves on note = tt
other-Note D D' (find_start call k) h moves on note = tt
other-Note {m} {m'} D D' (find_succ call k prev curr) (ks, owns, lp, lc, lt) moves on note =
    λ gt. on (λ x. Absent x k) (note (omega (arith, gt, moves.key_same curr lc)))
other-Note D D' (find_unlink call k prev curr succ) h moves on note = tt
other-Note D D' (add_cas k n prev curr) h moves on note = tt
other-Note D D' (remove_read k curr) h moves on note = tt
other-Note D D' (remove_cas k curr succ) h moves on note = tt
other-Note D D' (contains_at k curr) (ks, l) moves on (way, note) =
    (on _ way, λ gt. on (λ x. Absent x k) (note (omega (arith, gt, moves.key_same curr l))))
other-Note D D' (returned type k result) h moves on note = answer type result note
  where
    answer : (type : WorkType) (result : Bool) → Answer D type k result → Answer D' type k result
    answer add true a = tt
    answer add false a = on (λ x. Member x k) a
    answer remove true a = a
    answer remove false a = on (λ x. Absent x k) a
    answer contains true a = on (λ x. Member x k) a
    answer contains false a = on (λ x. Absent x k) a
    answer other result a = tt

notes : {s : System} (t : ℕ) (reach : Reach s) → Note (λ P. During t P reach) s.memory (s.threads t)
unfolding new_system
notes t start = tt
notes {s = s'} t (later {s} u w node reach keys fresh q) =
    let taken = step-Taken u w node (Reach-Inv reach) keys fresh q in
    elim (Bool-cases (u == t)) [
      | inl same ↦
          let e : u ≡ t = ground arith in
          let lands =
            subst (λ x. Lands (thread_step w node (s.threads x) s.memory) s'.memory (s'.threads x))
              e (step-Lands s s' u w node q) in
          own-Note t reach w node s'.memory (s'.threads t) taken.inv.list keys
            (λ P. During t P (later u w node reach keys fresh q)) (λ P h. inl h)
            (λ P busy h. inr (begins e busy, h)) (s.threads t) refl ((Reach-Inv reach).pcs t)
            (notes t reach) lands
      | inr differ ↦
          let ne : u ≢ t = ground arith in
          subst (Note (λ P. During t P (later u w node reach keys fresh q)) s'.memory)
            (sym (taken.same t ne))
            (other-Note (λ P. During t P reach)
              (λ P. During t P (later u w node reach keys fresh q)) (s.threads t)
              ((Reach-Inv reach).pcs t) taken.moved.moves (λ P h. inr (rw differ refl, h))
              (notes t reach))
    ]
  where
    begins : u ≡ t → is_resting (s.threads t) ≡ false → is_begin t u s ≡ false
    begins e busy = let f = ap (λ x. is_resting (s.threads x)) e ∙ busy in ground arith

-- Each step of a reachable state that is taken leaves the set of the unmarked keys as it is, but for
-- two: the CAS with which `list_add` returns true adds its key, which was not in the set, and the CAS
-- of `list_remove` that sets a mark takes out its key, which was in the set.
pub step-Effect :
    {s s' : System} (t : ℕ) (w : Work) (node : ℕ)
    → Reach s
    → InKeys w.value
    → IsFresh s.memory node
    → step t w node s ≡ some s'
    → Effect s.memory s'.memory (s.threads t) (s'.threads t)
step-Effect t w node reach keys fresh q =
    (step-Taken t w node (Reach-Inv reach) keys fresh q).moved.effect

note_at :
    {s : System} (t : ℕ) (reach : Reach s) (type : WorkType) (k : ℕ) (result : Bool)
    → s.threads t ≡ returned type k result
    → Answer (λ P. During t P reach) type k result
note_at {s} t reach type k result at =
    subst (Note (λ P. During t P reach) s.memory) at (notes t reach)

-- `P` holds between the memories before and after the last step of thread `t`.
abbrev pub LastStep : ℕ → (Memory → Memory → Type 0) → {s : System} → Reach s → Type 0
LastStep t P start = ⊥
LastStep t P {s = s'} (later {s} u w node reach keys fresh q) =
    ((u ≡ t) × P s.memory s'.memory) ⊎ ((u ≢ t) × LastStep t P reach)

-- What an answer of the last call of thread `t` says of the set.
abbrev pub Answered : ℕ → {s : System} → Reach s → WorkType → ℕ → Bool → Type 0
Answered t reach add k true = LastStep t (λ m m'. Added m m' k) reach
Answered t reach add k false = During t (λ m. Member m k) reach
Answered t reach remove k true = ⊥
Answered t reach remove k false = During t (λ m. Absent m k) reach
Answered t reach contains k true = During t (λ m. Member m k) reach
Answered t reach contains k false = During t (λ m. Absent m k) reach
Answered t reach other k result = Unit

key_returned : Pc → ℕ
key_returned (returned type k result) = k
key_returned p = 0

Effect-Added :
    {m m' : Memory} {p p' : Pc} (k : ℕ) → Effect m m' p p' → p' ≡ returned add k true → Added m m' k
unfolding key_returned
Effect-Added {m} {m'} k (adds key change) e = subst (Added m m') (ap key_returned e) change
Effect-Added k (removes key curr succ quiet change) e = let f = rw e at quiet in cc
Effect-Added k (keeps quiet same) e = let f = rw e at quiet in cc

last-Added :
    {s : System} (t : ℕ) (reach : Reach s) (k : ℕ)
    → s.threads t ≡ returned add k true
    → LastStep t (λ m m'. Added m m' k) reach
unfolding new_system
last-Added t start k e = absurd (ground arith)
last-Added {s = s'} t (later {s} u w node reach keys fresh q) k e =
    let taken = step-Taken u w node (Reach-Inv reach) keys fresh q in
    elim (Bool-cases (u == t)) [
      | inl same ↦
          let here : u ≡ t = ground arith in
          inl (here, Effect-Added k taken.moved.effect (ap s'.threads here ∙ e))
      | inr differ ↦
          let ne : u ≢ t = ground arith in
          inr (ne, last-Added t reach k (sym (taken.same t ne) ∙ e))
    ]

-- Whatever the order of the steps, when a call has returned: if `list_add` answers true, the last step
-- of its thread put the key into the set, where it was not before, and changed nothing else of the
-- set; if `list_add` answers false or `list_contains` true, the key was in the set at some time from
-- the begin of the call on; if `list_remove` or `list_contains` answers false, it was not in the set at
-- some such time; `list_remove` never answers true.
pub answer_lem :
    {s : System} (t : ℕ) (reach : Reach s) (type : WorkType) (k : ℕ) (result : Bool)
    → s.threads t ≡ returned type k result
    → Answered t reach type k result
answer_lem {s} t reach add k true at = last-Added t reach k at
answer_lem {s} t reach add k false at = note_at t reach add k false at
answer_lem {s} t reach remove k true at = note_at t reach remove k true at
answer_lem {s} t reach remove k false at = note_at t reach remove k false at
answer_lem {s} t reach contains k true at = note_at t reach contains k true at
answer_lem {s} t reach contains k false at = note_at t reach contains k false at
answer_lem {s} t reach other k result at = tt
