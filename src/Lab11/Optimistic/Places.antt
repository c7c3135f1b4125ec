-- ===== src/Lab11/Optimistic/Places.antt =====
-- What a thread of lab11/optimistic.cpp knows at each place of its code, and that the steps of the
-- others do not take it away.
use ite.Base.{
  ℕ, ◌≡◌, ◌≢◌, ◌<◌, ◌≤◌, refl, true, false, arith, ◌⊎◌, sym, ap, ◌∙◌, Option, none, some,
}
use mathlib.Core.Path.{subst}
use ite.Lab11.Nodes.{Reaches}
use ite.Lab11.History.{InKeys, Answered}
use ite.Lab11.History.Calls as Calls
use ite.Lab11.Optimistic.{
  Node, Memory, Call, adding, removing, asking, After, retry, answer, Pc, idle, searching, walking,
  locking_prev, locking_curr, validating, validated, add_write, remove_write, unlocking_prev,
  unlocking_curr, returned, Next, acts, is_resting,
}
use ite.Lab11.Optimistic.Shared.{key_of, next_of, IsLinked, InList, Keys, Moves}

-- A node that its thread has not linked.
abbrev pub Private : Memory → ℕ → ℕ → Type 0
Private m n k = (m.allocated n ≡ true) × (m.linked n ≡ false) × (key_of m n ≡ k)

abbrev pub Owns : Memory → Call → ℕ → Type 0
Owns m (adding n) k = Private m n k
Owns m removing k = Unit
Owns m asking k = Unit

abbrev pub IsHeld : ℕ → Memory → ℕ → Type 0
IsHeld t m x = m.mutex x ≡ some t

-- The place in the order of the keys, and its two nodes.
pub record At (m : Memory) (call : Call) (k prev curr : ℕ) : Type 0 where
  pub keys : InKeys k
  pub owns : Owns m call k
  pub linked_prev : IsLinked m prev
  pub linked_curr : IsLinked m curr
  pub above : key_of m prev < k

-- The thread holds both mutexes, and the nodes are neighbours in the list.
pub record Fixed (t : ℕ) (m : Memory) (k prev curr : ℕ) : Type 0 where
  pub below : k ≤ key_of m curr
  pub held_prev : IsHeld t m prev
  pub held_curr : IsHeld t m curr
  pub in_list : InList m prev
  pub neighbours : next_of m prev ≡ curr

abbrev pub AfterInv : Memory → After → Type 0
AfterInv m (retry call k) = InKeys k × Owns m call k
AfterInv m (answer type k result) = Unit

abbrev pub PcInv : ℕ → Memory → Pc → Type 0
PcInv t m idle = Unit
PcInv t m (searching call k) = InKeys k × Owns m call k
PcInv t m (walking call k prev curr) = At m call k prev curr
PcInv t m (locking_prev call k prev curr) = At m call k prev curr × (k ≤ key_of m curr)
PcInv t m (locking_curr call k prev curr) =
    At m call k prev curr × (k ≤ key_of m curr) × IsHeld t m prev
PcInv t m (validating call k prev curr it) =
    At m call k prev curr
    × (k ≤ key_of m curr)
    × IsHeld t m prev
    × IsHeld t m curr
    × IsLinked m it
    × (Reaches (next_of m) it prev → InList m prev)
PcInv t m (validated call k prev curr) = At m call k prev curr × Fixed t m k prev curr
PcInv t m (add_write k n prev curr) =
    At m (adding n) k prev curr × Fixed t m k prev curr × (next_of m n ≡ curr) × (k < key_of m curr)
PcInv t m (remove_write k prev curr succ) =
    At m removing k prev curr
    × Fixed t m k prev curr
    × (next_of m curr ≡ succ)
    × (key_of m curr ≡ k)
PcInv t m (unlocking_prev after prev curr) =
    IsLinked m prev
    × IsLinked m curr
    × IsHeld t m prev
    × IsHeld t m curr
    × (prev ≢ curr)
    × AfterInv m after
PcInv t m (unlocking_curr after curr) = IsLinked m curr × IsHeld t m curr × AfterInv m after
PcInv t m (returned type k result) = Unit

abbrev pub CallHolds : Call → ℕ → Type 0
CallHolds (adding n) x = n ≡ x
CallHolds removing x = ⊥
CallHolds asking x = ⊥

abbrev pub AfterHolds : After → ℕ → Type 0
AfterHolds (retry call k) x = CallHolds call x
AfterHolds (answer type k result) x = ⊥

-- The node that a thread has not linked yet.
abbrev pub Holds : Pc → ℕ → Type 0
Holds idle x = ⊥
Holds (searching call k) x = CallHolds call x
Holds (walking call k prev curr) x = CallHolds call x
Holds (locking_prev call k prev curr) x = CallHolds call x
Holds (locking_curr call k prev curr) x = CallHolds call x
Holds (validating call k prev curr it) x = CallHolds call x
Holds (validated call k prev curr) x = CallHolds call x
Holds (add_write k n prev curr) x = n ≡ x
Holds (remove_write k prev curr succ) x = ⊥
Holds (unlocking_prev after prev curr) x = AfterHolds after x
Holds (unlocking_curr after curr) x = AfterHolds after x
Holds (returned type k result) x = ⊥

abbrev of_after : After → Answered
of_after (retry call k) = none
of_after (answer type k result) = some (type, k, result)

-- The answer of the call, once it has acted on the set.
abbrev pub answer_at : Pc → Answered
answer_at (unlocking_prev after prev curr) = of_after after
answer_at (unlocking_curr after curr) = of_after after
answer_at (returned type k result) = some (type, k, result)
answer_at p = none

abbrev pub Outcome : Answered → Memory → Pc → Memory → Pc → Type 0
Outcome act m p m' p' =
    Calls.Outcome act (Keys m) (Keys m') (is_resting p) (answer_at p) (answer_at p')

pub record Advance (t : ℕ) (m : Memory) (p : Pc) (m' : Memory) (p' : Pc) : Type 0 where
  pub moves : Moves t m m'
  pub mine : PcInv t m' p'
  pub mutex_kept : (u x : ℕ) → t ≢ u → IsLinked m x → IsHeld u m x → IsHeld u m' x
  pub untouched :
      (n : ℕ)
      → m.allocated n ≡ true
      → m.linked n ≡ false
      → (Holds p n → ⊥)
      → (m'.allocated n ≡ true) × (m'.linked n ≡ false) × (m'.nodes n ≡ m.nodes n)
  pub holds : (n : ℕ) → Holds p' n → Holds p n ⊎ (m.allocated n ≡ false)
  pub outcome : Outcome (acts p m) m p m' p'

abbrev pub Proceeds : ℕ → Memory → Pc → Option Next → Type 0
Proceeds t m p o = (m' : Memory) × (p' : Pc) × (o ≡ some (m', p')) × Advance t m p m' p'

module _ {t u : ℕ} {m m' : Memory} {p p' : Pc} (step : Advance t m p m' p') (ne : t ≢ u) (q : Pc)
    (apart : (n : ℕ) → Holds q n → Holds p n → ⊥) where
  not_mine : (x : ℕ) → IsHeld u m x → m.mutex x ≢ some t
  not_mine x h e =
      let f : some t ≡ some u = sym e ∙ h in ne (ap (λ o. elim o [ none ↦ t | some n ↦ n ]) f)

  held : (x : ℕ) → IsLinked m x → IsHeld u m x → IsHeld u m' x
  held x l h = step.mutex_kept u x ne l h

  keep-Owns :
      (call : Call) (k : ℕ)
      → ((n : ℕ) → CallHolds call n → Holds q n)
      → Owns m call k
      → Owns m' call k
  keep-Owns removing k own owns = tt
  keep-Owns asking k own owns = tt
  keep-Owns (adding n) k own (owned, alone, e) =
      let (owned', alone', same) = step.untouched n owned alone (apart n (own n refl)) in
      (owned', alone', ap (λ (x : Node). x.key) same ∙ e)

  keep-At :
      (call : Call) (k prev curr : ℕ)
      → ((n : ℕ) → CallHolds call n → Holds q n)
      → At m call k prev curr
      → At m' call k prev curr
  keep-At call k prev curr own at = record {
    keys = at.keys;
    owns = keep-Owns call k own at.owns;
    linked_prev = step.moves.linked_on prev at.linked_prev;
    linked_curr = step.moves.linked_on curr at.linked_curr;
    above = omega (arith, at.above, step.moves.key_same prev at.linked_prev);
  }

  below : (k x : ℕ) → IsLinked m x → k ≤ key_of m x → k ≤ key_of m' x
  below k x l le = omega (arith, le, step.moves.key_same x l)

  keep-Fixed :
      (k prev curr : ℕ)
      → IsLinked m prev
      → IsLinked m curr
      → Fixed u m k prev curr
      → Fixed u m' k prev curr
  keep-Fixed k prev curr lp lc fixed = record {
    below = below k curr lc fixed.below;
    held_prev = held prev lp fixed.held_prev;
    held_curr = held curr lc fixed.held_curr;
    in_list = step.moves.in_kept prev lp (not_mine prev fixed.held_prev) fixed.in_list;
    neighbours = step.moves.next_same prev lp (not_mine prev fixed.held_prev) ∙ fixed.neighbours;
  }

  keep_after :
      (after : After)
      → ((n : ℕ) → AfterHolds after n → Holds q n)
      → AfterInv m after
      → AfterInv m' after
  keep_after (retry call k) own (keys, owns) = (keys, keep-Owns call k own owns)
  keep_after (answer type k result) own h = tt

  -- A step of another thread keeps what thread `u` knows.
  pub others : PcInv u m q → PcInv u m' q
  others h = go q refl h
    where
      own : (r : Pc) → q ≡ r → (n : ℕ) → Holds r n → Holds q n
      own r e n h = subst (λ x. Holds x n) (sym e) h

      go : (r : Pc) → q ≡ r → PcInv u m r → PcInv u m' r
      go idle e h = tt
      go (searching call k) e (keys, owns) =
          (keys, keep-Owns call k (own (searching call k) e) owns)
      go (walking call k prev curr) e at =
          keep-At call k prev curr (own (walking call k prev curr) e) at
      go (locking_prev call k prev curr) e (at, le) = (
        keep-At call k prev curr (own (locking_prev call k prev curr) e) at,
        below k curr at.linked_curr le,
      )
      go (locking_curr call k prev curr) e (at, le, hp) = (
        keep-At call k prev curr (own (locking_curr call k prev curr) e) at,
        below k curr at.linked_curr le,
        held prev at.linked_prev hp,
      )
      go (validating call k prev curr it) e (at, le, hp, hc, l, way) = (
        keep-At call k prev curr (own (validating call k prev curr it) e) at,
        below k curr at.linked_curr le,
        held prev at.linked_prev hp,
        held curr at.linked_curr hc,
        step.moves.linked_on it l,
        λ w.
            step.moves.in_kept prev at.linked_prev (not_mine prev hp)
              (way (step.moves.way_back it prev l at.linked_prev w)),
      )
      go (validated call k prev curr) e (at, fixed) = (
        keep-At call k prev curr (own (validated call k prev curr) e) at,
        keep-Fixed k prev curr at.linked_prev at.linked_curr fixed,
      )
      go (add_write k n prev curr) e (at, fixed, leads, lt) =
          let (owned, alone, key) = at.owns in
          let (owned', alone', same) =
            step.untouched n owned alone (apart n (own (add_write k n prev curr) e n refl)) in
          (
            keep-At (adding n) k prev curr (own (add_write k n prev curr) e) at,
            keep-Fixed k prev curr at.linked_prev at.linked_curr fixed,
            ap (λ (x : Node). x.next) same ∙ leads,
            omega (arith, lt, step.moves.key_same curr at.linked_curr),
          )
      go (remove_write k prev curr succ) e (at, fixed, leads, key) = (
        keep-At removing k prev curr (λ n h. elim h [ ]) at,
        keep-Fixed k prev curr at.linked_prev at.linked_curr fixed,
        step.moves.next_same curr at.linked_curr (not_mine curr fixed.held_curr) ∙ leads,
        step.moves.key_same curr at.linked_curr ∙ key,
      )
      go (unlocking_prev after prev curr) e (lp, lc, hp, hc, apart', h) = (
        step.moves.linked_on prev lp,
        step.moves.linked_on curr lc,
        held prev lp hp,
        held curr lc hc,
        apart',
        keep_after after (own (unlocking_prev after prev curr) e) h,
      )
      go (unlocking_curr after curr) e (lc, hc, h) = (
        step.moves.linked_on curr lc,
        held curr lc hc,
        keep_after after (own (unlocking_curr after curr) e) h,
      )
      go (returned type k result) e h = tt
