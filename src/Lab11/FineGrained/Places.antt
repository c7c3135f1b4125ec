-- ===== src/Lab11/FineGrained/Places.antt =====
-- What a thread of lab11/fine_grained.cpp knows at each place of its code, and that the steps of the
-- others do not take it away.
use ite.Base.{ℕ, ◌≡◌, ◌≢◌, ◌<◌, refl, true, false, arith, ◌⊎◌, sym, ap, ◌∙◌, Option, none, some}
use mathlib.Core.Path.{subst}
use ite.Lab11.Chain.{inner}
use ite.Lab11.CoarseList.{remove}
use ite.Lab11.History.{InKeys, Answered}
use ite.Lab11.History.Calls as Calls
use ite.Lab11.FineGrained.{
  Node, Memory, Call, adding, removing, asking, After, answer, removed, Pc, idle, locking_head,
  reading, locking_curr, holding, unlocking_passed, add_first, add_second, remove_write,
  unlocking_prev, unlocking_curr, freeing, returned, Next, acts, is_resting,
}
use ite.Lab11.FineGrained.Shared.{key_of, next_of, IsLinked, Keys, IsList, Moves}

-- A node that its thread has not linked.
abbrev pub Private : Memory → ℕ → ℕ → Type 0
Private m n k = (m.allocated n ≡ true) × (m.linked n ≡ false) × (key_of m n ≡ k)

abbrev pub Owns : Memory → Call → ℕ → Type 0
Owns m (adding n) k = Private m n k
Owns m removing k = Unit
Owns m asking k = Unit

abbrev pub IsHeld : ℕ → Memory → ℕ → Type 0
IsHeld t m x = m.mutex x ≡ some t

-- A node whose pointer leads to the next node of the list.
abbrev pub Agrees : Memory → ℕ → Type 0
Agrees m x = next_of m x ≡ m.chain x

-- The thread holds the mutex of a node of the list with a smaller key.
pub record Grip (t : ℕ) (m : Memory) (call : Call) (k prev : ℕ) : Type 0 where
  pub keys : InKeys k
  pub owns : Owns m call k
  pub linked_prev : IsLinked m prev
  pub above : key_of m prev < k
  pub held_prev : IsHeld t m prev

-- It holds the mutex of the next node, too.
pub record Both (t : ℕ) (m : Memory) (call : Call) (k prev curr : ℕ) : Type 0 where
  pub grip : Grip t m call k prev
  pub agrees_prev : Agrees m prev
  pub neighbours : m.chain prev ≡ curr
  pub held_curr : IsHeld t m curr
  pub agrees_curr : Agrees m curr

abbrev pub Rest : ℕ → Memory → After → ℕ → Type 0
Rest t m (answer type k result) curr = IsLinked m curr × IsHeld t m curr × Agrees m curr
Rest t m (removed k) curr = (m.allocated curr ≡ true) × (m.linked curr ≡ false) × IsHeld t m curr

abbrev pub PcInv : ℕ → Memory → Pc → Type 0
PcInv t m idle = Unit
PcInv t m (locking_head call k) = InKeys k × Owns m call k
PcInv t m (reading call k prev) = Grip t m call k prev × Agrees m prev
PcInv t m (locking_curr call k prev curr) =
    Grip t m call k prev × Agrees m prev × (m.chain prev ≡ curr)
PcInv t m (holding call k prev curr) = Both t m call k prev curr
PcInv t m (unlocking_passed call k prev curr) = Both t m call k prev curr × (key_of m curr < k)
PcInv t m (add_first k n prev curr) = Both t m (adding n) k prev curr × (k < key_of m curr)
PcInv t m (add_second k n prev curr) =
    Grip t m (adding n) k prev
    × (next_of m prev ≡ n)
    × (m.chain prev ≡ curr)
    × IsHeld t m curr
    × Agrees m curr
    × (k < key_of m curr)
PcInv t m (remove_write k prev curr succ) =
    Both t m removing k prev curr × (m.chain curr ≡ succ) × (key_of m curr ≡ k)
PcInv t m (unlocking_prev after prev curr) =
    IsLinked m prev × IsHeld t m prev × Agrees m prev × (prev ≢ curr) × Rest t m after curr
PcInv t m (unlocking_curr after curr) = Rest t m after curr
PcInv t m (freeing k curr) = (m.allocated curr ≡ true) × (m.linked curr ≡ false)
PcInv t m (returned type k result) = Unit

abbrev pub CallHolds : Call → ℕ → Type 0
CallHolds (adding n) x = n ≡ x
CallHolds removing x = ⊥
CallHolds asking x = ⊥

abbrev pub AfterHolds : After → ℕ → ℕ → Type 0
AfterHolds (answer type k result) curr x = ⊥
AfterHolds (removed k) curr x = curr ≡ x

-- The node that a thread has not linked yet, or has taken out.
abbrev pub Holds : Pc → ℕ → Type 0
Holds idle x = ⊥
Holds (locking_head call k) x = CallHolds call x
Holds (reading call k prev) x = CallHolds call x
Holds (locking_curr call k prev curr) x = CallHolds call x
Holds (holding call k prev curr) x = CallHolds call x
Holds (unlocking_passed call k prev curr) x = CallHolds call x
Holds (add_first k n prev curr) x = n ≡ x
Holds (add_second k n prev curr) x = n ≡ x
Holds (remove_write k prev curr succ) x = ⊥
Holds (unlocking_prev after prev curr) x = AfterHolds after curr x
Holds (unlocking_curr after curr) x = AfterHolds after curr x
Holds (freeing k curr) x = curr ≡ x
Holds (returned type k result) x = ⊥

-- The nodes whose mutexes a thread holds.
abbrev pub HasLock : Pc → ℕ → Type 0
HasLock idle x = ⊥
HasLock (locking_head call k) x = ⊥
HasLock (reading call k prev) x = prev ≡ x
HasLock (locking_curr call k prev curr) x = prev ≡ x
HasLock (holding call k prev curr) x = (prev ≡ x) ⊎ (curr ≡ x)
HasLock (unlocking_passed call k prev curr) x = (prev ≡ x) ⊎ (curr ≡ x)
HasLock (add_first k n prev curr) x = (prev ≡ x) ⊎ (curr ≡ x)
HasLock (add_second k n prev curr) x = (prev ≡ x) ⊎ (curr ≡ x)
HasLock (remove_write k prev curr succ) x = (prev ≡ x) ⊎ (curr ≡ x)
HasLock (unlocking_prev after prev curr) x = (prev ≡ x) ⊎ (curr ≡ x)
HasLock (unlocking_curr after curr) x = curr ≡ x
HasLock (freeing k curr) x = ⊥
HasLock (returned type k result) x = ⊥

abbrev of_after : After → Answered
of_after (answer type k result) = some (type, k, result)
of_after (removed k) = some (remove, k, true)

-- The answer of the call, once it has acted on the set.
abbrev pub answer_at : Pc → Answered
answer_at (unlocking_prev after prev curr) = of_after after
answer_at (unlocking_curr after curr) = of_after after
answer_at (freeing k curr) = some (remove, k, true)
answer_at (returned type k result) = some (type, k, result)
answer_at p = none

abbrev pub Outcome : Answered → Memory → Pc → Memory → Pc → Type 0
Outcome act m p m' p' =
    Calls.Outcome act (Keys m) (Keys m') (is_resting p) (answer_at p) (answer_at p')

pub record Advance (t : ℕ) (m : Memory) (p : Pc) (m' : Memory) (p' : Pc) : Type 0 where
  pub moves : Moves t m m'
  pub mine : PcInv t m' p'
  pub mutex_kept : (u x : ℕ) → t ≢ u → m.allocated x ≡ true → IsHeld u m x → IsHeld u m' x
  pub untouched :
      (n : ℕ)
      → m.allocated n ≡ true
      → m.linked n ≡ false
      → (Holds p n → ⊥)
      → (m'.allocated n ≡ true) × (m'.linked n ≡ false) × (m'.nodes n ≡ m.nodes n)
  pub holds : (n : ℕ) → Holds p' n → Holds p n ⊎ ((m.allocated n ≡ false) ⊎ IsLinked m n)
  pub locks_back : (u x : ℕ) → t ≢ u → IsHeld u m' x → IsHeld u m x
  pub locks_mine : ((x : ℕ) → IsHeld t m x → HasLock p x) → (x : ℕ) → IsHeld t m' x → HasLock p' x
  pub outcome : Outcome (acts p m) m p m' p'

abbrev pub Proceeds : ℕ → Memory → Pc → Option Next → Type 0
Proceeds t m p o = (m' : Memory) × (p' : Pc) × (o ≡ some (m', p')) × Advance t m p m' p'

-- The second of two neighbours is in the list.
pub curr-IsLinked :
    {t : ℕ} (m : Memory) (list : IsList m) {call : Call} {k prev curr : ℕ}
    → Grip t m call k prev
    → m.chain prev ≡ curr
    → IsLinked m curr
curr-IsLinked m list {call} {k} {prev} grip e =
    ap m.linked (sym e)
    ∙ (list.chain.sorted prev grip.linked_prev
        (inner m.linked (key_of m) m.chain list.chain prev k grip.above grip.keys.1)).0

module _ {t u : ℕ} {m m' : Memory} {p p' : Pc} (list : IsList m) (step : Advance t m p m' p')
    (ne : t ≢ u) (q : Pc) (apart : (n : ℕ) → Holds q n → Holds p n → ⊥) where
  not_mine : (x : ℕ) → IsHeld u m x → m.mutex x ≢ some t
  not_mine x h e =
      let f : some t ≡ some u = sym e ∙ h in ne (ap (λ o. elim o [ none ↦ t | some n ↦ n ]) f)

  held : (x : ℕ) → IsLinked m x → IsHeld u m x → IsHeld u m' x
  held x l h = step.mutex_kept u x ne (list.in_memory x l) h

  keep-Owns :
      (call : Call) (k : ℕ)
      → ((n : ℕ) → CallHolds call n → Holds q n)
      → Owns m call k
      → Owns m' call k
  keep-Owns removing k own owns = tt
  keep-Owns asking k own owns = tt
  keep-Owns (adding n) k own (owned, alone, e) =
      let (owned', alone', same) = step.untouched n owned alone (apart n (own n refl)) in
      (owned', alone', ap (λ (x : Node). x.key) same ∙ e)

  keep-Grip :
      (call : Call) (k prev : ℕ)
      → ((n : ℕ) → CallHolds call n → Holds q n)
      → Grip u m call k prev
      → Grip u m' call k prev
  keep-Grip call k prev own grip = record {
    keys = grip.keys;
    owns = keep-Owns call k own grip.owns;
    linked_prev = step.moves.linked_kept prev grip.linked_prev (not_mine prev grip.held_prev);
    above = omega (arith, grip.above, step.moves.key_same prev grip.linked_prev);
    held_prev = held prev grip.linked_prev grip.held_prev;
  }

  keep-Agrees : (x : ℕ) → IsLinked m x → IsHeld u m x → Agrees m x → Agrees m' x
  keep-Agrees x l h e =
      step.moves.next_same x l (not_mine x h) ∙ e ∙ sym (step.moves.chain_same x l (not_mine x h))

  same_chain : (x y : ℕ) → IsLinked m x → IsHeld u m x → m.chain x ≡ y → m'.chain x ≡ y
  same_chain x y l h e = step.moves.chain_same x l (not_mine x h) ∙ e

  keep-Both :
      (call : Call) (k prev curr : ℕ)
      → ((n : ℕ) → CallHolds call n → Holds q n)
      → Both u m call k prev curr
      → Both u m' call k prev curr
  keep-Both call k prev curr own both =
      let lc = curr-IsLinked m list both.grip both.neighbours in
      record {
        grip = keep-Grip call k prev own both.grip;
        agrees_prev = keep-Agrees prev both.grip.linked_prev both.grip.held_prev both.agrees_prev;
        neighbours = same_chain prev curr both.grip.linked_prev both.grip.held_prev both.neighbours;
        held_curr = held curr lc both.held_curr;
        agrees_curr = keep-Agrees curr lc both.held_curr both.agrees_curr;
      }

  keep-Rest :
      (after : After) (curr : ℕ)
      → ((n : ℕ) → AfterHolds after curr n → Holds q n)
      → Rest u m after curr
      → Rest u m' after curr
  keep-Rest (answer type k result) curr own (l, h, a) =
      (step.moves.linked_kept curr l (not_mine curr h), held curr l h, keep-Agrees curr l h a)
  keep-Rest (removed k) curr own (owned, alone, h) =
      let (owned', alone', same) = step.untouched curr owned alone (apart curr (own curr refl)) in
      (owned', alone', step.mutex_kept u curr ne owned h)

  key : (x : ℕ) → IsLinked m x → key_of m' x ≡ key_of m x
  key = step.moves.key_same

  -- A step of another thread keeps what thread `u` knows.
  pub others : PcInv u m q → PcInv u m' q
  others h = go q refl h
    where
      own : (r : Pc) → q ≡ r → (n : ℕ) → Holds r n → Holds q n
      own r e n h = subst (λ x. Holds x n) (sym e) h

      go : (r : Pc) → q ≡ r → PcInv u m r → PcInv u m' r
      go idle e h = tt
      go (locking_head call k) e (keys, owns) =
          (keys, keep-Owns call k (own (locking_head call k) e) owns)
      go (reading call k prev) e (grip, a) = (
        keep-Grip call k prev (own (reading call k prev) e) grip,
        keep-Agrees prev grip.linked_prev grip.held_prev a,
      )
      go (locking_curr call k prev curr) e (grip, a, at) = (
        keep-Grip call k prev (own (locking_curr call k prev curr) e) grip,
        keep-Agrees prev grip.linked_prev grip.held_prev a,
        same_chain prev curr grip.linked_prev grip.held_prev at,
      )
      go (holding call k prev curr) e both =
          keep-Both call k prev curr (own (holding call k prev curr) e) both
      go (unlocking_passed call k prev curr) e (both, lt) = (
        keep-Both call k prev curr (own (unlocking_passed call k prev curr) e) both,
        omega (arith, lt, key curr (curr-IsLinked m list both.grip both.neighbours)),
      )
      go (add_first k n prev curr) e (both, lt) = (
        keep-Both (adding n) k prev curr (own (add_first k n prev curr) e) both,
        omega (arith, lt, key curr (curr-IsLinked m list both.grip both.neighbours)),
      )
      go (add_second k n prev curr) e (grip, leads, at, h, a, lt) =
          let lc = curr-IsLinked m list grip at in
          (
            keep-Grip (adding n) k prev (own (add_second k n prev curr) e) grip,
            step.moves.next_same prev grip.linked_prev (not_mine prev grip.held_prev) ∙ leads,
            same_chain prev curr grip.linked_prev grip.held_prev at,
            held curr lc h,
            keep-Agrees curr lc h a,
            omega (arith, lt, key curr lc),
          )
      go (remove_write k prev curr succ) e (both, leads, at_key) =
          let lc = curr-IsLinked m list both.grip both.neighbours in
          (
            keep-Both removing k prev curr (λ n h. elim h [ ]) both,
            same_chain curr succ lc both.held_curr leads,
            key curr lc ∙ at_key,
          )
      go (unlocking_prev after prev curr) e (lp, hp, a, apart', rest) = (
        step.moves.linked_kept prev lp (not_mine prev hp),
        held prev lp hp,
        keep-Agrees prev lp hp a,
        apart',
        keep-Rest after curr (own (unlocking_prev after prev curr) e) rest,
      )
      go (unlocking_curr after curr) e rest =
          keep-Rest after curr (own (unlocking_curr after curr) e) rest
      go (freeing k curr) e (owned, alone) =
          let (owned', alone', same) =
            step.untouched curr owned alone (apart curr (own (freeing k curr) e curr refl)) in
          (owned', alone')
      go (returned type k result) e h = tt
