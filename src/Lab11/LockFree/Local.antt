-- ===== src/Lab11/LockFree/Local.antt =====
-- What a thread of lab11/lockfree.cpp knows at each place of its code, and the steps that touch no
-- linked node.
use ite.Base.{
  ℕ, ◌≡◌, ◌≢◌, ◌<◌, refl, Bool, true, false, arith, inl, inr, ◌⊎◌, sym, ap, ◌∙◌, ◌↔◌, some,
  Bool-cases, at_change, Option,
}
use mathlib.Core.Path.{subst}
use ite.Lab11.CoarseList.{add}
use ite.Lab11.LockFree.{
  Pointer, Memory, set_next, malloc, free, Call, adding, removing, Pc, idle, find_start, find_succ,
  find_unlink, add_cas, remove_read, remove_cas, contains_at, returned, Next, IsFresh, InKeys,
}
use ite.Lab11.LockFree.Order.{key_of, next_of, mark_of, IsLinked, IsList, Member, Absent}
use ite.Lab11.LockFree.Actions.{
  Moves, SameMembers, Neutral, Neutral-Moves, Neutral-SameMembers, apart-set_next,
}
use ite.Lab11.LockFree.Linking.{Fits}

-- A node that its thread has not linked.
abbrev pub Private : Memory → ℕ → ℕ → Type 0
Private m n k = (m.allocated n ≡ true) × (m.linked n ≡ false) × (key_of m n ≡ k)

abbrev pub Owns : Memory → Call → ℕ → Type 0
Owns m (adding n) k = Private m n k
Owns m removing k = Unit

abbrev pub At : Memory → Call → (key prev curr : ℕ) → Type 0
At m call k prev curr =
    InKeys k × Owns m call k × IsLinked m prev × IsLinked m curr × (key_of m prev < k)

abbrev pub PcInv : Memory → Pc → Type 0
PcInv m idle = Unit
PcInv m (find_start call k) = InKeys k × Owns m call k
PcInv m (find_succ call k prev curr) = At m call k prev curr
PcInv m (find_unlink call k prev curr succ) =
    (At m call k prev curr) × (mark_of m curr ≡ true) × (next_of m curr ≡ succ)
PcInv m (add_cas k n prev curr) = InKeys k × (key_of m n ≡ k) × Fits m n prev curr
PcInv m (remove_read k curr) = InKeys k × IsLinked m curr × (key_of m curr ≡ k)
PcInv m (remove_cas k curr succ) = InKeys k × IsLinked m curr × (key_of m curr ≡ k)
PcInv m (contains_at k curr) = InKeys k × IsLinked m curr
PcInv m (returned type k result) = Unit

abbrev pub CallHolds : Call → ℕ → Type 0
CallHolds (adding n) x = n ≡ x
CallHolds removing x = ⊥

-- The node that a thread has not linked yet.
abbrev pub Holds : Pc → ℕ → Type 0
Holds idle x = ⊥
Holds (find_start call k) x = CallHolds call x
Holds (find_succ call k prev curr) x = CallHolds call x
Holds (find_unlink call k prev curr succ) x = CallHolds call x
Holds (add_cas k n prev curr) x = n ≡ x
Holds (remove_read k curr) x = ⊥
Holds (remove_cas k curr succ) x = ⊥
Holds (contains_at k curr) x = ⊥
Holds (returned type k result) x = ⊥

abbrev pub is_added : Pc → Bool
is_added (returned add k true) = true
is_added p = false

abbrev pub Added : Memory → Memory → ℕ → Type 0
Added m m' k = Absent m k × ((x : ℕ) → Member m' x ↔ (Member m x ⊎ (x ≡ k)))

abbrev pub Removed : Memory → Memory → ℕ → Type 0
Removed m m' k = Member m k × ((x : ℕ) → Member m' x ↔ (Member m x × (x ≢ k)))

-- What a step does to the set: `list_add` that returns true adds its key, the CAS of `list_remove`
-- takes its key out if it sets the mark, and the other steps leave the set as it is.
pub data Effect (m m' : Memory) : Pc → Pc → Type 0 where
  adds : {p : Pc} (k : ℕ) → Added m m' k → Effect m m' p (returned add k true)
  removes :
      {p' : Pc} (k curr succ : ℕ)
      → is_added p' ≡ false
      → Removed m m' k
      → Effect m m' (remove_cas k curr succ) p'
  keeps : {p p' : Pc} → is_added p' ≡ false → SameMembers m m' → Effect m m' p p'

pub record Advance (m : Memory) (p : Pc) (m' : Memory) (p' : Pc) : Type 0 where
  pub moves : Moves m m'
  pub mine : PcInv m' p'
  pub untouched :
      (n : ℕ)
      → m.allocated n ≡ true
      → m.linked n ≡ false
      → (Holds p n → ⊥)
      → (m'.allocated n ≡ true) × (m'.linked n ≡ false) × (m'.nodes n ≡ m.nodes n)
  pub holds : (n : ℕ) → Holds p' n → Holds p n ⊎ (m.allocated n ≡ false)
  pub effect : Effect m m' p p'

abbrev pub Proceeds : Memory → Pc → Option Next → Type 0
Proceeds m p o = (m' : Memory) × (p' : Pc) × (o ≡ some (m', p')) × Advance m p m' p'

module _ (m : Memory) (list : IsList m) where
  still-Neutral : Neutral m m
  still-Neutral = record {
    linked_same = λ x. refl;
    nodes_same = λ x _. refl;
    alloc_on = list.in_memory;
  }

  still : Moves m m
  still = Neutral-Moves m m list still-Neutral

  -- A step that only reads.
  pub reads :
      (p p' : Pc)
      → PcInv m p'
      → ((n : ℕ) → Holds p' n → Holds p n)
      → is_added p' ≡ false
      → Advance m p m p'
  reads p p' mine holds quiet = record {
    moves = still;
    mine = mine;
    untouched = λ n owned alone _. (owned, alone, refl);
    holds = λ n h. inl (holds n h);
    effect = keeps quiet (λ k. (λ h. h, λ h. h));
  }

  -- A write to a node that is not linked, which the thread holds.
  pub local_write :
      (p p' : Pc) (n : ℕ) (q : Pointer)
      → m.linked n ≡ false
      → Holds p n
      → PcInv (set_next n q m) p'
      → ((x : ℕ) → Holds p' x → Holds p x)
      → is_added p' ≡ false
      → Advance m p (set_next n q m) p'
  local_write p p' n q alone own mine holds quiet = record {
    moves = Neutral-Moves m (set_next n q m) list written;
    mine = mine;
    untouched = λ x owned a not_mine.
        (owned, a, apart-set_next m n q x (λ e. not_mine (subst (Holds p) e own)));
    holds = λ x h. inl (holds x h);
    effect = keeps quiet (Neutral-SameMembers m (set_next n q m) list written);
  }
    where
      written : Neutral m (set_next n q m)
      written = record {
        linked_same = λ x. refl;
        nodes_same = λ x l. apart-set_next m n q x (λ e. let f = ap m.linked e in ground arith);
        alloc_on = list.in_memory;
      }

  pub free_lem :
      (p p' : Pc) (n : ℕ)
      → m.linked n ≡ false
      → Holds p n
      → PcInv (free n m) p'
      → ((x : ℕ) → Holds p' x → ⊥)
      → is_added p' ≡ false
      → Advance m p (free n m) p'
  free_lem p p' n alone own mine holds quiet = record {
    moves = Neutral-Moves m (free n m) list freed;
    mine = mine;
    untouched = λ x owned a not_mine. (
      at_change m.allocated n x false (λ b. b ≡ true)
          (λ e. absurd (not_mine (subst (Holds p) e own))) (λ _. owned),
      a,
      refl,
    );
    holds = λ x h. absurd (holds x h);
    effect = keeps quiet (Neutral-SameMembers m (free n m) list freed);
  }
    where
      freed : Neutral m (free n m)
      freed = record {
        linked_same = λ x. refl;
        nodes_same = λ x l. refl;
        alloc_on = λ x l.
            at_change m.allocated n x false (λ b. b ≡ true)
              (λ e. let f = ap m.linked e in ground arith) (λ _. list.in_memory x l);
      }

  pub malloc_lem :
      (p : Pc) (n k : ℕ)
      → InKeys k
      → IsFresh m n
      → Advance m p (malloc n k m) (find_start (adding n) k)
  malloc_lem p n k keys (fresh, not_null) = record {
    moves = Neutral-Moves m (malloc n k m) list got;
    mine = (
      keys,
      (
        at_change m.allocated n n true (λ b. b ≡ true) (λ _. refl) (λ ne. absurd (ne refl)),
        alone,
        at_change m.nodes n n (record (m.nodes n) { key = k }) (λ x. x.key ≡ k) (λ _. refl)
            (λ ne. absurd (ne refl)),
      ),
    );
    untouched = λ x owned a _. (
      at_change m.allocated n x true (λ b. b ≡ true) (λ _. refl) (λ _. owned),
      a,
      at_change m.nodes n x (record (m.nodes n) { key = k }) (λ y. y ≡ m.nodes x)
          (λ e. let f = ap m.allocated e in ground arith) (λ _. refl),
    );
    holds = λ x e. inr (ap m.allocated (sym e) ∙ fresh);
    effect = keeps refl (Neutral-SameMembers m (malloc n k m) list got);
  }
    where
      alone : m.linked n ≡ false
      alone = elim (Bool-cases (m.linked n)) [
        | inl l ↦ let e = list.in_memory n l in ground arith
        | inr l ↦ l
      ]

      got : Neutral m (malloc n k m)
      got = record {
        linked_same = λ x. refl;
        nodes_same = λ x l.
            at_change m.nodes n x (record (m.nodes n) { key = k }) (λ y. y ≡ m.nodes x)
              (λ e. let f = ap m.linked e in let g = alone in ground arith) (λ _. refl);
        alloc_on = λ x l.
            at_change m.allocated n x true (λ b. b ≡ true) (λ _. refl) (λ _. list.in_memory x l);
      }
