-- ===== src/Lab11/Optimistic/Steps.antt =====
-- The steps of lab11/optimistic.cpp that touch no pointer of a linked node: reads, mutexes, and the node
-- that `list_add` has not linked yet.
use ite.Base.{
  ℕ, ◌≡◌, ◌≢◌, refl, true, false, arith, inl, inr, sym, ap, ◌∙◌, Option, none, some, if◌then◌else◌,
  Bool-cases, at_change,
}
use mathlib.Core.Path.{subst}
use ite.Lab11.History.{InKeys, Same}
use ite.Lab11.Optimistic.{
  Memory, set_next, set_mutex, malloc, adding, Pc, searching, Next, lock, acts, IsFresh,
}
use ite.Lab11.Optimistic.Shared.{
  IsLinked, Keys, IsList, Neutral, Neutral-Moves, Neutral-Same, apart-set_next,
}
use ite.Lab11.Optimistic.Places.{IsHeld, PcInv, Holds, Outcome, Advance, Proceeds}

module _ (t : ℕ) (m : Memory) (list : IsList m) where
  -- What a step without an action on the set says of the answer.
  abbrev pub Quiet : Pc → Memory → Pc → Type 0
  Quiet p m' p' = Same (Keys m) (Keys m') → Outcome (acts p m) m p m' p'

  still : Neutral m m
  still = record { linked_same = λ x. refl; nodes_same = λ x _. refl; alloc_on = list.in_memory }

  pub reads :
      (p p' : Pc)
      → PcInv t m p'
      → ((n : ℕ) → Holds p' n → Holds p n)
      → Quiet p m p'
      → Advance t m p m p'
  reads p p' mine holds quiet = record {
    moves = Neutral-Moves t m m list still;
    mine = mine;
    mutex_kept = λ u x _ _ h. h;
    untouched = λ n owned alone _. (owned, alone, refl);
    holds = λ n h. inl (holds n h);
    outcome = quiet (Neutral-Same t m m list still);
  }

  -- A mutex that is free, or the thread's, changes hands.
  pub sets_mutex :
      (p p' : Pc) (a : ℕ) (holder : Option ℕ)
      → ((u : ℕ) → t ≢ u → IsHeld u m a → ⊥)
      → PcInv t (set_mutex a holder m) p'
      → ((n : ℕ) → Holds p' n → Holds p n)
      → Quiet p (set_mutex a holder m) p'
      → Advance t m p (set_mutex a holder m) p'
  sets_mutex p p' a holder free mine holds quiet = record {
    moves = Neutral-Moves t m (set_mutex a holder m) list changed;
    mine = mine;
    mutex_kept = λ u x ne _ h.
        at_change m.mutex a x holder (λ o. o ≡ some u)
          (λ e. absurd (free u ne (subst (λ y. IsHeld u m y) (sym e) h))) (λ _. h);
    untouched = λ n owned alone _. (owned, alone, refl);
    holds = λ n h. inl (holds n h);
    outcome = quiet (Neutral-Same t m (set_mutex a holder m) list changed);
  }
    where
      changed : Neutral m (set_mutex a holder m)
      changed = record {
        linked_same = λ x. refl;
        nodes_same = λ x _. refl;
        alloc_on = list.in_memory;
      }

  pub sets_own_next :
      (p p' : Pc) (n q : ℕ)
      → m.linked n ≡ false
      → Holds p n
      → PcInv t (set_next n q m) p'
      → ((x : ℕ) → Holds p' x → Holds p x)
      → Quiet p (set_next n q m) p'
      → Advance t m p (set_next n q m) p'
  sets_own_next p p' n q alone own mine holds quiet = record {
    moves = Neutral-Moves t m (set_next n q m) list written;
    mine = mine;
    mutex_kept = λ u x _ _ h. h;
    untouched = λ x owned a not_mine.
        (owned, a, apart-set_next m n q x (λ e. not_mine (subst (Holds p) e own)));
    holds = λ x h. inl (holds x h);
    outcome = quiet (Neutral-Same t m (set_next n q m) list written);
  }
    where
      written : Neutral m (set_next n q m)
      written = record {
        linked_same = λ x. refl;
        nodes_same = λ x l. apart-set_next m n q x (λ e. let f = ap m.linked e in ground arith);
        alloc_on = list.in_memory;
      }

  pub malloc_lem :
      (p : Pc) (n k : ℕ)
      → InKeys k
      → IsFresh m n
      → Quiet p (malloc n k m) (searching (adding n) k)
      → Advance t m p (malloc n k m) (searching (adding n) k)
  malloc_lem p n k keys (fresh, not_null) quiet = record {
    moves = Neutral-Moves t m (malloc n k m) list got;
    mine = (
      keys,
      (
        at_change m.allocated n n true (λ b. b ≡ true) (λ _. refl) (λ ne. absurd (ne refl)),
        alone,
        at_change m.nodes n n (record (m.nodes n) { key = k }) (λ x. x.key ≡ k) (λ _. refl)
            (λ ne. absurd (ne refl)),
      ),
    );
    mutex_kept = λ u x _ l h.
        at_change m.mutex n x none (λ o. o ≡ some u) (λ e. absurd (apart x l e)) (λ _. h);
    untouched = λ x owned a _. (
      at_change m.allocated n x true (λ b. b ≡ true) (λ _. refl) (λ _. owned),
      a,
      at_change m.nodes n x (record (m.nodes n) { key = k }) (λ y. y ≡ m.nodes x)
          (λ e. let f = ap m.allocated e in ground arith) (λ _. refl),
    );
    holds = λ x e. inr (ap m.allocated (sym e) ∙ fresh);
    outcome = quiet (Neutral-Same t m (malloc n k m) list got);
  }
    where
      alone : m.linked n ≡ false
      alone = elim (Bool-cases (m.linked n)) [
        | inl l ↦ let e = list.in_memory n l in ground arith
        | inr l ↦ l
      ]

      apart : (x : ℕ) → IsLinked m x → n ≢ x
      apart x l e = let f = ap m.linked e in let g = alone in ground arith

      got : Neutral m (malloc n k m)
      got = record {
        linked_same = λ x. refl;
        nodes_same = λ x l.
            at_change m.nodes n x (record (m.nodes n) { key = k }) (λ y. y ≡ m.nodes x)
              (λ e. absurd (apart x l e)) (λ _. refl);
        alloc_on = λ x l.
            at_change m.allocated n x true (λ b. b ≡ true) (λ _. refl) (λ _. list.in_memory x l);
      }

  -- A thread that takes a free mutex, or waits.
  pub lock_lem :
      (p locked : Pc) (a : ℕ)
      → PcInv t m p
      → PcInv t (set_mutex a (some t) m) locked
      → ((n : ℕ) → Holds locked n → Holds p n)
      → ((m' : Memory) → Quiet p m' locked)
      → Quiet p m p
      → Proceeds t m p (some (lock t a p locked m))
  unfolding lock
  lock_lem p locked a waits has holds taken waiting = go (m.mutex a) refl
    where
      go : (o : Option ℕ) → m.mutex a ≡ o → Proceeds t m p (some (lock t a p locked m))
      go none e = (
        set_mutex a (some t) m,
        locked,
        rw (lock, e) refl,
        sets_mutex p locked a (some t) (λ u _ h. let f = sym e ∙ h in ground arith) has holds
            (taken (set_mutex a (some t) m)),
      )
      go (some holder) e = (m, p, rw (lock, e) refl, reads p p waits (λ n h. h) waiting)

  -- The access of a linked node finds it.
  pub loaded :
      (p : Pc) (a : ℕ) (next : Next)
      → IsLinked m a
      → Proceeds t m p (some next)
      → Proceeds t m p (if m.allocated a then some next else none)
  loaded p a next l (m', p', e, h) = (m', p', rw (list.in_memory a l) e, h)
