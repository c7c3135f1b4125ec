-- ===== src/Lab11/FineGrained/Steps.antt =====
-- The steps of lab11/fine_grained.cpp that leave the chain as it is: reads, mutexes, malloc, free, and
-- the first write of `list_add`.
use ite.Base.{
  ℕ, ◌≡◌, ◌≢◌, refl, true, false, arith, inl, inr, sym, ap, ◌∙◌, Option, none, some, if◌then◌else◌,
  Bool-cases, at_change,
}
use mathlib.Core.Path.{subst}
use ite.Lab11.History.{InKeys, Same}
use ite.Lab11.FineGrained.{
  Node, Memory, set_next, set_mutex, malloc, free, adding, Pc, locking_head, Next, lock, acts,
  IsFresh,
}
use ite.Lab11.FineGrained.Shared.{
  next_of, IsLinked, Keys, IsList, Frame, Frame-Moves, Frame-Same, key-set_next, apart-set_next,
}
use ite.Lab11.FineGrained.Places.{IsHeld, Agrees, PcInv, Holds, HasLock, Outcome, Advance, Proceeds}

module _ (t : ℕ) (m : Memory) (list : IsList m) where
  -- What a step without an action on the set says of the answer.
  abbrev pub Quiet : Pc → Memory → Pc → Type 0
  Quiet p m' p' = Same (Keys m) (Keys m') → Outcome (acts p m) m p m' p'

  still : Frame t m m
  still = record {
    linked_same = λ x. refl;
    key_same = λ x _. refl;
    chain_same = λ x _. refl;
    next_same = λ x _ _. refl;
    alloc_on = list.in_memory;
    agrees = list.agrees;
  }

  pub reads :
      (p p' : Pc)
      → PcInv t m p'
      → ((n : ℕ) → Holds p' n → Holds p n)
      → ((n : ℕ) → HasLock p n → HasLock p' n)
      → Quiet p m p'
      → Advance t m p m p'
  reads p p' mine holds locks quiet = record {
    moves = Frame-Moves t m m list still;
    mine = mine;
    mutex_kept = λ u x _ _ h. h;
    untouched = λ n owned alone _. (owned, alone, refl);
    holds = λ n h. inl (holds n h);
    locks_back = λ u x _ h. h;
    locks_mine = λ old x h. locks x (old x h);
    outcome = quiet (Frame-Same t m m list still);
  }

  -- A mutex that is free, or the thread's, changes hands.
  pub sets_mutex :
      (p p' : Pc) (a : ℕ) (holder : Option ℕ)
      → ((u : ℕ) → t ≢ u → IsHeld u m a → ⊥)
      → (holder ≡ none → IsLinked m a → Agrees m a)
      → ((u : ℕ) → t ≢ u → holder ≢ some u)
      → PcInv t (set_mutex a holder m) p'
      → ((n : ℕ) → Holds p' n → Holds p n)
      → (holder ≡ some t → HasLock p' a)
      → ((n : ℕ) → a ≢ n → HasLock p n → HasLock p' n)
      → Quiet p (set_mutex a holder m) p'
      → Advance t m p (set_mutex a holder m) p'
  sets_mutex p p' a holder free agrees own mine holds gets locks quiet = record {
    moves = Frame-Moves t m (set_mutex a holder m) list changed;
    mine = mine;
    mutex_kept = λ u x ne _ h.
        at_change m.mutex a x holder (λ o. o ≡ some u)
          (λ e. absurd (free u ne (subst (λ y. IsHeld u m y) (sym e) h))) (λ _. h);
    untouched = λ n owned alone _. (owned, alone, refl);
    holds = λ n h. inl (holds n h);
    locks_back = λ u x ne.
        at_change m.mutex a x holder (λ o. o ≡ some u → IsHeld u m x) (λ _ h. absurd (own u ne h))
          (λ _ h. h);
    locks_mine = λ old x.
        at_change m.mutex a x holder (λ o. o ≡ some t → HasLock p' x)
          (λ e h. subst (HasLock p') e (gets h)) (λ ne h. locks x ne (old x h));
    outcome = quiet (Frame-Same t m (set_mutex a holder m) list changed);
  }
    where
      changed : Frame t m (set_mutex a holder m)
      changed = record {
        linked_same = λ x. refl;
        key_same = λ x _. refl;
        chain_same = λ x _. refl;
        next_same = λ x _ _. refl;
        alloc_on = list.in_memory;
        agrees = λ x l.
            at_change m.mutex a x holder (λ o. o ≡ none → Agrees m x)
              (λ e h. subst (Agrees m) e (agrees h (subst (IsLinked m) (sym e) l)))
              (λ _ h. list.agrees x l h);
      }

  pub first_write :
      (p p' : Pc) (a q : ℕ)
      → IsHeld t m a
      → IsLinked m a
      → PcInv t (set_next a q m) p'
      → ((x : ℕ) → Holds p' x → Holds p x)
      → ((n : ℕ) → HasLock p n → HasLock p' n)
      → Quiet p (set_next a q m) p'
      → Advance t m p (set_next a q m) p'
  first_write p p' a q held l mine holds locks quiet = record {
    moves = Frame-Moves t m (set_next a q m) list written;
    mine = mine;
    mutex_kept = λ u x _ _ h. h;
    untouched = λ x owned alone _.
        (owned, alone, apart-set_next m a q x (λ e. let f = ap m.linked e in ground arith));
    holds = λ x h. inl (holds x h);
    locks_back = λ u x _ h. h;
    locks_mine = λ old x h. locks x (old x h);
    outcome = quiet (Frame-Same t m (set_next a q m) list written);
  }
    where
      same : (x : ℕ) → a ≢ x → next_of (set_next a q m) x ≡ next_of m x
      same x ne = ap (λ (y : Node). y.next) (apart-set_next m a q x ne)

      written : Frame t m (set_next a q m)
      written = record {
        linked_same = λ x. refl;
        key_same = λ x _. key-set_next m a q x;
        chain_same = λ x _. refl;
        next_same = λ x _ ne. same x (λ e. ne (ap m.mutex (sym e) ∙ held));
        alloc_on = list.in_memory;
        agrees = λ x k h.
            same x (λ e. let f = sym held ∙ ap m.mutex e ∙ h in ground arith) ∙ list.agrees x k h;
      }

  pub malloc_lem :
      (p : Pc) (n k : ℕ)
      → ((x : ℕ) → HasLock p x → ⊥)
      → InKeys k
      → IsFresh m n
      → Quiet p (malloc n k m) (locking_head (adding n) k)
      → Advance t m p (malloc n k m) (locking_head (adding n) k)
  malloc_lem p n k lockless keys (fresh, not_null) quiet = record {
    moves = Frame-Moves t m (malloc n k m) list got;
    mine = (
      keys,
      (
        at_change m.allocated n n true (λ b. b ≡ true) (λ _. refl) (λ ne. absurd (ne refl)),
        alone,
        at_change m.nodes n n (record (m.nodes n) { key = k }) (λ x. x.key ≡ k) (λ _. refl)
            (λ ne. absurd (ne refl)),
      ),
    );
    mutex_kept = λ u x _ owned h.
        at_change m.mutex n x none (λ o. o ≡ some u) (λ e. let f = ap m.allocated e in ground arith)
          (λ _. h);
    untouched = λ x owned a _. (
      at_change m.allocated n x true (λ b. b ≡ true) (λ _. refl) (λ _. owned),
      a,
      at_change m.nodes n x (record (m.nodes n) { key = k }) (λ y. y ≡ m.nodes x)
          (λ e. let f = ap m.allocated e in ground arith) (λ _. refl),
    );
    holds = λ x e. inr (inl (ap m.allocated (sym e) ∙ fresh));
    locks_back = λ u x ne. stays u x;
    locks_mine = λ old x h. absurd (lockless x (old x (stays t x h)));
    outcome = quiet (Frame-Same t m (malloc n k m) list got);
  }
    where
      stays : (u x : ℕ) → IsHeld u (malloc n k m) x → IsHeld u m x
      stays u x =
          at_change m.mutex n x none (λ o. o ≡ some u → IsHeld u m x) (λ _ h. absurd (ground arith))
            (λ _ h. h)

      alone : m.linked n ≡ false
      alone = elim (Bool-cases (m.linked n)) [
        | inl l ↦ let e = list.in_memory n l in ground arith
        | inr l ↦ l
      ]

      apart : (x : ℕ) → IsLinked m x → n ≢ x
      apart x l e = let f = ap m.linked e in let g = alone in ground arith

      same : (x : ℕ) → IsLinked m x → (malloc n k m).nodes x ≡ m.nodes x
      same x l =
          at_change m.nodes n x (record (m.nodes n) { key = k }) (λ y. y ≡ m.nodes x)
            (λ e. absurd (apart x l e)) (λ _. refl)

      got : Frame t m (malloc n k m)
      got = record {
        linked_same = λ x. refl;
        key_same = λ x l. ap (λ (y : Node). y.key) (same x l);
        chain_same = λ x _. refl;
        next_same = λ x l _. ap (λ (y : Node). y.next) (same x l);
        alloc_on = λ x l.
            at_change m.allocated n x true (λ b. b ≡ true) (λ _. refl) (λ _. list.in_memory x l);
        agrees = λ x l.
            at_change m.mutex n x none (λ o. o ≡ none → Agrees (malloc n k m) x)
              (λ e. absurd (apart x l e))
              (λ _ h. ap (λ (y : Node). y.next) (same x l) ∙ list.agrees x l h);
      }

  pub free_lem :
      (p p' : Pc) (a : ℕ)
      → m.linked a ≡ false
      → Holds p a
      → PcInv t (free a m) p'
      → ((x : ℕ) → Holds p' x → ⊥)
      → ((n : ℕ) → HasLock p n → HasLock p' n)
      → Quiet p (free a m) p'
      → Advance t m p (free a m) p'
  free_lem p p' a alone own mine holds locks quiet = record {
    moves = Frame-Moves t m (free a m) list freed;
    mine = mine;
    mutex_kept = λ u x _ _ h. h;
    untouched = λ x owned out not_mine. (
      at_change m.allocated a x false (λ b. b ≡ true)
          (λ e. absurd (not_mine (subst (Holds p) e own))) (λ _. owned),
      out,
      refl,
    );
    holds = λ x h. absurd (holds x h);
    locks_back = λ u x _ h. h;
    locks_mine = λ old x h. locks x (old x h);
    outcome = quiet (Frame-Same t m (free a m) list freed);
  }
    where
      freed : Frame t m (free a m)
      freed = record {
        linked_same = λ x. refl;
        key_same = λ x _. refl;
        chain_same = λ x _. refl;
        next_same = λ x _ _. refl;
        alloc_on = λ x l.
            at_change m.allocated a x false (λ b. b ≡ true)
              (λ e. let f = ap m.linked e in ground arith) (λ _. list.in_memory x l);
        agrees = list.agrees;
      }

  -- A thread that takes a free mutex, or waits.
  pub lock_lem :
      (p locked : Pc) (a : ℕ)
      → PcInv t m p
      → (m.mutex a ≡ none → PcInv t (set_mutex a (some t) m) locked)
      → ((n : ℕ) → Holds locked n → Holds p n)
      → HasLock locked a
      → ((n : ℕ) → HasLock p n → HasLock locked n)
      → ((m' : Memory) → Quiet p m' locked)
      → Quiet p m p
      → Proceeds t m p (some (lock t a p locked m))
  unfolding lock
  lock_lem p locked a waits has holds gets locks taken waiting = go (m.mutex a) refl
    where
      go : (o : Option ℕ) → m.mutex a ≡ o → Proceeds t m p (some (lock t a p locked m))
      go none e = (
        set_mutex a (some t) m,
        locked,
        rw (lock, e) refl,
        sets_mutex p locked a (some t) (λ u _ h. let f = sym e ∙ h in ground arith)
            (λ never. absurd (ground arith))
            (λ u ne h. ne (ap (λ (o : Option ℕ). elim o [ none ↦ t | some n ↦ n ]) h)) (has e) holds
            (λ _. gets) (λ n _ h. locks n h) (taken (set_mutex a (some t) m)),
      )
      go (some holder) e = (m, p, rw (lock, e) refl, reads p p waits (λ n h. h) (λ n h. h) waiting)

  -- The access of a node in use finds it.
  pub loaded :
      (p : Pc) (a : ℕ) (next : Next)
      → m.allocated a ≡ true
      → Proceeds t m p (some next)
      → Proceeds t m p (if m.allocated a then some next else none)
  loaded p a next l (m', p', e, h) = (m', p', rw l e, h)
