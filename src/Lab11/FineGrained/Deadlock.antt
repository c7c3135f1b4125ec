-- ===== src/Lab11/FineGrained/Deadlock.antt =====
-- The threads of lab11/fine_grained.cpp do not wait for each other in a circle: the mutexes are taken
-- in the order of the keys.
use ite.Base.{
  ℕ, zero, suc, ◌+◌, ◌≡◌, ◌<◌, refl, false, arith, inl, inr, ◌⊎◌, sym, ap, ◌∙◌, Option, none, some,
}
use mathlib.Core.Path.{subst}
use ite.Lab11.Nodes.{head}
use ite.Lab11.CoarseList.{int_max}
use ite.Lab11.FineGrained.{
  Pc, idle, locking_head, reading, locking_curr, holding, unlocking_passed, add_first, add_second,
  remove_write, unlocking_prev, unlocking_curr, freeing, returned, is_resting, System, Reach,
}
use ite.Lab11.Chain.{inner}
use ite.Lab11.FineGrained.Shared.{key_of, IsLinked}
use ite.Lab11.FineGrained.Places.{IsHeld, HasLock, PcInv, curr-IsLinked}
use ite.Lab11.FineGrained.Runs.{Inv}
use ite.Lab11.FineGrained.Results.{Reach-Inv}

-- The mutex that a thread is about to take.
abbrev pub awaits : Pc → Option ℕ
awaits (locking_head call k) = some head
awaits (locking_curr call k prev curr) = some curr
awaits p = none

-- A thread in a call that need not wait: the mutex that it is about to take, if any, is free.
abbrev pub CanGo : System → ℕ → Type 0
CanGo s t =
    (is_resting (s.threads t) ≡ false)
    × ((a : ℕ) → awaits (s.threads t) ≡ some a → s.memory.mutex a ≡ none)

module _ (s : System) (inv : Inv s) where
  quiet : (t : ℕ) (p : Pc) → s.threads t ≡ p → is_resting p ≡ false → awaits p ≡ none → CanGo s t
  quiet t p at busy free = (
    ap is_resting at ∙ busy,
    λ a e. let f = sym (ap awaits at ∙ free) ∙ e in absurd (ground arith),
  )

  abbrev Waits : ℕ → ℕ → Type 0
  Waits u b =
      (is_resting (s.threads u) ≡ false) × (awaits (s.threads u) ≡ some b) × IsLinked s.memory b

  -- The holder of a mutex can go, or it is about to take that of a node with a larger key.
  holder :
      (a u : ℕ)
      → IsHeld u s.memory a
      → CanGo s u ⊎ ((b : ℕ) × (Waits u b) × (key_of s.memory a < key_of s.memory b))
  holder a u held = go (s.threads u) refl (inv.pcs u) (inv.locks u a held)
    where
      go :
          (p : Pc)
          → s.threads u ≡ p
          → PcInv u s.memory (s.threads u)
          → HasLock (s.threads u) a
          → CanGo s u ⊎ ((b : ℕ) × (Waits u b) × (key_of s.memory a < key_of s.memory b))
      go (locking_curr call k prev curr) at h has =
          let (grip, agrees, next) = subst (PcInv u s.memory) at h in
          let same : prev ≡ a = subst (λ p. HasLock p a) at has in
          let (l, lt) = inv.list.chain.sorted prev grip.linked_prev (
            inner s.memory.linked (key_of s.memory) s.memory.chain inv.list.chain prev k grip.above
              grip.keys.1) in
          inr (
            curr,
            (ap is_resting at, ap awaits at, curr-IsLinked s.memory inv.list grip next),
            omega (arith, lt, ap (key_of s.memory) next, ap (key_of s.memory) same),
          )
      go idle at h has = elim (subst (λ p. HasLock p a) at has) [ ]
      go (locking_head call k) at h has = elim (subst (λ p. HasLock p a) at has) [ ]
      go (freeing k curr) at h has = elim (subst (λ p. HasLock p a) at has) [ ]
      go (returned type k result) at h has = elim (subst (λ p. HasLock p a) at has) [ ]
      go (reading call k prev) at h has = inl (quiet u (reading call k prev) at refl refl)
      go (holding call k prev curr) at h has = inl (quiet u (holding call k prev curr) at refl refl)
      go (unlocking_passed call k prev curr) at h has =
          inl (quiet u (unlocking_passed call k prev curr) at refl refl)
      go (add_first k n prev curr) at h has = inl (quiet u (add_first k n prev curr) at refl refl)
      go (add_second k n prev curr) at h has = inl (quiet u (add_second k n prev curr) at refl refl)
      go (remove_write k prev curr succ) at h has =
          inl (quiet u (remove_write k prev curr succ) at refl refl)
      go (unlocking_prev after prev curr) at h has =
          inl (quiet u (unlocking_prev after prev curr) at refl refl)
      go (unlocking_curr after curr) at h has =
          inl (quiet u (unlocking_curr after curr) at refl refl)

  -- A thread that waits for a free mutex can go.
  free_to_go :
      (u b : ℕ)
      → is_resting (s.threads u) ≡ false
      → awaits (s.threads u) ≡ some b
      → s.memory.mutex b ≡ none
      → CanGo s u
  free_to_go u b busy waits free = (
    busy,
    λ a e.
        let same : b ≡ a =
          ap (λ (o : Option ℕ). elim o [ none ↦ b | some x ↦ x ]) (sym waits ∙ e) in
        subst (λ x. s.memory.mutex x ≡ none) same free,
  )

  chase :
      (fuel a u : ℕ)
      → int_max < key_of s.memory a + fuel
      → IsHeld u s.memory a
      → (v : ℕ) × CanGo s v
  chase zero a u enough held = elim (holder a u held) [
    | inl go ↦ (u, go)
    | inr (b, (busy, waits, l), lt) ↦ absurd (omega (arith, enough, lt, inv.list.chain.bounded b l))
  ]
  chase (suc fuel) a u enough held = elim (holder a u held) [
    | inl go ↦ (u, go)
    | inr (b, (busy, waits, l), lt) ↦
        further b busy waits lt (s.memory.mutex b) refl
          (λ v h. chase fuel b v (omega (arith, enough, lt)) h)
  ]
    where
      further :
          (b : ℕ)
          → is_resting (s.threads u) ≡ false
          → awaits (s.threads u) ≡ some b
          → key_of s.memory a < key_of s.memory b
          → (o : Option ℕ) → s.memory.mutex b ≡ o
          → ((v : ℕ) → IsHeld v s.memory b → (v : ℕ) × CanGo s v)
          → (v : ℕ) × CanGo s v
      further b busy waits lt none free again = (u, free_to_go u b busy waits free)
      further b busy waits lt (some v) h again = again v h

  some_can_go : (t : ℕ) → is_resting (s.threads t) ≡ false → (v : ℕ) × CanGo s v
  some_can_go t busy = go (awaits (s.threads t)) refl
    where
      blocked :
          (a : ℕ)
          → awaits (s.threads t) ≡ some a
          → (o : Option ℕ) → s.memory.mutex a ≡ o
          → (v : ℕ) × CanGo s v
      blocked a waits none free = (t, free_to_go t a busy waits free)
      blocked a waits (some u) h = chase (suc int_max) a u (omega arith) h

      go : (o : Option ℕ) → awaits (s.threads t) ≡ o → (v : ℕ) × CanGo s v
      go none waits = (t, (busy, λ a e. let f = sym waits ∙ e in absurd (ground arith)))
      go (some a) waits = blocked a waits (s.memory.mutex a) refl

-- In a reachable state in which some thread is in a call, there is a thread in a call that need not
-- wait: the mutex that it is about to take, if it is about to take one, is free.
pub no_deadlock :
    {s : System} (t : ℕ) → Reach s → is_resting (s.threads t) ≡ false → (v : ℕ) × CanGo s v
no_deadlock {s} t reach busy = some_can_go s (Reach-Inv reach) t busy
