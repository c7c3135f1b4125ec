-- ===== src/Lab10/Exclusion.antt =====
-- Mutual exclusion, and no increment lost: the locks of lab10/prac_taslock.cpp and
-- lab10/prac_ttaslock.cpp.
use ite.Base.{
  ℕ, suc, ◌+◌, ◌%◌, ◌^◌, ◌≡◌, ◌≢◌, ◌<◌, refl, Bool, true, false, ◌==◌, change, arith, Bool-cases,
  inl, inr, sum_over, sum_over-change, sym, ◌⊎◌,
}
use mathlib.Core.Path.{subst}
use ite.Lab10.Spin.{Pc, spinning, trying, loading, storing, unlocking, finished, Thread, System}

-- Between the return of `lock` and the store of `unlock`.
abbrev pub critical : Pc → Bool
critical spinning = false
critical trying = false
critical loading = true
critical (storing loaded) = true
critical unlocking = true
critical finished = false

-- The increments of a thread that are in the counter.
abbrev pub increments : Thread → ℕ
increments t = t.i + (elim t.pc [ unlocking ↦ 1 | _ ↦ 0 ])

-- The value that a thread has loaded is still there.
abbrev pub IsFresh : ℕ → Pc → Type 0
IsFresh cnt (storing loaded) = cnt ≡ loaded
IsFresh cnt spinning = Unit
IsFresh cnt trying = Unit
IsFresh cnt loading = Unit
IsFresh cnt unlocking = Unit
IsFresh cnt finished = Unit

pub record Inv (n : ℕ) (s : System) : Type 0 where
  pub alone :
      (a b : ℕ) → critical (s.threads a).pc ≡ true → critical (s.threads b).pc ≡ true → a ≡ b
  pub locked : (a : ℕ) → critical (s.threads a).pc ≡ true → s.object ≡ 1
  pub fresh : (a : ℕ) → IsFresh s.cnt_global (s.threads a).pc
  pub counted : s.cnt_global ≡ sum_over n (λ a. increments (s.threads a)) % 2 ^ 32

at_thread :
    (f : ℕ → Thread) (t b : ℕ) (u : Thread) (C : Thread → Type 0)
    → (t ≡ b → C u)
    → (t ≢ b → C (f b))
    → C (change f t u b)
at_thread f t b u C here there = elim (Bool-cases (t == b)) [
  | inl same ↦ rw same (here (ground arith))
  | inr other ↦ rw other (there (ground arith))
]

increments-change :
    (n t : ℕ) (f : ℕ → Thread) (u : Thread)
    → t < n
    → sum_over n (λ a. increments (change f t u a)) + increments (f t)
      ≡ sum_over n (λ a. increments (f a)) + increments u
increments-change n t f u lt =
    subst
      (λ (k : ℕ).
        sum_over n (λ a. increments (change f t u a)) + increments (f t)
        ≡ sum_over n (λ a. increments (f a)) + k)
      (at_thread f t t u (λ v. increments v ≡ increments u) (λ _. refl) (λ ne. absurd (ne refl)))
      (sum_over-change n t (λ a. increments (change f t u a)) (λ a. increments (f a)) lt
        (λ j ne.
          at_thread f t j u (λ v. increments v ≡ increments (f j)) (λ e. absurd (ne e))
            (λ _. refl)))

pub idle-IsFresh : (cnt : ℕ) (pc : Pc) → critical pc ≡ false → IsFresh cnt pc
idle-IsFresh cnt spinning h = tt
idle-IsFresh cnt trying h = tt
idle-IsFresh cnt loading h = tt
idle-IsFresh cnt (storing loaded) h = absurd (ground arith)
idle-IsFresh cnt unlocking h = tt
idle-IsFresh cnt finished h = tt

-- What a change of one thread, of the lock and of the counter has to respect.
abbrev pub MayEnter : System → ℕ → Thread → ℕ → Type 0
MayEnter s t u o =
    critical u.pc ≡ true → (o ≡ 1) × ((b : ℕ) → t ≢ b → critical (s.threads b).pc ≡ false)

abbrev pub Spares : System → ℕ → ℕ → ℕ → Type 0
Spares s t o c = (b : ℕ) → t ≢ b → critical (s.threads b).pc ≡ true → (o ≡ 1) × (c ≡ s.cnt_global)

abbrev pub Counts : System → ℕ → Thread → ℕ → Type 0
Counts s t u c =
    ((increments u ≡ increments (s.threads t)) × (c ≡ s.cnt_global))
    ⊎ ((increments u ≡ suc (increments (s.threads t))) × (c ≡ (s.cnt_global + 1) % 2 ^ 32))

abbrev pub moved : System → ℕ → Thread → ℕ → ℕ → System
moved s t u o c = record { object = o; cnt_global = c; threads = change s.threads t u }

module _ (n t : ℕ) (s : System) (u : Thread) (o c : ℕ) (lt : t < n) (inv : Inv n s) where
  moved-alone :
      MayEnter s t u o
      → (a b : ℕ) → critical (change s.threads t u a).pc ≡ true
      → critical (change s.threads t u b).pc ≡ true
      → a ≡ b
  moved-alone enter a b =
      at_thread s.threads t a u
        (λ v. critical v.pc ≡ true → critical (change s.threads t u b).pc ≡ true → a ≡ b)
        (λ ea.
          at_thread s.threads t b u (λ w. critical u.pc ≡ true → critical w.pc ≡ true → a ≡ b)
            (λ eb _ _. omega (arith, ea, eb)) (λ nb ca cb. clash ((enter ca).1 b nb) cb))
        (λ na.
          at_thread s.threads t b u
            (λ w. critical (s.threads a).pc ≡ true → critical w.pc ≡ true → a ≡ b)
            (λ _ ca cb. clash ((enter cb).1 a na) ca) (λ _ ca cb. inv.alone a b ca cb))
    where
      clash : {x : Bool} {A : Type 0} → x ≡ false → x ≡ true → A
      clash f g = absurd (ground arith)

  moved-counted :
      Counts s t u c → c ≡ sum_over n (λ a. increments (change s.threads t u a)) % 2 ^ 32
  moved-counted (inl (same, kept)) =
      omega (arith, inv.counted, increments-change n t s.threads u lt, same, kept)
  moved-counted (inr (more, raised)) =
      omega (arith, inv.counted, increments-change n t s.threads u lt, more, raised)

  pub moved-Inv :
      MayEnter s t u o → Spares s t o c → IsFresh c u.pc → Counts s t u c → Inv n (moved s t u o c)
  moved-Inv enter spare now count = record {
    alone = moved-alone enter;
    locked = λ a.
        at_thread s.threads t a u (λ v. critical v.pc ≡ true → o ≡ 1) (λ _ ca. (enter ca).0)
          (λ na ca. (spare a na ca).0);
    fresh = λ a.
        at_thread s.threads t a u (λ v. IsFresh c v.pc) (λ _. now)
          (λ na. elim (Bool-cases (critical (s.threads a).pc)) [
            | inl busy ↦
                subst (λ (k : ℕ). IsFresh k (s.threads a).pc) (sym ((spare a na busy).1))
                  (inv.fresh a)
            | inr idle ↦ idle-IsFresh c (s.threads a).pc idle
          ]);
    counted = moved-counted count;
  }
