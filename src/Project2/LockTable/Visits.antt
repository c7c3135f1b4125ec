-- ===== src/Project2/LockTable/Visits.antt =====
-- Counting the workers that the search of a cycle has not marked yet.
use ite.Base.{
  ℕ, zero, suc, ◌+◌, ◌≡◌, ◌≤◌, ◌<◌, true, false, List, ◌∷◌, ◌==◌, if◌then◌else◌, arith, Bool-cases,
  inl, inr,
}
use ite.Project2.LockTable.Defs.{mem}

abbrev pub unvisited : ℕ → List ℕ → ℕ
unvisited zero visit = 0
unvisited (suc n) visit = (if mem (suc n) visit then 0 else 1) + unvisited n visit

abbrev pub IsWorker : ℕ → ℕ → Type 0
IsWorker n tid = (1 ≤ tid) × (tid ≤ n)

abbrev pub Extends : List ℕ → List ℕ → Type 0
Extends visit visit' = (m : ℕ) → mem m visit ≡ true → mem m visit' ≡ true

pub unvisited-le : (n : ℕ) (visit : List ℕ) → unvisited n visit ≤ n
unvisited-le zero visit = omega arith
unvisited-le (suc n) visit = ground (arith, unvisited-le n visit)

pub unvisited_mono :
    (n : ℕ) (visit visit' : List ℕ) → Extends visit visit' → unvisited n visit' ≤ unvisited n visit
unvisited_mono zero visit visit' h = omega arith
unvisited_mono (suc n) visit visit' h = ground (arith, unvisited_mono n visit visit' h, h (suc n))

pub unvisited-cons_le : (n x : ℕ) (visit : List ℕ) → unvisited n (x ∷ visit) ≤ unvisited n visit
unvisited-cons_le zero x visit = omega arith
unvisited-cons_le (suc n) x visit = ground (arith, unvisited-cons_le n x visit)

-- Marking a worker that was not marked leaves one less.
pub unvisited-cons :
    (n x : ℕ) (visit : List ℕ)
    → IsWorker n x
    → mem x visit ≡ false
    → unvisited n (x ∷ visit) < unvisited n visit
unvisited-cons zero x visit w new = absurd (omega arith)
unvisited-cons (suc n) x visit w new = elim (Bool-cases (suc n == x)) [
  | inl same ↦
      let e : suc n ≡ x = ground arith in
      let new' : mem (suc n) visit ≡ false = rw e new in
      rw (new', same) (omega (arith, unvisited-cons_le n x visit))
  | inr other ↦ rw other (ground (arith, unvisited-cons n x visit))
]
