-- ===== src/Project2/LockTable/Termination.antt =====
-- The search of a cycle ends: LockTable::detectCycle of project2/src/locktable.cpp.
use ite.Base.{
  ℕ, zero, suc, ◌≡◌, ◌≢◌, ◌<◌, refl, Bool, true, false, ◌||◌, Option, none, some, List, [], ◌∷◌,
  ◌==◌, arith, Bool-cases, Option-cases, inl, inr, Has, get_or, ◌⊎◌, ◌-◌,
}
use mathlib.Core.Path.{subst}
use ite.Project2.RwLock.{LockElement, LockToken, RwLock, rw_lock, is_first, before, before_from}
use ite.Project2.LockTable.Defs.{
  LockTable, out_of_fuel, dangling, assert_failed, Result, ok, fault, lock_at, tokens_of, queue_of,
  is_waiting, mem, Visitor, or_else, answer, detect_tokens, detect_cycle, search_cycle, enough_fuel,
}
use ite.Project2.LockTable.Visits.{
  unvisited, IsWorker, Extends, unvisited_mono, unvisited-cons, unvisited-le,
}

-- An outcome other than the end of the fuel, with no mark lost.
abbrev pub Ends : List ℕ → Result (Bool × List ℕ) → Type 0
Ends visit (ok (b, visit')) = Extends visit visit'
Ends visit (fault out_of_fuel) = ⊥
Ends visit (fault dangling) = Unit
Ends visit (fault assert_failed) = Unit

-- Every queued request was made by a worker.
abbrev pub QueuesWorkers : LockTable → Type 0
QueuesWorkers t =
    (l : RwLock) (e : LockElement)
    → Has l t.locks
    → Has e l.thread_queue
    → IsWorker t.num_workers e.tid

before_from-Has :
    (p : Option LockElement) (n : ℕ) (q : List LockElement) (it : LockElement)
    → before_from p n q ≡ some it
    → (p ≡ some it) ⊎ Has it q
unfolding before_from
before_from-Has p n [] it h = cc
before_from-Has p n (e ∷ q) it h = elim (Bool-cases (e.node == n)) [
  | inl hit ↦ inl (rw (hit, before_from) at h)
  | inr miss ↦ elim (before_from-Has (some e) n q it (rw (miss, before_from) at h)) [
    | inl same ↦ inr (inl (some_eq same))
    | inr later ↦ inr (inr later)
  ]
]
  where
    some_eq : some e ≡ some it → e ≡ it
    some_eq same = cc

get_or-Has : (l : List RwLock) (k : ℕ) (d : RwLock) → (get_or l k d ≡ d) ⊎ Has (get_or l k d) l
get_or-Has [] k d = inl refl
get_or-Has (x ∷ l) zero d = inr (inl refl)
get_or-Has (x ∷ l) (suc k) d = elim (get_or-Has l k d) [ inl e ↦ inl e | inr h ↦ inr (inr h) ]

-- So was the request that stands before another.
before-IsWorker :
    (t : LockTable) (token : LockToken) (it : LockElement)
    → QueuesWorkers t
    → before token.lock (queue_of t token) ≡ some it
    → IsWorker t.num_workers it.tid
before-IsWorker t token it workers h =
    elim (before_from-Has none token.lock (queue_of t token) it h) [
      | inl never ↦ absurd (none_some never)
      | inr queued ↦ elim (get_or-Has t.locks (token.index - 1) (rw_lock token.index)) [
        | inl new ↦ elim (subst (λ (l : RwLock). Has it l.thread_queue) new queued) [ ]
        | inr old ↦ workers (lock_at t token.index) it old queued
      ]
    ]
  where
    none_some : none ≡ some it → ⊥
    none_some e = cc

Ends-trans : (u v : List ℕ) (r : Result (Bool × List ℕ)) → Extends u v → Ends v r → Ends u r
Ends-trans u v (ok (b, w)) h e = λ m i. e m (h m i)
Ends-trans u v (fault out_of_fuel) h e = e
Ends-trans u v (fault dangling) h e = tt
Ends-trans u v (fault assert_failed) h e = tt

Ends-or_else :
    (v : List ℕ) (r : Result (Bool × List ℕ)) (k : List ℕ → Result (Bool × List ℕ))
    → Ends v r
    → ((w : List ℕ) → Extends v w → Ends w (k w))
    → Ends v (or_else r k)
Ends-or_else v (ok (true, w)) k e h = e
Ends-or_else v (ok (false, w)) k e h = Ends-trans v w (k w) e (h w e)
Ends-or_else v (fault out_of_fuel) k e h = e
Ends-or_else v (fault dangling) k e h = tt
Ends-or_else v (fault assert_failed) k e h = tt

module _ (t : LockTable) (workers : QueuesWorkers t) where
  -- `rec` ends wherever more rounds are left than workers unmarked.
  abbrev EndsBelow : ℕ → Visitor → Type 0
  EndsBelow fuel rec =
      (next : ℕ) (blocked : Bool) (visit : List ℕ)
      → IsWorker t.num_workers next
      → mem next visit ≡ false
      → unvisited t.num_workers visit < fuel
      → Ends visit (rec next blocked visit)

  detect_tokens-Ends :
      (fuel : ℕ) (rec : Visitor) (blocked : Bool) (tokens : List LockToken) (visit : List ℕ)
      → EndsBelow fuel rec
      → unvisited t.num_workers visit < fuel
      → Ends visit (detect_tokens t rec blocked tokens visit)
  unfolding detect_tokens
  detect_tokens-Ends fuel rec blocked [] visit h lt = λ m i. i
  detect_tokens-Ends fuel rec blocked (token ∷ tokens) visit h lt =
      elim (Bool-cases (is_first token (lock_at t token.index))) [
        | inl first ↦ rw first (detect_tokens-Ends fuel rec blocked tokens visit h lt)
        | inr behind ↦ rw behind (elim (Option-cases (before token.lock (queue_of t token))) [
          | inl lost ↦ rw lost tt
          | inr (it, at) ↦ rw at (elim (Bool-cases (mem it.tid visit)) [
            | inl old ↦ rw old (detect_tokens-Ends fuel rec blocked tokens visit h lt)
            | inr new ↦ rw new (
                Ends-or_else visit _ _
                  (h it.tid (blocked || is_waiting t token) visit
                    (before-IsWorker t token it workers at) new lt)
                  (λ w ext.
                    detect_tokens-Ends fuel rec blocked tokens w h
                      (omega (arith, unvisited_mono t.num_workers visit w ext))))
          ])
        ])
      ]

  detect_cycle-Ends : (self fuel : ℕ) → EndsBelow fuel (detect_cycle t self fuel)
  unfolding detect_cycle
  detect_cycle-Ends self zero next blocked visit w new lt = absurd (omega arith)
  detect_cycle-Ends self (suc fuel) next blocked visit w new lt = elim (Bool-cases (next == self)) [
    | inl home ↦ rw home (λ m i. i)
    | inr away ↦ rw away (
        Ends-trans visit (next ∷ visit) _ (λ m i. ground arith)
          (detect_tokens-Ends fuel (detect_cycle t self fuel) blocked (tokens_of t next)
            (next ∷ visit) (detect_cycle-Ends self fuel)
            (omega (arith, unvisited-cons t.num_workers next visit w new))))
  ]

Ends-answer : (v : List ℕ) (r : Result (Bool × List ℕ)) → Ends v r → answer r ≢ fault out_of_fuel
Ends-answer v (ok (b, w)) e q = cc
Ends-answer v (fault out_of_fuel) e q = e
Ends-answer v (fault dangling) e q = cc
Ends-answer v (fault assert_failed) e q = cc

-- In a table whose queued requests were made by its workers, the search of a cycle for any token
-- ends within one round for each worker and one more: it never runs out of fuel.
pub search_cycle_ends :
    (t : LockTable) (token : LockToken) → QueuesWorkers t → search_cycle t token ≢ fault out_of_fuel
unfolding search_cycle
search_cycle_ends t token workers = elim (Option-cases (before token.lock (queue_of t token))) [
  | inl lost ↦ rw (lost, search_cycle) (λ q. cc)
  | inr (it, at) ↦
      rw (at, search_cycle)
        (elim (Bool-cases (it.tid == token.tid)) [
          | inl own ↦ rw own (λ q. cc)
          | inr other ↦ rw other (
              Ends-answer [] _ (
                detect_cycle-Ends t workers token.tid (enough_fuel t) it.tid false []
                  (before-IsWorker t token it workers at) refl
                  (omega (arith, unvisited-le t.num_workers []))))
        ])
]
