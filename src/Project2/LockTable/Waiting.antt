-- ===== src/Project2/LockTable/Waiting.antt =====
-- What a detected deadlock is: LockTable::hasCycle of project2/src/locktable.cpp.
use ite.Base.{
  ℕ, zero, suc, ◌≡◌, ◌≢◌, refl, Bool, true, false, ◌||◌, some, List, [], ◌∷◌, ◌==◌, arith,
  Bool-cases, Option-cases, inl, inr, ◌⊎◌, Has,
}
use mathlib.Core.Path.{subst}
use ite.Project2.RwLock.{LockElement, LockToken, is_first, before}
use ite.Project2.LockTable.Defs.{
  LockTable, Result, ok, fault, lock_at, tokens_of, queue_of, is_waiting, mem, Visitor, or_else,
  answer, detect_tokens, detect_cycle, search_cycle, enough_fuel, assert_failed,
}

-- Thread `a` has a request, waiting or not, right behind one of thread `b`.
pub data Behind (t : LockTable) : ℕ → Bool → ℕ → Type 0 where
  behind :
      {a : ℕ} (token : LockToken) (it : LockElement)
      → Has token (tokens_of t a)
      → before token.lock (queue_of t token) ≡ some it
      → Behind t a (is_waiting t token) it.tid

-- A way along such requests; the mark says whether one of them waits.
pub data Chain (t : LockTable) : ℕ → Bool → ℕ → Type 0 where
  here : {a : ℕ} → Chain t a false a
  next : {a b c : ℕ} {w v : Bool} → Behind t a w b → Chain t b v c → Chain t a (w || v) c

-- Some of the tokens of `a` lead to `self`, and a request on the way waits.
abbrev Found : LockTable → ℕ → Bool → ℕ → Type 0
Found t self blocked a = (w : Bool) × Chain t a w self × ((blocked || w) ≡ true)

or_assoc : (a b c : Bool) → ((a || b) || c) ≡ (a || (b || c))
or_assoc true b c = refl
or_assoc false b c = refl

Chain-refl : (t : LockTable) (a self : ℕ) → (a == self) ≡ true → Chain t a false self
Chain-refl t a self h = let e : a ≡ self = ground arith in rw e here

module _ (t : LockTable) (self : ℕ) where
  abbrev IsSound : Visitor → Type 0
  IsSound rec =
      (a : ℕ) (blocked : Bool) (visit v : List ℕ)
      → rec a blocked visit ≡ ok (true, v)
      → Found t self blocked a

  or_else-true :
      (r : Result (Bool × List ℕ)) (k : List ℕ → Result (Bool × List ℕ)) (v : List ℕ)
      → or_else r k ≡ ok (true, v)
      → (r ≡ ok (true, v)) ⊎ ((w : List ℕ) × (k w ≡ ok (true, v)))
  or_else-true (ok (true, w)) k v h = inl h
  or_else-true (ok (false, w)) k v h = inr (w, h)
  or_else-true (fault e) k v h = cc

  detect_tokens-Found :
      (rec : Visitor) (a : ℕ) (blocked : Bool) (tokens : List LockToken) (visit v : List ℕ)
      → IsSound rec
      → ((x : LockToken) → Has x tokens → Has x (tokens_of t a))
      → detect_tokens t rec blocked tokens visit ≡ ok (true, v)
      → Found t self blocked a
  unfolding detect_tokens
  detect_tokens-Found rec a blocked [] visit v sound all h = cc
  detect_tokens-Found rec a blocked (token ∷ tokens) visit v sound all h =
      let later = λ (u : List ℕ) (g : detect_tokens t rec blocked tokens u ≡ ok (true, v)).
        detect_tokens-Found rec a blocked tokens u v sound (λ x i. all x (inr i)) g in
      elim (Bool-cases (is_first token (lock_at t token.index))) [
        | inl first ↦ later visit (rw first at h)
        | inr back ↦ elim (Option-cases (before token.lock (queue_of t token))) [
          | inl lost ↦ ground arith
          | inr (it, at) ↦ elim (Bool-cases (mem it.tid visit)) [
            | inl old ↦ later visit (rw (back, at, old) at h)
            | inr new ↦
                elim (or_else-true (rec it.tid (blocked || is_waiting t token) visit)
                  (detect_tokens t rec blocked tokens) v (rw (back, at, new) at h)) [
                    | inl direct ↦
                        let (w, chain, wait) =
                          sound it.tid (blocked || is_waiting t token) visit v direct in
                        (
                          _,
                          next (behind token it (all token (inl refl)) at) chain,
                          rw (← or_assoc blocked (is_waiting t token) w) wait,
                        )
                    | inr (u, rest) ↦ later u rest
                  ]
          ]
        ]
      ]

  detect_cycle-Found : (fuel : ℕ) → IsSound (detect_cycle t self fuel)
  unfolding detect_cycle
  detect_cycle-Found zero a blocked visit v h = cc
  detect_cycle-Found (suc fuel) a blocked visit v h = elim (Bool-cases (a == self)) [
    | inl home ↦ (false, Chain-refl t a self home, ground arith)
    | inr away ↦
        detect_tokens-Found (detect_cycle t self fuel) a blocked (tokens_of t a) (a ∷ visit) v
          (detect_cycle-Found fuel) (λ x i. i) (rw away at h)
  ]

answer-true : (r : Result (Bool × List ℕ)) → answer r ≡ ok true → (v : List ℕ) × (r ≡ ok (true, v))
answer-true (ok (b, v)) h = (v, ground arith)
answer-true (fault e) h = cc

-- A deadlock is reported only for a real cycle: the request right before the caller's in the queue
-- belongs to another thread, and from that thread a chain of requests, each right behind one of the
-- next thread, leads back to the caller, with at least one request on the chain still waiting.
pub search_cycle-Chain :
    (t : LockTable) (token : LockToken)
    → search_cycle t token ≡ ok true
    → (it : LockElement) × (before token.lock (queue_of t token) ≡ some it)
      × (it.tid ≢ token.tid)
      × Chain t it.tid true token.tid
unfolding search_cycle
search_cycle-Chain t token h = elim (Option-cases (before token.lock (queue_of t token))) [
  | inl lost ↦ ground arith
  | inr (it, at) ↦ elim (Bool-cases (it.tid == token.tid)) [
    | inl own ↦ absurd (no_fault (rw (at, search_cycle, own) at h))
    | inr other ↦
        let (v, found) =
          answer-true (detect_cycle t token.tid (enough_fuel t) it.tid false [])
            (rw (at, search_cycle, other) at h) in
        let (w, chain, wait) =
          detect_cycle-Found t token.tid (enough_fuel t) it.tid false [] v found in
        (it, at, ground arith, subst (λ b. Chain t it.tid b token.tid) wait chain)
  ]
]
  where
    no_fault : fault assert_failed ≡ ok true → ⊥
    no_fault e = cc
