-- ===== src/Project2/RwLock/Entry.antt =====
-- When a request enters: RWLock::canEnter of project2/src/locktable.cpp.
use ite.Base.{
  ℕ, ◌≡◌, ◌≢◌, refl, true, false, Option, none, some, List, [], ◌∷◌, ◌==◌, arith, Bool-cases, inl,
  inr, ap,
}
use ite.Project2.RwLock.{
  LockElement, LockToken, RwLock, enter_from, can_enter, is_first, is_first_in, blocked_in,
}

-- The head of the queue enters.
enter-first :
    (n : ℕ) (q : List LockElement) → is_first_in n q ≡ true → (enter_from none n q).0 ≡ true
unfolding enter_from
enter-first n [] h = cc
enter-first n (e ∷ q) h = rw h

-- A refusal changes nothing; an entry leaves the request granted.
enter-true :
    (p : Option LockElement) (n : ℕ) (q : List LockElement)
    → (enter_from p n q).0 ≡ true
    → blocked_in n (enter_from p n q).1 ≡ false
unfolding enter_from blocked_in
enter-true p n [] h = cc
enter-true p n (e ∷ q) h = ground (arith, enter-true (some e) n q)

enter-false :
    (p : Option LockElement) (n : ℕ) (q : List LockElement)
    → (enter_from p n q).0 ≡ false
    → (enter_from p n q).1 ≡ q
unfolding enter_from
enter-false p n [] h = refl
enter-false p n (e ∷ q) h = elim (Bool-cases (e.node == n)) [
  | inl hit ↦ ground arith
  | inr miss ↦
      rw miss (ap (λ (l : List LockElement). e ∷ l) (enter-false (some e) n q (rw miss at h)))
]

-- Every other request is left as it was.
enter-other :
    (p : Option LockElement) (n m : ℕ) (q : List LockElement)
    → m ≢ n
    → blocked_in m (enter_from p n q).1 ≡ blocked_in m q
unfolding enter_from blocked_in
enter-other p n m [] ne = refl
enter-other p n m (e ∷ q) ne = ground (arith, enter-other (some e) n m q ne)

-- `canEnter` on every outcome: it admits a request that stands first; when it answers true the
-- request is granted afterwards, when it answers false the lock is unchanged; the state of every
-- other request is the same either way.
pub can_enter_lem :
    (t : LockToken) (l : RwLock)
    → (is_first t l ≡ true → (can_enter t l).0 ≡ true)
      × ((can_enter t l).0 ≡ true → blocked_in t.lock (can_enter t l).1.thread_queue ≡ false)
      × ((can_enter t l).0 ≡ false → (can_enter t l).1 ≡ l)
      × ((m : ℕ)
          → m ≢ t.lock
          → blocked_in m (can_enter t l).1.thread_queue ≡ blocked_in m l.thread_queue)
unfolding can_enter is_first
can_enter_lem t l = (
  enter-first t.lock l.thread_queue,
  enter-true none t.lock l.thread_queue,
  λ h.
      ap (λ (q : List LockElement). record l { thread_queue = q })
        (enter-false none t.lock l.thread_queue h),
  λ m ne. enter-other none t.lock m l.thread_queue ne,
)
