-- ===== src/Project2/LockTable/Nodes.antt =====
-- The nodes of a queue of project2/src/locktable.cpp: in the order in which they were drawn, so that an
-- iterator stands for one request.
use ite.Base.{
  ℕ, suc, ◌≡◌, ◌≢◌, ◌≤◌, ◌<◌, refl, false, Option, some, List, [], ◌∷◌, ◌++◌, ◌==◌, arith,
  Bool-cases, inl, inr, Has,
}
use ite.Project2.RwLock.{LockElement, may_enter, grant, enter_from, erase_node}
use ite.Project2.LockTable.Grants.{SameRequest}

-- The nodes ascend, from one that is at least `n`.
abbrev pub IsOrdered : ℕ → List LockElement → Type 0
IsOrdered n [] = Unit
IsOrdered n (e ∷ q) = (n ≤ e.node) × IsOrdered (suc e.node) q

IsOrdered-weaken : (a b : ℕ) (q : List LockElement) → a ≤ b → IsOrdered b q → IsOrdered a q
IsOrdered-weaken a b [] le h = tt
IsOrdered-weaken a b (e ∷ q) le h = (omega (arith, h.0), h.1)

above : (n : ℕ) (q : List LockElement) (e : LockElement) → IsOrdered n q → Has e q → n ≤ e.node
above n [] e h i = elim i [ ]
above n (x ∷ q) e h (inl same) = ground (arith, h.0)
above n (x ∷ q) e h (inr i) = omega (arith, h.0, above (suc x.node) q e h.1 i)

pub IsOrdered-append :
    (n : ℕ) (q : List LockElement) (x : LockElement)
    → n ≤ x.node
    → ((e : LockElement) → Has e q → e.node < x.node)
    → IsOrdered n q
    → IsOrdered n (q ++ (x ∷ []))
IsOrdered-append n [] x le all h = (le, tt)
IsOrdered-append n (y ∷ q) x le all h =
    (h.0, IsOrdered-append (suc y.node) q x (all y (inl refl)) (λ e i. all e (inr i)) h.1)

pub IsOrdered-enter :
    (n : ℕ) (p : Option LockElement) (a : ℕ) (q : List LockElement)
    → IsOrdered n q
    → IsOrdered n (enter_from p a q).1
unfolding enter_from
IsOrdered-enter n p a [] h = tt
IsOrdered-enter n p a (x ∷ q) h = elim (Bool-cases (x.node == a)) [
  | inl hit ↦
      rw hit (elim (Bool-cases (may_enter p x)) [ inl can ↦ rw can h | inr cannot ↦ rw cannot h ])
  | inr miss ↦ rw miss (h.0, IsOrdered-enter (suc x.node) (some x) a q h.1)
]

pub IsOrdered-erase :
    (n a : ℕ) (q : List LockElement) → IsOrdered n q → IsOrdered n (erase_node a q)
unfolding erase_node
IsOrdered-erase n a [] h = tt
IsOrdered-erase n a (x ∷ q) h = elim (Bool-cases (x.node == a)) [
  | inl hit ↦ rw hit (IsOrdered-weaken n (suc x.node) q (omega (arith, h.0)) h.1)
  | inr miss ↦ rw miss (h.0, IsOrdered-erase (suc x.node) a q h.1)
]

-- What is erased is gone, and nothing else is.
pub erased :
    (n a : ℕ) (q : List LockElement) (e : LockElement)
    → IsOrdered n q
    → Has e (erase_node a q)
    → e.node ≢ a
unfolding erase_node
erased n a [] e h i = elim i [ ]
erased n a (x ∷ q) e h i = elim (Bool-cases (x.node == a)) [
  | inl hit ↦
      let after : Has e q = rw hit at i in
      let le = above (suc x.node) q e h.1 after in ground (arith, le)
  | inr miss ↦ elim (kept miss i) [
    | inl same ↦ ground arith
    | inr j ↦ erased (suc x.node) a q e h.1 j
  ]
]
  where
    kept : (x.node == a) ≡ false → Has e (erase_node a (x ∷ q)) → Has e (x ∷ erase_node a q)
    kept miss h = rw miss at h

pub Has-erase_other :
    (a : ℕ) (q : List LockElement) (e : LockElement) → e.node ≢ a → Has e q → Has e (erase_node a q)
unfolding erase_node
Has-erase_other a [] e ne i = i
Has-erase_other a (x ∷ q) e ne (inl same) = elim (Bool-cases (x.node == a)) [
  | inl hit ↦ absurd (ne (ground arith))
  | inr miss ↦ rw miss (inl same)
]
Has-erase_other a (x ∷ q) e ne (inr i) = elim (Bool-cases (x.node == a)) [
  | inl hit ↦ rw hit i
  | inr miss ↦ rw miss (inr (Has-erase_other a q e ne i))
]

abbrev pub Stays : LockElement → List LockElement → Type 0
Stays e q = (e' : LockElement) × Has e' q × SameRequest e e'

Stays-there : (x e : LockElement) (q : List LockElement) → Stays e q → Stays e (x ∷ q)
Stays-there x e q (e', i, same) = (e', inr i, same)

-- `canEnter` takes no request out of the queue.
pub Stays-enter :
    (p : Option LockElement) (a : ℕ) (q : List LockElement) (e : LockElement)
    → Has e q
    → Stays e (enter_from p a q).1
unfolding enter_from
Stays-enter p a [] e i = elim i [ ]
Stays-enter p a (x ∷ q) e (inl same) = elim (Bool-cases (x.node == a)) [
  | inl hit ↦ rw hit (elim (Bool-cases (may_enter p x)) [
    | inl can ↦ rw can (grant x, inl refl, (ground arith, ground arith, ground arith))
    | inr cannot ↦ rw cannot (e, inl same, (refl, refl, refl))
  ])
  | inr miss ↦ rw miss (e, inl same, (refl, refl, refl))
]
Stays-enter p a (x ∷ q) e (inr i) = elim (Bool-cases (x.node == a)) [
  | inl hit ↦ rw hit (elim (Bool-cases (may_enter p x)) [
    | inl can ↦ rw can (e, inr i, (refl, refl, refl))
    | inr cannot ↦ rw cannot (e, inr i, (refl, refl, refl))
  ])
  | inr miss ↦ rw miss (Stays-there x e (enter_from (some x) a q).1 (Stays-enter (some x) a q e i))
]
