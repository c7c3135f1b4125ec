-- ===== src/Project2/LockTable/Grants.antt =====
-- Which requests of a queue are granted, and what each operation on one queue keeps of them.
use ite.Base.{
  ℕ, ◌≡◌, ◌≢◌, refl, Bool, true, false, Option, some, List, [], ◌∷◌, ◌++◌, ◌==◌, arith, Bool-cases,
  inl, inr, Has, Has-append_left,
}
use ite.Project2.RwLock.{LockElement, may_enter, grant, enter_from, erase_node}
use ite.Project2.RwLock.Exclusion.{IsShared}

abbrev pub IsGrantOf : LockElement → ℕ → Bool → Type 0
IsGrantOf e tid rd = (e.tid ≡ tid) × (e.is_reader ≡ rd) × (e.is_blocked ≡ false)

-- Thread `tid` has a granted request for reading, or for writing, in the queue.
abbrev pub Granted : List LockElement → ℕ → Bool → Type 0
Granted q tid rd = (e : LockElement) × Has e q × IsGrantOf e tid rd

-- The node `n`, wherever it stands in the queue, is a request of `tid`.
abbrev pub Owned : List LockElement → ℕ → ℕ → Bool → Type 0
Owned q n tid rd = (e : LockElement) → Has e q → e.node ≡ n → (e.tid ≡ tid) × (e.is_reader ≡ rd)

abbrev pub SameRequest : LockElement → LockElement → Type 0
SameRequest a b = (a.node ≡ b.node) × (a.tid ≡ b.tid) × (a.is_reader ≡ b.is_reader)

pub Granted-append :
    (q : List LockElement) (x : LockElement) (tid : ℕ) (rd : Bool)
    → Granted q tid rd
    → Granted (q ++ (x ∷ [])) tid rd
Granted-append q x tid rd (e, h, own) = (e, Has-append_left e q (x ∷ []) h, own)

Granted-there :
    (x : LockElement) (q : List LockElement) (tid : ℕ) (rd : Bool)
    → Granted q tid rd
    → Granted (x ∷ q) tid rd
Granted-there x q tid rd (e, h, own) = (e, inr h, own)

pub Granted-enter :
    (p : Option LockElement) (n : ℕ) (q : List LockElement) (tid : ℕ) (rd : Bool)
    → Granted q tid rd
    → Granted (enter_from p n q).1 tid rd
unfolding enter_from
Granted-enter p n [] tid rd g = g
Granted-enter p n (x ∷ q) tid rd (e, inl same, own) = elim (Bool-cases (x.node == n)) [
  | inl hit ↦ rw hit (elim (Bool-cases (may_enter p x)) [
    | inl can ↦ rw can (grant x, inl refl, (ground arith, ground arith, refl))
    | inr cannot ↦ rw cannot (e, inl same, own)
  ])
  | inr miss ↦ rw miss (e, inl same, own)
]
Granted-enter p n (x ∷ q) tid rd (e, inr h, own) = elim (Bool-cases (x.node == n)) [
  | inl hit ↦ rw hit (elim (Bool-cases (may_enter p x)) [
    | inl can ↦ rw can (e, inr h, own)
    | inr cannot ↦ rw cannot (e, inr h, own)
  ])
  | inr miss ↦ rw miss (
      Granted-there x (enter_from (some x) n q).1 tid rd
        (Granted-enter (some x) n q tid rd (e, h, own)))
]

pub Granted-erase :
    (n : ℕ) (q : List LockElement) (tid : ℕ) (rd : Bool)
    → ((e : LockElement) → Has e q → e.node ≡ n → e.tid ≢ tid)
    → Granted q tid rd
    → Granted (erase_node n q) tid rd
unfolding erase_node
Granted-erase n [] tid rd other g = g
Granted-erase n (x ∷ q) tid rd other (e, inl same, own) = elim (Bool-cases (x.node == n)) [
  | inl hit ↦ absurd (other x (inl refl) (ground arith) (ground arith))
  | inr miss ↦ rw miss (e, inl same, own)
]
Granted-erase n (x ∷ q) tid rd other (e, inr h, own) = elim (Bool-cases (x.node == n)) [
  | inl hit ↦ rw hit (e, h, own)
  | inr miss ↦ rw miss (
      Granted-there x (erase_node n q) tid rd
        (Granted-erase n q tid rd (λ y i. other y (inr i)) (e, h, own)))
]

-- A request that enters is granted.
pub enter-Granted :
    (p : Option LockElement) (n : ℕ) (q : List LockElement) (tid : ℕ) (rd : Bool)
    → Owned q n tid rd
    → (enter_from p n q).0 ≡ true
    → Granted (enter_from p n q).1 tid rd
unfolding enter_from
enter-Granted p n [] tid rd own h = cc
enter-Granted p n (x ∷ q) tid rd own h = elim (Bool-cases (x.node == n)) [
  | inl hit ↦ rw hit (elim (Bool-cases (may_enter p x)) [
    | inl can ↦
        let mine = own x (inl refl) (ground arith) in
        rw can (grant x, inl refl, (mine.0, mine.1, refl))
    | inr cannot ↦ absurd (no_entry (rw (hit, cannot) at h))
  ])
  | inr miss ↦ rw miss (
      Granted-there x (enter_from (some x) n q).1 tid rd
        (enter-Granted (some x) n q tid rd (λ e i. own e (inr i)) (rw miss at h)))
]
  where
    no_entry : false ≡ true → ⊥
    no_entry e = cc

pub Has-enter :
    (p : Option LockElement) (n : ℕ) (q : List LockElement) (e : LockElement)
    → Has e (enter_from p n q).1
    → (e' : LockElement) × Has e' q × SameRequest e' e
unfolding enter_from
Has-enter p n [] e h = elim h [ ]
Has-enter p n (x ∷ q) e h = elim (Bool-cases (x.node == n)) [
  | inl hit ↦ elim (Bool-cases (may_enter p x)) [
    | inl can ↦ elim (granted hit can h) [
      | inl same ↦ (x, inl refl, (ground arith, ground arith, ground arith))
      | inr i ↦ (e, inr i, (refl, refl, refl))
    ]
    | inr cannot ↦ (e, refused hit cannot h, (refl, refl, refl))
  ]
  | inr miss ↦ elim (further miss h) [
    | inl same ↦ (e, inl same, (refl, refl, refl))
    | inr i ↦ let (e', j, same) = Has-enter (some x) n q e i in (e', inr j, same)
  ]
]
  where
    Entered : Type 0
    Entered = Has e (enter_from p n (x ∷ q)).1

    granted : (x.node == n) ≡ true → may_enter p x ≡ true → Entered → Has e (grant x ∷ q)
    granted hit can h = rw (hit, can) at h

    refused : (x.node == n) ≡ true → may_enter p x ≡ false → Entered → Has e (x ∷ q)
    refused hit cannot h = rw (hit, cannot) at h

    further : (x.node == n) ≡ false → Entered → Has e (x ∷ (enter_from (some x) n q).1)
    further miss h = rw miss at h

pub Has-erase : (n : ℕ) (q : List LockElement) (e : LockElement) → Has e (erase_node n q) → Has e q
unfolding erase_node
Has-erase n [] e h = h
Has-erase n (x ∷ q) e h = elim (Bool-cases (x.node == n)) [
  | inl hit ↦ inr (rw hit at h)
  | inr miss ↦ elim (kept miss h) [ inl same ↦ inl same | inr i ↦ inr (Has-erase n q e i) ]
]
  where
    kept : (x.node == n) ≡ false → Has e (erase_node n (x ∷ q)) → Has e (x ∷ erase_node n q)
    kept miss h = rw miss at h

first_reader :
    (p : LockElement) (q : List LockElement) (e : LockElement)
    → IsShared (some p) q
    → Has e q
    → e.is_blocked ≡ false
    → (p.is_blocked ≡ false) × (p.is_reader ≡ true) × (e.is_reader ≡ true)
first_reader p [] e s h b = elim h [ ]
first_reader p (x ∷ q) e s (inl same) b =
    let open_now : x.is_blocked ≡ false = ground arith in
    let r = s.0 open_now in (r.0, r.1, ground arith)
first_reader p (x ∷ q) e s (inr h) b =
    let r = first_reader x q e s.1 h b in let f = s.0 r.0 in (f.0, f.1, r.2)

two_readers :
    (p : Option LockElement) (q : List LockElement) (a b : LockElement)
    → IsShared p q
    → Has a q
    → Has b q
    → a.is_blocked ≡ false
    → b.is_blocked ≡ false
    → a.tid ≢ b.tid
    → (a.is_reader ≡ true) × (b.is_reader ≡ true)
two_readers p [] a b s ha hb fa fb ne = elim ha [ ]
two_readers p (x ∷ q) a b s (inl ea) (inl eb) fa fb ne = absurd (ne (ground arith))
two_readers p (x ∷ q) a b s (inl ea) (inr hb) fa fb ne =
    let r = first_reader x q b s.1 hb fb in (ground arith, r.2)
two_readers p (x ∷ q) a b s (inr ha) (inl eb) fa fb ne =
    let r = first_reader x q a s.1 ha fa in (r.2, ground arith)
two_readers p (x ∷ q) a b s (inr ha) (inr hb) fa fb ne =
    two_readers (some x) q a b s.1 ha hb fa fb ne

-- Two threads with granted requests in one queue are both readers.
pub Granted-shared :
    (p : Option LockElement) (q : List LockElement) (a b : ℕ) (ra rb : Bool)
    → IsShared p q
    → Granted q a ra
    → Granted q b rb
    → a ≢ b
    → (ra ≡ true) × (rb ≡ true)
Granted-shared p q a b ra rb s (x, hx, (tx, rx, bx)) (y, hy, (ty, ry, byy)) ne =
    let r = two_readers p q x y s hx hy bx byy (λ e. ne (ground arith)) in
    (ground arith, ground arith)
