-- ===== src/Project2/RwLock/Exclusion.antt =====
-- Readers share a lock, a writer has it alone: RWLock of project2/src/locktable.cpp.
use ite.Base.{
  ℕ, zero, suc, ◌≡◌, ◌<◌, refl, true, false, Option, none, some, List, [], ◌∷◌, ◌++◌, ◌==◌, arith,
  get_elem?, Bool-cases, inl, inr,
}
use ite.Project2.RwLock.{
  LockElement, LockToken, RwLock, rw_lock, add_rd_lock, add_wr_lock, erase_node, unlock, may_enter,
  grant, enter_from, can_enter,
}

-- What a granted request may stand behind: nothing, or a granted reader if it is a reader itself.
abbrev pub MayFollow : Option LockElement → LockElement → Type 0
MayFollow none e = Unit
MayFollow (some p) e = (p.is_blocked ≡ false) × (p.is_reader ≡ true) × (e.is_reader ≡ true)

abbrev pub IsShared : Option LockElement → List LockElement → Type 0
IsShared p [] = Unit
IsShared p (e ∷ q) = (e.is_blocked ≡ false → MayFollow p e) × IsShared (some e) q

abbrev pub IsExclusive : RwLock → Type 0
IsExclusive l = IsShared none l.thread_queue

pub IsShared-append :
    (p : Option LockElement) (q : List LockElement) (e : LockElement)
    → e.is_blocked ≡ true
    → IsShared p q
    → IsShared p (q ++ (e ∷ []))
IsShared-append p [] e b h = (λ g. cc, tt)
IsShared-append p (x ∷ q) e b h = (h.0, IsShared-append (some x) q e b h.1)

-- What may stand behind a request still may once it goes, or once it is granted.
IsShared-skip :
    (p : Option LockElement) (e : LockElement) (q : List LockElement)
    → (e.is_blocked ≡ false → MayFollow p e)
    → IsShared (some e) q
    → IsShared p q
IsShared-skip p e [] g h = tt
IsShared-skip none e (x ∷ q) g h = (λ _. tt, h.1)
IsShared-skip (some p) e (x ∷ q) g h = (λ b. let f = h.0 b in let k = g f.0 in (k.0, k.1, f.2), h.1)

pub IsShared-erase :
    (n : ℕ) (p : Option LockElement) (q : List LockElement)
    → IsShared p q
    → IsShared p (erase_node n q)
unfolding erase_node
IsShared-erase n p [] h = tt
IsShared-erase n p (e ∷ q) h = elim (Bool-cases (e.node == n)) [
  | inl hit ↦ rw hit (IsShared-skip p e q h.0 h.1)
  | inr miss ↦ rw miss (h.0, IsShared-erase n (some e) q h.1)
]

IsShared-grant :
    (e : LockElement) (q : List LockElement) → IsShared (some e) q → IsShared (some (grant e)) q
IsShared-grant e [] h = tt
IsShared-grant e (x ∷ q) h = (λ b. let f = h.0 b in (refl, f.1, f.2), h.1)

MayFollow-grant :
    (p : Option LockElement) (e : LockElement)
    → (e.is_blocked ≡ false → MayFollow p e)
    → may_enter p e ≡ true
    → MayFollow p (grant e)
unfolding may_enter
MayFollow-grant none e g t = tt
MayFollow-grant (some p) e g t = elim (Bool-cases e.is_blocked) [
  | inl b ↦ ground arith
  | inr b ↦ let k = g b in k
]

pub IsShared-enter :
    (n : ℕ) (p : Option LockElement) (q : List LockElement)
    → IsShared p q
    → IsShared p (enter_from p n q).1
unfolding enter_from
IsShared-enter n p [] h = tt
IsShared-enter n p (e ∷ q) h = elim (Bool-cases (e.node == n)) [
  | inl hit ↦ rw hit (elim (Bool-cases (may_enter p e)) [
    | inl can ↦ rw can (λ _. MayFollow-grant p e h.0 can, IsShared-grant e q h.1)
    | inr cannot ↦ rw cannot h
  ])
  | inr miss ↦ rw miss (h.0, IsShared-enter n (some e) q h.1)
]

-- The calls that the lock table makes on one lock, in any order and with any token.
pub data Call : Type 0 where
  rd : (tid : ℕ) → Call
  wr : (tid : ℕ) → Call
  release : LockToken → Call
  poll : LockToken → Call

unfoldable pub call : Call → RwLock → RwLock
unfolding add_rd_lock add_wr_lock unlock can_enter
call (rd tid) l = (add_rd_lock tid l).1
call (wr tid) l = (add_wr_lock tid l).1
call (release t) l = unlock t l
call (poll t) l = (can_enter t l).1

unfoldable pub calls : List Call → RwLock → RwLock
unfolding call
calls [] l = l
calls (c ∷ cs) l = calls cs (call c l)

pub call-IsExclusive : (c : Call) (l : RwLock) → IsExclusive l → IsExclusive (call c l)
unfolding call
call-IsExclusive (rd tid) l h = IsShared-append none l.thread_queue _ refl h
call-IsExclusive (wr tid) l h = IsShared-append none l.thread_queue _ refl h
call-IsExclusive (release t) l h = IsShared-erase t.lock none l.thread_queue h
call-IsExclusive (poll t) l h = IsShared-enter t.lock none l.thread_queue h

calls-IsExclusive : (cs : List Call) (l : RwLock) → IsExclusive l → IsExclusive (calls cs l)
unfolding calls
calls-IsExclusive [] l h = h
calls-IsExclusive (c ∷ cs) l h = calls-IsExclusive cs (call c l) (call-IsExclusive c l h)

-- The request at position `i` has been granted.
abbrev pub IsGranted : List LockElement → ℕ → LockElement → Type 0
IsGranted q i e = (get_elem? q i ≡ some e) × (e.is_blocked ≡ false)

-- Everything that stands before a granted request is a granted reader, and so is what it follows.
granted-behind :
    (p : LockElement) (q : List LockElement) (i : ℕ) (e : LockElement)
    → IsShared (some p) q
    → IsGranted q i e
    → (p.is_blocked ≡ false) × (p.is_reader ≡ true) × (e.is_reader ≡ true)
granted-behind p [] i e h g = cc
granted-behind p (x ∷ q) zero e h g =
    let open_now : x.is_blocked ≡ false = ground arith in
    let r = h.0 open_now in (r.0, r.1, ground arith)
granted-behind p (x ∷ q) (suc i) e h g =
    let r = granted-behind x q i e h.1 g in let s = h.0 r.0 in (s.0, s.1, r.2)

two-granted :
    (p : Option LockElement) (q : List LockElement) (i j : ℕ) (a b : LockElement)
    → IsShared p q
    → IsGranted q i a
    → IsGranted q j b
    → i < j
    → (a.is_reader ≡ true) × (b.is_reader ≡ true)
two-granted p [] i j a b h g k lt = cc
two-granted p (x ∷ q) zero zero a b h g k lt = absurd (omega arith)
two-granted p (x ∷ q) zero (suc j) a b h g k lt =
    let r = granted-behind x q j b h.1 k in let same : x ≡ a = ground arith in (rw same at r.1, r.2)
two-granted p (x ∷ q) (suc i) zero a b h g k lt = absurd (omega arith)
two-granted p (x ∷ q) (suc i) (suc j) a b h g k lt =
    two-granted (some x) q i j a b h.1 g k (omega arith)

-- After any sequence of calls on a new lock, two requests that are both granted are both readers:
-- a writer that has been granted is the only granted request of its record.
pub granted_readers :
    (index : ℕ) (cs : List Call) (i j : ℕ) (a b : LockElement)
    → IsGranted (calls cs (rw_lock index)).thread_queue i a
    → IsGranted (calls cs (rw_lock index)).thread_queue j b
    → i < j
    → (a.is_reader ≡ true) × (b.is_reader ≡ true)
granted_readers index cs i j a b =
    two-granted none _ i j a b (calls-IsExclusive cs (rw_lock index) tt)
