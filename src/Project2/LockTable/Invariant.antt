-- ===== src/Project2/LockTable/Invariant.antt =====
-- A sound lock table, and what one operation may change of it.
use ite.Base.{
  ℕ, ◌-◌, ◌≡◌, ◌≢◌, ◌≤◌, ◌<◌, refl, Bool, none, List, ◌==◌, arith, Bool-cases, inl, inr, Has,
  length, length-set, get_or-set_self, get_or-set_ne, if◌then◌else◌,
}
use mathlib.Core.Path.{subst}
use ite.Project2.RwLock.{LockElement, LockToken, RwLock}
use ite.Project2.RwLock.Exclusion.{IsShared}
use ite.Project2.LockTable.Defs.{LockTable, lock_at, tokens_of, set_lock}
use ite.Project2.LockTable.Visits.{IsWorker}
use ite.Project2.LockTable.Grants.{Granted, Owned, SameRequest}
use ite.Project2.LockTable.Nodes.{IsOrdered, Stays}

abbrev pub queue : LockTable → ℕ → List LockElement
queue t x = (lock_at t x).thread_queue

abbrev pub next_node : LockTable → ℕ → ℕ
next_node t x = (lock_at t x).next_node

abbrev pub InRecords : ℕ → ℕ → Type 0
InRecords r x = (1 ≤ x) × (x ≤ r)

-- A token that thread `tid` got for a request: its node is nobody else's.
abbrev pub TokenOf : ℕ → LockTable → ℕ → Bool → LockToken → Type 0
TokenOf r t tid rd token =
    InRecords r token.index
    × (token.lock < next_node t token.index)
    × Owned (queue t token.index) token.lock tid rd

abbrev pub IsRequest : ℕ → RwLock → LockElement → Type 0
IsRequest n l e = (e.node < l.next_node) × IsWorker n e.tid

pub record IsSound (n r : ℕ) (t : LockTable) : Type 0 where
  pub workers : t.num_workers ≡ n
  pub adj_size : length t.adj ≡ n
  pub locks_size : length t.locks ≡ r
  pub indexed : (x : ℕ) → InRecords r x → (lock_at t x).index ≡ x
  pub shared : (x : ℕ) → InRecords r x → IsShared none (queue t x)
  pub requests :
      (x : ℕ) (e : LockElement) → InRecords r x → Has e (queue t x) → IsRequest n (lock_at t x) e
  pub ordered : (x : ℕ) → InRecords r x → IsOrdered 0 (queue t x)
  pub owned :
      (tid : ℕ) (token : LockToken)
      → IsWorker n tid
      → Has token (tokens_of t tid)
      → (rd : Bool) × TokenOf r t tid rd token

-- The requests of the threads that satisfy `P` stay in the queues, and granted if they are; no node
-- gets another owner.
pub record Evolves (r : ℕ) (P : ℕ → Type 0) (t t' : LockTable) : Type 0 where
  pub grants :
      (x tid : ℕ) (rd : Bool)
      → InRecords r x
      → P tid
      → Granted (queue t x) tid rd
      → Granted (queue t' x) tid rd
  pub old :
      (x : ℕ) (e : LockElement)
      → InRecords r x
      → Has e (queue t' x)
      → e.node < next_node t x
      → (e' : LockElement) × Has e' (queue t x) × SameRequest e' e
  pub grows : (x : ℕ) → InRecords r x → next_node t x ≤ next_node t' x
  pub stays :
      (x : ℕ) (e : LockElement) → InRecords r x → P e.tid → Has e (queue t x) → Stays e (queue t' x)

pub Evolves-refl : (r : ℕ) (P : ℕ → Type 0) (t : LockTable) → Evolves r P t t
Evolves-refl r P t = record {
  grants = λ x a b i p g. g;
  old = λ x e i h lt. (e, h, (refl, refl, refl));
  grows = λ x i. omega arith;
  stays = λ x e i p h. (e, h, (refl, refl, refl));
}

pub Evolves-trans :
    {r : ℕ} {P : ℕ → Type 0} {t u v : LockTable}
    → Evolves r P t u
    → Evolves r P u v
    → Evolves r P t v
Evolves-trans {P = P} f g = record {
  grants = λ x tid rd i p h. g.grants x tid rd i p (f.grants x tid rd i p h);
  old = λ x e i h lt.
      let (e1, h1, s1) = g.old x e i h (omega (arith, f.grows x i)) in
      let (e2, h2, s2) = f.old x e1 i h1 (omega arith) in
      (e2, h2, (ground arith, ground arith, ground arith));
  grows = λ x i. omega (arith, f.grows x i, g.grows x i);
  stays = λ x e i p h.
      let (e1, h1, s1) = f.stays x e i p h in
      let (e2, h2, s2) = g.stays x e1 i (subst P s1.1 p) h1 in
      (e2, h2, (ground arith, ground arith, ground arith));
}

pub TokenOf-Evolves :
    {r : ℕ} {P : ℕ → Type 0} {t u : LockTable} (tid : ℕ) (rd : Bool) (token : LockToken)
    → Evolves r P t u
    → TokenOf r t tid rd token
    → TokenOf r u tid rd token
TokenOf-Evolves tid rd token f (i, lt, own) = (
  i,
  omega (arith, f.grows token.index i),
  λ e h same.
      let (e', h', s) = f.old token.index e i h (omega arith) in
      let o = own e' h' (ground arith) in (ground arith, ground arith),
)

-- The same for one lock.
pub record LockEvolves (n : ℕ) (P : ℕ → Type 0) (l l' : RwLock) : Type 0 where
  pub grants :
      (tid : ℕ) (rd : Bool) → P tid → Granted l.thread_queue tid rd → Granted l'.thread_queue tid rd
  pub old :
      (e : LockElement)
      → Has e l'.thread_queue
      → e.node < l.next_node
      → (e' : LockElement) × Has e' l.thread_queue × SameRequest e' e
  pub grows : l.next_node ≤ l'.next_node
  pub stays : (e : LockElement) → P e.tid → Has e l.thread_queue → Stays e l'.thread_queue
  pub ordered :
      ((e : LockElement) → Has e l.thread_queue → IsRequest n l e)
      → IsOrdered 0 l.thread_queue
      → IsOrdered 0 l'.thread_queue
  pub index : l'.index ≡ l.index
  pub shared : IsShared none l.thread_queue → IsShared none l'.thread_queue
  pub requests :
      ((e : LockElement) → Has e l.thread_queue → IsRequest n l e)
      → (e : LockElement) → Has e l'.thread_queue
      → IsRequest n l' e

lock_at-set_lock :
    (r : ℕ) (t : LockTable) (x y : ℕ) (l : RwLock)
    → length t.locks ≡ r
    → InRecords r x
    → InRecords r y
    → lock_at (set_lock t x l) y ≡ (if x == y then l else lock_at t y)
lock_at-set_lock r t x y l size i j = elim (Bool-cases (x == y)) [
  | inl same ↦
      ground
        (arith, get_or-set_self t.locks (x - 1) l (ite.Project2.RwLock.rw_lock y) (omega arith))
  | inr other ↦ ground (
    arith,
    get_or-set_ne t.locks (x - 1) (y - 1) l (ite.Project2.RwLock.rw_lock y) (ground arith),
  )
]

-- To prove something of every lock after a write, prove it of the new one and of the others.
pub at_lock :
    (r : ℕ) (t : LockTable) (x y : ℕ) (l : RwLock) (C : RwLock → Type 0)
    → length t.locks ≡ r
    → InRecords r x
    → InRecords r y
    → (x ≡ y → C l)
    → (x ≢ y → C (lock_at t y))
    → C (lock_at (set_lock t x l) y)
at_lock r t x y l C size i j here there =
    rw (lock_at-set_lock r t x y l size i j) (elim (Bool-cases (x == y)) [
      | inl same ↦ rw same (here (ground arith))
      | inr other ↦ rw other (there (ground arith))
    ])

module _ {n r : ℕ} {P : ℕ → Type 0} {t : LockTable} (sound : IsSound n r t) (x : ℕ) where
  pub set_lock-Evolves :
      {l : RwLock}
      → InRecords r x
      → LockEvolves n P (lock_at t x) l
      → Evolves r P t (set_lock t x l)
  set_lock-Evolves {l} i f = record {
    grants = λ y tid rd j p g.
        at_lock r t x y l (λ m. Granted m.thread_queue tid rd) sound.locks_size i j
          (λ e. f.grants tid rd p (rw (← e) at g)) (λ _. g);
    old = λ y e j.
        at_lock r t x y l
          (λ m.
            Has e m.thread_queue
            → e.node < next_node t y
            → (e' : LockElement) × Has e' (queue t y) × SameRequest e' e)
          sound.locks_size i j (λ same. rw (← same) (f.old e))
          (λ _ h lt. (e, h, (refl, refl, refl)));
    grows = λ y j.
        at_lock r t x y l (λ m. next_node t y ≤ m.next_node) sound.locks_size i j
          (λ same. rw (← same) f.grows) (λ _. omega arith);
    stays = λ y e j p h.
        at_lock r t x y l (λ m. Stays e m.thread_queue) sound.locks_size i j
          (λ same. f.stays e p (rw (← same) at h)) (λ _. (e, h, (refl, refl, refl)));
  }

  pub set_lock-IsSound :
      {l : RwLock} → InRecords r x → LockEvolves n P (lock_at t x) l → IsSound n r (set_lock t x l)
  set_lock-IsSound {l} i f = record {
    workers = sound.workers;
    adj_size = sound.adj_size;
    locks_size = omega (arith, length-set t.locks (x - 1) l, sound.locks_size);
    indexed = λ y j.
        at_lock r t x y l (λ m. m.index ≡ y) sound.locks_size i j
          (λ same. ground (arith, f.index, sound.indexed x i)) (λ _. sound.indexed y j);
    shared = λ y j.
        at_lock r t x y l (λ m. IsShared none m.thread_queue) sound.locks_size i j
          (λ _. f.shared (sound.shared x i)) (λ _. sound.shared y j);
    requests = λ y e j.
        at_lock r t x y l (λ m. Has e m.thread_queue → IsRequest n m e) sound.locks_size i j
          (λ _. f.requests (λ b. sound.requests x b i) e) (λ _. sound.requests y e j);
    ordered = λ y j.
        at_lock r t x y l (λ m. IsOrdered 0 m.thread_queue) sound.locks_size i j
          (λ _. f.ordered (λ b. sound.requests x b i) (sound.ordered x i)) (λ _. sound.ordered y j);
    owned = λ tid token w h.
        let (rd, own) = sound.owned tid token w h in
        (rd, TokenOf-Evolves tid rd token (set_lock-Evolves i f) own);
  }
