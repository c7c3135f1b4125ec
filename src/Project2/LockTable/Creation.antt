-- ===== src/Project2/LockTable/Creation.antt =====
-- A new lock table is sound: the constructor in project2/include/locktable.hpp.
use ite.Base.{
  ℕ, zero, suc, ◌+◌, ◌-◌, ◌≡◌, ◌<◌, refl, List, [], arith, Has, get_or, length, replicate, ap, ◌∙◌,
  sym, none,
}
use mathlib.Core.Path.{subst}
use ite.Project2.RwLock.Exclusion.{IsShared}
use ite.Project2.RwLock.{RwLock, LockToken, rw_lock}
use ite.Project2.LockTable.Defs.{create, push_locks, lock_at, tokens_of}
use ite.Project2.LockTable.Nodes.{IsOrdered}
use ite.Project2.LockTable.Invariant.{queue, InRecords, IsSound}

get_or-push_locks :
    (i r k : ℕ) (d : RwLock) → k < r → get_or (push_locks i r) k d ≡ rw_lock (i + k + 1)
unfolding push_locks
get_or-push_locks i zero k d h = absurd (omega arith)
get_or-push_locks i (suc r) zero d h = ap rw_lock (omega arith)
get_or-push_locks i (suc r) (suc k) d h =
    get_or-push_locks (i + 1) r k d (omega arith) ∙ ap rw_lock (omega arith)

length-push_locks : (i r : ℕ) → length (push_locks i r) ≡ r
unfolding push_locks
length-push_locks i zero = refl
length-push_locks i (suc r) = ap suc (length-push_locks (i + 1) r)

abbrev no_tokens : List LockToken
no_tokens = []

get_or-replicate : (n k : ℕ) → get_or (replicate n no_tokens) k [] ≡ []
get_or-replicate zero k = refl
get_or-replicate (suc n) zero = refl
get_or-replicate (suc n) (suc k) = get_or-replicate n k

length-tokens : (n : ℕ) → length (replicate n no_tokens) ≡ n
length-tokens zero = refl
length-tokens (suc n) = ap suc (length-tokens n)

lock_at-create : (n r x : ℕ) → InRecords r x → lock_at (create n r) x ≡ rw_lock x
unfolding create
lock_at-create n r x i =
    get_or-push_locks 0 r (x - 1) (rw_lock x) (omega arith) ∙ ap rw_lock (omega arith)

tokens_of-create : (n r tid : ℕ) → tokens_of (create n r) tid ≡ []
unfolding create
tokens_of-create n r tid = get_or-replicate n (tid - 1)

queue-create : (n r x : ℕ) → InRecords r x → queue (create n r) x ≡ []
queue-create n r x i = ap (λ (l : RwLock). l.thread_queue) (lock_at-create n r x i)

pub create-IsSound : (n r : ℕ) → IsSound n r (create n r)
unfolding create
create-IsSound n r = record {
  workers = refl;
  adj_size = length-tokens n;
  locks_size = length-push_locks 0 r;
  indexed = λ x i. ap (λ (l : RwLock). l.index) (lock_at-create n r x i);
  shared = λ x i. subst (IsShared none) (sym (queue-create n r x i)) tt;
  requests = λ x e i h. elim (subst (Has e) (queue-create n r x i) h) [ ];
  ordered = λ x i. subst (IsOrdered 0) (sym (queue-create n r x i)) tt;
  owned = λ tid token w h. elim (subst (Has token) (tokens_of-create n r tid) h) [ ];
}
