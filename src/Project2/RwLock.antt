-- ===== src/Project2/RwLock.antt =====
-- One reader-writer lock of the lock table: a queue of requests (project2/include/locktable.hpp,
-- project2/src/locktable.cpp). An iterator into the `std::list` is the number of its node, drawn
-- from a counter that the lock keeps, so that two requests never share one.
pub mod Entry
pub mod Exclusion
use ite.Base.{
  ℕ, ◌+◌, ◌≡◌, Bool, true, false, ◌&&◌, ◌||◌, not, Option, none, some, List, [], ◌∷◌, ◌++◌, ◌==◌,
  if◌then◌else◌,
}

-- `isBlocked` is false from the moment the request has been granted.
pub record LockElement : Type 0 where
  pub node : ℕ
  pub tid : ℕ
  pub is_reader : Bool
  pub is_blocked : Bool

-- `lock` is the iterator.
pub record LockToken : Type 0 where
  pub tid : ℕ
  pub index : ℕ
  pub lock : ℕ

pub record RwLock : Type 0 where
  pub index : ℕ
  pub thread_queue : List LockElement
  pub next_node : ℕ

abbrev pub rw_lock : ℕ → RwLock
rw_lock index = record { index = index; thread_queue = []; next_node = 0 }

-- The calling thread is an argument, where the code asks `getThreadId()`.
unfoldable pub add_lock : ℕ → Bool → RwLock → LockToken × RwLock
add_lock tid is_reader l =
    let elem : LockElement = record {
      node = l.next_node;
      tid = tid;
      is_reader = is_reader;
      is_blocked = true;
    } in
    (
      record { tid = tid; index = l.index; lock = l.next_node },
      record l { thread_queue = l.thread_queue ++ (elem ∷ []); next_node = l.next_node + 1 },
    )

unfoldable pub add_rd_lock : ℕ → RwLock → LockToken × RwLock
unfolding add_lock
add_rd_lock tid l = add_lock tid true l

unfoldable pub add_wr_lock : ℕ → RwLock → LockToken × RwLock
unfolding add_lock
add_wr_lock tid l = add_lock tid false l

unfoldable pub erase_node : ℕ → List LockElement → List LockElement
erase_node n [] = []
erase_node n (e ∷ q) = if e.node == n then q else e ∷ erase_node n q

unfoldable pub unlock : LockToken → RwLock → RwLock
unfolding erase_node
unlock t l = record l { thread_queue = erase_node t.lock l.thread_queue }

-- The tests of `canEnter`, given the request that stands before `e`, if one does.
unfoldable pub may_enter : Option LockElement → LockElement → Bool
may_enter none e = true
may_enter (some p) e = not e.is_blocked || (e.is_reader && (p.is_reader && not p.is_blocked))

abbrev pub grant : LockElement → LockElement
grant e = record e { is_blocked = false }

-- The walk of the iterator to its node, with the request before it at hand. An iterator that is
-- not in the queue enters nothing.
unfoldable pub enter_from : Option LockElement → ℕ → List LockElement → Bool × List LockElement
unfolding may_enter
enter_from p n [] = (false, [])
enter_from p n (e ∷ q) =
    let rest = enter_from (some e) n q in
    if e.node == n
    then (if may_enter p e then (true, grant e ∷ q) else (false, e ∷ q))
    else (rest.0, e ∷ rest.1)

unfoldable pub can_enter : LockToken → RwLock → Bool × RwLock
unfolding enter_from
can_enter t l =
    let r = enter_from none t.lock l.thread_queue in (r.0, record l { thread_queue = r.1 })

abbrev pub is_first_in : ℕ → List LockElement → Bool
is_first_in n [] = false
is_first_in n (e ∷ q) = e.node == n

unfoldable pub is_first : LockToken → RwLock → Bool
is_first t l = is_first_in t.lock l.thread_queue

-- `*--it` for the iterator of node `n`: the request before it.
unfoldable pub before_from : Option LockElement → ℕ → List LockElement → Option LockElement
before_from p n [] = none
before_from p n (e ∷ q) = if e.node == n then p else before_from (some e) n q

abbrev pub before : ℕ → List LockElement → Option LockElement
before n q = before_from none n q

-- `token.lock->isBlocked`
unfoldable pub blocked_in : ℕ → List LockElement → Bool
blocked_in n [] = false
blocked_in n (e ∷ q) = if e.node == n then e.is_blocked else blocked_in n q
