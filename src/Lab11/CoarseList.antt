-- ===== src/Lab11/CoarseList.antt =====
-- lab11/coarse_grained.cpp: the list under one mutex, and the work of the threads on it. The mutex
-- is held from the first read of a pointer to the last write, so an operation is one step.
use ite.Base.{
  ℕ, zero, suc, ◌≡◌, ◌<◌, Bool, true, false, not, ◌==◌, if◌then◌else◌, ltb, Option, none, some,
  List, [], ◌∷◌,
}
use mathlib.Core.Option
pub mod Refinement
pub mod Runs
pub mod Workload
mod Tests

-- An int is the number of its place from INT_MIN on, in the same order.
abbrev pub int_min : ℕ
int_min = 0

abbrev pub int_max : ℕ
int_max = 4294967295

-- The keys of the nodes from `head->next` to `tail`. A pointer that leaves the list is none.
unfoldable pub list_init : List ℕ
list_init = int_max ∷ []

abbrev pub behind : ℕ → Option (Bool × List ℕ) → Option (Bool × List ℕ)
behind x none = none
behind x (some (result, xs)) = some (result, x ∷ xs)

-- The loop passes the smaller keys, and then the new node comes between `prev` and `curr`.
unfoldable pub list_add : ℕ → List ℕ → Option (Bool × List ℕ)
list_add key [] = none
list_add key (x ∷ xs) =
    let rest = list_add key xs in
    if ltb x key
    then behind x rest
    else if x == key
    then some (false, x ∷ xs)
    else some (true, key ∷ x ∷ xs)

unfoldable pub list_remove : ℕ → List ℕ → Option (Bool × List ℕ)
list_remove key [] = none
list_remove key (x ∷ xs) =
    let rest = list_remove key xs in
    if ltb x key then behind x rest else if x == key then some (true, xs) else some (false, x ∷ xs)

unfoldable pub list_contains : ℕ → List ℕ → Option Bool
list_contains key [] = none
list_contains key (x ∷ xs) =
    let rest = list_contains key xs in if ltb x key then rest else some (x == key)

-- `thread_work` has a letter for each; another letter does nothing.
pub data WorkType : Type 0 where
  add : WorkType
  remove : WorkType
  contains : WorkType
  other : WorkType

pub record Work : Type 0 where
  pub type : WorkType
  pub value : ℕ

abbrev pub list_after : Option (Bool × List ℕ) → Option (List ℕ)
list_after none = none
list_after (some (result, xs)) = some xs

abbrev pub unchanged : Option Bool → List ℕ → Option (List ℕ)
unchanged none xs = none
unchanged (some result) xs = some xs

-- One round of `ThreadFunc`, which drops the answers.
unfoldable pub do_work : Work → List ℕ → Option (List ℕ)
do_work w xs = elim w.type [
  | add ↦ list_after (list_add w.value xs)
  | remove ↦ list_after (list_remove w.value xs)
  | contains ↦ unchanged (list_contains w.value xs) xs
  | other ↦ some xs
]

-- The rounds of all threads, in the order in which they take the mutex.
unfoldable pub run : List Work → List ℕ → Option (List ℕ)
run [] xs = some xs
run (w ∷ ws) xs = elim (do_work w xs) [ none ↦ none | some ys ↦ run ws ys ]

-- `main` compares with the keys of result.txt, and `it` ends at `tail`.
unfoldable pub is_valid : List ℕ → List ℕ → Bool
is_valid expected [] = false
is_valid [] (it ∷ []) = true
is_valid (value_result ∷ expected) (it ∷ []) = false
is_valid [] (it ∷ next ∷ xs) = false
is_valid (value_result ∷ expected) (it ∷ next ∷ xs) =
    let rest = is_valid expected (next ∷ xs) in if it == value_result then rest else false
