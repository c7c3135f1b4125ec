-- ===== src/Lab11/LockFree/Answers.antt =====
-- The answers of the calls of lab11/lockfree.cpp.
use ite.Base.{
  ℕ, ◌≡◌, ◌≢◌, ◌<◌, ◌≤◌, refl, Bool, true, false, arith, inl, inr, sym, ap, ◌∙◌, ◌==◌, some, none,
  Bool-cases, Option, if◌then◌else◌, leb,
}
use mathlib.Core.Path.{subst}
use ite.Lab11.Nodes.{head, arrived}
use ite.Lab11.CoarseList.{int_max, Work, WorkType, add, remove, contains, other}
use ite.Lab11.LockFree.{
  Pointer, Memory, unmarked, set_next, malloc, free, points_to, Call, adding, removing, Pc, idle,
  find_start, find_succ, find_unlink, add_cas, remove_read, contains_at, returned, Next, begin,
  found, first_of, find_round, thread_step, System, InKeys, Reach,
}
use ite.Lab11.LockFree.Order.{
  key_of, next_of, mark_of, IsLinked, InList, IsList, Member, Absent, between-Absent,
}
use ite.Lab11.LockFree.Actions.{key-set_next, there-set_next}
use ite.Lab11.LockFree.Local.{At}
use ite.Lab11.LockFree.Runs.{Inv, Reach-Inv}
use ite.Lab11.LockFree.Hindsight.{is_resting, During}

-- What an answer says of the set at some time of the call, where `D` says of a property that it held at
-- some time of the call. That `list_add` has added its key is an effect of its last step.
abbrev pub Answer : ((Memory → Type 0) → Type 0) → WorkType → ℕ → Bool → Type 0
Answer D add k true = Unit
Answer D add k false = D (λ m. Member m k)
Answer D remove k true = ⊥
Answer D remove k false = D (λ m. Absent m k)
Answer D contains k true = D (λ m. Member m k)
Answer D contains k false = D (λ m. Absent m k)
Answer D other k result = Unit

-- What a thread has learnt during its call.
abbrev pub Note : ((Memory → Type 0) → Type 0) → Memory → Pc → Type 0
Note D m (find_succ call k prev curr) = k < key_of m curr → D (λ x. Absent x k)
Note D m (contains_at k curr) = D (λ x. InList x curr) × (k < key_of m curr → D (λ x. Absent x k))
Note D m (returned type k result) = Answer D type k result
Note D m p = Unit

abbrev pub Lands : Option Next → Memory → Pc → Type 0
Lands o m p = o ≡ some (m, p)

module _ {m m' : Memory} {p p' : Pc} where
  landed : Lands (some (m, p)) m' p' → (m ≡ m') × (p ≡ p')
  landed e = (
    ap (λ (o : Option Next). elim o [ none ↦ m | some n ↦ n.0 ]) e,
    ap (λ (o : Option Next). elim o [ none ↦ p | some n ↦ n.1 ]) e,
  )

module _ {s : System} (t : ℕ) (reach : Reach s) (w : Work) (node : ℕ) (m' : Memory) (p' : Pc)
    (list' : IsList m') (keys : InKeys w.value) (D : (Memory → Type 0) → Type 0)
    (now' : (P : Memory → Type 0) → P m' → D P)
    (earlier : (P : Memory → Type 0)
      → is_resting (s.threads t) ≡ false
      → During t P reach
      → D P) where
  inv : Inv s
  inv = Reach-Inv reach

  -- A thread comes to a place where it knows what follows from the memory that it leaves.
  pub comes :
      (m1 : Memory) (p1 : Pc)
      → Lands (some (m1, p1)) m' p'
      → (m1 ≡ m' → Note D m' p1)
      → Note D m' p'
  comes m1 p1 e h = let (f, g) = landed e in subst (Note D m') g (h f)

  pub is_loaded :
      (a : ℕ) (next : Option Next)
      → IsLinked s.memory a
      → Lands (if s.memory.allocated a then next else none) m' p'
      → Lands next m' p'
  is_loaded a next l e = let f = inv.list.in_memory a l in let g = rw f at e in g

  pub begin-Note : Lands (some (begin w node s.memory)) m' p' → Note D m' p'
  unfolding begin
  begin-Note e = go w.type refl
    where
      go : (type : WorkType) → w.type ≡ type → Note D m' p'
      go add at =
          let g = rw at at e in
          comes (malloc node w.value s.memory) (find_start (adding node) w.value) g (λ f. tt)
      go remove at = let g = rw at at e in comes s.memory (find_start removing w.value) g (λ f. tt)
      go contains at =
          let g = rw at at e in
          comes s.memory (contains_at w.value head) g (λ f. (
            now' (λ x. InList x head) (arrived refl),
            λ lt. absurd (omega (arith, lt, list'.chain.head_key, keys.0)),
          ))
      go other at = let g = rw at at e in comes s.memory idle g (λ f. tt)

  -- A key between two neighbours of which the first has no mark is absent now.
  gap_now :
      (x y k : ℕ)
      → IsLinked m' x
      → mark_of m' x ≡ false
      → next_of m' x ≡ y
      → key_of m' x < k
      → k < int_max
      → k < key_of m' y
      → D (λ m. Absent m k)
  gap_now x y k l mark at lt ok gt =
      now' (λ m. Absent m k)
        (between-Absent m' list' x k (list'.on_way x l mark) lt
          (omega (arith, gt, ap (key_of m') at)) ok)

  pub find_start-Note :
      (call : Call) (k : ℕ)
      → InKeys k
      → Lands (thread_step w node (find_start call k) s.memory) m' p'
      → Note D m' p'
  unfolding thread_step first_of
  find_start-Note call k ks e =
      let f =
        is_loaded head (first_of call k s.memory (s.memory.nodes head).next)
          inv.list.chain.head_linked e in
      let g = rw inv.list.head_mark at f in
      comes s.memory (find_succ call k head (next_of s.memory head)) g (λ q gt.
        gap_now head (next_of s.memory head) k list'.chain.head_linked list'.head_mark
          (ap (λ m. next_of m head) (sym q)) (omega (arith, list'.chain.head_key, ks.0)) ks.1 gt)

  found-Note :
      (call : Call) (k prev curr : ℕ)
      → is_resting (s.threads t) ≡ false
      → At s.memory call k prev curr
      → mark_of s.memory curr ≡ false
      → k ≤ key_of s.memory curr
      → (k < key_of s.memory curr → During t (λ m. Absent m k) reach)
      → Lands (some (found call k prev curr s.memory)) m' p'
      → Note D m' p'
  unfolding found
  found-Note (adding n) k prev curr busy (ks, owns, lp, lc, lt) mark le note e =
      elim (Bool-cases (key_of s.memory curr == k)) [
        | inl same ↦
            let g = rw same at e in
            comes (free n s.memory) (returned add k false) g (λ q.
              now' (λ m. Member m k)
                (subst (λ m. Member m k) q
                  (curr, inv.list.on_way curr lc mark, mark, ground arith)))
        | inr differ ↦
            let g = rw differ at e in
            comes (set_next n (unmarked curr) s.memory) (add_cas k n prev curr) g (λ q. tt)
      ]
  found-Note removing k prev curr busy (ks, owns, lp, lc, lt) mark le note e =
      elim (Bool-cases (key_of s.memory curr == k)) [
        | inl same ↦ let g = rw same at e in comes s.memory (remove_read k curr) g (λ q. tt)
        | inr differ ↦
            let g = rw differ at e in
            let ne : key_of s.memory curr ≢ k = ground arith in
            comes s.memory (returned remove k false) g
              (λ q. earlier (λ m. Absent m k) busy (note (omega (arith, le, ne))))
      ]

  pub find_succ-Note :
      (call : Call) (k prev curr : ℕ)
      → is_resting (s.threads t) ≡ false
      → At s.memory call k prev curr
      → (k < key_of s.memory curr → During t (λ m. Absent m k) reach)
      → Lands (thread_step w node (find_succ call k prev curr) s.memory) m' p'
      → Note D m' p'
  unfolding thread_step find_round
  find_succ-Note call k prev curr busy (ks, owns, lp, lc, lt) note e =
      let f = is_loaded curr (some (find_round call k prev curr s.memory)) lc e in
      elim (Bool-cases (mark_of s.memory curr)) [
        | inl mark ↦
            let g = rw mark at f in
            comes s.memory (find_unlink call k prev curr (next_of s.memory curr)) g (λ q. tt)
        | inr mark ↦ elim (Bool-cases (leb k (key_of s.memory curr))) [
          | inl le ↦
              let g = rw (mark, le) at f in
              found-Note call k prev curr busy (ks, owns, lp, lc, lt) mark (ground arith) note g
          | inr gt ↦
              let g = rw (mark, gt) at f in
              comes s.memory (find_succ call k curr (next_of s.memory curr)) g (λ q over.
                gap_now curr (next_of s.memory curr) k (subst (λ m. IsLinked m curr) q lc)
                  (ap (λ m. mark_of m curr) (sym q) ∙ mark) (ap (λ m. next_of m curr) (sym q))
                  (subst (λ m. key_of m curr < k) q (ground arith)) ks.1 over)
        ]
      ]

  pub find_unlink-Note :
      (call : Call) (k prev curr succ : ℕ)
      → At s.memory call k prev curr
      → Lands (thread_step w node (find_unlink call k prev curr succ) s.memory) m' p'
      → Note D m' p'
  unfolding thread_step
  find_unlink-Note call k prev curr succ (ks, owns, lp, lc, lt) e =
      let f =
        is_loaded prev
          (some (
            if points_to (s.memory.nodes prev).next curr
            then (set_next prev (unmarked succ) s.memory, find_succ call k prev succ)
            else (s.memory, find_start call k)))
          lp e in
      elim (Bool-cases (points_to (s.memory.nodes prev).next curr)) [
        | inl swaps ↦
            let g = rw swaps at f in
            let there = there-set_next s.memory prev (unmarked succ) in
            let key = key-set_next s.memory prev (unmarked succ) prev in
            comes (set_next prev (unmarked succ) s.memory) (find_succ call k prev succ) g (λ q over.
              gap_now prev succ k (subst (λ m. IsLinked m prev) q lp)
                (ap (λ m. mark_of m prev) (sym q) ∙ ap (λ (x : Pointer). x.marked) there)
                (ap (λ m. next_of m prev) (sym q) ∙ ap (λ (x : Pointer). x.addr) there)
                (subst (λ m. key_of m prev < k) q (omega (arith, key, lt))) ks.1 over)
        | inr fails ↦ let g = rw fails at f in comes s.memory (find_start call k) g (λ q. tt)
      ]
