-- ===== src/Lab11/LockFree/Calls.antt =====
-- Whole calls of lab11/lockfree.cpp: what the answers say of the set.
use ite.Base.{
  ℕ, ◌≡◌, ◌≢◌, ◌<◌, ◌≤◌, true, false, not, ◌&&◌, arith, inl, inr, sym, ap, ◌==◌, some, none,
  Bool-cases, Option, if◌then◌else◌, ltb,
}
use mathlib.Core.Path.{subst}
use ite.Lab11.CoarseList.{Work, add, contains}
use ite.Lab11.LockFree.{
  Memory, set_next, link, free, points_to, adding, removing, Pc, idle, find_start, find_succ,
  find_unlink, add_cas, remove_read, remove_cas, contains_at, returned, Next, thread_step, System,
  InKeys, Reach,
}
use ite.Lab11.LockFree.Order.{key_of, next_of, mark_of, IsLinked, InList, IsList, Member, Absent}
use ite.Lab11.LockFree.Local.{PcInv}
use ite.Lab11.LockFree.Runs.{Inv, Reach-Inv}
use ite.Lab11.LockFree.Answers.{
  Answer, Note, Lands, comes, is_loaded, begin-Note, find_start-Note, find_succ-Note,
  find_unlink-Note,
}
use ite.Lab11.LockFree.Hindsight.{is_resting, During, pass, marked}

module _ {s : System} (t : ℕ) (reach : Reach s) (w : Work) (node : ℕ) (m' : Memory) (p' : Pc)
    (list' : IsList m') (keys : InKeys w.value) (D : (Memory → Type 0) → Type 0)
    (now' : (P : Memory → Type 0) → P m' → D P)
    (earlier : (P : Memory → Type 0)
      → is_resting (s.threads t) ≡ false
      → During t P reach
      → D P) where
  inv : Inv s
  inv = Reach-Inv reach

  lands :
      (m1 : Memory) (p1 : Pc)
      → Lands (some (m1, p1)) m' p'
      → (m1 ≡ m' → Note D m' p1)
      → Note D m' p'
  lands = comes t reach w node m' p' list' keys D now' earlier

  loads :
      (a : ℕ) (next : Option Next)
      → IsLinked s.memory a
      → Lands (if s.memory.allocated a then next else none) m' p'
      → Lands next m' p'
  loads = is_loaded t reach w node m' p' list' keys D now' earlier

  add_cas-Note :
      (k n prev curr : ℕ)
      → IsLinked s.memory prev
      → Lands (thread_step w node (add_cas k n prev curr) s.memory) m' p'
      → Note D m' p'
  unfolding thread_step
  add_cas-Note k n prev curr lp e =
      let f =
        loads prev
          (some (
            if points_to (s.memory.nodes prev).next curr
            then (link prev n s.memory, returned add k true)
            else (s.memory, find_start (adding n) k)))
          lp e in
      elim (Bool-cases (points_to (s.memory.nodes prev).next curr)) [
        | inl swaps ↦
            let g = rw swaps at f in lands (link prev n s.memory) (returned add k true) g (λ q. tt)
        | inr fails ↦ let g = rw fails at f in lands s.memory (find_start (adding n) k) g (λ q. tt)
      ]

  -- The answer of `list_contains`, where it comes to a key that is not smaller.
  contains-Answer :
      (k curr : ℕ)
      → is_resting (s.threads t) ≡ false
      → IsLinked s.memory curr
      → k ≤ key_of s.memory curr
      → During t (λ x. InList x curr) reach
      → (k < key_of s.memory curr → During t (λ x. Absent x k) reach)
      → s.memory ≡ m'
      → Answer D contains k ((key_of s.memory curr == k) && not (mark_of s.memory curr))
  contains-Answer k curr busy l le way note q = elim (Bool-cases (key_of s.memory curr == k)) [
    | inl same ↦
        let key : key_of s.memory curr ≡ k = ground arith in
        elim (Bool-cases (mark_of s.memory curr)) [
          | inl mark ↦
              rw (same, mark)
                (earlier (λ m. Absent m k) busy
                  (subst (λ x. During t (λ m. Absent m x) reach) key
                    (marked t curr reach way mark)))
          | inr free ↦
              rw (same, free)
                (now' (λ m. Member m k)
                  (subst (λ m. Member m k) q (curr, inv.list.on_way curr l free, free, key)))
        ]
    | inr differ ↦
        let ne : key_of s.memory curr ≢ k = ground arith in
        rw differ (earlier (λ m. Absent m k) busy (note (omega (arith, le, ne))))
  ]

  contains-Note :
      (k curr : ℕ)
      → is_resting (s.threads t) ≡ false
      → PcInv s.memory (contains_at k curr)
      → During t (λ x. InList x curr) reach
      → (k < key_of s.memory curr → During t (λ x. Absent x k) reach)
      → Lands (thread_step w node (contains_at k curr) s.memory) m' p'
      → Note D m' p'
  unfolding thread_step
  contains-Note k curr busy (ks, l) way note e =
      let f =
        loads curr
          (some (
            s.memory,
            (if ltb (s.memory.nodes curr).key k
                then contains_at k (s.memory.nodes curr).next.addr
                else returned contains k
                    (((s.memory.nodes curr).key == k) && not (s.memory.nodes curr).next.marked)),
          ))
          l e in
      elim (Bool-cases (ltb (key_of s.memory curr) k)) [
        | inl lt ↦
            let g = rw lt at f in
            let (entered, skipped) = pass t curr k reach way (ground arith) ks.1 in
            lands s.memory (contains_at k (next_of s.memory curr)) g (λ q. (
              earlier (λ x. InList x (next_of s.memory curr)) busy entered,
              λ gt.
                  earlier (λ x. Absent x k) busy
                    (skipped (subst (λ m. k < key_of m (next_of s.memory curr)) (sym q) gt)),
            ))
        | inr ge ↦
            let g = rw ge at f in
            lands s.memory
              (returned contains k ((key_of s.memory curr == k) && not (mark_of s.memory curr))) g
              (contains-Answer k curr busy l (ground arith) way note)
      ]

  pub own-Note :
      (p : Pc)
      → s.threads t ≡ p
      → PcInv s.memory p
      → Note (λ P. During t P reach) s.memory p
      → Lands (thread_step w node p s.memory) m' p'
      → Note D m' p'
  unfolding thread_step
  own-Note idle at h note e = begin-Note t reach w node m' p' list' keys D now' earlier e
  own-Note (returned type k b) at h note e =
      begin-Note t reach w node m' p' list' keys D now' earlier e
  own-Note (find_start call k) at (ks, owns) note e =
      find_start-Note t reach w node m' p' list' keys D now' earlier call k ks e
  own-Note (find_succ call k prev curr) at h note e =
      find_succ-Note t reach w node m' p' list' keys D now' earlier call k prev curr
        (ap is_resting at) h note e
  own-Note (find_unlink call k prev curr succ) at (h, mark, next) note e =
      find_unlink-Note t reach w node m' p' list' keys D now' earlier call k prev curr succ h e
  own-Note (add_cas k n prev curr) at (ks, key, fits) note e =
      add_cas-Note k n prev curr fits.linked_prev e
  own-Note (remove_read k curr) at (ks, l, key) note e =
      lands s.memory (remove_cas k curr (next_of s.memory curr))
        (loads curr (some (s.memory, remove_cas k curr (next_of s.memory curr))) l e) (λ q. tt)
  own-Note (remove_cas k curr succ) at (ks, l, key) note e =
      let m1 =
        if points_to (s.memory.nodes curr).next succ
        then set_next curr (record { addr = succ; marked = true }) s.memory
        else s.memory in
      lands m1 (find_start removing k) (loads curr (some (m1, find_start removing k)) l e) (λ q. tt)
  own-Note (contains_at k curr) at h (way, note) e =
      contains-Note k curr (ap is_resting at) h way note e
