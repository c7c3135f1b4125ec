-- ===== src/Lab11/LockFree/Progress.antt =====
-- The steps of lab11/lockfree.cpp outside `list_find`; every step of a thread is taken, and is an advance.
use ite.Base.{
  ℕ, ◌≡◌, ◌≢◌, ◌<◌, refl, true, false, not, ◌&&◌, arith, inl, inr, ap, ◌==◌, ltb, some, Bool-cases,
  at_change, if◌then◌else◌,
}
use mathlib.Core.Path.{subst}
use ite.Lab11.Nodes.{head, tail}
use ite.Lab11.CoarseList.{Work, add, contains}
use ite.Lab11.LockFree.{
  Memory, unmarked, set_next, link, points_to, adding, removing, Pc, idle, find_start, find_succ,
  find_unlink, add_cas, remove_read, remove_cas, contains_at, returned, thread_step, IsFresh,
  InKeys,
}
use ite.Lab11.LockFree.Order.{key_of, next_of, mark_of, IsList, inner}
use ite.Lab11.LockFree.Actions.{apart-set_next}
use ite.Lab11.LockFree.Writes.{mark-Moves, mark-Member, mark-members}
use ite.Lab11.LockFree.Linking.{link-Moves, link-Absent, link-members}
use ite.Lab11.LockFree.Local.{PcInv, Added, Removed, adds, removes, Proceeds, reads}
use ite.Lab11.LockFree.Steps.{points_to-true, loaded, begin_lem}
use ite.Lab11.LockFree.Finding.{find_start_lem, find_succ_lem, find_unlink_lem}

module _ (m : Memory) (list : IsList m) (w : Work) (node : ℕ) where
  add_cas_lem :
      (k n prev curr : ℕ)
      → PcInv m (add_cas k n prev curr)
      → Proceeds m (add_cas k n prev curr) (thread_step w node (add_cas k n prev curr) m)
  unfolding thread_step
  add_cas_lem k n prev curr (keys, key, fits) =
      loaded m list w node (add_cas k n prev curr) prev
        (some (
          if points_to (m.nodes prev).next curr
          then (link prev n m, returned add k true)
          else (m, find_start (adding n) k)))
        fits.linked_prev
        (elim (Bool-cases (points_to (m.nodes prev).next curr)) [
          | inl swaps ↦
              let (next_prev, mark_prev) = points_to-true (m.nodes prev).next curr swaps in
              (
                link prev n m,
                returned add k true,
                rw swaps refl,
                record {
                  moves = link-Moves m list prev n curr fits next_prev mark_prev;
                  mine = tt;
                  untouched = λ x owned alone apart. (
                    owned,
                    at_change m.linked n x true (λ b. b ≡ false) (λ e. absurd (apart e))
                        (λ _. alone),
                    apart-set_next m prev (unmarked n) x
                        (λ e. let f = ap m.linked e in let l = fits.linked_prev in ground arith),
                  );
                  holds = λ x h. elim h [ ];
                  effect = adds k (
                      subst (Added m (link prev n m)) key (
                        link-Absent m list prev n curr fits next_prev mark_prev,
                        link-members m list prev n curr fits next_prev mark_prev,
                      ));
                },
              )
          | inr fails ↦ (
            m,
            find_start (adding n) k,
            rw fails refl,
            reads m list (add_cas k n prev curr) (find_start (adding n) k)
                (keys, (fits.owned, fits.alone, key)) (λ x h. h) refl,
          )
        ])

  remove_cas_lem :
      (k curr succ : ℕ)
      → PcInv m (remove_cas k curr succ)
      → Proceeds m (remove_cas k curr succ) (thread_step w node (remove_cas k curr succ) m)
  unfolding thread_step
  remove_cas_lem k curr succ (keys, l, key) =
      loaded m list w node (remove_cas k curr succ) curr
        (some (
          (if points_to (m.nodes curr).next succ
              then set_next curr (record { addr = succ; marked = true }) m
              else m),
          find_start removing k,
        ))
        l
        (elim (Bool-cases (points_to (m.nodes curr).next succ)) [
          | inl swaps ↦
              let (next_curr, mark_curr) = points_to-true (m.nodes curr).next succ swaps in
              (
                set_next curr (record { addr = succ; marked = true }) m,
                find_start removing k,
                rw swaps refl,
                record {
                  moves = mark-Moves m list curr succ l mark_curr next_curr not_tail not_head;
                  mine = (keys, tt);
                  untouched = λ x owned alone _. (
                    owned,
                    alone,
                    apart-set_next m curr (record { addr = succ; marked = true }) x
                        (λ e. let f = ap m.linked e in ground arith),
                  );
                  holds = λ x h. elim h [ ];
                  effect = removes k curr succ refl (
                      subst (Removed m (set_next curr (record { addr = succ; marked = true }) m))
                        key
                        (
                          mark-Member m list curr succ l mark_curr next_curr not_tail not_head,
                          mark-members m list curr succ l mark_curr next_curr not_tail not_head,
                        ));
                },
              )
          | inr fails ↦ (
            m,
            find_start removing k,
            rw fails refl,
            reads m list (remove_cas k curr succ) (find_start removing k) (keys, tt) (λ x h. h)
                refl,
          )
        ])
    where
      not_tail : curr ≢ tail
      not_tail e = absurd (omega (arith, ap (key_of m) e, list.chain.tail_key, key, keys.1))

      not_head : curr ≢ head
      not_head e = absurd (omega (arith, ap (key_of m) e, list.chain.head_key, key, keys.0))

  contains_at_lem :
      (k curr : ℕ)
      → PcInv m (contains_at k curr)
      → Proceeds m (contains_at k curr) (thread_step w node (contains_at k curr) m)
  unfolding thread_step
  contains_at_lem k curr (keys, l) =
      loaded m list w node (contains_at k curr) curr
        (some (
          m,
          (if ltb (m.nodes curr).key k
              then contains_at k (m.nodes curr).next.addr
              else returned contains k
                  (((m.nodes curr).key == k) && not (m.nodes curr).next.marked)),
        ))
        l
        (elim (Bool-cases (ltb (key_of m curr) k)) [
          | inl lt ↦
              let lt' : key_of m curr < k = ground arith in
              (
                m,
                contains_at k (next_of m curr),
                rw lt refl,
                reads m list (contains_at k curr) (contains_at k (next_of m curr))
                    (keys, (list.chain.sorted curr l (inner m list curr k lt' keys.1)).0) (λ x h. h)
                    refl,
              )
          | inr ge ↦ (
            m,
            returned contains k ((key_of m curr == k) && not (mark_of m curr)),
            rw ge refl,
            reads m list (contains_at k curr)
                (returned contains k ((key_of m curr == k) && not (mark_of m curr))) tt (λ x h. h)
                refl,
          )
        ])

  pub thread_step_lem :
      (p : Pc) → PcInv m p → InKeys w.value → IsFresh m node → Proceeds m p (thread_step w node p m)
  unfolding thread_step
  thread_step_lem idle h keys fresh = begin_lem m list w node idle keys fresh
  thread_step_lem (returned type k b) h keys fresh =
      begin_lem m list w node (returned type k b) keys fresh
  thread_step_lem (find_start call k) h keys fresh = find_start_lem m list w node call k h
  thread_step_lem (find_succ call k prev curr) h keys fresh =
      find_succ_lem m list w node k prev curr call h
  thread_step_lem (find_unlink call k prev curr succ) h keys fresh =
      find_unlink_lem m list w node k prev curr call succ h
  thread_step_lem (add_cas k n prev curr) h keys fresh = add_cas_lem k n prev curr h
  thread_step_lem (remove_read k curr) (ks, l, key) keys fresh =
      loaded m list w node (remove_read k curr) curr (some (m, remove_cas k curr (next_of m curr)))
        l
        (
          m,
          remove_cas k curr (next_of m curr),
          refl,
          reads m list (remove_read k curr) (remove_cas k curr (next_of m curr)) (ks, l, key)
              (λ x h. h) refl,
        )
  thread_step_lem (remove_cas k curr succ) h keys fresh = remove_cas_lem k curr succ h
  thread_step_lem (contains_at k curr) h keys fresh = contains_at_lem k curr h
