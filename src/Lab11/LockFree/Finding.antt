-- ===== src/Lab11/LockFree/Finding.antt =====
-- The steps of `list_find` in lab11/lockfree.cpp.
use ite.Base.{
  ℕ, ◌≡◌, ◌≢◌, ◌<◌, ◌≤◌, refl, false, arith, inl, inr, sym, ap, ◌∙◌, ◌==◌, leb, some, Bool-cases,
  if◌then◌else◌,
}
use ite.Lab11.Nodes.{head, tail}
use ite.Lab11.CoarseList.{Work, add, remove}
use ite.Lab11.LockFree.{
  Memory, unmarked, set_next, free, points_to, Call, adding, removing, find_start, find_succ,
  find_unlink, add_cas, remove_read, returned, found, first_of, find_round, thread_step, InKeys,
}
use ite.Lab11.LockFree.Order.{key_of, next_of, mark_of, IsList, inner}
use ite.Lab11.LockFree.Actions.{apart-set_next, there-set_next, key-set_next}
use ite.Lab11.LockFree.Writes.{marks_differ, unlink-Moves, unlink-SameMembers}
use ite.Lab11.LockFree.Local.{
  Owns, At, PcInv, keeps, Advance, Proceeds, reads, local_write, free_lem,
}
use ite.Lab11.LockFree.Steps.{points_to-true, loaded}

module _ (m : Memory) (list : IsList m) (w : Work) (node : ℕ) where
  pub find_start_lem :
      (call : Call) (k : ℕ)
      → PcInv m (find_start call k)
      → Proceeds m (find_start call k) (thread_step w node (find_start call k) m)
  unfolding thread_step first_of
  find_start_lem call k (keys, owns) =
      loaded m list w node (find_start call k) head (first_of call k m (m.nodes head).next)
        list.chain.head_linked
        (
          m,
          find_succ call k head (next_of m head),
          rw list.head_mark refl,
          reads m list (find_start call k) (find_succ call k head (next_of m head))
              (
                keys,
                owns,
                list.chain.head_linked,
                (list.chain.sorted head list.chain.head_linked (omega arith)).0,
                omega (arith, list.chain.head_key, keys.0),
              )
              (λ n h. h) refl,
        )

  module _ (k prev curr : ℕ) where
    found_lem :
        (call : Call)
        → At m call k prev curr
        → k ≤ key_of m curr
        → Proceeds m (find_succ call k prev curr) (some (found call k prev curr m))
    unfolding found
    found_lem removing (keys, owns, lp, lc, lt) le = elim (Bool-cases (key_of m curr == k)) [
      | inl same ↦ (
        m,
        remove_read k curr,
        rw same refl,
        reads m list (find_succ removing k prev curr) (remove_read k curr) (keys, lc, ground arith)
            (λ n h. elim h [ ]) refl,
      )
      | inr differ ↦ (
        m,
        returned remove k false,
        rw differ refl,
        reads m list (find_succ removing k prev curr) (returned remove k false) tt
            (λ n h. elim h [ ]) refl,
      )
    ]
    found_lem (adding n) (keys, owns, lp, lc, lt) le = elim (Bool-cases (key_of m curr == k)) [
      | inl same ↦ (
        free n m,
        returned add k false,
        rw same refl,
        free_lem m list (find_succ (adding n) k prev curr) (returned add k false) n owns.1 refl tt
            (λ x h. h) refl,
      )
      | inr differ ↦ (
        set_next n (unmarked curr) m,
        add_cas k n prev curr,
        rw differ refl,
        local_write m list (find_succ (adding n) k prev curr) (add_cas k n prev curr) n
            (unmarked curr) owns.1 refl
            (
              keys,
              key-set_next m n (unmarked curr) n ∙ owns.2,
              record {
                alone = owns.1;
                owned = owns.0;
                leads = there-set_next m n (unmarked curr);
                linked_prev = lp;
                linked_curr = lc;
                above = omega (
                  arith,
                  key-set_next m n (unmarked curr) n,
                  lt,
                  owns.2,
                  key-set_next m n (unmarked curr) prev,
                );
                below =
                    let ne : key_of m curr ≢ k = ground arith in
                    omega (
                      arith,
                      key-set_next m n (unmarked curr) n,
                      le,
                      owns.2,
                      ne,
                      key-set_next m n (unmarked curr) curr,
                    );
              },
            )
            (λ x h. h) refl,
      )
    ]

    pub find_succ_lem :
        (call : Call)
        → PcInv m (find_succ call k prev curr)
        → Proceeds m
            (find_succ call k prev curr)
            (thread_step w node (find_succ call k prev curr) m)
    unfolding thread_step find_round
    find_succ_lem call (keys, owns, lp, lc, lt) =
        loaded m list w node (find_succ call k prev curr) curr
          (some (find_round call k prev curr m)) lc round
      where
        round : Proceeds m (find_succ call k prev curr) (some (find_round call k prev curr m))
        round = elim (Bool-cases (mark_of m curr)) [
          | inl mark ↦ (
            m,
            find_unlink call k prev curr (next_of m curr),
            rw mark refl,
            reads m list (find_succ call k prev curr)
                (find_unlink call k prev curr (next_of m curr))
                ((keys, owns, lp, lc, lt), mark, refl) (λ n h. h) refl,
          )
          | inr mark ↦ elim (Bool-cases (leb k (key_of m curr))) [
            | inl le ↦
                let (m', p', e, h) = found_lem call (keys, owns, lp, lc, lt) (ground arith) in
                (m', p', rw (mark, le) e, h)
            | inr gt ↦
                let lt' : key_of m curr < k = ground arith in
                (
                  m,
                  find_succ call k curr (next_of m curr),
                  rw (mark, gt) refl,
                  reads m list (find_succ call k prev curr) (find_succ call k curr (next_of m curr))
                      (
                        keys,
                        owns,
                        lc,
                        (list.chain.sorted curr lc (inner m list curr k lt' keys.1)).0,
                        lt',
                      )
                      (λ n h. h) refl,
                )
          ]
        ]

    pub find_unlink_lem :
        (call : Call) (succ : ℕ)
        → PcInv m (find_unlink call k prev curr succ)
        → Proceeds m
            (find_unlink call k prev curr succ)
            (thread_step w node (find_unlink call k prev curr succ) m)
    unfolding thread_step
    find_unlink_lem call succ ((keys, owns, lp, lc, lt), mark, at) =
        loaded m list w node (find_unlink call k prev curr succ) prev
          (some (
            if points_to (m.nodes prev).next curr
            then (set_next prev (unmarked succ) m, find_succ call k prev succ)
            else (m, find_start call k)))
          lp
          (elim (Bool-cases (points_to (m.nodes prev).next curr)) [
            | inl swaps ↦ (
              set_next prev (unmarked succ) m,
              find_succ call k prev succ,
              rw swaps refl,
              taken call keys owns (points_to-true (m.nodes prev).next curr swaps),
            )
            | inr fails ↦ (
              m,
              find_start call k,
              rw fails refl,
              reads m list (find_unlink call k prev curr succ) (find_start call k) (keys, owns)
                  (λ n h. h) refl,
            )
          ])
      where
        key : (x : ℕ) → key_of (set_next prev (unmarked succ) m) x ≡ key_of m x
        key = key-set_next m prev (unmarked succ)

        kept_call : (call : Call) → Owns m call k → Owns (set_next prev (unmarked succ) m) call k
        kept_call removing owns = tt
        kept_call (adding n) (owned, alone, e) = (owned, alone, key n ∙ e)

        taken :
            (call : Call)
            → InKeys k
            → Owns m call k
            → (next_of m prev ≡ curr) × (mark_of m prev ≡ false)
            → Advance m
                (find_unlink call k prev curr succ)
                (set_next prev (unmarked succ) m)
                (find_succ call k prev succ)
        taken call keys owns (next_prev, mark_prev) =
            let prev_inner = inner m list prev k lt keys.1 in
            let curr_inner = marks_differ m curr tail mark list.tail_mark in
            let moves =
              unlink-Moves m list prev curr succ lp mark_prev next_prev mark at prev_inner in
            record {
              moves = moves;
              mine = (
                keys,
                kept_call call owns,
                lp,
                ap m.linked (sym at) ∙ (list.chain.sorted curr lc curr_inner).0,
                omega (arith, key prev, lt),
              );
              untouched = λ n owned alone _. (
                owned,
                alone,
                apart-set_next m prev (unmarked succ) n
                    (λ e. let f = ap m.linked e in ground arith),
              );
              holds = λ n h. inl h;
              effect = keeps refl (
                  unlink-SameMembers m list prev curr succ lp mark_prev next_prev mark at
                    prev_inner);
            }
