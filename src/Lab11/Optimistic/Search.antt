-- ===== src/Lab11/Optimistic/Search.antt =====
-- The steps of lab11/optimistic.cpp that find, lock and check the two nodes of a place.
use ite.Base.{
  ℕ, ◌≡◌, ◌≢◌, ◌<◌, ◌≤◌, refl, true, arith, inl, inr, sym, ap, ◌∙◌, ◌==◌, leb, ltb, Option, some,
  if◌then◌else◌, Bool-cases, at_change,
}
use ite.Lab11.Nodes.{head, tail, arrived, onward}
use ite.Lab11.Chain.{inner}
use ite.Lab11.CoarseList.{Work}
use ite.Lab11.Optimistic.{
  Memory, set_mutex, Call, adding, removing, asking, retry, searching, walking, locking_prev,
  locking_curr, validating, validated, unlocking_prev, lock, list_validate, thread_step, acts,
}
use ite.Lab11.Optimistic.Shared.{key_of, next_of, IsList}
use ite.Lab11.Optimistic.Places.{Owns, IsHeld, At, PcInv, Advance, Proceeds}
use ite.Lab11.Optimistic.Steps.{reads, lock_lem, loaded}

module _ (t : ℕ) (m : Memory) (list : IsList m) (w : Work) (node : ℕ) where
  pub searching_lem :
      (call : Call) (k : ℕ)
      → PcInv t m (searching call k)
      → Proceeds t m (searching call k) (thread_step t w node (searching call k) m)
  unfolding thread_step acts
  searching_lem call k (keys, owns) =
      loaded t m list (searching call k) head (m, walking call k head (next_of m head))
        list.chain.head_linked
        (
          m,
          walking call k head (next_of m head),
          refl,
          reads t m list (searching call k) (walking call k head (next_of m head))
              (record {
                keys = keys;
                owns = owns;
                linked_prev = list.chain.head_linked;
                linked_curr = (list.chain.sorted head list.chain.head_linked (omega arith)).0;
                above = omega (arith, list.chain.head_key, keys.0);
              })
              (λ n h. h) (λ same. (same, inr (refl, refl))),
        )

  module _ (call : Call) (k prev curr : ℕ) where
    pub walking_lem :
        PcInv t m (walking call k prev curr)
        → Proceeds t m
            (walking call k prev curr)
            (thread_step t w node (walking call k prev curr) m)
    unfolding thread_step acts
    walking_lem at =
        loaded t m list (walking call k prev curr) curr
          (
            m,
            (if ltb (key_of m curr) k
                then walking call k curr (next_of m curr)
                else locking_prev call k prev curr),
          )
          at.linked_curr
          (elim (Bool-cases (ltb (key_of m curr) k)) [
            | inl lt ↦
                let lt' : key_of m curr < k = ground arith in
                (
                  m,
                  walking call k curr (next_of m curr),
                  rw lt refl,
                  reads t m list (walking call k prev curr) (walking call k curr (next_of m curr))
                      (record {
                        keys = at.keys;
                        owns = at.owns;
                        linked_prev = at.linked_curr;
                        linked_curr =
                            (list.chain.sorted curr at.linked_curr (
                              inner m.linked (key_of m) (next_of m) list.chain curr k lt'
                                at.keys.1)).0;
                        above = lt';
                      })
                      (λ n h. h) (λ same. (same, inr (refl, refl))),
                )
            | inr ge ↦ (
              m,
              locking_prev call k prev curr,
              rw ge refl,
              reads t m list (walking call k prev curr) (locking_prev call k prev curr)
                  (at, ground arith) (λ n h. h) (λ same. (same, inr (refl, refl))),
            )
          ])

    held_now : (x : ℕ) → IsHeld t (set_mutex x (some t) m) x
    held_now x =
        at_change m.mutex x x (some t) (λ o. o ≡ some t) (λ _. refl) (λ ne. absurd (ne refl))

    mutex-At :
        (x : ℕ) (o : Option ℕ) → At m call k prev curr → At (set_mutex x o m) call k prev curr
    mutex-At x o at = record {
      keys = at.keys;
      owns = owns call at.owns;
      linked_prev = at.linked_prev;
      linked_curr = at.linked_curr;
      above = at.above;
    }
      where
        owns : (c : Call) → Owns m c k → Owns (set_mutex x o m) c k
        owns (adding n) h = h
        owns removing h = tt
        owns asking h = tt

    pub locking_prev_lem :
        PcInv t m (locking_prev call k prev curr)
        → Proceeds t m
            (locking_prev call k prev curr)
            (thread_step t w node (locking_prev call k prev curr) m)
    unfolding thread_step acts
    locking_prev_lem (at, le) =
        loaded t m list (locking_prev call k prev curr) prev
          (lock t prev (locking_prev call k prev curr) (locking_curr call k prev curr) m)
          at.linked_prev
          (lock_lem t m list (locking_prev call k prev curr) (locking_curr call k prev curr) prev
            (at, le) (mutex-At prev (some t) at, le, held_now prev) (λ n h. h)
            (λ m' same. (same, inr (refl, refl))) (λ same. (same, inr (refl, refl))))

    pub locking_curr_lem :
        PcInv t m (locking_curr call k prev curr)
        → Proceeds t m
            (locking_curr call k prev curr)
            (thread_step t w node (locking_curr call k prev curr) m)
    unfolding thread_step acts
    locking_curr_lem (at, le, held) =
        loaded t m list (locking_curr call k prev curr) curr
          (lock t curr (locking_curr call k prev curr) (validating call k prev curr head) m)
          at.linked_curr
          (lock_lem t m list (locking_curr call k prev curr) (validating call k prev curr head) curr
            (at, le, held)
            (
              mutex-At curr (some t) at,
              le,
              at_change m.mutex curr prev (some t) (λ o. o ≡ some t) (λ _. refl) (λ _. held),
              held_now curr,
              list.chain.head_linked,
              λ way. way,
            )
            (λ n h. h) (λ m' same. (same, inr (refl, refl))) (λ same. (same, inr (refl, refl))))

    validate_lem :
        (it : ℕ)
        → PcInv t m (validating call k prev curr it)
        → Advance t m (validating call k prev curr it) m (list_validate call k prev curr it m)
    unfolding list_validate acts
    validate_lem it (at, le, hp, hc, l, way) =
        elim (Bool-cases (leb (key_of m it) (key_of m prev))) [
          | inl low ↦ elim (Bool-cases (it == prev)) [
            | inl here ↦ elim (Bool-cases (next_of m it == curr)) [
              | inl next ↦
                  let e : it ≡ prev = ground arith in
                  rw (low, here, next)
                    (reads t m list (validating call k prev curr it) (validated call k prev curr)
                      (
                        at,
                        record {
                          below = le;
                          held_prev = hp;
                          held_curr = hc;
                          in_list = way (arrived e);
                          neighbours = ap (next_of m) (sym e) ∙ ground arith;
                        },
                      )
                      (λ n h. h) (λ same. (same, inr (refl, refl))))
              | inr moved ↦ rw (low, here, moved) again
            ]
            | inr further ↦
                let ne : it ≢ tail = λ q. absurd (
                  omega (
                    arith,
                    ap (key_of m) q,
                    list.chain.tail_key,
                    at.above,
                    at.keys.1,
                    leb_le (key_of m it) (key_of m prev) low,
                  )) in
                rw (low, further)
                  (reads t m list (validating call k prev curr it)
                    (validating call k prev curr (next_of m it))
                    (at, le, hp, hc, (list.chain.sorted it l ne).0, λ w. way (onward ne w))
                    (λ n h. h) (λ same. (same, inr (refl, refl))))
          ]
          | inr high ↦ rw high again
        ]
      where
        leb_le : (a b : ℕ) → leb a b ≡ true → a ≤ b
        leb_le a b h = ground arith

        apart : prev ≢ curr
        apart e = absurd (omega (arith, ap (key_of m) e, at.above, le))

        again :
            Advance t m (validating call k prev curr it) m (unlocking_prev (retry call k) prev curr)
        again =
            reads t m list (validating call k prev curr it)
              (unlocking_prev (retry call k) prev curr)
              (at.linked_prev, at.linked_curr, hp, hc, apart, (at.keys, at.owns)) (λ n h. h)
              (λ same. (same, inr (refl, refl)))

    pub validating_lem :
        (it : ℕ)
        → PcInv t m (validating call k prev curr it)
        → Proceeds t m
            (validating call k prev curr it)
            (thread_step t w node (validating call k prev curr it) m)
    unfolding thread_step
    validating_lem it (at, le, hp, hc, l, way) =
        loaded t m list (validating call k prev curr it) it (m, list_validate call k prev curr it m)
          l (m, list_validate call k prev curr it m, refl, validate_lem it (at, le, hp, hc, l, way))
