-- ===== src/Lab11/FineGrained/Updates.antt =====
-- The steps of lab11/fine_grained.cpp that write to the list.
use ite.Base.{ℕ, ◌≡◌, ◌≢◌, ◌<◌, refl, true, false, arith, inr, sym, ap, ◌∙◌, change, at_change}
use mathlib.Core.Path.{subst}
use ite.Lab11.Nodes.{head, tail}
use ite.Lab11.CoarseList.{int_min, int_max, Work, add, remove}
use ite.Lab11.History.{Acts}
use ite.Lab11.FineGrained.{
  Node, Memory, set_next, link, unlink, adding, removing, answer, removed, add_first, add_second,
  remove_write, unlocking_prev, thread_step, acts,
}
use ite.Lab11.FineGrained.Shared.{
  key_of, next_of, IsLinked, Keys, IsList, key-set_next, there-set_next, apart-set_next,
}
use ite.Lab11.FineGrained.Places.{PcInv, Proceeds, curr-IsLinked}
use ite.Lab11.FineGrained.Steps.{first_write, loaded}
use ite.Lab11.FineGrained.Shared.{there_change, apart_change}
use ite.Lab11.FineGrained.Writes.{link-Moves, link-Acts, unlink-Moves, unlink-Acts}
use ite.Lab11.FineGrained.Deciding.{apart, prev_inner, lc}

module _ (t : ℕ) (m : Memory) (list : IsList m) (w : Work) (node : ℕ) where
  module _ (k n prev curr : ℕ) where
    pub add_first_lem :
        PcInv t m (add_first k n prev curr)
        → Proceeds t m (add_first k n prev curr) (thread_step t w node (add_first k n prev curr) m)
    unfolding thread_step acts
    add_first_lem (both, lt) =
        let ne = apart t m list (adding n) k prev curr both in
        let key = key-set_next m prev n in
        loaded t m list (add_first k n prev curr) prev (set_next prev n m, add_second k n prev curr)
          (list.in_memory prev both.grip.linked_prev)
          (
            set_next prev n m,
            add_second k n prev curr,
            refl,
            first_write t m list (add_first k n prev curr) (add_second k n prev curr) prev n
                both.grip.held_prev both.grip.linked_prev
                (
                  record {
                    keys = both.grip.keys;
                    owns = (both.grip.owns.0, both.grip.owns.1, key n ∙ both.grip.owns.2);
                    linked_prev = both.grip.linked_prev;
                    above = omega (arith, key prev, both.grip.above);
                    held_prev = both.grip.held_prev;
                  },
                  there-set_next m prev n,
                  both.neighbours,
                  both.held_curr,
                  ap (λ (y : Node). y.next) (apart-set_next m prev n curr ne) ∙ both.agrees_curr,
                  omega (arith, key curr, lt),
                )
                (λ x h. h) (λ x h. h) (λ same. (same, inr (refl, refl))),
          )

    pub add_second_lem :
        PcInv t m (add_second k n prev curr)
        → Proceeds t m
            (add_second k n prev curr)
            (thread_step t w node (add_second k n prev curr) m)
    unfolding thread_step acts
    add_second_lem (grip, leads, at, held, agrees, lt) =
        let (owned, alone, key) = grip.owns in
        let lcurr = curr-IsLinked m list grip at in
        let above : key_of m prev < key_of m n = omega (arith, grip.above, key) in
        let below : key_of m n < key_of m curr = omega (arith, lt, key) in
        loaded t m list (add_second k n prev curr) n
          (link prev n curr m, unlocking_prev (answer add k true) prev curr) owned
          (
            link prev n curr m,
            unlocking_prev (answer add k true) prev curr,
            refl,
            record {
              moves =
                  link-Moves t m list prev n curr grip.linked_prev lcurr alone owned grip.held_prev
                    at above below;
              mine = (
                links prev grip.linked_prev,
                grip.held_prev,
                kept prev (not_n alone prev grip.linked_prev)
                    ∙ leads
                    ∙ sym (there_change (change m.chain n curr) prev n),
                other_nodes above below,
                (
                  links curr lcurr,
                  held,
                  kept curr (not_n alone curr lcurr)
                      ∙ agrees
                      ∙ sym (
                          apart_change (change m.chain n curr) prev n curr (other_nodes above below)
                          ∙ apart_change m.chain n curr curr (not_n alone curr lcurr)),
                ),
              );
              mutex_kept = λ u x _ _ h. h;
              untouched = λ x owned out not_mine. (
                owned,
                at_change m.linked n x true (λ b. b ≡ false) (λ e. absurd (not_mine e)) (λ _. out),
                apart-set_next m n curr x (λ e. not_mine e),
              );
              holds = λ x h. elim h [ ];
              locks_back = λ u x _ h. h;
              locks_mine = λ old x h. old x h;
              outcome = (
                grip.keys,
                subst (λ (y : ℕ). Acts add y true (Keys m) (Keys (link prev n curr m))) key
                    (link-Acts t m list prev n curr grip.linked_prev lcurr alone owned
                      grip.held_prev at above below),
                refl,
                refl,
                refl,
              );
            },
          )
      where
        links : (x : ℕ) → IsLinked m x → IsLinked (link prev n curr m) x
        links x l = at_change m.linked n x true (λ b. b ≡ true) (λ _. refl) (λ _. l)

        not_n : m.linked n ≡ false → (x : ℕ) → IsLinked m x → n ≢ x
        not_n alone x l e = let f = ap m.linked e in ground arith

        kept : (x : ℕ) → n ≢ x → next_of (link prev n curr m) x ≡ next_of m x
        kept x ne = ap (λ (y : Node). y.next) (apart-set_next m n curr x ne)

        other_nodes : key_of m prev < key_of m n → key_of m n < key_of m curr → prev ≢ curr
        other_nodes above below e = absurd (omega (arith, above, below, ap (key_of m) e))

  pub remove_write_lem :
      (k prev curr succ : ℕ)
      → PcInv t m (remove_write k prev curr succ)
      → Proceeds t m
          (remove_write k prev curr succ)
          (thread_step t w node (remove_write k prev curr succ) m)
  unfolding thread_step acts
  remove_write_lem k prev curr succ (both, leads, key) =
      let lcurr = lc t m list removing k prev curr both in
      let ne = apart t m list removing k prev curr both in
      let inner = prev_inner t m list removing k prev curr both in
      loaded t m list (remove_write k prev curr succ) prev
        (unlink prev curr succ m, unlocking_prev (removed k) prev curr)
        (list.in_memory prev both.grip.linked_prev)
        (
          unlink prev curr succ m,
          unlocking_prev (removed k) prev curr,
          refl,
          record {
            moves =
                unlink-Moves t m list prev curr succ both.grip.linked_prev lcurr both.grip.held_prev
                  both.held_curr both.neighbours leads (not_tail key both.grip.keys.1)
                  (not_head key both.grip.keys.0) inner;
            mine = (
              at_change m.linked curr prev false (λ b. b ≡ true) (λ e. absurd (ne (sym e)))
                  (λ _. both.grip.linked_prev),
              both.grip.held_prev,
              there-set_next m prev succ ∙ sym (there_change m.chain prev succ),
              ne,
              (
                list.in_memory curr lcurr,
                at_change m.linked curr curr false (λ b. b ≡ false) (λ _. refl)
                    (λ q. absurd (q refl)),
                both.held_curr,
              ),
            );
            mutex_kept = λ u x _ _ h. h;
            untouched = λ x owned out _. (
              owned,
              at_change m.linked curr x false (λ b. b ≡ false) (λ _. refl) (λ _. out),
              apart-set_next m prev succ x
                  (λ e. let f = ap m.linked e in let l = both.grip.linked_prev in ground arith),
            );
            holds = λ x e. inr (inr (subst (IsLinked m) e lcurr));
            locks_back = λ u x _ h. h;
            locks_mine = λ old x h. old x h;
            outcome = (
              both.grip.keys,
              subst (λ (y : ℕ). Acts remove y true (Keys m) (Keys (unlink prev curr succ m))) key
                  (unlink-Acts t m list prev curr succ both.grip.linked_prev lcurr
                    both.grip.held_prev both.held_curr both.neighbours leads
                    (not_tail key both.grip.keys.1) (not_head key both.grip.keys.0) inner),
              refl,
              refl,
              refl,
            );
          },
        )
    where
      not_tail : key_of m curr ≡ k → k < int_max → curr ≢ tail
      not_tail key ok e = absurd (omega (arith, ap (key_of m) e, list.chain.tail_key, key, ok))

      not_head : key_of m curr ≡ k → int_min < k → curr ≢ head
      not_head key ok e = absurd (omega (arith, ap (key_of m) e, list.chain.head_key, key, ok))
