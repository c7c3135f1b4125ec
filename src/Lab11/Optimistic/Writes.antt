-- ===== src/Lab11/Optimistic/Writes.antt =====
-- The steps of lab11/optimistic.cpp at a place that is locked and checked: a call answers, or writes.
use ite.Base.{
  ℕ, ◌≡◌, ◌≢◌, refl, true, false, arith, inl, inr, ◌⊎◌, sym, ap, ◌∙◌, ◌==◌, ◌↔◌, some, Bool-cases,
  at_change,
}
use mathlib.Core.Path.{subst}
use ite.Lab11.Nodes.{tail, extend, Reaches-same}
use ite.Lab11.Chain.{
  inner, between, Inserted, insert-absent, insert-HasKey, Unlinked, unlink-HasKey,
}
use ite.Lab11.CoarseList.{Work, add, remove, contains}
use ite.Lab11.History.{Acts, Same}
use ite.Lab11.Optimistic.{
  Node, Memory, set_next, link, decide, add_write, remove_write, Call, adding, removing, asking,
  After, answer, validated, unlocking_prev, thread_step, acts,
}
use ite.Lab11.Optimistic.Shared.{
  key_of, next_of, IsLinked, InList, Keys, IsList, key-set_next, there-set_next, apart-set_next,
  insert-Moves, unlink-Moves,
}
use ite.Lab11.Optimistic.Places.{At, Fixed, AfterInv, PcInv, Proceeds}
use ite.Lab11.Optimistic.Steps.{reads, sets_own_next, loaded}

-- A thread that holds both mutexes of two neighbours knows whether the key is in the set.
module _ (t : ℕ) (m : Memory) (list : IsList m) (call : Call) (k prev curr : ℕ)
    (at : At m call k prev curr) (fixed : Fixed t m k prev curr) where
  pub apart : prev ≢ curr
  apart e = absurd (omega (arith, ap (key_of m) e, at.above, fixed.below))

  pub prev_inner : prev ≢ tail
  prev_inner = inner m.linked (key_of m) (next_of m) list.chain prev k at.above at.keys.1

  pub curr_in : InList m curr
  curr_in = subst (InList m) fixed.neighbours (extend (next_of m) fixed.in_list prev_inner)

  pub is_there : key_of m curr ≡ k → Keys m k
  is_there e = (curr, curr_in, e)

  pub is_absent : key_of m curr ≢ k → Keys m k → ⊥
  is_absent ne has = ne (
      ap (key_of m) (sym fixed.neighbours)
      ∙ between m.linked (key_of m) (next_of m) list.chain prev k fixed.in_list at.above at.keys.1
          (omega (arith, fixed.below, ap (key_of m) fixed.neighbours)) has)

  pub unlocks : (after : After) → AfterInv m after → PcInv t m (unlocking_prev after prev curr)
  unlocks after h = (at.linked_prev, at.linked_curr, fixed.held_prev, fixed.held_curr, apart, h)

module _ (t : ℕ) (m : Memory) (list : IsList m) (w : Work) (node k prev curr : ℕ) where
  decide_lem :
      (call : Call)
      → PcInv t m (validated call k prev curr)
      → Proceeds t m (validated call k prev curr) (some (decide call k prev curr m))
  unfolding decide acts
  decide_lem (adding n) (at, fixed) = elim (Bool-cases (key_of m curr == k)) [
    | inl same ↦ (
      m,
      unlocking_prev (answer add k false) prev curr,
      rw same refl,
      reads t m list (validated (adding n) k prev curr)
          (unlocking_prev (answer add k false) prev curr)
          (unlocks t m list (adding n) k prev curr at fixed (answer add k false) tt)
          (λ x h. elim h [ ])
          (rw (acts, same)
            (λ q. (
              at.keys,
              (is_there t m list (adding n) k prev curr at fixed (ground arith), q),
              refl,
              refl,
              refl,
            ))),
    )
    | inr differ ↦
        let alone = at.owns.1 in
        (
          set_next n curr m,
          add_write k n prev curr,
          rw differ refl,
          sets_own_next t m list (validated (adding n) k prev curr) (add_write k n prev curr) n curr
              alone refl
              (
                record {
                  keys = at.keys;
                  owns = (at.owns.0, alone, key-set_next m n curr n ∙ at.owns.2);
                  linked_prev = at.linked_prev;
                  linked_curr = at.linked_curr;
                  above = omega (arith, at.above, key-set_next m n curr prev);
                },
                record {
                  below = omega (arith, fixed.below, key-set_next m n curr curr);
                  held_prev = fixed.held_prev;
                  held_curr = fixed.held_curr;
                  in_list = in_list n alone;
                  neighbours = next n prev alone at.linked_prev ∙ fixed.neighbours;
                },
                there-set_next m n curr,
                omega (arith, fixed.below, larger differ, key-set_next m n curr curr),
              )
              (λ x h. h) (rw (acts, differ) (λ q. (q, inr (refl, refl)))),
        )
  ]
    where
      next :
          (n x : ℕ)
          → m.linked n ≡ false
          → IsLinked m x
          → next_of (set_next n curr m) x ≡ next_of m x
      next n x alone l =
          ap (λ (y : Node). y.next)
            (apart-set_next m n curr x (λ e. let f = ap m.linked e in ground arith))

      in_list : (n : ℕ) → m.linked n ≡ false → InList (set_next n curr m) prev
      in_list n alone =
          Reaches-same m.linked (key_of m) (next_of m) list.chain.sorted
            (next_of (set_next n curr m)) (λ x l. next n x alone l) list.chain.head_linked
            fixed.in_list

      larger : (key_of m curr == k) ≡ false → key_of m curr ≢ k
      larger differ = ground arith
  decide_lem removing (at, fixed) = elim (Bool-cases (key_of m curr == k)) [
    | inl same ↦ (
      m,
      remove_write k prev curr (next_of m curr),
      rw same refl,
      reads t m list (validated removing k prev curr) (remove_write k prev curr (next_of m curr))
          (at, fixed, refl, ground arith) (λ x h. elim h [ ])
          (rw (acts, same) (λ q. (q, inr (refl, refl)))),
    )
    | inr differ ↦ (
      m,
      unlocking_prev (answer remove k false) prev curr,
      rw differ refl,
      reads t m list (validated removing k prev curr)
          (unlocking_prev (answer remove k false) prev curr)
          (unlocks t m list removing k prev curr at fixed (answer remove k false) tt)
          (λ x h. elim h [ ])
          (rw (acts, differ)
            (λ q. (
              at.keys,
              (is_absent t m list removing k prev curr at fixed (ground arith), q),
              refl,
              refl,
              refl,
            ))),
    )
  ]
  decide_lem asking (at, fixed) = (
    m,
    unlocking_prev (answer contains k (key_of m curr == k)) prev curr,
    refl,
    reads t m list (validated asking k prev curr)
        (unlocking_prev (answer contains k (key_of m curr == k)) prev curr)
        (unlocks t m list asking k prev curr at fixed (answer contains k (key_of m curr == k)) tt)
        (λ x h. elim h [ ]) (λ q. (at.keys, asked q, refl, refl, refl)),
  )
    where
      asked : Same (Keys m) (Keys m) → Acts contains k (key_of m curr == k) (Keys m) (Keys m)
      asked q = elim (Bool-cases (key_of m curr == k)) [
        | inl same ↦ rw same (is_there t m list asking k prev curr at fixed (ground arith), q)
        | inr differ ↦ rw differ (is_absent t m list asking k prev curr at fixed (ground arith), q)
      ]

  pub validated_lem :
      (call : Call)
      → PcInv t m (validated call k prev curr)
      → Proceeds t m
          (validated call k prev curr)
          (thread_step t w node (validated call k prev curr) m)
  unfolding thread_step
  validated_lem call (at, fixed) =
      loaded t m list (validated call k prev curr) curr (decide call k prev curr m) at.linked_curr
        (decide_lem call (at, fixed))

  pub add_write_lem :
      (n : ℕ)
      → PcInv t m (add_write k n prev curr)
      → Proceeds t m (add_write k n prev curr) (thread_step t w node (add_write k n prev curr) m)
  unfolding thread_step acts
  add_write_lem n (at, fixed, leads, lt) =
      loaded t m list (add_write k n prev curr) prev
        (link prev n m, unlocking_prev (answer add k true) prev curr) at.linked_prev
        (
          link prev n m,
          unlocking_prev (answer add k true) prev curr,
          refl,
          record {
            moves = insert-Moves t m (link prev n m) list prev n curr ins fixed.held_prev alloc;
            mine = (
              links prev at.linked_prev,
              links curr at.linked_curr,
              fixed.held_prev,
              fixed.held_curr,
              apart t m list (adding n) k prev curr at fixed,
              tt,
            );
            mutex_kept = λ u x _ _ h. h;
            untouched = λ x owned alone not_mine. (
              owned,
              at_change m.linked n x true (λ b. b ≡ false) (λ e. absurd (not_mine e)) (λ _. alone),
              apart-set_next m prev n x
                  (λ e. let f = ap m.linked e in let l = at.linked_prev in ground arith),
            );
            holds = λ x h. elim h [ ];
            outcome = (
              at.keys,
              (
                λ has.
                    insert-absent list.chain ins fixed.in_list (subst (Keys m) (sym at.owns.2) has),
                λ x.
                    subst (λ (y : ℕ). Keys (link prev n m) x ↔ (Keys m x ⊎ (x ≡ y))) at.owns.2
                      (insert-HasKey list.chain ins fixed.in_list x),
              ),
              refl,
              refl,
              refl,
            );
          },
        )
    where
      links : (x : ℕ) → IsLinked m x → IsLinked (link prev n m) x
      links x l = at_change m.linked n x true (λ b. b ≡ true) (λ _. refl) (λ _. l)

      ins :
          Inserted m.linked
            (link prev n m).linked
            (key_of m)
            (key_of (link prev n m))
            (next_of m)
            (next_of (link prev n m))
            prev
            n
            curr
      ins = record {
        keys = key-set_next m prev n;
        apart = λ x ne. ap (λ (y : Node). y.next) (apart-set_next m prev n x ne);
        enter = there-set_next m prev n;
        next_prev = fixed.neighbours;
        next_node = leads;
        alone = at.owns.1;
        linked_prev = at.linked_prev;
        linked_curr = at.linked_curr;
        above = omega (arith, at.above, at.owns.2);
        below = omega (arith, lt, at.owns.2);
        links = links;
        linked_node =
            at_change m.linked n n true (λ b. b ≡ true) (λ _. refl) (λ ne. absurd (ne refl));
        old = λ x l.
            at_change m.linked n x true (λ b. b ≡ true → (n ≡ x) ⊎ (m.linked x ≡ true))
              (λ e _. inl e) (λ _ h. inr h) l;
      }

      alloc : (x : ℕ) → IsLinked (link prev n m) x → m.allocated x ≡ true
      alloc x l = elim (ins.old x l) [
        | inl e ↦ ap m.allocated (sym e) ∙ at.owns.0
        | inr h ↦ list.in_memory x h
      ]

  pub remove_write_lem :
      (succ : ℕ)
      → PcInv t m (remove_write k prev curr succ)
      → Proceeds t m
          (remove_write k prev curr succ)
          (thread_step t w node (remove_write k prev curr succ) m)
  unfolding thread_step acts
  remove_write_lem succ (at, fixed, leads, key) =
      loaded t m list (remove_write k prev curr succ) prev
        (set_next prev succ m, unlocking_prev (answer remove k true) prev curr) at.linked_prev
        (
          set_next prev succ m,
          unlocking_prev (answer remove k true) prev curr,
          refl,
          record {
            moves = unlink-Moves t m list prev curr succ out fixed.held_prev fixed.held_curr;
            mine = unlocks t m list removing k prev curr at fixed (answer remove k true) tt;
            mutex_kept = λ u x _ _ h. h;
            untouched = λ x owned alone _. (
              owned,
              alone,
              apart-set_next m prev succ x
                  (λ e. let f = ap m.linked e in let l = at.linked_prev in ground arith),
            );
            holds = λ x h. elim h [ ];
            outcome = (
              at.keys,
              (
                is_there t m list removing k prev curr at fixed key,
                λ x.
                    subst (λ (y : ℕ). Keys (set_next prev succ m) x ↔ (Keys m x × (x ≢ y))) key
                      (unlink-HasKey list.chain out fixed.in_list x),
              ),
              refl,
              refl,
              refl,
            );
          },
        )
    where
      out :
          Unlinked m.linked
            (key_of m)
            (key_of (set_next prev succ m))
            (next_of m)
            (next_of (set_next prev succ m))
            prev
            curr
            succ
      out = record {
        keys = key-set_next m prev succ;
        apart = λ x ne. ap (λ (y : Node). y.next) (apart-set_next m prev succ x ne);
        enter = there-set_next m prev succ;
        next_prev = fixed.neighbours;
        next_curr = leads;
        linked_prev = at.linked_prev;
        linked_curr = at.linked_curr;
        curr_inner =
            λ e. absurd (omega (arith, ap (key_of m) e, list.chain.tail_key, key, at.keys.1));
        prev_inner = prev_inner t m list removing k prev curr at fixed;
      }
