-- ===== src/Lab11/FineGrained/Passing.antt =====
-- The steps of lab11/fine_grained.cpp that go along the list hand over hand, and decide at the place.
use ite.Base.{ℕ, ◌≡◌, ◌≢◌, ◌<◌, refl, arith, inl, inr, sym, ap, ◌∙◌, Option, none, some, at_change}
use ite.Lab11.Nodes.{head}
use ite.Lab11.Chain.{inner}
use ite.Lab11.CoarseList.{Work}
use ite.Lab11.FineGrained.{
  Memory, set_mutex, Call, adding, removing, asking, locking_head, reading, locking_curr, holding,
  unlocking_passed, lock, thread_step, acts,
}
use ite.Lab11.FineGrained.Shared.{key_of, next_of, IsList}
use ite.Lab11.FineGrained.Places.{Owns, IsHeld, Grip, Both, PcInv, Proceeds, curr-IsLinked}
use ite.Lab11.FineGrained.Steps.{reads, sets_mutex, lock_lem, loaded}

-- What a change of a mutex leaves to a thread.
module _ (t : ℕ) (m : Memory) (x : ℕ) (o : Option ℕ) where
  pub mutex-Owns : (call : Call) (k : ℕ) → Owns m call k → Owns (set_mutex x o m) call k
  mutex-Owns (adding n) k h = h
  mutex-Owns removing k h = tt
  mutex-Owns asking k h = tt

  pub mutex-Grip :
      (call : Call) (k prev : ℕ)
      → Grip t m call k prev
      → IsHeld t (set_mutex x o m) prev
      → Grip t (set_mutex x o m) call k prev
  mutex-Grip call k prev grip held = record {
    keys = grip.keys;
    owns = mutex-Owns call k grip.owns;
    linked_prev = grip.linked_prev;
    above = grip.above;
    held_prev = held;
  }

module _ (t : ℕ) (m : Memory) where
  held_now : (x : ℕ) → IsHeld t (set_mutex x (some t) m) x
  held_now x = at_change m.mutex x x (some t) (λ o. o ≡ some t) (λ _. refl) (λ ne. absurd (ne refl))

  pub not_another : (x u : ℕ) → IsHeld t m x → t ≢ u → IsHeld u m x → ⊥
  not_another x u mine ne h =
      let f : some t ≡ some u = sym mine ∙ h in ne (ap (λ o. elim o [ none ↦ t | some n ↦ n ]) f)

module _ (t : ℕ) (m : Memory) (list : IsList m) (w : Work) (node : ℕ) where
  pub locking_head_lem :
      (call : Call) (k : ℕ)
      → PcInv t m (locking_head call k)
      → Proceeds t m (locking_head call k) (thread_step t w node (locking_head call k) m)
  unfolding thread_step acts
  locking_head_lem call k (keys, owns) =
      loaded t m list (locking_head call k) head
        (lock t head (locking_head call k) (reading call k head) m)
        (list.in_memory head list.chain.head_linked)
        (lock_lem t m list (locking_head call k) (reading call k head) head (keys, owns)
          (λ free. (
            record {
              keys = keys;
              owns = mutex-Owns t m head (some t) call k owns;
              linked_prev = list.chain.head_linked;
              above = omega (arith, list.chain.head_key, keys.0);
              held_prev = held_now t m head;
            },
            list.agrees head list.chain.head_linked free,
          ))
          (λ n h. h) refl (λ n h. elim h [ ]) (λ m' same. (same, inr (refl, refl)))
          (λ same. (same, inr (refl, refl))))

  pub reading_lem :
      (call : Call) (k prev : ℕ)
      → PcInv t m (reading call k prev)
      → Proceeds t m (reading call k prev) (thread_step t w node (reading call k prev) m)
  unfolding thread_step acts
  reading_lem call k prev (grip, agrees) =
      loaded t m list (reading call k prev) prev (m, locking_curr call k prev (next_of m prev))
        (list.in_memory prev grip.linked_prev)
        (
          m,
          locking_curr call k prev (next_of m prev),
          refl,
          reads t m list (reading call k prev) (locking_curr call k prev (next_of m prev))
              (grip, agrees, sym agrees) (λ n h. h) (λ n h. h) (λ same. (same, inr (refl, refl))),
        )

  module _ (call : Call) (k prev curr : ℕ) where
    pub locking_curr_lem :
        PcInv t m (locking_curr call k prev curr)
        → Proceeds t m
            (locking_curr call k prev curr)
            (thread_step t w node (locking_curr call k prev curr) m)
    unfolding thread_step acts
    locking_curr_lem (grip, agrees, at) =
        let lc = curr-IsLinked m list grip at in
        loaded t m list (locking_curr call k prev curr) curr
          (lock t curr (locking_curr call k prev curr) (holding call k prev curr) m)
          (list.in_memory curr lc)
          (lock_lem t m list (locking_curr call k prev curr) (holding call k prev curr) curr
            (grip, agrees, at)
            (λ free. record {
              grip = mutex-Grip t m curr (some t) call k prev grip (
                  at_change m.mutex curr prev (some t) (λ o. o ≡ some t) (λ _. refl)
                    (λ _. grip.held_prev));
              agrees_prev = agrees;
              neighbours = at;
              held_curr = held_now t m curr;
              agrees_curr = list.agrees curr lc free;
            })
            (λ n h. h) (inr refl) (λ n h. inl h) (λ m' same. (same, inr (refl, refl)))
            (λ same. (same, inr (refl, refl))))

    pub unlocking_passed_lem :
        PcInv t m (unlocking_passed call k prev curr)
        → Proceeds t m
            (unlocking_passed call k prev curr)
            (thread_step t w node (unlocking_passed call k prev curr) m)
    unfolding thread_step acts
    unlocking_passed_lem (both, lt) =
        let lc = curr-IsLinked m list both.grip both.neighbours in
        loaded t m list (unlocking_passed call k prev curr) prev
          (set_mutex prev none m, reading call k curr) (list.in_memory prev both.grip.linked_prev)
          (
            set_mutex prev none m,
            reading call k curr,
            refl,
            sets_mutex t m list (unlocking_passed call k prev curr) (reading call k curr) prev none
                (λ u ne held. not_another t m prev u both.grip.held_prev ne held)
                (λ _ _. both.agrees_prev) (λ u _ never. ground arith)
                (
                  record {
                    keys = both.grip.keys;
                    owns = mutex-Owns t m prev none call k both.grip.owns;
                    linked_prev = lc;
                    above = lt;
                    held_prev =
                        at_change m.mutex prev curr none (λ o. o ≡ some t)
                          (λ e. absurd (apart e (order both))) (λ _. both.held_curr);
                  },
                  both.agrees_curr,
                )
                (λ n h. h) (λ never. absurd (ground arith))
                (λ n ne h. elim h [ inl e ↦ absurd (ne e) | inr e ↦ e ])
                (λ same. (same, inr (refl, refl))),
          )
      where
        apart : prev ≡ curr → key_of m prev < key_of m (m.chain prev) → ⊥
        apart e gt = omega (arith, gt, ap (key_of m) (both.neighbours ∙ sym e))

        order : Both t m call k prev curr → key_of m prev < key_of m (m.chain prev)
        order both =
            (list.chain.sorted prev both.grip.linked_prev (
              inner m.linked (key_of m) m.chain list.chain prev k both.grip.above
                both.grip.keys.1)).1
