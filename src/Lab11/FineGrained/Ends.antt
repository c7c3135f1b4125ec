-- ===== src/Lab11/FineGrained/Ends.antt =====
-- The steps of lab11/fine_grained.cpp that begin a call, unlock, and free; every step is taken.
use ite.Base.{ℕ, ◌≡◌, ◌≢◌, refl, true, arith, inl, inr, none, some, at_change}
use ite.Lab11.CoarseList.{Work, WorkType, add, remove, contains, other}
use ite.Lab11.History.{InKeys, Same}
use ite.Lab11.FineGrained.{
  Memory, set_mutex, malloc, free, adding, removing, asking, After, answer, removed, Pc, idle,
  locking_head, reading, locking_curr, holding, unlocking_passed, add_first, add_second,
  remove_write, unlocking_prev, unlocking_curr, freeing, returned, begin, thread_step, acts,
  is_resting, IsFresh,
}
use ite.Lab11.FineGrained.Shared.{Keys, IsList}
use ite.Lab11.FineGrained.Places.{Rest, PcInv, HasLock, answer_at, Outcome, Proceeds}
use ite.Lab11.FineGrained.Steps.{reads, sets_mutex, malloc_lem, free_lem, loaded}
use ite.Lab11.FineGrained.Passing.{
  not_another, locking_head_lem, reading_lem, locking_curr_lem, unlocking_passed_lem,
}
use ite.Lab11.FineGrained.Deciding.{holding_lem}
use ite.Lab11.FineGrained.Updates.{add_first_lem, add_second_lem, remove_write_lem}

module _ (t : ℕ) (m : Memory) (list : IsList m) (w : Work) (node : ℕ) where
  -- A thread at rest begins its next call.
  begin_lem :
      (p : Pc)
      → is_resting p ≡ true
      → acts p m ≡ none
      → ((x : ℕ) → HasLock p x → ⊥)
      → InKeys w.value
      → IsFresh m node
      → Proceeds t m p (some (begin w node m))
  unfolding begin
  begin_lem p resting quiet lockless keys fresh = go w.type refl
    where
      out :
          (m' : Memory) (p' : Pc)
          → answer_at p' ≡ none
          → Same (Keys m) (Keys m')
          → Outcome (acts p m) m p m' p'
      out m' p' e same = rw quiet (same, inl (resting, e))

      none_held : (p' : Pc) → (x : ℕ) → HasLock p x → HasLock p' x
      none_held p' x h = absurd (lockless x h)

      go : (type : WorkType) → w.type ≡ type → Proceeds t m p (some (begin w node m))
      go add e = (
        malloc node w.value m,
        locking_head (adding node) w.value,
        rw e refl,
        malloc_lem t m list p node w.value lockless keys fresh
            (out (malloc node w.value m) (locking_head (adding node) w.value) refl),
      )
      go remove e = (
        m,
        locking_head removing w.value,
        rw e refl,
        reads t m list p (locking_head removing w.value) (keys, tt) (λ n h. elim h [ ])
            (none_held (locking_head removing w.value))
            (out m (locking_head removing w.value) refl),
      )
      go contains e = (
        m,
        locking_head asking w.value,
        rw e refl,
        reads t m list p (locking_head asking w.value) (keys, tt) (λ n h. elim h [ ])
            (none_held (locking_head asking w.value)) (out m (locking_head asking w.value) refl),
      )
      go other e = (
        m,
        idle,
        rw e refl,
        reads t m list p idle tt (λ n h. elim h [ ]) (none_held idle) (out m idle refl),
      )

  keeps_Rest :
      (after : After) (prev curr : ℕ)
      → prev ≢ curr
      → Rest t m after curr
      → Rest t (set_mutex prev none m) after curr
  keeps_Rest (answer type k result) prev curr ne (l, h, a) =
      (l, at_change m.mutex prev curr none (λ o. o ≡ some t) (λ e. absurd (ne e)) (λ _. h), a)
  keeps_Rest (removed k) prev curr ne (owned, alone, h) = (
    owned,
    alone,
    at_change m.mutex prev curr none (λ o. o ≡ some t) (λ e. absurd (ne e)) (λ _. h),
  )

  unlocking_prev_lem :
      (after : After) (prev curr : ℕ)
      → PcInv t m (unlocking_prev after prev curr)
      → Proceeds t m
          (unlocking_prev after prev curr)
          (thread_step t w node (unlocking_prev after prev curr) m)
  unfolding thread_step acts
  unlocking_prev_lem after prev curr (lp, hp, a, ne, rest) =
      loaded t m list (unlocking_prev after prev curr) prev
        (set_mutex prev none m, unlocking_curr after curr) (list.in_memory prev lp)
        (
          set_mutex prev none m,
          unlocking_curr after curr,
          refl,
          sets_mutex t m list (unlocking_prev after prev curr) (unlocking_curr after curr) prev none
              (λ u q held. not_another t m prev u hp q held) (λ _ _. a) (λ u _ never. ground arith)
              (keeps_Rest after prev curr ne rest) (λ n h. h) (λ never. absurd (ground arith))
              (λ n q h. elim h [ inl e ↦ absurd (q e) | inr e ↦ e ])
              (λ same. (same, inr (refl, refl))),
        )

  unlocking_curr_lem :
      (after : After) (curr : ℕ)
      → PcInv t m (unlocking_curr after curr)
      → Proceeds t m
          (unlocking_curr after curr)
          (thread_step t w node (unlocking_curr after curr) m)
  unfolding thread_step acts
  unlocking_curr_lem (answer type k result) curr (l, h, a) =
      loaded t m list (unlocking_curr (answer type k result) curr) curr
        (set_mutex curr none m, returned type k result) (list.in_memory curr l)
        (
          set_mutex curr none m,
          returned type k result,
          refl,
          sets_mutex t m list (unlocking_curr (answer type k result) curr) (returned type k result)
              curr none (λ u q held. not_another t m curr u h q held) (λ _ _. a)
              (λ u _ never. ground arith) tt (λ n k. k) (λ never. absurd (ground arith))
              (λ n q e. absurd (q e)) (λ same. (same, inr (refl, refl))),
        )
  unlocking_curr_lem (removed k) curr (owned, alone, h) =
      loaded t m list (unlocking_curr (removed k) curr) curr (set_mutex curr none m, freeing k curr)
        owned
        (
          set_mutex curr none m,
          freeing k curr,
          refl,
          sets_mutex t m list (unlocking_curr (removed k) curr) (freeing k curr) curr none
              (λ u q held. not_another t m curr u h q held) (λ _ l. absurd (ground arith))
              (λ u _ never. ground arith) (owned, alone) (λ n k. k) (λ never. absurd (ground arith))
              (λ n q e. absurd (q e)) (λ same. (same, inr (refl, refl))),
        )

  freeing_lem :
      (k curr : ℕ)
      → PcInv t m (freeing k curr)
      → Proceeds t m (freeing k curr) (thread_step t w node (freeing k curr) m)
  unfolding thread_step acts
  freeing_lem k curr (owned, alone) =
      loaded t m list (freeing k curr) curr (free curr m, returned remove k true) owned
        (
          free curr m,
          returned remove k true,
          refl,
          free_lem t m list (freeing k curr) (returned remove k true) curr alone refl tt (λ x h. h)
              (λ n h. h) (λ same. (same, inr (refl, refl))),
        )

  pub thread_step_lem :
      (p : Pc)
      → PcInv t m p
      → InKeys w.value
      → IsFresh m node
      → Proceeds t m p (thread_step t w node p m)
  unfolding thread_step acts
  thread_step_lem idle h keys fresh = begin_lem idle refl refl (λ x h. h) keys fresh
  thread_step_lem (returned type k b) h keys fresh =
      begin_lem (returned type k b) refl refl (λ x h. h) keys fresh
  thread_step_lem (locking_head call k) h keys fresh = locking_head_lem t m list w node call k h
  thread_step_lem (reading call k prev) h keys fresh = reading_lem t m list w node call k prev h
  thread_step_lem (locking_curr call k prev curr) h keys fresh =
      locking_curr_lem t m list w node call k prev curr h
  thread_step_lem (holding call k prev curr) h keys fresh =
      holding_lem t m list w node k prev curr call h
  thread_step_lem (unlocking_passed call k prev curr) h keys fresh =
      unlocking_passed_lem t m list w node call k prev curr h
  thread_step_lem (add_first k n prev curr) h keys fresh =
      add_first_lem t m list w node k n prev curr h
  thread_step_lem (add_second k n prev curr) h keys fresh =
      add_second_lem t m list w node k n prev curr h
  thread_step_lem (remove_write k prev curr succ) h keys fresh =
      remove_write_lem t m list w node k prev curr succ h
  thread_step_lem (unlocking_prev after prev curr) h keys fresh =
      unlocking_prev_lem after prev curr h
  thread_step_lem (unlocking_curr after curr) h keys fresh = unlocking_curr_lem after curr h
  thread_step_lem (freeing k curr) h keys fresh = freeing_lem k curr h
