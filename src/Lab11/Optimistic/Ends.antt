-- ===== src/Lab11/Optimistic/Ends.antt =====
-- The steps of lab11/optimistic.cpp that begin a call and that unlock the two nodes.
use ite.Base.{ℕ, ◌≡◌, ◌≢◌, refl, true, inl, inr, sym, ap, ◌∙◌, Option, none, some, at_change}
use ite.Lab11.CoarseList.{Work, WorkType, add, remove, contains, other}
use ite.Lab11.History.{InKeys, Same}
use ite.Lab11.Optimistic.{
  Memory, set_mutex, malloc, adding, removing, asking, After, retry, answer, Pc, idle, searching,
  unlocking_prev, unlocking_curr, returned, begin, go_on, thread_step, acts, is_resting, IsFresh,
}
use ite.Lab11.Optimistic.Shared.{Keys, IsList}
use ite.Lab11.Optimistic.Places.{IsHeld, AfterInv, PcInv, answer_at, Outcome, Advance, Proceeds}
use ite.Lab11.Optimistic.Steps.{reads, sets_mutex, malloc_lem, loaded}

module _ (t : ℕ) (m : Memory) (list : IsList m) (w : Work) (node : ℕ) where
  -- A thread at rest begins its next call.
  pub begin_lem :
      (p : Pc)
      → is_resting p ≡ true
      → acts p m ≡ none
      → InKeys w.value
      → IsFresh m node
      → Proceeds t m p (some (begin w node m))
  unfolding begin
  begin_lem p resting quiet keys fresh = go w.type refl
    where
      out :
          (m' : Memory) (p' : Pc)
          → answer_at p' ≡ none
          → Same (Keys m) (Keys m')
          → Outcome (acts p m) m p m' p'
      out m' p' e same = rw quiet (same, inl (resting, e))

      go : (type : WorkType) → w.type ≡ type → Proceeds t m p (some (begin w node m))
      go add e = (
        malloc node w.value m,
        searching (adding node) w.value,
        rw e refl,
        malloc_lem t m list p node w.value keys fresh
            (out (malloc node w.value m) (searching (adding node) w.value) refl),
      )
      go remove e = (
        m,
        searching removing w.value,
        rw e refl,
        reads t m list p (searching removing w.value) (keys, tt) (λ n h. elim h [ ])
            (out m (searching removing w.value) refl),
      )
      go contains e = (
        m,
        searching asking w.value,
        rw e refl,
        reads t m list p (searching asking w.value) (keys, tt) (λ n h. elim h [ ])
            (out m (searching asking w.value) refl),
      )
      go other e =
          (m, idle, rw e refl, reads t m list p idle tt (λ n h. elim h [ ]) (out m idle refl))

  not_another : (x u : ℕ) → IsHeld t m x → t ≢ u → IsHeld u m x → ⊥
  not_another x u mine ne h =
      let f : some t ≡ some u = sym mine ∙ h in ne (ap (λ o. elim o [ none ↦ t | some n ↦ n ]) f)

  after_mutex :
      (after : After) (x : ℕ) (o : Option ℕ) → AfterInv m after → AfterInv (set_mutex x o m) after
  after_mutex (retry (adding n) k) x o h = h
  after_mutex (retry removing k) x o (keys, owns) = (keys, tt)
  after_mutex (retry asking k) x o (keys, owns) = (keys, tt)
  after_mutex (answer type k result) x o h = tt

  pub unlocking_prev_lem :
      (after : After) (prev curr : ℕ)
      → PcInv t m (unlocking_prev after prev curr)
      → Proceeds t m
          (unlocking_prev after prev curr)
          (thread_step t w node (unlocking_prev after prev curr) m)
  unfolding thread_step acts
  unlocking_prev_lem after prev curr (lp, lc, hp, hc, apart, h) =
      loaded t m list (unlocking_prev after prev curr) prev
        (set_mutex prev none m, unlocking_curr after curr) lp
        (
          set_mutex prev none m,
          unlocking_curr after curr,
          refl,
          sets_mutex t m list (unlocking_prev after prev curr) (unlocking_curr after curr) prev none
              (λ u ne held. not_another prev u hp ne held)
              (
                lc,
                at_change m.mutex prev curr none (λ o. o ≡ some t) (λ e. absurd (apart e))
                    (λ _. hc),
                after_mutex after prev none h,
              )
              (λ n k. k) (λ same. (same, inr (refl, refl))),
        )

  pub unlocking_curr_lem :
      (after : After) (curr : ℕ)
      → PcInv t m (unlocking_curr after curr)
      → Proceeds t m
          (unlocking_curr after curr)
          (thread_step t w node (unlocking_curr after curr) m)
  unfolding thread_step acts
  unlocking_curr_lem after curr (lc, hc, h) =
      loaded t m list (unlocking_curr after curr) curr (set_mutex curr none m, go_on after) lc
        (set_mutex curr none m, go_on after, refl, unlocked after h)
    where
      unlocked :
          (after : After)
          → AfterInv m after
          → Advance t m (unlocking_curr after curr) (set_mutex curr none m) (go_on after)
      unlocked (retry call k) h =
          sets_mutex t m list (unlocking_curr (retry call k) curr) (searching call k) curr none
            (λ u ne held. not_another curr u hc ne held) (after_mutex (retry call k) curr none h)
            (λ n k. k) (λ same. (same, inr (refl, refl)))
      unlocked (answer type k result) h =
          sets_mutex t m list (unlocking_curr (answer type k result) curr) (returned type k result)
            curr none (λ u ne held. not_another curr u hc ne held) tt (λ n k. k)
            (λ same. (same, inr (refl, refl)))
