-- ===== src/Lab04/CondStep1/Rounds.antt =====
-- The steps of the threads, and those of `main` in its loops, in lab04/prime_cond_step1.cpp.
use ite.Base.{
  ℕ, ◌+◌, ◌≡◌, ◌≢◌, ◌<◌, refl, List, [], ◌∷◌, ◌++◌, ◌==◌, ltb, change, arith, Bool-cases, inl, inr,
  sym, ◌∙◌, at_change, to_split, split_before, split_at, split_after,
}
use mathlib.Core.Path.{subst}
use ite.Lab03.Count.{count_range}
use ite.Lab04.CondStep1.{
  ThreadRet, pending, release, counted, Pc, not_created, entering, before_wait, waiting, woken,
  exited, MainPc, resetting, spinning, releasing, Answer, System, num_thread, set_pc, set_ret, work,
  thread_step, wake, go_to, check_ret,
}
use ite.Lab04.CondStep1.Invariant.{
  resting, reset, active, done, released, leaving, Agrees, stage, share_of, Shape, AreRight, Inv,
  next_pc, next_ret, next-Agrees,
}

-- A step of thread `t` acts on its own program counter and result.
record StepsTo (t : ℕ) (s s' : System) : Type 0 where
  pcs : ℕ → Pc
  rets : ℕ → ThreadRet
  same : s' ≡ record s { threads = pcs; thread_ret = rets }
  own_pc : pcs t ≡ next_pc (s.threads t) (s.thread_ret t)
  own_ret : rets t ≡ next_ret (share_of s t) (s.threads t) (s.thread_ret t)
  other_pc : (a : ℕ) → t ≢ a → pcs a ≡ s.threads a
  other_ret : (a : ℕ) → t ≢ a → rets a ≡ s.thread_ret a

at_own : {A : Type 0} (f : ℕ → A) (t : ℕ) (u : A) → change f t u t ≡ u
at_own f t u = at_change f t t u (λ v. v ≡ u) (λ _. refl) (λ ne. absurd (ne refl))

at_other : {A : Type 0} (f : ℕ → A) (t a : ℕ) (u : A) → t ≢ a → change f t u a ≡ f a
at_other f t a u ne = at_change f t a u (λ v. v ≡ f a) (λ e. absurd (ne e)) (λ _. refl)

module _ (t : ℕ) (s : System) where
  moves :
      (p : Pc)
      → next_pc (s.threads t) (s.thread_ret t) ≡ p
      → next_ret (share_of s t) (s.threads t) (s.thread_ret t) ≡ s.thread_ret t
      → StepsTo t s (set_pc t p s)
  moves p pc ret = record {
    pcs = change s.threads t p;
    rets = s.thread_ret;
    same = refl;
    own_pc = at_own s.threads t p ∙ sym pc;
    own_ret = sym ret;
    other_pc = λ a ne. at_other s.threads t a p ne;
    other_ret = λ a ne. refl;
  }

  stays :
      next_pc (s.threads t) (s.thread_ret t) ≡ s.threads t
      → next_ret (share_of s t) (s.threads t) (s.thread_ret t) ≡ s.thread_ret t
      → StepsTo t s s
  stays pc ret = record {
    pcs = s.threads;
    rets = s.thread_ret;
    same = refl;
    own_pc = sym pc;
    own_ret = sym ret;
    other_pc = λ a ne. refl;
    other_ret = λ a ne. refl;
  }

  answers :
      (p : Pc) (r : ThreadRet)
      → next_pc (s.threads t) (s.thread_ret t) ≡ p
      → next_ret (share_of s t) (s.threads t) (s.thread_ret t) ≡ r
      → StepsTo t s (set_pc t p (set_ret t r s))
  answers p r pc ret = record {
    pcs = change s.threads t p;
    rets = change s.thread_ret t r;
    same = refl;
    own_pc = at_own s.threads t p ∙ sym pc;
    own_ret = at_own s.thread_ret t r ∙ sym ret;
    other_pc = λ a ne. at_other s.threads t a p ne;
    other_ret = λ a ne. at_other s.thread_ret t a r ne;
  }

  thread_step-StepsTo : StepsTo t s (thread_step t (s.threads t) s)
  unfolding thread_step work
  thread_step-StepsTo = go (s.threads t) refl (s.thread_ret t) refl
    where
      go :
          (p : Pc)
          → s.threads t ≡ p
          → (r : ThreadRet) → s.thread_ret t ≡ r
          → StepsTo t s (thread_step t p s)
      go not_created at r is = stays (rw at refl) (rw at refl)
      go entering at r is = answers before_wait (counted 0) (rw at refl) (rw at refl)
      go before_wait at r is = moves waiting (rw at refl) (rw at refl)
      go waiting at r is = stays (rw at refl) (rw at refl)
      go woken at release is =
          subst (λ (q : ThreadRet). StepsTo t s (work t q s)) (sym is)
            (moves exited (rw (at, is) refl) (rw (at, is) refl))
      go woken at pending is =
          subst (λ (q : ThreadRet). StepsTo t s (work t q s)) (sym is)
            (answers before_wait (counted (share_of s t)) (rw (at, is) refl) (rw (at, is) refl))
      go woken at (counted k) is =
          subst (λ (q : ThreadRet). StepsTo t s (work t q s)) (sym is)
            (answers before_wait (counted (share_of s t)) (rw (at, is) refl) (rw (at, is) refl))
      go exited at r is = stays (rw at refl) (rw at refl)

  pub thread_step-Inv : Inv s → Inv (thread_step t (s.threads t) s)
  thread_step-Inv inv =
      let m = thread_step-StepsTo in
      subst Inv (sym m.same) (record {
        shape = inv.shape;
        agree = λ a lt. elim (Bool-cases (t == a)) [
          | inl same ↦
              let e : t ≡ a = ground arith in
              subst (λ (b : ℕ). Agrees (share_of s b) (m.pcs b) (m.rets b) (stage s.main_pc b)) e
                (subst (λ (p : Pc). Agrees (share_of s t) p (m.rets t) (stage s.main_pc t))
                  (sym m.own_pc)
                  (subst
                    (λ (r : ThreadRet).
                      Agrees (share_of s t) (next_pc (s.threads t) (s.thread_ret t)) r
                        (stage s.main_pc t))
                    (sym m.own_ret)
                    (next-Agrees (share_of s t) (s.threads t) (s.thread_ret t) (stage s.main_pc t)
                      (inv.agree t (subst (λ (b : ℕ). b < num_thread) (sym e) lt)))))
          | inr other ↦
              let ne : t ≢ a = ground arith in
              subst (λ (p : Pc). Agrees (share_of s a) p (m.rets a) (stage s.main_pc a))
                (sym (m.other_pc a ne))
                (subst
                  (λ (r : ThreadRet). Agrees (share_of s a) (s.threads a) r (stage s.main_pc a))
                  (sym (m.other_ret a ne)) (inv.agree a lt))
        ];
        right = inv.right;
      })

pub AreRight-append :
    (xs : List Answer) (x : Answer)
    → AreRight xs
    → x.cnt_prime ≡ count_range x.first x.last
    → AreRight (xs ++ (x ∷ []))
AreRight-append [] x h e = (e, tt)
AreRight-append (y ∷ xs) x (f, h) e = (f, AreRight-append xs x h e)

abbrev pub Agree : System → MainPc → Type 0
Agree s m =
    (a : ℕ) → a < num_thread → Agrees (share_of s a) (s.threads a) (s.thread_ret a) (stage m a)

-- `main` sets the result of thread `i`.
set_ret-Agree :
    (s : System) (m next : MainPc) (i : ℕ) (r : ThreadRet)
    → Agree s m
    → ((a : ℕ)
        → a ≢ i
        → Agrees (share_of s a) (s.threads a) (s.thread_ret a) (stage m a)
        → Agrees (share_of s a) (s.threads a) (s.thread_ret a) (stage next a))
    → (i < num_thread
        → Agrees (share_of s i) (s.threads i) (s.thread_ret i) (stage m i)
        → Agrees (share_of s i) (s.threads i) r (stage next i))
    → Agree (set_ret i r s) next
set_ret-Agree s m next i r old others mine a lt =
    at_change s.thread_ret i a r (λ q. Agrees (share_of s a) (s.threads a) q (stage next a))
      (λ e.
        subst (λ (b : ℕ). Agrees (share_of s b) (s.threads b) r (stage next b)) e
          (mine (omega (arith, e, lt)) (old i (omega (arith, e, lt)))))
      (λ ne. others a (λ e. ne (sym e)) (old a lt))

pub wake-reset : (n : ℕ) (p : Pc) (r : ThreadRet) → Agrees n p r reset → Agrees n (wake p) r active
wake-reset n p r (inl at, e) = rw at (inl (e, inl (inl refl)))
wake-reset n p r (inr at, e) = rw at (inl (e, inr refl))

pub wake-released :
    (n : ℕ) (p : Pc) (r : ThreadRet) → Agrees n p r released → Agrees n (wake p) r leaving
wake-released n p r (inl at, e) = rw at (e, inl (inl refl))
wake-released n p r (inr at, e) = rw at (e, inr (inl refl))

-- A thread that WaitWorkers passes is done.
passed : (n : ℕ) (p : Pc) (r : ThreadRet) → Agrees n p r active → r ≢ pending → Agrees n p r done
passed n p r (inl (e, h)) ne = absurd (ne e)
passed n p r (inr h) ne = h

module _ (s : System) (inv : Inv s) where
  pub at_main : (m : MainPc) → s.main_pc ≡ m → Agree s m
  at_main m at = subst (Agree s) at inv.agree

  -- `main` goes on, and nothing else changes.
  pub goes :
      (m next : MainPc)
      → s.main_pc ≡ m
      → Shape s next
      → (Agree s m → Agree s next)
      → Inv (go_to next s)
  goes m next at shape moves_ = record {
    shape = shape;
    agree = moves_ (at_main m at);
    right = inv.right;
  }

  pub resetting-Inv :
      (i : ℕ)
      → s.main_pc ≡ resetting i
      → i < num_thread
      → Inv (go_to (resetting (i + 1)) (set_ret i pending s))
  resetting-Inv i at lt = record {
    shape = omega arith;
    agree =
        set_ret-Agree s (resetting i) (resetting (i + 1)) i pending (at_main (resetting i) at)
          (λ a ne h.
            to_split (Agrees (share_of s a) (s.threads a) (s.thread_ret a)) a (i + 1) reset resting
              resting
              (λ l.
                split_before (Agrees (share_of s a) (s.threads a) (s.thread_ret a)) a i reset
                  resting resting (omega arith) h)
              (λ e.
                split_after (Agrees (share_of s a) (s.threads a) (s.thread_ret a)) a i reset resting
                  resting (omega arith) h)
              (λ g.
                split_after (Agrees (share_of s a) (s.threads a) (s.thread_ret a)) a i reset resting
                  resting (omega arith) h))
          (λ _ h.
            to_split (Agrees (share_of s i) (s.threads i) pending) i (i + 1) reset resting resting
              (λ _. (
                split_at (Agrees (share_of s i) (s.threads i) (s.thread_ret i)) i i reset resting
                    resting refl h,
                refl,
              ))
              (λ e. absurd (omega arith)) (λ g. absurd (omega arith)));
    right = inv.right;
  }

  pub releasing-Inv :
      (i : ℕ)
      → s.main_pc ≡ releasing i
      → i < num_thread
      → Inv (go_to (releasing (i + 1)) (set_ret i release s))
  releasing-Inv i at lt = record {
    shape = omega arith;
    agree =
        set_ret-Agree s (releasing i) (releasing (i + 1)) i release (at_main (releasing i) at)
          (λ a ne h.
            to_split (Agrees (share_of s a) (s.threads a) (s.thread_ret a)) a (i + 1) released
              resting resting
              (λ l.
                split_before (Agrees (share_of s a) (s.threads a) (s.thread_ret a)) a i released
                  resting resting (omega arith) h)
              (λ e.
                split_after (Agrees (share_of s a) (s.threads a) (s.thread_ret a)) a i released
                  resting resting (omega arith) h)
              (λ g.
                split_after (Agrees (share_of s a) (s.threads a) (s.thread_ret a)) a i released
                  resting resting (omega arith) h))
          (λ _ h.
            to_split (Agrees (share_of s i) (s.threads i) release) i (i + 1) released resting
              resting
              (λ _. (
                split_at (Agrees (share_of s i) (s.threads i) (s.thread_ret i)) i i released resting
                    resting refl h,
                refl,
              ))
              (λ e. absurd (omega arith)) (λ g. absurd (omega arith)));
    right = inv.right;
  }

  spinning-next :
      (i : ℕ)
      → s.main_pc ≡ spinning i
      → i < num_thread
      → s.thread_ret i ≢ pending
      → Inv (go_to (spinning (i + 1)) s)
  spinning-next i at lt there =
      goes (spinning i) (spinning (i + 1)) at (omega arith) (λ old a below.
        to_split (Agrees (share_of s a) (s.threads a) (s.thread_ret a)) a (i + 1) done active active
          (λ l. elim (Bool-cases (a == i)) [
            | inl same ↦
                let e : a ≡ i = ground arith in
                passed (share_of s a) (s.threads a) (s.thread_ret a)
                  (split_at (Agrees (share_of s a) (s.threads a) (s.thread_ret a)) a i done active
                    active e (old a below))
                  (subst (λ (b : ℕ). s.thread_ret b ≢ pending) (sym e) there)
            | inr other ↦
                let ne : a ≢ i = ground arith in
                split_before (Agrees (share_of s a) (s.threads a) (s.thread_ret a)) a i done active
                  active (omega arith) (old a below)
          ])
          (λ e.
            split_after (Agrees (share_of s a) (s.threads a) (s.thread_ret a)) a i done active
              active (omega arith) (old a below))
          (λ g.
            split_after (Agrees (share_of s a) (s.threads a) (s.thread_ret a)) a i done active
              active (omega arith) (old a below)))

  pub check-Inv :
      (i : ℕ) (r : ThreadRet)
      → s.thread_ret i ≡ r
      → s.main_pc ≡ spinning i
      → i < num_thread
      → Inv (check_ret r (spinning 0) (spinning (i + 1)) s)
  unfolding check_ret
  check-Inv i pending is at lt = goes (spinning i) (spinning 0) at (omega arith) (λ old a below.
      to_split (Agrees (share_of s a) (s.threads a) (s.thread_ret a)) a 0 done active active
        (λ l. absurd (omega arith)) (λ _. again a (old a below)) (λ _. again a (old a below)))
    where
      weaker :
          (a : ℕ)
          → Agrees (share_of s a) (s.threads a) (s.thread_ret a) done
          → Agrees (share_of s a) (s.threads a) (s.thread_ret a) active
      weaker a h = inr h

      again :
          (a : ℕ)
          → Agrees (share_of s a) (s.threads a) (s.thread_ret a) (stage (spinning i) a)
          → Agrees (share_of s a) (s.threads a) (s.thread_ret a) active
      again a h = elim (Bool-cases (ltb a i)) [
        | inl lt_ ↦ weaker a (
            split_before (Agrees (share_of s a) (s.threads a) (s.thread_ret a)) a i done active
              active (ground arith) h)
        | inr ge ↦ elim (Bool-cases (a == i)) [
          | inl same ↦
              split_at (Agrees (share_of s a) (s.threads a) (s.thread_ret a)) a i done active active
                (ground arith) h
          | inr other ↦
              split_after (Agrees (share_of s a) (s.threads a) (s.thread_ret a)) a i done active
                active (ground arith) h
        ]
      ]
  check-Inv i release is at lt = spinning-next i at lt (λ e. absurd (clash (sym is ∙ e)))
    where
      clash : release ≡ pending → ⊥
      clash e = cc
  check-Inv i (counted k) is at lt = spinning-next i at lt (λ e. absurd (clash (sym is ∙ e)))
    where
      clash : counted k ≡ pending → ⊥
      clash e = cc
