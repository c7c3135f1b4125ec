-- ===== src/Lab12/Tickets/Order.antt =====
-- Each step of lab12/queue_bounded.cpp keeps the invariant.
use ite.Base.{
  ℕ, ◌≡◌, ◌≢◌, ◌<◌, ◌≤◌, List, [], ◌∷◌, change, arith, inl, inr, ◌⊎◌, sym, ◌∙◌, at_change,
}
use mathlib.Core.Path.{subst}
use ite.Lab12.Tickets.{
  Pc, idle, enq_waiting, enq_writing, enq_loading, enq_raising, deq_waiting, deq_reading,
  deq_loading, deq_raising, Got, System,
}
use ite.Lab12.Tickets.Frame.{
  flag_of, key_of, empty_flag, full_flag, PcInv, IsEnq, IsDeq, AreInOrder, Inv, Frames, frame,
}

pub enq_facts :
    (s : System) (p : Pc) (t : ℕ)
    → PcInv s p
    → IsEnq p t
    → (t < s.rear) × (flag_of s t ≤ empty_flag t)
enq_facts s idle t h i = elim i [ ]
enq_facts s (enq_waiting u k) t (lt, (e, le)) i =
    subst (λ (v : ℕ). (v < s.rear) × (flag_of s v ≤ empty_flag v)) i (lt, le)
enq_facts s (enq_writing u k) t (lt, (e, now)) i =
    subst (λ (v : ℕ). (v < s.rear) × (flag_of s v ≤ empty_flag v)) i (lt, omega (arith, now))
enq_facts s (enq_loading u k) t (lt, (e, (now, r))) i =
    subst (λ (v : ℕ). (v < s.rear) × (flag_of s v ≤ empty_flag v)) i (lt, omega (arith, now))
enq_facts s (enq_raising u k f) t (lt, (e, (now, r))) i =
    subst (λ (v : ℕ). (v < s.rear) × (flag_of s v ≤ empty_flag v)) i (lt, omega (arith, now))
enq_facts s (deq_waiting u) t h i = elim i [ ]
enq_facts s (deq_reading u) t h i = elim i [ ]
enq_facts s (deq_loading u k) t h i = elim i [ ]
enq_facts s (deq_raising u k f) t h i = elim i [ ]

pub deq_facts :
    (s : System) (p : Pc) (t : ℕ)
    → PcInv s p
    → IsDeq p t
    → (t < s.front) × (flag_of s t ≤ full_flag t)
deq_facts s idle t h i = elim i [ ]
deq_facts s (enq_waiting u k) t h i = elim i [ ]
deq_facts s (enq_writing u k) t h i = elim i [ ]
deq_facts s (enq_loading u k) t h i = elim i [ ]
deq_facts s (enq_raising u k f) t h i = elim i [ ]
deq_facts s (deq_waiting u) t (lt, le) i =
    subst (λ (v : ℕ). (v < s.front) × (flag_of s v ≤ full_flag v)) i (lt, le)
deq_facts s (deq_reading u) t (lt, now) i =
    subst (λ (v : ℕ). (v < s.front) × (flag_of s v ≤ full_flag v)) i (lt, omega (arith, now))
deq_facts s (deq_loading u k) t (lt, (now, r)) i =
    subst (λ (v : ℕ). (v < s.front) × (flag_of s v ≤ full_flag v)) i (lt, omega (arith, now))
deq_facts s (deq_raising u k f) t (lt, (now, r)) i =
    subst (λ (v : ℕ). (v < s.front) × (flag_of s v ≤ full_flag v)) i (lt, omega (arith, now))

pub AreInOrder-frame :
    (s s' : System) (gs : List Got)
    → s.rear ≤ s'.rear
    → ((t : ℕ) → t < s.rear → s'.put t ≡ s.put t)
    → AreInOrder s gs
    → AreInOrder s' gs
AreInOrder-frame s s' [] le same h = tt
AreInOrder-frame s s' (g ∷ gs) le same ((lt, e), h) =
    ((omega (arith, lt, le), e ∙ sym (same g.ticket lt)), AreInOrder-frame s s' gs le same h)

-- Thread `a` goes to `next`, and the others bear it.
pub record Step (s s' : System) (a : ℕ) (next : Pc) : Type 0 where
  pub threads_are : s'.threads ≡ change s.threads a next
  pub later_enq : (t : ℕ) → s'.rear ≤ t → flag_of s' t ≤ empty_flag t
  pub later_deq : (t : ℕ) → s'.front ≤ t → flag_of s' t ≤ full_flag t
  pub stored : (t : ℕ) → flag_of s' t ≡ full_flag t → key_of s' t ≡ s'.put t
  pub mine : PcInv s' next
  pub others : (b : ℕ) → a ≢ b → Frames s s' (s.threads b)
  pub enq_own : (t : ℕ) → IsEnq next t → IsEnq (s.threads a) t ⊎ (s.rear ≤ t)
  pub deq_own : (t : ℕ) → IsDeq next t → IsDeq (s.threads a) t ⊎ (s.front ≤ t)
  pub right : AreInOrder s' s'.got

module _ (s s' : System) (a : ℕ) (next : Pc) (inv : Inv s) (st : Step s s' a next) where
  enq_mine : (b t : ℕ) → a ≢ b → IsEnq next t → IsEnq (s.threads b) t → ⊥
  enq_mine b t ne i j = elim (st.enq_own t i) [
    | inl old ↦ ne (inv.enq_unique a b t old j)
    | inr new ↦
        let (lt, le) = enq_facts s (s.threads b) t (inv.pcs b) j in absurd (omega (arith, lt, new))
  ]

  deq_mine : (b t : ℕ) → a ≢ b → IsDeq next t → IsDeq (s.threads b) t → ⊥
  deq_mine b t ne i j = elim (st.deq_own t i) [
    | inl old ↦ ne (inv.deq_unique a b t old j)
    | inr new ↦
        let (lt, le) = deq_facts s (s.threads b) t (inv.pcs b) j in absurd (omega (arith, lt, new))
  ]

  pcs_after : (b : ℕ) → PcInv s' (change s.threads a next b)
  pcs_after b =
      at_change s.threads a b next (PcInv s') (λ _. st.mine)
        (λ ne. frame s s' (s.threads b) inv.later_enq (st.others b ne) (inv.pcs b))

  enq_after :
      (b c t : ℕ)
      → IsEnq (change s.threads a next b) t
      → IsEnq (change s.threads a next c) t
      → b ≡ c
  enq_after b c t =
      at_change s.threads a b next (λ p. IsEnq p t → IsEnq (change s.threads a next c) t → b ≡ c)
        (λ eb i.
          at_change s.threads a c next (λ q. IsEnq q t → b ≡ c) (λ ec _. sym eb ∙ ec)
            (λ nc j. absurd (enq_mine c t nc i j)))
        (λ nb i.
          at_change s.threads a c next (λ q. IsEnq q t → b ≡ c)
            (λ ec j. absurd (enq_mine b t nb j i)) (λ nc j. inv.enq_unique b c t i j))

  deq_after :
      (b c t : ℕ)
      → IsDeq (change s.threads a next b) t
      → IsDeq (change s.threads a next c) t
      → b ≡ c
  deq_after b c t =
      at_change s.threads a b next (λ p. IsDeq p t → IsDeq (change s.threads a next c) t → b ≡ c)
        (λ eb i.
          at_change s.threads a c next (λ q. IsDeq q t → b ≡ c) (λ ec _. sym eb ∙ ec)
            (λ nc j. absurd (deq_mine c t nc i j)))
        (λ nb i.
          at_change s.threads a c next (λ q. IsDeq q t → b ≡ c)
            (λ ec j. absurd (deq_mine b t nb j i)) (λ nc j. inv.deq_unique b c t i j))

  pub Step-Inv : Inv s'
  Step-Inv = record {
    later_enq = st.later_enq;
    later_deq = st.later_deq;
    stored = st.stored;
    pcs = λ b. subst (λ (f : ℕ → Pc). PcInv s' (f b)) (sym st.threads_are) (pcs_after b);
    enq_unique = λ b c t.
        subst (λ (f : ℕ → Pc). IsEnq (f b) t → IsEnq (f c) t → b ≡ c) (sym st.threads_are)
          (enq_after b c t);
    deq_unique = λ b c t.
        subst (λ (f : ℕ → Pc). IsDeq (f b) t → IsDeq (f c) t → b ≡ c) (sym st.threads_are)
          (deq_after b c t);
    right = st.right;
  }
