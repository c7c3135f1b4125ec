-- ===== src/Lab11/Ownership.antt =====
-- The nodes that the threads of lab11/fine_grained.cpp, optimistic.cpp and lockfree.cpp have for
-- themselves: no two threads have the same.
use ite.Base.{ℕ, ◌≡◌, ◌≢◌, inl, inr, ◌⊎◌, arith, sym, ◌∙◌, ◌==◌, Bool-cases, change, at_change}

module _ {P : Type 0} (Holds : P → ℕ → Type 0) (threads : ℕ → P) (t : ℕ) (p : P)
    (apart : (u v n : ℕ) → Holds (threads u) n → Holds (threads v) n → u ≡ v)
    (alone : (u n : ℕ) → t ≢ u → Holds p n → Holds (threads u) n → ⊥) where
  held : (u n : ℕ) → Holds (change threads t p u) n → (t ≡ u) ⊎ Holds (threads u) n
  held u n =
      at_change threads t u p (λ q. Holds q n → (t ≡ u) ⊎ Holds (threads u) n) (λ e _. inl e)
        (λ _ h. inr h)

  own : (u n : ℕ) → t ≡ u → Holds (change threads t p u) n → Holds p n
  own u n e = at_change threads t u p (λ q. Holds q n → Holds p n) (λ _ h. h) (λ ne. absurd (ne e))

  -- The thread of the step and another that still has a node are the same.
  meet : (u v n : ℕ) → t ≡ u → Holds (change threads t p u) n → Holds (threads v) n → u ≡ v
  meet u v n e mine theirs = elim (Bool-cases (t == v)) [
    | inl same ↦ sym e ∙ ground arith
    | inr differ ↦
        let ne : t ≢ v = λ q. ground arith in absurd (alone v n ne (own u n e mine) theirs)
  ]

  -- After a step to the place `p`, too, no two threads have the same node.
  pub apart_after :
      (u v n : ℕ) → Holds (change threads t p u) n → Holds (change threads t p v) n → u ≡ v
  apart_after u v n hu hv = elim (held u n hu) [
    | inl mine ↦ elim (held v n hv) [
      | inl too ↦ sym mine ∙ too
      | inr theirs ↦ meet u v n mine hu theirs
    ]
    | inr theirs ↦ elim (held v n hv) [
      | inl mine ↦ sym (meet v u n mine hv theirs)
      | inr others ↦ apart u v n theirs others
    ]
  ]
