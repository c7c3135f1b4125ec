-- ===== src/Lab11/History.antt =====
-- The calls on a shared set of lab11/fine_grained.cpp and optimistic.cpp in the order in which they act,
-- and what it is that they are the calls of one thread after the other.
use ite.Base.{
  ℕ, suc, ◌+◌, if◌then◌else◌, ◌≡◌, ◌≢◌, ◌<◌, ◌≤◌, refl, Bool, true, false, not, ◌&&◌, ◌||◌, arith,
  inl, inr, ◌⊎◌, sym, ap, ◌∙◌, ◌==◌, ◌↔◌, Option, none, some, List, [], ◌∷◌, Has, Bool-cases,
  ==_refl,
}
use mathlib.Core.Path.{subst}
use ite.Lab11.CoarseList.{int_min, int_max, WorkType, add, remove, contains, other}
use ite.Lab11.CoarseList.Runs.{present_next}
pub mod Calls

-- What a call answers, at the step at which it acts on the set; `call` counts those of its thread.
pub record Event : Type 0 where
  pub thread : ℕ
  pub call : ℕ
  pub type : WorkType
  pub key : ℕ
  pub result : Bool

-- A call with its answer, if there is one.
abbrev pub Answered : Type 0
Answered = Option (WorkType × ℕ × Bool)

abbrev pub record_event : ℕ → ℕ → Answered → List Event → List Event
record_event t call none h = h
record_event t call (some (type, key, result)) h =
    (record { thread = t; call = call; type = type; key = key; result = result }) ∷ h

-- The number of the call of a thread, where one that rests begins the next.
abbrev pub next_call : Bool → ℕ → ℕ
next_call resting c = if resting then c + 1 else c

-- Whether a key is in the set after some calls, the last of them first.
abbrev pub present : List Event → ℕ → Bool
present [] k = false
present (e ∷ h) k = present_next e.type e.key k (present h k)

-- The answer to a call on a set that has the key, or has it not.
abbrev pub answer_of : WorkType → Bool → Bool
answer_of add b = not b
answer_of remove b = b
answer_of contains b = b
answer_of other b = b

-- The calls of a thread act in the order of their numbers.
abbrev pub IsLater : Event → List Event → Type 0
IsLater e h = (x : Event) → Has x h → x.thread ≡ e.thread → x.call < e.call

-- The answers are those of the same calls, made one after the other on the empty set.
abbrev pub IsSequential : List Event → Type 0
IsSequential [] = Unit
IsSequential (e ∷ h) =
    (e.result ≡ answer_of e.type (present h e.key)) × IsLater e h × IsSequential h

abbrev pub InKeys : ℕ → Type 0
InKeys k = (int_min < k) × (k < int_max)

-- A set has the keys that the calls leave.
abbrev pub Represents : (ℕ → Type 0) → List Event → Type 0
Represents S h = (k : ℕ) → InKeys k → S k ↔ (present h k ≡ true)

abbrev pub Same : (ℕ → Type 0) → (ℕ → Type 0) → Type 0
Same S S' = (k : ℕ) → S' k ↔ S k

-- A call acts on the set `S`, which is `S'` afterwards.
abbrev pub Acts : WorkType → ℕ → Bool → (ℕ → Type 0) → (ℕ → Type 0) → Type 0
Acts add k true S S' = (S k → ⊥) × ((x : ℕ) → S' x ↔ (S x ⊎ (x ≡ k)))
Acts remove k true S S' = S k × ((x : ℕ) → S' x ↔ (S x × (x ≢ k)))
Acts add k false S S' = S k × Same S S'
Acts remove k false S S' = (S k → ⊥) × Same S S'
Acts contains k true S S' = S k × Same S S'
Acts contains k false S S' = (S k → ⊥) × Same S S'
Acts other k result S S' = ⊥

module _ (S S' : ℕ → Type 0) (h : List Event) (k : ℕ) (keys : InKeys k) (rep : Represents S h) where
  is_in : S k → present h k ≡ true
  is_in has = (rep k keys).0 has

  is_out : (S k → ⊥) → present h k ≡ false
  is_out hasnt = elim (Bool-cases (present h k)) [
    | inl e ↦ absurd (hasnt ((rep k keys).1 e))
    | inr e ↦ e
  ]

  pub Acts-answer :
      (type : WorkType) (result : Bool)
      → Acts type k result S S'
      → result ≡ answer_of type (present h k)
  Acts-answer add true (out, after) = rw (is_out out) refl
  Acts-answer add false (has, after) = rw (is_in has) refl
  Acts-answer remove true (has, after) = rw (is_in has) refl
  Acts-answer remove false (out, after) = rw (is_out out) refl
  Acts-answer contains true (has, after) = rw (is_in has) refl
  Acts-answer contains false (out, after) = rw (is_out out) refl
  Acts-answer other result never = elim never [ ]

  module _ (x : ℕ) (ok : InKeys x) where
    was : S x ↔ (present h x ≡ true)
    was = rep x ok

    adds : S' x ↔ (S x ⊎ (x ≡ k)) → S' x ↔ (((x == k) || present h x) ≡ true)
    adds after = (
      λ s. elim (after.0 s) [
        | inl before ↦ let e = was.0 before in ground arith
        | inr e ↦ ground arith
      ],
      λ e. elim (Bool-cases (x == k)) [
        | inl same ↦ after.1 (inr (ground arith))
        | inr differ ↦ after.1 (inl (was.1 (ground arith)))
      ],
    )

    removes : S' x ↔ (S x × (x ≢ k)) → S' x ↔ ((not (x == k) && present h x) ≡ true)
    removes after = (
      λ s.
          let (before, ne) = after.0 s in
          let e = was.0 before in let f : (x == k) ≡ false = ground arith in rw f e,
      λ e. after.1 (was.1 (ground arith), λ q. ground arith),
    )

    stays : S' x ↔ S x → S' x ↔ (present h x ≡ true)
    stays after = (λ s. was.0 (after.0 s), λ e. after.1 (was.1 e))

    -- An answer that leaves the set as it is.
    added_again : S k → S' x ↔ S x → S' x ↔ (((x == k) || present h x) ≡ true)
    added_again has after = (
      λ s. let e = (stays after).0 s in ground arith,
      λ e. elim (Bool-cases (x == k)) [
        | inl same ↦ let q : k ≡ x = ground arith in after.1 (subst S q has)
        | inr differ ↦ (stays after).1 (ground arith)
      ],
    )

    removed_again : (S k → ⊥) → S' x ↔ S x → S' x ↔ ((not (x == k) && present h x) ≡ true)
    removed_again out after = (
      λ s.
          let e = (stays after).0 s in
          let f : (x == k) ≡ false = elim (Bool-cases (x == k)) [
            | inl same ↦ let q : x ≡ k = ground arith in absurd (out (subst S q (after.0 s)))
            | inr differ ↦ differ
          ] in
          rw f e,
      λ e. (stays after).1 (ground arith),
    )

    pub Acts-present :
        (type : WorkType) (result : Bool)
        → Acts type k result S S'
        → S' x ↔ (present_next type k x (present h x) ≡ true)
    Acts-present add true (out, after) = adds (after x)
    Acts-present add false (has, after) = added_again has (after x)
    Acts-present remove true (has, after) = removes (after x)
    Acts-present remove false (out, after) = removed_again out (after x)
    Acts-present contains true (has, after) = stays (after x)
    Acts-present contains false (out, after) = stays (after x)
    Acts-present other result never = elim never [ ]
