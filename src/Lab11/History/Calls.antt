-- ===== src/Lab11/History/Calls.antt =====
-- How a call of lab11/fine_grained.cpp or optimistic.cpp comes to its answer: it acts on the set at one
-- step between its begin and its end.
use ite.Base.{
  ℕ, ◌≡◌, ◌≢◌, ◌<◌, ◌≤◌, refl, Bool, true, false, arith, inl, inr, ◌⊎◌, sym, ap, ◌∙◌, none, some,
  List, Has,
}
use mathlib.Core.Path.{subst}
use ite.Lab11.History.{
  Event, Answered, record_event, next_call, IsSequential, InKeys, Represents, Same, Acts,
  Acts-answer, Acts-present,
}

-- A step at which a call acts fixes its answer; another leaves set and answer as they are.
abbrev pub Outcome : Answered → (ℕ → Type 0) → (ℕ → Type 0) → Bool → Answered → Answered → Type 0
Outcome none S S' resting ans ans' =
    Same S S' × (((resting ≡ true) × (ans' ≡ none)) ⊎ ((resting ≡ false) × (ans' ≡ ans)))
Outcome (some (type, k, result)) S S' resting ans ans' =
    InKeys k
    × Acts type k result S S'
    × (resting ≡ false)
    × (ans ≡ none)
    × (ans' ≡ some (type, k, result))

abbrev pub UpTo : ℕ → ℕ → List Event → Type 0
UpTo t c h = (e : Event) → Has e h → e.thread ≡ t → e.call ≤ c

abbrev pub Before : ℕ → ℕ → List Event → Type 0
Before t c h = (e : Event) → Has e h → e.thread ≡ t → e.call < c

abbrev pub TellsOf : Answered → ℕ → ℕ → List Event → Bool → Type 0
TellsOf none t c h resting = resting ≡ false → Before t c h
TellsOf (some (type, k, result)) t c h resting =
    Has (record { thread = t; call = c; type = type; key = k; result = result }) h

-- The call `c` of thread `t` has acted once it has its answer, and not before.
abbrev pub Told : ℕ → ℕ → List Event → Bool → Answered → Type 0
Told t c h resting ans = UpTo t c h × TellsOf ans t c h resting

module _ (t c : ℕ) (h : List Event) (S S' : ℕ → Type 0) (rep : Represents S h)
    (seq : IsSequential h) (resting : Bool) (ans ans' : Answered)
    (told : Told t c h resting ans) where
  pub Outcome-Represents :
      (act : Answered) → Outcome act S S' resting ans ans' → Represents S' (record_event t c act h)
  Outcome-Represents none (same, rest) =
      λ k ok. (λ s. (rep k ok).0 ((same k).0 s), λ e. (same k).1 ((rep k ok).1 e))
  Outcome-Represents (some (type, k, result)) (keys, acts, busy, fresh, e) =
      λ x ok. Acts-present S S' h k keys rep x ok type result acts

  pub Outcome-IsSequential :
      (act : Answered) → Outcome act S S' resting ans ans' → IsSequential (record_event t c act h)
  Outcome-IsSequential none out = seq
  Outcome-IsSequential (some (type, k, result)) (keys, acts, busy, fresh, e) =
      (Acts-answer S S' h k keys rep type result acts, tells, seq)
    where
      tells : Before t c h
      tells = subst (λ (a : Answered). TellsOf a t c h resting) fresh told.1 busy

  later_call : resting ≡ true → Before t (next_call resting c) h
  later_call e x has same = let le = told.0 x has same in rw e (omega (arith, le))

  pub Outcome-Told :
      (act : Answered) (resting' : Bool)
      → Outcome act S S' resting ans ans'
      → Told t (next_call resting c) (record_event t c act h) resting' ans'
  Outcome-Told none resting' (same, inl (rests, e)) = (
    λ x has q. omega (arith, later_call rests x has q),
    subst (λ (a : Answered). TellsOf a t (next_call resting c) h resting') (sym e)
        (λ _. later_call rests),
  )
  Outcome-Told none resting' (same, inr (busy, e)) = (
    λ x has q. rw busy (told.0 x has q),
    subst (λ (a : Answered). TellsOf a t (next_call resting c) h resting') (sym e)
        (rw busy (tells ans told.1)),
  )
    where
      tells : (a : Answered) → TellsOf a t c h resting → TellsOf a t c h resting'
      tells none f = λ _. f busy
      tells (some (type, k, result)) f = f
  Outcome-Told (some (type, k, result)) resting' (keys, acts, busy, fresh, e) = (
    up,
    subst
        (λ (a : Answered).
          TellsOf a t (next_call resting c) (record_event t c (some (type, k, result)) h) resting')
        (sym e) (rw busy (inl refl)),
  )
    where
      up : UpTo t (next_call resting c) (record_event t c (some (type, k, result)) h)
      up x (inl q) same =
          let f : x.call ≡ c = ap (λ (y : Event). y.call) (sym q) in rw busy (omega (arith, f))
      up x (inr has) same = rw busy (told.0 x has same)

-- The calls of another thread.
pub other-Told :
    (t c : ℕ) (h : List Event) (act : Answered) (u d : ℕ) (resting : Bool) (ans : Answered)
    → t ≢ u
    → Told u d h resting ans
    → Told u d (record_event t c act h) resting ans
other-Told t c h none u d resting ans ne told = told
other-Told t c h (some (type, k, result)) u d resting ans ne told =
    (λ x has same. older x has same (λ old. told.0 x old same), tells ans told.1)
  where
    older :
        (x : Event) {C : Type 0}
        → Has x (record_event t c (some (type, k, result)) h)
        → x.thread ≡ u
        → (Has x h → C)
        → C
    older x (inl q) same old = absurd (ne (ap (λ (y : Event). y.thread) q ∙ same))
    older x (inr has) same old = old has

    tells :
        (a : Answered)
        → TellsOf a u d h resting
        → TellsOf a u d (record_event t c (some (type, k, result)) h) resting
    tells none f = λ busy x has same. older x has same (λ old. f busy x old same)
    tells (some (ty, l, b)) f = inr f
