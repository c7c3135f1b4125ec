-- ===== src/Lab12/Tickets/Frame.antt =====
-- The invariant of lab12/queue_bounded.cpp, and the steps of the other threads.
use ite.Base.{
  ℕ, ◌+◌, ◌*◌, ◌/◌, ◌≡◌, ◌≢◌, ◌<◌, ◌≤◌, refl, List, [], ◌∷◌, arith, inl, inr, ◌⊎◌, sym, ◌∙◌,
}
use ite.Lab12.Tickets.{
  queue_size, Pc, idle, enq_waiting, enq_writing, enq_loading, enq_raising, deq_waiting,
  deq_reading, deq_loading, deq_raising, Got, System, bucket,
}

abbrev pub flag_of : System → ℕ → ℕ
flag_of s t = (bucket s t).flag

abbrev pub key_of : System → ℕ → ℕ
key_of s t = (bucket s t).key

abbrev pub empty_flag : ℕ → ℕ
empty_flag t = 2 * (t / queue_size)

abbrev pub full_flag : ℕ → ℕ
full_flag t = 2 * (t / queue_size) + 1

-- What a thread knows of its bucket.
abbrev pub PcInv : System → Pc → Type 0
PcInv s idle = Unit
PcInv s (enq_waiting t k) = (t < s.rear) × ((s.put t ≡ k) × (flag_of s t ≤ empty_flag t))
PcInv s (enq_writing t k) = (t < s.rear) × ((s.put t ≡ k) × (flag_of s t ≡ empty_flag t))
PcInv s (enq_loading t k) =
    (t < s.rear) × ((s.put t ≡ k) × ((flag_of s t ≡ empty_flag t) × (key_of s t ≡ k)))
PcInv s (enq_raising t k f) =
    (t < s.rear)
    × ((s.put t ≡ k) × ((flag_of s t ≡ empty_flag t) × ((key_of s t ≡ k) × (f ≡ flag_of s t))))
PcInv s (deq_waiting t) = (t < s.front) × (flag_of s t ≤ full_flag t)
PcInv s (deq_reading t) = (t < s.front) × (flag_of s t ≡ full_flag t)
PcInv s (deq_loading t k) = (t < s.front) × ((flag_of s t ≡ full_flag t) × (k ≡ s.put t))
PcInv s (deq_raising t k f) =
    (t < s.front) × ((flag_of s t ≡ full_flag t) × ((k ≡ s.put t) × (f ≡ flag_of s t)))

abbrev pub IsEnq : Pc → ℕ → Type 0
IsEnq (enq_waiting t k) u = t ≡ u
IsEnq (enq_writing t k) u = t ≡ u
IsEnq (enq_loading t k) u = t ≡ u
IsEnq (enq_raising t k f) u = t ≡ u
IsEnq _ u = ⊥

abbrev pub IsDeq : Pc → ℕ → Type 0
IsDeq (deq_waiting t) u = t ≡ u
IsDeq (deq_reading t) u = t ≡ u
IsDeq (deq_loading t k) u = t ≡ u
IsDeq (deq_raising t k f) u = t ≡ u
IsDeq _ u = ⊥

abbrev pub AreInOrder : System → List Got → Type 0
AreInOrder s [] = Unit
AreInOrder s (g ∷ gs) = ((g.ticket < s.rear) × (g.ret_key ≡ s.put g.ticket)) × AreInOrder s gs

pub record Inv (s : System) : Type 0 where
  pub later_enq : (t : ℕ) → s.rear ≤ t → flag_of s t ≤ empty_flag t
  pub later_deq : (t : ℕ) → s.front ≤ t → flag_of s t ≤ full_flag t
  pub stored : (t : ℕ) → flag_of s t ≡ full_flag t → key_of s t ≡ s.put t
  pub pcs : (a : ℕ) → PcInv s (s.threads a)
  pub enq_unique : (a b t : ℕ) → IsEnq (s.threads a) t → IsEnq (s.threads b) t → a ≡ b
  pub deq_unique : (a b t : ℕ) → IsDeq (s.threads a) t → IsDeq (s.threads b) t → a ≡ b
  pub right : AreInOrder s s.got

-- A change that a thread bears: its bucket is the same, or it was not yet its turn and is not past.
abbrev pub Bears : System → System → ℕ → ℕ → Type 0
Bears s s' t turn =
    ((flag_of s' t ≡ flag_of s t) × (key_of s' t ≡ key_of s t))
    ⊎ ((flag_of s t ≢ turn) × (flag_of s' t ≤ turn))

pub record Frames (s s' : System) (p : Pc) : Type 0 where
  pub rear_le : s.rear ≤ s'.rear
  pub front_le : s.front ≤ s'.front
  pub put_same : (t : ℕ) → t < s.rear → s'.put t ≡ s.put t
  pub enq_bears : (t : ℕ) → IsEnq p t → Bears s s' t (empty_flag t)
  pub deq_bears : (t : ℕ) → IsDeq p t → Bears s s' t (full_flag t)

pub full-drawn :
    (s : System) (t : ℕ)
    → ((u : ℕ) → s.rear ≤ u → flag_of s u ≤ empty_flag u)
    → flag_of s t ≡ full_flag t
    → t < s.rear
full-drawn s t later full = elim (order t s.rear) [
  | inl lt ↦ lt
  | inr ge ↦ absurd (omega (arith, later t ge, full))
]
  where
    order : (a b : ℕ) → (a < b) ⊎ (b ≤ a)
    order a b = ground arith

pub frame :
    (s s' : System) (p : Pc)
    → ((u : ℕ) → s.rear ≤ u → flag_of s u ≤ empty_flag u)
    → Frames s s' p
    → PcInv s p
    → PcInv s' p
frame s s' idle later f h = tt
frame s s' (enq_waiting t k) later f (lt, (e, le)) = elim (f.enq_bears t refl) [
  | inl (same, keys) ↦
      (omega (arith, f.rear_le, lt), (f.put_same t lt ∙ e, omega (arith, same, le)))
  | inr (not_yet, le') ↦ (omega (arith, f.rear_le, lt), (f.put_same t lt ∙ e, le'))
]
frame s s' (enq_writing t k) later f (lt, (e, now)) = elim (f.enq_bears t refl) [
  | inl (same, keys) ↦ (omega (arith, f.rear_le, lt), (f.put_same t lt ∙ e, same ∙ now))
  | inr (not_yet, le') ↦ absurd (not_yet now)
]
frame s s' (enq_loading t k) later f (lt, (e, (now, key))) = elim (f.enq_bears t refl) [
  | inl (same, keys) ↦
      (omega (arith, f.rear_le, lt), (f.put_same t lt ∙ e, (same ∙ now, keys ∙ key)))
  | inr (not_yet, le') ↦ absurd (not_yet now)
]
frame s s' (enq_raising t k g) later f (lt, (e, (now, (key, old)))) = elim (f.enq_bears t refl) [
  | inl (same, keys) ↦ (
    omega (arith, f.rear_le, lt),
    (f.put_same t lt ∙ e, (same ∙ now, (keys ∙ key, old ∙ sym same))),
  )
  | inr (not_yet, le') ↦ absurd (not_yet now)
]
frame s s' (deq_waiting t) later f (lt, le) = elim (f.deq_bears t refl) [
  | inl (same, keys) ↦ (omega (arith, f.front_le, lt), omega (arith, same, le))
  | inr (not_yet, le') ↦ (omega (arith, f.front_le, lt), le')
]
frame s s' (deq_reading t) later f (lt, now) = elim (f.deq_bears t refl) [
  | inl (same, keys) ↦ (omega (arith, f.front_le, lt), same ∙ now)
  | inr (not_yet, le') ↦ absurd (not_yet now)
]
frame s s' (deq_loading t k) later f (lt, (now, e)) = elim (f.deq_bears t refl) [
  | inl (same, keys) ↦ (
    omega (arith, f.front_le, lt),
    (same ∙ now, e ∙ sym (f.put_same t (full-drawn s t later now))),
  )
  | inr (not_yet, le') ↦ absurd (not_yet now)
]
frame s s' (deq_raising t k g) later f (lt, (now, (e, old))) = elim (f.deq_bears t refl) [
  | inl (same, keys) ↦ (
    omega (arith, f.front_le, lt),
    (same ∙ now, (e ∙ sym (f.put_same t (full-drawn s t later now)), old ∙ sym same)),
  )
  | inr (not_yet, le') ↦ absurd (not_yet now)
]
