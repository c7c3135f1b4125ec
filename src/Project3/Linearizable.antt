-- ===== src/Project3/Linearizable.antt =====
-- What a scan returns while others update: Snapshot::scan of project3/src/snapshot.cpp.
use ite.Base.{
  ℕ, zero, suc, ◌+◌, ◌≡◌, ◌≢◌, ◌≤◌, ◌<◌, refl, Bool, true, false, Option, none, some, List, [], ◌∷◌,
  inl, inr, arith, get_or, set, length, replicate, ap, ◌∙◌, sym, get_or-set_ne, ◌==◌, Bool-cases,
  Option-cases,
}
use mathlib.Core.Path.{subst}
use ite.Project3.Scan.{
  StampedValue, initial_value, first_moved, Scanned, copied, borrowed, null_read, borrow, values,
  scan_from, scan,
}
use ite.Project3.Updates.{
  Update, registers_at, register, collect, length-collect, get_or-collect, length-registers_at,
  register-Later, register-same,
}
use ite.Project3.WaitFree.{first_moved-lt, scan_ends}

first_moved-none :
    (k : ℕ) (old_copy new_copy : List StampedValue) (i : ℕ)
    → length old_copy ≡ length new_copy
    → first_moved k old_copy new_copy ≡ none
    → i < length old_copy
    → (get_or old_copy i initial_value).stamp ≡ (get_or new_copy i initial_value).stamp
unfolding first_moved
first_moved-none k [] new_copy i e h lt = elim lt [ ]
first_moved-none k (o ∷ old_copy) [] i e h lt = absurd (omega arith)
first_moved-none k (o ∷ old_copy) (c ∷ new_copy) zero e h lt = ground arith
first_moved-none k (o ∷ old_copy) (c ∷ new_copy) (suc i) e h lt =
    first_moved-none (k + 1) old_copy new_copy i (omega arith) (ground arith) (omega arith)

first_moved-some :
    (k : ℕ) (old_copy new_copy : List StampedValue) (i : ℕ)
    → first_moved k old_copy new_copy ≡ some (k + i)
    → (get_or old_copy i initial_value).stamp ≢ (get_or new_copy i initial_value).stamp
unfolding first_moved
first_moved-some k [] new_copy i h = cc
first_moved-some k (o ∷ old_copy) [] i h = cc
first_moved-some k (o ∷ old_copy) (c ∷ new_copy) zero h = elim (Bool-cases (o.stamp == c.stamp)) [
  | inl same ↦ absurd (
      omega (arith, first_moved-lt (k + 1) old_copy new_copy (k + 0) (rw (same, first_moved) at h)))
  | inr other ↦ ground arith
]
first_moved-some k (o ∷ old_copy) (c ∷ new_copy) (suc i) h =
    elim (Bool-cases (o.stamp == c.stamp)) [
      | inl same ↦
          first_moved-some (k + 1) old_copy new_copy i
            (rw (same, first_moved) at h ∙ ap (λ (m : ℕ). some m) (omega arith))
      | inr other ↦ absurd (omega (arith, some_eq (rw (other, first_moved) at h)))
    ]
  where
    some_eq : some k ≡ some (k + suc i) → k ≡ k + suc i
    some_eq e = ground arith

values-ext :
    (a b : List StampedValue)
    → length a ≡ length b
    → ((i : ℕ) → i < length a → get_or a i initial_value ≡ get_or b i initial_value)
    → values a ≡ values b
values-ext [] [] e h = refl
values-ext [] (y ∷ b) e h = absurd (omega arith)
values-ext (x ∷ a) [] e h = absurd (omega arith)
values-ext (x ∷ a) (y ∷ b) e h =
    let head = ap (λ (v : StampedValue). v.value) (h 0 (omega arith)) in
    rw (values-ext a b (omega arith) (λ i lt. h (suc i) (omega arith)), head)

-- The k-th collect loads every register between the moments `from k` and `from (k + 1)`.
pub record Timing (at : ℕ → ℕ → ℕ) (from : ℕ → ℕ) : Type 0 where
  pub begins : (k i : ℕ) → from k ≤ at k i
  pub ends : (k i : ℕ) → at k i ≤ from (k + 1)

module _ (capacity : ℕ) (stores : ℕ → Option Update) (at : ℕ → ℕ → ℕ) (from : ℕ → ℕ) where
  abbrev pub copies : ℕ → List StampedValue
  copies k = collect capacity (registers_at capacity stores) (at k)

  -- A result that is right: the values that the registers had at one moment between two collects of
  -- the scan, or a snapshot that some thread has stored. It is never a read through NULL.
  abbrev pub IsAtomic : Scanned → Type 0
  IsAtomic (copied vs) =
      (m : ℕ) × (1 ≤ m) × (m ≤ capacity + 1) × (vs ≡ values (registers_at capacity stores (from m)))
  IsAtomic (borrowed vs) =
      (i : ℕ) × (m : ℕ) × (1 ≤ m)
      × (m ≤ capacity + 1)
      × ((register capacity stores (at m i) i).snap ≡ some vs)
  IsAtomic null_read = ⊥

  module _ (timing : Timing at from) where
    copy_at :
        (k i : ℕ)
        → i < capacity
        → get_or (copies k) i initial_value ≡ register capacity stores (at k i) i
    copy_at k i lt = get_or-collect capacity i (registers_at capacity stores) (at k) lt

    size : (k : ℕ) → length (copies k) ≡ capacity
    size k = length-collect capacity (registers_at capacity stores) (at k)

    clean_copy :
        (k : ℕ)
        → first_moved 0 (copies k) (copies (k + 1)) ≡ none
        → values (copies (k + 1)) ≡ values (registers_at capacity stores (from (k + 1)))
    clean_copy k same =
        values-ext (copies (k + 1)) (registers_at capacity stores (from (k + 1)))
          (size (k + 1) ∙ sym (length-registers_at capacity stores (from (k + 1))))
          (λ i lt.
            let inside : i < capacity = omega (arith, size (k + 1)) in
            let stamps =
              first_moved-none 0 (copies k) (copies (k + 1)) i (size k ∙ sym (size (k + 1))) same
                (omega (arith, size k)) in
            copy_at (k + 1) i inside
            ∙ sym (
                register-same capacity stores i (at k i) (from (k + 1)) (at (k + 1) i)
                  (timing.ends k i) (timing.begins (k + 1) i)
                  (sym (ap (λ (v : StampedValue). v.stamp) (copy_at k i inside))
                    ∙ stamps
                    ∙ ap (λ (v : StampedValue). v.stamp) (copy_at (k + 1) i inside))))

    -- What the flags remember: a register that has moved has been stored to.
    abbrev Remembers : ℕ → List Bool → Type 0
    Remembers k moved =
        (i : ℕ)
        → get_or moved i false ≡ true
        → (1 ≤ k) × ((vs : List ℕ) × ((register capacity stores (at k i) i).snap ≡ some vs))

    ordered : (k i : ℕ) → at k i ≤ at (k + 1) i
    ordered k i = omega (arith, timing.ends k i, timing.begins (k + 1) i)

    remember :
        (k : ℕ) (moved : List Bool) (i : ℕ)
        → Remembers k moved
        → i < capacity
        → first_moved 0 (copies k) (copies (k + 1)) ≡ some i
        → Remembers (k + 1) (set moved i true)
    remember k moved i old inside diff j flag = elim (Bool-cases (i == j)) [
      | inl here ↦
          let q : i ≡ j = ground arith in
          elim (register-Later capacity stores j (at k j) (at (k + 1) j) (ordered k j)) [
            | inl same ↦ absurd (
                first_moved-some 0 (copies k) (copies (k + 1)) i
                  (diff ∙ ap (λ (m : ℕ). some m) (omega arith))
                  (rw q (
                    rw (copy_at k j (rw q at inside), copy_at (k + 1) j (rw q at inside))
                      (ap (λ (v : StampedValue). v.stamp) (sym same)))))
            | inr (grew, snap) ↦ (omega arith, snap)
          ]
      | inr there ↦
          let before = old j (sym (get_or-set_ne moved i j true false (ground arith)) ∙ flag) in
          elim (register-Later capacity stores j (at k j) (at (k + 1) j) (ordered k j)) [
            | inl same ↦
                let (vs, e) = before.1 in
                (omega arith, (vs, ap (λ (v : StampedValue). v.snap) same ∙ e))
            | inr (grew, snap) ↦ (omega arith, snap)
          ]
    ]

    borrow-IsAtomic :
        (k i : ℕ) (vs : List ℕ)
        → i < capacity
        → 1 ≤ k
        → k ≤ capacity + 1
        → (register capacity stores (at k i) i).snap ≡ some vs
        → IsAtomic (borrow (get_or (copies k) i initial_value).snap)
    borrow-IsAtomic k i vs inside pos last e = rw (copy_at k i inside) (rw e (i, k, pos, last, e))

    scan_from-IsAtomic :
        (fuel k : ℕ) (moved : List Bool) (r : Scanned)
        → k + fuel ≤ capacity + 1
        → Remembers k moved
        → scan_from fuel copies (k + 1) (copies k) moved ≡ some r
        → IsAtomic r
    unfolding scan_from
    scan_from-IsAtomic zero k moved r last old h = cc
    scan_from-IsAtomic (suc fuel) k moved r last old h =
        elim (Option-cases (first_moved 0 (copies k) (copies (k + 1)))) [
          | inl same ↦
              subst IsAtomic (some_eq _ (rw (same, scan_from) at h))
                (k + 1, omega arith, omega arith, clean_copy k same)
          | inr (i, diff) ↦
              let range = first_moved-lt 0 (copies k) (copies (k + 1)) i diff in
              let inside : i < capacity = omega (arith, size k) in
              elim (Bool-cases (get_or moved i false)) [
                | inl again ↦
                    let (pos, (vs, e)) = old i again in
                    subst IsAtomic (some_eq _ (rw (diff, scan_from, again) at h))
                      (borrow-IsAtomic k i vs inside pos (omega arith) e)
                | inr once ↦
                    scan_from-IsAtomic fuel (k + 1) (set moved i true) r (omega arith)
                      (remember k moved i old inside diff) (rw (diff, scan_from, once) at h)
              ]
        ]
      where
        some_eq : (q : Scanned) → some q ≡ some r → q ≡ r
        some_eq q e = cc

    no_flags : (n : ℕ) (i : ℕ) → get_or (replicate n false) i false ≡ true → ⊥
    no_flags zero i h = cc
    no_flags (suc n) zero h = cc
    no_flags (suc n) (suc i) h = no_flags n i h

    -- Whatever the other threads store meanwhile, a scan whose collects follow one another, each with
    -- one load for each register, returns; and it returns the values that all
    -- registers had together at one moment, between the end of its first collect and the start of
    -- the collect with number `capacity + 1`, or a snapshot that it found, in one of the collects
    -- after the first, in a register where a thread had stored it. It never reads through NULL.
    pub scan-IsAtomic : (r : Scanned) × (scan capacity copies ≡ some r) × IsAtomic r
    unfolding scan
    scan-IsAtomic =
        let (r, e) = scan_ends capacity copies size in
        (
          r,
          e,
          scan_from-IsAtomic (capacity + 1) 0 (replicate capacity false) r (omega arith)
              (λ i flag. absurd (no_flags capacity i flag)) e,
        )
