-- ===== src/Project3/WaitFree.antt =====
-- A scan ends whatever the other threads do: Snapshot::scan of project3/src/snapshot.cpp.
use ite.Base.{
  ℕ, zero, suc, ◌+◌, ◌≡◌, ◌≤◌, ◌<◌, refl, Bool, true, false, some, List, [], ◌∷◌, arith, Bool-cases,
  Option-cases, inl, inr, replicate, get_or, set, length, ap, length-set, ◌∙◌,
}
use ite.Project3.Scan.{
  StampedValue, initial_value, first_moved, Scanned, copied, borrow, values, scan_from, scan,
}

-- The registers that a scan has not seen move.
abbrev still : List Bool → ℕ
still [] = 0
still (true ∷ moved) = still moved
still (false ∷ moved) = suc (still moved)

still-set :
    (moved : List Bool) (i : ℕ)
    → i < length moved
    → get_or moved i false ≡ false
    → suc (still (set moved i true)) ≡ still moved
still-set [] i h e = elim h [ ]
still-set (true ∷ moved) zero h e = cc
still-set (false ∷ moved) zero h e = refl
still-set (true ∷ moved) (suc i) h e = still-set moved i (omega arith) e
still-set (false ∷ moved) (suc i) h e = ap suc (still-set moved i (omega arith) e)

still-replicate : (n : ℕ) → still (replicate n false) ≡ n
still-replicate zero = refl
still-replicate (suc n) = ap suc (still-replicate n)

length-flags : (n : ℕ) → length (replicate n false) ≡ n
length-flags zero = refl
length-flags (suc n) = ap suc (length-flags n)

pub first_moved-lt :
    (k : ℕ) (old_copy new_copy : List StampedValue) (i : ℕ)
    → first_moved k old_copy new_copy ≡ some i
    → (k ≤ i) × (i < k + length old_copy)
unfolding first_moved
first_moved-lt k [] new_copy i h = cc
first_moved-lt k (o ∷ old_copy) [] i h = cc
first_moved-lt k (o ∷ old_copy) (c ∷ new_copy) i h =
    ground (arith, first_moved-lt (k + 1) old_copy new_copy i)

scan_from-ends :
    (fuel : ℕ) (capacity : ℕ) (copies : ℕ → List StampedValue) (k : ℕ)
    (old_copy : List StampedValue) (moved : List Bool)
    → ((m : ℕ) → length (copies m) ≡ capacity)
    → length old_copy ≡ capacity
    → length moved ≡ capacity
    → still moved < fuel
    → (r : Scanned) × (scan_from fuel copies k old_copy moved ≡ some r)
unfolding scan_from
scan_from-ends zero capacity copies k old_copy moved sized os ms lt = absurd (omega arith)
scan_from-ends (suc fuel) capacity copies k old_copy moved sized os ms lt =
    elim (Option-cases (first_moved 0 old_copy (copies k))) [
      | inl same ↦ (copied (values (copies k)), rw (same, scan_from))
      | inr (i, diff) ↦
          let range = first_moved-lt 0 old_copy (copies k) i diff in
          elim (Bool-cases (get_or moved i false)) [
            | inl again ↦
                (borrow (get_or old_copy i initial_value).snap, rw (diff, scan_from, again))
            | inr once ↦
                let (r, e) =
                  scan_from-ends fuel capacity copies (k + 1) (copies k) (set moved i true) sized
                    (sized k) (length-set moved i true ∙ ms)
                    (omega (arith, still-set moved i (omega arith) once)) in
                (r, rw (diff, scan_from, once) e)
          ]
    ]

-- A scan of `capacity` registers returns after at most one collect more than there are registers
-- beyond its first, whatever the collects find, as long as each finds that number of registers.
pub scan_ends :
    (capacity : ℕ) (copies : ℕ → List StampedValue)
    → ((m : ℕ) → length (copies m) ≡ capacity)
    → (r : Scanned) × (scan capacity copies ≡ some r)
unfolding scan
scan_ends capacity copies sized =
    scan_from-ends (capacity + 1) capacity copies 1 (copies 0) (replicate capacity false) sized
      (sized 0) (length-flags capacity) (omega (arith, still-replicate capacity))
