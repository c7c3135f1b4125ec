-- ===== src/Project3/Scan.antt =====
-- project3/include/snapshot.hpp and the scan of project3/src/snapshot.cpp. A `shared_ptr` to a value
-- that is never changed is the value. What the k-th call of `collect` finds is an argument, since
-- other threads store between the loads. A value is the bit pattern of an int.
use ite.Base.{
  ℕ, zero, suc, ◌+◌, Bool, true, false, Option, none, some, List, [], ◌∷◌, ◌==◌, if◌then◌else◌,
  replicate, get_or, set, map,
}

-- `snap` is NULL in a register that has never been stored to.
pub record StampedValue : Type 0 where
  pub stamp : ℕ
  pub value : ℕ
  pub snap : Option (List ℕ)

-- `StampedValue(0)`
abbrev pub initial_value : StampedValue
initial_value = record { stamp = 0; value = 0; snap = none }

-- `new ValuePtr[capacity]`, each with a new `StampedValue(0)`
abbrev pub new_registers : ℕ → List StampedValue
new_registers capacity = replicate capacity initial_value

-- The first register whose stamp differs between the two copies, in the loop of `scan`.
unfoldable pub first_moved : ℕ → List StampedValue → List StampedValue → Option ℕ
first_moved i [] new_copy = none
first_moved i (o ∷ old_copy) [] = none
first_moved i (o ∷ old_copy) (c ∷ new_copy) =
    if o.stamp == c.stamp then first_moved (i + 1) old_copy new_copy else some i

abbrev pub values : List StampedValue → List ℕ
values copy = map (λ v. v.value) copy

-- What a scan returns: the values of two equal copies, or the snapshot that a register holds.
-- `null_read` is a read through a NULL `snap`.
pub data Scanned : Type 0 where
  copied : List ℕ → Scanned
  borrowed : List ℕ → Scanned
  null_read : Scanned

abbrev pub borrow : Option (List ℕ) → Scanned
borrow none = null_read
borrow (some snap) = borrowed snap

-- The code after the label COLLECT; `copies k` is what this and the later collects find.
unfoldable pub scan_from :
    ℕ → (ℕ → List StampedValue) → ℕ → List StampedValue → List Bool → Option Scanned
unfolding first_moved
scan_from zero copies k old_copy moved = none
scan_from (suc fuel) copies k old_copy moved =
    let new_copy = copies k in
    elim (first_moved 0 old_copy new_copy) [
      | none ↦ some (copied (values new_copy))
      | some i ↦ elim (get_or moved i false) [
        | true ↦ some (borrow (get_or old_copy i initial_value).snap)
        | false ↦ scan_from fuel copies (k + 1) new_copy (set moved i true)
      ]
    ]

-- One collect for the first copy, and one more than there are registers for the second.
unfoldable pub scan : ℕ → (ℕ → List StampedValue) → Option Scanned
unfolding scan_from
scan capacity copies = scan_from (capacity + 1) copies 1 (copies 0) (replicate capacity false)
