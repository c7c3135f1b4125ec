-- ===== src/Lab11/CoarseList/Refinement.antt =====
-- The list of lab11/coarse_grained.cpp is a set of keys.
use ite.Base.{
  ℕ, suc, ◌≡◌, ◌<◌, ◌≤◌, refl, Bool, true, false, not, ◌&&◌, ◌||◌, ◌==◌, ltb, some, List, [], ◌∷◌,
  arith, Bool-cases, inl, inr, ◌⊎◌,
}
use ite.Lab11.CoarseList.{int_max, list_add, list_remove, list_contains}

-- Keys grow from `lo` on, and the last one is the tail's.
abbrev pub IsList : ℕ → List ℕ → Type 0
IsList lo [] = ⊥
IsList lo (x ∷ xs) = (lo ≤ x) × (((x ≡ int_max) × (xs ≡ [])) ⊎ ((x < int_max) × IsList (suc x) xs))

abbrev pub member : ℕ → List ℕ → Bool
member k [] = false
member k (x ∷ xs) = (x == k) || member k xs

IsList-from : (lo low : ℕ) (xs : List ℕ) → low ≤ lo → IsList lo xs → IsList low xs
IsList-from lo low [] le h = elim h [ ]
IsList-from lo low (x ∷ xs) le (ge, rest) = (omega arith, rest)

-- A key below all of the list is not in it.
pub below-member :
    (k lo : ℕ) (xs : List ℕ) → k < lo → k < int_max → IsList lo xs → member k xs ≡ false
below-member k lo [] lt ok h = refl
below-member k lo (x ∷ xs) lt ok (ge, inl (last, end)) = rw end ground arith
below-member k lo (x ∷ xs) lt ok (ge, inr (less, rest)) =
    rw (below-member k (suc x) xs (omega arith) ok rest) ground arith

abbrev pub AddsTo : ℕ → ℕ → List ℕ → List ℕ → Type 0
AddsTo lo key xs ys =
    (list_add key xs ≡ some (not (member key xs), ys))
    × IsList lo ys
    × ((k : ℕ) → member k ys ≡ ((k == key) || member k xs))

abbrev pub RemovesFrom : ℕ → ℕ → List ℕ → List ℕ → Type 0
RemovesFrom lo key xs ys =
    (list_remove key xs ≡ some (member key xs, ys))
    × IsList lo ys
    × ((k : ℕ) → k < int_max → member k ys ≡ (not (k == key) && member k xs))

skip : (b : Bool) (x k : ℕ) (m : Bool) → (x == k) || (b || m) ≡ b || ((x == k) || m)
skip b x k m = elim (Bool-cases (x == k)) [
  | inl same ↦ rw same (bools b)
  | inr other ↦ rw other refl
]
  where
    bools : (b : Bool) → true ≡ b || true
    bools true = refl
    bools false = refl

pub ==_sym : (a b : ℕ) → (a == b) ≡ (b == a)
==_sym a b = ground arith

-- For a list from `lo` on and a key from `lo` on below INT_MAX, `list_add` answers whether the key was
-- missing, and its list is sorted without a key twice and has the old keys and the new one.
pub list_add_lem :
    (key lo : ℕ) (xs : List ℕ)
    → lo ≤ key
    → key < int_max
    → IsList lo xs
    → (ys : List ℕ) × AddsTo lo key xs ys
unfolding list_add
list_add_lem key lo [] le ok h = elim h [ ]
list_add_lem key lo (x ∷ xs) le ok (ge, shape) = elim (Bool-cases (ltb x key)) [
  | inl less ↦ past shape less (λ from rest. list_add_lem key (suc x) xs from ok rest)
  | inr more ↦ elim (Bool-cases (x == key)) [
    | inl same ↦ (x ∷ xs, (rw (more, same) refl, (ge, shape), λ k. there k same))
    | inr differ ↦
        let over : suc key ≤ x = ground arith in
        let missing : member key (x ∷ xs) ≡ false =
          below-member key (suc key) (x ∷ xs) (omega arith) ok (over, shape) in
        (
          key ∷ x ∷ xs,
          (
            rw (more, missing, differ) refl,
            (le, inr (ok, (over, shape))),
            λ k. rw (==_sym key k) refl,
          ),
        )
  ]
]
  where
    there : (k : ℕ) → (x == key) ≡ true → member k (x ∷ xs) ≡ ((k == key) || member k (x ∷ xs))
    there k same = elim (Bool-cases (k == key)) [
      | inl here ↦ let e : (x == k) ≡ true = ground arith in rw (here, e) refl
      | inr other ↦ rw other refl
    ]

    past :
        ((x ≡ int_max) × (xs ≡ [])) ⊎ ((x < int_max) × IsList (suc x) xs)
        → ltb x key ≡ true
        → (suc x ≤ key → IsList (suc x) xs → (ys : List ℕ) × AddsTo (suc x) key xs ys)
        → (ys : List ℕ) × AddsTo lo key (x ∷ xs) ys
    past (inl (last, end)) less again = absurd (ground arith)
    past (inr (small, rest)) less again =
        let (ys, (result, list, members)) = again (ground arith) rest in
        let other : (x == key) ≡ false = ground arith in
        (
          x ∷ ys,
          (
            rw (less, result, other) refl,
            (ge, inr (small, list)),
            λ k. rw (members k) (skip (k == key) x k (member k xs)),
          ),
        )

skip_removed :
    (k key x : ℕ) (m : Bool)
    → (x == key) ≡ false
    → ((x == k) || (not (k == key) && m)) ≡ (not (k == key) && ((x == k) || m))
skip_removed k key x m differ = elim (Bool-cases (k == key)) [
  | inl same ↦ let other : (x == k) ≡ false = ground arith in rw (same, other) refl
  | inr other ↦ rw other refl
]

-- For a list from `lo` on and a key from `lo` on below INT_MAX, `list_remove` answers whether the key
-- was there, and its list is sorted without a key twice and has the old keys but this one.
pub list_remove_lem :
    (key lo : ℕ) (xs : List ℕ)
    → lo ≤ key
    → key < int_max
    → IsList lo xs
    → (ys : List ℕ) × RemovesFrom lo key xs ys
unfolding list_remove
list_remove_lem key lo [] le ok h = elim h [ ]
list_remove_lem key lo (x ∷ xs) le ok (ge, shape) = elim (Bool-cases (ltb x key)) [
  | inl less ↦ past shape less (λ from rest. list_remove_lem key (suc x) xs from ok rest)
  | inr more ↦ elim (Bool-cases (x == key)) [
    | inl same ↦ found shape same more
    | inr differ ↦
        let over : suc key ≤ x = ground arith in
        let missing : member key (x ∷ xs) ≡ false =
          below-member key (suc key) (x ∷ xs) (omega arith) ok (over, shape) in
        (x ∷ xs, (rw (more, missing, differ) refl, (ge, shape), λ k small. kept k small over))
  ]
]
  where
    kept :
        (k : ℕ)
        → k < int_max
        → suc key ≤ x
        → member k (x ∷ xs) ≡ (not (k == key) && member k (x ∷ xs))
    kept k small over = elim (Bool-cases (k == key)) [
      | inl here ↦
          let missing : member k (x ∷ xs) ≡ false =
            below-member k x (x ∷ xs) (ground arith) small (omega arith, shape) in
          rw (here, missing) refl
      | inr other ↦ rw other refl
    ]

    found :
        ((x ≡ int_max) × (xs ≡ [])) ⊎ ((x < int_max) × IsList (suc x) xs)
        → (x == key) ≡ true
        → ltb x key ≡ false
        → (ys : List ℕ) × RemovesFrom lo key (x ∷ xs) ys
    found (inl (last, end)) same more = absurd (ground arith)
    found (inr (small, rest)) same more = (
      xs,
      (
        rw (more, same) refl,
        IsList-from (suc x) lo xs (omega arith) rest,
        λ k ok. elim (Bool-cases (k == key)) [
          | inl here ↦ rw (here, below-member k (suc x) xs (ground arith) ok rest) refl
          | inr other ↦ let e : (x == k) ≡ false = ground arith in rw (other, e) refl
        ],
      ),
    )

    past :
        ((x ≡ int_max) × (xs ≡ [])) ⊎ ((x < int_max) × IsList (suc x) xs)
        → ltb x key ≡ true
        → (suc x ≤ key → IsList (suc x) xs → (ys : List ℕ) × RemovesFrom (suc x) key xs ys)
        → (ys : List ℕ) × RemovesFrom lo key (x ∷ xs) ys
    past (inl (last, end)) less again = absurd (ground arith)
    past (inr (small, rest)) less again =
        let (ys, (result, list, members)) = again (ground arith) rest in
        let other : (x == key) ≡ false = ground arith in
        (
          x ∷ ys,
          (
            rw (less, result, other) refl,
            (ge, inr (small, list)),
            λ k ok. rw (members k ok) (skip_removed k key x (member k xs) other),
          ),
        )

-- On a list, for a key below INT_MAX, `list_contains` answers whether the key is a member.
pub list_contains_lem :
    (key lo : ℕ) (xs : List ℕ)
    → key < int_max
    → IsList lo xs
    → list_contains key xs ≡ some (member key xs)
unfolding list_contains
list_contains_lem key lo [] ok h = elim h [ ]
list_contains_lem key lo (x ∷ xs) ok (ge, shape) = elim (Bool-cases (ltb x key)) [
  | inl less ↦ past shape less (λ rest. list_contains_lem key (suc x) xs ok rest)
  | inr more ↦ elim (Bool-cases (x == key)) [
    | inl same ↦ rw (more, same) refl
    | inr differ ↦
        let missing : member key (x ∷ xs) ≡ false =
          below-member key (suc key) (x ∷ xs) (omega arith) ok (ground arith, shape) in
        rw (more, missing, differ) refl
  ]
]
  where
    past :
        ((x ≡ int_max) × (xs ≡ [])) ⊎ ((x < int_max) × IsList (suc x) xs)
        → ltb x key ≡ true
        → (IsList (suc x) xs → list_contains key xs ≡ some (member key xs))
        → list_contains key (x ∷ xs) ≡ some (member key (x ∷ xs))
    past (inl (last, end)) less again = absurd (ground arith)
    past (inr (small, rest)) less again =
        let other : (x == key) ≡ false = ground arith in rw (less, other) (again rest)
