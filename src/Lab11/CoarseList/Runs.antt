-- ===== src/Lab11/CoarseList/Runs.antt =====
-- Runs of the threads of lab11/coarse_grained.cpp, and the comparison with result.txt.
use ite.Base.{
  ℕ, suc, ◌≡◌, ◌≢◌, ◌<◌, ◌≤◌, refl, Bool, true, false, not, ◌&&◌, ◌||◌, ◌==◌, if◌then◌else◌, ltb,
  some, List, [], ◌∷◌, ◌++◌, arith, Bool-cases, inl, inr, ◌⊎◌, sym, ap, ◌∙◌, ◌↔◌, ==_refl,
}
use mathlib.Core.Path.{subst}
use ite.Lab11.CoarseList.{
  int_max, list_init, Work, WorkType, add, remove, contains, other, do_work, run, is_valid,
}
use ite.Lab11.CoarseList.Refinement.{
  IsList, member, below-member, list_add_lem, list_remove_lem, list_contains_lem,
}

-- Whether a key is in the set after some work, if `b` says whether it was before.
abbrev pub present_next : WorkType → ℕ → ℕ → Bool → Bool
present_next add value k b = (k == value) || b
present_next remove value k b = not (k == value) && b
present_next contains value k b = b
present_next other value k b = b

abbrev pub present_after : List Work → ℕ → Bool → Bool
present_after [] k b = b
present_after (w ∷ ws) k b = present_after ws k (present_next w.type w.value k b)

abbrev pub HaveKeys : List Work → Type 0
HaveKeys [] = Unit
HaveKeys (w ∷ ws) = (w.value < int_max) × HaveKeys ws

abbrev pub RunsTo : List Work → List ℕ → List ℕ → Type 0
RunsTo ws xs ys =
    (run ws xs ≡ some ys)
    × IsList 0 ys
    × ((k : ℕ) → k < int_max → member k ys ≡ present_after ws k (member k xs))

do_work_lem :
    (w : Work) (xs : List ℕ)
    → w.value < int_max
    → IsList 0 xs
    → (ys : List ℕ) × ((do_work w xs ≡ some ys)
        × IsList 0 ys
        × ((k : ℕ) → k < int_max → member k ys ≡ present_next w.type w.value k (member k xs)))
unfolding do_work
do_work_lem w xs key list = go w.type refl
  where
    go :
        (type : WorkType)
        → w.type ≡ type
        → (ys : List ℕ) × ((do_work w xs ≡ some ys)
            × IsList 0 ys
            × ((k : ℕ) → k < int_max → member k ys ≡ present_next w.type w.value k (member k xs)))
    go add at =
        let (ys, (result, sorted, members)) = list_add_lem w.value 0 xs (omega arith) key list in
        (ys, (rw (at, result) refl, sorted, λ k _. rw at (members k)))
    go remove at =
        let (ys, (result, sorted, members)) = list_remove_lem w.value 0 xs (omega arith) key list in
        (ys, (rw (at, result) refl, sorted, λ k ok. rw at (members k ok)))
    go contains at =
        (xs, (rw (at, list_contains_lem w.value 0 xs key list) refl, list, λ k _. rw at refl))
    go other at = (xs, (rw at refl, list, λ k _. rw at refl))

-- For keys below INT_MAX, a run of any work in any order never leaves the list; its result is sorted
-- without a key twice, and has the keys that the additions and removals leave.
pub run_lem :
    (ws : List Work) (xs : List ℕ) → HaveKeys ws → IsList 0 xs → (ys : List ℕ) × RunsTo ws xs ys
unfolding run
run_lem [] xs keys list = (xs, (refl, list, λ k _. refl))
run_lem (w ∷ ws) xs (key, keys) list =
    let (ys, (done, sorted, members)) = do_work_lem w xs key list in
    let (zs, (ran, final, rest)) = run_lem ws ys keys sorted in
    (zs, (rw (done, run) ran, final, λ k ok. rw (rest k ok, members k ok) refl))

abbrev Shape : ℕ → List ℕ → Type 0
Shape z zs = ((z ≡ int_max) × (zs ≡ [])) ⊎ ((z < int_max) × IsList (suc z) zs)

abbrev SameMembers : List ℕ → List ℕ → Type 0
SameMembers xs ys = (k : ℕ) → k < int_max → member k xs ≡ member k ys

Shape-bounded : (z : ℕ) (zs : List ℕ) → Shape z zs → z ≤ int_max
Shape-bounded z zs (inl (last, end)) = omega arith
Shape-bounded z zs (inr (small, rest)) = omega arith

heads-apart :
    (x y : ℕ) (xs ys : List ℕ) → x < y → Shape y ys → member x (x ∷ xs) ≡ member x (y ∷ ys) → ⊥
heads-apart x y xs ys lt shape same =
    let small : x < int_max = omega (arith, Shape-bounded y ys shape, lt) in
    let out : member x (y ∷ ys) ≡ false = below-member x y (y ∷ ys) lt small (omega arith, shape) in
    ground arith

heads-same :
    (x y : ℕ) (xs ys : List ℕ) → Shape x xs → Shape y ys → SameMembers (x ∷ xs) (y ∷ ys) → x ≡ y
heads-same x y xs ys left right same = elim (Bool-cases (ltb x y)) [
  | inl lt ↦
      let less : x < y = ground arith in
      absurd
        (heads-apart x y xs ys less right (same x (omega (arith, less, Shape-bounded y ys right))))
  | inr ge ↦ elim (Bool-cases (ltb y x)) [
    | inl lt ↦
        let less : y < x = ground arith in
        absurd (
          heads-apart y x ys xs less left
            (sym (same y (omega (arith, less, Shape-bounded x xs left)))))
    | inr le ↦ ground arith
  ]
]

tails-same :
    (x : ℕ) (xs ys : List ℕ)
    → IsList (suc x) xs
    → IsList (suc x) ys
    → SameMembers (x ∷ xs) (x ∷ ys)
    → SameMembers xs ys
tails-same x xs ys left right same k ok = elim (Bool-cases (x == k)) [
  | inl here ↦
      let over : k < suc x = ground arith in
      rw (below-member k (suc x) xs over ok left, below-member k (suc x) ys over ok right) refl
  | inr differ ↦
      let e : member k (x ∷ xs) ≡ member k (x ∷ ys) = same k ok in
      let f : member k (x ∷ xs) ≡ member k xs = rw differ refl in
      let g : member k (x ∷ ys) ≡ member k ys = rw differ refl in cc
]

-- Two sorted lists with the same members are the same list.
pub same_members :
    (lo : ℕ) (xs ys : List ℕ) → IsList lo xs → IsList lo ys → SameMembers xs ys → xs ≡ ys
same_members lo [] ys h g same = elim h [ ]
same_members lo (x ∷ xs) [] h g same = elim g [ ]
same_members lo (x ∷ xs) (y ∷ ys) (lx, h) (ly, g) same =
    go h g (heads-same x y xs ys h g same) (λ a b e. same_members (suc x) xs ys a b e)
  where
    go :
        Shape x xs
        → Shape y ys
        → x ≡ y
        → (IsList (suc x) xs → IsList (suc x) ys → SameMembers xs ys → xs ≡ ys)
        → x ∷ xs ≡ y ∷ ys
    go (inl (lastx, endx)) (inl (lasty, endy)) e again = cc
    go (inl (lastx, endx)) (inr (small, rest)) e again = absurd (omega arith)
    go (inr (small, rest)) (inl (lasty, endy)) e again = absurd (omega arith)
    go (inr (small, rest)) (inr (smally, resty)) e again =
        let there : IsList (suc x) ys = subst (λ (z : ℕ). IsList (suc z) ys) (sym e) resty in
        let agree : SameMembers (x ∷ xs) (x ∷ ys) =
          subst (λ (z : ℕ). SameMembers (x ∷ xs) (z ∷ ys)) (sym e) same in
        let tails = again rest there (tails-same x xs ys rest there agree) in cc

is_valid_sound :
    (expected : List ℕ) (lo : ℕ) (xs : List ℕ)
    → IsList lo xs
    → is_valid expected xs ≡ true
    → xs ≡ expected ++ int_max ∷ []
unfolding is_valid
is_valid_sound expected lo [] h v = elim h [ ]
is_valid_sound [] lo (x ∷ []) (le, inl (last, end)) v = cc
is_valid_sound [] lo (x ∷ []) (le, inr (small, rest)) v = elim rest [ ]
is_valid_sound (e ∷ expected) lo (x ∷ []) h v = absurd (ground arith)
is_valid_sound [] lo (x ∷ y ∷ xs) h v = absurd (ground arith)
is_valid_sound (e ∷ expected) lo (x ∷ y ∷ xs) (le, h) v = elim (Bool-cases (x == e)) [
  | inl same ↦ go h (λ rest. is_valid_sound expected (suc x) (y ∷ xs) rest (keep same v)) same
  | inr differ ↦ absurd (drop differ v)
]
  where
    tail_ne : y ∷ xs ≢ []
    tail_ne q = cc

    keep :
        (x == e) ≡ true
        → (if x == e then is_valid expected (y ∷ xs) else false) ≡ true
        → is_valid expected (y ∷ xs) ≡ true
    keep same v = ground arith

    drop : (x == e) ≡ false → (if x == e then is_valid expected (y ∷ xs) else false) ≡ true → ⊥
    drop differ v = ground arith

    go :
        Shape x (y ∷ xs)
        → (IsList (suc x) (y ∷ xs) → y ∷ xs ≡ expected ++ int_max ∷ [])
        → (x == e) ≡ true
        → x ∷ y ∷ xs ≡ e ∷ (expected ++ int_max ∷ [])
    go (inl (last, end)) again same = elim (tail_ne end) [ ]
    go (inr (small, rest)) again same =
        let tails = again rest in let eq : x ≡ e = ground arith in cc

is_valid_complete : (expected : List ℕ) → is_valid expected (expected ++ int_max ∷ []) ≡ true
unfolding is_valid
is_valid_complete [] = refl
is_valid_complete (e ∷ []) = rw (==_refl e) refl
is_valid_complete (e ∷ f ∷ expected) = rw (==_refl e) (is_valid_complete (f ∷ expected))

-- For work with keys below INT_MAX and a file of sorted keys without a key twice, all below INT_MAX:
-- the run from the new list ends, and `main` prints "correct!" just when the file has the keys that
-- the additions and removals leave.
pub run-is_valid :
    (ws : List Work) (expected : List ℕ)
    → HaveKeys ws
    → IsList 0 (expected ++ int_max ∷ [])
    → (ys : List ℕ) × ((run ws list_init ≡ some ys)
        × ((is_valid expected ys ≡ true) ↔ (
            (k : ℕ)
            → k < int_max
            → member k (expected ++ int_max ∷ []) ≡ present_after ws k false)))
unfolding list_init
run-is_valid ws expected keys sorted =
    let (ys, (ran, list, members)) = run_lem ws (int_max ∷ []) keys start in
    (
      ys,
      (
        ran,
        (
          λ valid k ok.
              let e : ys ≡ expected ++ int_max ∷ [] = is_valid_sound expected 0 ys list valid in
              sym (ap (member k) e) ∙ members k ok ∙ ap (present_after ws k) (fresh k ok),
          λ agree.
              let e : ys ≡ expected ++ int_max ∷ [] =
                same_members 0 ys (expected ++ int_max ∷ []) list sorted (λ k ok.
                  members k ok ∙ ap (present_after ws k) (fresh k ok) ∙ sym (agree k ok)) in
              ap (is_valid expected) e ∙ is_valid_complete expected,
        ),
      ),
    )
  where
    start : IsList 0 (int_max ∷ [])
    start = (omega arith, inl (refl, refl))

    fresh : (k : ℕ) → k < int_max → member k (int_max ∷ []) ≡ false
    fresh k ok = ground arith
