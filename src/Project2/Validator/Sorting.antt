-- ===== src/Project2/Validator/Sorting.antt =====
-- The log of all workers in the order of the commit numbers: the sort and the loop of
-- project2/src/validator.cpp.
use ite.Base.{
  ℕ, suc, ◌+◌, ◌≡◌, ◌≤◌, ◌<◌, refl, true, false, none, some, List, [], ◌∷◌, ◌++◌, arith, Bool-cases,
  Option-cases, inl, inr, length, ltb, ap, ◌∙◌,
}
use ite.Project2.Database.{Record}
use ite.Project2.Worker.{Log}
use ite.Project2.Validator.{insert_log, sort_logs, check_log, check_logs}

-- Every entry of the list has a number up to `m`.
abbrev pub UpTo : ℕ → List Log → Type 0
UpTo m [] = Unit
UpTo m (a ∷ l) = (a.commit_id ≤ m) × UpTo m l

pub UpTo-mono : (m k : ℕ) (l : List Log) → m ≤ k → UpTo m l → UpTo k l
UpTo-mono m k [] h u = tt
UpTo-mono m k (a ∷ l) h u = (omega arith, UpTo-mono m k l h u.1)

pub UpTo-append : (m : ℕ) (l r : List Log) → UpTo m l → UpTo m r → UpTo m (l ++ r)
UpTo-append m [] r u v = v
UpTo-append m (a ∷ l) r u v = (u.0, UpTo-append m l r u.1 v)

pub UpTo-left : (m : ℕ) (l r : List Log) → UpTo m (l ++ r) → UpTo m l
UpTo-left m [] r u = tt
UpTo-left m (a ∷ l) r u = (u.0, UpTo-left m l r u.1)

pub UpTo-right : (m : ℕ) (l r : List Log) → UpTo m (l ++ r) → UpTo m r
UpTo-right m [] r u = u
UpTo-right m (a ∷ l) r u = UpTo-right m l r u.1

UpTo-insert :
    (m : ℕ) (a : Log) (l : List Log) → a.commit_id ≤ m → UpTo m l → UpTo m (insert_log a l)
unfolding insert_log
UpTo-insert m a [] h u = (h, tt)
UpTo-insert m a (b ∷ l) h u = elim (Bool-cases (ltb b.commit_id a.commit_id)) [
  | inl e ↦ rw e (u.0, UpTo-insert m a l h u.1)
  | inr e ↦ rw e (h, u)
]

UpTo-sort : (m : ℕ) (l : List Log) → UpTo m l → UpTo m (sort_logs l)
unfolding sort_logs
UpTo-sort m [] u = tt
UpTo-sort m (a ∷ l) u = UpTo-insert m a (sort_logs l) u.0 (UpTo-sort m l u.1)

insert-last :
    (m : ℕ) (x : Log) (l : List Log) → UpTo m l → m < x.commit_id → insert_log x l ≡ l ++ (x ∷ [])
unfolding insert_log
insert-last m x [] u h = refl
insert-last m x (b ∷ l) u h =
    let e : ltb b.commit_id x.commit_id ≡ true = ground arith in
    rw e (ap (λ (r : List Log). b ∷ r) (insert-last m x l u.1 h))

insert-append :
    (a x : Log) (l : List Log)
    → a.commit_id < x.commit_id
    → insert_log a (l ++ (x ∷ [])) ≡ insert_log a l ++ (x ∷ [])
unfolding insert_log
insert-append a x [] h = let e : ltb x.commit_id a.commit_id ≡ false = ground arith in rw e
insert-append a x (b ∷ l) h = elim (Bool-cases (ltb b.commit_id a.commit_id)) [
  | inl e ↦ rw e (ap (λ (r : List Log). b ∷ r) (insert-append a x l h))
  | inr e ↦ rw e
]

-- An entry with a larger number than all others comes last, wherever it stood.
pub sort-append :
    (m : ℕ) (x : Log) (l r : List Log)
    → UpTo m (l ++ r)
    → m < x.commit_id
    → sort_logs (l ++ (x ∷ r)) ≡ sort_logs (l ++ r) ++ (x ∷ [])
unfolding sort_logs
sort-append m x [] r u h = insert-last m x (sort_logs r) (UpTo-sort m r u) h
sort-append m x (a ∷ l) r u h =
    ap (insert_log a) (sort-append m x l r u.1 h)
    ∙ insert-append a x (sort_logs (l ++ r)) (omega arith)

length-insert : (a : Log) (l : List Log) → length (insert_log a l) ≡ suc (length l)
unfolding insert_log
length-insert a [] = refl
length-insert a (b ∷ l) = elim (Bool-cases (ltb b.commit_id a.commit_id)) [
  | inl e ↦ rw e (ap suc (length-insert a l))
  | inr e ↦ rw e
]

pub length-sort : (l : List Log) → length (sort_logs l) ≡ length l
unfolding sort_logs
length-sort [] = refl
length-sort (a ∷ l) = length-insert a (sort_logs l) ∙ ap suc (length-sort l)

-- The loop over a list with one more entry at its end.
pub check_logs-append :
    (r id : ℕ) (l : List Log) (x : Log) (rs rs' rs'' : List Record)
    → check_logs r id l rs ≡ some rs'
    → check_log r (id + length l) x rs' ≡ some rs''
    → check_logs r id (l ++ (x ∷ [])) rs ≡ some rs''
unfolding check_logs
check_logs-append r id [] x rs rs' rs'' h k =
    let start : rs ≡ rs' = ground arith in
    let e : check_log r id x rs ≡ some rs'' =
      ap (λ (i : ℕ). check_log r i x rs) (omega arith) ∙ ap (check_log r (id + 0) x) start ∙ k in
    rw (e, check_logs)
check_logs-append r id (a ∷ l) x rs rs' rs'' h k = elim (Option-cases (check_log r id a rs)) [
  | inl e ↦ absurd (no_rest (rw (e, check_logs) at h))
  | inr (mid, e) ↦
      rw (e, check_logs)
        (check_logs-append r (id + 1) l x mid rs' rs'' (rw (e, check_logs) at h)
          (ap (λ (i : ℕ). check_log r i x rs') (omega arith) ∙ k))
]
  where
    no_rest : none ≡ some rs' → ⊥
    no_rest q = cc
