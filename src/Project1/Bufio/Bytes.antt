-- ===== src/Project1/Bufio/Bytes.antt =====
-- Bytes taken, and bytes written over others, for project1/src/bufio.cpp.
use ite.Base.{ℕ, zero, suc, ◌+◌, ◌≡◌, ◌≤◌, refl, List, [], ◌∷◌, ◌++◌, length, arith, ap, ◌∙◌, sym}
use ite.Project1.Bufio.{take, drop, overwrite}

pub length-take : (n : ℕ) (xs : List ℕ) → n ≤ length xs → length (take n xs) ≡ n
length-take zero xs h = refl
length-take (suc n) [] h = absurd (omega arith)
length-take (suc n) (x ∷ xs) h = ap suc (length-take n xs (omega arith))

pub take_none : (xs : List ℕ) → xs ++ [] ≡ xs
take_none [] = refl
take_none (x ∷ xs) = ap (λ (l : List ℕ). x ∷ l) (take_none xs)

pub length-overwrite :
    (xs : List ℕ) (i : ℕ) (ys : List ℕ)
    → i + length ys ≤ length xs
    → length (overwrite xs i ys) ≡ length xs
length-overwrite xs i [] h = refl
length-overwrite [] zero (y ∷ ys) h = absurd (omega arith)
length-overwrite [] (suc i) (y ∷ ys) h = absurd (omega arith)
length-overwrite (x ∷ xs) zero (y ∷ ys) h = ap suc (length-overwrite xs zero ys (omega arith))
length-overwrite (x ∷ xs) (suc i) (y ∷ ys) h = ap suc (length-overwrite xs i (y ∷ ys) (omega arith))

pub overwrite-reaches :
    (xs : List ℕ) (i : ℕ) (ys : List ℕ) → i ≤ length xs → i + length ys ≤ length (overwrite xs i ys)
overwrite-reaches xs i [] h = omega arith
overwrite-reaches [] zero (y ∷ ys) h = omega arith
overwrite-reaches [] (suc i) (y ∷ ys) h = absurd (omega arith)
overwrite-reaches (x ∷ xs) zero (y ∷ ys) h =
    omega (arith, overwrite-reaches xs zero ys (omega arith))
overwrite-reaches (x ∷ xs) (suc i) (y ∷ ys) h =
    omega (arith, overwrite-reaches xs i (y ∷ ys) (omega arith))

take-length : (ys : List ℕ) → take (length ys) ys ≡ ys
take-length [] = refl
take-length (y ∷ ys) = ap (λ (l : List ℕ). y ∷ l) (take-length ys)

take_to : (a b : ℕ) (xs : List ℕ) → a ≡ b → take a xs ≡ take b xs
take_to a b xs e = ap (λ (n : ℕ). take n xs) e

-- Up to their end, bytes written over others are what stood before them, and they.
pub take-overwrite :
    (xs : List ℕ) (i : ℕ) (ys : List ℕ)
    → i ≤ length xs
    → take (i + length ys) (overwrite xs i ys) ≡ take i xs ++ ys
take-overwrite xs i [] h = take_to (i + 0) i xs (omega arith) ∙ sym (take_none (take i xs))
take-overwrite [] zero (y ∷ ys) h =
    take_to (0 + suc (length ys)) (suc (length ys)) (y ∷ ys) (omega arith)
    ∙ ap (λ (l : List ℕ). y ∷ l) (take-length ys)
take-overwrite [] (suc i) (y ∷ ys) h = absurd (omega arith)
take-overwrite (x ∷ xs) zero (y ∷ ys) h =
    take_to (0 + suc (length ys)) (suc (0 + length ys)) (y ∷ overwrite xs zero ys) (omega arith)
    ∙ ap (λ (l : List ℕ). y ∷ l) (take-overwrite xs zero ys (omega arith))
take-overwrite (x ∷ xs) (suc i) (y ∷ ys) h =
    take_to (suc i + suc (length ys)) (suc (i + suc (length ys))) (x ∷ overwrite xs i (y ∷ ys))
      (omega arith)
    ∙ ap (λ (l : List ℕ). x ∷ l) (take-overwrite xs i (y ∷ ys) (omega arith))

pub take-drop : (n : ℕ) (xs : List ℕ) → take n xs ++ drop n xs ≡ xs
take-drop zero xs = refl
take-drop (suc n) [] = refl
take-drop (suc n) (x ∷ xs) = ap (λ (l : List ℕ). x ∷ l) (take-drop n xs)

drop_none : (n : ℕ) → drop n [] ≡ []
drop_none zero = refl
drop_none (suc n) = refl

drop_to : (a b : ℕ) (xs : List ℕ) → a ≡ b → drop a xs ≡ drop b xs
drop_to a b xs e = ap (λ (n : ℕ). drop n xs) e

-- What two sequences have in common from a place on, they have from a later place on.
pub drop_further :
    (a b : ℕ) (xs ys : List ℕ) → drop a xs ≡ drop a ys → drop (a + b) xs ≡ drop (a + b) ys
drop_further a b xs ys e = sym (drop-drop a b xs) ∙ ap (drop b) e ∙ drop-drop a b ys
  where
    drop-drop : (a b : ℕ) (xs : List ℕ) → drop b (drop a xs) ≡ drop (a + b) xs
    drop-drop zero b xs = drop_to b (0 + b) xs (omega arith)
    drop-drop (suc a) b [] = drop_none b ∙ sym (drop_none (suc a + b))
    drop-drop (suc a) b (x ∷ xs) =
        drop-drop a b xs ∙ drop_to (suc (a + b)) (suc a + b) (x ∷ xs) (omega arith)

-- Behind their end, bytes written over others change nothing.
pub drop-overwrite :
    (xs : List ℕ) (i : ℕ) (ys : List ℕ)
    → i ≤ length xs
    → drop (i + length ys) (overwrite xs i ys) ≡ drop (i + length ys) xs
drop-overwrite xs i [] h = refl
drop-overwrite [] zero (y ∷ ys) h =
    drop_to (0 + suc (length ys)) (suc (length ys)) (y ∷ ys) (omega arith)
    ∙ over (length ys) ys refl
    ∙ sym (drop_none (0 + suc (length ys)))
  where
    over : (n : ℕ) (ys : List ℕ) → length ys ≡ n → drop n ys ≡ []
    over zero [] e = refl
    over zero (y ∷ ys) e = absurd (omega (arith, e))
    over (suc n) [] e = refl
    over (suc n) (y ∷ ys) e = over n ys (omega (arith, e))
drop-overwrite [] (suc i) (y ∷ ys) h = absurd (omega arith)
drop-overwrite (x ∷ xs) zero (y ∷ ys) h =
    drop_to (0 + suc (length ys)) (suc (0 + length ys)) (y ∷ overwrite xs zero ys) (omega arith)
    ∙ drop-overwrite xs zero ys (omega arith)
    ∙ drop_to (suc (0 + length ys)) (0 + suc (length ys)) (x ∷ xs) (omega arith)
drop-overwrite (x ∷ xs) (suc i) (y ∷ ys) h =
    drop_to (suc i + suc (length ys)) (suc (i + suc (length ys))) (x ∷ overwrite xs i (y ∷ ys))
      (omega arith)
    ∙ drop-overwrite xs i (y ∷ ys) (omega arith)
    ∙ drop_to (suc (i + suc (length ys))) (suc i + suc (length ys)) (x ∷ xs) (omega arith)
