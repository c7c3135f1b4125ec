-- ===== src/Lab11/CoarseList/Workload/Decimal.antt =====
-- Decimal numerals as fscanf of `%d` reads them, for lab11/coarse_grained.cpp.
use ite.Base.{
  ℕ, zero, suc, ◌+◌, ◌-◌, ◌*◌, ◌/◌, ◌%◌, ◌≡◌, ◌≤◌, ◌<◌, refl, true, false, some, List, ◌∷◌, ◌==◌,
  if◌then◌else◌, ltb, leb, arith, ap, ◌∙◌, sym, Bool-cases, inl, inr,
}
use mathlib.Core.Path.{subst}
use ite.Lab11.CoarseList.Workload.{
  int_zero, is_blank, is_digit, skip, read_digits, scan_digits, positive, negative, scan_signed,
  scan_int,
}

-- The digits of `n` before `acc`, with enough fuel.
unfoldable pub show_digits : ℕ → ℕ → List ℕ → List ℕ
show_digits zero n acc = acc
show_digits (suc fuel) n acc =
    let more = show_digits fuel (n / 10) ((48 + n % 10) ∷ acc) in
    if ltb n 10 then (48 + n % 10) ∷ acc else more

abbrev pub show_nat : ℕ → List ℕ → List ℕ
show_nat n acc = show_digits (suc n) n acc

abbrev pub show_int : ℕ → List ℕ → List ℕ
show_int v acc =
    if leb int_zero v then show_nat (v - int_zero) acc else 45 ∷ show_nat (int_zero - v) acc

digit-is_digit : (n : ℕ) → is_digit (48 + n % 10) ≡ true
digit-is_digit n = both (48 + n % 10) (omega arith) (omega arith)
  where
    both : (c : ℕ) → 48 ≤ c → c < 58 → is_digit c ≡ true
    both c a b = ground arith

read_digits-cons :
    (m n : ℕ) (acc : List ℕ)
    → read_digits m ((48 + n % 10) ∷ acc) ≡ read_digits (m * 10 + n % 10) acc
unfolding read_digits
read_digits-cons m n acc = rw (digit-is_digit n) (ap (λ (k : ℕ). read_digits k acc) (omega arith))

read-show_digits :
    (fuel n : ℕ) (acc : List ℕ)
    → n < fuel
    → read_digits 0 (show_digits fuel n acc) ≡ read_digits n acc
unfolding show_digits
read-show_digits zero n acc h = absurd (omega (arith, h))
read-show_digits (suc fuel) n acc h = elim (Bool-cases (ltb n 10)) [
  | inl small ↦
      let e : 0 * 10 + n % 10 ≡ n = last small in
      rw small (read_digits-cons 0 n acc ∙ ap (λ (k : ℕ). read_digits k acc) e)
  | inr large ↦ rw large (
      read-show_digits fuel (n / 10) ((48 + n % 10) ∷ acc) (less large)
      ∙ read_digits-cons (n / 10) n acc
      ∙ ap (λ (k : ℕ). read_digits k acc) (omega arith))
]
  where
    last : ltb n 10 ≡ true → 0 * 10 + n % 10 ≡ n
    last small = let lt : n < 10 = ground arith in omega (arith, lt)

    less : ltb n 10 ≡ false → n / 10 < fuel
    less large = let ge : 10 ≤ n = ground arith in omega (arith, ge, h)

-- A numeral begins with a digit.
show_digits-cons :
    (fuel n : ℕ) (acc : List ℕ)
    → n < fuel
    → (c : ℕ) × (cs : List ℕ) × (show_digits fuel n acc ≡ c ∷ cs) × (is_digit c ≡ true)
unfolding show_digits
show_digits-cons zero n acc h = absurd (omega (arith, h))
show_digits-cons (suc fuel) n acc h = elim (Bool-cases (ltb n 10)) [
  | inl small ↦ (48 + n % 10, acc, rw small refl, digit-is_digit n)
  | inr large ↦
      let (c, cs, e, d) = show_digits-cons fuel (n / 10) ((48 + n % 10) ∷ acc) (less large) in
      (c, cs, rw large e, d)
]
  where
    less : ltb n 10 ≡ false → n / 10 < fuel
    less large = let ge : 10 ≤ n = ground arith in omega (arith, ge, h)

-- What a numeral is followed by in the file.
abbrev pub Ends : List ℕ → Type 0
Ends acc = (n : ℕ) → read_digits n acc ≡ (n, acc)

abbrev Scans : (ℕ → ℕ) → ℕ → List ℕ → List ℕ → Type 0
Scans sign n acc cs = scan_digits sign cs ≡ (some (sign n), acc)

scan-show_nat : (sign : ℕ → ℕ) (n : ℕ) (acc : List ℕ) → Ends acc → Scans sign n acc (show_nat n acc)
unfolding scan_digits read_digits
scan-show_nat sign n acc ends =
    let (c, cs, e, d) = show_digits-cons (suc n) n acc (omega arith) in
    let read : read_digits 0 (c ∷ cs) ≡ (n, acc) =
      ap (read_digits 0) (sym e) ∙ read-show_digits (suc n) n acc (omega arith) ∙ ends n in
    subst (Scans sign n acc) (sym e) (begins c cs d read)
  where
    begins :
        (c : ℕ) (cs : List ℕ)
        → is_digit c ≡ true
        → read_digits 0 (c ∷ cs) ≡ (n, acc)
        → Scans sign n acc (c ∷ cs)
    begins c cs d read =
        let next = rw (read_digits, d) at read in
        rw d (ap (λ (r : ℕ × List ℕ). (some (sign r.0), r.1)) next)

not_blank : (c : ℕ) → is_digit c ≡ true → is_blank c ≡ false
not_blank c d = ground arith

skip-show_nat : (n : ℕ) (acc : List ℕ) → skip (show_nat n acc) ≡ show_nat n acc
unfolding skip
skip-show_nat n acc =
    let (c, cs, e, d) = show_digits-cons (suc n) n acc (omega arith) in
    subst (λ (l : List ℕ). skip l ≡ l) (sym e) (first c cs d)
  where
    first : (c : ℕ) (cs : List ℕ) → is_digit c ≡ true → skip (c ∷ cs) ≡ c ∷ cs
    first c cs d = let f = not_blank c d in rw (skip, f) refl

-- An int that is shown begins with no blank.
pub skip-show_int : (v : ℕ) (acc : List ℕ) → skip (show_int v acc) ≡ show_int v acc
unfolding skip
skip-show_int v acc = elim (Bool-cases (leb int_zero v)) [
  | inl above ↦ rw above (skip-show_nat (v - int_zero) acc)
  | inr below ↦ rw below refl
]

-- An int that is shown is scanned as this int, up to what follows.
pub scan-show_int : (v : ℕ) (acc : List ℕ) → Ends acc → scan_int (show_int v acc) ≡ (some v, acc)
unfolding scan_signed
scan-show_int v acc ends =
    ap scan_signed (skip-show_int v acc) ∙ elim (Bool-cases (leb int_zero v)) [
      | inl above ↦ rw above (unsigned (v - int_zero) ∙ ap (λ (n : ℕ). (some n, acc)) (up above))
      | inr below ↦ rw below (
          scan-show_nat negative (int_zero - v) acc ends
          ∙ ap (λ (n : ℕ). (some n, acc)) (down below))
    ]
  where
    up : leb int_zero v ≡ true → int_zero + (v - int_zero) ≡ v
    up above = let le : int_zero ≤ v = ground arith in omega (arith, le)

    down : leb int_zero v ≡ false → int_zero - (int_zero - v) ≡ v
    down below = let lt : v < int_zero = ground arith in omega (arith, lt)

    no_sign :
        (c : ℕ) (cs : List ℕ)
        → is_digit c ≡ true
        → scan_signed (c ∷ cs) ≡ scan_digits positive (c ∷ cs)
    no_sign c cs d =
        let minus : (c == 45) ≡ false = ground arith in
        let plus : (c == 43) ≡ false = ground arith in rw (minus, plus) refl

    unsigned : (n : ℕ) → scan_signed (show_nat n acc) ≡ (some (positive n), acc)
    unsigned n =
        let (c, cs, e, d) = show_digits-cons (suc n) n acc (omega arith) in
        ap scan_signed e
        ∙ no_sign c cs d
        ∙ ap (scan_digits positive) (sym e)
        ∙ scan-show_nat positive n acc ends
