-- ===== src/Lab11/Nodes.antt =====
-- The linked nodes of lab11/fine_grained.cpp, optimistic.cpp and lockfree.cpp: the sentinels of
-- `list_init`, and the way along the `next` pointers.
use ite.Base.{
  ℕ, ◌≡◌, ◌≢◌, ◌<◌, ◌≤◌, Bool, true, arith, inl, inr, ◌⊎◌, sym, ap, ◌∙◌, ◌==◌, Bool-cases,
}
use mathlib.Core.Path.{subst}

-- An address is a number. No block has the address NULL; the first two blocks are the sentinels.
abbrev pub null : ℕ
null = 0

abbrev pub head : ℕ
head = 1

abbrev pub tail : ℕ
tail = 2

-- The pointers lead from one node to the other, and not behind `tail`.
pub data Reaches (next : ℕ → ℕ) : ℕ → ℕ → Type 0 where
  arrived : {a b : ℕ} → a ≡ b → Reaches next a b
  onward : {a b : ℕ} → a ≢ tail → Reaches next (next a) b → Reaches next a b

pub extend : (next : ℕ → ℕ) {a b : ℕ} → Reaches next a b → b ≢ tail → Reaches next a (next b)
extend next (arrived e) ne = onward (λ q. ne (sym e ∙ q)) (arrived (ap next e))
extend next (onward go way) ne = onward go (extend next way ne)

-- Of two nodes on the way from a third, one is on the way from the other.
pub linear :
    (next : ℕ → ℕ) {a x y : ℕ}
    → Reaches next a x
    → Reaches next a y
    → Reaches next x y ⊎ Reaches next y x
linear next {a} {x} {y} (arrived e) other = inl (subst (λ z. Reaches next z y) e other)
linear next {a} {x} {y} (onward go way) (arrived e) =
    inr (subst (λ z. Reaches next z x) e (onward go way))
linear next (onward go way) (onward _ other) = linear next way other

-- `long` goes from `prev` over `mid` to the successor of `prev` in `short`, and is the same elsewhere.
pub record Detour (short long : ℕ → ℕ) (prev mid : ℕ) : Type 0 where
  pub apart : (x : ℕ) → prev ≢ x → long x ≡ short x
  pub enter : long prev ≡ mid
  pub leave : long mid ≡ short prev
  pub mid_inner : mid ≢ tail

module _ (short long : ℕ → ℕ) (prev mid : ℕ) (detour : Detour short long prev mid) where
  pub lengthen : {a b : ℕ} → Reaches short a b → Reaches long a b
  lengthen (arrived e) = arrived e
  lengthen {a} {b} (onward go way) = elim (Bool-cases (prev == a)) [
    | inl same ↦
        let e : prev ≡ a = ground arith in
        let over : long (long a) ≡ short a =
          ap (λ x. long (long x)) (sym e) ∙ ap long detour.enter ∙ detour.leave ∙ ap short e in
        onward go (
          onward (λ q. detour.mid_inner (sym detour.enter ∙ ap long e ∙ q))
            (subst (λ x. Reaches long x b) (sym over) (lengthen way)))
    | inr other ↦
        onward go
          (subst (λ x. Reaches long x b) (sym (detour.apart a (ground arith))) (lengthen way))
  ]

  pub shorten : {a b : ℕ} → Reaches long a b → b ≢ mid → Reaches short a b
  shorten (arrived e) ne = arrived e
  shorten {a} {b} (onward go (arrived q)) ne = elim (Bool-cases (prev == a)) [
    | inl same ↦
        let e : prev ≡ a = ground arith in absurd (ne (sym q ∙ ap long (sym e) ∙ detour.enter))
    | inr other ↦ onward go (arrived (sym (detour.apart a (ground arith)) ∙ q))
  ]
  shorten {a} {b} (onward go (onward inner way)) ne = elim (Bool-cases (prev == a)) [
    | inl same ↦
        let e : prev ≡ a = ground arith in
        onward go (
          subst (λ x. Reaches short x b)
            (ap (λ x. long (long x)) (sym e) ∙ ap long detour.enter ∙ detour.leave ∙ ap short e)
            (shorten way ne))
    | inr other ↦ onward go (
        subst (λ x. Reaches short x b) (detour.apart a (ground arith))
          (shorten (onward inner way) ne))
  ]

-- The linked nodes are in the order of their keys.
abbrev pub IsSorted : (ℕ → Bool) → (ℕ → ℕ) → (ℕ → ℕ) → Type 0
IsSorted linked key next =
    (x : ℕ) → linked x ≡ true → x ≢ tail → (linked (next x) ≡ true) × (key x < key (next x))

module _ (linked : ℕ → Bool) (key next : ℕ → ℕ) (sorted : IsSorted linked key next) where
  pub Reaches-linked :
      {a b : ℕ}
      → Reaches next a b
      → linked a ≡ true
      → (linked b ≡ true) × ((a ≡ b) ⊎ (key a < key b))
  Reaches-linked (arrived e) l = (ap linked (sym e) ∙ l, inl e)
  Reaches-linked {a} {b} (onward go way) l =
      let (there, lt) = sorted a l go in
      let (at_end, rest) = Reaches-linked way there in
      (
        at_end,
        elim rest [
          | inl e ↦ inr (subst (λ z. key a < key z) e lt)
          | inr more ↦ inr (omega (arith, lt, more))
        ],
      )

  -- A change of pointers elsewhere keeps the way from a linked node.
  pub Reaches-same :
      (next' : ℕ → ℕ)
      → ((x : ℕ) → linked x ≡ true → next' x ≡ next x)
      → {a b : ℕ} → linked a ≡ true
      → Reaches next a b
      → Reaches next' a b
  Reaches-same next' same l (arrived e) = arrived e
  Reaches-same next' same {a} {b} l (onward go way) = onward go (
      subst (λ x. Reaches next' x b) (sym (same a l))
        (Reaches-same next' same (sorted a l go).0 way))

  -- Two nodes of the list with the same key are the same.
  pub same_key :
      {a x y : ℕ} → linked a ≡ true → Reaches next a x → Reaches next a y → key x ≡ key y → x ≡ y
  same_key la to_x to_y e = elim (linear next to_x to_y) [
    | inl way ↦ elim (Reaches-linked way (Reaches-linked to_x la).0).1 [
      | inl q ↦ q
      | inr lt ↦ absurd (omega (arith, e, lt))
    ]
    | inr way ↦ elim (Reaches-linked way (Reaches-linked to_y la).0).1 [
      | inl q ↦ sym q
      | inr lt ↦ absurd (omega (arith, e, lt))
    ]
  ]

  -- No node of the list has a key between the keys of two neighbours.
  pub gap :
      {a x y : ℕ}
      → linked a ≡ true
      → Reaches next a x
      → x ≢ tail
      → Reaches next a y
      → key x < key y
      → key (next x) ≤ key y
  gap {a} {x} {y} la to_x inner to_y lt = elim (linear next to_x to_y) [
    | inl (arrived e) ↦ absurd (omega (arith, ap key e, lt))
    | inl (onward go way) ↦
        elim (Reaches-linked way (sorted x (Reaches-linked to_x la).0 inner).0).1 [
          | inl q ↦ omega (arith, ap key q)
          | inr more ↦ omega (arith, more)
        ]
    | inr way ↦ elim (Reaches-linked way (Reaches-linked to_y la).0).1 [
      | inl q ↦ absurd (omega (arith, ap key q, lt))
      | inr more ↦ absurd (omega (arith, more, lt))
    ]
  ]
