-- ===== src/Project3/Updates.antt =====
-- The registers over time: Snapshot::update and Snapshot::collect of project3/src/snapshot.cpp. Each
-- store is one step; a load of `collect` reads one register at one moment. A stamp is an int that
-- only grows by one with each update of its thread, and is taken to stay below 2^31.
use ite.Base.{
  ℕ, zero, suc, ◌+◌, ◌-◌, ◌≡◌, ◌≤◌, ◌<◌, refl, Option, none, some, List, [], ◌∷◌, ◌⊎◌, inl, inr,
  arith, get_or, set, length, length-set, replicate, ap, ◌∙◌, sym, get_or-set_self, get_or-set_ne,
  ◌==◌, Bool-cases, ltb,
}
use mathlib.Core.Path.{subst}
use ite.Project3.Scan.{StampedValue, initial_value, new_registers}

-- `me` updates its register with `value` and with the snapshot that it has scanned.
pub record Update : Type 0 where
  pub me : ℕ
  pub value : ℕ
  pub snap : List ℕ

-- The load of the old value and the store of the new one; nobody else stores to this register.
unfoldable pub update : Update → List StampedValue → List StampedValue
update u registers =
    let old_value = get_or registers (u.me - 1) initial_value in
    set registers (u.me - 1)
      (record { stamp = old_value.stamp + 1; value = u.value; snap = some u.snap })

abbrev pub update_if : Option Update → List StampedValue → List StampedValue
update_if none registers = registers
update_if (some u) registers = update u registers

-- The registers at each moment: at moment `t` either nothing or one store happens.
unfoldable pub registers_at : ℕ → (ℕ → Option Update) → ℕ → List StampedValue
registers_at capacity stores zero = new_registers capacity
registers_at capacity stores (suc t) = update_if (stores t) (registers_at capacity stores t)

abbrev pub register : ℕ → (ℕ → Option Update) → ℕ → ℕ → StampedValue
register capacity stores t i = get_or (registers_at capacity stores t) i initial_value

-- A copy of the registers from `i` on, register `j` loaded at the moment `at j`.
unfoldable pub collect_from : ℕ → ℕ → (ℕ → List StampedValue) → (ℕ → ℕ) → List StampedValue
collect_from i zero memory at = []
collect_from i (suc n) memory at =
    get_or (memory (at i)) i initial_value ∷ collect_from (i + 1) n memory at

unfoldable pub collect : ℕ → (ℕ → List StampedValue) → (ℕ → ℕ) → List StampedValue
unfolding collect_from
collect capacity memory at = collect_from 0 capacity memory at

pub length-collect :
    (capacity : ℕ) (memory : ℕ → List StampedValue) (at : ℕ → ℕ)
    → length (collect capacity memory at) ≡ capacity
unfolding collect
length-collect capacity memory at = go 0 capacity
  where
    go : (i n : ℕ) → length (collect_from i n memory at) ≡ n
    go i zero = refl
    go i (suc n) = ap suc (go (i + 1) n)

get_or-collect_from :
    (i n k : ℕ) (memory : ℕ → List StampedValue) (at : ℕ → ℕ)
    → k < n
    → get_or (collect_from i n memory at) k initial_value
      ≡ get_or (memory (at (i + k))) (i + k) initial_value
unfolding collect_from
get_or-collect_from i zero k memory at h = absurd (omega arith)
get_or-collect_from i (suc n) zero memory at h =
    ap (λ (j : ℕ). get_or (memory (at j)) j initial_value) (omega arith)
get_or-collect_from i (suc n) (suc k) memory at h =
    get_or-collect_from (i + 1) n k memory at (omega arith)
    ∙ ap (λ (j : ℕ). get_or (memory (at j)) j initial_value) (omega arith)

pub get_or-collect :
    (capacity k : ℕ) (memory : ℕ → List StampedValue) (at : ℕ → ℕ)
    → k < capacity
    → get_or (collect capacity memory at) k initial_value ≡ get_or (memory (at k)) k initial_value
unfolding collect
get_or-collect capacity k memory at h =
    get_or-collect_from 0 capacity k memory at h
    ∙ ap (λ (j : ℕ). get_or (memory (at j)) j initial_value) (omega arith)

pub length-registers_at :
    (capacity : ℕ) (stores : ℕ → Option Update) (t : ℕ)
    → length (registers_at capacity stores t) ≡ capacity
unfolding registers_at update
length-registers_at capacity stores zero = go capacity
  where
    go : (n : ℕ) → length (replicate n initial_value) ≡ n
    go zero = refl
    go (suc n) = ap suc (go n)
length-registers_at capacity stores (suc t) =
    by_store (stores t) (length-registers_at capacity stores t)
  where
    by_store :
        (o : Option Update)
        → length (registers_at capacity stores t) ≡ capacity
        → length (update_if o (registers_at capacity stores t)) ≡ capacity
    by_store none h = h
    by_store (some u) h = length-set (registers_at capacity stores t) (u.me - 1) _ ∙ h

-- A store has raised the stamp by one and left a snapshot.
abbrev pub Stored : StampedValue → StampedValue → Type 0
Stored a b = (b.stamp ≡ a.stamp + 1) × ((snap : List ℕ) × (b.snap ≡ some snap))

update-register :
    (u : Update) (registers : List StampedValue) (i : ℕ)
    → (get_or (update u registers) i initial_value ≡ get_or registers i initial_value)
      ⊎ Stored (get_or registers i initial_value) (get_or (update u registers) i initial_value)
unfolding update
update-register u registers i = elim (Bool-cases (u.me - 1 == i)) [
  | inr other ↦ inl (get_or-set_ne registers (u.me - 1) i _ initial_value (ground arith))
  | inl same ↦ elim (Bool-cases (ltb (u.me - 1) (length registers))) [
    | inl inside ↦
        let q : u.me - 1 ≡ i = ground arith in
        let e =
          get_or-set_self registers (u.me - 1)
            (record {
              stamp = (get_or registers (u.me - 1) initial_value).stamp + 1;
              value = u.value;
              snap = some u.snap;
            })
            initial_value (ground arith) in
        inr (
          subst
            (λ (k : ℕ). Stored (get_or registers k initial_value) (
              get_or
                (set registers (u.me - 1) (record {
                  stamp = (get_or registers (u.me - 1) initial_value).stamp + 1;
                  value = u.value;
                  snap = some u.snap;
                }))
                k initial_value))
            q (ground (arith, e), (u.snap, ground (arith, e))))
    | inr outside ↦ inl (rw (set-out registers (u.me - 1) _ (ground arith)))
  ]
]
  where
    set-out : (l : List StampedValue) (k : ℕ) (v : StampedValue) → length l ≤ k → set l k v ≡ l
    set-out [] k v h = refl
    set-out (x ∷ l) zero v h = absurd (omega arith)
    set-out (x ∷ l) (suc k) v h =
        ap (λ (m : List StampedValue). x ∷ m) (set-out l k v (omega arith))

-- Between two moments a register is the same, or has a larger stamp and a snapshot.
abbrev pub Later : StampedValue → StampedValue → Type 0
Later a b = (b ≡ a) ⊎ ((a.stamp < b.stamp) × ((snap : List ℕ) × (b.snap ≡ some snap)))

Later-trans : (a b c : StampedValue) → Later a b → Later b c → Later a c
Later-trans a b c (inl e) (inl f) = inl (f ∙ e)
Later-trans a b c (inl e) (inr g) = inr (ground arith, g.1)
Later-trans a b c (inr g) (inl f) = let (snap, q) = g.1 in inr (ground arith, (snap, ground arith))
Later-trans a b c (inr g) (inr h) = inr (omega arith, h.1)

module _ (capacity : ℕ) (stores : ℕ → Option Update) (i : ℕ) where
  register-next :
      (t : ℕ) → Later (register capacity stores t i) (register capacity stores (suc t) i)
  unfolding registers_at
  register-next t = by_store (stores t)
    where
      by_store :
          (o : Option Update)
          → Later
              (register capacity stores t i)
              (get_or (update_if o (registers_at capacity stores t)) i initial_value)
      by_store none = inl refl
      by_store (some u) = elim (update-register u (registers_at capacity stores t) i) [
        | inl same ↦ inl same
        | inr (more, snap) ↦ inr (omega arith, snap)
      ]

  register-plus :
      (t d : ℕ) → Later (register capacity stores t i) (register capacity stores (t + d) i)
  register-plus t zero = inl (ap (λ (m : ℕ). register capacity stores m i) (omega arith))
  register-plus t (suc d) =
      subst (λ (m : ℕ). Later (register capacity stores t i) (register capacity stores m i))
        (omega arith)
        (Later-trans (register capacity stores t i) (register capacity stores (t + d) i)
          (register capacity stores (suc (t + d)) i) (register-plus t d) (register-next (t + d)))

  pub register-Later :
      (t u : ℕ) → t ≤ u → Later (register capacity stores t i) (register capacity stores u i)
  register-Later t u h =
      subst (λ (m : ℕ). Later (register capacity stores t i) (register capacity stores m i))
        (omega arith) (register-plus t (u - t))

  -- Equal stamps at two moments: the register has not changed between them.
  pub register-same :
      (t m u : ℕ)
      → t ≤ m
      → m ≤ u
      → (register capacity stores t i).stamp ≡ (register capacity stores u i).stamp
      → register capacity stores m i ≡ register capacity stores u i
  register-same t m u h k e = elim (register-Later m u k) [
    | inl same ↦ sym same
    | inr (grew, snap) ↦ elim (register-Later t m h) [
      | inl same ↦ absurd (omega (arith, ap (λ (v : StampedValue). v.stamp) same))
      | inr (grew', snap') ↦ absurd (omega arith)
    ]
  ]
