-- ===== src/Lab11/LockFree/Hindsight.antt =====
-- What held at some time during a call of lab11/lockfree.cpp: its threads learn of the list only as it
-- was when they read it.
use ite.Base.{
  ℕ, ◌≡◌, ◌<◌, refl, Bool, true, false, ◌&&◌, arith, inl, inr, ◌⊎◌, sym, ap, ◌∙◌, ◌==◌, Bool-cases,
}
use mathlib.Core.Path.{subst}
use ite.Lab11.Nodes.{extend}
use ite.Lab11.CoarseList.{int_max}
use ite.Lab11.LockFree.{
  Pointer, Memory, Pc, idle, returned, System, new_system, Reach, start, later,
}
use ite.Lab11.LockFree.Order.{
  key_of, next_of, mark_of, IsLinked, InList, IsList, Absent, inner, InList-IsLinked,
  between-Absent, marked-Absent,
}
use ite.Lab11.LockFree.Actions.{Moves}
use ite.Lab11.LockFree.Runs.{Reach-Inv, step-Taken}

abbrev pub is_resting : Pc → Bool
is_resting idle = true
is_resting (returned type k result) = true
is_resting p = false

-- Whether a step of `u` begins a call of `t`.
abbrev pub is_begin : ℕ → ℕ → System → Bool
is_begin t u s = (u == t) && is_resting (s.threads u)

-- `P` holds of the memory now, or held earlier, after the last call of `t` began.
abbrev pub During : ℕ → (Memory → Type 0) → {s : System} → Reach s → Type 0
During t P {s} start = P s.memory
During t P {s = s'} (later {s} u w node reach keys fresh q) =
    P s'.memory ⊎ ((is_begin t u s ≡ false) × During t P reach)

pub now :
    (t : ℕ) (P : Memory → Type 0) {s : System} (reach : Reach s) → P s.memory → During t P reach
now t P start h = h
now t P (later u w node reach keys fresh q) h = inl h

pub During-map :
    (t : ℕ) (P Q : Memory → Type 0)
    → ((m : Memory) → P m → Q m)
    → {s : System} (reach : Reach s) → During t P reach
    → During t Q reach
During-map t P Q f start h = f new_system.memory h
During-map t P Q f (later u w node reach keys fresh q) (inl h) = inl (f _ h)
During-map t P Q f (later u w node reach keys fresh q) (inr (on, h)) =
    inr (on, During-map t P Q f reach h)

-- An earlier memory in which `x` stood in the list, with the pointer that it has now.
pub record Seen (m : Memory) (x : ℕ) (m0 : Memory) : Type 0 where
  pub list : IsList m0
  pub in_list : InList m0 x
  pub same_next : (m0.nodes x).next ≡ (m.nodes x).next
  pub same_keys : (y : ℕ) → IsLinked m0 y → key_of m y ≡ key_of m0 y
  pub still_linked : (y : ℕ) → IsLinked m0 y → IsLinked m y

Seen-now : (m : Memory) (x : ℕ) → IsList m → InList m x → Seen m x m
Seen-now m x list way = record {
  list = list;
  in_list = way;
  same_next = refl;
  same_keys = λ y _. refl;
  still_linked = λ y l. l;
}

Seen-later :
    (m m' : Memory) (x : ℕ) (m0 : Memory)
    → Moves m m'
    → mark_of m x ≡ true
    → Seen m x m0
    → Seen m' x m0
Seen-later m m' x m0 moves mark seen = record {
  list = seen.list;
  in_list = seen.in_list;
  same_next =
      seen.same_next
      ∙ sym
          (moves.frozen x (seen.still_linked x (InList-IsLinked m0 seen.list x seen.in_list)) mark);
  same_keys = λ y l. moves.key_same y (seen.still_linked y l) ∙ seen.same_keys y l;
  still_linked = λ y l. moves.linked_on y (seen.still_linked y l);
}

During-IsLinked :
    (t x : ℕ) {s : System} (reach : Reach s)
    → During t (λ m. InList m x) reach
    → IsLinked s.memory x
During-IsLinked t x start way = InList-IsLinked _ (Reach-Inv start).list x way
During-IsLinked t x (later u w node reach keys fresh q) (inl way) =
    InList-IsLinked _ (Reach-Inv (later u w node reach keys fresh q)).list x way
During-IsLinked t x (later u w node reach keys fresh q) (inr (on, h)) =
    (step-Taken u w node (Reach-Inv reach) keys fresh q).moved.moves.linked_on x
      (During-IsLinked t x reach h)

-- A node that stood in the list during the call stood there with the pointer that it has now.
pub hindsight :
    (t x : ℕ) {s : System} (reach : Reach s)
    → During t (λ m. InList m x) reach
    → During t (Seen s.memory x) reach
hindsight t x start way = Seen-now _ x (Reach-Inv start).list way
hindsight t x (later u w node reach keys fresh q) (inl way) =
    inl (Seen-now _ x (Reach-Inv (later u w node reach keys fresh q)).list way)
hindsight t x {s = s'} (later {s} u w node reach keys fresh q) (inr (on, h)) =
    let inv = Reach-Inv reach in
    let moves = (step-Taken u w node inv keys fresh q).moved.moves in
    elim (Bool-cases (mark_of s.memory x)) [
      | inl mark ↦ inr (
        on,
        During-map t (Seen s.memory x) (Seen s'.memory x)
            (λ m0. Seen-later s.memory s'.memory x m0 moves mark) reach (hindsight t x reach h),
      )
      | inr free ↦
          let l = During-IsLinked t x reach h in
          inl (Seen-now s'.memory x moves.list (moves.kept x (inv.list.on_way x l free) free))
    ]

-- The next node of the way stood in the list, too; a key between the two was absent at that time.
pub pass :
    (t x k : ℕ) {s : System} (reach : Reach s)
    → During t (λ m. InList m x) reach
    → key_of s.memory x < k
    → k < int_max
    → During t (λ m. InList m (next_of s.memory x)) reach
      × (k < key_of s.memory (next_of s.memory x) → During t (λ m. Absent m k) reach)
pass t x k {s} reach h lt ok =
    let seen = hindsight t x reach h in
    (
      During-map t (Seen s.memory x) (λ m. InList m (next_of s.memory x)) (λ m0 h. entered m0 h)
          reach seen,
      λ gt. During-map t (Seen s.memory x) (λ m. Absent m k) (λ m0 h. skipped m0 h gt) reach seen,
    )
  where
    key : (m0 : Memory) → Seen s.memory x m0 → key_of m0 x < k
    key m0 h = omega (arith, lt, h.same_keys x (InList-IsLinked m0 h.list x h.in_list))

    next : (m0 : Memory) → Seen s.memory x m0 → next_of m0 x ≡ next_of s.memory x
    next m0 h = ap (λ (p : Pointer). p.addr) h.same_next

    entered : (m0 : Memory) → Seen s.memory x m0 → InList m0 (next_of s.memory x)
    entered m0 h =
        subst (InList m0) (next m0 h)
          (extend (next_of m0) h.in_list (inner m0 h.list x k (key m0 h) ok))

    skipped :
        (m0 : Memory) → Seen s.memory x m0 → k < key_of s.memory (next_of s.memory x) → Absent m0 k
    skipped m0 h gt =
        let way = entered m0 h in
        let l = InList-IsLinked m0 h.list (next_of s.memory x) way in
        between-Absent m0 h.list x k h.in_list (key m0 h)
          (omega (arith, gt, h.same_keys (next_of s.memory x) l, ap (key_of m0) (next m0 h))) ok

-- A key is absent at some time of a call that saw its node and sees the mark on it.
pub marked :
    (t x : ℕ) {s : System} (reach : Reach s)
    → During t (λ m. InList m x) reach
    → mark_of s.memory x ≡ true
    → During t (λ m. Absent m (key_of s.memory x)) reach
marked t x {s} reach h mark =
    During-map t (Seen s.memory x) (λ m. Absent m (key_of s.memory x))
      (λ m0 h.
        subst (Absent m0) (sym (h.same_keys x (InList-IsLinked m0 h.list x h.in_list)))
          (marked-Absent m0 h.list x h.in_list (ap (λ (p : Pointer). p.marked) h.same_next ∙ mark)))
      reach (hindsight t x reach h)
