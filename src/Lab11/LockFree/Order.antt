-- ===== src/Lab11/LockFree/Order.antt =====
-- What the shared memory of lab11/lockfree.cpp is in every reachable state: the linked nodes are in
-- order, and those without a mark are on the way from `head`.
use ite.Base.{ℕ, ◌≡◌, ◌≢◌, ◌<◌, refl, Bool, true, false, arith, inl, inr, sym, ap, ◌==◌, Bool-cases}
use ite.Lab11.Nodes.{head, tail, Reaches, arrived, onward, same_key}
use ite.Lab11.Chain as Chain
use ite.Lab11.Chain.{IsChain, InChain-linked}
use ite.Lab11.CoarseList.{int_max}
use ite.Lab11.LockFree.{Memory, list_init}

abbrev pub key_of : Memory → ℕ → ℕ
key_of m x = (m.nodes x).key

abbrev pub next_of : Memory → ℕ → ℕ
next_of m x = (m.nodes x).next.addr

abbrev pub mark_of : Memory → ℕ → Bool
mark_of m x = (m.nodes x).next.marked

abbrev pub IsLinked : Memory → ℕ → Type 0
IsLinked m x = m.linked x ≡ true

-- A node of the list: on the way from `head` along the pointers, marked or not.
abbrev pub InList : Memory → ℕ → Type 0
InList m x = Reaches (next_of m) head x

pub record IsList (m : Memory) : Type 0 where
  pub chain : IsChain m.linked (key_of m) (next_of m)
  pub tail_mark : mark_of m tail ≡ false
  pub head_mark : mark_of m head ≡ false
  pub in_memory : (x : ℕ) → IsLinked m x → m.allocated x ≡ true
  pub on_way : (x : ℕ) → IsLinked m x → mark_of m x ≡ false → InList m x

-- The set that the list stands for: the keys of its nodes without a mark.
abbrev pub Member : Memory → ℕ → Type 0
Member m k = (x : ℕ) × (InList m x) × (mark_of m x ≡ false) × (key_of m x ≡ k)

abbrev pub Absent : Memory → ℕ → Type 0
Absent m k = Member m k → ⊥

pub list_init-IsList : IsList list_init
unfolding list_init
list_init-IsList = record {
  chain = record {
    head_linked = refl;
    tail_linked = refl;
    head_key = refl;
    tail_key = refl;
    bounded = λ x l. elim (Bool-cases (x == head)) [
      | inl e ↦ rw (key_of, e) (omega arith)
      | inr e ↦ rw (key_of, e) (omega arith)
    ];
    sorted = λ x l ne. elim (Bool-cases (x == head)) [
      | inl e ↦ rw (next_of, key_of, e) (refl, omega arith)
      | inr e ↦ absurd (ground arith)
    ];
  };
  tail_mark = refl;
  head_mark = refl;
  in_memory = λ x l. l;
  on_way = λ x l e. elim (Bool-cases (x == head)) [
    | inl e ↦ arrived (ground arith)
    | inr e ↦ onward (omega arith) (arrived (ground arith))
  ];
}

module _ (m : Memory) (list : IsList m) where
  -- A linked node whose key is smaller than a key of the program is not `tail`.
  pub inner : (x k : ℕ) → key_of m x < k → k < int_max → x ≢ tail
  inner = Chain.inner m.linked (key_of m) (next_of m) list.chain

  pub InList-IsLinked : (x : ℕ) → InList m x → IsLinked m x
  InList-IsLinked = InChain-linked m.linked (key_of m) (next_of m) list.chain

  -- A key between those of two neighbours is absent.
  pub between-Absent :
      (x k : ℕ)
      → InList m x
      → key_of m x < k
      → k < key_of m (next_of m x)
      → k < int_max
      → Absent m k
  between-Absent x k way lt gt ok (y, to_y, no_mark, e) =
      let same =
        Chain.between m.linked (key_of m) (next_of m) list.chain x k way lt ok (omega (arith, gt))
          (y, to_y, e) in
      omega (arith, same, gt)

  -- A key is absent while the node with it bears a mark.
  pub marked-Absent : (x : ℕ) → InList m x → mark_of m x ≡ true → Absent m (key_of m x)
  marked-Absent x way mark (y, to_y, no_mark, e) =
      let q : x ≡ y =
        same_key m.linked (key_of m) (next_of m) list.chain.sorted list.chain.head_linked way to_y
          (sym e) in
      let f : mark_of m x ≡ mark_of m y = ap (mark_of m) q in ground arith
