-- ===== src/Lab11/Chain.antt =====
-- The lists of lab11/fine_grained.cpp and optimistic.cpp as chains of nodes in the order of their keys,
-- and what a node that comes in or goes out does to them.
use ite.Base.{
  ℕ, ◌≡◌, ◌≢◌, ◌<◌, ◌≤◌, refl, Bool, true, false, arith, inl, inr, ◌⊎◌, sym, ap, ◌∙◌, ◌==◌, ◌↔◌,
  Bool-cases,
}
use mathlib.Core.Path.{subst}
use ite.Lab11.Nodes.{
  head, tail, Reaches, extend, IsSorted, Reaches-linked, Detour, lengthen, shorten, same_key, gap,
}
use ite.Lab11.CoarseList.{int_min, int_max}
pub mod Alike

-- The nodes that are or were in the list are `linked`.
pub record IsChain (linked : ℕ → Bool) (key next : ℕ → ℕ) : Type 0 where
  pub head_linked : linked head ≡ true
  pub tail_linked : linked tail ≡ true
  pub head_key : key head ≡ int_min
  pub tail_key : key tail ≡ int_max
  pub bounded : (x : ℕ) → linked x ≡ true → key x ≤ int_max
  pub sorted : IsSorted linked key next

abbrev pub InChain : (ℕ → ℕ) → ℕ → Type 0
InChain next x = Reaches next head x

-- The set that the chain stands for; the keys of the sentinels are none of the program's.
abbrev pub HasKey : (ℕ → ℕ) → (ℕ → ℕ) → ℕ → Type 0
HasKey key next k = (x : ℕ) × (InChain next x) × (key x ≡ k)

module _ (linked : ℕ → Bool) (key next : ℕ → ℕ) (chain : IsChain linked key next) where
  pub inner : (x k : ℕ) → key x < k → k < int_max → x ≢ tail
  inner x k lt ok e = absurd (omega (arith, ap key e, chain.tail_key, lt))

  pub InChain-linked : (x : ℕ) → InChain next x → linked x ≡ true
  InChain-linked x way = (Reaches-linked linked key next chain.sorted way chain.head_linked).0

  -- Of two neighbours that a key is not below and not above, the second decides on the key.
  pub between :
      (x k : ℕ)
      → InChain next x
      → key x < k
      → k < int_max
      → k ≤ key (next x)
      → HasKey key next k
      → key (next x) ≡ k
  between x k way lt ok le (y, to_y, e) =
      let ge =
        gap linked key next chain.sorted chain.head_linked way (inner x k lt ok) to_y
          (omega (arith, e, lt)) in
      omega (arith, ge, e, le)

-- `node` comes in between `prev` and `curr`.
pub record Inserted (linked linked' : ℕ → Bool) (key key' next next' : ℕ → ℕ) (prev node curr : ℕ)
    : Type 0 where
  pub keys : (x : ℕ) → key' x ≡ key x
  pub apart : (x : ℕ) → prev ≢ x → next' x ≡ next x
  pub enter : next' prev ≡ node
  pub next_prev : next prev ≡ curr
  pub next_node : next node ≡ curr
  pub alone : linked node ≡ false
  pub linked_prev : linked prev ≡ true
  pub linked_curr : linked curr ≡ true
  pub above : key prev < key node
  pub below : key node < key curr
  pub links : (x : ℕ) → linked x ≡ true → linked' x ≡ true
  pub linked_node : linked' node ≡ true
  pub old : (x : ℕ) → linked' x ≡ true → (node ≡ x) ⊎ (linked x ≡ true)

module _ {linked linked' : ℕ → Bool} {key key' next next' : ℕ → ℕ} {prev node curr : ℕ}
    (chain : IsChain linked key next)
    (ins : Inserted linked linked' key key' next next' prev node curr) where
  node_apart : (x : ℕ) → linked x ≡ true → node ≢ x
  node_apart x l q = let e = ap linked q in let f = ins.alone in ground arith

  prev_inner : prev ≢ tail
  prev_inner e = absurd (
      omega
        (arith, ap key e, chain.tail_key, ins.above, ins.below, chain.bounded curr ins.linked_curr))

  after_node : next' node ≡ next node
  after_node = ins.apart node (λ q. node_apart prev ins.linked_prev (sym q))

  inserted-Detour : Detour next next' prev node
  inserted-Detour = record {
    apart = ins.apart;
    enter = ins.enter;
    leave = after_node ∙ ins.next_node ∙ sym ins.next_prev;
    mid_inner = node_apart tail chain.tail_linked;
  }

  pub insert-IsChain : IsChain linked' key' next'
  insert-IsChain = record {
    head_linked = ins.links head chain.head_linked;
    tail_linked = ins.links tail chain.tail_linked;
    head_key = ins.keys head ∙ chain.head_key;
    tail_key = ins.keys tail ∙ chain.tail_key;
    bounded = λ x l. elim (ins.old x l) [
      | inl e ↦ omega (arith, ins.keys x, ap key e, ins.below, chain.bounded curr ins.linked_curr)
      | inr k ↦ omega (arith, ins.keys x, chain.bounded x k)
    ];
    sorted = λ x l ne. elim (Bool-cases (prev == x)) [
      | inl same ↦
          let e : prev ≡ x = ground arith in
          let at : next' x ≡ node = sym (ap next' e) ∙ ins.enter in
          (
            ap linked' at ∙ ins.linked_node,
            omega (arith, ins.keys x, ins.keys (next' x), ap key at, ap key e, ins.above),
          )
      | inr differ ↦
          let at : next' x ≡ next x = ins.apart x (ground arith) in
          elim (ins.old x l) [
            | inl e ↦
                let there : next' x ≡ curr = at ∙ sym (ap next e) ∙ ins.next_node in
                (
                  ap linked' there ∙ ins.links curr ins.linked_curr,
                  omega (arith, ins.keys x, ins.keys (next' x), ap key there, ap key e, ins.below),
                )
            | inr k ↦
                let (there, lt) = chain.sorted x k ne in
                (
                  ap linked' at ∙ ins.links (next x) there,
                  omega (arith, ins.keys x, ins.keys (next' x), ap key at, lt),
                )
          ]
    ];
  }

  pub insert-InChain : (x : ℕ) → InChain next x → InChain next' x
  insert-InChain x way = lengthen next next' prev node inserted-Detour way

  pub insert-Reaches : (a x : ℕ) → linked x ≡ true → Reaches next' a x → Reaches next a x
  insert-Reaches a x l way =
      shorten next next' prev node inserted-Detour way (λ q. node_apart x l (sym q))

  pub insert_node : InChain next prev → InChain next' node
  insert_node at =
      subst (InChain next') ins.enter (extend next' (insert-InChain prev at) prev_inner)

  -- The key of the node was not in the set, and just this key comes to it.
  pub insert-absent : InChain next prev → HasKey key next (key node) → ⊥
  insert-absent way has =
      let eq =
        between linked key next chain prev (key node) way ins.above
          (omega (arith, ins.below, chain.bounded curr ins.linked_curr))
          (omega (arith, ins.below, ap key ins.next_prev)) has in
      omega (arith, eq, ins.below, ap key ins.next_prev)

  pub insert-HasKey :
      InChain next prev → (k : ℕ) → HasKey key' next' k ↔ (HasKey key next k ⊎ (k ≡ key node))
  insert-HasKey at k = (
    λ (x, way, e). elim (Bool-cases (node == x)) [
      | inl same ↦ let q : node ≡ x = ground arith in inr (sym e ∙ ins.keys x ∙ ap key (sym q))
      | inr differ ↦
          let ne : x ≢ node = λ q. ground arith in
          inl (x, shorten next next' prev node inserted-Detour way ne, sym (ins.keys x) ∙ e)
    ],
    λ h. elim h [
      | inl (x, way, e) ↦ (x, insert-InChain x way, ins.keys x ∙ e)
      | inr e ↦ (node, insert_node at, ins.keys node ∙ sym e)
    ],
  )

-- `curr` goes out from behind `prev`.
pub record Unlinked (linked : ℕ → Bool) (key key' next next' : ℕ → ℕ) (prev curr succ : ℕ)
    : Type 0 where
  pub keys : (x : ℕ) → key' x ≡ key x
  pub apart : (x : ℕ) → prev ≢ x → next' x ≡ next x
  pub enter : next' prev ≡ succ
  pub next_prev : next prev ≡ curr
  pub next_curr : next curr ≡ succ
  pub linked_prev : linked prev ≡ true
  pub linked_curr : linked curr ≡ true
  pub curr_inner : curr ≢ tail
  pub prev_inner : prev ≢ tail

module _ {linked : ℕ → Bool} {key key' next next' : ℕ → ℕ} {prev curr succ : ℕ}
    (chain : IsChain linked key next)
    (out : Unlinked linked key key' next next' prev curr succ) where
  unlinked-Detour : Detour next' next prev curr
  unlinked-Detour = record {
    apart = λ x ne. sym (out.apart x ne);
    enter = out.next_prev;
    leave = out.next_curr ∙ sym out.enter;
    mid_inner = out.curr_inner;
  }

  pub unlink-IsChain : IsChain linked key' next'
  unlink-IsChain = record {
    head_linked = chain.head_linked;
    tail_linked = chain.tail_linked;
    head_key = out.keys head ∙ chain.head_key;
    tail_key = out.keys tail ∙ chain.tail_key;
    bounded = λ x l. omega (arith, out.keys x, chain.bounded x l);
    sorted = λ x l ne. elim (Bool-cases (prev == x)) [
      | inl same ↦
          let e : prev ≡ x = ground arith in
          let (l1, lt1) = chain.sorted prev out.linked_prev out.prev_inner in
          let (l2, lt2) = chain.sorted curr out.linked_curr out.curr_inner in
          let at : next' x ≡ next curr = sym (ap next' e) ∙ out.enter ∙ sym out.next_curr in
          (
            ap linked at ∙ l2,
            omega (
              arith,
              out.keys x,
              out.keys (next' x),
              lt1,
              lt2,
              ap key at,
              ap key e,
              ap key out.next_prev,
            ),
          )
      | inr differ ↦
          let at : next' x ≡ next x = out.apart x (ground arith) in
          let (there, lt) = chain.sorted x l ne in
          (ap linked at ∙ there, omega (arith, out.keys x, out.keys (next' x), ap key at, lt))
    ];
  }

  pub unlink-InChain : (x : ℕ) → x ≢ curr → InChain next x → InChain next' x
  unlink-InChain x ne way = shorten next' next prev curr unlinked-Detour way ne

  pub unlink-Reaches : (a x : ℕ) → Reaches next' a x → Reaches next a x
  unlink-Reaches a x way = lengthen next' next prev curr unlinked-Detour way

  curr_in : InChain next prev → InChain next curr
  curr_in at = subst (InChain next) out.next_prev (extend next at out.prev_inner)

  -- The node is on the way no more.
  pub unlink-gone : InChain next prev → InChain next' curr → ⊥
  unlink-gone at way =
      let chain' = unlink-IsChain in
      let (l1, lt1) = chain.sorted prev out.linked_prev out.prev_inner in
      let (l2, lt2) = chain.sorted curr out.linked_curr out.curr_inner in
      let apart : prev ≢ curr = λ q. absurd (omega (arith, lt1, ap key q, ap key out.next_prev)) in
      let le =
        gap linked key' next' chain'.sorted chain'.head_linked (unlink-InChain prev apart at)
          out.prev_inner way
          (omega (arith, lt1, out.keys prev, out.keys curr, ap key out.next_prev)) in
      omega (
        arith,
        le,
        lt2,
        out.keys (next' prev),
        out.keys curr,
        ap key out.enter,
        ap key out.next_curr,
      )

  pub unlink-present : InChain next prev → HasKey key next (key curr)
  unlink-present at = (curr, curr_in at, refl)

  -- Just the key of the node goes out of the set.
  pub unlink-HasKey :
      InChain next prev → (k : ℕ) → HasKey key' next' k ↔ (HasKey key next k × (k ≢ key curr))
  unlink-HasKey at k = (
    λ (x, way, e).
        let old = unlink-Reaches head x way in
        let f = sym (out.keys x) ∙ e in
        (
          (x, old, f),
          λ q.
              let same =
                same_key linked key next chain.sorted chain.head_linked old (curr_in at) (f ∙ q) in
              unlink-gone at (subst (InChain next') same way),
        ),
    λ ((x, way, e), ne). (x, unlink-InChain x (λ q. ne (sym e ∙ ap key q)) way, out.keys x ∙ e),
  )
