-- ===== src/Lab11/LockFree/Actions.antt =====
-- What each write of lab11/lockfree.cpp does to the list: the CAS that links a node, the one that sets
-- a mark, the one that takes a marked node out, and the writes to a node that is not linked.
use ite.Base.{ℕ, ◌≡◌, ◌≢◌, refl, true, false, sym, ap, ◌∙◌, ◌↔◌, at_change}
use ite.Lab11.Nodes.{head, tail}
use ite.Lab11.Chain.Alike.{
  Alike, alike_on, alike_back, alike_forward, alike_backward, alike-IsChain,
}
use ite.Lab11.LockFree.{Pointer, Node, Memory, set_next}
use ite.Lab11.LockFree.Order.{
  key_of, next_of, mark_of, IsLinked, InList, IsList, Member, InList-IsLinked,
}

-- What every step keeps of the nodes that are linked.
pub record Moves (m m' : Memory) : Type 0 where
  pub list : IsList m'
  pub linked_on : (x : ℕ) → IsLinked m x → IsLinked m' x
  pub key_same : (x : ℕ) → IsLinked m x → key_of m' x ≡ key_of m x
  pub frozen : (x : ℕ) → IsLinked m x → mark_of m x ≡ true → (m'.nodes x).next ≡ (m.nodes x).next
  pub kept : (x : ℕ) → InList m x → mark_of m x ≡ false → InList m' x

abbrev pub SameMembers : Memory → Memory → Type 0
SameMembers m m' = (k : ℕ) → Member m' k ↔ Member m k

-- A step that touches no linked node.
pub record Neutral (m m' : Memory) : Type 0 where
  pub linked_same : (x : ℕ) → m'.linked x ≡ m.linked x
  pub nodes_same : (x : ℕ) → IsLinked m x → m'.nodes x ≡ m.nodes x
  pub alloc_on : (x : ℕ) → IsLinked m x → m'.allocated x ≡ true

module _ (m m' : Memory) (list : IsList m) (neutral : Neutral m m') where
  alike : Alike m.linked m'.linked (key_of m) (key_of m') (next_of m) (next_of m')
  alike = record {
    linked_same = neutral.linked_same;
    key_same = λ x l. ap (λ (n : Node). n.key) (neutral.nodes_same x l);
    next_same = λ x l. ap (λ (n : Node). n.next.addr) (neutral.nodes_same x l);
  }

  same_mark : (x : ℕ) → IsLinked m x → mark_of m' x ≡ mark_of m x
  same_mark x l = ap (λ (n : Node). n.next.marked) (neutral.nodes_same x l)

  forward : (x : ℕ) → InList m x → InList m' x
  forward x way = alike_forward list.chain alike head x list.chain.head_linked way

  pub Neutral-Moves : Moves m m'
  Neutral-Moves = record {
    list = record {
      chain = alike-IsChain list.chain alike;
      tail_mark = same_mark tail list.chain.tail_linked ∙ list.tail_mark;
      head_mark = same_mark head list.chain.head_linked ∙ list.head_mark;
      in_memory = λ x l. neutral.alloc_on x (alike_back list.chain alike x l);
      on_way = λ x l e.
          let lx = alike_back list.chain alike x l in
          forward x (list.on_way x lx (sym (same_mark x lx) ∙ e));
    };
    linked_on = alike_on list.chain alike;
    key_same = alike.key_same;
    frozen = λ x l _. ap (λ (n : Node). n.next) (neutral.nodes_same x l);
    kept = λ x way _. forward x way;
  }

  pub Neutral-SameMembers : SameMembers m m'
  Neutral-SameMembers k = (
    λ (x, way, mark, e).
        let old = alike_backward list.chain alike head x list.chain.head_linked way in
        let l = InList-IsLinked m list x old in
        (x, old, sym (same_mark x l) ∙ mark, sym (alike.key_same x l) ∙ e),
    λ (x, way, mark, e).
        let l = InList-IsLinked m list x way in
        (x, forward x way, same_mark x l ∙ mark, alike.key_same x l ∙ e),
  )

-- The nodes after a write of the `next` pointer at `a`.
module _ (m : Memory) (a : ℕ) (p : Pointer) where
  pub key-set_next : (x : ℕ) → key_of (set_next a p m) x ≡ key_of m x
  key-set_next x =
      at_change m.nodes a x (record (m.nodes a) { next = p }) (λ n. n.key ≡ key_of m x)
        (λ e. ap (key_of m) e) (λ _. refl)

  pub there-set_next : ((set_next a p m).nodes a).next ≡ p
  there-set_next =
      at_change m.nodes a a (record (m.nodes a) { next = p }) (λ n. n.next ≡ p) (λ _. refl)
        (λ ne. absurd (ne refl))

  pub apart-set_next : (x : ℕ) → a ≢ x → (set_next a p m).nodes x ≡ m.nodes x
  apart-set_next x ne =
      at_change m.nodes a x (record (m.nodes a) { next = p }) (λ n. n ≡ m.nodes x)
        (λ e. absurd (ne e)) (λ _. refl)
