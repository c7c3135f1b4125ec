-- ===== src/Lab11/LockFree/Linking.antt =====
-- The CAS of `list_add` in lab11/lockfree.cpp, which links a node between two neighbours.
use ite.Base.{
  ℕ, ◌≡◌, ◌≢◌, ◌<◌, refl, true, false, arith, inl, inr, ◌⊎◌, sym, ap, ◌∙◌, ◌==◌, ◌↔◌, Bool-cases,
  at_change,
}
use mathlib.Core.Path.{subst}
use ite.Lab11.Nodes.{head, tail}
use ite.Lab11.Chain.{
  Inserted, insert-IsChain, insert-InChain, insert-Reaches, insert-absent, insert_node,
}
use ite.Lab11.LockFree.{Pointer, Node, Memory, unmarked, link}
use ite.Lab11.LockFree.Order.{
  key_of, next_of, mark_of, IsLinked, InList, IsList, Member, Absent, InList-IsLinked,
}
use ite.Lab11.LockFree.Actions.{Moves, key-set_next, there-set_next, apart-set_next}
use ite.Lab11.LockFree.Writes.{at_set_next, marks_differ}

-- A node that a thread has filled in for the place behind `prev`.
pub record Fits (m : Memory) (node prev curr : ℕ) : Type 0 where
  pub alone : m.linked node ≡ false
  pub owned : m.allocated node ≡ true
  pub leads : (m.nodes node).next ≡ unmarked curr
  pub linked_prev : IsLinked m prev
  pub linked_curr : IsLinked m curr
  pub above : key_of m prev < key_of m node
  pub below : key_of m node < key_of m curr

module _ (m : Memory) (list : IsList m) (prev node curr : ℕ) (fits : Fits m node prev curr)
    (next_prev : next_of m prev ≡ curr) (mark_prev : mark_of m prev ≡ false) where
  abbrev longer : Memory
  longer = link prev node m

  apart : (x : ℕ) → IsLinked m x → node ≢ x
  apart x l q = let e = ap m.linked q in let f = fits.alone in ground arith

  longer-mark : (x : ℕ) → mark_of longer x ≡ mark_of m x
  longer-mark x =
      at_set_next m prev (unmarked node) x (λ p. p.marked ≡ mark_of m x)
        (λ e. sym (sym (ap (mark_of m) e) ∙ mark_prev)) (λ _. refl)

  ins :
      Inserted m.linked longer.linked
        (key_of m)
        (key_of longer)
        (next_of m)
        (next_of longer)
        prev
        node
        curr
  ins = record {
    keys = key-set_next m prev (unmarked node);
    apart = λ x ne. ap (λ (n : Node). n.next.addr) (apart-set_next m prev (unmarked node) x ne);
    enter = ap (λ (p : Pointer). p.addr) (there-set_next m prev (unmarked node));
    next_prev = next_prev;
    next_node = ap (λ (p : Pointer). p.addr) fits.leads;
    alone = fits.alone;
    linked_prev = fits.linked_prev;
    linked_curr = fits.linked_curr;
    above = fits.above;
    below = fits.below;
    links = λ x l. at_change m.linked node x true (λ b. b ≡ true) (λ _. refl) (λ _. l);
    linked_node =
        at_change m.linked node node true (λ b. b ≡ true) (λ _. refl) (λ ne. absurd (ne refl));
    old = λ x l.
        at_change m.linked node x true (λ b. b ≡ true → (node ≡ x) ⊎ IsLinked m x) (λ e _. inl e)
          (λ _ h. inr h) l;
  }

  prev_in : InList m prev
  prev_in = list.on_way prev fits.linked_prev mark_prev

  long : (x : ℕ) → InList m x → InList longer x
  long x way = insert-InChain list.chain ins x way

  pub link-Moves : Moves m longer
  link-Moves = record {
    list = record {
      chain = insert-IsChain list.chain ins;
      tail_mark = longer-mark tail ∙ list.tail_mark;
      head_mark = longer-mark head ∙ list.head_mark;
      in_memory = λ x l. elim (ins.old x l) [
        | inl e ↦ ap m.allocated (sym e) ∙ fits.owned
        | inr k ↦ list.in_memory x k
      ];
      on_way = λ x l e. elim (ins.old x l) [
        | inl q ↦ subst (InList longer) q (insert_node list.chain ins prev_in)
        | inr k ↦ long x (list.on_way x k (sym (longer-mark x) ∙ e))
      ];
    };
    linked_on = ins.links;
    key_same = λ x _. ins.keys x;
    frozen = λ x l e.
        ap (λ (n : Node). n.next)
          (apart-set_next m prev (unmarked node) x
            (λ q. marks_differ m x prev e mark_prev (sym q)));
    kept = λ x way _. long x way;
  }

  -- The key was not in the set, and just this key comes to it.
  pub link-Absent : Absent m (key_of m node)
  link-Absent (x, way, mark, e) = insert-absent list.chain ins prev_in (x, way, e)

  pub link-members : (k : ℕ) → Member longer k ↔ (Member m k ⊎ (k ≡ key_of m node))
  link-members k = (
    λ (x, way, mark, e). elim (Bool-cases (node == x)) [
      | inl same ↦
          let q : node ≡ x = ground arith in inr (sym e ∙ ins.keys x ∙ ap (key_of m) (sym q))
      | inr other ↦
          let l : IsLinked m x = elim (ins.old x (InList-IsLinked longer link-Moves.list x way)) [
            | inl q ↦ absurd (ground arith)
            | inr l ↦ l
          ] in
          inl (
            x,
            insert-Reaches list.chain ins head x l way,
            sym (longer-mark x) ∙ mark,
            sym (ins.keys x) ∙ e,
          )
    ],
    λ h. elim h [
      | inl (x, way, mark, e) ↦ (x, long x way, longer-mark x ∙ mark, ins.keys x ∙ e)
      | inr e ↦ (
        node,
        insert_node list.chain ins prev_in,
        longer-mark node ∙ ap (λ (p : Pointer). p.marked) fits.leads,
        ins.keys node ∙ sym e,
      )
    ],
  )
