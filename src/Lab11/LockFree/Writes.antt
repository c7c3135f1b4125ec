-- ===== src/Lab11/LockFree/Writes.antt =====
-- The three kinds of CAS of lab11/lockfree.cpp that write to linked nodes: `list_find` takes a marked
-- node out, `list_remove` sets a mark, `list_add` links a node.
use ite.Base.{ℕ, ◌≡◌, ◌≢◌, refl, true, false, arith, sym, ap, ◌∙◌, ◌↔◌, at_change}
use ite.Lab11.Nodes.{head, tail, same_key}
use ite.Lab11.Chain.{Unlinked, unlink-IsChain, unlink-InChain, unlink-Reaches}
use ite.Lab11.Chain.Alike.{Alike, alike_forward, alike_backward, alike-IsChain}
use ite.Lab11.LockFree.{Pointer, Node, Memory, unmarked, set_next}
use ite.Lab11.LockFree.Order.{key_of, next_of, mark_of, IsLinked, InList, IsList, Member}
use ite.Lab11.LockFree.Actions.{Moves, SameMembers, key-set_next, there-set_next, apart-set_next}

module _ (m : Memory) (a : ℕ) (p : Pointer) where
  -- Something of the pointers after the write, with what it is at `a` and elsewhere.
  pub at_set_next :
      (x : ℕ) (C : Pointer → Type 0)
      → (a ≡ x → C p)
      → (a ≢ x → C (m.nodes x).next)
      → C ((set_next a p m).nodes x).next
  at_set_next x C here there =
      at_change m.nodes a x (record (m.nodes a) { next = p }) (λ n. C n.next) here there

pub marks_differ : (m : Memory) (x y : ℕ) → mark_of m x ≡ true → mark_of m y ≡ false → x ≢ y
marks_differ m x y e f q = let g : mark_of m x ≡ mark_of m y = ap (mark_of m) q in ground arith

module _ (m : Memory) (list : IsList m) (prev curr succ : ℕ) (linked_prev : IsLinked m prev)
    (mark_prev : mark_of m prev ≡ false) (next_prev : next_of m prev ≡ curr)
    (mark_curr : mark_of m curr ≡ true) (next_curr : next_of m curr ≡ succ)
    (prev_inner : prev ≢ tail) where
  abbrev unlinked : Memory
  unlinked = set_next prev (unmarked succ) m

  unlinked-mark : (x : ℕ) → mark_of unlinked x ≡ mark_of m x
  unlinked-mark x =
      at_set_next m prev (unmarked succ) x (λ p. p.marked ≡ mark_of m x)
        (λ e. sym (sym (ap (mark_of m) e) ∙ mark_prev)) (λ _. refl)

  out : Unlinked m.linked (key_of m) (key_of unlinked) (next_of m) (next_of unlinked) prev curr succ
  out = record {
    keys = key-set_next m prev (unmarked succ);
    apart = λ x ne. ap (λ (n : Node). n.next.addr) (apart-set_next m prev (unmarked succ) x ne);
    enter = ap (λ (p : Pointer). p.addr) (there-set_next m prev (unmarked succ));
    next_prev = next_prev;
    next_curr = next_curr;
    linked_prev = linked_prev;
    linked_curr = ap m.linked (sym next_prev) ∙ (list.chain.sorted prev linked_prev prev_inner).0;
    curr_inner = marks_differ m curr tail mark_curr list.tail_mark;
    prev_inner = prev_inner;
  }

  short : (x : ℕ) → InList m x → mark_of m x ≡ false → InList unlinked x
  short x way e =
      unlink-InChain list.chain out x (λ q. marks_differ m curr x mark_curr e (sym q)) way

  pub unlink-Moves : Moves m unlinked
  unlink-Moves = record {
    list = record {
      chain = unlink-IsChain list.chain out;
      tail_mark = unlinked-mark tail ∙ list.tail_mark;
      head_mark = unlinked-mark head ∙ list.head_mark;
      in_memory = list.in_memory;
      on_way = λ x l e. let f = sym (unlinked-mark x) ∙ e in short x (list.on_way x l f) f;
    };
    linked_on = λ x l. l;
    key_same = λ x _. out.keys x;
    frozen = λ x l e.
        ap (λ (n : Node). n.next)
          (apart-set_next m prev (unmarked succ) x
            (λ q. marks_differ m x prev e mark_prev (sym q)));
    kept = short;
  }

  pub unlink-SameMembers : SameMembers m unlinked
  unlink-SameMembers k = (
    λ (x, way, mark, e). (
      x,
      unlink-Reaches list.chain out head x way,
      sym (unlinked-mark x) ∙ mark,
      sym (out.keys x) ∙ e,
    ),
    λ (x, way, mark, e). (x, short x way mark, unlinked-mark x ∙ mark, out.keys x ∙ e),
  )

module _ (m : Memory) (list : IsList m) (curr succ : ℕ) (linked_curr : IsLinked m curr)
    (mark_curr : mark_of m curr ≡ false) (next_curr : next_of m curr ≡ succ)
    (curr_inner : curr ≢ tail) (curr_not_head : curr ≢ head) where
  abbrev mark_pointer : Pointer
  mark_pointer = record { addr = succ; marked = true }

  abbrev marked : Memory
  marked = set_next curr mark_pointer m

  marked-Alike : Alike m.linked m.linked (key_of m) (key_of marked) (next_of m) (next_of marked)
  marked-Alike = record {
    linked_same = λ x. refl;
    key_same = λ x _. key-set_next m curr mark_pointer x;
    next_same = λ x _.
        at_set_next m curr mark_pointer x (λ p. p.addr ≡ next_of m x)
          (λ e. sym next_curr ∙ ap (next_of m) e) (λ _. refl);
  }

  marked-mark : (x : ℕ) → curr ≢ x → mark_of marked x ≡ mark_of m x
  marked-mark x ne = ap (λ (n : Node). n.next.marked) (apart-set_next m curr mark_pointer x ne)

  unmarked_apart : (x : ℕ) → mark_of marked x ≡ false → curr ≢ x
  unmarked_apart x e q =
      let f : mark_of marked curr ≡ true =
        ap (λ (p : Pointer). p.marked) (there-set_next m curr mark_pointer) in
      let g : mark_of marked curr ≡ mark_of marked x = ap (mark_of marked) q in ground arith

  same_way : (x : ℕ) → InList m x → InList marked x
  same_way x way = alike_forward list.chain marked-Alike head x list.chain.head_linked way

  old_way : (x : ℕ) → InList marked x → InList m x
  old_way x way = alike_backward list.chain marked-Alike head x list.chain.head_linked way

  pub mark-Moves : Moves m marked
  mark-Moves = record {
    list = record {
      chain = alike-IsChain list.chain marked-Alike;
      tail_mark = marked-mark tail curr_inner ∙ list.tail_mark;
      head_mark = marked-mark head curr_not_head ∙ list.head_mark;
      in_memory = list.in_memory;
      on_way = λ x l e. same_way x (list.on_way x l (sym (marked-mark x (unmarked_apart x e)) ∙ e));
    };
    linked_on = λ x l. l;
    key_same = marked-Alike.key_same;
    frozen = λ x l e.
        ap (λ (n : Node). n.next)
          (apart-set_next m curr mark_pointer x (λ q. marks_differ m x curr e mark_curr (sym q)));
    kept = λ x way _. same_way x way;
  }

  -- The key of the node was in the set, and just this key leaves it.
  pub mark-Member : Member m (key_of m curr)
  mark-Member = (curr, list.on_way curr linked_curr mark_curr, mark_curr, refl)

  key : (x : ℕ) → key_of marked x ≡ key_of m x
  key = key-set_next m curr mark_pointer

  pub mark-members : (k : ℕ) → Member marked k ↔ (Member m k × (k ≢ key_of m curr))
  mark-members k = (
    λ (x, way, mark, e).
        let ne = unmarked_apart x mark in
        let f = sym (key x) ∙ e in
        (
          (x, old_way x way, sym (marked-mark x ne) ∙ mark, f),
          λ q. ne (
              same_key m.linked (key_of m) (next_of m) list.chain.sorted list.chain.head_linked
                (list.on_way curr linked_curr mark_curr) (old_way x way) (sym (f ∙ q))),
        ),
    λ ((x, way, mark, e), ne).
        let apart : curr ≢ x = λ q. ne (sym e ∙ ap (key_of m) (sym q)) in
        (x, same_way x way, marked-mark x apart ∙ mark, key x ∙ e),
  )
