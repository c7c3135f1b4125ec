-- ===== src/Lab11/FineGrained/Writes.antt =====
-- The write with which a node comes into the list of lab11/fine_grained.cpp, and the one with which it
-- goes out.
use ite.Base.{
  ℕ, ◌≡◌, ◌≢◌, ◌<◌, refl, true, false, arith, inl, inr, ◌⊎◌, sym, ap, ◌∙◌, some, change, at_change,
}
use mathlib.Core.Path.{subst}
use ite.Lab11.Nodes.{head, tail, extend}
use ite.Lab11.CoarseList.{add, remove}
use ite.Lab11.Chain.{
  IsChain, InChain, Inserted, insert-IsChain, insert-InChain, insert-absent, insert-HasKey,
  insert_node, Unlinked, unlink-IsChain, unlink-InChain, unlink-gone, unlink-HasKey, unlink-present,
}
use ite.Lab11.Chain.Alike.{Alike, alike_forward, alike-IsChain, alike-HasKey}
use ite.Lab11.History.{Acts}
use ite.Lab11.FineGrained.{Node, Memory, link, unlink}
use ite.Lab11.FineGrained.Shared.{
  key_of, next_of, IsLinked, Keys, IsList, Moves, key-set_next, there-set_next, apart-set_next,
  there_change, apart_change,
}

module _ (t : ℕ) (m : Memory) (list : IsList m) (prev node curr : ℕ) (linked_prev : IsLinked m prev)
    (linked_curr : IsLinked m curr) (alone : m.linked node ≡ false)
    (owned : m.allocated node ≡ true) (held : m.mutex prev ≡ some t)
    (neighbours : m.chain prev ≡ curr) (above : key_of m prev < key_of m node)
    (below : key_of m node < key_of m curr) where
  abbrev longer : Memory
  longer = link prev node curr m

  abbrev ready : ℕ → ℕ
  ready = change m.chain node curr

  apart : (x : ℕ) → IsLinked m x → node ≢ x
  apart x l e = let f = ap m.linked e in ground arith

  ready-Alike : Alike m.linked m.linked (key_of m) (key_of m) m.chain ready
  ready-Alike = record {
    linked_same = λ x. refl;
    key_same = λ x _. refl;
    next_same = λ x l. apart_change m.chain node curr x (apart x l);
  }

  ready-IsChain : IsChain m.linked (key_of m) ready
  ready-IsChain = alike-IsChain list.chain ready-Alike

  ready_way : (x : ℕ) → IsLinked m x → InChain ready x
  ready_way x l =
      alike_forward list.chain ready-Alike head x list.chain.head_linked (list.on_way x l)

  links : (x : ℕ) → IsLinked m x → IsLinked longer x
  links x l = at_change m.linked node x true (λ b. b ≡ true) (λ _. refl) (λ _. l)

  old : (x : ℕ) → IsLinked longer x → (node ≡ x) ⊎ IsLinked m x
  old x =
      at_change m.linked node x true (λ b. b ≡ true → (node ≡ x) ⊎ IsLinked m x) (λ e _. inl e)
        (λ _ h. inr h)

  ins : Inserted m.linked longer.linked (key_of m) (key_of longer) ready longer.chain prev node curr
  ins = record {
    keys = key-set_next m node curr;
    apart = apart_change ready prev node;
    enter = there_change ready prev node;
    next_prev = ready-Alike.next_same prev linked_prev ∙ neighbours;
    next_node = there_change m.chain node curr;
    alone = alone;
    linked_prev = linked_prev;
    linked_curr = linked_curr;
    above = above;
    below = below;
    links = links;
    linked_node =
        at_change m.linked node node true (λ b. b ≡ true) (λ _. refl) (λ ne. absurd (ne refl));
    old = old;
  }

  chain_kept : (x : ℕ) → prev ≢ x → node ≢ x → longer.chain x ≡ m.chain x
  chain_kept x np nn = apart_change ready prev node x np ∙ apart_change m.chain node curr x nn

  next_kept : (x : ℕ) → node ≢ x → next_of longer x ≡ next_of m x
  next_kept x nn = ap (λ (y : Node). y.next) (apart-set_next m node curr x nn)

  pub not_prev : (x : ℕ) → m.mutex x ≢ some t → prev ≢ x
  not_prev x ne e = ne (ap m.mutex (sym e) ∙ held)

  pub link-Moves : Moves t m longer
  link-Moves = record {
    list = record {
      chain = insert-IsChain ready-IsChain ins;
      on_way = λ x l. elim (old x l) [
        | inl e ↦
            subst (InChain longer.chain) e
              (insert_node ready-IsChain ins (ready_way prev linked_prev))
        | inr k ↦ insert-InChain ready-IsChain ins x (ready_way x k)
      ];
      in_memory = λ x l. elim (old x l) [
        | inl e ↦ ap m.allocated (sym e) ∙ owned
        | inr k ↦ list.in_memory x k
      ];
      agrees = λ x l e. elim (old x l) [
        | inl q ↦
            subst (λ y. next_of longer y ≡ longer.chain y) q
              (there-set_next m node curr
                ∙ sym (
                    apart_change ready prev node node (λ r. apart prev linked_prev (sym r))
                    ∙ there_change m.chain node curr))
        | inr k ↦
            next_kept x (apart x k)
            ∙ list.agrees x k e
            ∙ sym (
                chain_kept x (λ r. let f = sym held ∙ ap m.mutex r ∙ e in ground arith) (apart x k))
      ];
    };
    linked_kept = λ x l _. links x l;
    key_same = λ x _. key-set_next m node curr x;
    chain_same = λ x l ne. chain_kept x (not_prev x ne) (apart x l);
    next_same = λ x l _. next_kept x (apart x l);
  }

  pub link-Acts : Acts add (key_of m node) true (Keys m) (Keys longer)
  link-Acts = (
    λ has.
        insert-absent ready-IsChain ins (ready_way prev linked_prev)
          ((alike-HasKey list.chain ready-Alike (key_of m node)).1 has),
    λ x.
        let (one, two) = insert-HasKey ready-IsChain ins (ready_way prev linked_prev) x in
        let (back, forth) = alike-HasKey list.chain ready-Alike x in
        (
          λ h. elim (one h) [ inl k ↦ inl (back k) | inr e ↦ inr e ],
          λ h. elim h [ inl k ↦ two (inl (forth k)) | inr e ↦ two (inr e) ],
        ),
  )

module _ (t : ℕ) (m : Memory) (list : IsList m) (prev curr succ : ℕ) (linked_prev : IsLinked m prev)
    (linked_curr : IsLinked m curr) (held : m.mutex prev ≡ some t)
    (held_curr : m.mutex curr ≡ some t) (neighbours : m.chain prev ≡ curr)
    (leads : m.chain curr ≡ succ) (curr_inner : curr ≢ tail) (curr_not_head : curr ≢ head)
    (prev_inner : prev ≢ tail) where
  abbrev shorter : Memory
  shorter = unlink prev curr succ m

  out : Unlinked m.linked (key_of m) (key_of shorter) m.chain shorter.chain prev curr succ
  out = record {
    keys = key-set_next m prev succ;
    apart = apart_change m.chain prev succ;
    enter = there_change m.chain prev succ;
    next_prev = neighbours;
    next_curr = leads;
    linked_prev = linked_prev;
    linked_curr = linked_curr;
    curr_inner = curr_inner;
    prev_inner = prev_inner;
  }

  prev_in : InChain m.chain prev
  prev_in = list.on_way prev linked_prev

  was : (x : ℕ) → IsLinked shorter x → (curr ≢ x) × IsLinked m x
  was x =
      at_change m.linked curr x false (λ b. b ≡ true → (curr ≢ x) × IsLinked m x)
        (λ _ never. absurd (ground arith)) (λ ne l. (ne, l))

  stays : (x : ℕ) → curr ≢ x → IsLinked m x → IsLinked shorter x
  stays x ne l = at_change m.linked curr x false (λ b. b ≡ true) (λ e. absurd (ne e)) (λ _. l)

  still_in : (x : ℕ) → IsLinked shorter x → InChain shorter.chain x
  still_in x l =
      let (ne, k) = was x l in unlink-InChain list.chain out x (λ e. ne (sym e)) (list.on_way x k)

  -- No node that stays leads to the one that is out.
  apart_out : (x : ℕ) → IsLinked shorter x → x ≢ tail → curr ≢ shorter.chain x
  apart_out x l ne e =
      unlink-gone list.chain out prev_in
        (subst (InChain shorter.chain) (sym e) (extend shorter.chain (still_in x l) ne))

  pub unlink-Moves : Moves t m shorter
  unlink-Moves =
      let whole = unlink-IsChain list.chain out in
      record {
        list = record {
          chain = record {
            head_linked = stays head curr_not_head list.chain.head_linked;
            tail_linked = stays tail curr_inner list.chain.tail_linked;
            head_key = whole.head_key;
            tail_key = whole.tail_key;
            bounded = λ x l. whole.bounded x (was x l).1;
            sorted = λ x l ne.
                let (there, lt) = whole.sorted x (was x l).1 ne in
                (stays (shorter.chain x) (apart_out x l ne) there, lt);
          };
          on_way = still_in;
          in_memory = λ x l. list.in_memory x (was x l).1;
          agrees = λ x l e.
              let np : prev ≢ x = λ r. let f = sym held ∙ ap m.mutex r ∙ e in ground arith in
              ap (λ (y : Node). y.next) (apart-set_next m prev succ x np)
              ∙ list.agrees x (was x l).1 e
              ∙ sym (apart_change m.chain prev succ x np);
        };
        linked_kept = λ x l ne. stays x (λ e. ne (ap m.mutex (sym e) ∙ held_curr)) l;
        key_same = λ x _. key-set_next m prev succ x;
        chain_same =
            λ x _ ne. apart_change m.chain prev succ x (λ e. ne (ap m.mutex (sym e) ∙ held));
        next_same = λ x _ ne.
            ap (λ (y : Node). y.next)
              (apart-set_next m prev succ x (λ e. ne (ap m.mutex (sym e) ∙ held)));
      }

  pub unlink-Acts : Acts remove (key_of m curr) true (Keys m) (Keys shorter)
  unlink-Acts = (unlink-present list.chain out prev_in, unlink-HasKey list.chain out prev_in)
