-- ===== src/Lab11/Optimistic/Shared.antt =====
-- What the shared memory of lab11/optimistic.cpp is in every reachable state, and what a step of one
-- thread leaves to the others.
use ite.Base.{
  ℕ, ◌≡◌, ◌≢◌, refl, true, arith, inl, inr, sym, ap, ◌∙◌, ◌==◌, some, Bool-cases, at_change,
}
use ite.Lab11.Nodes.{head, Reaches}
use ite.Lab11.Chain.{
  IsChain, InChain, HasKey, Inserted, insert-IsChain, insert-InChain, insert-Reaches, Unlinked,
  unlink-IsChain, unlink-InChain, unlink-Reaches,
}
use ite.Lab11.Chain.Alike.{
  Alike, alike_on, alike_back, alike_forward, alike_backward, alike-IsChain, alike-HasKey,
}
use ite.Lab11.History.{Same}
use ite.Lab11.Optimistic.{Node, Memory, set_next, list_init}

abbrev pub key_of : Memory → ℕ → ℕ
key_of m x = (m.nodes x).key

abbrev pub next_of : Memory → ℕ → ℕ
next_of m x = (m.nodes x).next

abbrev pub IsLinked : Memory → ℕ → Type 0
IsLinked m x = m.linked x ≡ true

abbrev pub InList : Memory → ℕ → Type 0
InList m x = InChain (next_of m) x

-- The keys of the list, as a set.
abbrev pub Keys : Memory → ℕ → Type 0
Keys m k = HasKey (key_of m) (next_of m) k

pub record IsList (m : Memory) : Type 0 where
  pub chain : IsChain m.linked (key_of m) (next_of m)
  pub in_memory : (x : ℕ) → IsLinked m x → m.allocated x ≡ true

-- What a step of thread `t` keeps.
pub record Moves (t : ℕ) (m m' : Memory) : Type 0 where
  pub list : IsList m'
  pub linked_on : (x : ℕ) → IsLinked m x → IsLinked m' x
  pub key_same : (x : ℕ) → IsLinked m x → key_of m' x ≡ key_of m x
  pub next_same : (x : ℕ) → IsLinked m x → m.mutex x ≢ some t → next_of m' x ≡ next_of m x
  pub in_kept : (x : ℕ) → IsLinked m x → m.mutex x ≢ some t → InList m x → InList m' x
  pub way_back :
      (a x : ℕ) → IsLinked m a → IsLinked m x → Reaches (next_of m') a x → Reaches (next_of m) a x

pub list_init-IsList : IsList list_init
unfolding list_init
list_init-IsList = record {
  chain = record {
    head_linked = refl;
    tail_linked = refl;
    head_key = refl;
    tail_key = refl;
    bounded = λ x l. elim (Bool-cases (x == head)) [
      | inl e ↦ rw (key_of, e) (omega arith)
      | inr e ↦ rw (key_of, e) (omega arith)
    ];
    sorted = λ x l ne. elim (Bool-cases (x == head)) [
      | inl e ↦ rw (next_of, key_of, e) (refl, omega arith)
      | inr e ↦ absurd (ground arith)
    ];
  };
  in_memory = λ x l. l;
}

-- A step that touches no linked node but for its mutex.
pub record Neutral (m m' : Memory) : Type 0 where
  pub linked_same : (x : ℕ) → m'.linked x ≡ m.linked x
  pub nodes_same : (x : ℕ) → IsLinked m x → m'.nodes x ≡ m.nodes x
  pub alloc_on : (x : ℕ) → IsLinked m x → m'.allocated x ≡ true

module _ (t : ℕ) (m m' : Memory) (list : IsList m) (neutral : Neutral m m') where
  alike : Alike m.linked m'.linked (key_of m) (key_of m') (next_of m) (next_of m')
  alike = record {
    linked_same = neutral.linked_same;
    key_same = λ x l. ap (λ (n : Node). n.key) (neutral.nodes_same x l);
    next_same = λ x l. ap (λ (n : Node). n.next) (neutral.nodes_same x l);
  }

  pub Neutral-Moves : Moves t m m'
  Neutral-Moves = record {
    list = record {
      chain = alike-IsChain list.chain alike;
      in_memory = λ x l. neutral.alloc_on x (alike_back list.chain alike x l);
    };
    linked_on = alike_on list.chain alike;
    key_same = alike.key_same;
    next_same = λ x l _. alike.next_same x l;
    in_kept = λ x _ _ way. alike_forward list.chain alike head x list.chain.head_linked way;
    way_back = λ a x l _ way. alike_backward list.chain alike a x l way;
  }

  pub Neutral-Same : Same (Keys m) (Keys m')
  Neutral-Same k = alike-HasKey list.chain alike k

-- The nodes after a write of the `next` pointer at `a`.
module _ (m : Memory) (a p : ℕ) where
  pub key-set_next : (x : ℕ) → key_of (set_next a p m) x ≡ key_of m x
  key-set_next x =
      at_change m.nodes a x (record (m.nodes a) { next = p }) (λ n. n.key ≡ key_of m x)
        (λ e. ap (key_of m) e) (λ _. refl)

  pub there-set_next : next_of (set_next a p m) a ≡ p
  there-set_next =
      at_change m.nodes a a (record (m.nodes a) { next = p }) (λ n. n.next ≡ p) (λ _. refl)
        (λ ne. absurd (ne refl))

  pub apart-set_next : (x : ℕ) → a ≢ x → (set_next a p m).nodes x ≡ m.nodes x
  apart-set_next x ne =
      at_change m.nodes a x (record (m.nodes a) { next = p }) (λ n. n ≡ m.nodes x)
        (λ e. absurd (ne e)) (λ _. refl)

-- A node that comes in, where its thread holds the mutex of `prev`.
module _ (t : ℕ) (m m' : Memory) (list : IsList m) (prev node curr : ℕ)
    (ins : Inserted m.linked m'.linked
      (key_of m)
      (key_of m')
      (next_of m)
      (next_of m')
      prev
      node
      curr)
    (held : m.mutex prev ≡ some t) (alloc : (x : ℕ) → IsLinked m' x → m'.allocated x ≡ true) where
  pub insert-Moves : Moves t m m'
  insert-Moves = record {
    list = record { chain = insert-IsChain list.chain ins; in_memory = alloc };
    linked_on = ins.links;
    key_same = λ x _. ins.keys x;
    next_same = λ x _ ne. ins.apart x (λ e. ne (ap m.mutex (sym e) ∙ held));
    in_kept = λ x _ _ way. insert-InChain list.chain ins x way;
    way_back = λ a x _ l way. insert-Reaches list.chain ins a x l way;
  }

-- A node that goes out, where its thread holds the mutexes of `prev` and of the node.
module _ (t : ℕ) (m : Memory) (list : IsList m) (prev curr succ : ℕ)
    (out : Unlinked m.linked
      (key_of m)
      (key_of (set_next prev succ m))
      (next_of m)
      (next_of (set_next prev succ m))
      prev
      curr
      succ)
    (held : m.mutex prev ≡ some t) (held_curr : m.mutex curr ≡ some t) where
  pub unlink-Moves : Moves t m (set_next prev succ m)
  unlink-Moves = record {
    list = record { chain = unlink-IsChain list.chain out; in_memory = list.in_memory };
    linked_on = λ x l. l;
    key_same = λ x _. out.keys x;
    next_same = λ x _ ne. out.apart x (λ e. ne (ap m.mutex (sym e) ∙ held));
    in_kept =
        λ x _ ne way. unlink-InChain list.chain out x (λ e. ne (ap m.mutex e ∙ held_curr)) way;
    way_back = λ a x _ l way. unlink-Reaches list.chain out a x way;
  }
