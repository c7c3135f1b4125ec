-- ===== src/Lab11/FineGrained/Shared.antt =====
-- What the shared memory of lab11/fine_grained.cpp is in every reachable state, and what a step of one
-- thread leaves to the others.
use ite.Base.{
  ℕ, ◌≡◌, ◌≢◌, refl, true, arith, inl, inr, ap, ◌==◌, none, some, Bool-cases, change, at_change,
}
use ite.Lab11.Nodes.{head, arrived, onward}
use ite.Lab11.Chain.{IsChain, InChain, HasKey}
use ite.Lab11.Chain.Alike.{Alike, alike_on, alike_back, alike_forward, alike-IsChain, alike-HasKey}
use ite.Lab11.History.{Same}
use ite.Lab11.FineGrained.{Memory, set_next, list_init}

abbrev pub key_of : Memory → ℕ → ℕ
key_of m x = (m.nodes x).key

abbrev pub next_of : Memory → ℕ → ℕ
next_of m x = (m.nodes x).next

abbrev pub IsLinked : Memory → ℕ → Type 0
IsLinked m x = m.linked x ≡ true

-- The keys of the list, as a set.
abbrev pub Keys : Memory → ℕ → Type 0
Keys m k = HasKey (key_of m) m.chain k

pub record IsList (m : Memory) : Type 0 where
  pub chain : IsChain m.linked (key_of m) m.chain
  pub on_way : (x : ℕ) → IsLinked m x → InChain m.chain x
  pub in_memory : (x : ℕ) → IsLinked m x → m.allocated x ≡ true
  pub agrees : (x : ℕ) → IsLinked m x → m.mutex x ≡ none → next_of m x ≡ m.chain x

-- What a step of thread `t` keeps.
pub record Moves (t : ℕ) (m m' : Memory) : Type 0 where
  pub list : IsList m'
  pub linked_kept : (x : ℕ) → IsLinked m x → m.mutex x ≢ some t → IsLinked m' x
  pub key_same : (x : ℕ) → IsLinked m x → key_of m' x ≡ key_of m x
  pub chain_same : (x : ℕ) → IsLinked m x → m.mutex x ≢ some t → m'.chain x ≡ m.chain x
  pub next_same : (x : ℕ) → IsLinked m x → m.mutex x ≢ some t → next_of m' x ≡ next_of m x

pub list_init-IsList : IsList list_init
unfolding list_init
list_init-IsList = record {
  chain = record {
    head_linked = refl;
    tail_linked = refl;
    head_key = refl;
    tail_key = refl;
    bounded = λ x l. elim (Bool-cases (x == head)) [
      | inl e ↦ rw (key_of, e) (omega arith)
      | inr e ↦ rw (key_of, e) (omega arith)
    ];
    sorted = λ x l ne. elim (Bool-cases (x == head)) [
      | inl e ↦ rw (key_of, e) (refl, omega arith)
      | inr e ↦ absurd (ground arith)
    ];
  };
  on_way = λ x l. elim (Bool-cases (x == head)) [
    | inl e ↦ arrived (ground arith)
    | inr e ↦ onward (omega arith) (arrived (ground arith))
  ];
  in_memory = λ x l. l;
  agrees = λ x l e. elim (Bool-cases (x == head)) [
    | inl h ↦ rw (next_of, h) refl
    | inr h ↦ rw (next_of, h) refl
  ];
}

-- A step that leaves the chain as it is.
pub record Frame (t : ℕ) (m m' : Memory) : Type 0 where
  pub linked_same : (x : ℕ) → m'.linked x ≡ m.linked x
  pub key_same : (x : ℕ) → IsLinked m x → key_of m' x ≡ key_of m x
  pub chain_same : (x : ℕ) → IsLinked m x → m'.chain x ≡ m.chain x
  pub next_same : (x : ℕ) → IsLinked m x → m.mutex x ≢ some t → next_of m' x ≡ next_of m x
  pub alloc_on : (x : ℕ) → IsLinked m x → m'.allocated x ≡ true
  pub agrees : (x : ℕ) → IsLinked m x → m'.mutex x ≡ none → next_of m' x ≡ m'.chain x

module _ (t : ℕ) (m m' : Memory) (list : IsList m) (frame : Frame t m m') where
  alike : Alike m.linked m'.linked (key_of m) (key_of m') m.chain m'.chain
  alike = record {
    linked_same = frame.linked_same;
    key_same = frame.key_same;
    next_same = frame.chain_same;
  }

  pub Frame-Moves : Moves t m m'
  Frame-Moves = record {
    list = record {
      chain = alike-IsChain list.chain alike;
      on_way = λ x l.
          alike_forward list.chain alike head x list.chain.head_linked
            (list.on_way x (alike_back list.chain alike x l));
      in_memory = λ x l. frame.alloc_on x (alike_back list.chain alike x l);
      agrees = λ x l. frame.agrees x (alike_back list.chain alike x l);
    };
    linked_kept = λ x l _. alike_on list.chain alike x l;
    key_same = frame.key_same;
    chain_same = λ x l _. frame.chain_same x l;
    next_same = frame.next_same;
  }

  pub Frame-Same : Same (Keys m) (Keys m')
  Frame-Same k = alike-HasKey list.chain alike k

-- The nodes after a write of the `next` pointer at `a`.
module _ (m : Memory) (a p : ℕ) where
  pub key-set_next : (x : ℕ) → key_of (set_next a p m) x ≡ key_of m x
  key-set_next x =
      at_change m.nodes a x (record (m.nodes a) { next = p }) (λ n. n.key ≡ key_of m x)
        (λ e. ap (key_of m) e) (λ _. refl)

  pub there-set_next : next_of (set_next a p m) a ≡ p
  there-set_next =
      at_change m.nodes a a (record (m.nodes a) { next = p }) (λ n. n.next ≡ p) (λ _. refl)
        (λ ne. absurd (ne refl))

  pub apart-set_next : (x : ℕ) → a ≢ x → (set_next a p m).nodes x ≡ m.nodes x
  apart-set_next x ne =
      at_change m.nodes a x (record (m.nodes a) { next = p }) (λ n. n ≡ m.nodes x)
        (λ e. absurd (ne e)) (λ _. refl)

module _ (f : ℕ → ℕ) (a b : ℕ) where
  pub there_change : change f a b a ≡ b
  there_change = at_change f a a b (λ x. x ≡ b) (λ _. refl) (λ ne. absurd (ne refl))

  pub apart_change : (x : ℕ) → a ≢ x → change f a b x ≡ f x
  apart_change x ne = at_change f a x b (λ y. y ≡ f x) (λ e. absurd (ne e)) (λ _. refl)
