-- ===== src/Lab11/Chain/Alike.antt =====
-- Chains that differ at most outside the list, of lab11/fine_grained.cpp and optimistic.cpp.
use ite.Base.{ℕ, ◌≡◌, Bool, true, arith, sym, ap, ◌∙◌, ◌↔◌}
use ite.Lab11.Nodes.{head, tail, Reaches, IsSorted, Reaches-same}
use ite.Lab11.Chain.{IsChain, InChain-linked, HasKey}

pub record Alike (linked linked' : ℕ → Bool) (key key' next next' : ℕ → ℕ) : Type 0 where
  pub linked_same : (x : ℕ) → linked' x ≡ linked x
  pub key_same : (x : ℕ) → linked x ≡ true → key' x ≡ key x
  pub next_same : (x : ℕ) → linked x ≡ true → next' x ≡ next x

module _ {linked linked' : ℕ → Bool} {key key' next next' : ℕ → ℕ} (chain : IsChain linked key next)
    (alike : Alike linked linked' key key' next next') where
  pub alike_back : (x : ℕ) → linked' x ≡ true → linked x ≡ true
  alike_back x l = sym (alike.linked_same x) ∙ l

  pub alike_on : (x : ℕ) → linked x ≡ true → linked' x ≡ true
  alike_on x l = alike.linked_same x ∙ l

  pub alike_forward : (a x : ℕ) → linked a ≡ true → Reaches next a x → Reaches next' a x
  alike_forward a x l way = Reaches-same linked key next chain.sorted next' alike.next_same l way

  alike-IsSorted : IsSorted linked' key' next'
  alike-IsSorted x l ne =
      let lx = alike_back x l in
      let e = alike.next_same x lx in
      let (there, lt) = chain.sorted x lx ne in
      (
        ap linked' e ∙ alike_on (next x) there,
        omega (arith, lt, alike.key_same x lx, alike.key_same (next x) there, ap key' e),
      )

  pub alike_backward : (a x : ℕ) → linked a ≡ true → Reaches next' a x → Reaches next a x
  alike_backward a x l way =
      Reaches-same linked' key' next' alike-IsSorted next
        (λ y ly. sym (alike.next_same y (alike_back y ly))) (alike_on a l) way

  pub alike-IsChain : IsChain linked' key' next'
  alike-IsChain = record {
    head_linked = alike_on head chain.head_linked;
    tail_linked = alike_on tail chain.tail_linked;
    head_key = alike.key_same head chain.head_linked ∙ chain.head_key;
    tail_key = alike.key_same tail chain.tail_linked ∙ chain.tail_key;
    bounded =
        λ x l. omega (arith, alike.key_same x (alike_back x l), chain.bounded x (alike_back x l));
    sorted = alike-IsSorted;
  }

  pub alike-HasKey : (k : ℕ) → HasKey key' next' k ↔ HasKey key next k
  alike-HasKey k = (
    λ (x, way, e).
        let old = alike_backward head x chain.head_linked way in
        (x, old, sym (alike.key_same x (InChain-linked linked key next chain x old)) ∙ e),
    λ (x, way, e). (
      x,
      alike_forward head x chain.head_linked way,
      alike.key_same x (InChain-linked linked key next chain x way) ∙ e,
    ),
  )
