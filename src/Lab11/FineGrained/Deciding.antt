-- ===== src/Lab11/FineGrained/Deciding.antt =====
-- The steps of lab11/fine_grained.cpp at a place whose two nodes are locked: a call passes on, answers, or
-- goes on to write.
use ite.Base.{
  ℕ, ◌≡◌, ◌≢◌, ◌≤◌, refl, Bool, false, arith, inl, inr, sym, ap, ◌∙◌, ◌==◌, ltb, Bool-cases,
}
use ite.Lab11.Nodes.{tail}
use ite.Lab11.Chain.{inner, between}
use ite.Lab11.CoarseList.{Work, WorkType, add, remove, contains}
use ite.Lab11.History.{Acts, Same}
use ite.Lab11.FineGrained.{
  Memory, Call, adding, removing, asking, answer, holding, unlocking_passed, add_first,
  remove_write, unlocking_prev, pass, decide, thread_step, acts,
}
use ite.Lab11.FineGrained.Shared.{key_of, next_of, IsLinked, Keys, IsList}
use ite.Lab11.FineGrained.Places.{Both, PcInv, Advance, Proceeds, curr-IsLinked}
use ite.Lab11.FineGrained.Steps.{reads, loaded}

-- A thread that holds both mutexes of two neighbours knows whether the key is in the set.
module _ (t : ℕ) (m : Memory) (list : IsList m) (call : Call) (k prev curr : ℕ)
    (both : Both t m call k prev curr) where
  pub lc : IsLinked m curr
  lc = curr-IsLinked m list both.grip both.neighbours

  pub prev_inner : prev ≢ tail
  prev_inner = inner m.linked (key_of m) m.chain list.chain prev k both.grip.above both.grip.keys.1

  pub apart : prev ≢ curr
  apart e =
      let (l, lt) = list.chain.sorted prev both.grip.linked_prev prev_inner in
      absurd (omega (arith, lt, ap (key_of m) (both.neighbours ∙ sym e)))

  pub is_there : key_of m curr ≡ k → Keys m k
  is_there e = (curr, list.on_way curr lc, e)

  pub is_absent : k ≤ key_of m curr → key_of m curr ≢ k → Keys m k → ⊥
  is_absent le ne has = ne (
      ap (key_of m) (sym both.neighbours)
      ∙ between m.linked (key_of m) m.chain list.chain prev k
          (list.on_way prev both.grip.linked_prev) both.grip.above both.grip.keys.1
          (omega (arith, le, ap (key_of m) both.neighbours)) has)

  pub unlocks :
      (type : WorkType) (result : Bool)
      → PcInv t m (unlocking_prev (answer type k result) prev curr)
  unlocks type result = (
    both.grip.linked_prev,
    both.grip.held_prev,
    both.agrees_prev,
    apart,
    (lc, both.held_curr, both.agrees_curr),
  )

module _ (t : ℕ) (m : Memory) (list : IsList m) (w : Work) (node k prev curr : ℕ) where
  decide_lem :
      (call : Call)
      → Both t m call k prev curr
      → ltb (key_of m curr) k ≡ false
      → Advance t m (holding call k prev curr) m (decide call k prev curr m)
  unfolding decide acts
  decide_lem (adding n) both ge = elim (Bool-cases (key_of m curr == k)) [
    | inl same ↦ rw same (
        reads t m list (holding (adding n) k prev curr)
          (unlocking_prev (answer add k false) prev curr)
          (unlocks t m list (adding n) k prev curr both add false) (λ x h. elim h [ ]) (λ x h. h)
          (rw (acts, ge, same)
            (λ q. (
              both.grip.keys,
              (is_there t m list (adding n) k prev curr both (ground arith), q),
              refl,
              refl,
              refl,
            ))))
    | inr differ ↦ rw differ (
        reads t m list (holding (adding n) k prev curr) (add_first k n prev curr)
          (both, ground arith) (λ x h. h) (λ x h. h)
          (rw (acts, ge, differ) (λ q. (q, inr (refl, refl)))))
  ]
  decide_lem removing both ge = elim (Bool-cases (key_of m curr == k)) [
    | inl same ↦ rw same (
        reads t m list (holding removing k prev curr) (remove_write k prev curr (next_of m curr))
          (both, sym both.agrees_curr, ground arith) (λ x h. elim h [ ]) (λ x h. h)
          (rw (acts, ge, same) (λ q. (q, inr (refl, refl)))))
    | inr differ ↦ rw differ (
        reads t m list (holding removing k prev curr)
          (unlocking_prev (answer remove k false) prev curr)
          (unlocks t m list removing k prev curr both remove false) (λ x h. elim h [ ]) (λ x h. h)
          (rw (acts, ge, differ)
            (λ q. (
              both.grip.keys,
              (is_absent t m list removing k prev curr both (ground arith) (ground arith), q),
              refl,
              refl,
              refl,
            ))))
  ]
  decide_lem asking both ge =
      reads t m list (holding asking k prev curr)
        (unlocking_prev (answer contains k (key_of m curr == k)) prev curr)
        (unlocks t m list asking k prev curr both contains (key_of m curr == k)) (λ x h. elim h [ ])
        (λ x h. h) (rw (acts, ge) (λ q. (both.grip.keys, asked q, refl, refl, refl)))
    where
      asked : Same (Keys m) (Keys m) → Acts contains k (key_of m curr == k) (Keys m) (Keys m)
      asked q = elim (Bool-cases (key_of m curr == k)) [
        | inl same ↦ rw same (is_there t m list asking k prev curr both (ground arith), q)
        | inr differ ↦
            rw differ (is_absent t m list asking k prev curr both (ground arith) (ground arith), q)
      ]

  pub holding_lem :
      (call : Call)
      → Both t m call k prev curr
      → Proceeds t m (holding call k prev curr) (thread_step t w node (holding call k prev curr) m)
  unfolding thread_step pass acts
  holding_lem call both =
      loaded t m list (holding call k prev curr) curr (m, pass call k prev curr m)
        (list.in_memory curr (lc t m list call k prev curr both))
        (m, pass call k prev curr m, refl, passes)
    where
      passes : Advance t m (holding call k prev curr) m (pass call k prev curr m)
      passes = elim (Bool-cases (ltb (key_of m curr) k)) [
        | inl lt ↦ rw lt (
            reads t m list (holding call k prev curr) (unlocking_passed call k prev curr)
              (both, ground arith) (λ n h. h) (λ n h. h)
              (rw (acts, lt) (λ q. (q, inr (refl, refl)))))
        | inr ge ↦ rw ge (decide_lem call both ge)
      ]
