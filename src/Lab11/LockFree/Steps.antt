-- ===== src/Lab11/LockFree/Steps.antt =====
-- One step of a thread of lab11/lockfree.cpp: it follows no bad pointer, it keeps the list in order,
-- and it leaves alone the nodes that the other threads have not linked yet.
use ite.Base.{ℕ, ◌≡◌, refl, true, false, arith, sym, ap, ◌∙◌, some, none, Option, if◌then◌else◌}
use mathlib.Core.Path.{subst}
use ite.Lab11.Nodes.{head}
use ite.Lab11.CoarseList.{Work, WorkType, add, remove, contains, other}
use ite.Lab11.LockFree.{
  Pointer, Node, Memory, malloc, points_to, Call, adding, removing, Pc, idle, find_start, find_succ,
  find_unlink, add_cas, remove_read, remove_cas, contains_at, returned, Next, begin, IsFresh,
  InKeys,
}
use ite.Lab11.LockFree.Order.{IsLinked, IsList}
use ite.Lab11.LockFree.Local.{
  Owns, At, PcInv, CallHolds, Holds, Advance, Proceeds, reads, malloc_lem,
}

module _ {m m' : Memory} {p p' : Pc} (step : Advance m p m' p') (q : Pc)
    (apart : (n : ℕ) → Holds q n → Holds p n → ⊥) where
  keep_call :
      (call : Call) (k : ℕ)
      → ((n : ℕ) → CallHolds call n → Holds q n)
      → Owns m call k
      → Owns m' call k
  keep_call removing k held owns = tt
  keep_call (adding n) k held (owned, alone, e) =
      let (owned', alone', same) = step.untouched n owned alone (apart n (held n refl)) in
      (owned', alone', ap (λ (x : Node). x.key) same ∙ e)

  keep-At :
      (call : Call) (k prev curr : ℕ)
      → ((n : ℕ) → CallHolds call n → Holds q n)
      → At m call k prev curr
      → At m' call k prev curr
  keep-At call k prev curr held (keys, owns, lp, lc, lt) = (
    keys,
    keep_call call k held owns,
    step.moves.linked_on prev lp,
    step.moves.linked_on curr lc,
    omega (arith, lt, step.moves.key_same prev lp),
  )

  -- A step of another thread keeps what a thread knows.
  pub others : PcInv m q → PcInv m' q
  others h = go q refl h
    where
      go : (r : Pc) → q ≡ r → PcInv m r → PcInv m' r
      go idle e h = tt
      go (find_start call k) e (keys, owns) =
          (keys, keep_call call k (λ n c. subst (λ x. Holds x n) (sym e) c) owns)
      go (find_succ call k prev curr) e h =
          keep-At call k prev curr (λ n c. subst (λ x. Holds x n) (sym e) c) h
      go (find_unlink call k prev curr succ) e (h, mark, at) =
          let f = step.moves.frozen curr (h.3) mark in
          (
            keep-At call k prev curr (λ n c. subst (λ x. Holds x n) (sym e) c) h,
            ap (λ (x : Pointer). x.marked) f ∙ mark,
            ap (λ (x : Pointer). x.addr) f ∙ at,
          )
      go (add_cas k n prev curr) e (keys, key, fits) =
          let (owned, alone, same) =
            step.untouched n fits.owned fits.alone
              (apart n (subst (λ x. Holds x n) (sym e) refl)) in
          let same_key = ap (λ (x : Node). x.key) same in
          (
            keys,
            same_key ∙ key,
            record {
              alone = alone;
              owned = owned;
              leads = ap (λ (x : Node). x.next) same ∙ fits.leads;
              linked_prev = step.moves.linked_on prev fits.linked_prev;
              linked_curr = step.moves.linked_on curr fits.linked_curr;
              above =
                  omega (arith, same_key, step.moves.key_same prev fits.linked_prev, fits.above);
              below =
                  omega (arith, same_key, step.moves.key_same curr fits.linked_curr, fits.below);
            },
          )
      go (remove_read k curr) e (keys, l, key) =
          (keys, step.moves.linked_on curr l, step.moves.key_same curr l ∙ key)
      go (remove_cas k curr succ) e (keys, l, key) =
          (keys, step.moves.linked_on curr l, step.moves.key_same curr l ∙ key)
      go (contains_at k curr) e (keys, l) = (keys, step.moves.linked_on curr l)
      go (returned type k result) e h = tt

pub points_to-true :
    (p : Pointer) (a : ℕ) → points_to p a ≡ true → (p.addr ≡ a) × (p.marked ≡ false)
points_to-true p a h = (ground arith, ground arith)

module _ (m : Memory) (list : IsList m) (w : Work) (node : ℕ) where
  -- The access of a linked node finds it.
  pub loaded :
      (p : Pc) (a : ℕ) (next : Option Next)
      → IsLinked m a
      → Proceeds m p next
      → Proceeds m p (if m.allocated a then next else none)
  loaded p a next l (m', p', e, h) = (m', p', rw (list.in_memory a l) e, h)

  pub begin_lem : (p : Pc) → InKeys w.value → IsFresh m node → Proceeds m p (some (begin w node m))
  unfolding begin
  begin_lem p keys fresh = go w.type refl
    where
      go : (type : WorkType) → w.type ≡ type → Proceeds m p (some (begin w node m))
      go add e = (
        malloc node w.value m,
        find_start (adding node) w.value,
        rw e refl,
        malloc_lem m list p node w.value keys fresh,
      )
      go remove e = (
        m,
        find_start removing w.value,
        rw e refl,
        reads m list p (find_start removing w.value) (keys, tt) (λ n h. elim h [ ]) refl,
      )
      go contains e = (
        m,
        contains_at w.value head,
        rw e refl,
        reads m list p (contains_at w.value head) (keys, list.chain.head_linked) (λ n h. elim h [ ])
            refl,
      )
      go other e = (m, idle, rw e refl, reads m list p idle tt (λ n h. elim h [ ]) refl)
