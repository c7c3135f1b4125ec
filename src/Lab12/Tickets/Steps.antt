-- ===== src/Lab12/Tickets/Steps.antt =====
-- The steps of a thread of lab12/queue_bounded.cpp, and its runs.
use ite.Base.{
  ℕ, ◌+◌, ◌%◌, ◌≡◌, ◌≢◌, ◌<◌, ◌≤◌, refl, List, [], ◌∷◌, ◌++◌, change, arith, inl, inr, ◌⊎◌, sym, ap,
  ◌∙◌, at_change,
}
use mathlib.Core.Path.{subst}
use ite.Lab12.Tickets.{
  queue_size, QueueNode, Pc, idle, enq_waiting, enq_writing, enq_loading, enq_raising, deq_waiting,
  deq_raising, Got, System, Call, enqueue, dequeue, set_pc, bucket, set_bucket, draw,
}
use ite.Lab12.Tickets.Frame.{
  flag_of, key_of, empty_flag, full_flag, PcInv, IsEnq, IsDeq, AreInOrder, Inv, Bears, Frames,
  full-drawn,
}
use ite.Lab12.Tickets.Order.{enq_facts, deq_facts, AreInOrder-frame, Step-Inv}

-- Tickets of one bucket.
abbrev SameBucket : ℕ → ℕ → Type 0
SameBucket t u = t % queue_size ≡ u % queue_size

module _ (s : System) (a : ℕ) (inv : Inv s) where
  -- A step that changes nothing but the thread's own place.
  pub local :
      (next : Pc)
      → PcInv (set_pc a next s) next
      → ((t : ℕ) → IsEnq next t → IsEnq (s.threads a) t)
      → ((t : ℕ) → IsDeq next t → IsDeq (s.threads a) t)
      → Inv (set_pc a next s)
  local next mine enq deq = Step-Inv s (set_pc a next s) a next inv (record {
    threads_are = refl;
    later_enq = inv.later_enq;
    later_deq = inv.later_deq;
    stored = inv.stored;
    mine = mine;
    others = λ b ne. record {
      rear_le = omega arith;
      front_le = omega arith;
      put_same = λ t _. refl;
      enq_bears = λ t _. inl (refl, refl);
      deq_bears = λ t _. inl (refl, refl);
    };
    enq_own = λ t i. inl (enq t i);
    deq_own = λ t i. inl (deq t i);
    right = AreInOrder-frame s (set_pc a next s) s.got (omega arith) (λ t _. refl) inv.right;
  })

  pub at_pc : (p : Pc) → s.threads a ≡ p → PcInv s p
  at_pc p at = subst (PcInv s) at (inv.pcs a)

  -- What a new node in the bucket of ticket `t` is for the thread with ticket `u`.
  bears :
      (t u turn : ℕ) (node : QueueNode)
      → (SameBucket t u → (flag_of s u ≢ turn) × (node.flag ≤ turn))
      → Bears s (set_bucket t node s) u turn
  bears t u turn node same =
      at_change s.queue (t % queue_size) (u % queue_size) node
        (λ n.
          ((n.flag ≡ flag_of s u) × (n.key ≡ key_of s u))
          ⊎ ((flag_of s u ≢ turn) × (n.flag ≤ turn)))
        (λ e. inr (same e)) (λ _. inl (refl, refl))

  same_flag : (t u : ℕ) → SameBucket t u → flag_of s u ≡ flag_of s t
  same_flag t u e = ap (λ (b : ℕ). (s.queue b).flag) (sym e)

  -- The others, when thread `a` with enqueue ticket `t` writes to its bucket and leaves its flag at
  -- most one higher.
  enq_others :
      (t : ℕ) (node : QueueNode) (b : ℕ)
      → a ≢ b
      → IsEnq (s.threads a) t
      → flag_of s t ≡ empty_flag t
      → node.flag ≤ full_flag t
      → (next : Pc) → (flag_of s t ≤ node.flag)
      → Frames s (set_pc a next (set_bucket t node s)) (s.threads b)
  enq_others t node b ne own now le next ge = record {
    rear_le = omega arith;
    front_le = omega arith;
    put_same = λ u _. refl;
    enq_bears = λ u i. bears t u (empty_flag u) node (λ e.
        let other : t ≢ u =
          λ q. ne (inv.enq_unique a b t own (subst (IsEnq (s.threads b)) (sym q) i)) in
        let (lt, below) = enq_facts s (s.threads b) u (inv.pcs b) i in
        (
          λ q. other (omega (arith, e, q, now, same_flag t u e)),
          apart_enq t u e other below (same_flag t u e) now le,
        ));
    deq_bears = λ u i. bears t u (full_flag u) node (λ e.
        let (lt, below) = deq_facts s (s.threads b) u (inv.pcs b) i in
        (
          λ q. absurd (omega (arith, q, now, same_flag t u e)),
          omega (arith, below, now, same_flag t u e, le),
        ));
  }
    where
      apart_enq :
          (t u : ℕ)
          → SameBucket t u
          → t ≢ u
          → flag_of s u ≤ empty_flag u
          → flag_of s u ≡ flag_of s t
          → flag_of s t ≡ empty_flag t
          → node.flag ≤ full_flag t
          → node.flag ≤ empty_flag u
      apart_enq t u e other below same now le = omega arith

  pub write-Inv :
      (t k : ℕ)
      → s.threads a ≡ enq_writing t k
      → Inv (set_pc a (enq_loading t k) (set_bucket t (record (bucket s t) { key = k }) s))
  write-Inv t k at =
      let (lt, (e, now)) = at_pc (enq_writing t k) at in
      let own : IsEnq (s.threads a) t = subst (λ (p : Pc). IsEnq p t) (sym at) refl in
      Step-Inv s s' a (enq_loading t k) inv (record {
        threads_are = refl;
        later_enq = λ u le. flags u (λ f. f ≤ empty_flag u) (inv.later_enq u le);
        later_deq = λ u le. flags u (λ f. f ≤ full_flag u) (inv.later_deq u le);
        stored = λ u.
            at_change s.queue (t % queue_size) (u % queue_size) (record (bucket s t) { key = k })
              (λ n. n.flag ≡ full_flag u → n.key ≡ s.put u)
              (λ q full. absurd (omega (arith, now, full))) (λ _ full. inv.stored u full);
        mine = (lt, (e, (flags t (λ f. f ≡ empty_flag t) now, key_there)));
        others = λ b ne.
            enq_others t (record (bucket s t) { key = k }) b ne own now (omega (arith, now))
              (enq_loading t k) (omega arith);
        enq_own = λ u i. inl (subst (IsEnq (s.threads a)) i own);
        deq_own = λ u i. elim i [ ];
        right = AreInOrder-frame s s' s.got (omega arith) (λ u _. refl) inv.right;
      })
    where
      s' : System
      s' = set_pc a (enq_loading t k) (set_bucket t (record (bucket s t) { key = k }) s)

      flags : (u : ℕ) (C : ℕ → Type 0) → C (flag_of s u) → C (flag_of s' u)
      flags u C h =
          at_change s.queue (t % queue_size) (u % queue_size) (record (bucket s t) { key = k })
            (λ n. C n.flag) (λ q. subst (λ (b : ℕ). C (s.queue b).flag) (sym q) h) (λ _. h)

      key_there : key_of s' t ≡ k
      key_there =
          at_change s.queue (t % queue_size) (t % queue_size) (record (bucket s t) { key = k })
            (λ n. n.key ≡ k) (λ _. refl) (λ ne. absurd (ne refl))

  pub publish-Inv :
      (t k f : ℕ)
      → s.threads a ≡ enq_raising t k f
      → Inv (set_pc a idle (set_bucket t (record (bucket s t) { flag = f + 1 }) s))
  publish-Inv t k f at =
      let (lt, (e, (now, (key, old)))) = at_pc (enq_raising t k f) at in
      let own : IsEnq (s.threads a) t = subst (λ (p : Pc). IsEnq p t) (sym at) refl in
      Step-Inv s s' a idle inv (record {
        threads_are = refl;
        later_enq = λ u le.
            at_change s.queue (t % queue_size) (u % queue_size) node (λ n. n.flag ≤ empty_flag u)
              (λ q. omega (arith, q, lt, le, old, now)) (λ _. inv.later_enq u le);
        later_deq = λ u le.
            at_change s.queue (t % queue_size) (u % queue_size) node (λ n. n.flag ≤ full_flag u)
              (λ q. omega (arith, q, old, now, inv.later_deq u le, same_flag t u q))
              (λ _. inv.later_deq u le);
        stored = λ u.
            at_change s.queue (t % queue_size) (u % queue_size) node
              (λ n. n.flag ≡ full_flag u → n.key ≡ s.put u)
              (λ q full. key ∙ sym e ∙ ap s.put (omega (arith, q, full, old, now)))
              (λ _ full. inv.stored u full);
        mine = tt;
        others = λ b ne.
            enq_others t node b ne own now (omega (arith, old, now)) idle (omega (arith, old));
        enq_own = λ u i. elim i [ ];
        deq_own = λ u i. elim i [ ];
        right = AreInOrder-frame s s' s.got (omega arith) (λ u _. refl) inv.right;
      })
    where
      node : QueueNode
      node = record (bucket s t) { flag = f + 1 }

      s' : System
      s' = set_pc a idle (set_bucket t node s)

-- The state after the last step of `dequeue`.
abbrev pub taken : System → ℕ → ℕ → ℕ → ℕ → System
taken s a t k f = record (set_pc a idle (set_bucket t (record (bucket s t) { flag = f + 1 }) s)) {
  got = s.got ++ ((record { ticket = t; ret_key = k }) ∷ []);
}

AreInOrder-append :
    (s : System) (gs : List Got) (g : Got)
    → AreInOrder s gs
    → (g.ticket < s.rear) × (g.ret_key ≡ s.put g.ticket)
    → AreInOrder s (gs ++ (g ∷ []))
AreInOrder-append s [] g h e = (e, tt)
AreInOrder-append s (x ∷ gs) g (f, h) e = (f, AreInOrder-append s gs g h e)

module _ (s : System) (a : ℕ) (inv : Inv s) where
  pub take-Inv : (t k f : ℕ) → s.threads a ≡ deq_raising t k f → Inv (taken s a t k f)
  take-Inv t k f at =
      let (lt, (now, (e, old))) = at_pc s a inv (deq_raising t k f) at in
      let own : IsDeq (s.threads a) t = subst (λ (p : Pc). IsDeq p t) (sym at) refl in
      Step-Inv s s' a idle inv (record {
        threads_are = refl;
        later_enq = λ u le.
            at_change s.queue (t % queue_size) (u % queue_size) node (λ n. n.flag ≤ empty_flag u)
              (λ q. omega (arith, q, old, now, inv.later_enq u le, same_flag s a inv t u q))
              (λ _. inv.later_enq u le);
        later_deq = λ u le.
            at_change s.queue (t % queue_size) (u % queue_size) node (λ n. n.flag ≤ full_flag u)
              (λ q. omega (arith, q, lt, le, old, now)) (λ _. inv.later_deq u le);
        stored = λ u.
            at_change s.queue (t % queue_size) (u % queue_size) node
              (λ n. n.flag ≡ full_flag u → n.key ≡ s.put u)
              (λ q full. absurd (omega (arith, full, old, now))) (λ _ full. inv.stored u full);
        mine = tt;
        others = λ b ne. record {
          rear_le = omega arith;
          front_le = omega arith;
          put_same = λ u _. refl;
          enq_bears = λ u i. bears s a inv t u (empty_flag u) node (λ q.
              let (below, le) = enq_facts s (s.threads b) u (inv.pcs b) i in
              (
                λ r. absurd (omega (arith, r, now, same_flag s a inv t u q)),
                omega (arith, le, old, now, same_flag s a inv t u q),
              ));
          deq_bears = λ u i. bears s a inv t u (full_flag u) node (λ q.
              let other : t ≢ u =
                λ r. ne (inv.deq_unique a b t own (subst (IsDeq (s.threads b)) (sym r) i)) in
              let (below, le) = deq_facts s (s.threads b) u (inv.pcs b) i in
              (
                λ r. other (omega (arith, q, r, now, same_flag s a inv t u q)),
                apart u q other le (same_flag s a inv t u q) now old,
              ));
        };
        enq_own = λ u i. elim i [ ];
        deq_own = λ u i. elim i [ ];
        right =
            AreInOrder-append s' s.got (record { ticket = t; ret_key = k })
              (AreInOrder-frame s s' s.got (omega arith) (λ u _. refl) inv.right)
              (full-drawn s t inv.later_enq now, e);
      })
    where
      node : QueueNode
      node = record (bucket s t) { flag = f + 1 }

      s' : System
      s' = record (set_pc a idle (set_bucket t node s)) {
        got = s.got ++ ((record { ticket = t; ret_key = k }) ∷ []);
      }

      apart :
          (u : ℕ)
          → SameBucket t u
          → t ≢ u
          → flag_of s u ≤ full_flag u
          → flag_of s u ≡ flag_of s t
          → flag_of s t ≡ full_flag t
          → f ≡ flag_of s t
          → f + 1 ≤ full_flag u
      apart u q other le same now old = omega arith

  pub draw-Inv : (c : Call) → s.threads a ≡ idle → Inv (draw a c s)
  unfolding draw
  draw-Inv (enqueue key) at = Step-Inv s s' a (enq_waiting s.rear key) inv (record {
    threads_are = refl;
    later_enq = λ u le. inv.later_enq u (omega (arith, le));
    later_deq = inv.later_deq;
    stored = λ u full. inv.stored u full ∙ sym (put_at u (full-drawn s u inv.later_enq full));
    mine = (omega arith, (there, inv.later_enq s.rear (omega arith)));
    others = λ b ne. record {
      rear_le = omega arith;
      front_le = omega arith;
      put_same = put_at;
      enq_bears = λ t _. inl (refl, refl);
      deq_bears = λ t _. inl (refl, refl);
    };
    enq_own = λ u i. inr (omega (arith, i));
    deq_own = λ u i. elim i [ ];
    right = AreInOrder-frame s s' s.got (omega arith) put_at inv.right;
  })
    where
      s' : System
      s' =
          set_pc a (enq_waiting s.rear key)
            (record s { rear = s.rear + 1; put = change s.put s.rear key })

      put_at : (u : ℕ) → u < s.rear → change s.put s.rear key u ≡ s.put u
      put_at u lt =
          at_change s.put s.rear u key (λ v. v ≡ s.put u) (λ q. absurd (omega (arith, q, lt)))
            (λ _. refl)

      there : change s.put s.rear key s.rear ≡ key
      there = at_change s.put s.rear s.rear key (λ v. v ≡ key) (λ _. refl) (λ ne. absurd (ne refl))
  draw-Inv dequeue at = Step-Inv s s' a (deq_waiting s.front) inv (record {
    threads_are = refl;
    later_enq = inv.later_enq;
    later_deq = λ u le. inv.later_deq u (omega (arith, le));
    stored = inv.stored;
    mine = (omega arith, inv.later_deq s.front (omega arith));
    others = λ b ne. record {
      rear_le = omega arith;
      front_le = omega arith;
      put_same = λ t _. refl;
      enq_bears = λ t _. inl (refl, refl);
      deq_bears = λ t _. inl (refl, refl);
    };
    enq_own = λ u i. elim i [ ];
    deq_own = λ u i. inr (omega (arith, i));
    right = AreInOrder-frame s s' s.got (omega arith) (λ t _. refl) inv.right;
  })
    where
      s' : System
      s' = set_pc a (deq_waiting s.front) (record s { front = s.front + 1 })
