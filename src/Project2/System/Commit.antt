-- ===== src/Project2/System/Commit.antt =====
-- The commit phase of WorkerThread::workTransaction, project2/src/worker.cpp, against the check of
-- the files in project2/src/validator.cpp.
use ite.Base.{
  ℕ, zero, suc, ◌+◌, ◌≡◌, ◌≤◌, ◌<◌, refl, true, false, ◌||◌, some, List, [], ◌∷◌, ◌++◌, ◌==◌,
  length, if◌then◌else◌, arith, Bool-cases, inl, inr, ◌∙◌, sym, ap, ltb, length-append,
}
use ite.Project2.Database.{Database, push_records}
use ite.Project2.Database.Access.{value_at, written, written-IsValid, value_at-written}
use ite.Project2.LockTable.{unlock_all}
use ite.Project2.LockTable.Visits.{IsWorker}
use ite.Project2.LockTable.Invariant.{InRecords}
use ite.Project2.LockTable.Operations.{unlock_all_lem}
use ite.Project2.Worker.{Log, rollback, raise_by, lower_by}
use ite.Project2.Validator.{read_files, sort_logs, check_log, replay, has_wrong_index}
use ite.Project2.Validator.Sorting.{
  UpTo, UpTo-mono, UpTo-append, UpTo-left, UpTo-right, sort-append, length-sort, check_logs-append,
}
use ite.Project2.System.{
  idle, committing, terminated, Thread, System, update, set_thread, commit_log, commit_step,
}
use ite.Project2.System.Invariant.{
  done, AreDistinct, ThreadInv, writes, files_from, files, Committed, IsBase, Inv,
}
use mathlib.Core.List.{append_assoc}
use ite.Project2.System.Change.{files_from-same, at_thread}
use ite.Project2.System.Leave.{leave-Inv, restored, rollback-entries, value_at-restored}
use ite.Project2.System.Locking.{Keeps}

files_from-above :
    (i n tid : ℕ) (f : ℕ → Thread) (t : Thread)
    → tid < i
    → files_from i n (update f tid t) ≡ files_from i n f
files_from-above i zero tid f t h = refl
files_from-above i (suc n) tid f t h =
    let other : (tid == i) ≡ false = ground arith in
    rw (other, files_from-above (i + 1) n tid f t (omega arith))

-- The files with one entry more, which stands somewhere between the entries before.
abbrev Inserted : ℕ → ℕ → (ℕ → Thread) → ℕ → Thread → Log → Type 0
Inserted i n f tid t x =
    (l : List Log) × (r : List Log) × (read_files (files_from i n f) ≡ l ++ r)
    × (read_files (files_from i n (update f tid t)) ≡ l ++ (x ∷ r))

files_from-Inserted :
    (i n : ℕ) (f : ℕ → Thread) (tid : ℕ) (t : Thread) (x : Log)
    → i ≤ tid
    → tid < i + n
    → t.clog ≡ (f tid).clog ++ (x ∷ [])
    → Inserted i n f tid t x
unfolding read_files
files_from-Inserted i zero f tid t x lo hi e = absurd (omega arith)
files_from-Inserted i (suc n) f tid t x lo hi e = elim (Bool-cases (tid == i)) [
  | inl here ↦
      let q : tid ≡ i = ground arith in
      (
        (f i).clog,
        read_files (files_from (i + 1) n f),
        refl,
        rw (here, files_from-above (i + 1) n tid f t (omega arith), e, q)
            (append_assoc (f i).clog (x ∷ []) (read_files (files_from (i + 1) n f))),
      )
  | inr there ↦
      let (l, r, old, new) =
        files_from-Inserted (i + 1) n f tid t x (ground arith) (omega arith) e in
      (
        (f i).clog ++ l,
        r,
        rw old (sym (append_assoc (f i).clog l r)),
        rw there (rw new (sym (append_assoc (f i).clog l (x ∷ r)))),
      )
]

-- The records after a transaction that runs on the committed ones.
abbrev pub committed_base : Database → Thread → Database
committed_base base t = written t.picks.k t.vk (written t.picks.j t.vj base)

module _ {n r : ℕ} {base : Database} {s : System} (tid : ℕ) (inv : Inv n r base s)
    (w : IsWorker n tid) (e : (s.threads tid).pc ≡ committing) where
  abbrev me : Thread
  me = s.threads tid

  mine : ThreadInv r s.db base s.table tid me
  mine = inv.threads tid w

  d : AreDistinct r me.picks
  d = mine.picked (rw e)

  vi_base : me.vi ≡ value_at base me.picks.i
  vi_base = mine.read_i (rw e)

  vj_base : me.vj ≡ raise_by me.vi (value_at base me.picks.j)
  vj_base = (mine.wrote_j (rw e)).0

  vk_base : me.vk ≡ lower_by me.vi (value_at base me.picks.k)
  vk_base = (mine.wrote_k (rw e)).0

  abbrev base1 : Database
  base1 = written me.picks.j me.vj base

  base1_ok : IsBase r base1
  base1_ok = record {
    valid = written-IsValid base me.picks.j me.vj inv.base_ok.valid;
    sized = inv.base_ok.sized;
  }

  pub committed_base-IsBase : IsBase r (committed_base base me)
  committed_base-IsBase = record {
    valid = written-IsValid base1 me.picks.k me.vk base1_ok.valid;
    sized = inv.base_ok.sized;
  }

  value_at-base1 :
      (x : ℕ) → 1 ≤ x → value_at base1 x ≡ (if me.picks.j == x then me.vj else value_at base x)
  value_at-base1 x pos =
      value_at-written base me.picks.j x me.vj inv.base_ok.valid
        (omega (arith, d.1, inv.base_ok.sized)) pos

  value_at-committed :
      (x : ℕ)
      → 1 ≤ x
      → value_at (committed_base base me) x ≡ (if me.picks.k == x then me.vk else value_at base1 x)
  value_at-committed x pos =
      value_at-written base1 me.picks.k x me.vk base1_ok.valid (omega (arith, d.2, base1_ok.sized))
        pos

  j_ne_i : (me.picks.j == me.picks.i) ≡ false
  j_ne_i = ground (arith, d.3)

  j_ne_k : (me.picks.j == me.picks.k) ≡ false
  j_ne_k = ground (arith, d.4)

  k_ne_j : (me.picks.k == me.picks.j) ≡ false
  k_ne_j = ground (arith, d.4)

  at_i : value_at base1 me.picks.i ≡ me.vi
  at_i = value_at-base1 me.picks.i d.0.0 ∙ rw j_ne_i (sym vi_base)

  at_k : value_at base1 me.picks.k ≡ value_at base me.picks.k
  at_k = value_at-base1 me.picks.k d.2.0 ∙ rw j_ne_k

  -- The validator recomputes what the worker has computed.
  replay-committed :
      (id : ℕ) → replay (commit_log id me) base.records ≡ (committed_base base me).records
  unfolding replay
  replay-committed id = rw (← vi_base, ← vj_base, at_k, at_i, ← vk_base)

  new_j : value_at (committed_base base me) me.picks.j ≡ me.vj
  new_j =
      value_at-committed me.picks.j d.1.0
      ∙ rw k_ne_j (value_at-base1 me.picks.j d.1.0 ∙ ground arith)

  new_k : value_at (committed_base base me) me.picks.k ≡ me.vk
  new_k = value_at-committed me.picks.k d.2.0 ∙ ground arith

  pub check_log-committed :
      (id : ℕ)
      → check_log r id (commit_log id me) base.records ≡ some (committed_base base me).records
  unfolding check_log
  check_log-committed id =
      let right_id : (id == id) ≡ true = ground arith in
      let in_range : has_wrong_index r (commit_log id me) ≡ false = ground (arith, d) in
      let good_j : (me.vj == me.vj) ≡ true = ground arith in
      let good_k : (me.vk == me.vk) ≡ true = ground arith in
      rw (right_id, in_range, replay-committed id, check_log, new_j, new_k, good_j, good_k)

  -- The worker and the state after a commit, and after a rollback at the end.
  abbrev logged : Thread
  logged = record me { pc = idle; clog = me.clog ++ (commit_log (s.current_order + 1) me ∷ []) }

  abbrev next_state : System
  next_state =
      set_thread (record s { current_order = s.current_order + 1; table = unlock_all tid s.table })
        tid logged

  logged-Committed :
      s.current_order + 1 ≤ s.last_order → Committed n r (committed_base base me) next_state
  logged-Committed fits =
      let (l, rest, old, new) =
        files_from-Inserted 1 n s.threads tid logged (commit_log (s.current_order + 1) me) w.0
          (omega arith) refl in
      let c = inv.committed in
      let small : UpTo s.current_order (l ++ rest) = rw old at c.numbered in
      let count : length (l ++ rest) ≡ s.current_order = rw old at (c.counted (omega arith)) in
      let sorted =
        sort-append s.current_order (commit_log (s.current_order + 1) me) l rest small
          (omega arith) in
      record {
        replayed =
            rw (new, sorted)
              (check_logs-append r 1 (sort_logs (l ++ rest)) (commit_log (s.current_order + 1) me)
                (push_records 1 r) base.records (committed_base base me).records
                (rw old at c.replayed)
                (ap (λ (m : ℕ). check_log r m (commit_log (s.current_order + 1) me) base.records)
                    (omega (arith, length-sort (l ++ rest), count))
                  ∙ check_log-committed (s.current_order + 1)));
        numbered = rw new (
            UpTo-append (s.current_order + 1) l _
              (UpTo-mono s.current_order (s.current_order + 1) l (omega arith)
                (UpTo-left s.current_order l rest small))
              (
                omega arith,
                UpTo-mono s.current_order (s.current_order + 1) rest (omega arith)
                    (UpTo-right s.current_order l rest small),
              ));
        counted = λ _. rw new (
            omega (
              arith,
              count,
              length-append l rest,
              length-append l (commit_log (s.current_order + 1) me ∷ rest),
            ));
        full = λ h. absurd (omega arith);
      }

  commit-Inv : s.current_order + 1 ≤ s.last_order → Inv n r (committed_base base me) next_state
  commit-Inv fits =
      let (released, _) = unlock_all_lem tid inv.table w in
      leave-Inv tid logged inv w refl next_state (committed_base base me) released.sound
        released.evolves inv.db committed_base-IsBase (λ x i no_. (unchanged x i no_, refl))
        (λ x i yes_. written_now x i yes_) refl (logged-Committed fits)
    where
      unchanged :
          (x : ℕ)
          → InRecords r x
          → writes me x ≡ false
          → value_at (committed_base base me) x ≡ value_at base x
      unchanged x i no_ =
          let off : ((me.picks.j == x) || (me.picks.k == x)) ≡ false = rw e at no_ in
          elim (Bool-cases (me.picks.k == x)) [
            | inl hk ↦ ground arith
            | inr hk ↦ elim (Bool-cases (me.picks.j == x)) [
              | inl hj ↦ ground arith
              | inr hj ↦ value_at-committed x i.0 ∙ rw hk (value_at-base1 x i.0 ∙ rw hj)
            ]
          ]

      written_now :
          (x : ℕ)
          → InRecords r x
          → writes me x ≡ true
          → value_at s.db x ≡ value_at (committed_base base me) x
      written_now x i yes_ =
          let on : ((me.picks.j == x) || (me.picks.k == x)) ≡ true = rw e at yes_ in
          elim (Bool-cases (me.picks.j == x)) [
            | inl hj ↦
                let q : me.picks.j ≡ x = ground arith in
                rw (← q) ((mine.wrote_j (rw e)).1 ∙ sym new_j)
            | inr hj ↦
                let q : me.picks.k ≡ x = ground arith in
                rw (← q) ((mine.wrote_k (rw e)).1 ∙ sym new_k)
          ]

  abbrev stopped : Thread
  stopped = record me { pc = terminated }

  stop-Committed :
      (db' : Database)
      → s.last_order < s.current_order + 1
      → Committed n r base (
          set_thread
            (record s {
              db = db';
              current_order = s.current_order + 1;
              table = unlock_all tid s.table;
            })
            tid
            stopped)
  stop-Committed db' over =
      let c = inv.committed in
      let same = files_from-same 1 n s.threads (update s.threads tid stopped) (λ b.
        at_thread s.threads tid b stopped (λ u. u.clog ≡ (s.threads b).clog) (λ q. rw q)
          (λ _. refl)) in
      record {
        replayed = rw same c.replayed;
        numbered = rw same (
            UpTo-mono s.current_order (s.current_order + 1) (read_files (files n s.threads))
              (omega arith) c.numbered);
        counted = λ h. absurd (omega arith);
        full = λ _. rw same (elim (Bool-cases (ltb s.last_order s.current_order)) [
          | inl late ↦ c.full (ground arith)
          | inr last ↦ omega (arith, c.counted (ground arith), at_end last)
        ]);
      }
    where
      at_end : ltb s.last_order s.current_order ≡ false → s.current_order ≡ s.last_order
      at_end q = ground arith

  pub commit_step-Inv : Keeps n r (commit_step tid s)
  unfolding commit_step
  commit_step-Inv = elim (Bool-cases (ltb s.last_order (s.current_order + 1))) [
    | inr fits ↦ rw (fits, commit_step) (committed_base base me, commit-Inv (ground arith))
    | inl over ↦
        let undo : rollback me.records s.db ≡ some (restored base s.db me.picks (done me.pc)) =
          rw (mine.kept (rw e))
            (rollback-entries r base s.db me.picks (done me.pc) d inv.db.sized) in
        let (released, _) = unlock_all_lem tid inv.table w in
        let back = λ (x : ℕ) (i : 1 ≤ x). value_at-restored r x base s.db me d inv.db i in
        rw (over, commit_step, undo)
          (
            base,
            leave-Inv tid stopped inv w refl _ base released.sound released.evolves
                (back 1 (omega arith)).0 inv.base_ok (λ x i no_. (refl, (back x i.0).1 ∙ rw no_))
                (λ x i yes_. (back x i.0).1 ∙ rw yes_) refl
                (stop-Committed (restored base s.db me.picks (done me.pc)) (ground arith)),
          )
  ]
