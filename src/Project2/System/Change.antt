-- ===== src/Project2/System/Change.antt =====
-- One worker changes, and the files stay as they are: what a step has to show for the invariant.
-- Steps of WorkerThread::workTransaction, project2/src/worker.cpp.
use ite.Base.{
  ℕ, zero, suc, ◌+◌, ◌≡◌, ◌≢◌, refl, true, ◌==◌, arith, Bool-cases, inl, inr, ◌∙◌, sym, ap,
}
use mathlib.Core.Path.{subst, fun_ext}
use ite.Project2.Database.{Database}
use ite.Project2.RwLock.{LockToken}
use ite.Project2.LockTable.{LockTable}
use ite.Project2.LockTable.Grants.{Granted}
use ite.Project2.LockTable.Invariant.{queue, TokenOf, IsSound, Evolves}
use ite.Project2.LockTable.Moves.{Anyone}
use ite.Project2.System.{
  Phase, for_i, for_j, for_k, Pc, waiting, Thread, System, index_of, is_reader, update, set_thread,
}
use ite.Project2.System.Invariant.{
  held, done, is_active, entries, ThreadInv, writes, files_from, Committed, Inv,
}
use ite.Project2.System.Frame.{ThreadInv-frame}

-- To prove something of every worker after one has changed.
pub at_thread :
    (f : ℕ → Thread) (tid b : ℕ) (t : Thread) (C : Thread → Type 0)
    → (tid ≡ b → C t)
    → (tid ≢ b → C (f b))
    → C (update f tid t b)
at_thread f tid b t C here there = elim (Bool-cases (tid == b)) [
  | inl same ↦ rw same (here (ground arith))
  | inr other ↦ rw other (there (ground arith))
]

pub at_self : (f : ℕ → Thread) (tid : ℕ) (t : Thread) → update f tid t tid ≡ t
at_self f tid t = ground arith

pub files_from-same :
    (i n : ℕ) (f g : ℕ → Thread)
    → ((b : ℕ) → (g b).clog ≡ (f b).clog)
    → files_from i n g ≡ files_from i n f
files_from-same i zero f g same = refl
files_from-same i (suc n) f g same = rw (same i, files_from-same (i + 1) n f g same)

-- The order numbers and the files are as before.
pub Committed-same :
    {n r : ℕ} {base : Database} {s : System} (s' : System)
    → Committed n r base s
    → s'.current_order ≡ s.current_order
    → s'.last_order ≡ s.last_order
    → ((b : ℕ) → (s'.threads b).clog ≡ (s.threads b).clog)
    → Committed n r base s'
Committed-same {n} {s} s' c order last same =
    let e = files_from-same 1 n s.threads s'.threads same in
    record {
      replayed = rw e c.replayed;
      numbered = rw (e, order) c.numbered;
      counted = λ h. rw (e, order) (c.counted (rw (order, last) at h));
      full = λ h. rw (e, last) (c.full (rw (order, last) at h));
    }

-- The lock table changes, and takes no grant away.
pub table-Inv :
    {n r : ℕ} {base : Database} {s : System} (table : LockTable)
    → Inv n r base s
    → IsSound n r table
    → Evolves r Anyone s.table table
    → Inv n r base (record s { table = table })
table-Inv {s} table inv sound evolves = record {
  table = sound;
  db = inv.db;
  base_ok = inv.base_ok;
  threads = λ b w. ThreadInv-frame (inv.threads b w) evolves tt (λ x h. refl) (λ x h m. refl);
  clean = inv.clean;
  committed = Committed-same (record s { table = table }) inv.committed refl refl (λ b. refl);
}

-- Worker `tid` changes, and the database does not.
pub thread-Inv :
    {n r : ℕ} {base : Database} {s : System} (tid : ℕ) (t : Thread)
    → Inv n r base s
    → ThreadInv r s.db base s.table tid t
    → t.clog ≡ (s.threads tid).clog
    → ((x : ℕ) → writes t x ≡ writes (s.threads tid) x)
    → Inv n r base (set_thread s tid t)
thread-Inv {n} {r} {base} {s} tid t inv new log same = record {
  table = inv.table;
  db = inv.db;
  base_ok = inv.base_ok;
  threads = λ b w.
      at_thread s.threads tid b t (ThreadInv r s.db base s.table b)
        (λ e. subst (λ a. ThreadInv r s.db base s.table a t) e new) (λ _. inv.threads b w);
  clean = λ x i none_writes. inv.clean x i (λ b w.
      let now = none_writes b w in
      elim (Bool-cases (tid == b)) [
        | inl e ↦ let e' : tid ≡ b = ground arith in rw (← e') (sym (same x) ∙ rw e at now)
        | inr e ↦ rw e at now
      ]);
  committed = Committed-same (set_thread s tid t) inv.committed refl refl (λ b.
      at_thread s.threads tid b t (λ u. u.clog ≡ (s.threads b).clog) (λ e. rw (← e) log)
        (λ _. refl));
}

-- The place in the code changes, and the values do not.
pub ThreadInv-advance :
    {r tid : ℕ} {db base : Database} {table : LockTable} {t : Thread} (pc : Pc)
    → ThreadInv r db base table tid t
    → is_active t.pc ≡ true
    → ((x : Phase) → done pc x ≡ done t.pc x)
    → ((x : Phase)
        → held pc x ≡ true
        → Granted (queue table (index_of x t.picks)) tid (is_reader x))
    → ((x : Phase) (token : LockToken)
        → pc ≡ waiting x token
        → TokenOf r table tid (is_reader x) token × (token.index ≡ index_of x t.picks))
    → ThreadInv r db base table tid (record t { pc = pc })
ThreadInv-advance {base} {t} pc inv active same locked token_of = record {
  picked = λ _. inv.picked active;
  locked = locked;
  token_of = token_of;
  read_i = λ h. inv.read_i (sym (same for_i) ∙ h);
  wrote_j = λ h. inv.wrote_j (sym (same for_j) ∙ h);
  wrote_k = λ h. inv.wrote_k (sym (same for_k) ∙ h);
  kept = λ _. inv.kept active ∙ ap (entries base t.picks) (fun_ext (λ x. sym (same x)));
}
