-- ===== src/Project2/System/Frame.antt =====
-- A step of one worker leaves what the invariant says of the others.
use ite.Base.{
  ℕ, ◌≡◌, ◌≢◌, refl, Bool, true, false, none, ◌==◌, arith, Bool-cases, inl, inr, ◌∙◌, sym,
}
use ite.Project2.Database.{Database}
use ite.Project2.Database.Access.{value_at}
use ite.Project2.LockTable.{LockTable}
use ite.Project2.LockTable.Visits.{IsWorker}
use ite.Project2.LockTable.Grants.{Granted, Granted-shared}
use ite.Project2.LockTable.Invariant.{queue, InRecords, Evolves, TokenOf-Evolves}
use ite.Project2.System.{
  Phase, for_i, for_j, for_k, Pc, idle, locking, waiting, working, committing, terminated, Picks,
  Thread, System, index_of, is_reader,
}
use ite.Project2.System.Invariant.{
  comes_before, comes_up_to, held, done, is_active, AreDistinct, entries, ThreadInv, writes, Inv,
}

pub held-active : (pc : Pc) (x : Phase) → held pc x ≡ true → is_active pc ≡ true
held-active idle x h = cc
held-active (locking phase) x h = refl
held-active (waiting phase token) x h = refl
held-active (working phase) x h = refl
held-active committing x h = refl
held-active terminated x h = cc

before-up_to : (x y : Phase) → comes_before x y ≡ true → comes_up_to x y ≡ true
before-up_to for_i y h = refl
before-up_to for_j for_i h = cc
before-up_to for_j for_j h = cc
before-up_to for_j for_k h = refl
before-up_to for_k y h = cc

pub done-held : (pc : Pc) (x : Phase) → done pc x ≡ true → held pc x ≡ true
done-held idle x h = cc
done-held (locking phase) x h = h
done-held (waiting phase token) x h = h
done-held (working phase) x h = before-up_to x phase h
done-held committing x h = h
done-held terminated x h = cc

pub index-InRecords : (r : ℕ) (p : Picks) (x : Phase) → AreDistinct r p → InRecords r (index_of x p)
index-InRecords r p for_i d = d.0
index-InRecords r p for_j d = d.1
index-InRecords r p for_k d = d.2

pub entries-base :
    (base base' : Database) (p : Picks) (passed : Phase → Bool)
    → ((x : Phase) → passed x ≡ true → value_at base' (index_of x p) ≡ value_at base (index_of x p))
    → entries base' p passed ≡ entries base p passed
entries-base base base' p passed same = elim (Bool-cases (passed for_i)) [
  | inr a ↦ rw a
  | inl a ↦ elim (Bool-cases (passed for_j)) [
    | inr b ↦ rw (a, b) (rw (same for_i a))
    | inl b ↦ elim (Bool-cases (passed for_k)) [
      | inr c ↦ rw (a, b, c) (rw (same for_i a, same for_j b))
      | inl c ↦ rw (a, b, c) (rw (same for_i a, same for_j b, same for_k c))
    ]
  ]
]

module _ {r tid : ℕ} {db db' base base' : Database} {table table' : LockTable} {P : ℕ → Type 0}
    {t : Thread} (inv : ThreadInv r db base table tid t) (evolves : Evolves r P table table')
    (mine : P tid)
    (same_base : (x : Phase)
      → done t.pc x ≡ true
      → value_at base' (index_of x t.picks) ≡ value_at base (index_of x t.picks))
    (same_db : (x : Phase)
      → done t.pc x ≡ true
      → is_reader x ≡ false
      → value_at db' (index_of x t.picks) ≡ value_at db (index_of x t.picks)) where
  pub ThreadInv-frame : ThreadInv r db' base' table' tid t
  ThreadInv-frame = record {
    picked = inv.picked;
    locked = λ x h.
        evolves.grants (index_of x t.picks) tid (is_reader x)
          (index-InRecords r t.picks x (inv.picked (held-active t.pc x h))) mine (inv.locked x h);
    token_of = λ x token e.
        let (own, at) = inv.token_of x token e in
        (TokenOf-Evolves tid (is_reader x) token evolves own, at);
    read_i = λ h. inv.read_i h ∙ sym (same_base for_i h);
    wrote_j =
        λ h. let (v, w) = inv.wrote_j h in (rw (same_base for_j h) v, same_db for_j h refl ∙ w);
    wrote_k =
        λ h. let (v, w) = inv.wrote_k h in (rw (same_base for_k h) v, same_db for_k h refl ∙ w);
    kept = λ h. inv.kept h ∙ sym (entries-base base base' t.picks (done t.pc) same_base);
  }

-- A record that one worker has locked for writing is not one that another has come to.
pub held-apart :
    {n r : ℕ} {base : Database} {s : System} (a b : ℕ) (x y : Phase)
    → Inv n r base s
    → IsWorker n a
    → IsWorker n b
    → a ≢ b
    → held (s.threads a).pc x ≡ true
    → is_reader x ≡ false
    → held (s.threads b).pc y ≡ true
    → index_of x (s.threads a).picks ≢ index_of y (s.threads b).picks
held-apart {r} {s} a b x y inv wa wb ne ha mode hb e =
    let ia = inv.threads a wa in
    let ib = inv.threads b wb in
    let range =
      index-InRecords r (s.threads a).picks x (ia.picked (held-active (s.threads a).pc x ha)) in
    let theirs : Granted (queue s.table (index_of x (s.threads a).picks)) b (is_reader y) =
      rw e (ib.locked y hb) in
    let both =
      Granted-shared none (queue s.table (index_of x (s.threads a).picks)) a b (is_reader x)
        (is_reader y) (inv.table.shared (index_of x (s.threads a).picks) range) (ia.locked x ha)
        theirs ne in
    ground arith

-- No other worker has an uncommitted write on a record that this one has locked.
pub held-unwritten :
    {n r : ℕ} {base : Database} {s : System} (a : ℕ) (x : Phase)
    → Inv n r base s
    → IsWorker n a
    → held (s.threads a).pc x ≡ true
    → (b : ℕ) → IsWorker n b
    → a ≢ b
    → writes (s.threads b) (index_of x (s.threads a).picks) ≡ false
held-unwritten {s} a x inv wa ha b wb ne =
    let p = index_of x (s.threads a).picks in
    let other = s.threads b in
    let apart = λ (y : Phase) (d : done other.pc y ≡ true) (m : is_reader y ≡ false).
      held-apart b a y x inv wb wa (λ e. ne (sym e)) (done-held other.pc y d) m ha in
    elim (Bool-cases (done other.pc for_j)) [
      | inl dj ↦ elim (Bool-cases (done other.pc for_k)) [
        | inl dk ↦
            let fj : (other.picks.j == p) ≡ false = ground (arith, apart for_j dj refl) in
            let fk : (other.picks.k == p) ≡ false = ground (arith, apart for_k dk refl) in
            rw (dj, dk, fj, fk)
        | inr dk ↦
            let fj : (other.picks.j == p) ≡ false = ground (arith, apart for_j dj refl) in
            rw (dj, dk, fj)
      ]
      | inr dj ↦ elim (Bool-cases (done other.pc for_k)) [
        | inl dk ↦
            let fk : (other.picks.k == p) ≡ false = ground (arith, apart for_k dk refl) in
            rw (dj, dk, fk)
        | inr dk ↦ rw (dj, dk)
      ]
    ]
