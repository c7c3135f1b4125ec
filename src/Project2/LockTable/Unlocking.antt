-- ===== src/Project2/LockTable/Unlocking.antt =====
-- Giving up tokens, the loop of LockTable::unlockAll in project2/src/locktable.cpp.
use ite.Base.{ℕ, ◌≡◌, ◌≢◌, refl, Bool, List, [], ◌∷◌, inl, inr, Has}
use mathlib.Core.Path.{subst}
use ite.Project2.RwLock.{LockElement, LockToken, erase_node, unlock}
use ite.Project2.LockTable.Defs.{LockTable, lock_at, set_lock, unlock_tokens}
use ite.Project2.LockTable.Nodes.{erased, Has-erase_other}
use ite.Project2.LockTable.Grants.{Has-erase}
use ite.Project2.LockTable.Invariant.{
  queue, InRecords, TokenOf, IsSound, Evolves, Evolves-refl, Evolves-trans, TokenOf-Evolves,
  set_lock-Evolves, set_lock-IsSound, at_lock,
}
use ite.Project2.LockTable.Moves.{unlock-Evolves}

abbrev pub Others : ℕ → ℕ → Type 0
Others tid a = a ≢ tid

-- What giving up `tokens` of thread `tid` does: their requests are gone, and the queues have the same
-- requests of the other threads, as they were, and no new ones.
pub record Unlocked (n r tid : ℕ) (tokens : List LockToken) (t t' : LockTable) : Type 0 where
  pub sound : IsSound n r t'
  pub evolves : Evolves r (Others tid) t t'
  pub gone :
      (token : LockToken) (e : LockElement)
      → Has token tokens
      → Has e (queue t' token.index)
      → e.node ≢ token.lock
  pub others :
      (x : ℕ) (e : LockElement)
      → InRecords r x
      → e.tid ≢ tid
      → Has e (queue t x)
      → Has e (queue t' x)
  pub nothing_new :
      (x : ℕ) (e : LockElement) → InRecords r x → Has e (queue t' x) → Has e (queue t x)

module _ {n r : ℕ} {t : LockTable} (sound : IsSound n r t) (tid : ℕ) (rd : Bool) (token : LockToken)
    (mine : TokenOf r t tid rd token) where
  abbrev freed : LockTable
  freed = set_lock t token.index (unlock token (lock_at t token.index))

  at_freed :
      (x : ℕ) (C : List LockElement → Type 0)
      → InRecords r x
      → (token.index ≡ x → C (erase_node token.lock (queue t token.index)))
      → (token.index ≢ x → C (queue t x))
      → C (queue freed x)
  unfolding unlock
  at_freed x C =
      at_lock r t token.index x (unlock token (lock_at t token.index)) (λ m. C m.thread_queue)
        sound.locks_size mine.0

  freed-gone : (e : LockElement) → Has e (queue freed token.index) → e.node ≢ token.lock
  freed-gone e =
      at_freed token.index (λ q. Has e q → e.node ≢ token.lock) mine.0
        (λ _. erased 0 token.lock (queue t token.index) e (sound.ordered token.index mine.0))
        (λ ne. absurd (ne refl))

  freed-others :
      (x : ℕ) (e : LockElement)
      → InRecords r x
      → e.tid ≢ tid
      → Has e (queue t x)
      → Has e (queue freed x)
  freed-others x e i ne h =
      at_freed x (Has e) i
        (λ same.
          let here : Has e (queue t token.index) = rw same h in
          Has-erase_other token.lock (queue t token.index) e (λ hit. ne (mine.2 e here hit).0) here)
        (λ _. h)

  freed-nothing_new :
      (x : ℕ) (e : LockElement) → InRecords r x → Has e (queue freed x) → Has e (queue t x)
  freed-nothing_new x e i =
      at_freed x (λ q. Has e q → Has e (queue t x)) i
        (λ same h.
          let before : Has e (queue t token.index) =
            Has-erase token.lock (queue t token.index) e h in
          rw (← same) before)
        (λ _ h. h)

pub unlock_tokens_lem :
    {n r : ℕ} (tid : ℕ) (tokens : List LockToken) (t : LockTable)
    → IsSound n r t
    → ((token : LockToken) → Has token tokens → (rd : Bool) × TokenOf r t tid rd token)
    → Unlocked n r tid tokens t (unlock_tokens tokens t)
unfolding unlock_tokens
unlock_tokens_lem {r} tid [] t sound own = record {
  sound = sound;
  evolves = Evolves-refl r (Others tid) t;
  gone = λ token e never h. elim never [ ];
  others = λ x e i ne h. h;
  nothing_new = λ x e i h. h;
}
unlock_tokens_lem {n} {r} tid (token ∷ tokens) t sound own =
    let (rd, mine) = own token (inl refl) in
    let f = unlock-Evolves n tid rd token (lock_at t token.index) mine.2 in
    let g = set_lock-Evolves sound token.index mine.0 f in
    let rest =
      unlock_tokens_lem tid tokens (freed sound tid rd token mine)
        (set_lock-IsSound sound token.index mine.0 f)
        (λ other i.
          let (rd', theirs) = own other (inr i) in (rd', TokenOf-Evolves tid rd' other g theirs)) in
    record {
      sound = rest.sound;
      evolves = Evolves-trans g rest.evolves;
      gone = λ other e i h. elim i [
        | inl same ↦
            subst
              (λ (o : LockToken).
                Has e (queue (unlock_tokens tokens (freed sound tid rd token mine)) o.index)
                → e.node ≢ o.lock)
              same
              (λ here.
                freed-gone sound tid rd token mine e (rest.nothing_new token.index e mine.0 here))
              h
        | inr j ↦ rest.gone other e j h
      ];
      others = λ x e i ne h. rest.others x e i ne (freed-others sound tid rd token mine x e i ne h);
      nothing_new =
          λ x e i h. freed-nothing_new sound tid rd token mine x e i (rest.nothing_new x e i h);
    }
