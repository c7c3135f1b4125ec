-- ===== src/Project2/LockTable/Moves.antt =====
-- What `addLock`, `canEnter` and `unlock` change of a sound lock table: project2/src/locktable.cpp.
use ite.Base.{
  ℕ, ◌-◌, ◌≡◌, ◌≢◌, refl, Bool, true, none, List, [], ◌==◌, arith, Bool-cases, inl, inr, Has,
  Has-append, Has-append_left, length, length-set, get_or-set_self, get_or-set_ne,
}
use ite.Project2.RwLock.{LockToken, RwLock, add_lock, unlock, can_enter}
use ite.Project2.RwLock.Exclusion.{IsShared-append, IsShared-enter, IsShared-erase}
use ite.Project2.LockTable.Defs.{LockTable, lock_at, tokens_of, set_tokens, poll}
use ite.Project2.LockTable.Nodes.{
  IsOrdered-append, IsOrdered-enter, IsOrdered-erase, Has-erase_other, Stays-enter,
}
use ite.Project2.LockTable.Visits.{IsWorker}
use ite.Project2.LockTable.Grants.{
  Granted, Owned, Granted-append, Granted-enter, Granted-erase, enter-Granted, Has-enter, Has-erase,
}
use ite.Project2.LockTable.Invariant.{
  queue, TokenOf, IsSound, Evolves, LockEvolves, set_lock-Evolves, set_lock-IsSound, at_lock,
}

abbrev pub Anyone : ℕ → Type 0
Anyone _ = Unit

pub add_lock-Evolves :
    (n tid : ℕ) (rd : Bool) (l : RwLock)
    → IsWorker n tid
    → LockEvolves n Anyone l (add_lock tid rd l).1
unfolding add_lock
add_lock-Evolves n tid rd l w = record {
  grants = λ a b p g. Granted-append l.thread_queue _ a b g;
  old = λ e h lt. elim (Has-append e l.thread_queue _ h) [
    | inl earlier ↦ (e, earlier, (refl, refl, refl))
    | inr (inl same) ↦ absurd (ground arith)
    | inr (inr never) ↦ elim never [ ]
  ];
  grows = omega arith;
  index = refl;
  shared = λ s. IsShared-append none l.thread_queue _ refl s;
  stays = λ e p h. (e, Has-append_left e l.thread_queue _ h, (refl, refl, refl));
  ordered = λ all h. IsOrdered-append 0 l.thread_queue _ (omega arith) (λ e i. (all e i).0) h;
  requests = λ all e h. elim (Has-append e l.thread_queue _ h) [
    | inl earlier ↦ let a = all e earlier in (omega arith, a.1)
    | inr (inl same) ↦ (ground arith, (ground arith, ground arith))
    | inr (inr never) ↦ elim never [ ]
  ];
}

can_enter-Evolves :
    (n : ℕ) (token : LockToken) (l : RwLock) → LockEvolves n Anyone l (can_enter token l).1
unfolding can_enter
can_enter-Evolves n token l = record {
  grants = λ a b p g. Granted-enter none token.lock l.thread_queue a b g;
  old = λ e h lt. Has-enter none token.lock l.thread_queue e h;
  grows = omega arith;
  index = refl;
  shared = IsShared-enter token.lock none l.thread_queue;
  stays = λ e p h. Stays-enter none token.lock l.thread_queue e h;
  ordered = λ all h. IsOrdered-enter 0 none token.lock l.thread_queue h;
  requests = λ all e h.
      let (e', i, same) = Has-enter none token.lock l.thread_queue e h in
      let a = all e' i in (ground arith, (ground arith, ground arith));
}

pub unlock-Evolves :
    (n tid : ℕ) (rd : Bool) (token : LockToken) (l : RwLock)
    → Owned l.thread_queue token.lock tid rd
    → LockEvolves n (λ a. a ≢ tid) l (unlock token l)
unfolding unlock
unlock-Evolves n tid rd token l own = record {
  grants = λ a b ne g.
      Granted-erase token.lock l.thread_queue a b (λ e h hit same. ne (ground (arith, own e h hit)))
        g;
  old = λ e h lt. (e, Has-erase token.lock l.thread_queue e h, (refl, refl, refl));
  grows = omega arith;
  index = refl;
  shared = IsShared-erase token.lock none l.thread_queue;
  stays = λ e ne h. (
    e,
    Has-erase_other token.lock l.thread_queue e (λ hit. ne (own e h hit).0) h,
    (refl, refl, refl),
  );
  ordered = λ all h. IsOrdered-erase 0 token.lock l.thread_queue h;
  requests = λ all e h. all e (Has-erase token.lock l.thread_queue e h);
}

module _ {n r : ℕ} {t : LockTable} (sound : IsSound n r t) where
  -- `canEnter` keeps the table sound, and where it answers true the thread holds the lock.
  pub poll_lem :
      (tid : ℕ) (rd : Bool) (token : LockToken)
      → TokenOf r t tid rd token
      → IsSound n r (poll token t).1
        × Evolves r Anyone t (poll token t).1
        × ((poll token t).0 ≡ true → Granted (queue (poll token t).1 token.index) tid rd)
  unfolding poll can_enter
  poll_lem tid rd token (i, lt, own) =
      let f = can_enter-Evolves n token (lock_at t token.index) in
      (
        set_lock-IsSound sound token.index i f,
        set_lock-Evolves sound token.index i f,
        λ yes_.
            at_lock r t token.index token.index (can_enter token (lock_at t token.index)).1
              (λ m. Granted m.thread_queue tid rd) sound.locks_size i i
              (λ _. enter-Granted none token.lock (queue t token.index) tid rd own yes_)
              (λ ne. absurd (ne refl)),
      )

-- The lists of tokens change nothing of the locks.
pub set_tokens-Evolves :
    (r tid : ℕ) (P : ℕ → Type 0) (t : LockTable) (ts : List LockToken)
    → Evolves r P t (set_tokens t tid ts)
set_tokens-Evolves r tid P t ts = record {
  grants = λ x a b i p g. g;
  old = λ x e i h lt. (e, h, (refl, refl, refl));
  grows = λ x i. omega arith;
  stays = λ x e i p h. (e, h, (refl, refl, refl));
}

pub at_tokens :
    (n : ℕ) (t : LockTable) (tid a : ℕ) (ts : List LockToken) (C : List LockToken → Type 0)
    → length t.adj ≡ n
    → IsWorker n tid
    → IsWorker n a
    → (tid ≡ a → C ts)
    → C (tokens_of t a)
    → C (tokens_of (set_tokens t tid ts) a)
at_tokens n t tid a ts C size w v here there = elim (Bool-cases (tid == a)) [
  | inl same ↦
      let e : tid ≡ a = ground arith in
      rw (← e) (rw (get_or-set_self t.adj (tid - 1) ts [] (omega arith)) (here e))
  | inr other ↦ rw (get_or-set_ne t.adj (tid - 1) (a - 1) ts [] (ground arith)) there
]

pub set_tokens-IsSound :
    {n r : ℕ} {t : LockTable} (tid : ℕ) (ts : List LockToken)
    → IsSound n r t
    → IsWorker n tid
    → ((token : LockToken) → Has token ts → (rd : Bool) × TokenOf r t tid rd token)
    → IsSound n r (set_tokens t tid ts)
set_tokens-IsSound {n} {r} {t} tid ts sound w own = record {
  workers = sound.workers;
  adj_size = omega (arith, length-set t.adj (tid - 1) ts, sound.adj_size);
  locks_size = sound.locks_size;
  indexed = sound.indexed;
  shared = sound.shared;
  requests = sound.requests;
  ordered = sound.ordered;
  owned = λ a token v.
      at_tokens n t tid a ts (λ l. Has token l → (rd : Bool) × TokenOf r t a rd token)
        sound.adj_size w v (λ e. rw (← e) (own token)) (sound.owned a token v);
}
