-- ===== src/Project2/LockTable/Operations.antt =====
-- Every operation of the lock table keeps it sound: LockTable of project2/src/locktable.cpp.
use ite.Base.{
  ℕ, ◌-◌, ◌≡◌, ◌<◌, refl, Bool, true, false, [], ◌∷◌, ◌++◌, arith, inl, inr, Has, Has-append,
  Has-append_right, sym, ◌∙◌, get_or-set_self,
}
use mathlib.Core.Path.{subst}
use ite.Project2.RwLock.{LockElement, LockToken, RwLock, add_lock}
use ite.Project2.LockTable.Defs.{
  LockTable, Result, lock_at, tokens_of, set_lock, set_tokens, request, poll, has_cycle,
  unlock_tokens, unlock_all,
}
use ite.Project2.LockTable.Visits.{IsWorker}
use ite.Project2.LockTable.Grants.{Owned}
use ite.Project2.LockTable.Invariant.{
  queue, next_node, InRecords, TokenOf, IsSound, Evolves, Evolves-trans, TokenOf-Evolves,
  LockEvolves, set_lock-Evolves, set_lock-IsSound, at_lock,
}
use ite.Project2.LockTable.Moves.{
  Anyone, poll_lem, add_lock-Evolves, set_tokens-Evolves, set_tokens-IsSound,
}
use ite.Project2.LockTable.Unlocking.{Others, Unlocked, unlock_tokens_lem}

-- On a sound table, `unlockAll` of a worker keeps the table sound. It takes the requests of all its
-- tokens out of the queues, leaves it no token, keeps every request of another thread in its queue
-- just as it is, granted or waiting, and puts no request in.
pub unlock_all_lem :
    {n r : ℕ} {t : LockTable} (tid : ℕ)
    → IsSound n r t
    → IsWorker n tid
    → Unlocked n r tid (tokens_of t tid) t (unlock_all tid t)
      × (tokens_of (unlock_all tid t) tid ≡ [])
unfolding unlock_all
unlock_all_lem {n} {r} {t} tid sound w =
    let u = unlock_tokens_lem tid (tokens_of t tid) t sound (λ token. sound.owned tid token w) in
    (
      record {
        sound = set_tokens-IsSound tid [] u.sound w (λ token never. elim never [ ]);
        evolves =
            Evolves-trans u.evolves
              (set_tokens-Evolves r tid (Others tid) (unlock_tokens (tokens_of t tid) t) []);
        gone = u.gone;
        others = u.others;
        nothing_new = u.nothing_new;
      },
      get_or-set_self (unlock_tokens (tokens_of t tid) t).adj (tid - 1) [] []
          (omega (arith, u.sound.adj_size)),
    )

pub record Requested (n r tid index : ℕ) (rd : Bool) (t : LockTable)
    (q : LockToken × Result Bool × LockTable) : Type 0 where
  pub sound : IsSound n r q.2
  pub evolves : Evolves r Anyone t q.2
  pub mine : TokenOf r q.2 tid rd q.0
  pub at : q.0.index ≡ index
  pub in_queue :
      (e : LockElement) × Has e (queue q.2 index)
      × (e.node ≡ q.0.lock)
      × (e.tid ≡ tid)
      × (e.is_reader ≡ rd)
  pub kept : Has q.0 (tokens_of q.2 tid)

-- The table with the new request in the queue and its token in the list of its thread.
abbrev queued : ℕ → ℕ → Bool → LockTable → LockTable
queued tid index rd t =
    let l = add_lock tid rd (lock_at t index) in
    let t1 = set_lock t index l.1 in set_tokens t1 tid (tokens_of t1 tid ++ (l.0 ∷ []))

module _ {n r : ℕ} {t : LockTable} (sound : IsSound n r t) (tid index : ℕ) (rd : Bool) where
  fresh-TokenOf :
      (x : ℕ)
      → InRecords r index
      → IsWorker n tid
      → x ≡ index
      → TokenOf r
          (set_lock t index (add_lock tid rd (lock_at t index)).1)
          tid
          rd
          (record { tid = tid; index = x; lock = next_node t index })
  unfolding add_lock
  fresh-TokenOf x i w e = rw e (
    i,
    at_lock r t index index l (λ m. next_node t index < m.next_node) sound.locks_size i i
        (λ _. omega arith) (λ ne. absurd (ne refl)),
    at_lock r t index index l (λ m. Owned m.thread_queue (next_node t index) tid rd)
        sound.locks_size i i
        (λ _ b h same. elim (Has-append b (queue t index) _ h) [
          | inl earlier ↦ absurd (omega (arith, sound.requests index b i earlier))
          | inr (inl new) ↦ (ground arith, ground arith)
          | inr (inr never) ↦ elim never [ ]
        ])
        (λ ne. absurd (ne refl)),
  )
    where
      l : RwLock
      l = (add_lock tid rd (lock_at t index)).1

  queued_lem :
      InRecords r index
      → IsWorker n tid
      → IsSound n r (queued tid index rd t)
        × Evolves r Anyone t (queued tid index rd t)
        × TokenOf r (queued tid index rd t) tid rd (add_lock tid rd (lock_at t index)).0
  unfolding add_lock
  queued_lem i w = (
    set_tokens-IsSound tid (tokens_of t1 tid ++ (token ∷ [])) s w (λ other h.
        elim (Has-append other (tokens_of t1 tid) _ h) [
          | inl earlier ↦ s.owned tid other w earlier
          | inr (inl new) ↦ (rd, subst (TokenOf r t1 tid rd) new mine)
          | inr (inr never) ↦ elim never [ ]
        ]),
    Evolves-trans (set_lock-Evolves sound index i f)
        (set_tokens-Evolves r tid Anyone t1 (tokens_of t1 tid ++ (token ∷ []))),
    mine,
  )
    where
      f : LockEvolves n Anyone (lock_at t index) (add_lock tid rd (lock_at t index)).1
      f = add_lock-Evolves n tid rd (lock_at t index) w

      t1 : LockTable
      t1 = set_lock t index (add_lock tid rd (lock_at t index)).1

      token : LockToken
      token = (add_lock tid rd (lock_at t index)).0

      s : IsSound n r t1
      s = set_lock-IsSound sound index i f

      mine : TokenOf r t1 tid rd token
      mine = fresh-TokenOf (lock_at t index).index i w (sound.indexed index i)

  abbrev new_request : LockElement
  new_request = record { node = next_node t index; tid = tid; is_reader = rd; is_blocked = true }

  queued-in_queue : InRecords r index → Has new_request (queue (queued tid index rd t) index)
  unfolding add_lock
  queued-in_queue i =
      at_lock r t index index (add_lock tid rd (lock_at t index)).1
        (λ m. Has new_request m.thread_queue) sound.locks_size i i
        (λ _. Has-append_right new_request (queue t index) (new_request ∷ []) (inl refl))
        (λ ne. absurd (ne refl))

  queued-kept :
      IsWorker n tid
      → Has (add_lock tid rd (lock_at t index)).0 (tokens_of (queued tid index rd t) tid)
  queued-kept w =
      let token = (add_lock tid rd (lock_at t index)).0 in
      let t1 = set_lock t index (add_lock tid rd (lock_at t index)).1 in
      subst (Has token)
        (sym (
          get_or-set_self t1.adj (tid - 1) (tokens_of t1 tid ++ (token ∷ [])) []
            (omega (arith, sound.adj_size))))
        (Has-append_right token (tokens_of t1 tid) (token ∷ []) (inl refl))

  added_node : (add_lock tid rd (lock_at t index)).0.lock ≡ next_node t index
  unfolding add_lock
  added_node = refl

request-queued :
    (t : LockTable) (tid index : ℕ) (rd : Bool)
    → request tid index rd t ≡ (
      (add_lock tid rd (lock_at t index)).0,
      (has_cycle (add_lock tid rd (lock_at t index)).0 (queued tid index rd t)).0,
      (has_cycle (add_lock tid rd (lock_at t index)).0 (queued tid index rd t)).1,
    )
unfolding request
request-queued t tid index true = refl
request-queued t tid index false = refl

add_lock-index :
    (tid : ℕ) (rd : Bool) (l : RwLock) (x : ℕ) → l.index ≡ x → (add_lock tid rd l).0.index ≡ x
unfolding add_lock
add_lock-index tid rd l x h = h

has_cycle-tokens :
    (token : LockToken) (t : LockTable) (tid : ℕ)
    → tokens_of (has_cycle token t).1 tid ≡ tokens_of t tid
unfolding has_cycle
has_cycle-tokens token t tid = refl

has_cycle_lem :
    {n r : ℕ} {t : LockTable} (tid : ℕ) (rd : Bool) (token : LockToken)
    → IsSound n r t
    → TokenOf r t tid rd token
    → IsSound n r (has_cycle token t).1 × Evolves r Anyone t (has_cycle token t).1
unfolding has_cycle poll
has_cycle_lem tid rd token sound mine = let (s, f, _) = poll_lem sound tid rd token mine in (s, f)

pub request_lem :
    {n r : ℕ} {t : LockTable} (tid index : ℕ) (rd : Bool)
    → IsSound n r t
    → InRecords r index
    → IsWorker n tid
    → Requested n r tid index rd t (request tid index rd t)
request_lem {n} {r} {t} tid index rd sound i w =
    let (s, f, mine) = queued_lem sound tid index rd i w in
    let token = (add_lock tid rd (lock_at t index)).0 in
    let (s', f') = has_cycle_lem tid rd token s mine in
    let (e, there, same) =
      f'.stays index (new_request sound tid index rd) i tt (queued-in_queue sound tid index rd i) in
    rw (request-queued t tid index rd) (record {
      sound = s';
      evolves = Evolves-trans f f';
      mine = TokenOf-Evolves tid rd token f' mine;
      at = add_lock-index tid rd (lock_at t index) index (sound.indexed index i);
      in_queue =
          (e, there, sym same.0 ∙ sym (added_node sound tid index rd), sym same.1, sym same.2);
      kept =
          subst (Has token) (sym (has_cycle-tokens token (queued tid index rd t) tid))
            (queued-kept sound tid index rd w);
    })
