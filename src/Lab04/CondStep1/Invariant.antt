-- ===== src/Lab04/CondStep1/Invariant.antt =====
-- What holds between the rounds of lab04/prime_cond_step1.cpp, once all threads have come to their loop.
use ite.Base.{ℕ, ◌≡◌, ◌<◌, ◌≤◌, refl, List, [], ◌∷◌, inl, inr, ◌⊎◌, ◌∙◌, sum_over, split}
use ite.Lab03.Count.{thread_func, count_range}
use ite.Lab04.CondStep1.{
  ThreadRet, pending, release, counted, Pc, not_created, entering, before_wait, waiting, woken,
  exited, MainPc, creating, getting_ready, reading, resetting, starting, spinning, collecting,
  releasing, dismissing, joining, finished, Answer, System, num_thread,
}

pub data Stage : Type 0 where
  resting reset active done released leaving : Stage

abbrev pub Rests : Pc → Type 0
Rests p = (p ≡ before_wait) ⊎ (p ≡ waiting)

-- What a thread may be at, and its result be, in a stage; `n` is its share of the range.
abbrev pub Agrees : ℕ → Pc → ThreadRet → Stage → Type 0
Agrees n p r resting = Rests p
Agrees n p r reset = Rests p × (r ≡ pending)
Agrees n p r active = ((r ≡ pending) × (Rests p ⊎ (p ≡ woken))) ⊎ (Rests p × (r ≡ counted n))
Agrees n p r done = Rests p × (r ≡ counted n)
Agrees n p r released = Rests p × (r ≡ release)
Agrees n p r leaving = (r ≡ release) × (Rests p ⊎ ((p ≡ woken) ⊎ (p ≡ exited)))

abbrev pub stage : MainPc → ℕ → Stage
stage (creating i) a = resting
stage (getting_ready i) a = resting
stage reading a = resting
stage (resetting i) a = split a i reset resting resting
stage starting a = reset
stage (spinning i) a = split a i done active active
stage (collecting i sum) a = done
stage (releasing i) a = split a i released resting resting
stage dismissing a = released
stage (joining i) a = leaving
stage finished a = leaving

abbrev pub share_of : System → ℕ → ℕ
share_of s a = thread_func s.range_start s.range_end a

abbrev pub Shape : System → MainPc → Type 0
Shape s (creating i) = ⊥
Shape s (getting_ready i) = ⊥
Shape s reading = Unit
Shape s (resetting i) = i ≤ num_thread
Shape s starting = Unit
Shape s (spinning i) = i ≤ num_thread
Shape s (collecting i sum) = (i ≤ num_thread) × (sum ≡ sum_over i (share_of s))
Shape s (releasing i) = i ≤ num_thread
Shape s dismissing = Unit
Shape s (joining i) = Unit
Shape s finished = Unit

abbrev pub AreRight : List Answer → Type 0
AreRight [] = Unit
AreRight (x ∷ xs) = (x.cnt_prime ≡ count_range x.first x.last) × AreRight xs

pub record Inv (s : System) : Type 0 where
  pub shape : Shape s s.main_pc
  pub agree :
      (a : ℕ)
      → a < num_thread
      → Agrees (share_of s a) (s.threads a) (s.thread_ret a) (stage s.main_pc a)
  pub right : AreRight s.printed

-- A step of a thread stays in its stage: the new program counter and the new result.
abbrev pub next_pc : Pc → ThreadRet → Pc
next_pc not_created r = not_created
next_pc entering r = before_wait
next_pc before_wait r = waiting
next_pc waiting r = waiting
next_pc woken release = exited
next_pc woken pending = before_wait
next_pc woken (counted k) = before_wait
next_pc exited r = exited

abbrev pub next_ret : ℕ → Pc → ThreadRet → ThreadRet
next_ret n not_created r = r
next_ret n entering r = counted 0
next_ret n before_wait r = r
next_ret n waiting r = r
next_ret n woken release = release
next_ret n woken pending = counted n
next_ret n woken (counted k) = counted n
next_ret n exited r = r

next-Rests : (n : ℕ) (p : Pc) (r : ThreadRet) → Rests p → Rests (next_pc p r) × (next_ret n p r ≡ r)
next-Rests n p r (inl at) = rw at (inr refl, refl)
next-Rests n p r (inr at) = rw at (inr refl, refl)

pub next-Agrees :
    (n : ℕ) (p : Pc) (r : ThreadRet) (g : Stage)
    → Agrees n p r g
    → Agrees n (next_pc p r) (next_ret n p r) g
next-Agrees n p r resting h = (next-Rests n p r h).0
next-Agrees n p r reset (h, e) = let (a, b) = next-Rests n p r h in (a, b ∙ e)
next-Agrees n p r active (inl (e, inl h)) = let (a, b) = next-Rests n p r h in inl (b ∙ e, inl a)
next-Agrees n p r active (inl (e, inr at)) = rw (at, e) (inr (inl refl, refl))
next-Agrees n p r active (inr (h, e)) = let (a, b) = next-Rests n p r h in inr (a, b ∙ e)
next-Agrees n p r done (h, e) = let (a, b) = next-Rests n p r h in (a, b ∙ e)
next-Agrees n p r released (h, e) = let (a, b) = next-Rests n p r h in (a, b ∙ e)
next-Agrees n p r leaving (e, inl h) = let (a, b) = next-Rests n p r h in (b ∙ e, inl a)
next-Agrees n p r leaving (e, inr (inl at)) = rw (at, e) (refl, inr (inr refl))
next-Agrees n p r leaving (e, inr (inr at)) = rw at (e, inr (inr refl))
