-- ===== src/Project3/Tests.antt =====
-- Scans of project3 by evaluation, and the theorems at them.
use ite.Base.{ℕ, zero, suc, ◌*◌, ◌≡◌, refl, arith, Option, none, some, [], ◌∷◌}
use ite.Project3.Scan.{Scanned, copied, scan}
use ite.Project3.Updates.{Update, registers_at, collect, update, length-collect}
use ite.Project3.Linearizable.{Timing, copies, IsAtomic, scan-IsAtomic}
use ite.Project3.WaitFree.{scan_ends}

-- Thread 1 stores 7 at the moment 1; collect `k` loads its two registers at the moment `2 k`.
stores : ℕ → Option Update
stores (suc zero) = some (record { me = 1; value = 7; snap = 0 ∷ 0 ∷ [] })
stores zero = none
stores _ = none

abbrev at : ℕ → ℕ → ℕ
at k i = 2 * k

abbrev from : ℕ → ℕ
from k = 2 * k

timing : Timing at from
timing = record { begins = λ k i. omega arith; ends = λ k i. omega arith }

scan_example : scan 2 (copies 2 stores at from) ≡ some (copied (7 ∷ 0 ∷ []))
unfolding scan stores registers_at collect update
scan_example = refl

scan-IsAtomic_example :
    (r : Scanned) × (scan 2 (copies 2 stores at from) ≡ some r) × IsAtomic 2 stores at from r
scan-IsAtomic_example = scan-IsAtomic 2 stores at from timing

scan_ends_example : (r : Scanned) × (scan 2 (copies 2 stores at from) ≡ some r)
scan_ends_example =
    scan_ends 2 (copies 2 stores at from) (λ m. length-collect 2 (registers_at 2 stores) (at m))
