-- ===== src/Lab11/CoarseList/Workload.antt =====
-- The file workload.txt, as `main` of lab11/coarse_grained.cpp reads it: the code of each character, in
-- order, and fscanf of `%d`, `%c` and blanks. A scan that fails leaves its variable as it was, and the
-- code goes on. An int is counted from INT_MIN on. The numbers in the file are those of an int, and
-- its rows fit into the arrays.
pub mod Decimal
pub mod RoundTrip
use ite.Base.{
  ℕ, zero, suc, ◌+◌, ◌-◌, ◌*◌, Bool, ◌||◌, ◌&&◌, Option, none, some, List, [], ◌∷◌, ◌==◌,
  if◌then◌else◌, ltb, leb,
}
use ite.Lab11.CoarseList.{Work, WorkType, add, remove, contains, other}

-- 'A', 'R' and 'C'
abbrev pub work_type : ℕ → WorkType
work_type c =
    if c == 65 then add else if c == 82 then remove else if c == 67 then contains else other

abbrev pub int_zero : ℕ
int_zero = 2147483648

abbrev pub is_blank : ℕ → Bool
is_blank c = c == 32 || (leb 9 c && leb c 13)

abbrev pub is_digit : ℕ → Bool
is_digit c = leb 48 c && ltb c 58

-- A blank of a format.
unfoldable pub skip : List ℕ → List ℕ
skip [] = []
skip (c ∷ cs) = if is_blank c then skip cs else c ∷ cs

unfoldable pub read_digits : ℕ → List ℕ → ℕ × List ℕ
read_digits n [] = (n, [])
read_digits n (c ∷ cs) =
    let rest = read_digits (n * 10 + (c - 48)) cs in if is_digit c then rest else (n, c ∷ cs)

-- Digits, at least one, of which `sign` makes an int.
unfoldable pub scan_digits : (ℕ → ℕ) → List ℕ → Option ℕ × List ℕ
unfolding read_digits
scan_digits sign [] = (none, [])
scan_digits sign (c ∷ cs) =
    if is_digit c
    then (let r = read_digits 0 (c ∷ cs) in (some (sign r.0), r.1))
    else (none, c ∷ cs)

abbrev pub positive : ℕ → ℕ
positive n = int_zero + n

abbrev pub negative : ℕ → ℕ
negative n = int_zero - n

unfoldable pub scan_signed : List ℕ → Option ℕ × List ℕ
unfolding scan_digits
scan_signed [] = (none, [])
scan_signed (c ∷ cs) =
    if c == 45
    then scan_digits negative cs
    else if c == 43
    then scan_digits positive cs
    else scan_digits positive (c ∷ cs)

-- `%d`
abbrev pub scan_int : List ℕ → Option ℕ × List ℕ
scan_int cs = scan_signed (skip cs)

-- The locals `work_type` and `value` of `main`.
pub record Locals : Type 0 where
  pub type : ℕ
  pub value : ℕ

-- What a scan of `%c %d ` leaves, once its letter has been found.
abbrev pub store : ℕ → ℕ → Option ℕ × List ℕ → Locals × List ℕ
store c value (none, rest) = (record { type = c; value = value }, rest)
store c value (some v, rest) = (record { type = c; value = v }, skip rest)

-- `%c %d `, which ends at the first conversion that fails.
unfoldable pub scan_work : Locals → List ℕ → Locals × List ℕ
unfolding skip scan_signed
scan_work l [] = (l, [])
scan_work l (c ∷ cs) = store c l.value (scan_int cs)

abbrev pub work_of : Locals → Work
work_of l = record { type = work_type l.type; value = l.value }

-- The row of a thread: what is stored, the locals, and what is left of the file.
unfoldable pub read_works : ℕ → Locals → List ℕ → (List Work) × Locals × List ℕ
unfolding scan_work
read_works zero l cs = ([], l, cs)
read_works (suc n) l cs =
    let (l', cs') = scan_work l cs in
    let (ws, l'', rest) = read_works n l' cs' in (work_of l' ∷ ws, l'', rest)

abbrev pub pass_over : Option ℕ × List ℕ → List ℕ
pass_over (none, rest) = rest
pass_over (some v, rest) = skip rest

-- `%d `; the number is not used.
unfoldable pub scan_thread_num : List ℕ → List ℕ
unfolding skip scan_signed
scan_thread_num cs = pass_over (scan_int cs)

unfoldable pub read_rows : ℕ → ℕ → Locals → List ℕ → List (List Work)
unfolding scan_thread_num read_works
read_rows zero num_work l cs = []
read_rows (suc n) num_work l cs =
    let (ws, l', rest) = read_works num_work l (scan_thread_num cs) in
    ws ∷ read_rows n num_work l' rest

-- How often a loop up to an int runs.
abbrev pub rounds : ℕ → ℕ
rounds n = n - int_zero

-- What follows the second number of `%d %d`, and what follows the first.
unfoldable pub read_after_work : ℕ → Locals → Option ℕ × List ℕ → List (List Work)
unfolding read_rows
read_after_work threads l (none, rest) = read_rows threads 0 l rest
read_after_work threads l (some w, rest) = read_rows threads (rounds w) l rest

unfoldable pub read_after_thread : ℕ → Locals → Option ℕ × List ℕ → List (List Work)
unfolding skip scan_signed read_rows read_after_work
read_after_thread num_thread l (none, rest) = read_rows (rounds num_thread) 0 l rest
read_after_thread num_thread l (some t, rest) = read_after_work (rounds t) l (scan_int rest)

-- `num_thread` is a local, and `num_work` a global that is 0 at first.
unfoldable pub read_workload : ℕ → Locals → List ℕ → List (List Work)
unfolding skip scan_signed read_after_thread
read_workload num_thread l cs = read_after_thread num_thread l (scan_int cs)
