-- ===== src/Lab11/CoarseList/Workload/RoundTrip.antt =====
-- A workload that is written to a file is what `main` of lab11/coarse_grained.cpp reads from it.
use ite.Base.{ℕ, suc, ◌+◌, ◌≡◌, refl, some, List, [], ◌∷◌, length, arith, ap, ◌∙◌, sym, Option}
use ite.Lab11.CoarseList.{Work, WorkType, add, remove, contains, other}
use ite.Lab11.CoarseList.Workload.{
  work_type, int_zero, skip, read_digits, scan_int, Locals, store, scan_work, pass_over, work_of,
  read_after_thread, read_after_work, read_works, scan_thread_num, read_rows, rounds, read_workload,
}
use ite.Lab11.CoarseList.Workload.Decimal.{show_int, Ends, skip-show_int, scan-show_int}

-- 'A', 'R', 'C', and 'X' for a piece of work of no kind.
abbrev pub letter_of : WorkType → ℕ
letter_of add = 65
letter_of remove = 82
letter_of contains = 67
letter_of other = 88

-- A line for each piece of work, a letter and a value, before `acc`.
abbrev pub show_works : List Work → List ℕ → List ℕ
show_works [] acc = acc
show_works (w ∷ ws) acc = letter_of w.type ∷ 32 ∷ show_int w.value (10 ∷ show_works ws acc)

-- The rows, each after a line with the number of its thread.
abbrev pub show_rows : ℕ → List (List Work) → List ℕ
show_rows tid [] = []
show_rows tid (ws ∷ rows) =
    show_int (int_zero + tid) (10 ∷ show_works ws (show_rows (tid + 1) rows))

-- The file, with the number of threads and of pieces of work in its first line.
abbrev pub show_workload : ℕ → List (List Work) → List ℕ
show_workload num_work rows =
    show_int (int_zero + length rows) (32 ∷ show_int (int_zero + num_work) (10 ∷ show_rows 0 rows))

abbrev pub HaveLength : ℕ → List (List Work) → Type 0
HaveLength n [] = Unit
HaveLength n (ws ∷ rows) = (length ws ≡ n) × HaveLength n rows

letter_back : (t : WorkType) → work_type (letter_of t) ≡ t
letter_back add = refl
letter_back remove = refl
letter_back contains = refl
letter_back other = refl

line-Ends : (acc : List ℕ) → Ends (10 ∷ acc)
unfolding read_digits
line-Ends acc n = refl

number-Ends : (acc : List ℕ) → Ends (32 ∷ acc)
unfolding read_digits
number-Ends acc n = refl

abbrev Starts : List ℕ → Type 0
Starts cs = skip cs ≡ cs

show_works-Starts : (ws : List Work) (acc : List ℕ) → Starts acc → Starts (show_works ws acc)
unfolding skip
show_works-Starts [] acc h = h
show_works-Starts (w ∷ ws) acc h = letter w.type
  where
    letter : (t : WorkType) → Starts (letter_of t ∷ 32 ∷ show_int w.value (10 ∷ show_works ws acc))
    letter add = refl
    letter remove = refl
    letter contains = refl
    letter other = refl

show_rows-Starts : (tid : ℕ) (rows : List (List Work)) → Starts (show_rows tid rows)
unfolding skip
show_rows-Starts tid [] = refl
show_rows-Starts tid (ws ∷ rows) =
    skip-show_int (int_zero + tid) (10 ∷ show_works ws (show_rows (tid + 1) rows))

abbrev locals_of : Work → Locals
locals_of w = record { type = letter_of w.type; value = w.value }

-- An int and the blank after it.
scan_line : (v : ℕ) (acc : List ℕ) → scan_int (show_int v (10 ∷ acc)) ≡ (some v, 10 ∷ acc)
scan_line v acc = scan-show_int v (10 ∷ acc) (line-Ends acc)

scan_work-show :
    (w : Work) (l : Locals) (acc : List ℕ)
    → Starts acc
    → scan_work l (letter_of w.type ∷ 32 ∷ show_int w.value (10 ∷ acc)) ≡ (locals_of w, acc)
unfolding scan_work skip
scan_work-show w l acc h =
    ap (store (letter_of w.type) l.value) (scan_line w.value acc)
    ∙ ap (λ (cs : List ℕ). (locals_of w, cs)) h

-- The locals after a row.
abbrev last_of : Locals → List Work → Locals
last_of l [] = l
last_of l (w ∷ ws) = last_of (locals_of w) ws

abbrev joined : Locals → (List Work) × Locals × List ℕ → (List Work) × Locals × List ℕ
joined l (ws, l', rest) = (work_of l ∷ ws, l', rest)

-- What `read_works` does once it has scanned a piece of work.
abbrev row_after : ℕ → Locals × List ℕ → (List Work) × Locals × List ℕ
row_after n p = joined p.0 (read_works n p.0 p.1)

read-show_works :
    (ws : List Work) (l : Locals) (acc : List ℕ)
    → Starts acc
    → read_works (length ws) l (show_works ws acc) ≡ (ws, last_of l ws, acc)
unfolding read_works
read-show_works [] l acc h = refl
read-show_works (w ∷ ws) l acc h =
    ap (row_after (length ws)) (scan_work-show w l (show_works ws acc) (show_works-Starts ws acc h))
    ∙ ap (joined (locals_of w)) (read-show_works ws (locals_of w) acc h)
    ∙ ap (λ (t : WorkType). ((record { type = t; value = w.value }) ∷ ws, last_of l (w ∷ ws), acc))
        (letter_back w.type)

read-show_rows :
    (rows : List (List Work)) (tid num_work : ℕ) (l : Locals)
    → HaveLength num_work rows
    → read_rows (length rows) num_work l (show_rows tid rows) ≡ rows
unfolding read_rows scan_thread_num skip
read-show_rows [] tid n l h = refl
read-show_rows (ws ∷ rows) tid n l (e, h) =
    let after = show_rows (tid + 1) rows in
    ap (λ (m : ℕ). read_rows (suc (length rows)) m l (show_rows tid (ws ∷ rows))) (sym e)
    ∙ ap (λ (p : Option ℕ × List ℕ). rest_after (read_works (length ws) l (pass_over p)))
        (scan_line (int_zero + tid) (show_works ws after))
    ∙ ap (λ (cs : List ℕ). rest_after (read_works (length ws) l cs))
        (show_works-Starts ws after (show_rows-Starts (tid + 1) rows))
    ∙ ap rest_after (read-show_works ws l after (show_rows-Starts (tid + 1) rows))
    ∙ ap (λ (m : ℕ). ws ∷ read_rows (length rows) m (last_of l ws) after) e
    ∙ ap (λ (r : List (List Work)). ws ∷ r) (read-show_rows rows (tid + 1) n (last_of l ws) h)
  where
    rest_after : (List Work) × Locals × List ℕ → List (List Work)
    rest_after (row, l', rest) = row ∷ read_rows (length rows) (length ws) l' rest

-- The blank that is left of the first line is skipped by the next scan.
blank_line :
    (rows : List (List Work)) (num_work : ℕ) (l : Locals)
    → read_rows (length rows) num_work l (10 ∷ show_rows 0 rows)
      ≡ read_rows (length rows) num_work l (show_rows 0 rows)
unfolding read_rows scan_thread_num skip
blank_line [] num_work l = refl
blank_line (ws ∷ rows) num_work l = refl

-- A file that shows rows of `num_work` pieces of work, with the number of the rows and `num_work` in its
-- first line, is read as just these rows, whatever the locals are at first.
pub read_workload-show_workload :
    (rows : List (List Work)) (num_thread num_work : ℕ) (l : Locals)
    → HaveLength num_work rows
    → read_workload num_thread l (show_workload num_work rows) ≡ rows
unfolding read_workload read_after_thread read_after_work skip
read_workload-show_workload rows num_thread num_work l h =
    let line = 10 ∷ show_rows 0 rows in
    let first : rounds (int_zero + length rows) ≡ length rows = omega arith in
    let second : rounds (int_zero + num_work) ≡ num_work = omega arith in
    ap (read_after_thread num_thread l) (
      scan-show_int (int_zero + length rows) (32 ∷ show_int (int_zero + num_work) line)
        (number-Ends (show_int (int_zero + num_work) line)))
    ∙ ap (read_after_work (rounds (int_zero + length rows)) l)
        (scan_line (int_zero + num_work) (show_rows 0 rows))
    ∙ ap (λ (m : ℕ). read_rows m (rounds (int_zero + num_work)) l line) first
    ∙ ap (λ (m : ℕ). read_rows (length rows) m l line) second
    ∙ blank_line rows num_work l
    ∙ read-show_rows rows 0 num_work l h
