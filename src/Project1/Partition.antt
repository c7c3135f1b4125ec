-- ===== src/Project1/Partition.antt =====
-- How project1/src/main.cpp cuts the records into runs, and a run into reads.
use ite.Base.{
  ℕ, zero, suc, ◌+◌, ◌-◌, ◌*◌, ◌/◌, ◌%◌, ◌^◌, ◌≡◌, ◌<◌, ◌≤◌, true, ◌==◌, if◌then◌else◌, ltb, leb,
  arith, ap, ◌∙◌, sum_over, Bool-cases, inl, inr, ◌⊎◌,
}
use native.Mathlib.Nat.{div-add-mod, mod-lt, mul-suc}

abbrev pub nb_record : ℕ
nb_record = 100

abbrev pub threshold_read : ℕ
threshold_read = 1000000

abbrev pub min : ℕ → ℕ → ℕ
min a b = if ltb a b then a else b

-- `num_partition`, for the number of records in the file and in memory.
unfoldable pub num_partition : ℕ → ℕ → ℕ
num_partition total size = total / size + (if total % size == 0 then 0 else 1)

-- `ext.num` of the run `tidx`, whose first record is `offset`.
unfoldable pub run_length : ℕ → ℕ → ℕ → ℕ
run_length total size tidx = let offset = size * tidx in min (offset + size) total - offset

-- `maxlen` of the read that begins at `start`, in `phase1_sorting`.
unfoldable pub read_length : ℕ → ℕ → ℕ
read_length num_records start =
    if leb num_records (start + threshold_read) then num_records - start else threshold_read

-- The number of reads of the loop of `phase1_sorting`.
unfoldable pub num_reads : ℕ → ℕ
num_reads num_records = (num_records + threshold_read - 1) / threshold_read

min_cases : (a b : ℕ) → ((a ≤ b) × (min a b ≡ a)) ⊎ ((b ≤ a) × (min a b ≡ b))
min_cases a b = ground arith

-- The first runs are full, as long as they end within the records.
run_length-full :
    (total size tidx : ℕ) → size * suc tidx ≤ total → run_length total size tidx ≡ size
unfolding run_length
run_length-full total size tidx h = elim (min_cases (size * tidx + size) total) [
  | inl (le, e) ↦ omega (arith, e)
  | inr (le, e) ↦ omega (arith, e, le, h, mul-suc size tidx)
]

full_runs : (total size m : ℕ) → size * m ≤ total → sum_over m (run_length total size) ≡ size * m
full_runs total size zero h = omega arith
full_runs total size (suc m) h = omega (
  arith,
  full_runs total size m (omega (arith, h, mul-suc size m)),
  run_length-full total size m h,
  mul-suc size m,
)

-- The runs have all records, each once: their lengths add up to the number of records. And no run is
-- longer than the memory for records. The memory takes at least one record.
pub num_partition-run_length :
    (total size : ℕ)
    → 0 < size
    → (sum_over (num_partition total size) (run_length total size) ≡ total)
      × ((tidx : ℕ) → run_length total size tidx ≤ size)
unfolding num_partition run_length
num_partition-run_length total size positive = (
  elim (Bool-cases (total % size == 0)) [
    | inl whole ↦ rw whole (
        ap (λ (n : ℕ). sum_over n (run_length total size)) (plus_zero (total / size))
        ∙ full_runs total size (total / size) (omega (arith, div-add-mod total size))
        ∙ exact (total % size) whole (div-add-mod total size))
    | inr part ↦ rw part (
        ap (λ (n : ℕ). sum_over n (run_length total size)) (plus_one (total / size))
        ∙ omega (
          arith,
          full_runs total size (total / size) (omega (arith, div-add-mod total size)),
          rest,
        ))
  ],
  λ tidx. elim (min_cases (size * tidx + size) total) [
    | inl (le, e) ↦ omega (arith, e)
    | inr (le, e) ↦ omega (arith, e, le)
  ],
)
  where
    plus_zero : (n : ℕ) → n + 0 ≡ n
    plus_zero n = omega arith

    plus_one : (n : ℕ) → n + 1 ≡ suc n
    plus_one n = omega arith

    exact :
        (r : ℕ)
        → (r == 0) ≡ true
        → size * (total / size) + r ≡ total
        → size * (total / size) ≡ total
    exact r z e = ground arith

    rest : size * (total / size) + run_length total size (total / size) ≡ total
    rest = elim (min_cases (size * (total / size) + size) total) [
      | inl (le, e) ↦ omega (arith, e, le, div-add-mod total size, mod-lt total positive)
      | inr (le, e) ↦ omega (arith, e, le, div-add-mod total size)
    ]

abbrev pub input_bufsiz : ℕ
input_bufsiz = 134217728

-- `ext.bufsiz` of a run but the first.
unfoldable pub run_bufsiz : ℕ → ℕ → ℕ → ℕ
unfolding run_length
run_bufsiz total size tidx = min (input_bufsiz / nb_record) (run_length total size tidx)

-- `rmsize` after the runs from `tidx` down to 1: what is left for the buffer of the first run. It is a
-- size_t, which wraps around.
unfoldable pub rm_size : ℕ → ℕ → ℕ → ℕ → ℕ
unfolding run_bufsiz
rm_size total size zero rmsize = rmsize
rm_size total size (suc tidx) rmsize =
    rm_size total size tidx ((rmsize + 2 ^ 64 - run_bufsiz total size (suc tidx)) % 2 ^ 64)

-- A later run takes at most a full input buffer.
run_bufsiz-le : (total size tidx : ℕ) → run_bufsiz total size tidx ≤ input_bufsiz / nb_record
unfolding run_bufsiz
run_bufsiz-le total size tidx =
    elim (min_cases (input_bufsiz / nb_record) (run_length total size tidx)) [
      | inl (le, e) ↦ omega (arith, e)
      | inr (le, e) ↦ omega (arith, e, le)
    ]

-- The buffers of `n` later runs.
abbrev pub later_bufsiz : ℕ → ℕ → ℕ → ℕ
later_bufsiz total size n = sum_over n (λ i. run_bufsiz total size (suc i))

later_bufsiz-le : (total size n : ℕ) → later_bufsiz total size n ≤ n * (input_bufsiz / nb_record)
later_bufsiz-le total size zero = omega arith
later_bufsiz-le total size (suc n) =
    omega (arith, later_bufsiz-le total size n, run_bufsiz-le total size (suc n))

rm_size-later_bufsiz :
    (total size n rmsize : ℕ)
    → rmsize < 2 ^ 64
    → later_bufsiz total size n ≤ rmsize
    → rm_size total size n rmsize + later_bufsiz total size n ≡ rmsize
unfolding rm_size
rm_size-later_bufsiz total size zero rmsize small fits = omega arith
rm_size-later_bufsiz total size (suc n) rmsize small fits =
    let left : (rmsize + 2 ^ 64 - run_bufsiz total size (suc n)) % 2 ^ 64
        ≡ rmsize - run_bufsiz total size (suc n) =
      omega (arith, small, fits) in
    omega (
      arith,
      left,
      fits,
      rm_size-later_bufsiz total size n ((rmsize + 2 ^ 64 - run_bufsiz total size (suc n)) % 2 ^ 64)
          (omega arith) (omega (arith, left, fits)),
    )

-- As long as an input buffer of 128 MB for each of `n` later runs fits into the memory for records,
-- the size of the first buffer does not wrap around: it is what the later buffers leave, which is at
-- least what full input buffers would leave.
pub rm_size_lem :
    (total size n : ℕ)
    → size < 2 ^ 64
    → n * (input_bufsiz / nb_record) ≤ size
    → (rm_size total size n size + later_bufsiz total size n ≡ size)
      × (size - n * (input_bufsiz / nb_record) ≤ rm_size total size n size)
rm_size_lem total size n small fits =
    let le = later_bufsiz-le total size n in
    let all = rm_size-later_bufsiz total size n size small (omega (arith, le, fits)) in
    (all, omega (arith, all, le))
