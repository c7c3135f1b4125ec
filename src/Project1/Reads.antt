-- ===== src/Project1/Reads.antt =====
-- The reads of `phase1_sorting` in project1/src/main.cpp: a run comes from the file into the buffer by
-- reads that run in parallel. The file and the buffer give the byte at each place.
use ite.Base.{
  ℕ, ◌+◌, ◌-◌, ◌*◌, ◌/◌, ◌≡◌, ◌≤◌, ◌<◌, Bool, true, false, ◌&&◌, List, [], ◌∷◌, if◌then◌else◌, ltb,
  leb, arith, ap, ◌∙◌, Bool-cases, inl, inr, Has, refl,
}
use mathlib.Core.Path.{subst}
use ite.Project1.Partition.{nb_record, threshold_read, read_length, num_reads}

-- The arguments of `pread`: the place in the buffer, the number of bytes, and the place in the file.
pub record Pread : Type 0 where
  pub into : ℕ
  pub nbytes : ℕ
  pub from : ℕ

-- The read of the iteration `i` of the loop, for a run of `num_records` records from record `offset` on.
unfoldable pub read_of : ℕ → ℕ → ℕ → Pread
unfolding read_length
read_of offset num_records i =
    let start = threshold_read * i in
    record {
      into = start * nb_record;
      nbytes = read_length num_records start * nb_record;
      from = (offset + start) * nb_record;
    }

abbrev pub is_inside : Pread → ℕ → Bool
is_inside r k = leb r.into k && ltb k (r.into + r.nbytes)

-- A read that finds all bytes that it asks for.
abbrev pub pread : (ℕ → ℕ) → Pread → (ℕ → ℕ) → ℕ → ℕ
pread file r buf k = if is_inside r k then file (r.from + (k - r.into)) else buf k

-- The iterations, in the order in which the threads make them.
unfoldable pub read_run : (ℕ → ℕ) → ℕ → ℕ → List ℕ → (ℕ → ℕ) → ℕ → ℕ
unfolding read_of
read_run file offset num_records [] buf = buf
read_run file offset num_records (i ∷ order) buf =
    read_run file offset num_records order (pread file (read_of offset num_records i) buf)

-- The iteration that reads the byte `k`.
abbrev reader_of : ℕ → ℕ
reader_of k = k / (threshold_read * nb_record)

module _ (file : ℕ → ℕ) (offset num_records : ℕ) where
  abbrev length_of : ℕ → ℕ
  length_of i = read_length num_records (threshold_read * i)

  length_of-cases :
      (i : ℕ)
      → threshold_read * i ≤ num_records
      → (threshold_read * i + length_of i ≤ num_records)
        × ((k : ℕ)
            → k < num_records
            → k < threshold_read * i + threshold_read
            → k < threshold_read * i + length_of i)
  unfolding read_length
  length_of-cases i le = elim (Bool-cases (leb num_records (threshold_read * i + threshold_read))) [
    | inl last ↦ rw last (omega (arith, le), λ k a b. omega (arith, le, a))
    | inr more ↦ rw more (whole more, λ k a b. b)
  ]
    where
      whole :
          leb num_records (threshold_read * i + threshold_read) ≡ false
          → threshold_read * i + threshold_read ≤ num_records
      whole more = ground arith

  -- A read puts the right byte wherever it writes.
  is_right :
      (i k : ℕ)
      → is_inside (read_of offset num_records i) k ≡ true
      → file ((read_of offset num_records i).from + (k - (read_of offset num_records i).into))
        ≡ file (offset * nb_record + k)
  unfolding read_of
  is_right i k inside =
      let le : threshold_read * i * nb_record ≤ k = below (threshold_read * i * nb_record) inside in
      ap file (omega (arith, le))
    where
      below : (a : ℕ) → (leb a k && ltb k (a + length_of i * nb_record)) ≡ true → a ≤ k
      below a h = ground arith

  stays_right :
      (order : List ℕ) (buf : ℕ → ℕ) (k : ℕ)
      → buf k ≡ file (offset * nb_record + k)
      → read_run file offset num_records order buf k ≡ file (offset * nb_record + k)
  unfolding read_run
  stays_right [] buf k h = h
  stays_right (i ∷ order) buf k h =
      stays_right order (pread file (read_of offset num_records i) buf) k
        (elim (Bool-cases (is_inside (read_of offset num_records i) k)) [
          | inl inside ↦ rw inside (is_right i k inside)
          | inr outside ↦ rw outside h
        ])

  reader_of-inside :
      (k : ℕ)
      → k < num_records * nb_record
      → is_inside (read_of offset num_records (reader_of k)) k ≡ true
  unfolding read_of
  reader_of-inside k lt =
      let start = threshold_read * reader_of k in
      let (within, reach) = length_of-cases (reader_of k) (omega (arith, lt)) in
      let far : k / nb_record < start + length_of (reader_of k) =
        reach (k / nb_record) (omega (arith, lt)) (omega arith) in
      both (start * nb_record) (length_of (reader_of k) * nb_record) (omega arith)
        (omega (arith, far))
    where
      both : (a n : ℕ) → a ≤ k → k < a + n → (leb a k && ltb k (a + n)) ≡ true
      both a n le lt = ground arith

  covered :
      (order : List ℕ) (buf : ℕ → ℕ) (k : ℕ)
      → k < num_records * nb_record
      → Has (reader_of k) order
      → read_run file offset num_records order buf k ≡ file (offset * nb_record + k)
  unfolding read_run
  covered [] buf k lt h = elim h [ ]
  covered (i ∷ order) buf k lt (inl same) =
      stays_right order (pread file (read_of offset num_records i) buf) k (
        subst
          (λ (j : ℕ).
            pread file (read_of offset num_records j) buf k ≡ file (offset * nb_record + k))
          same' (let f = reader_of-inside k lt in rw f (is_right (reader_of k) k f)))
    where
      same' : reader_of k ≡ i
      same' = ground arith
  covered (i ∷ order) buf k lt (inr h) =
      covered order (pread file (read_of offset num_records i) buf) k lt h

  outside :
      (order : List ℕ) (buf : ℕ → ℕ) (k : ℕ)
      → ((i : ℕ) → Has i order → i < num_reads num_records)
      → num_records * nb_record ≤ k
      → read_run file offset num_records order buf k ≡ buf k
  unfolding read_run num_reads read_of
  outside [] buf k all le = ap buf (omega arith)
  outside (i ∷ order) buf k all le =
      outside order (pread file (read_of offset num_records i) buf) k (λ j h. all j (inr h)) le
      ∙ (let f = misses i (all i (inl refl)) in rw f refl)
    where
      beyond : (a n : ℕ) → a + n ≤ k → (leb a k && ltb k (a + n)) ≡ false
      beyond a n le = ground arith

      misses :
          (i : ℕ) → i < num_reads num_records → is_inside (read_of offset num_records i) k ≡ false
      misses i lt =
          let (within, reach) = length_of-cases i (omega (arith, lt)) in
          beyond (threshold_read * i * nb_record) (length_of i * nb_record)
            (omega (arith, within, le))

-- In whatever order the threads make the iterations of the loop, each at least once and no other: the
-- buffer then has just the bytes of the run, from its first record in the file on, and nothing behind
-- them has changed.
pub read_run_lem :
    (file : ℕ → ℕ) (offset num_records : ℕ) (order : List ℕ) (buf : ℕ → ℕ)
    → ((i : ℕ) → i < num_reads num_records → Has i order)
    → ((i : ℕ) → Has i order → i < num_reads num_records)
    → (k : ℕ)
    → (k < num_records * nb_record
        → read_run file offset num_records order buf k ≡ file (offset * nb_record + k))
      × (num_records * nb_record ≤ k → read_run file offset num_records order buf k ≡ buf k)
unfolding num_reads
read_run_lem file offset num_records order buf all only k = (
  λ lt. covered file offset num_records order buf k lt (all (reader_of k) (omega (arith, lt))),
  λ le. outside file offset num_records order buf k only le,
)
