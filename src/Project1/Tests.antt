-- ===== src/Project1/Tests.antt =====
-- Small runs for project1/src/main.cpp.
use ite.Base.{
  ℕ, zero, suc, ◌+◌, ◌-◌, ◌*◌, ◌/◌, ◌≡◌, ◌≤◌, ◌<◌, refl, some, List, [], ◌∷◌, arith, sum_over, Has,
  inl, inr,
}
use ite.Project1.Records.{ExternalInfo, get_next_record, drain}
use ite.Project1.Partition.{
  num_partition, run_length, num_reads, num_partition-run_length, nb_record, input_bufsiz, rm_size,
  later_bufsiz, rm_size_lem,
}
use ite.Project1.Reads.{read_run, read_run_lem}

-- A buffer of two records, of which one is left, and a file with three.
abbrev four_records : ExternalInfo
four_records = record { file = 3 ∷ 4 ∷ 5 ∷ []; buf = 1 ∷ 2 ∷ []; ptr = 1; remain = 1; bufsiz = 2 }

four_in_order : drain 5 four_records ≡ some (2 ∷ 3 ∷ 4 ∷ 5 ∷ [])
unfolding drain get_next_record
four_in_order = refl

last_run_is_short : run_length 10 4 2 ≡ 2
unfolding run_length
last_run_is_short = refl

num_partition-run_length_example :
    (sum_over (num_partition 10 4) (run_length 10 4) ≡ 10) × ((tidx : ℕ) → run_length 10 4 tidx ≤ 4)
num_partition-run_length_example = num_partition-run_length 10 4 (omega arith)

-- A run of two reads, from record 7 on, of which the second read is the first to be made.
abbrev two_reads : List ℕ
two_reads = 1 ∷ 0 ∷ []

abbrev records_of_two : ℕ
records_of_two = 1000003

two_reads-Has : (i : ℕ) → i < num_reads records_of_two → Has i two_reads
unfolding num_reads
two_reads-Has zero lt = inr (inl refl)
two_reads-Has (suc zero) lt = inl refl
two_reads-Has (suc (suc i)) lt = absurd (omega (arith, lt))

two_reads-only : (i : ℕ) → Has i two_reads → i < num_reads records_of_two
unfolding num_reads
two_reads-only i (inl e) = omega (arith, e)
two_reads-only i (inr (inl e)) = omega (arith, e)
two_reads-only i (inr (inr never)) = elim never [ ]

read_run_lem_example :
    (100000250 < records_of_two * 100
      → read_run (λ k. k) 7 records_of_two two_reads (λ _. 0) 100000250 ≡ 7 * 100 + 100000250)
    × (records_of_two * 100 ≤ 100000250
        → read_run (λ k. k) 7 records_of_two two_reads (λ _. 0) 100000250 ≡ 0)
read_run_lem_example =
    read_run_lem (λ k. k) 7 records_of_two two_reads (λ _. 0) two_reads-Has two_reads-only 100000250

-- A file of 40 million records, of which the memory takes 20 million: there is one later run.
rm_size_lem_example :
    (rm_size 40000000 20000000 1 20000000 + later_bufsiz 40000000 20000000 1 ≡ 20000000)
    × (20000000 - 1 * (input_bufsiz / nb_record) ≤ rm_size 40000000 20000000 1 20000000)
rm_size_lem_example = rm_size_lem 40000000 20000000 1 (omega arith) (omega arith)
