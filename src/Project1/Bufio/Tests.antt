-- ===== src/Project1/Bufio/Tests.antt =====
-- Small files and buffers for project1/src/bufio.cpp.
use ite.Base.{ℕ, ◌+◌, ◌*◌, ◌≡◌, ◌≤◌, ◌<◌, ◌⊎◌, refl, none, some, List, [], ◌∷◌, ◌++◌, length, arith}
use ite.Project1.Bufio.{drop, BufferedIoFd, buffered_open, buffered_flush, buffered_append}
use ite.Project1.Bufio.Output.{append_all, concat, append_all-flush}

abbrev chunks : List (List ℕ)
chunks = (1 ∷ 2 ∷ []) ∷ (3 ∷ 4 ∷ []) ∷ (5 ∷ 6 ∷ []) ∷ []

abbrev five_bytes : BufferedIoFd
five_bytes = record {
  bufsiz = 5;
  written = 0;
  offset = 0;
  buf = 0 ∷ 0 ∷ 0 ∷ 0 ∷ 0 ∷ [];
  ptr = 0;
  file = [];
}

-- A buffer of five bytes takes two records of two bytes, and the third one goes over its end: it is
-- not yet full, so it is not written out. The 64 MB for records of 100 bytes are such a buffer.
third_overruns : append_all five_bytes chunks ≡ none
unfolding buffered_append
third_overruns = refl

-- What the buffer has behind two records.
abbrev rest : ℕ
rest = 1

abbrev eight_bytes : List ℕ
eight_bytes = 9 ∷ 9 ∷ 9 ∷ 9 ∷ 9 ∷ 9 ∷ 9 ∷ 9 ∷ []

append_all-flush_example :
    (fd : BufferedIoFd) × (buffered_open (some eight_bytes) five_bytes.buf (2 * 2 + rest) ≡ some fd)
    × ((rest ≡ 0) ⊎ (length chunks ≤ 2)
        → (after : BufferedIoFd) × (append_all fd chunks ≡ some after)
          × ((buffered_flush after).file
              ≡ concat chunks ++ drop (length (concat chunks)) eight_bytes))
    × (0 < rest → 2 < length chunks → append_all fd chunks ≡ none)
append_all-flush_example =
    append_all-flush 2 2 rest eight_bytes five_bytes.buf chunks (omega arith) (omega arith) refl
      (refl, (refl, (refl, tt)))
